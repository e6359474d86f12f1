-- ===== src/Client/Classes/Spec.antt =====
-- The classes are those of the relation that the pairs generate.
use proxysql_on_k8s.Base.{
  ◌≡◌, ◌↔◌, refl, sym, ◌∙◌, ◌⊎◌, inl, inr, List, [], ◌∷◌, some, ◌==◌, arith, In, Bool-cases, ap,
}
use proxysql_on_k8s.Base.Int.{ℤ, ltb_ℤ, int_eq}
use proxysql_on_k8s.Base.Dict.{Dict, lookup}
use proxysql_on_k8s.Base.Dict.Laws.{lookup-insert}
use proxysql_on_k8s.Client.Types.{MySqlReplicationHostgroup}
use proxysql_on_k8s.Client.Classes.{Parents, find_root, link, link_all, collect}
use proxysql_on_k8s.Client.Classes.Forest.{IsKey, Represents, find_root_lem}
use proxysql_on_k8s.Client.Classes.Merge.{redirect, merge, merge_all, link-Linked}

abbrev pub Pairs : Type 0
Pairs = List MySqlReplicationHostgroup

-- A pair of the list has these two hostgroups.
abbrev pub IsPair : Pairs → ℤ → ℤ → Type 0
IsPair [] x y = ⊥
IsPair (p ∷ pairs) x y = ((x ≡ p.writer_hostgroup) × (y ≡ p.reader_hostgroup)) ⊎ IsPair pairs x y

-- A pair of the list has this hostgroup.
abbrev pub IsCovered : Pairs → ℤ → Type 0
IsCovered [] y = ⊥
IsCovered (p ∷ pairs) y = ((y ≡ p.writer_hostgroup) ⊎ (y ≡ p.reader_hostgroup)) ⊎ IsCovered pairs y

-- Hostgroups that a chain of pairs joins: one replication topology.
pub data Connected (pairs : Pairs) : ℤ → ℤ → Type 0 where
  pair : {x y : ℤ} → IsPair pairs x y → Connected pairs x y
  same : {x y : ℤ} → x ≡ y → Connected pairs x y
  back : {x y : ℤ} → Connected pairs y x → Connected pairs x y
  chain : {x y : ℤ} (z : ℤ) → Connected pairs x z → Connected pairs z y → Connected pairs x y

pub link_all-Represents :
    (pairs : Pairs) (m : Parents) (f : ℤ → ℤ)
    → Represents m f
    → Represents (link_all pairs m) (merge_all pairs f)
unfolding link_all
link_all-Represents [] m f r = r
link_all-Represents (p ∷ pairs) m f r =
    link_all-Represents pairs (link p m) _ (link-Linked m f p r).represents

pub IsKey-link_all :
    (pairs : Pairs) (m : Parents) (f : ℤ → ℤ) (y : ℤ)
    → Represents m f
    → IsKey y (link_all pairs m) ↔ (IsKey y m ⊎ IsCovered pairs y)
unfolding link_all
IsKey-link_all [] m f y r = (λ k. inl k, λ h. elim h [ inl k ↦ k | inr c ↦ absurd c ])
IsKey-link_all (p ∷ pairs) m f y r =
    let linked = link-Linked m f p r in
    let rest = IsKey-link_all pairs (link p m) _ y linked.represents in
    (
      λ k. elim (rest.0 k) [
        | inl k' ↦ elim (linked.only y k') [ inl old ↦ inl old | inr new ↦ inr (inl new) ]
        | inr c ↦ inr (inr c)
      ],
      λ h. rest.1 (elim h [
        | inl k ↦ inl (linked.kept y k)
        | inr (inl (inl e)) ↦ inl (rw e linked.writer)
        | inr (inl (inr e)) ↦ inl (rw e linked.reader)
        | inr (inr c) ↦ inr c
      ]),
    )

merge_keeps : (w r x y : ℤ) (f : ℤ → ℤ) → f x ≡ f y → merge w r f x ≡ merge w r f y
merge_keeps w r x y f e = ground arith

merge_joins : (w r : ℤ) (f : ℤ → ℤ) → merge w r f w ≡ merge w r f r
merge_joins w r f = ground arith

merge_all_keeps :
    (pairs : Pairs) (x y : ℤ) (f : ℤ → ℤ) → f x ≡ f y → merge_all pairs f x ≡ merge_all pairs f y
merge_all_keeps [] x y f e = e
merge_all_keeps (p ∷ pairs) x y f e = merge_all_keeps pairs x y _ (merge_keeps _ _ x y f e)

merge_all_joins :
    (pairs : Pairs) (x y : ℤ) (f : ℤ → ℤ)
    → IsPair pairs x y
    → merge_all pairs f x ≡ merge_all pairs f y
merge_all_joins [] x y f h = absurd h
merge_all_joins (p ∷ pairs) x y f (inl (e, e')) =
    merge_all_keeps pairs x y _ (rw (e, e') (merge_joins p.writer_hostgroup p.reader_hostgroup f))
merge_all_joins (p ∷ pairs) x y f (inr h) = merge_all_joins pairs x y _ h

pub merge_all_complete :
    (pairs : Pairs) (x y : ℤ) (f : ℤ → ℤ)
    → Connected pairs x y
    → merge_all pairs f x ≡ merge_all pairs f y
merge_all_complete pairs x y f (pair h) = merge_all_joins pairs x y f h
merge_all_complete pairs x y f (same e) = ap (merge_all pairs f) e
merge_all_complete pairs x y f (back c) = sym (merge_all_complete pairs y x f c)
merge_all_complete pairs x y f (chain z c d) =
    merge_all_complete pairs x z f c ∙ merge_all_complete pairs z y f d

module _ (whole : Pairs) where
  redirect_sound :
      (hi lo y : ℤ) (f : ℤ → ℤ)
      → Connected whole hi lo
      → Connected whole y (f y)
      → Connected whole y (redirect hi lo f y)
  redirect_sound hi lo y f c h = elim (Bool-cases (f y == hi)) [
    | inl e ↦ rw e (chain (f y) h (chain hi (same (ground arith)) c))
    | inr e ↦ rw e h
  ]

  merge_sound :
      (w r : ℤ) (f : ℤ → ℤ)
      → Connected whole w r
      → ((y : ℤ) → Connected whole y (f y))
      → (y : ℤ) → Connected whole y (merge w r f y)
  merge_sound w r f c h y =
      let roots : Connected whole (f w) (f r) = chain w (back (h w)) (chain r c (h r)) in
      elim (Bool-cases (f w == f r)) [
        | inl e ↦ rw e (h y)
        | inr e ↦ rw e (elim (Bool-cases (ltb_ℤ (f r) (f w))) [
          | inl less ↦ rw less (redirect_sound (f w) (f r) y f roots (h y))
          | inr not_less ↦ rw not_less (redirect_sound (f r) (f w) y f (back roots) (h y))
        ])
      ]

  pub merge_all_sound :
      (pairs : Pairs) (f : ℤ → ℤ)
      → ((x y : ℤ) → IsPair pairs x y → IsPair whole x y)
      → ((y : ℤ) → Connected whole y (f y))
      → (y : ℤ) → Connected whole y (merge_all pairs f y)
  merge_all_sound [] f sub h y = h y
  merge_all_sound (p ∷ pairs) f sub h y =
      merge_all_sound pairs _ (λ x z k. sub x z (inr k))
        (merge_sound _ _ f (pair (sub _ _ (inl (refl, refl)))) h) y

-- The function that `parent` stands for after the loop.
unfoldable pub representative : Pairs → ℤ → ℤ
representative pairs = merge_all pairs (λ y. y)

pub initial : Represents [] (λ y. y)
unfolding lookup
initial = record {
  absent = λ x h. refl;
  along = λ x p h. cc;
  self = λ x h. refl;
  down = λ x p h. cc;
  closed = λ x p h. cc;
  idem = λ x. refl;
  least = λ x. ground arith;
}

collect-lookup_kept :
    (hgs : List ℤ) (m : Parents) (f : ℤ → ℤ) (classes : Dict ℤ ℤ) (y : ℤ)
    → Represents m f
    → lookup y classes ≡ some (f y)
    → lookup y (collect hgs m classes) ≡ some (f y)
unfolding collect
collect-lookup_kept [] m f classes y r h = h
collect-lookup_kept (hg ∷ hgs) m f classes y r h =
    let found = find_root_lem f hg m r in
    collect-lookup_kept hgs _ f _ y found.represents
      (ground (arith, found.root, lookup-insert y hg (find_root hg m).0 classes))

pub collect-lookup :
    (hgs : List ℤ) (m : Parents) (f : ℤ → ℤ) (classes : Dict ℤ ℤ) (y : ℤ)
    → Represents m f
    → In y hgs
    → lookup y (collect hgs m classes) ≡ some (f y)
unfolding collect
collect-lookup [] m f classes y r i = absurd i
collect-lookup (hg ∷ hgs) m f classes y r (inl e) =
    let found = find_root_lem f hg m r in
    collect-lookup_kept hgs _ f _ y found.represents
      (ground (arith, found.root, lookup-insert y hg (find_root hg m).0 classes))
collect-lookup (hg ∷ hgs) m f classes y r (inr i) =
    collect-lookup hgs _ f _ y (find_root_lem f hg m r).represents i

pub collect-lookup_only :
    (hgs : List ℤ) (m : Parents) (f : ℤ → ℤ) (classes : Dict ℤ ℤ) (y : ℤ)
    → Represents m f
    → ¬ In y hgs
    → lookup y (collect hgs m classes) ≡ lookup y classes
unfolding collect
collect-lookup_only [] m f classes y r n = refl
collect-lookup_only (hg ∷ hgs) m f classes y r n =
    collect-lookup_only hgs _ f _ y (find_root_lem f hg m r).represents (λ i. n (inr i))
    ∙ ground (arith, n, lookup-insert y hg (find_root hg m).0 classes)
