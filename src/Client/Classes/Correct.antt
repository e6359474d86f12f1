-- ===== src/Client/Classes/Correct.antt =====
-- `replicationClasses` computes the classes that the pairs generate, each named by its smallest
-- hostgroup.
use proxysql_on_k8s.Base.{
  ◌≡◌, ◌≢◌, ◌↔◌, refl, sym, ◌∙◌, inl, inr, false, [], ◌∷◌, none, some, ap, Option-cases,
}
use mathlib.Core.Option.{some-injective}
use proxysql_on_k8s.Base.Int.{ℤ, ltb_ℤ, int_eq}
use proxysql_on_k8s.Base.Dict.{keys, lookup}
use proxysql_on_k8s.Base.Dict.Laws.{In-keys}
use proxysql_on_k8s.Client.Classes.{link_all, replication_classes}
use proxysql_on_k8s.Client.Classes.Forest.{IsKey, Represents}
use proxysql_on_k8s.Client.Classes.Spec.{
  Pairs, IsCovered, Connected, same, back, chain, representative, initial, link_all-Represents,
  IsKey-link_all, merge_all_complete, merge_all_sound, collect-lookup, collect-lookup_only,
}

module _ (pairs : Pairs) where
  represented : Represents (link_all pairs []) (representative pairs)
  unfolding representative
  represented = link_all-Represents pairs [] (λ y. y) initial

  representative-Connected : (y : ℤ) → Connected pairs y (representative pairs y)
  unfolding representative
  representative-Connected = merge_all_sound pairs pairs (λ y. y) (λ x y h. h) (λ y. same refl)

  representative_eq :
      (x y : ℤ) → Connected pairs x y → representative pairs x ≡ representative pairs y
  unfolding representative
  representative_eq x y c = merge_all_complete pairs x y (λ y. y) c

  IsKey-IsCovered : (y : ℤ) → IsKey y (link_all pairs []) ↔ IsCovered pairs y
  unfolding lookup
  IsKey-IsCovered y =
      let k = IsKey-link_all pairs [] (λ y. y) y initial in
      (λ h. elim (k.0 h) [ inl e ↦ absurd (e refl) | inr c ↦ c ], λ c. k.1 (inr c))

pub lookup-replication_classes :
    (pairs : Pairs) (y : ℤ)
    → IsCovered pairs y
    → lookup y (replication_classes pairs) ≡ some (representative pairs y)
lookup-replication_classes [] y c = absurd c
lookup-replication_classes (p ∷ pairs) y c =
    unfold replication_classes in
    collect-lookup (keys (link_all (p ∷ pairs) [])) (link_all (p ∷ pairs) [])
      (representative (p ∷ pairs)) [] y (represented (p ∷ pairs))
      ((In-keys y (link_all (p ∷ pairs) [])).1 ((IsKey-IsCovered (p ∷ pairs) y).1 c))

lookup-replication_classes-none :
    (pairs : Pairs) (y : ℤ) → ¬ IsCovered pairs y → lookup y (replication_classes pairs) ≡ none
lookup-replication_classes-none [] y n = unfold replication_classes lookup in refl
lookup-replication_classes-none (p ∷ pairs) y n =
    unfold replication_classes lookup in
    collect-lookup_only (keys (link_all (p ∷ pairs) [])) (link_all (p ∷ pairs) [])
      (representative (p ∷ pairs)) [] y (represented (p ∷ pairs))
      (λ i. n ((IsKey-IsCovered (p ∷ pairs) y).0 ((In-keys y (link_all (p ∷ pairs) [])).0 i)))

-- A hostgroup belongs to a class exactly when a pair names it.
pub replication_classes-IsCovered :
    (pairs : Pairs) (y : ℤ) → (lookup y (replication_classes pairs) ≢ none) ↔ IsCovered pairs y
replication_classes-IsCovered pairs y = (
  λ h. elim (Option-cases (lookup y (link_all pairs []))) [
    | inl e ↦
        absurd (h (lookup-replication_classes-none pairs y λ c. (IsKey-IsCovered pairs y).1 c e))
    | inr (p, e) ↦ (IsKey-IsCovered pairs y).0 (rw e (cc))
  ],
  λ c. rw (lookup-replication_classes pairs y c) (cc),
)

covered_of_lookup :
    (pairs : Pairs) (y r : ℤ)
    → lookup y (replication_classes pairs) ≡ some r
    → r ≡ representative pairs y
covered_of_lookup pairs y r e =
    let c = (replication_classes-IsCovered pairs y).0 (rw e (cc)) in
    some-injective r (representative pairs y) (sym e ∙ lookup-replication_classes pairs y c)

-- The name of a hostgroup's class is connected with it, and no hostgroup that is connected with it
-- is smaller.
pub replication_classes_smallest :
    (pairs : Pairs) (y r : ℤ)
    → lookup y (replication_classes pairs) ≡ some r
    → Connected pairs y r × ((z : ℤ) → Connected pairs y z → ltb_ℤ z r ≡ false)
replication_classes_smallest pairs y r e = rw (covered_of_lookup pairs y r e) (
  representative-Connected pairs y,
  λ z c. rw (representative_eq pairs y z c) ((represented pairs).least z),
)

-- Two hostgroups that pairs name have one class exactly when a chain of pairs joins them.
pub replication_classes_same :
    (pairs : Pairs) (x y : ℤ)
    → IsCovered pairs x
    → IsCovered pairs y
    → (lookup x (replication_classes pairs) ≡ lookup y (replication_classes pairs))
      ↔ Connected pairs x y
replication_classes_same pairs x y cx cy = (
  λ e.
      let same_name : representative pairs x ≡ representative pairs y =
        some-injective _ _ (
          sym (lookup-replication_classes pairs x cx)
          ∙ e
          ∙ lookup-replication_classes pairs y cy) in
      chain (representative pairs x) (representative-Connected pairs x)
        (rw same_name (back (representative-Connected pairs y))),
  λ c.
      lookup-replication_classes pairs x cx
      ∙ ap some (representative_eq pairs x y c)
      ∙ sym (lookup-replication_classes pairs y cy),
)
