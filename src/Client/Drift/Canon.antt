-- ===== src/Client/Drift/Canon.antt =====
-- Two servers have one canonical key exactly when they are one host in one replication topology.
use proxysql_on_k8s.Base.{
  ◌≡◌, ◌≢◌, ◌↔◌, refl, sym, ap, ◌∙◌, ◌⊎◌, inl, inr, [], ◌∷◌, ◌++◌, none, some, arith, Option-cases,
  cons-injective,
}
use proxysql_on_k8s.Base.Int.{ℤ, int_eq, IsInt32}
use proxysql_on_k8s.Base.Dict.{Dict, lookup}
use proxysql_on_k8s.Base.Text.{Text, codes}
use proxysql_on_k8s.Base.Text.Decimal.{format_int-NoColon}
use proxysql_on_k8s.Base.Text.Cut.{colon_unique, cut-append}
use proxysql_on_k8s.Base.Text.Decimal.{
  format_int, format_int_head, format_int_injective, format_int-cons, parse_int32-format_int,
}
use proxysql_on_k8s.Client.Classes.{replication_classes}
use proxysql_on_k8s.Client.Classes.Spec.{
  Pairs, IsCovered, Connected, pair, same, back, chain, IsPair,
}
use proxysql_on_k8s.Client.Classes.Correct.{replication_classes-IsCovered, replication_classes_same}
use proxysql_on_k8s.Client.Drift.Keys.{canon_server_key, runtime_canon}

canon_of_class :
    (hg r : ℤ) (hp : Text) (classes : Dict ℤ ℤ)
    → lookup hg classes ≡ some r
    → canon_server_key hg hp classes ≡ codes "rhg" ++ (format_int r ++ b':' ∷ hp)
unfolding canon_server_key
canon_of_class hg r hp classes e = ground arith

canon_exact :
    (hg : ℤ) (hp : Text) (classes : Dict ℤ ℤ)
    → lookup hg classes ≡ none
    → canon_server_key hg hp classes ≡ format_int hg ++ b':' ∷ hp
unfolding canon_server_key
canon_exact hg hp classes e = ground arith

-- No literal hostgroup looks like the name of a class.
class-ne-literal : (hg : ℤ) (s t : Text) → codes "rhg" ++ s ≢ format_int hg ++ t
class-ne-literal hg s t e = ground (arith, format_int_head hg b'r' (codes "hg" ++ s) t (sym e))

IsCovered-of_pair :
    (pairs : Pairs) (x y : ℤ) → IsPair pairs x y → IsCovered pairs x × IsCovered pairs y
IsCovered-of_pair [] x y h = absurd h
IsCovered-of_pair (p ∷ pairs) x y (inl (e, e')) = (inl (inl e), inl (inr e'))
IsCovered-of_pair (p ∷ pairs) x y (inr h) =
    let (cx, cy) = IsCovered-of_pair pairs x y h in (inr cx, inr cy)

-- Connected hostgroups are one, or pairs name them both.
Connected-cases :
    (pairs : Pairs) (x y : ℤ)
    → Connected pairs x y
    → (x ≡ y) ⊎ (IsCovered pairs x × IsCovered pairs y)
Connected-cases pairs x y (pair h) = inr (IsCovered-of_pair pairs x y h)
Connected-cases pairs x y (same e) = inl e
Connected-cases pairs x y (back c) = elim (Connected-cases pairs y x c) [
  | inl e ↦ inl (sym e)
  | inr (cy, cx) ↦ inr (cx, cy)
]
Connected-cases pairs x y (chain z c d) = elim (Connected-cases pairs x z c) [
  | inl e ↦ rw e (Connected-cases pairs z y d)
  | inr (cx, cz) ↦ elim (Connected-cases pairs z y d) [
    | inl e ↦ inr (cx, rw (← e) cz)
    | inr (cz', cy) ↦ inr (cx, cy)
  ]
]

class_unique :
    (r r' : ℤ) (hp hp' : Text)
    → codes "rhg" ++ (format_int r ++ b':' ∷ hp) ≡ codes "rhg" ++ (format_int r' ++ b':' ∷ hp')
    → (r ≡ r') × (hp ≡ hp')
class_unique r r' hp hp' e =
    let tails = cons-injective (cons-injective (cons-injective e)) in
    let (er, eh) =
      colon_unique (format_int r) (format_int r') hp hp' (format_int-NoColon r)
        (format_int-NoColon r') tails in
    (format_int_injective r r' er, eh)

exact_unique :
    (hg hg' : ℤ) (hp hp' : Text)
    → format_int hg ++ b':' ∷ hp ≡ format_int hg' ++ b':' ∷ hp'
    → (hg ≡ hg') × (hp ≡ hp')
exact_unique hg hg' hp hp' e =
    let (eg, eh) =
      colon_unique (format_int hg) (format_int hg') hp hp' (format_int-NoColon hg)
        (format_int-NoColon hg') e in
    (format_int_injective hg hg' eg, eh)

module _ (pairs : Pairs) (x y : ℤ) (hp hp' : Text) where
  one_class :
      canon_server_key x hp (replication_classes pairs)
        ≡ canon_server_key y hp' (replication_classes pairs)
      → (hp ≡ hp') × Connected pairs x y
  one_class e = elim (Option-cases (lookup x (replication_classes pairs))) [
    | inl nx ↦ elim (Option-cases (lookup y (replication_classes pairs))) [
      | inl ny ↦
          let (eg, eh) =
            exact_unique x y hp hp' (sym (canon_exact x hp _ nx) ∙ e ∙ canon_exact y hp' _ ny) in
          (eh, same eg)
      | inr (r, sy) ↦ absurd (
          class-ne-literal x _ _
            (sym (canon_of_class y r hp' _ sy) ∙ sym e ∙ canon_exact x hp _ nx))
    ]
    | inr (r, sx) ↦ elim (Option-cases (lookup y (replication_classes pairs))) [
      | inl ny ↦
          absurd
            (class-ne-literal y _ _ (sym (canon_of_class x r hp _ sx) ∙ e ∙ canon_exact y hp' _ ny))
      | inr (r', sy) ↦
          let (er, eh) =
            class_unique r r' hp hp'
              (sym (canon_of_class x r hp _ sx) ∙ e ∙ canon_of_class y r' hp' _ sy) in
          (
            eh,
            (replication_classes_same pairs x y
                  ((replication_classes-IsCovered pairs x).0 (rw sx (cc)))
                  ((replication_classes-IsCovered pairs y).0 (rw sy (cc)))).0
                (sx ∙ ap some er ∙ sym sy),
          )
    ]
  ]

  one_key :
      hp ≡ hp'
      → Connected pairs x y
      → canon_server_key x hp (replication_classes pairs)
        ≡ canon_server_key y hp' (replication_classes pairs)
  one_key eh c = elim (Connected-cases pairs x y c) [
    | inl eg ↦ rw (eh, eg)
    | inr (cx, cy) ↦ elim (Option-cases (lookup x (replication_classes pairs))) [
      | inl none_x ↦ absurd ((replication_classes-IsCovered pairs x).1 cx none_x)
      | inr (r, sx) ↦
          canon_of_class x r hp _ sx
          ∙ ap (λ h. codes "rhg" ++ (format_int r ++ b':' ∷ h)) eh
          ∙ sym
              (canon_of_class y r hp' _ (sym ((replication_classes_same pairs x y cx cy).1 c) ∙ sx))
    ]
  ]

-- Two servers have one canonical key exactly when they have one host and port, and a chain of
-- replication pairs joins their hostgroups. (A hostgroup is joined to itself.)
pub canon_server_key_same :
    (pairs : Pairs) (x y : ℤ) (hp hp' : Text)
    → (canon_server_key x hp (replication_classes pairs)
        ≡ canon_server_key y hp' (replication_classes pairs))
      ↔ ((hp ≡ hp') × Connected pairs x y)
canon_server_key_same pairs x y hp hp' =
    (one_class pairs x y hp hp', λ h. one_key pairs x y hp hp' h.0 h.1)

-- For a hostgroup in the range of int32, the canonical form of a runtime row's key is the canonical
-- key of its hostgroup, host and port.
pub runtime_canon_lem :
    (hg : ℤ) (hp : Text) (classes : Dict ℤ ℤ)
    → IsInt32 hg
    → runtime_canon classes (format_int hg ++ b':' ∷ hp) ≡ canon_server_key hg hp classes
unfolding runtime_canon
runtime_canon_lem hg hp [] h = unfold canon_server_key lookup in refl
runtime_canon_lem hg hp (c ∷ classes) h =
    let (d, s, shape) = format_int-cons hg in
    ground (
      arith,
      shape,
      cut-append b':' (format_int hg) hp (format_int-NoColon hg),
      parse_int32-format_int hg h,
    )
