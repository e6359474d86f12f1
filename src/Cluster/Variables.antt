-- ===== src/Cluster/Variables.antt =====
-- operator/internal/controller/builders/proxysql_cnf.go, `mergedCnfVars`: the variables of a section
-- of proxysql.cnf.
use proxysql_on_k8s.Base.{
  ℕ, zero, suc, Bool, true, ◌≡◌, ◌↔◌, refl, sym, ap, ◌∙◌, List, [], ◌∷◌, ◌++◌, Option, none, some,
  length, All, In, text_eq, if◌then◌else◌, arith,
}
use proxysql_on_k8s.Base.Dict.{Dict, lookup, insert, copy, NodupKeys}
use proxysql_on_k8s.Base.Dict.Laws.{
  lookup-insert, lookup-copy_nil, insert-NodupKeys, copy-NodupKeys,
}
use proxysql_on_k8s.Base.Sort.{sort}
use proxysql_on_k8s.Base.Sort.Laws.{In-sort}
use proxysql_on_k8s.Base.Text.{Text, text_ltb, has_prefix}

-- `cnfVar`, a name and a value.
abbrev pub CnfVar : Type 0
CnfVar = Text × Text

unfoldable pub skip : ℕ → Text → Text
skip zero s = s
skip (suc n) [] = []
skip (suc n) (c ∷ s) = skip n s

-- `strings.TrimPrefix`
unfoldable pub trim_prefix : Text → Text → Text
unfolding skip has_prefix
trim_prefix s prefix = if has_prefix s prefix then skip (length prefix) s else s

-- The loop that puts the variables of the user over the defaults.
unfoldable pub overlay_user : Text → Dict Text Text → Dict Text Text → Dict Text Text
unfolding trim_prefix insert
overlay_user prefix [] merged = merged
overlay_user prefix ((k, v) ∷ user) merged =
    overlay_user prefix user (insert (trim_prefix k prefix) v merged)

abbrev pub var_less : CnfVar → CnfVar → Bool
var_less a b = text_ltb a.0 b.0

unfoldable pub merged_cnf_vars : Dict Text Text → Dict Text Text → Text → List CnfVar
unfolding overlay_user copy sort
merged_cnf_vars defaults user prefix = sort var_less (overlay_user prefix user (copy [] defaults))

skip_prefix : (s prefix : Text) → has_prefix s prefix ≡ true → prefix ++ skip (length prefix) s ≡ s
unfolding skip has_prefix
skip_prefix s [] h = refl
skip_prefix [] (d ∷ prefix) h = absurd cc
skip_prefix (c ∷ s) (d ∷ prefix) h = ground (arith, skip_prefix s prefix)

skip_append : (prefix name : Text) → skip (length prefix) (prefix ++ name) ≡ name
unfolding skip
skip_append [] name = refl
skip_append (d ∷ prefix) name = skip_append prefix name

-- A full name is the prefix and the bare name that is left of it.
trim_prefix_iff :
    (k prefix name : Text)
    → has_prefix k prefix ≡ true
    → (trim_prefix k prefix ≡ name) ↔ (k ≡ prefix ++ name)
unfolding trim_prefix
trim_prefix_iff k prefix name h = rw h (
  (λ e. sym (skip_prefix k prefix h) ∙ ap (λ n. prefix ++ n) e),
  λ e. ap (skip (length prefix)) e ∙ skip_append prefix name,
)

-- The value that a user gave, or else the default.
abbrev pub overridden : Option Text → Option Text → Option Text
overridden none default = default
overridden (some v) default = some v

lookup-overlay_user :
    (prefix name : Text) (user merged : Dict Text Text)
    → NodupKeys user
    → All (λ e. has_prefix e.0 prefix ≡ true) user
    → lookup name (overlay_user prefix user merged)
      ≡ overridden (lookup (prefix ++ name) user) (lookup name merged)
unfolding overlay_user lookup
lookup-overlay_user prefix name [] merged nodup prefixed = refl
lookup-overlay_user prefix name ((k, v) ∷ user) merged nodup prefixed =
    lookup-overlay_user prefix name user (insert (trim_prefix k prefix) v merged) nodup.1 prefixed.1
    ∙ ground (
      arith,
      lookup-insert name (trim_prefix k prefix) v merged,
      trim_prefix_iff k prefix name prefixed.0,
      nodup.0,
    )

overlay_user-NodupKeys :
    (prefix : Text) (user merged : Dict Text Text)
    → NodupKeys merged
    → NodupKeys (overlay_user prefix user merged)
unfolding overlay_user
overlay_user-NodupKeys prefix [] merged h = h
overlay_user-NodupKeys prefix ((k, v) ∷ user) merged h =
    overlay_user-NodupKeys prefix user _ (insert-NodupKeys (trim_prefix k prefix) v merged h)

In-lookup :
    (name v : Text) (m : Dict Text Text) → NodupKeys m → In (name, v) m ↔ (lookup name m ≡ some v)
unfolding lookup
In-lookup name v [] h = ground arith
In-lookup name v ((k, w) ∷ m) h = ground (arith, In-lookup name v m h.1, h.0)

-- Where no key stands twice in either map and every key of the user starts with the prefix, a line
-- with a name and a value is written exactly when the value is the user's for the full name, or is
-- the default and the user gave none.
pub merged_cnf_vars_iff :
    (defaults user : Dict Text Text) (prefix name v : Text)
    → NodupKeys defaults
    → NodupKeys user
    → All (λ e. has_prefix e.0 prefix ≡ true) user
    → In (name, v) (merged_cnf_vars defaults user prefix)
      ↔ (overridden (lookup (prefix ++ name) user) (lookup name defaults) ≡ some v)
unfolding merged_cnf_vars
merged_cnf_vars_iff defaults user prefix name v nodup_defaults nodup_user prefixed =
    let start = copy [] defaults in
    let merged = overlay_user prefix user start in
    ground (
      arith,
      In-sort var_less (name, v) merged,
      In-lookup name v merged
          (overlay_user-NodupKeys prefix user start (copy-NodupKeys [] defaults tt)),
      lookup-overlay_user prefix name user start nodup_user prefixed,
      lookup-copy_nil name defaults nodup_defaults,
    )
