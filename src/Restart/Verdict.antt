-- ===== src/Restart/Verdict.antt =====
-- operator/internal/controller/restart_checksum.go: what a change of the Secret with proxysql.cnf
-- calls for. The digest is a parameter, SHA-256 in hexadecimal.
pub mod Laws
pub mod Structural
use proxysql_on_k8s.Base.{
  ℕ, Bool, true, false, not, ◌&&◌, ◌||◌, List, [], ◌∷◌, ◌++◌, Option, none, some, length, eqb,
  if◌then◌else◌, ◌==◌, text_eq,
}
use proxysql_on_k8s.Base.Int.{pos}
use proxysql_on_k8s.Base.Dict.{Dict, keys, lookup, insert, is_set}
use proxysql_on_k8s.Base.Sort.{sort}
use proxysql_on_k8s.Base.Text.{has_prefix, Text, codes, text_ltb}
use proxysql_on_k8s.Base.Text.Decimal.{decimal}
use proxysql_on_k8s.Client.Sync.Variables.{value_of}
use proxysql_on_k8s.Restart.Cnf.{parse_cnf_variables, normalize_cnf}

-- A Secret's data.
abbrev pub Data : Type 0
Data = Dict Text Text

abbrev pub proxysql_cnf_key : Text
proxysql_cnf_key = codes "proxysql.cnf"

-- `cnfVerdict`
pub data CnfVerdict : Type 0 where
  boot_hash keep_prev runtime_try structural : CnfVerdict

-- `if _, ok := m[k]; ok`
abbrev pub holds : Text → Data → Bool
holds k m = elim (lookup k m) [ some v ↦ true | none ↦ false ]

-- The four results of `classifyCnfChange`.
pub record Change : Type 0 where
  pub verdict : CnfVerdict
  pub changed : Dict Text Text
  pub structural_keys : List Text
  pub pending_structural : Bool

abbrev pub only : CnfVerdict → Change
only v = record { verdict = v; changed = []; structural_keys = []; pending_structural = false }

abbrev pub to_push : Dict Text Text → Change
to_push vars = record (only runtime_try) { changed = vars }

-- `inOld != inNew || !bytes.Equal(oldV, newV)`, by whether the maps have the key.
abbrev pub differ_at : Option Text → Option Text → Bool
differ_at none none = false
differ_at none (some w) = true
differ_at (some v) none = true
differ_at (some v) (some w) = not (v == w)

abbrev pub differs : Data → Data → Text → Bool
differs old new k = differ_at (lookup k old) (lookup k new)

-- The calls of `check` in `diffNonCnfKeys`, one for each key of both maps.
unfoldable pub check_keys : Data → Data → List Text → Dict Text Bool → List Text
check_keys old new [] seen = []
check_keys old new (k ∷ ks) seen =
    let skipped = k == proxysql_cnf_key || is_set k seen in
    let rest = check_keys old new ks (if skipped then seen else insert k true seen) in
    if skipped then rest else if differs old new k then k ∷ rest else rest

unfoldable pub diff_non_cnf_keys : Data → Data → List Text
diff_non_cnf_keys old new = sort text_ltb (check_keys old new (keys old ++ keys new) [])

-- The loop that fills `changedVars`.
unfoldable pub put_changed : Dict Text Text → Dict Text Text → Dict Text Text → Dict Text Text
put_changed old_vars [] out = out
put_changed old_vars ((k, v) ∷ new_vars) out =
    put_changed old_vars new_vars (if value_of old_vars k == v then out else insert k v out)

-- What `varsHash` writes into the digest.
unfoldable pub vars_lines : Dict Text Text → List Text → Text
vars_lines vars [] = []
vars_lines vars (k ∷ ks) =
    k ++ (codes "=" ++ (value_of vars k ++ (codes "\n" ++ vars_lines vars ks)))

abbrev pub structural_value : Data → Text → Text
structural_value data_map k =
    if k == proxysql_cnf_key then normalize_cnf (value_of data_map k) else value_of data_map k

-- What `structuralHash` writes, each key and value behind its length.
unfoldable pub structural_frames : Data → List Text → Text
structural_frames data_map [] = []
structural_frames data_map (k ∷ ks) =
    let v = structural_value data_map k in
    decimal (length k)
    ++ (codes ":"
        ++ (k
            ++ (codes ":"
                ++ (decimal (length v) ++ (codes ":" ++ (v ++ structural_frames data_map ks))))))

-- The returns of `classifyCnfChange` on what it computes, in their order: on the keys that differ,
unfoldable pub unless_keys_differ : List Text → Change → Change
unless_keys_differ [] rest = rest
unless_keys_differ (k ∷ ks) rest = record (only structural) { structural_keys = k ∷ ks }

-- on the normal forms and the marker,
unfoldable pub unless_structural : Bool → Bool → Change → Change
unless_structural true waits rest = only structural
unless_structural false true rest = record (only structural) { pending_structural = true }
unless_structural false false rest = rest

-- and on the variables that changed.
unfoldable pub push_or_keep : Dict Text Text → Dict Text Text → Bool → Change
push_or_keep [] new_vars true = only keep_prev
push_or_keep [] new_vars false = to_push new_vars
push_or_keep (entry ∷ entries) new_vars applied = to_push (entry ∷ entries)

module _ (digest : Text → Text) where
  unfoldable pub vars_hash : Dict Text Text → Text
  vars_hash vars = digest (vars_lines vars (sort text_ltb (keys vars)))

  unfoldable pub structural_hash : Data → Text
  structural_hash data_map = digest (structural_frames data_map (sort text_ltb (keys data_map)))

  -- `classifyCnfChange` from the comparison of the variables on.
  unfoldable pub classify_variables : Dict Text Text → Dict Text Text → Text → Change
  classify_variables changed_vars new_vars applied_vars =
      push_or_keep changed_vars new_vars (applied_vars == vars_hash new_vars)

  -- The comparison of the two Secrets.
  unfoldable pub classify_data : Data → Data → Text → Text → Change
  classify_data old new applied_vars structural_applied =
      let old_cnf = value_of old proxysql_cnf_key in
      let new_cnf = value_of new proxysql_cnf_key in
      let new_vars = parse_cnf_variables new_cnf in
      unless_keys_differ (diff_non_cnf_keys old new) (
        unless_structural (not (normalize_cnf old_cnf == normalize_cnf new_cnf))
          (not (structural_applied == []) && not (structural_applied == structural_hash new))
          (classify_variables (put_changed (parse_cnf_variables old_cnf) new_vars []) new_vars
            applied_vars))

  -- `len(m) > 0`
  abbrev pub is_empty : Data → Bool
  is_empty [] = true
  is_empty (entry ∷ entries) = false

  unfoldable pub classify_cnf_change : Data → Data → Text → Text → Text → Text → Change
  classify_cnf_change old new prev new_hash applied_vars structural_applied =
      let new_vars = parse_cnf_variables (value_of new proxysql_cnf_key) in
      let reverted =
        not (is_empty old)
        && (not (applied_vars == []) && not (applied_vars == vars_hash new_vars)) in
      if prev == []
      then only boot_hash
      else if prev == new_hash
      then if reverted then to_push new_vars else only boot_hash
      else if is_empty old || value_of old proxysql_cnf_key == []
      then only boot_hash
      else classify_data old new applied_vars structural_applied

-- `domainForFullName`
unfoldable pub domain_for_full_name : Text → Option Text
domain_for_full_name name =
    if has_prefix name (codes "admin-")
    then some (codes "ADMIN")
    else if has_prefix name (codes "mysql-")
    then some (codes "MYSQL")
    else if has_prefix name (codes "pgsql-")
    then some (codes "PGSQL")
    else none

-- `out[domain][k] = v`, where a missing domain starts empty.
abbrev pub put_in : Text → Text → Text → Dict Text (Dict Text Text) → Dict Text (Dict Text Text)
put_in domain k v out =
    insert domain (insert k v (elim (lookup domain out) [ some vars ↦ vars | none ↦ [] ])) out

unfoldable pub put_by_domain :
    Dict Text Text → Dict Text (Dict Text Text) → Dict Text (Dict Text Text)
put_by_domain [] out = out
put_by_domain ((k, v) ∷ vars) out =
    put_by_domain vars
      (elim (domain_for_full_name k) [ some domain ↦ put_in domain k v out | none ↦ out ])

unfoldable pub group_by_domain : Dict Text Text → Dict Text (Dict Text Text)
group_by_domain vars = put_by_domain vars []
