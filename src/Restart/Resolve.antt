-- ===== src/Restart/Resolve.antt =====
-- operator/internal/controller/restart_checksum.go, `resolveRestartChecksum`: the verdict carried out
-- over the pods of a cluster. Kubernetes and the pods are a state with calls that may fail.
pub mod Markers
use proxysql_on_k8s.Base.{
  ℕ, Bool, true, false, not, ◌&&◌, ◌||◌, List, [], ◌∷◌, ◌++◌, Option, none, some, length, ltb,
  if◌then◌else◌, ◌==◌, text_eq,
}
use proxysql_on_k8s.Base.Calls.{Action, Result, ok, failed, Reader, ◌>>=◌, give, attempt, wrapped}
use proxysql_on_k8s.Base.Dict.{Dict, keys, lookup, insert}
use proxysql_on_k8s.Base.Sort.{sort}
use proxysql_on_k8s.Base.Text.{Text, codes, join, text_ltb}
use proxysql_on_k8s.Client.Executor.{Executor}
use proxysql_on_k8s.Client.Runtime.{Querier, read_global_variables}
use proxysql_on_k8s.Client.Sync.Variables.{apply_variables, value_of}
use proxysql_on_k8s.Restart.Cnf.{parse_cnf_variables}
use proxysql_on_k8s.Restart.Verdict.{
  Data, Change, CnfVerdict, boot_hash, keep_prev, runtime_try, structural, proxysql_cnf_key, holds,
  vars_hash, structural_hash, classify_cnf_change, group_by_domain,
}

-- `discoverPodEndpoints`, `adminDialTLS`, the dialling of an address, and the connection to it.
pub record Pods : Type 1 where
  pub State : Type 0
  pub discover : State → State × Result (List Text)
  pub dial_tls : List Text → Action State
  pub dial : Text → Action State
  pub exec : Text → Text → Action State
  pub query : Text → Text → State → State × Result (List (List Text))

-- The results but for the error.
pub record Annotations : Type 0 where
  pub checksum : Text
  pub vars_applied : Text
  pub structural_applied : Text
  pub summary : Text

abbrev pub monitor_keys : List Text
monitor_keys =
    codes "mysql-monitor_username"
    ∷ codes "mysql-monitor_password"
    ∷ codes "pgsql-monitor_username"
    ∷ codes "pgsql-monitor_password"
    ∷ []

abbrev pub domains : List Text
domains = codes "ADMIN" ∷ codes "MYSQL" ∷ codes "PGSQL" ∷ []

-- Whether one of the keys is in the map.
unfoldable pub has_any : List Text → Data → Bool
has_any [] changed = false
has_any (k ∷ ks) changed = holds k changed || has_any ks changed

-- `fmt.Errorf("<what> <addr>: %w", err)`
abbrev pub at_address : Text → Text → Text → Text
at_address what addr e = what ++ (addr ++ (codes ": " ++ e))

-- The loop that compares what was read back.
unfoldable pub put_mismatched : Dict Text Text → Dict Text Text → Dict Text Bool → Dict Text Bool
put_mismatched got [] mismatched = mismatched
put_mismatched got ((k, want) ∷ changed) mismatched =
    put_mismatched got changed
      (if value_of got k == want then mismatched else insert k true mismatched)

abbrev pub sorted_keys : Dict Text Text → List Text
sorted_keys vars = sort text_ltb (keys vars)

-- The summary of a structural change.
abbrev pub structural_summary : Bool → List Text → Text
structural_summary true ks =
    codes "RestartRequired: structural change pending from interrupted reconcile"
structural_summary false [] = codes "RestartRequired: structural cnf change"
structural_summary false (k ∷ ks) =
    codes "RestartRequired: structural cnf change (" ++ (join (codes ", ") (k ∷ ks) ++ codes ")")

module _ (P : Pods) where
  abbrev executor_at : Text → Executor
  executor_at addr = record { State = P.State; exec = P.exec addr }

  abbrev pub querier_at : Text → Querier
  querier_at addr = record { State = P.State; query = P.query addr }

  -- The loop over the domains; one without variables is passed over.
  unfoldable pub apply_domains : Text → Dict Text (Dict Text Text) → List Text → Reader P.State Unit
  apply_domains addr by_domain [] = give tt
  apply_domains addr by_domain (domain ∷ rest) = do
    applied ← elim (lookup domain by_domain) [
      | none ↦ give tt
      | some vars ↦
          attempt (at_address (codes "apply variables on ") addr)
            (apply_variables (executor_at addr) vars domain)
    ]
    apply_domains addr by_domain rest

  -- The body of the loop over the endpoints.
  unfoldable pub push_to : Dict Text Text → Text → Dict Text Bool → Reader P.State (Dict Text Bool)
  push_to changed addr mismatched = do
    connected ← attempt (at_address (codes "dial ") addr) (P.dial addr)
    applied ← apply_domains addr (group_by_domain changed) domains
    got ←
        wrapped (at_address (codes "read back variables on ") addr)
          (read_global_variables (querier_at addr) (sorted_keys changed))
    give (put_mismatched got changed mismatched)

  unfoldable pub push_all :
      Dict Text Text → List Text → Dict Text Bool → Reader P.State (Dict Text Bool)
  push_all changed [] mismatched = give mismatched
  push_all changed (addr ∷ addrs) mismatched = do
    found ← push_to changed addr mismatched
    push_all changed addrs found

  module _ (digest : Text → Text) (old new : Data)
      (prev new_hash applied_vars structural_applied : Text) (replicas : ℕ) where
    -- The markers that every return without an error carries.
    abbrev pub marked : Text → Text → Annotations
    marked checksum summary = record {
      checksum = checksum;
      vars_applied = vars_hash digest (parse_cnf_variables (value_of new proxysql_cnf_key));
      structural_applied = structural_hash digest new;
      summary = summary;
    }

    -- The return after the loop over the endpoints.
    unfoldable pub read_back : Dict Text Text → List Text → Annotations
    read_back changed [] =
        marked prev (codes "RuntimeApplied: " ++ join (codes ", ") (sorted_keys changed))
    read_back changed (name ∷ names) = marked new_hash (
        codes "RestartRequired: "
        ++ (join (codes ", ") (sort text_ltb (name ∷ names))
            ++ codes " (runtime read-back mismatch)"))

    unfoldable pub push_to_endpoints : Dict Text Text → List Text → Reader P.State Annotations
    push_to_endpoints changed [] = give (marked prev [])
    push_to_endpoints changed (addr ∷ addrs) = do
      connected ← attempt (λ e. e) (P.dial_tls (addr ∷ addrs))
      mismatched ← push_all changed (addr ∷ addrs) []
      give (read_back changed (keys mismatched))

    -- The return for a change of the monitor's credentials that not every replica can take.
    abbrev pub unless_unreachable : Bool → Reader P.State Annotations → Reader P.State Annotations
    unless_unreachable true push = give (
        marked new_hash
          (codes "RestartRequired: monitor credentials could not reach every replica"))
    unless_unreachable false push = push

    unfoldable pub push_changed : Dict Text Text → Reader P.State Annotations
    push_changed changed = do
      endpoints ← P.discover
      unless_unreachable (has_any monitor_keys changed && ltb (length endpoints) replicas)
          (push_to_endpoints changed endpoints)

    -- `switch verdict`
    unfoldable pub carry_out : CnfVerdict → Change → Reader P.State Annotations
    carry_out boot_hash change = give (marked new_hash [])
    carry_out structural change =
        give (marked new_hash (structural_summary change.pending_structural change.structural_keys))
    carry_out keep_prev change = give (marked prev [])
    carry_out runtime_try change = push_changed change.changed

    unfoldable pub resolve_restart_checksum : Reader P.State Annotations
    resolve_restart_checksum =
        let change =
          classify_cnf_change digest old new prev new_hash applied_vars structural_applied in
        carry_out change.verdict change
