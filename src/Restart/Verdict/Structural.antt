-- ===== src/Restart/Verdict/Structural.antt =====
-- A change goes without a restart exactly when nothing but values of variables has changed, and no
-- earlier structural change is waiting for its restart.
use proxysql_on_k8s.Base.{◌≡◌, ◌≢◌, ◌⊎◌, Bool, not, ◌&&◌, [], ◌==◌, text_eq}
use proxysql_on_k8s.Base.Dict.{Dict, lookup}
use proxysql_on_k8s.Base.Text.{Text}
use proxysql_on_k8s.Client.Sync.Variables.{value_of}
use proxysql_on_k8s.Restart.Cnf.{scan_cnf}
use proxysql_on_k8s.Restart.Cnf.Laws.{SameLines}
use proxysql_on_k8s.Restart.Verdict.{Data, proxysql_cnf_key, structural_hash}

-- Two Secrets that differ at most in values that can be set at run time.
abbrev pub SameStructure : Data → Data → Type 0
SameStructure old new =
    ((k : Text) → k ≢ proxysql_cnf_key → lookup k old ≡ lookup k new)
    × SameLines (scan_cnf (value_of old proxysql_cnf_key))
        (scan_cnf (value_of new proxysql_cnf_key))

module _ (digest : Text → Text) where
  -- No structural change is waiting, or none was ever recorded.
  abbrev pub NothingPending : Data → Text → Type 0
  NothingPending new structural_applied =
      (structural_applied ≡ []) ⊎ (structural_applied ≡ structural_hash digest new)

  module _ (old new : Data) (prev new_hash applied_vars structural_applied : Text) where
    abbrev pending : Bool
    pending =
        not (structural_applied == []) && not (structural_applied == structural_hash digest new)
