-- ===== src/Config/Replica.antt =====
-- operator/internal/controller/rds_reconcile.go: one replica observed (`observeReplica`), and brought to
-- the desired state step by step (`applyReplica`). What concerns an AWS plugin is a parameter.
pub mod Laws
use proxysql_on_k8s.Base.{
  ℕ, ◌+◌, suc, Bool, true, false, List, [], ◌∷◌, ◌++◌, Option, none, some, ◌==◌, text_eq,
  if◌then◌else◌,
}
use proxysql_on_k8s.Base.Calls.{
  Action, ◌>>◌, succeed, Reader, Result, ok, failed, ◌>>=◌, give, attempt, wrapped, give_result,
}
use proxysql_on_k8s.Base.Int.{ℤ, pos}
use proxysql_on_k8s.Base.Text.{Text, codes}
use proxysql_on_k8s.Client.Drift.{drift}
use proxysql_on_k8s.Client.Executor.{Executor}
use proxysql_on_k8s.Client.Runtime.{Querier, RuntimeState, read_runtime, shunned_count}
use proxysql_on_k8s.Client.Runtime.Native.{native_runtime_with_aws_db_proxy}
use proxysql_on_k8s.Client.Sync.{sync_with_aws_db_proxy}
use proxysql_on_k8s.Client.Types.{Desired}
use proxysql_on_k8s.Discovery.{PodEndpoint}

-- The clock, and the admin connections to the replicas, which `dial` opens.
-- What a description of a DB proxy is stays open.
pub record Replicas : Type 1 where
  pub State : Type 0
  pub Observed : Type 0
  pub now : State → State × ℕ
  pub dial : Text → Action State
  pub exec : Text → Text → Action State
  pub query : Text → Text → State → State × Result (List (List Text))

-- `rdsReconcileState`, by what the code calls on it at one replica: the client, Describe, Drift
-- against the desired state, ClearMutable and Apply.
pub record RdsReconcileState (State Observed : Type 0) : Type 0 where
  pub client : PodEndpoint → Action State
  pub describe : PodEndpoint → State → State × Result Observed
  pub drift : Observed → List Text
  pub clear_mutable : PodEndpoint → Observed → Action State
  pub apply : PodEndpoint → Observed → Action State

pub record ReplicaStatus : Type 0 where
  pub pod : Text
  pub observed_version : ℤ
  pub converged : Bool
  pub drifted : Bool
  pub reason : Text
  pub last_check_time : Option ℕ

pub record ReplicaObservation : Type 0 where
  pub status : ReplicaStatus
  pub shunned : ℕ
  pub drifted : Bool

-- An observation that gives up under a reason,
abbrev pub drifted_observation : Text → ℕ → ℕ → Text → ReplicaObservation
drifted_observation pod t shunned reason = record {
  status = record {
    pod = pod;
    observed_version = pos 0;
    converged = false;
    drifted = true;
    reason = reason;
    last_check_time = some t;
  };
  shunned = shunned;
  drifted = true;
}

-- and one that finds the replica in the desired state.
abbrev pub converged_observation : Text → ℕ → ℕ → ℤ → ReplicaObservation
converged_observation pod t shunned version = record {
  status = record {
    pod = pod;
    observed_version = version;
    converged = true;
    drifted = false;
    reason = codes "Converged";
    last_check_time = some t;
  };
  shunned = shunned;
  drifted = false;
}

-- `if diffs := ...; len(diffs) != 0`
unfoldable pub unless_drift : Text → List Text → Result Unit
unless_drift reason [] = ok tt
unless_drift reason (d ∷ diffs) = failed reason

-- `applyCycleStep`
pub record ApplyCycleStep (State : Type 0) : Type 0 where
  pub reason : Text
  pub run : Action State

unfoldable pub run_apply_cycle :
    {State : Type 0} → List (ApplyCycleStep State) → State → State × Text
run_apply_cycle [] s = (s, [])
run_apply_cycle (step ∷ steps) s =
    let (s', err) = step.run s in
    elim err [ none ↦ run_apply_cycle steps s' | some e ↦ (s', step.reason) ]

module _ (R : Replicas) (native : Desired)
    (rds_state : Option (RdsReconcileState R.State R.Observed)) (version : ℤ) where
  open R use {State, Observed}

  abbrev pub querier_at : Text → Querier
  querier_at addr = record { State = State; query = R.query addr }

  abbrev pub executor_at : Text → Executor
  executor_at addr = record { State = State; exec = R.exec addr }

  -- The dial and the snapshot, with the reason for a failure.
  unfoldable pub read_native : PodEndpoint → Reader State RuntimeState
  unfolding read_runtime
  read_native ep = do
    dialled ← attempt (λ e. codes "AdminUnavailable") (R.dial ep.addr)
    wrapped (λ e. codes "NativeReadFailed") (read_runtime (querier_at ep.addr))

  -- The snapshot that is compared: all of it, or what the plugin does not own.
  unfoldable pub native_view :
      Option (RdsReconcileState State Observed) → RuntimeState → RuntimeState
  unfolding native_runtime_with_aws_db_proxy
  native_view none rs = rs
  native_view (some rds) rs = elim (native_runtime_with_aws_db_proxy (some rs)) [
    | some owned ↦ owned
    | none ↦ rs
  ]

  -- `if rdsState != nil` of the observation.
  unfoldable pub check_rds :
      Option (RdsReconcileState State Observed) → PodEndpoint → Reader State Unit
  unfolding unless_drift
  check_rds none ep = give tt
  check_rds (some rds) ep = do
    connected ← attempt (λ e. codes "RDSClientUnavailable") (rds.client ep)
    observed ← wrapped (λ e. codes "RDSReadFailed") (rds.describe ep)
    give_result (unless_drift (codes "RDSDrift") (rds.drift observed))

  unfoldable pub check_runtime : PodEndpoint → RuntimeState → Reader State Unit
  unfolding drift native_view check_rds unless_drift
  check_runtime ep rs = do
    compared ←
        give_result (unless_drift (codes "NativeDrift") (drift native (native_view rds_state rs)))
    check_rds rds_state ep

  -- The observation that the checks of a snapshot make.
  unfoldable pub observed_as : PodEndpoint → ℕ → ℕ → Result Unit → ReplicaObservation
  observed_as ep t shunned (ok u) = converged_observation ep.pod t shunned version
  observed_as ep t shunned (failed reason) = drifted_observation ep.pod t shunned reason

  unfoldable pub observe_snapshot :
      PodEndpoint → ℕ → Result RuntimeState → State → State × ReplicaObservation
  unfolding check_runtime observed_as shunned_count
  observe_snapshot ep t (failed reason) s = (s, drifted_observation ep.pod t 0 reason)
  observe_snapshot ep t (ok rs) s =
      let (s', checked) = check_runtime ep rs s in (s', observed_as ep t (shunned_count rs) checked)

  unfoldable pub observe_replica : PodEndpoint → State → State × ReplicaObservation
  unfolding read_native observe_snapshot
  observe_replica ep s =
      let (s₁, t) = R.now s in let (s₂, r) = read_native ep s₁ in observe_snapshot ep t r s₂

  abbrev pub is_some : Option (RdsReconcileState State Observed) → Bool
  is_some none = false
  is_some (some rds) = true

  unfoldable pub apply_native : PodEndpoint → Action State
  unfolding sync_with_aws_db_proxy
  apply_native ep =
      R.dial ep.addr >> sync_with_aws_db_proxy (executor_at ep.addr) native (is_some rds_state)

  -- A client, a description, and what is done with it.
  unfoldable pub with_described :
      (rds : RdsReconcileState State Observed)
      → PodEndpoint
      → (Observed → Action State)
      → Action State
  with_described rds ep f = rds.client ep >> λ s.
      let (s', r) = rds.describe ep s in
      elim r [ ok current ↦ f current s' | failed e ↦ (s', some e) ]

  unfoldable pub apply_steps :
      Option (RdsReconcileState State Observed) → PodEndpoint → List (ApplyCycleStep State)
  unfolding with_described apply_native
  apply_steps none ep = record { reason = codes "NativeApplyFailed"; run = apply_native ep } ∷ []
  apply_steps (some rds) ep =
      record { reason = codes "RDSClearFailed"; run = with_described rds ep (rds.clear_mutable ep) }
      ∷ record { reason = codes "NativeApplyFailed"; run = apply_native ep }
      ∷ record { reason = codes "RDSApplyFailed"; run = with_described rds ep (rds.apply ep) }
      ∷ []

  -- `failedReplica`
  unfoldable pub failed_replica : Text → Text → State → State × ReplicaObservation
  failed_replica pod reason s = let (s', t) = R.now s in (s', drifted_observation pod t 0 reason)

  -- An empty reason is none.
  unfoldable pub after_cycle : PodEndpoint → Text → State → State × ReplicaObservation
  unfolding failed_replica observe_replica
  after_cycle ep [] = observe_replica ep
  after_cycle ep (c ∷ reason) = failed_replica ep.pod (c ∷ reason)

  unfoldable pub apply_replica : PodEndpoint → State → State × ReplicaObservation
  unfolding run_apply_cycle apply_steps after_cycle
  apply_replica ep s =
      let (s', reason) = run_apply_cycle (apply_steps rds_state ep) s in after_cycle ep reason s'

-- `summarizeReplicas`: the statuses, and the counts of the replicas that are in sync, of those that
-- are not, and of shunned backends.
pub record Summary : Type 0 where
  pub statuses : List ReplicaStatus
  pub synced : ℕ
  pub drifted : ℕ
  pub shunned : ℕ

unfoldable pub count_one : ReplicaObservation → Bool → Summary → Summary
count_one o true sum = record {
  statuses = o.status ∷ sum.statuses;
  synced = suc sum.synced;
  drifted = sum.drifted;
  shunned = o.shunned + sum.shunned;
}
count_one o false sum = record {
  statuses = o.status ∷ sum.statuses;
  synced = sum.synced;
  drifted = suc sum.drifted;
  shunned = o.shunned + sum.shunned;
}

unfoldable pub summarize_replicas : List ReplicaObservation → Summary
unfolding count_one
summarize_replicas [] = record { statuses = []; synced = 0; drifted = 0; shunned = 0 }
summarize_replicas (o ∷ os) = count_one o o.status.converged (summarize_replicas os)
