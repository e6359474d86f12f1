-- ===== src/Config/Reconcile.antt =====
-- proxysqlconfig_controller.go, `reconcileReadyReplicas`: when the replicas are pushed, and what the
-- status of the configuration becomes.
pub mod Laws
use proxysql_on_k8s.Base.{
  ℕ, ◌+◌, Bool, true, false, not, ◌&&◌, ◌||◌, List, [], ◌∷◌, ◌++◌, Option, none, some, map, length,
  keep, eqb, leb, ◌==◌, text_eq, if◌then◌else◌,
}
use proxysql_on_k8s.Base.Calls.{Action, Reader, Result, ok, failed}
use proxysql_on_k8s.Base.Dict.{Dict, lookup, insert}
use proxysql_on_k8s.Base.Int.{ℤ, pos, negsuc, int_eq}
use proxysql_on_k8s.Base.Text.{Text, codes}
use proxysql_on_k8s.Base.Text.Decimal.{decimal}
use proxysql_on_k8s.Client.Types.{Desired}
use proxysql_on_k8s.Config.Replica.{
  Replicas, RdsReconcileState, ReplicaStatus, ReplicaObservation, Summary, observe_replica,
  apply_replica, summarize_replicas,
}
use proxysql_on_k8s.Discovery.{PodEndpoint}
use proxysql_on_k8s.Report.{join_errs}

-- A condition's type, whether its status is True, its reason and its message.
pub record Condition : Type 0 where
  pub type_name : Text
  pub status : Bool
  pub reason : Text
  pub message : Text

pub record ConfigStatus : Type 0 where
  pub observed_generation : ℤ
  pub observed_version : ℤ
  pub last_applied_hash : Text
  pub last_sync_time : Option ℕ
  pub synced_replicas : ℕ
  pub drifted_replicas : ℕ
  pub shunned_backends : ℕ
  pub last_runtime_check_time : Option ℕ
  pub replicas : List ReplicaStatus
  pub conditions : List Condition

-- What the function is given: of the configuration its generation, version and status; the digest of
-- everything that is pushed; the replicas and their addresses; and the mismatch on PostgreSQL. The
-- two functions on conditions are those of Kubernetes' `meta` package.
pub record Reconciling : Type 0 where
  pub generation : ℤ
  pub version : ℤ
  pub status : ConfigStatus
  pub hash : Text
  pub endpoints : List PodEndpoint
  pub addrs : List Text
  pub pgsql_mismatch : Bool
  pub resync_interval : ℤ
  pub set_condition : Condition → List Condition → List Condition
  pub remove_condition : Text → List Condition → List Condition

abbrev pub requeue_after_success : ℕ
requeue_after_success = 30000000000

abbrev pub requeue_after_transient : ℕ
requeue_after_transient = 5000000000

abbrev pub default_drift_resync_interval : ℕ
default_drift_resync_interval = 120000000000

-- `resyncInterval`
unfoldable pub resync_interval_of : ℤ → ℕ
resync_interval_of (pos ℕ.zero) = default_drift_resync_interval
resync_interval_of (pos (ℕ.suc n)) = ℕ.suc n
resync_interval_of (negsuc n) = default_drift_resync_interval

unfoldable pub resync_due : Option ℕ → ℕ → ℕ → Bool
resync_due none now interval = true
resync_due (some last) now interval = leb (last + interval) now

-- `for _, candidate := range pushEndpoints`, by the pods' names.
unfoldable pub is_candidate : PodEndpoint → List PodEndpoint → Bool
unfolding text_eq
is_candidate ep [] = false
is_candidate ep (c ∷ cs) = if ep.pod == c.pod then true else is_candidate ep cs

-- `replicaObservation{}`, which a pod without a result reads as.
abbrev pub no_observation : ReplicaObservation
no_observation = record {
  status = record {
    pod = [];
    observed_version = pos 0;
    converged = false;
    drifted = false;
    reason = [];
    last_check_time = none;
  };
  shunned = 0;
  drifted = false;
}

abbrev pub or_no_observation : Option ReplicaObservation → ReplicaObservation
or_no_observation none = no_observation
or_no_observation (some o) = o

abbrev pub observation_of : Dict Text ReplicaObservation → PodEndpoint → ReplicaObservation
observation_of results ep = or_no_observation (lookup ep.pod results)

-- The errors of the replicas that did not converge.
unfoldable pub sync_errs : Dict Text ReplicaObservation → List PodEndpoint → List Text
unfolding lookup text_eq
sync_errs results [] = []
sync_errs results (ep ∷ eps) =
    let o = observation_of results ep in
    let rest = sync_errs results eps in
    if o.status.converged then rest else (ep.pod ++ (codes ": " ++ o.status.reason)) ∷ rest

module _ (R : Replicas) (native : Desired)
    (rds_state : Option (RdsReconcileState R.State R.Observed))
    (update_status : ConfigStatus → Action R.State) (c : Reconciling) where
  open R use {State}

  -- What is returned: the status handed to `Status().Update`, if it is, and when to come back.
  abbrev pub Outcome : Type 0
  Outcome = Option ConfigStatus × Result ℕ

  -- `if err := r.Status().Update(ctx, &cfg); err != nil { return ctrl.Result{}, err }`
  unfoldable pub update_and_requeue : ConfigStatus → ℕ → State → State × Outcome
  update_and_requeue st after s =
      let (s', err) = update_status st s in
      (s', (some st, elim err [ none ↦ ok after | some e ↦ failed e ]))

  unfoldable pub is_unchanged : Bool
  unfolding text_eq int_eq
  is_unchanged =
      c.status.last_applied_hash == c.hash
      && (eqb c.status.synced_replicas (length c.addrs)
          && (c.status.observed_generation == c.generation
              && c.status.observed_version == c.version))

  -- The loop of observations over some endpoints, into the map by pods.
  unfoldable pub observe_each :
      List PodEndpoint → Dict Text ReplicaObservation → State → State × Dict Text ReplicaObservation
  unfolding observe_replica insert text_eq
  observe_each [] results s = (s, results)
  observe_each (ep ∷ eps) results s =
      let (s', o) = observe_replica R native rds_state c.version ep s in
      observe_each eps (insert ep.pod o results) s'

  unfoldable pub apply_each :
      List PodEndpoint → Dict Text ReplicaObservation → State → State × Dict Text ReplicaObservation
  unfolding apply_replica insert text_eq
  apply_each [] results s = (s, results)
  apply_each (ep ∷ eps) results s =
      let (s', o) = apply_replica R native rds_state c.version ep s in
      apply_each eps (insert ep.pod o results) s'

  -- The endpoints that are only observed: none when every endpoint is pushed.
  unfoldable pub only_observed : List PodEndpoint → List PodEndpoint
  unfolding is_candidate
  only_observed push =
      if eqb (length push) (length c.endpoints)
      then []
      else keep (λ ep. not (is_candidate ep push)) c.endpoints

  -- The status after a push, before it is known whether all converged.
  abbrev pub pushed_status : ConfigStatus → Summary → ℕ → ConfigStatus
  pushed_status st sum t = record (st) {
    replicas = sum.statuses;
    synced_replicas = sum.synced;
    drifted_replicas = sum.drifted;
    shunned_backends = sum.shunned;
    last_runtime_check_time = some t;
    observed_generation = c.generation;
  }

  abbrev pub condition : Text → Bool → Text → Text → Condition
  condition type_name status reason message = record {
    type_name = type_name;
    status = status;
    reason = reason;
    message = message;
  }

  abbrev pub cleared : List Condition → List Condition
  cleared conditions =
      if c.pgsql_mismatch then conditions else c.remove_condition (codes "Degraded") conditions

  -- The status when every replica converged.
  unfoldable pub synced_status : ConfigStatus → ℕ → ConfigStatus
  synced_status st t = record (st) {
    synced_replicas = length c.addrs;
    drifted_replicas = 0;
    last_applied_hash = c.hash;
    observed_version = c.version;
    last_sync_time = some t;
    conditions = cleared (
        c.set_condition (condition (codes "Progressing") false (codes "Steady") []) (
          c.set_condition
            (condition (codes "Ready") true (codes "Synced") (
              codes "config applied to "
              ++ (decimal (length c.addrs)
                  ++ (codes "/" ++ (decimal (length c.addrs) ++ codes " replicas")))))
            st.conditions));
  }

  abbrev pub degraded_message : List Text → Text
  degraded_message errs =
      if c.pgsql_mismatch
      then codes "pgsql declared but protocols.pgsql.enabled=false on cluster; " ++ join_errs errs
      else join_errs errs

  -- The status when some did not.
  unfoldable pub partial_status : ConfigStatus → ℕ → List Text → ConfigStatus
  unfolding join_errs
  partial_status st synced errs = record (st) {
    conditions =
        c.set_condition
          (condition (codes "Degraded") true (codes "SyncErrors") (degraded_message errs))
          (c.set_condition
            (condition (codes "Ready") false (codes "PartialSync") (
              codes "complete config converged on "
              ++ (decimal synced
                  ++ (codes "/" ++ (decimal (length c.addrs) ++ codes " replicas")))))
            st.conditions);
  }

  -- `synced == int32(len(endpoints)) && len(syncErrs) == 0`
  abbrev pub all_synced : Summary → List Text → Bool
  all_synced sum [] = eqb sum.synced (length c.endpoints)
  all_synced sum (e ∷ errs) = false

  unfoldable pub finish : ConfigStatus → Summary → List Text → ℕ → Bool → State → State × Outcome
  unfolding update_and_requeue synced_status partial_status
  finish st sum errs t true =
      update_and_requeue (synced_status (pushed_status st sum t) t) requeue_after_success
  finish st sum errs t false =
      update_and_requeue (partial_status (pushed_status st sum t) sum.synced errs)
        requeue_after_transient

  -- What follows the loops over the replicas.
  unfoldable pub conclude_push :
      ConfigStatus → Dict Text ReplicaObservation → State → State × Outcome
  unfolding summarize_replicas sync_errs finish lookup text_eq
  conclude_push st results s =
      let sum = summarize_replicas (map (observation_of results) c.endpoints) in
      let errs = sync_errs results c.endpoints in
      let (s', t) = R.now s in finish st sum errs t (all_synced sum errs) s'

  unfoldable pub push_to : ConfigStatus → List PodEndpoint → State → State × Outcome
  unfolding observe_each apply_each only_observed conclude_push
  push_to st push s =
      let (s₁, observed) = observe_each (only_observed push) [] s in
      let (s₂, results) = apply_each push observed s₁ in conclude_push st results s₂

  -- The loop of a resync: the observations, and the endpoints that drifted.
  unfoldable pub observe_all :
      List PodEndpoint → State → State × (List ReplicaObservation × List PodEndpoint)
  unfolding observe_replica
  observe_all [] s = (s, ([], []))
  observe_all (ep ∷ eps) s =
      let (s', o) = observe_replica R native rds_state c.version ep s in
      let (s'', (os, drifted)) = observe_all eps s' in
      (s'', (o ∷ os, if o.drifted then ep ∷ drifted else drifted))

  abbrev pub resynced_status : Summary → ℕ → ConfigStatus
  resynced_status sum t = record (c.status) {
    last_runtime_check_time = some t;
    shunned_backends = sum.shunned;
    replicas = sum.statuses;
    synced_replicas = sum.synced;
    drifted_replicas = sum.drifted;
  }

  -- Nothing drifted, or what did is pushed.
  unfoldable pub after_observations : ConfigStatus → ℕ → List PodEndpoint → State → State × Outcome
  unfolding update_and_requeue push_to
  after_observations st t [] =
      update_and_requeue (record (st) { last_sync_time = some t; observed_version = c.version })
        requeue_after_success
  after_observations st t (ep ∷ drifted) = push_to st (ep ∷ drifted)

  unfoldable pub resync : State → State × Outcome
  unfolding observe_all summarize_replicas after_observations
  resync s =
      let (s₁, (os, drifted)) = observe_all c.endpoints s in
      let (s₂, t) = R.now s₁ in
      after_observations (resynced_status (summarize_replicas os) t) t drifted s₂

  -- The three ways, by whether anything changed and whether a resync is due.
  unfoldable pub proceed : Bool → Bool → State → State × Outcome
  unfolding resync push_to
  proceed true false s = (s, (none, ok requeue_after_success))
  proceed true true s = resync s
  proceed false due s = push_to c.status c.endpoints s

  unfoldable pub reconcile_ready_replicas : State → State × Outcome
  unfolding is_unchanged resync_due resync_interval_of proceed
  reconcile_ready_replicas s =
      let (s', t) = R.now s in
      proceed is_unchanged
        (resync_due c.status.last_sync_time t (resync_interval_of c.resync_interval)) s'
