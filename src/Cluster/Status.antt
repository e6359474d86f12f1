-- ===== src/Cluster/Status.antt =====
-- proxysqlcluster_controller.go, `updateStatus`: the phase and the conditions of a cluster.
pub mod Laws
use proxysql_on_k8s.Base.{
  Bool, true, false, ◌&&◌, List, [], ◌∷◌, ◌++◌, Option, none, some, ◌≡◌, ◌==◌, text_eq,
  if◌then◌else◌,
}
use proxysql_on_k8s.Base.Calls.{Action, Reader, Result, ok, failed}
use proxysql_on_k8s.Base.Int.{ℤ, pos, ltb_ℤ, int_eq}
use proxysql_on_k8s.Base.Text.{Text, codes, has_prefix}
use proxysql_on_k8s.Base.Text.Decimal.{format_int}
use proxysql_on_k8s.Cluster.Phase.{
  StatefulSet, missing_stateful_set, derive_phase, Service, external_endpoint,
}

pub data ConditionStatus : Type 0 where
  condition_true : ConditionStatus
  condition_false : ConditionStatus
  condition_unknown : ConditionStatus

pub record Condition : Type 0 where
  pub kind : Text
  pub status : ConditionStatus
  pub reason : Text
  pub message : Text
  pub observed_generation : ℤ

-- The conditions of apimachinery: `meta.SetStatusCondition`, `meta.RemoveStatusCondition`, and the
-- status that `meta.FindStatusCondition` finds for a kind.
pub record ConditionLibrary : Type 1 where
  pub Conditions : Type 0
  pub set_status_condition : Condition → Conditions → Conditions
  pub remove_status_condition : Text → Conditions → Conditions
  pub status_of : Text → Conditions → Option ConditionStatus

-- What their documentation says of them.
pub record ConditionLaws (L : ConditionLibrary) : Type 0 where
  pub set :
      (k : Text) (c : Condition) (cs : L.Conditions)
      → L.status_of k (L.set_status_condition c cs)
        ≡ (if c.kind == k then some c.status else L.status_of k cs)
  pub remove :
      (k j : Text) (cs : L.Conditions)
      → L.status_of k (L.remove_status_condition j cs) ≡ (if j == k then none else L.status_of k cs)

abbrev pub cond_type_available : Text
cond_type_available = codes "Available"

abbrev pub cond_type_progressing : Text
cond_type_progressing = codes "Progressing"

abbrev pub cond_type_degraded : Text
cond_type_degraded = codes "Degraded"

abbrev pub cond_type_paused : Text
cond_type_paused = codes "Paused"

-- `ClusterEndpoints`
pub record ClusterEndpoints : Type 0 where
  pub mysql : Text
  pub pgsql : Text
  pub admin : Text
  pub web : Text
  pub metrics : Text
  pub external : Text

-- What is read of the cluster: its generation and specification, and what the builder names.
pub record ClusterSpec : Type 0 where
  pub generation : ℤ
  pub replicas : Option ℤ
  pub pause : Bool
  pub external_enabled : Bool
  pub secret_name : Text
  pub endpoints : ClusterEndpoints

-- The errors that this reconcile deferred: of the external Service, of the TLS Secrets and of the
-- rotation.
pub record Deferred : Type 0 where
  pub ext_svc : Option Text
  pub tls : Option Text
  pub rot : Option Text

module _ (L : ConditionLibrary) where
  -- `ProxySQLClusterStatus`
  pub record ClusterStatus : Type 0 where
    pub observed_generation : ℤ
    pub replicas : ℤ
    pub ready_replicas : ℤ
    pub updated_replicas : ℤ
    pub phase : Text
    pub endpoints : ClusterEndpoints
    pub admin_secret_name : Text
    pub conditions : L.Conditions

abbrev pub desired_replicas : Option ℤ → ℤ
desired_replicas none = pos 0
desired_replicas (some n) = n

-- What the client answers with: the StatefulSet or the Service, where it was found.
pub record ClusterCalls (L : ConditionLibrary) : Type 1 where
  pub State : Type 0
  pub get_stateful_set : State → State × Result (Option StatefulSet)
  pub get_external_service : State → State × Result (Option Service)
  pub update : ClusterStatus L → Action State

module _ (L : ConditionLibrary) (spec : ClusterSpec) where
  unfoldable pub set_condition : Text → ConditionStatus → Text → Text → L.Conditions → L.Conditions
  set_condition kind status reason message = L.set_status_condition (record {
    kind = kind;
    status = status;
    reason = reason;
    message = message;
    observed_generation = spec.generation;
  })

  -- `setDegradedFromDeferredErrors`
  unfoldable pub set_degraded :
      Option Text → Option Text → Option Text → L.Conditions → L.Conditions
  unfolding set_condition
  set_degraded (some e) tls rot =
      set_condition cond_type_degraded condition_true (codes "ExternalServiceError") e
  set_degraded none (some e) rot =
      set_condition cond_type_degraded condition_true (codes "TLSSecretError") e
  set_degraded none none (some e) =
      set_condition cond_type_degraded condition_true (codes "TLSRotationError") e
  set_degraded none none none = L.remove_status_condition cond_type_degraded

  -- The two cases of `updatePausedStatus`.
  unfoldable pub paused_conditions : ℤ → L.Conditions → L.Conditions
  unfolding set_condition
  paused_conditions ready cs =
      let stopping =
        codes "scaling down to 0 replicas (" ++ (format_int ready ++ codes " still ready)") in
      let all_stopped = codes "all replicas scaled to 0; Services/Secrets/PVCs retained" in
      if ltb_ℤ (pos 0) ready
      then set_condition cond_type_progressing condition_true (codes "Stopping") stopping (
          set_condition cond_type_available condition_false (codes "Stopping") stopping
            (set_condition cond_type_paused condition_false (codes "Stopping") stopping cs))
      else set_condition cond_type_progressing condition_false (codes "Paused")
          (codes "no rollout in progress; cluster is paused")
          (set_condition cond_type_available condition_false (codes "Paused") all_stopped
            (set_condition cond_type_paused condition_true (codes "Paused") all_stopped cs))

  unfoldable pub set_available : Bool → ℤ → ℤ → L.Conditions → L.Conditions
  unfolding set_condition
  set_available replicas_ready ready desired =
      let message =
        format_int ready ++ (codes "/" ++ (format_int desired ++ codes " replicas ready")) in
      if replicas_ready
      then set_condition cond_type_available condition_true (codes "AllReplicasReady") message
      else set_condition cond_type_available condition_false (codes "ReplicasNotReady") message

  -- The switch over the summary of this reconcile.
  unfoldable pub set_progressing : Bool → Text → L.Conditions → L.Conditions
  unfolding set_condition has_prefix text_eq
  set_progressing replicas_ready summary =
      if has_prefix summary (codes "RuntimeApplied")
      then set_condition cond_type_progressing condition_false (codes "RuntimeApplied") summary
      else if has_prefix summary (codes "RestartRequired")
      then set_condition cond_type_progressing condition_true (codes "Rolling") summary
      else if replicas_ready
      then set_condition cond_type_progressing condition_false (codes "Steady")
          (codes "no rollout in progress")
      else set_condition cond_type_progressing condition_true (codes "Rolling")
          (if summary == [] then codes "waiting for replicas" else summary)

  unfoldable pub set_conditions : Bool → ℤ → ℤ → Text → Deferred → L.Conditions → L.Conditions
  unfolding paused_conditions set_available set_progressing set_degraded int_eq
  set_conditions true ready desired summary errs cs =
      set_degraded errs.ext_svc errs.tls errs.rot (paused_conditions ready cs)
  set_conditions false ready desired summary errs cs =
      let replicas_ready = ready == desired && ltb_ℤ (pos 0) desired in
      set_degraded errs.ext_svc errs.tls errs.rot (
        set_progressing replicas_ready summary (
          set_available replicas_ready ready desired (
            set_condition cond_type_paused condition_false (codes "NotPaused")
              (codes "cluster is not paused") cs)))

  -- The fields that are set before the external endpoint is read.
  unfoldable pub observed_status : StatefulSet → ClusterStatus L → ClusterStatus L
  observed_status ss st = record st {
    observed_generation = spec.generation;
    replicas = desired_replicas spec.replicas;
    ready_replicas = ss.ready_replicas;
    updated_replicas = ss.updated_replicas;
    admin_secret_name = spec.secret_name;
    endpoints = spec.endpoints;
  }

  -- The status that is sent, for the StatefulSet that was read, whether it was missing, and the
  -- external endpoint.
  unfoldable pub concluded_status :
      StatefulSet → Bool → Text → Text → Deferred → ClusterStatus L → ClusterStatus L
  unfolding derive_phase set_conditions
  concluded_status ss ss_missing ext summary errs st = record st {
    endpoints = record st.endpoints { external = ext };
    phase = derive_phase ss ss_missing (desired_replicas spec.replicas) spec.pause;
    conditions =
        set_conditions spec.pause ss.ready_replicas (desired_replicas spec.replicas) summary errs
          st.conditions;
  }

module _ (L : ConditionLibrary) (C : ClusterCalls L) (spec : ClusterSpec) where
  open C use {State}

  -- The end of `updateStatus`, once the external endpoint was read into an observed status.
  unfoldable pub send_status :
      StatefulSet
      → Bool
      → Text
      → Deferred
      → ClusterStatus L
      → Result Text
      → State
      → State × (ClusterStatus L × Option Text)
  unfolding concluded_status
  send_status ss ss_missing summary errs observed (failed e) s = (s, (observed, some e))
  send_status ss ss_missing summary errs observed (ok endpoint) s =
      let sent = concluded_status L spec ss ss_missing endpoint summary errs observed in
      let (s', err) = C.update sent s in (s', (sent, err))

  -- What follows once the StatefulSet was read.
  unfoldable pub update_with :
      StatefulSet
      → Bool
      → Text
      → Deferred
      → ClusterStatus L
      → State
      → State × (ClusterStatus L × Option Text)
  unfolding external_endpoint observed_status send_status
  update_with ss ss_missing summary errs st s =
      let (s', ext) = external_endpoint spec.external_enabled C.get_external_service s in
      send_status ss ss_missing summary errs (observed_status L spec ss st) ext s'

  -- The cases of the StatefulSet: an error, one that was not found, and one that was.
  unfoldable pub with_stateful_set :
      Text
      → Deferred
      → ClusterStatus L
      → Result (Option StatefulSet)
      → State
      → State × (ClusterStatus L × Option Text)
  unfolding update_with
  with_stateful_set summary errs st (failed e) s = (s, (st, some e))
  with_stateful_set summary errs st (ok none) s =
      update_with missing_stateful_set true summary errs st s
  with_stateful_set summary errs st (ok (some ss)) s = update_with ss false summary errs st s

  -- `updateStatus`: the state after it, the status that the object then has, and its error.
  unfoldable pub update_status :
      Text → Deferred → ClusterStatus L → State → State × (ClusterStatus L × Option Text)
  unfolding with_stateful_set
  update_status summary errs st s =
      let (s', found) = C.get_stateful_set s in with_stateful_set summary errs st found s'
