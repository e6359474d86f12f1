-- ===== src/Config/Finalize.antt =====
-- proxysqlconfig_controller.go, `finalize`: the cleanup of a configuration that is being deleted.
pub mod Laws
use proxysql_on_k8s.Api.{ProxySqlConfig}
use proxysql_on_k8s.Base.{
  ℕ, suc, Bool, true, false, List, [], ◌∷◌, ◌++◌, Option, none, some, map, length, eqb, ◌==◌,
  text_eq, if◌then◌else◌,
}
use proxysql_on_k8s.Base.Calls.{
  Action, ◌>>◌, Reader, Result, ok, failed, ◌>>=◌, give, attempt, wrapped,
}
use proxysql_on_k8s.Base.Dict.{Dict}
use proxysql_on_k8s.Base.Text.{Text, codes}
use proxysql_on_k8s.Client.Executor.{Executor}
use proxysql_on_k8s.Client.Sync.{sync}
use proxysql_on_k8s.Client.Types.{Desired}
use proxysql_on_k8s.Config.Desired.{Secrets}
use proxysql_on_k8s.Config.Replica.{RdsReconcileState}
use proxysql_on_k8s.Config.Union.{ClusterView, build_unioned_desired, cleanup_desired}
use proxysql_on_k8s.Discovery.{PodEndpoint}

-- What is called: Kubernetes, with `none` for an object that does not exist; PasswordsFromSecret,
-- for the password of the admin connections; discoverPodEndpoints, adminDialTLS and the dials; and
-- buildRDSReconcileState, with the test whether its error says that something does not exist.
pub record Calls (K : Secrets) : Type 1 where
  pub Observed : Type 0
  pub update : Action K.State
  pub get_cluster : K.State → K.State × Result (Option ClusterView)
  pub get_admin_secret : ClusterView → K.State → K.State × Result (Option (Dict Text Text))
  pub passwords_from_secret : Dict Text Text → Result Text
  pub discover : ClusterView → K.State → K.State × Result (List PodEndpoint)
  pub dial_tls : ClusterView → List PodEndpoint → Action K.State
  pub dial : Text → Text → Action K.State
  pub exec : Text → Text → Action K.State
  pub list_configs : ClusterView → K.State → K.State × Result (List ProxySqlConfig)
  pub build_rds :
      ClusterView → K.State → K.State × Result (Option (RdsReconcileState K.State Observed))
  pub is_not_found : Text → Bool

-- What is read of the configuration, beside its name: the finalizer, the annotation that skips the
-- cleanup, whether a DB proxy is configured, and whether it has no peers of its own.
pub record Deleted : Type 0 where
  pub name : Text
  pub has_finalizer : Bool
  pub skip_cleanup : Text
  pub has_db_proxy : Bool
  pub has_no_peers : Bool

-- The returns: nothing to do, the finalizer released, a requeue, or an error.
pub data Finalized : Type 0 where
  nothing_to_do : Finalized
  released : Finalized
  retry : Finalized
  stopped : Text → Finalized

module _ (K : Secrets) (C : Calls K) (cfg : Deleted) where
  open K use {State}

  -- `releaseFinalizer`
  unfoldable pub release_finalizer : State → State × Finalized
  release_finalizer s =
      let (s', err) = C.update s in (s', elim err [ none ↦ released | some e ↦ stopped e ])

  abbrev pub executor_at : Text → Executor
  executor_at addr = record { State = State; exec = C.exec addr }

  -- One round of `applyToReplicas`, and its counts.
  unfoldable pub apply_to : Text → Desired → Text → Action State
  unfolding sync
  apply_to password d addr = C.dial addr password >> sync (executor_at addr) d

  unfoldable pub count_applied : Option Text → ℕ → ℕ
  count_applied none n = suc n
  count_applied (some e) n = n

  unfoldable pub apply_to_replicas : Text → Desired → List Text → State → State × ℕ
  unfolding apply_to count_applied
  apply_to_replicas password d [] s = (s, 0)
  apply_to_replicas password d (addr ∷ addrs) s =
      let (s', err) = apply_to password d addr s in
      let (s'', n) = apply_to_replicas password d addrs s' in (s'', count_applied err n)

  -- The loop that clears the plugin's state.
  unfoldable pub clear_rds :
      RdsReconcileState State C.Observed → List PodEndpoint → Reader State Unit
  clear_rds rds [] = give tt
  clear_rds rds (ep ∷ eps) = do
    connected ← attempt (λ e. e) (rds.client ep)
    observed ← rds.describe ep
    done ← attempt (λ e. e) (rds.clear_mutable ep observed)
    clear_rds rds eps

  unfoldable pub clear_built :
      List PodEndpoint → Result (Option (RdsReconcileState State C.Observed)) → Reader State Unit
  unfolding clear_rds
  clear_built eps (ok none) = give tt
  clear_built eps (ok (some rds)) = clear_rds rds eps
  clear_built eps (failed e) = if C.is_not_found e then give tt else (λ s. (s, failed e))

  -- Any failure of it is a retry.
  unfoldable pub clear_plugin : Bool → ClusterView → List PodEndpoint → Reader State Unit
  unfolding clear_built
  clear_plugin false cluster eps = give tt
  clear_plugin true cluster eps =
      λ s. let (s', built) = C.build_rds cluster s in clear_built eps built s'

  -- The state that is left: the other configurations' if there are any.
  unfoldable pub cleanup_state : ClusterView → Result (Desired × Bool) → Desired
  unfolding cleanup_desired
  cleanup_state cluster (failed e) = cleanup_desired cluster cfg.has_no_peers
  cleanup_state cluster (ok (remaining, true)) = remaining
  cleanup_state cluster (ok (remaining, false)) = cleanup_desired cluster cfg.has_no_peers

  -- `if cleaned != len(addrs)`
  unfoldable pub release_if : Bool → State → State × Finalized
  unfolding release_finalizer
  release_if true = release_finalizer
  release_if false = λ s. (s, retry)

  unfoldable pub clean_replicas :
      ClusterView → Text → List PodEndpoint → Result Unit → State → State × Finalized
  unfolding build_unioned_desired cleanup_state apply_to_replicas release_if
  clean_replicas cluster password eps (failed e) s = (s, retry)
  clean_replicas cluster password eps (ok u) s =
      let (s₁, union) = build_unioned_desired cluster K (C.list_configs cluster) cfg.name s in
      let (s₂, cleaned) =
        apply_to_replicas password (cleanup_state cluster union) (map (λ ep. ep.addr) eps) s₁ in
      release_if (eqb cleaned (length eps)) s₂

  -- No ready pod is a retry.
  unfoldable pub clean_ready :
      ClusterView → Text → List PodEndpoint → Option Text → State → State × Finalized
  unfolding clear_plugin clean_replicas
  clean_ready cluster password eps (some e) s = (s, retry)
  clean_ready cluster password [] none s = (s, retry)
  clean_ready cluster password (ep ∷ eps) none s =
      let (s', cleared) = clear_plugin cfg.has_db_proxy cluster (ep ∷ eps) s in
      clean_replicas cluster password (ep ∷ eps) cleared s'

  unfoldable pub with_endpoints :
      ClusterView → Text → Result (List PodEndpoint) → State → State × Finalized
  unfolding clean_ready
  with_endpoints cluster password (failed e) s = (s, stopped e)
  with_endpoints cluster password (ok eps) s =
      let (s', err) = C.dial_tls cluster eps s in clean_ready cluster password eps err s'

  -- An admin Secret that matches no schema releases the finalizer.
  unfoldable pub with_password : ClusterView → Result Text → State → State × Finalized
  unfolding release_finalizer with_endpoints
  with_password cluster (failed e) s = release_finalizer s
  with_password cluster (ok password) s =
      let (s', found) = C.discover cluster s in with_endpoints cluster password found s'

  unfoldable pub with_secret :
      ClusterView → Result (Option (Dict Text Text)) → State → State × Finalized
  unfolding release_finalizer with_password
  with_secret cluster (failed e) s = (s, stopped e)
  with_secret cluster (ok none) s = release_finalizer s
  with_secret cluster (ok (some secret_data)) s =
      with_password cluster (C.passwords_from_secret secret_data) s

  unfoldable pub with_cluster : Result (Option ClusterView) → State → State × Finalized
  unfolding release_finalizer with_secret
  with_cluster (failed e) s = (s, stopped e)
  with_cluster (ok none) s = release_finalizer s
  with_cluster (ok (some cluster)) s =
      let (s', secret) = C.get_admin_secret cluster s in with_secret cluster secret s'

  -- The two guards: no finalizer of ours, and the annotation.
  unfoldable pub finalize_unless : Bool → Bool → State → State × Finalized
  unfolding release_finalizer with_cluster
  finalize_unless false skip s = (s, nothing_to_do)
  finalize_unless true true s = release_finalizer s
  finalize_unless true false s = let (s', found) = C.get_cluster s in with_cluster found s'

  unfoldable pub finalize : State → State × Finalized
  unfolding finalize_unless text_eq
  finalize = finalize_unless cfg.has_finalizer (cfg.skip_cleanup == codes "true")
