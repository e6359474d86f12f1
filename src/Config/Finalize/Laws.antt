-- ===== src/Config/Finalize/Laws.antt =====
-- When the finalizer is released.
use proxysql_on_k8s.Base.{◌≡◌, ◌⊎◌, Bool, List, [], ◌∷◌, none, some, map, text_eq}
use proxysql_on_k8s.Base.Calls.{Result, ok, failed}
use proxysql_on_k8s.Client.Sync.{sync}
use proxysql_on_k8s.Base.Dict.{Dict}
use proxysql_on_k8s.Base.Text.{Text, codes}
use proxysql_on_k8s.Client.Types.{Desired}
use proxysql_on_k8s.Config.Desired.{Secrets}
use proxysql_on_k8s.Config.Finalize.{Calls, Deleted, executor_at, clear_plugin, cleanup_state}
use proxysql_on_k8s.Config.Union.{ClusterView, build_unioned_desired}
use proxysql_on_k8s.Discovery.{PodEndpoint}

module _ (K : Secrets) (C : Calls K) (cfg : Deleted) where
  -- Every replica was dialled and took the whole push, one after the other.
  abbrev pub AllApplied : Text → Desired → List Text → K.State → K.State → Type 0
  AllApplied password d [] s s' = s ≡ s'
  AllApplied password d (addr ∷ addrs) s s' =
      (s₁ : K.State) × (s₂ : K.State) × (C.dial addr password s ≡ (s₁, none))
      × (sync (executor_at K C cfg addr) d s₁ ≡ (s₂, none))
      × AllApplied password d addrs s₂ s'

  -- The update that takes the finalizer away.
  abbrev pub Released : K.State → K.State → Type 0
  Released s s' = C.update s ≡ (s', none)

  -- The ready replicas, at least one, were found, the plugin's state was cleared where there is one,
  -- and every replica in turn was brought to what is to remain: the union of the other
  -- configurations, or the cleanup state.
  abbrev pub IsCleaned : ClusterView → Text → K.State → K.State → Type 0
  IsCleaned cluster password s s' =
      (ep : PodEndpoint) × (eps : List PodEndpoint) × (union : Result (Desired × Bool))
      × (s₁ : K.State) × (s₂ : K.State) × (s₃ : K.State) × (s₄ : K.State) × (s₅ : K.State)
      × (C.discover cluster s ≡ (s₁, ok (ep ∷ eps)))
      × (C.dial_tls cluster (ep ∷ eps) s₁ ≡ (s₂, none))
      × (clear_plugin K C cfg cfg.has_db_proxy cluster (ep ∷ eps) s₂ ≡ (s₃, ok tt))
      × (build_unioned_desired cluster K (C.list_configs cluster) cfg.name s₃ ≡ (s₄, union))
      × AllApplied password (cleanup_state K C cfg cluster union)
          (map (λ (e : PodEndpoint). e.addr) (ep ∷ eps)) s₄ s₅
      × Released s₅ s'

  -- The admin Secret that was read is gone, or holds no password, or the replicas were cleaned with
  -- its password.
  abbrev pub IsReleasableOf : ClusterView → K.State → K.State → Type 0
  IsReleasableOf cluster s s' =
      ((s₁ : K.State) × (C.get_admin_secret cluster s ≡ (s₁, ok none)) × Released s₁ s')
      ⊎ ((secret_data : Dict Text Text) × (e : Text) × (s₁ : K.State) × (C.get_admin_secret cluster
              s
            ≡ (s₁, ok (some secret_data)))
          × (C.passwords_from_secret secret_data ≡ failed e)
          × Released s₁ s')
      ⊎ ((secret_data : Dict Text Text) × (password : Text) × (s₁ : K.State) × (C.get_admin_secret
              cluster s
            ≡ (s₁, ok (some secret_data)))
          × (C.passwords_from_secret secret_data ≡ ok password)
          × IsCleaned cluster password s₁ s')

  -- The reasons for a release, each with the calls that were made, in their order.
  abbrev pub IsReleasable : K.State → K.State → Type 0
  IsReleasable s s' =
      ((cfg.skip_cleanup ≡ codes "true") × Released s s')
      ⊎ ((s₁ : K.State) × (C.get_cluster s ≡ (s₁, ok none)) × Released s₁ s')
      ⊎ ((cluster : ClusterView) × (s₁ : K.State) × (C.get_cluster s ≡ (s₁, ok (some cluster)))
          × IsReleasableOf cluster s₁ s')
