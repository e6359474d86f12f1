-- ===== src/Rotation/Resolve/Window.antt =====
-- The end of a window: the pass that finds it over settles the rotation.
use proxysql_on_k8s.Base.Calls.{give_result}
use proxysql_on_k8s.Base.{
  ℕ, length, leb, ◌≤◌, ◌+◌, ◌≡◌, refl, sym, ap, ◌∙◌, subst, Bool, true, false, List, [], ◌∷◌,
  Option, none, some, arith, text_eq,
}
use proxysql_on_k8s.Base.Calls.{ok}
use proxysql_on_k8s.Base.Calls.Returns.{Gives, give-Gives, bind-Gives, total-Gives, wrapped-Gives}
use proxysql_on_k8s.Base.Dict.{Dict}
use proxysql_on_k8s.Base.Text.{Text, codes}
use proxysql_on_k8s.Client.Sync.Variables.{value_of}
use proxysql_on_k8s.Discovery.{PodEndpoint, discover_pod_endpoints}
use proxysql_on_k8s.Rotation.Reload.{Library, Connections, leaf_fingerprint}
use proxysql_on_k8s.Base.Text.Cut.{Without}
use proxysql_on_k8s.Rotation.State.Laws.{parse-format_kept}
use proxysql_on_k8s.Rotation.State.{
  TimeLayout, TlsRotationVerdict, verdict_adopt, verdict_none, verdict_rotate, tls_content_hash,
  tls_cert_key, tls_ca_key, parse_tls_rotation_state, format_tls_rotation_state,
  tls_rotation_window,
}
use proxysql_on_k8s.Rotation.Resolve.{
  StsAnnotations, Settings, Cluster, Report, kept_on_error, reload_all, keep, conclude,
  reload_and_conclude, parsed_fingerprint, usable_pool, rotate_on, rotate, carry_out_tls, on_secret,
  read_secret, secret_name, in_secret, some_or_fail, resolve_ready, guarded, resolve_tls_rotation,
  all_reloaded, not_all_reloaded,
}

-- The rotation is over: no error, the marker on the content, and no window.
abbrev pub IsSettled : Text → Report → Type 0
IsSettled hash report = (report.1 ≡ none) × (report.0.applied ≡ hash) × (report.0.state ≡ [])

abbrev pub HasEndpoint : List PodEndpoint → Type 0
HasEndpoint endpoints = (ep : PodEndpoint) × (rest : List PodEndpoint) × (endpoints ≡ ep ∷ rest)

leb-true : (a b : ℕ) → a ≤ b → leb a b ≡ true
leb-true a b h = ground arith

module _ (L : Library) (layout : TimeLayout) (C : Connections) (K : Cluster C) (cfg : Settings)
    (cur : StsAnnotations) (hash : Text) (start : ℕ) (plain : Without b'@' hash)
    (is_kept : layout.parse_time (layout.format_time start) ≡ some start)
    (is_open : cur.tls_rotation_state ≡ format_tls_rotation_state layout hash start) where
  reads_start :
      (t : ℕ) → start ≤ t → parse_tls_rotation_state layout cur.tls_rotation_state hash t ≡ start
  reads_start t late =
      ap (λ state. parse_tls_rotation_state layout state hash t) is_open
      ∙ parse-format_kept layout hash start t plain is_kept late

  module _
      (is_over : (s : C.State)
        → start + tls_rotation_window cfg.rotation_window ≤ (K.now s).1) where
    not_all_reloaded-IsSettled :
        (n : ℕ) (failures : List Text) (over : Bool)
        → over ≡ true
        → IsSettled hash (not_all_reloaded L layout C K cfg cur hash start n failures over)
    unfolding not_all_reloaded
    not_all_reloaded-IsSettled n failures true h = (refl, refl, refl)
    not_all_reloaded-IsSettled n failures false h = absurd cc

    conclude-IsSettled :
        (n : ℕ) (failures : List Text) (s : C.State)
        → IsSettled hash (conclude L layout C K cfg cur hash start n failures s).1
    unfolding conclude all_reloaded
    conclude-IsSettled n [] s = (refl, refl, refl)
    conclude-IsSettled n (f ∷ failures) s =
        not_all_reloaded-IsSettled n (f ∷ failures) _ (leb-true _ _ (is_over s))

    begun_before : (s : C.State) → start ≤ (K.now s).1
    begun_before s = omega (arith, is_over s)

    reload_and_conclude-IsSettled :
        (pool : L.CertPool) (expected_fp : Text) (endpoints : List PodEndpoint) (s : C.State)
        → IsSettled hash
            (reload_and_conclude L layout C K cfg cur hash pool expected_fp endpoints s).1
    unfolding reload_and_conclude
    reload_and_conclude-IsSettled pool expected_fp endpoints s =
        let (s₁, t) = K.now s in
        let (s₂, failures) = reload_all L layout C K pool expected_fp endpoints s₁ in
        subst
          (λ begun.
            IsSettled hash
              (conclude L layout C K cfg cur hash begun (length endpoints) failures s₂).1)
          (sym (reads_start t (begun_before s))) (conclude-IsSettled (length endpoints) failures s₂)

    module _ (secret_data : Dict Text Text)
        (is_content : tls_content_hash L.sha256 secret_data ≡ hash) (expected_fp : Text)
        (pool : L.CertPool)
        (has_leaf : leaf_fingerprint L (value_of secret_data tls_cert_key) ≡ ok expected_fp)
        (has_pool : L.cert_pool (value_of secret_data tls_ca_key) ≡ some pool) where
      parsed_fingerprint-Gives :
          Gives (λ fp. Unit) (parsed_fingerprint L layout C K cfg cur secret_data)
      unfolding parsed_fingerprint
      parsed_fingerprint-Gives =
          wrapped-Gives (λ fp. Unit) _
            (give_result (leaf_fingerprint L (value_of secret_data tls_cert_key)))
            (λ s. (s, expected_fp, ap (λ r. (s, r)) has_leaf, tt))

      usable_pool-Gives : Gives (λ p. Unit) (usable_pool L layout C K cfg cur secret_data)
      unfolding usable_pool
      usable_pool-Gives s = (
        s,
        pool,
        ap
            (λ o. (
              s,
              some_or_fail
                  (in_secret L layout C K cfg cur (codes "ca.crt contains no usable certificates"))
                  o,
            ))
            has_pool,
        tt,
      )

      rotate_on-IsSettled :
          (ep : PodEndpoint) (endpoints : List PodEndpoint)
          → Gives (IsSettled hash) (rotate_on L layout C K cfg cur secret_data (ep ∷ endpoints))
      unfolding rotate_on
      rotate_on-IsSettled ep endpoints =
          bind-Gives (λ fp. Unit) (IsSettled hash)
            (parsed_fingerprint L layout C K cfg cur secret_data) _ parsed_fingerprint-Gives
            λ fp _.
              bind-Gives (λ p. Unit) (IsSettled hash) (usable_pool L layout C K cfg cur secret_data)
                _ usable_pool-Gives
                λ p _.
                  total-Gives (IsSettled hash)
                    (reload_and_conclude L layout C K cfg cur
                      (tls_content_hash L.sha256 secret_data) p fp (ep ∷ endpoints))
                    λ s.
                      subst
                        (λ u.
                          IsSettled hash
                            (reload_and_conclude L layout C K cfg cur u p fp (ep ∷ endpoints) s).1)
                        (sym is_content) (reload_and_conclude-IsSettled p fp (ep ∷ endpoints) s)

      module _
          (finds : Gives HasEndpoint (
            discover_pod_endpoints cfg.cluster_name cfg.namespace cfg.admin_port K.list_pods)) where
        rotate-IsSettled : Gives (IsSettled hash) (rotate L layout C K cfg cur secret_data)
        unfolding rotate
        rotate-IsSettled =
            bind-Gives HasEndpoint (IsSettled hash)
              (discover_pod_endpoints cfg.cluster_name cfg.namespace cfg.admin_port K.list_pods) _
              finds
              λ endpoints found.
                let (ep, rest, same) = found in
                subst (λ es. Gives (IsSettled hash) (rotate_on L layout C K cfg cur secret_data es))
                  (sym same) (rotate_on-IsSettled ep rest)

        carry_out_tls-IsSettled :
            (verdict : TlsRotationVerdict)
            → Gives (IsSettled hash) (carry_out_tls L layout C K cfg cur verdict secret_data)
        unfolding carry_out_tls
        carry_out_tls-IsSettled verdict_adopt =
            give-Gives (IsSettled hash) _ (refl, is_content, refl)
        carry_out_tls-IsSettled verdict_none =
            give-Gives (IsSettled hash) _ (refl, is_content, refl)
        carry_out_tls-IsSettled verdict_rotate = rotate-IsSettled

        module _
            (answers : Gives
              (λ secret. secret ≡ some secret_data)
              (K.get_secret (secret_name L layout C K cfg cur))) where
          on_secret-IsSettled :
              (secret : Option (Dict Text Text))
              → secret ≡ some secret_data
              → Gives (IsSettled hash) (on_secret L layout C K cfg cur secret)
          unfolding on_secret
          on_secret-IsSettled secret same =
              subst (λ o. Gives (IsSettled hash) (on_secret L layout C K cfg cur o)) (sym same)
                (carry_out_tls-IsSettled _)

          resolve_ready-IsSettled : Gives (IsSettled hash) (resolve_ready L layout C K cfg cur)
          unfolding resolve_ready read_secret
          resolve_ready-IsSettled =
              bind-Gives (λ secret. secret ≡ some secret_data) (IsSettled hash)
                (read_secret L layout C K cfg cur) _
                (wrapped-Gives (λ secret. secret ≡ some secret_data) _
                  (K.get_secret (secret_name L layout C K cfg cur)) answers)
                on_secret-IsSettled

          -- A pass that begins when the window is over, and that reads the Secret, its certificates
          -- and at least one replica, settles the rotation whatever the replicas answer: it returns
          -- no error, the marker stands on the Secret's digest, and the window is closed.
          pub resolve_tls_rotation-IsSettled :
              cfg.tls_enabled ≡ true
              → (s : C.State) → IsSettled hash (resolve_tls_rotation L layout C K cfg cur true s).1
          unfolding resolve_tls_rotation guarded
          resolve_tls_rotation-IsSettled enabled s =
              let (s', report, ends, settled) = resolve_ready-IsSettled s in
              subst
                (λ on.
                  IsSettled hash
                    (kept_on_error (keep L layout C K cfg cur)
                      (guarded L layout C K cfg cur on true s)).1)
                (sym enabled)
                (subst (λ r. IsSettled hash (kept_on_error (keep L layout C K cfg cur) r).1)
                  (sym ends) settled)
