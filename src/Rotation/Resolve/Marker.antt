-- ===== src/Rotation/Resolve/Marker.antt =====
-- When the marker of the served content moves.
use proxysql_on_k8s.Base.Calls.{give_result}
use proxysql_on_k8s.Base.{
  ℕ, ◌≡◌, ◌⊎◌, inl, inr, refl, sym, ap, ◌∙◌, subst, Bool, true, false, List, [], ◌∷◌, Option, none,
  some, text_eq, length,
}
use proxysql_on_k8s.Base.Calls.{Result, ok, failed, wrapped, total, ◌>>=◌}
use proxysql_on_k8s.Base.Calls.Returns.{give-Leads, bind_values, wrapped-ok, or_else, ok-injective}
use proxysql_on_k8s.Base.Dict.{Dict}
use proxysql_on_k8s.Base.Text.{Text}
use proxysql_on_k8s.Client.Sync.Variables.{value_of}
use proxysql_on_k8s.Discovery.{PodEndpoint, discover_pod_endpoints}
use proxysql_on_k8s.Rotation.Reload.{
  Library, Connections, leaf_fingerprint, pinned_tls_config, reload_and_verify_tls,
}
use proxysql_on_k8s.Rotation.Reload.Laws.{HasServed, reload_and_verify_tls-HasServed}
use proxysql_on_k8s.Rotation.State.Laws.{classify-adopt, classify-none}
use proxysql_on_k8s.Rotation.State.{
  TimeLayout, TlsRotationVerdict, verdict_adopt, verdict_none, verdict_rotate,
  classify_tls_rotation, tls_content_hash, tls_cert_key, tls_ca_key, parse_tls_rotation_state,
}
use proxysql_on_k8s.Rotation.Resolve.{
  StsAnnotations, Settings, Cluster, Report, secret_name, some_or_fail, kept_on_error, noted,
  reload_all, keep, conclude, reload_and_conclude, parsed_fingerprint, usable_pool, rotate_on,
  rotate, carry_out_tls, on_secret, read_secret, resolve_ready, guarded, resolve_tls_rotation,
  all_reloaded, not_all_reloaded,
}

module _ (L : Library) (layout : TimeLayout) (C : Connections) (K : Cluster C) where
  -- One replica after the other was reloaded without an error, and was at last seen to serve the
  -- certificate at its address.
  abbrev pub AllServed : L.CertPool → Text → List PodEndpoint → C.State → C.State → Type 0
  AllServed pool expected_fp [] s s' = s ≡ s'
  AllServed pool expected_fp (ep ∷ endpoints) s s' =
      (s₁ : C.State) × (reload_and_verify_tls L C ep.addr expected_fp
          (pinned_tls_config L pool expected_fp ep.server_name) s
        ≡ (s₁, none))
      × HasServed L C ep.addr expected_fp (pinned_tls_config L pool expected_fp ep.server_name) s₁
      × AllServed pool expected_fp endpoints s₁ s'

  noted-cases :
      (addr : Text) (err : Option Text) (failures : List Text)
      → noted L layout C K addr err failures ≡ []
      → (err ≡ none) × (failures ≡ [])
  unfolding noted
  noted-cases addr none failures h = (refl, h)
  noted-cases addr (some e) failures h = absurd cc

  reload_all-AllServed :
      (pool : L.CertPool) (expected_fp : Text) (endpoints : List PodEndpoint) (s s' : C.State)
      → reload_all L layout C K pool expected_fp endpoints s ≡ (s', [])
      → AllServed pool expected_fp endpoints s s'
  unfolding reload_all
  reload_all-AllServed pool expected_fp [] s s' h = ap (λ r. r.0) h
  reload_all-AllServed pool expected_fp (ep ∷ endpoints) s s' h =
      let check = pinned_tls_config L pool expected_fp ep.server_name in
      let (s₁, err) = reload_and_verify_tls L C ep.addr expected_fp check s in
      let (s₂, failures) = reload_all L layout C K pool expected_fp endpoints s₁ in
      let (passed, others) = noted-cases ep.addr err failures (ap (λ r. r.1) h) in
      (
        s₁,
        ap (λ e. (s₁, e)) passed,
        reload_and_verify_tls-HasServed L C ep.addr expected_fp check s s₁
            (ap (λ e. (s₁, e)) passed),
        reload_all-AllServed pool expected_fp endpoints s₁ s'
            (ap (λ f. (s₂, f)) others ∙ ap (λ u. (u, [])) (ap (λ r. r.0) h)),
      )

  module _ (cfg : Settings) (cur : StsAnnotations) where
    -- The Secret with this digest was read, the replicas, at least one, were then discovered, and all
    -- of them, one after the other, were seen to serve the Secret's certificate.
    abbrev pub IsServed : C.State → C.State → Text → Type 0
    IsServed s s' applied =
        (secret_data : Dict Text Text) × (expected_fp : Text) × (pool : L.CertPool)
        × (ep : PodEndpoint) × (endpoints : List PodEndpoint) × (s₁ : C.State) × (s₂ : C.State)
        × (K.get_secret (secret_name L layout C K cfg cur) s ≡ (s₁, ok (some secret_data)))
        × (discover_pod_endpoints cfg.cluster_name cfg.namespace cfg.admin_port K.list_pods s₁
            ≡ (s₂, ok (ep ∷ endpoints)))
        × (applied ≡ tls_content_hash L.sha256 secret_data)
        × (leaf_fingerprint L (value_of secret_data tls_cert_key) ≡ ok expected_fp)
        × (L.cert_pool (value_of secret_data tls_ca_key) ≡ some pool)
        × AllServed pool expected_fp (ep ∷ endpoints) (K.now s₂).0 s'

    -- The marker stays, or TLS is off, or there was none, or the restart annotation names the new
    -- content, or the replicas serve it.
    abbrev pub IsJustified : C.State → C.State → Report → Type 0
    IsJustified s s' report =
        (report.0.applied ≡ cur.tls_applied)
        ⊎ (cfg.tls_enabled ≡ false)
        ⊎ (cur.tls_applied ≡ [])
        ⊎ (report.0.restart ≡ report.0.applied)
        ⊎ IsServed s s' report.0.applied

    not_all_reloaded-IsJustified :
        (s s' : C.State) (secret_hash : Text) (start n : ℕ) (failures : List Text) (over : Bool)
        → IsJustified s s' (not_all_reloaded L layout C K cfg cur secret_hash start n failures over)
    unfolding not_all_reloaded
    not_all_reloaded-IsJustified s s' secret_hash start n failures true = inr (inr (inr (inl refl)))
    not_all_reloaded-IsJustified s s' secret_hash start n failures false = inl refl

    conclude-IsJustified :
        (s : C.State) (secret_hash : Text) (start n : ℕ) (failures : List Text) (s₁ : C.State)
        → (failures ≡ [] → IsServed s s₁ secret_hash)
        → IsJustified s
            (conclude L layout C K cfg cur secret_hash start n failures s₁).0
            (conclude L layout C K cfg cur secret_hash start n failures s₁).1
    unfolding conclude all_reloaded
    conclude-IsJustified s secret_hash start n [] s₁ h = inr (inr (inr (inr (h refl))))
    conclude-IsJustified s secret_hash start n (f ∷ failures) s₁ h =
        not_all_reloaded-IsJustified s _ secret_hash start n (f ∷ failures) _

    wrapped_give :
        {A : Type 0} (wrap : Text → Text) (r : Result A) (s s' : C.State) (a : A)
        → wrapped wrap (give_result r) s ≡ (s', ok a)
        → (s ≡ s') × (r ≡ ok a)
    wrapped_give wrap (ok b) s s' a h = (ap (λ p. p.0) h, ap (λ p. p.1) h)
    wrapped_give wrap (failed e) s s' a h = absurd cc

    usable_pool_some :
        (e : Text) (found : Option L.CertPool) (s s' : C.State) (pool : L.CertPool)
        → ◌≡◌ {A = C.State × Result L.CertPool} (s, some_or_fail e found) (s', ok pool)
        → (s ≡ s') × (found ≡ some pool)
    usable_pool_some e (some found) s s' pool h =
        (ap (λ p. p.0) h, ap some (ok-injective s s' found pool h))
    usable_pool_some e none s s' pool h = absurd cc

    parsed_fingerprint_ok :
        (secret_data : Dict Text Text) (s s' : C.State) (fp : Text)
        → parsed_fingerprint L layout C K cfg cur secret_data s ≡ (s', ok fp)
        → (s ≡ s') × (leaf_fingerprint L (value_of secret_data tls_cert_key) ≡ ok fp)
    unfolding parsed_fingerprint
    parsed_fingerprint_ok secret_data s s' fp h = wrapped_give _ _ s s' fp h

    usable_pool_ok :
        (secret_data : Dict Text Text) (s s' : C.State) (pool : L.CertPool)
        → usable_pool L layout C K cfg cur secret_data s ≡ (s', ok pool)
        → (s ≡ s') × (L.cert_pool (value_of secret_data tls_ca_key) ≡ some pool)
    unfolding usable_pool
    usable_pool_ok secret_data s s' pool h = usable_pool_some _ _ s s' pool h

    rotate_on-IsJustified :
        (secret_data : Dict Text Text) (endpoints : List PodEndpoint) (s s₁ s₂ s' : C.State)
        (report : Report)
        → K.get_secret (secret_name L layout C K cfg cur) s ≡ (s₁, ok (some secret_data))
        → discover_pod_endpoints cfg.cluster_name cfg.namespace cfg.admin_port K.list_pods s₁
          ≡ (s₂, ok endpoints)
        → rotate_on L layout C K cfg cur secret_data endpoints s₂ ≡ (s', ok report)
        → IsJustified s s' report
    unfolding rotate_on reload_and_conclude
    rotate_on-IsJustified secret_data [] s s₁ s₂ s' report read found h =
        give-Leads (IsJustified s) _ (λ s. inl refl) s₂ s' report h
    rotate_on-IsJustified secret_data (ep ∷ endpoints) s s₁ s₂ s' report read found h =
        let expected_hash = tls_content_hash L.sha256 secret_data in
        let reload : L.CertPool → Text → C.State → C.State × Report = λ pool fp.
          reload_and_conclude L layout C K cfg cur expected_hash pool fp (ep ∷ endpoints) in
        let (s₃, expected_fp, parsed, on) =
          bind_values (parsed_fingerprint L layout C K cfg cur secret_data)
            (λ fp. usable_pool L layout C K cfg cur secret_data >>= λ pool. total (reload pool fp))
            s₂ s' report h in
        let (same₁, fingerprint) = parsed_fingerprint_ok secret_data s₂ s₃ expected_fp parsed in
        let (s₄, pool, pooled, reloaded) =
          bind_values (usable_pool L layout C K cfg cur secret_data)
            (λ pool. total (reload pool expected_fp)) s₃ s' report on in
        let (same₂, usable) = usable_pool_ok secret_data s₃ s₄ pool pooled in
        let (s₅, t) = K.now s₂ in
        let (s₆, failures) = reload_all L layout C K pool expected_fp (ep ∷ endpoints) s₅ in
        let begin = parse_tls_rotation_state layout cur.tls_rotation_state expected_hash t in
        subst (λ (r : C.State × Result Report). IsJustified s r.0 (or_else report r.1))
          (ap (total (reload pool expected_fp)) (same₁ ∙ same₂) ∙ reloaded)
          (conclude-IsJustified s expected_hash begin (length (ep ∷ endpoints)) failures s₆
            λ none_failed. (
              secret_data,
              expected_fp,
              pool,
              ep,
              endpoints,
              s₁,
              s₂,
              read,
              found,
              refl,
              fingerprint,
              usable,
              reload_all-AllServed pool expected_fp (ep ∷ endpoints) s₅ s₆
                  (ap (λ f. (s₆, f)) none_failed),
            ))

    rotate-IsJustified :
        (secret_data : Dict Text Text) (s s₁ s' : C.State) (report : Report)
        → K.get_secret (secret_name L layout C K cfg cur) s ≡ (s₁, ok (some secret_data))
        → rotate L layout C K cfg cur secret_data s₁ ≡ (s', ok report)
        → IsJustified s s' report
    unfolding rotate
    rotate-IsJustified secret_data s s₁ s' report read h =
        let (s₂, endpoints, found, on) =
          bind_values
            (discover_pod_endpoints cfg.cluster_name cfg.namespace cfg.admin_port K.list_pods)
            (rotate_on L layout C K cfg cur secret_data) s₁ s' report h in
        rotate_on-IsJustified secret_data endpoints s s₁ s₂ s' report read found on

    carry_out_tls-IsJustified :
        (secret_data : Dict Text Text) (verdict : TlsRotationVerdict) (s s₁ s' : C.State)
        (report : Report)
        → (verdict ≡ verdict_adopt → cur.tls_applied ≡ [])
        → (verdict ≡ verdict_none → cur.tls_applied ≡ tls_content_hash L.sha256 secret_data)
        → K.get_secret (secret_name L layout C K cfg cur) s ≡ (s₁, ok (some secret_data))
        → carry_out_tls L layout C K cfg cur verdict secret_data s₁ ≡ (s', ok report)
        → IsJustified s s' report
    unfolding carry_out_tls
    carry_out_tls-IsJustified secret_data verdict_adopt s s₁ s' report adopt same read =
        give-Leads (IsJustified s) _ (λ s. inr (inr (inl (adopt refl)))) s₁ s' report
    carry_out_tls-IsJustified secret_data verdict_none s s₁ s' report adopt same read =
        give-Leads (IsJustified s) _ (λ s. inl (sym (same refl))) s₁ s' report
    carry_out_tls-IsJustified secret_data verdict_rotate s s₁ s' report adopt same read =
        rotate-IsJustified secret_data s s₁ s' report read

    on_secret-IsJustified :
        (secret : Option (Dict Text Text)) (s s₁ s' : C.State) (report : Report)
        → K.get_secret (secret_name L layout C K cfg cur) s ≡ (s₁, ok secret)
        → on_secret L layout C K cfg cur secret s₁ ≡ (s', ok report)
        → IsJustified s s' report
    unfolding on_secret
    on_secret-IsJustified none s s₁ s' report read =
        give-Leads (IsJustified s) _ (λ s. inl refl) s₁ s' report
    on_secret-IsJustified (some secret_data) s s₁ s' report read =
        let hash = tls_content_hash L.sha256 secret_data in
        carry_out_tls-IsJustified secret_data (classify_tls_rotation cur.tls_applied hash) s s₁ s'
          report (classify-adopt cur.tls_applied hash) (classify-none cur.tls_applied hash) read

    read_secret_ok :
        (s s' : C.State) (secret : Option (Dict Text Text))
        → read_secret L layout C K cfg cur s ≡ (s', ok secret)
        → K.get_secret (secret_name L layout C K cfg cur) s ≡ (s', ok secret)
    unfolding read_secret
    read_secret_ok = wrapped-ok _ (K.get_secret (secret_name L layout C K cfg cur))

    guarded-IsJustified :
        (enabled tls_ready : Bool) (s s' : C.State) (report : Report)
        → (enabled ≡ false → cfg.tls_enabled ≡ false)
        → guarded L layout C K cfg cur enabled tls_ready s ≡ (s', ok report)
        → IsJustified s s' report
    unfolding guarded resolve_ready
    guarded-IsJustified false tls_ready s s' report off h =
        give-Leads (IsJustified s) _ (λ s. inr (inl (off refl))) s s' report h
    guarded-IsJustified true false s s' report off h =
        give-Leads (IsJustified s) _ (λ s. inl refl) s s' report h
    guarded-IsJustified true true s s' report off h =
        let (s₁, secret, read, on) =
          bind_values (read_secret L layout C K cfg cur) (on_secret L layout C K cfg cur) s s'
            report h in
        on_secret-IsJustified secret s s₁ s' report (read_secret_ok s s₁ secret read) on

    kept_on_error-IsJustified :
        (s s₁ : C.State) (r : Result Report)
        → ((report : Report) → ok report ≡ r → IsJustified s s₁ report)
        → IsJustified s
            (kept_on_error (keep L layout C K cfg cur) (s₁, r)).0
            (kept_on_error (keep L layout C K cfg cur) (s₁, r)).1
    kept_on_error-IsJustified s s₁ (ok report) h = h report refl
    kept_on_error-IsJustified s s₁ (failed e) h = inl refl

    -- Whatever Kubernetes, the clock and the pods answer, the marker of the served content moves
    -- only where TLS is off, where there was no marker, where the restart annotation of the same
    -- outcome is that content's digest, or where the Secret with that digest was read, the replicas,
    -- at least one, were then discovered, and each of them in turn was seen to serve the Secret's
    -- certificate.
    pub resolve_tls_rotation-IsJustified :
        (tls_ready : Bool) (s s' : C.State) (report : Report)
        → resolve_tls_rotation L layout C K cfg cur tls_ready s ≡ (s', report)
        → IsJustified s s' report
    unfolding resolve_tls_rotation
    resolve_tls_rotation-IsJustified tls_ready s s' report h =
        let (s₁, r) = guarded L layout C K cfg cur cfg.tls_enabled tls_ready s in
        subst (λ p. IsJustified s p.0 p.1) h
          (kept_on_error-IsJustified s s₁ r λ given e.
            guarded-IsJustified cfg.tls_enabled tls_ready s s₁ given (λ off. off)
              (ap (λ u. (s₁, u)) (sym e)))
