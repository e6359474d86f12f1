-- ===== src/Rotation/Resolve/Start.antt =====
-- The start of a window, which no pass moves.
use proxysql_on_k8s.Base.{
  ℕ, length, ◌≤◌, ◌≡◌, ◌⊎◌, inl, inr, refl, sym, ap, ◌∙◌, subst, Bool, true, false, List, [], ◌∷◌,
  Option, none, some, text_eq,
}
use proxysql_on_k8s.Base.Calls.{Result, ok, failed}
use proxysql_on_k8s.Base.Calls.Returns.{
  Leads, bind-Leads, Returns, give-Returns, bind-Returns, total-Returns, wrapped-ok,
}
use proxysql_on_k8s.Base.Dict.{Dict}
use proxysql_on_k8s.Base.Text.{Text}
use proxysql_on_k8s.Discovery.{PodEndpoint, discover_pod_endpoints}
use proxysql_on_k8s.Rotation.Reload.{Library, Connections}
use proxysql_on_k8s.Base.Text.Cut.{Without}
use proxysql_on_k8s.Rotation.State.Laws.{parse-format_kept}
use proxysql_on_k8s.Rotation.State.{
  TimeLayout, TlsRotationVerdict, verdict_adopt, verdict_none, verdict_rotate, tls_content_hash,
  parse_tls_rotation_state, format_tls_rotation_state,
}
use proxysql_on_k8s.Rotation.Resolve.{
  StsAnnotations, Settings, Cluster, Report, kept_on_error, keep, conclude, reload_and_conclude,
  parsed_fingerprint, usable_pool, rotate_on, rotate, carry_out_tls, on_secret, read_secret,
  secret_name, resolve_ready, guarded, resolve_tls_rotation, all_reloaded, not_all_reloaded,
}

-- The window has the state that it had, or it is closed without an error, with the marker on the
-- content that it was opened for, or because TLS is off.
abbrev pub KeepsWindow : Settings → StsAnnotations → Text → Report → Type 0
KeepsWindow cfg cur hash report =
    (report.0.state ≡ cur.tls_rotation_state)
    ⊎ ((report.0.state ≡ [])
        × (report.1 ≡ none)
        × ((report.0.applied ≡ hash) ⊎ (cfg.tls_enabled ≡ false)))

module _ (L : Library) (layout : TimeLayout) (C : Connections) (K : Cluster C) (cfg : Settings)
    (cur : StsAnnotations) (hash : Text) (start : ℕ) (plain : Without b'@' hash)
    (is_kept : layout.parse_time (layout.format_time start) ≡ some start)
    (is_open : cur.tls_rotation_state ≡ format_tls_rotation_state layout hash start) where
  reads_start :
      (t : ℕ) → start ≤ t → parse_tls_rotation_state layout cur.tls_rotation_state hash t ≡ start
  reads_start t late =
      ap (λ state. parse_tls_rotation_state layout state hash t) is_open
      ∙ parse-format_kept layout hash start t plain is_kept late

  module _ (begun : (s : C.State) → start ≤ (K.now s).1) where
    not_all_reloaded-KeepsWindow :
        (begin n : ℕ) (failures : List Text) (over : Bool)
        → begin ≡ start
        → KeepsWindow cfg cur hash
            (not_all_reloaded L layout C K cfg cur hash begin n failures over)
    unfolding not_all_reloaded
    not_all_reloaded-KeepsWindow begin n failures true h = inr (refl, refl, inl refl)
    not_all_reloaded-KeepsWindow begin n failures false h =
        inl (ap (format_tls_rotation_state layout hash) h ∙ sym is_open)

    conclude-KeepsWindow :
        (begin n : ℕ) (failures : List Text) (s : C.State)
        → begin ≡ start
        → KeepsWindow cfg cur hash (conclude L layout C K cfg cur hash begin n failures s).1
    unfolding conclude all_reloaded
    conclude-KeepsWindow begin n [] s h = inr (refl, refl, inl refl)
    conclude-KeepsWindow begin n (f ∷ failures) s h =
        not_all_reloaded-KeepsWindow begin n (f ∷ failures) _ h

    reload_and_conclude-KeepsWindow :
        (pool : L.CertPool) (expected_fp : Text) (endpoints : List PodEndpoint) (s : C.State)
        → KeepsWindow cfg cur hash
            (reload_and_conclude L layout C K cfg cur hash pool expected_fp endpoints s).1
    unfolding reload_and_conclude
    reload_and_conclude-KeepsWindow pool expected_fp endpoints s =
        let (s₁, t) = K.now s in
        conclude-KeepsWindow _ (length endpoints) _ _ (reads_start t (begun s))

    module _ (secret_data : Dict Text Text)
        (is_content : tls_content_hash L.sha256 secret_data ≡ hash) where
      rotate_on-KeepsWindow :
          (endpoints : List PodEndpoint)
          → Returns
              (KeepsWindow cfg cur hash)
              (rotate_on L layout C K cfg cur secret_data endpoints)
      unfolding rotate_on
      rotate_on-KeepsWindow [] = give-Returns (KeepsWindow cfg cur hash) _ (inl refl)
      rotate_on-KeepsWindow (ep ∷ endpoints) =
          bind-Returns (KeepsWindow cfg cur hash)
            (parsed_fingerprint L layout C K cfg cur secret_data) _
            λ fp.
              bind-Returns (KeepsWindow cfg cur hash) (usable_pool L layout C K cfg cur secret_data)
                _
                λ pool.
                  total-Returns (KeepsWindow cfg cur hash)
                    (reload_and_conclude L layout C K cfg cur
                      (tls_content_hash L.sha256 secret_data) pool fp (ep ∷ endpoints))
                    λ s.
                      subst
                        (λ u.
                          KeepsWindow cfg cur hash
                            (reload_and_conclude L layout C K cfg cur u pool fp (ep ∷ endpoints)
                              s).1)
                        (sym is_content)
                        (reload_and_conclude-KeepsWindow pool fp (ep ∷ endpoints) s)

      carry_out_tls-KeepsWindow :
          (verdict : TlsRotationVerdict)
          → Returns
              (KeepsWindow cfg cur hash)
              (carry_out_tls L layout C K cfg cur verdict secret_data)
      unfolding carry_out_tls rotate
      carry_out_tls-KeepsWindow verdict_adopt =
          give-Returns (KeepsWindow cfg cur hash) _ (inr (refl, refl, inl is_content))
      carry_out_tls-KeepsWindow verdict_none =
          give-Returns (KeepsWindow cfg cur hash) _ (inr (refl, refl, inl is_content))
      carry_out_tls-KeepsWindow verdict_rotate =
          bind-Returns (KeepsWindow cfg cur hash)
            (discover_pod_endpoints cfg.cluster_name cfg.namespace cfg.admin_port K.list_pods) _
            rotate_on-KeepsWindow

    module _
        (content : (s s' : C.State) (secret_data : Dict Text Text)
          → K.get_secret (secret_name L layout C K cfg cur) s ≡ (s', ok (some secret_data))
          → tls_content_hash L.sha256 secret_data ≡ hash) where
      read_secret-content :
          Leads
            (λ s secret.
              (secret_data : Dict Text Text)
              → secret ≡ some secret_data
              → tls_content_hash L.sha256 secret_data ≡ hash)
            (read_secret L layout C K cfg cur)
      unfolding read_secret
      read_secret-content s s' secret h secret_data same = content s s' secret_data (
          wrapped-ok _ (K.get_secret (secret_name L layout C K cfg cur)) s s' secret h
          ∙ ap (λ o. (s', ok o)) same)

      on_secret-KeepsWindow :
          (secret : Option (Dict Text Text))
          → ((secret_data : Dict Text Text)
              → secret ≡ some secret_data
              → tls_content_hash L.sha256 secret_data ≡ hash)
          → Returns (KeepsWindow cfg cur hash) (on_secret L layout C K cfg cur secret)
      unfolding on_secret
      on_secret-KeepsWindow none h = give-Returns (KeepsWindow cfg cur hash) _ (inl refl)
      on_secret-KeepsWindow (some secret_data) h =
          carry_out_tls-KeepsWindow secret_data (h secret_data refl) _

      guarded-KeepsWindow :
          (enabled tls_ready : Bool)
          → (enabled ≡ false → cfg.tls_enabled ≡ false)
          → Returns (KeepsWindow cfg cur hash) (guarded L layout C K cfg cur enabled tls_ready)
      unfolding guarded resolve_ready
      guarded-KeepsWindow false tls_ready off =
          give-Returns (KeepsWindow cfg cur hash) _ (inr (refl, refl, inr (off refl)))
      guarded-KeepsWindow true false off = give-Returns (KeepsWindow cfg cur hash) _ (inl refl)
      guarded-KeepsWindow true true off =
          bind-Leads
            (λ s secret.
              (secret_data : Dict Text Text)
              → secret ≡ some secret_data
              → tls_content_hash L.sha256 secret_data ≡ hash)
            (λ s. (KeepsWindow cfg cur hash)) (read_secret L layout C K cfg cur) _
            read_secret-content (λ s secret h. on_secret-KeepsWindow secret h s)

      kept_on_error-KeepsWindow :
          (s : C.State) (r : Result Report)
          → ((report : Report) → ok report ≡ r → KeepsWindow cfg cur hash report)
          → KeepsWindow cfg cur hash (kept_on_error (keep L layout C K cfg cur) (s, r)).1
      kept_on_error-KeepsWindow s (ok report) h = h report refl
      kept_on_error-KeepsWindow s (failed e) h = inl refl

      -- While the Secret keeps its content and the clock is not behind the window's start, a pass
      -- keeps the window's state as it is, or closes it without an error, with the marker on that
      -- content, or because TLS is off.
      pub resolve_tls_rotation-KeepsWindow :
          (tls_ready : Bool) (s : C.State)
          → KeepsWindow cfg cur hash (resolve_tls_rotation L layout C K cfg cur tls_ready s).1
      unfolding resolve_tls_rotation
      resolve_tls_rotation-KeepsWindow tls_ready s =
          let (s', r) = guarded L layout C K cfg cur cfg.tls_enabled tls_ready s in
          kept_on_error-KeepsWindow s' r λ report e.
            guarded-KeepsWindow cfg.tls_enabled tls_ready (λ off. off) s s' report
              (ap (λ u. (s', u)) (sym e))
