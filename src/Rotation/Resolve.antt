-- ===== src/Rotation/Resolve.antt =====
-- tls_rotation.go, `resolveTLSRotation` and `resolveTLSCleanup`: what the annotations of the
-- StatefulSet become. Kubernetes, the clock and the pods are a state with calls that may fail.
pub mod Marker
pub mod Window
pub mod Start
use proxysql_on_k8s.Base.{
  ℕ, ◌+◌, Bool, true, false, List, [], ◌∷◌, ◌++◌, Option, none, some, length, leb, ◌==◌, text_eq,
  ◌||◌, if◌then◌else◌,
}
use proxysql_on_k8s.Base.Calls.{
  Action, Reader, Result, ok, failed, ◌>>=◌, give, wrapped, total, give_result,
}
use proxysql_on_k8s.Base.Dict.{Dict}
use proxysql_on_k8s.Base.Int.{ℤ}
use proxysql_on_k8s.Base.Text.{Text, codes}
use proxysql_on_k8s.Base.Text.Decimal.{decimal}
use proxysql_on_k8s.Client.Sync.Variables.{value_of}
use proxysql_on_k8s.Discovery.{Pod, PodEndpoint, discover_pod_endpoints}
use proxysql_on_k8s.Report.{join_trunc}
use proxysql_on_k8s.Rotation.Reload.{
  Library, Connections, leaf_fingerprint, pinned_tls_config, reload_and_verify_tls,
}
use proxysql_on_k8s.Rotation.State.{
  TimeLayout, TlsRotationVerdict, verdict_adopt, verdict_none, verdict_rotate,
  classify_tls_rotation, tls_content_hash, tls_ca_key, tls_cert_key, format_tls_rotation_state,
  parse_tls_rotation_state, tls_rotation_window,
}

-- The three annotations of `stsAnnotations` that the rotation owns.
pub record StsAnnotations : Type 0 where
  pub tls_applied : Text
  pub tls_rotation_state : Text
  pub tls_restart : Text

pub record TlsRotationOutcome : Type 0 where
  pub applied : Text
  pub state : Text
  pub restart : Text
  pub summary : Text

-- `tlsRotationOutcome{}`
abbrev pub no_outcome : TlsRotationOutcome
no_outcome = record { applied = []; state = []; restart = []; summary = [] }

-- What is read of the cluster's spec, of the builder and of the reconciler's options.
pub record Settings : Type 0 where
  pub tls_enabled : Bool
  pub tls_mount_secret : Text
  pub tls_secret_name : Text
  pub cluster_name : Text
  pub namespace : Text
  pub admin_port : ℤ
  pub rotation_window : ℤ

-- The calls: `Get` of a Secret, which may be absent, `List` of the cluster's pods, and `time.Now`.
pub record Cluster (C : Connections) : Type 0 where
  pub get_secret : Text → C.State → C.State × Result (Option (Dict Text Text))
  pub list_pods : C.State → C.State × Result (List Pod)
  pub now : C.State → C.State × ℕ

-- A return with a value and an error.
abbrev pub Report : Type 0
Report = TlsRotationOutcome × Option Text

-- `return keep, err` on an error that came up.
abbrev pub kept_on_error : {S : Type 0} → TlsRotationOutcome → S × Result Report → S × Report
kept_on_error keep (s, ok report) = (s, report)
kept_on_error keep (s, failed e) = (s, (keep, some e))

abbrev pub some_or_fail : {A : Type 0} → Text → Option A → Result A
some_or_fail e none = failed e
some_or_fail e (some a) = ok a

module _ (L : Library) (layout : TimeLayout) (C : Connections) (K : Cluster C) where
  open C use {State}

  -- The loop over the endpoints; a failure is noted under the replica's address.
  unfoldable pub noted : Text → Option Text → List Text → List Text
  noted addr none failures = failures
  noted addr (some e) failures = (addr ++ (codes ": " ++ e)) ∷ failures

  unfoldable pub reload_all : L.CertPool → Text → List PodEndpoint → State → State × List Text
  unfolding noted reload_and_verify_tls pinned_tls_config
  reload_all pool expected_fp [] s = (s, [])
  reload_all pool expected_fp (ep ∷ endpoints) s =
      let (s', err) =
        reload_and_verify_tls L C ep.addr expected_fp
          (pinned_tls_config L pool expected_fp ep.server_name) s in
      let (s'', failures) = reload_all pool expected_fp endpoints s' in
      (s'', noted ep.addr err failures)

  module _ (cfg : Settings) (cur : StsAnnotations) where
    abbrev pub keep : TlsRotationOutcome
    keep = record {
      applied = cur.tls_applied;
      state = cur.tls_rotation_state;
      restart = cur.tls_restart;
      summary = [];
    }

    abbrev pub secret_name : Text
    secret_name = if cfg.tls_mount_secret == [] then cfg.tls_secret_name else cfg.tls_mount_secret

    -- The return when every replica passed, with their number.
    unfoldable pub all_reloaded : Text → ℕ → Report
    all_reloaded secret_hash n = (
      record {
        applied = secret_hash;
        state = [];
        restart = cur.tls_restart;
        summary =
            codes "RuntimeApplied: TLS certificate reloaded on "
            ++ (decimal n ++ codes " replica(s)");
      },
      none,
    )

    -- The two returns when some did not, by whether the window is over.
    unfoldable pub not_all_reloaded : Text → ℕ → ℕ → List Text → Bool → Report
    unfolding join_trunc format_tls_rotation_state
    not_all_reloaded secret_hash start n failures true = (
      record {
        applied = secret_hash;
        state = [];
        restart = secret_hash;
        summary =
            codes "RestartRequired: TLS rotation fallback ("
            ++ (join_trunc failures 256 ++ codes ")");
      },
      none,
    )
    not_all_reloaded secret_hash start n failures false = (
      record {
        applied = cur.tls_applied;
        state = format_tls_rotation_state layout secret_hash start;
        restart = cur.tls_restart;
        summary = [];
      },
      some (
          codes "TLS rotation pending on "
          ++ (decimal (length failures)
              ++ (codes "/" ++ (decimal n ++ (codes " replica(s): " ++ join_trunc failures 512))))),
    )

    -- What follows the loop; `time.Since` reads the clock again.
    unfoldable pub conclude : Text → ℕ → ℕ → List Text → State → State × Report
    unfolding all_reloaded not_all_reloaded tls_rotation_window
    conclude secret_hash start n [] s = (s, all_reloaded secret_hash n)
    conclude secret_hash start n (f ∷ failures) s =
        let (s', t) = K.now s in
        (
          s',
          not_all_reloaded secret_hash start n (f ∷ failures)
              (leb (start + tls_rotation_window cfg.rotation_window) t),
        )

    -- The passes over the replicas, once the expected certificate is known.
    unfoldable pub reload_and_conclude :
        Text → L.CertPool → Text → List PodEndpoint → State → State × Report
    unfolding reload_all conclude parse_tls_rotation_state
    reload_and_conclude secret_hash pool expected_fp endpoints s =
        let (s₁, t) = K.now s in
        let start = parse_tls_rotation_state layout cur.tls_rotation_state secret_hash t in
        let (s₂, failures) = reload_all pool expected_fp endpoints s₁ in
        conclude secret_hash start (length endpoints) failures s₂

    -- `tls secret %q: `
    abbrev pub in_secret : Text → Text
    in_secret e = codes "tls secret " ++ (L.quoted secret_name ++ (codes ": " ++ e))

    unfoldable pub parsed_fingerprint : Dict Text Text → Reader State Text
    unfolding leaf_fingerprint
    parsed_fingerprint secret_data =
        wrapped (λ e. in_secret (codes "parsing tls.crt: " ++ e))
          (give_result (leaf_fingerprint L (value_of secret_data tls_cert_key)))

    unfoldable pub usable_pool : Dict Text Text → Reader State L.CertPool
    usable_pool secret_data = give_result (
        some_or_fail (in_secret (codes "ca.crt contains no usable certificates"))
          (L.cert_pool (value_of secret_data tls_ca_key)))

    unfoldable pub rotate_on : Dict Text Text → List PodEndpoint → Reader State Report
    unfolding parsed_fingerprint usable_pool reload_and_conclude tls_content_hash
    rotate_on secret_data [] = give (keep, none)
    rotate_on secret_data (ep ∷ endpoints) = do
      expected_fp ← parsed_fingerprint secret_data
      pool ← usable_pool secret_data
      total (
          reload_and_conclude (tls_content_hash L.sha256 secret_data) pool expected_fp
            (ep ∷ endpoints))

    unfoldable pub rotate : Dict Text Text → Reader State Report
    unfolding rotate_on discover_pod_endpoints
    rotate secret_data = do
      endpoints ← discover_pod_endpoints cfg.cluster_name cfg.namespace cfg.admin_port K.list_pods
      rotate_on secret_data endpoints

    -- The marker takes over the current content.
    abbrev pub settled : Text → Report
    settled secret_hash = (
      record { applied = secret_hash; state = []; restart = cur.tls_restart; summary = [] },
      none,
    )

    unfoldable pub carry_out_tls : TlsRotationVerdict → Dict Text Text → Reader State Report
    unfolding rotate tls_content_hash
    carry_out_tls verdict_adopt secret_data = give (settled (tls_content_hash L.sha256 secret_data))
    carry_out_tls verdict_none secret_data = give (settled (tls_content_hash L.sha256 secret_data))
    carry_out_tls verdict_rotate secret_data = rotate secret_data

    unfoldable pub on_secret : Option (Dict Text Text) → Reader State Report
    unfolding carry_out_tls classify_tls_rotation tls_content_hash
    on_secret none = give (keep, none)
    on_secret (some secret_data) =
        carry_out_tls
          (classify_tls_rotation cur.tls_applied (tls_content_hash L.sha256 secret_data))
          secret_data

    unfoldable pub read_secret : Reader State (Option (Dict Text Text))
    read_secret =
        wrapped
          (λ e. codes "get tls secret " ++ (L.quoted secret_name ++ (codes " for rotation: " ++ e)))
          (K.get_secret secret_name)

    -- What follows the guards on the spec and on the Secret's validation.
    unfoldable pub resolve_ready : Reader State Report
    unfolding read_secret on_secret
    resolve_ready = do secret ← read_secret; on_secret secret

    unfoldable pub guarded : Bool → Bool → Reader State Report
    unfolding resolve_ready
    guarded false tls_ready = give (no_outcome, none)
    guarded true false = give (keep, none)
    guarded true true = resolve_ready

    unfoldable pub resolve_tls_rotation : Bool → State → State × Report
    unfolding guarded
    resolve_tls_rotation tls_ready s = kept_on_error keep (guarded cfg.tls_enabled tls_ready s)
