-- ===== src/Rotation/Reload.antt =====
-- tls_rotation.go: one replica made to serve the new certificate (`reloadAndVerifyTLS`), over
-- connections that check the replica's certificate themselves (`pinnedTLSConfig`).
pub mod Laws
use proxysql_on_k8s.Base.{
  ℕ, zero, suc, Bool, true, false, List, [], ◌∷◌, ◌++◌, Option, none, some, take, ◌==◌, text_eq,
  if◌then◌else◌,
}
use proxysql_on_k8s.Base.Calls.{Action, ◌>>◌, succeed, Reader, Result, ok, failed, ◌>>=◌, attempt}
use proxysql_on_k8s.Base.Text.{Text, codes}
use proxysql_on_k8s.Client.Executor.{Executor}
use proxysql_on_k8s.Client.Sync.Variables.{reload_tls}

-- What is called of Go's crypto packages and of `fmt`: SHA-256 in hexadecimal, the first PEM block,
-- `AppendCertsFromPEM`, `ParseCertificate`, `Certificate.Verify`, and the verb `%q`.
pub record Library : Type 1 where
  pub CertPool : Type 0
  pub Certificate : Type 0
  pub sha256 : Text → Text
  pub pem_decode : Text → Option Text
  pub cert_pool : Text → Option CertPool
  pub parse_certificate : Text → Result Certificate
  pub verify : Certificate → CertPool → List Certificate → Text → Option Text
  pub quoted : Text → Text

-- `VerifyPeerCertificate`, on the certificates that the peer presents.
abbrev pub PeerCheck : Type 0
PeerCheck = List Text → Option Text

-- The admin connections: `NewWithTLS`, `Ping` with the certificates of its handshake if it came to
-- that, `Exec`, and the wait between two attempts, which a cancelled context ends with its error.
pub record Connections : Type 1 where
  pub State : Type 0
  pub connect : Text → PeerCheck → Action State
  pub ping : Text → PeerCheck → State → State × (Option (List Text) × Option Text)
  pub exec : Text → PeerCheck → Text → Action State
  pub wait : Action State

module _ (L : Library) where
  open L use {CertPool, Certificate, sha256, parse_certificate}

  -- tlsutil's `LeafFingerprint`
  unfoldable pub leaf_fingerprint : Text → Result Text
  leaf_fingerprint pem = elim (L.pem_decode pem) [
    | none ↦ failed (codes "no PEM block found in certificate data")
    | some block ↦ ok (sha256 block)
  ]

  -- The certificates behind the leaf that can be parsed.
  unfoldable pub intermediates : List Text → List Certificate
  intermediates [] = []
  intermediates (raw ∷ rest) =
      let certs = intermediates rest in
      elim (parse_certificate raw) [ ok c ↦ c ∷ certs | failed e ↦ certs ]

  unfoldable pub check_chain : CertPool → Text → List Text → Result Certificate → Option Text
  unfolding intermediates
  check_chain pool server_name rest (failed e) = some (codes "parsing peer certificate: " ++ e)
  check_chain pool server_name rest (ok leaf) =
      elim (L.verify leaf pool (intermediates rest) server_name) [
        | none ↦ none
        | some e ↦ some (
            codes
              "peer certificate is neither the expected rotated leaf nor chained to the cluster CA for "
            ++ (L.quoted server_name ++ (codes ": " ++ e)))
      ]

  unfoldable pub pinned_tls_config : CertPool → Text → Text → PeerCheck
  unfolding check_chain text_eq
  pinned_tls_config pool expected_fp server_name [] = some (codes "no peer certificate presented")
  pinned_tls_config pool expected_fp server_name (leaf ∷ rest) =
      if sha256 leaf == expected_fp
      then none
      else check_chain pool server_name rest (parse_certificate leaf)

  -- The fingerprint that the probe's own check captures.
  unfoldable pub captured : Option (List Text) → Text
  captured none = []
  captured (some []) = []
  captured (some (leaf ∷ rest)) = sha256 leaf

  unfoldable pub observed : Text → Option Text → Result Text
  observed fp none = ok fp
  observed [] (some e) = failed e
  observed (c ∷ fp) (some e) = ok (c ∷ fp)

abbrev pub tls_verify_attempts : ℕ
tls_verify_attempts = 3

-- U+2026 in UTF-8.
abbrev pub ellipsis : Text
ellipsis = 226 ∷ 128 ∷ 166 ∷ []

-- The error of an attempt that saw another certificate. A fingerprint is in ASCII.
unfoldable pub still_serving : Text → Text → Text
still_serving fp expected_fp =
    codes "still serving certificate "
    ++ (take 12 fp
        ++ (ellipsis ++ (codes " (want " ++ (take 12 expected_fp ++ (ellipsis ++ codes ")")))))

unfoldable pub serves : Text → Result Text → Bool
unfolding text_eq
serves expected_fp (ok fp) = fp == expected_fp
serves expected_fp (failed e) = false

module _ (L : Library) (C : Connections) where
  open C use {State}

  unfoldable pub probe_tls_leaf_fingerprint : Text → PeerCheck → Reader State Text
  unfolding captured observed
  probe_tls_leaf_fingerprint addr check = do
    opened ← attempt (λ e. e) (C.connect addr check)
    λ s. let (s', (certs, err)) = C.ping addr check s in (s', observed L (captured L certs) err)

  abbrev executor_at : Text → PeerCheck → Executor
  executor_at addr check = record { State = State; exec = C.exec addr check }

  unfoldable pub reload_tls_on : Text → PeerCheck → Action State
  unfolding reload_tls
  reload_tls_on addr check = C.connect addr check >> reload_tls (executor_at addr check)

  module _ (addr expected_fp : Text) (check : PeerCheck) where
    -- What an attempt's probe leads to: success, or the next attempt with this one's error.
    unfoldable pub after_probe : (Option Text → Action State) → Result Text → Action State
    unfolding still_serving text_eq
    after_probe next (failed e) = next (some (codes "verify handshake: " ++ e))
    after_probe next (ok fp) =
        if fp == expected_fp then succeed else next (some (still_serving fp expected_fp))

    unfoldable pub probe_again : (Option Text → Action State) → Action State
    unfolding after_probe probe_tls_leaf_fingerprint
    probe_again next s =
        let (s', r) = probe_tls_leaf_fingerprint addr check s in after_probe next r s'

    abbrev pub pause : Bool → Action State
    pause true = succeed
    pause false = C.wait

    -- The loop of attempts that are left, with the last error; the first one does not wait.
    unfoldable pub verify_attempts : Bool → ℕ → Option Text → Action State
    unfolding probe_again
    verify_attempts first zero last_err = λ s. (s, last_err)
    verify_attempts first (suc left) last_err =
        pause first >> probe_again (verify_attempts false left)

    unfoldable pub after_reload : Option Text → Action State
    unfolding verify_attempts
    after_reload none = verify_attempts true tls_verify_attempts none
    after_reload (some e) = λ s. (s, some (codes "reload tls: " ++ e))

    unfoldable pub reload_then_verify : Action State
    unfolding after_reload reload_tls_on
    reload_then_verify s = let (s', err) = reload_tls_on addr check s in after_reload err s'

    unfoldable pub reload_and_verify_tls : Action State
    unfolding serves probe_tls_leaf_fingerprint reload_then_verify
    reload_and_verify_tls s =
        let (s', r) = probe_tls_leaf_fingerprint addr check s in
        (if serves expected_fp r then succeed else reload_then_verify) s'
