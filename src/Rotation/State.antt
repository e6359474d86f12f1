-- ===== src/Rotation/State.antt =====
-- tls_rotation.go: the verdict, the digest of the Secret, and the annotation of an open window.
-- A time is a number of nanoseconds; RFC 3339 text and SHA-256 are parameters.
pub mod Laws
use proxysql_on_k8s.Base.{
  ℕ, zero, suc, Bool, true, false, List, [], ◌∷◌, ◌++◌, Option, none, some, length, ltb, ◌==◌,
  text_eq, if◌then◌else◌,
}
use proxysql_on_k8s.Base.Dict.{Dict}
use proxysql_on_k8s.Base.Int.{ℤ, pos, negsuc}
use proxysql_on_k8s.Base.Text.{Text, codes, cut}
use proxysql_on_k8s.Base.Text.Decimal.{decimal}
use proxysql_on_k8s.Client.Sync.Variables.{value_of}

pub data TlsRotationVerdict : Type 0 where
  verdict_adopt : TlsRotationVerdict
  verdict_none : TlsRotationVerdict
  verdict_rotate : TlsRotationVerdict

unfoldable pub classify_tls_rotation : Text → Text → TlsRotationVerdict
unfolding text_eq
classify_tls_rotation applied secret_hash =
    if applied == []
    then verdict_adopt
    else if applied == secret_hash
    then verdict_none
    else verdict_rotate

abbrev pub tls_ca_key : Text
tls_ca_key = codes "ca.crt"

abbrev pub tls_cert_key : Text
tls_cert_key = codes "tls.crt"

abbrev pub tls_private_key : Text
tls_private_key = codes "tls.key"

-- What `tlsContentHash` ranges over.
abbrev pub served_keys : List Text
served_keys = tls_ca_key ∷ tls_cert_key ∷ tls_private_key ∷ []

-- A key and its value as they are written into the digest, with their lengths.
unfoldable pub frame : Text → Text → Text
frame k v =
    decimal (length k)
    ++ (codes ":" ++ (k ++ (codes ":" ++ (decimal (length v) ++ (codes ":" ++ v)))))

-- The loop over the keys.
unfoldable pub frames : Dict Text Text → List Text → Text
unfolding frame
frames secret_data [] = []
frames secret_data (k ∷ ks) = frame k (value_of secret_data k) ++ frames secret_data ks

unfoldable pub tls_content_hash : (Text → Text) → Dict Text Text → Text
unfolding frames
tls_content_hash digest secret_data = digest (frames secret_data served_keys)

-- `Time.Format` in UTC and `time.Parse`, both with the layout `time.RFC3339`.
pub record TimeLayout : Type 0 where
  pub format_time : ℕ → Text
  pub parse_time : Text → Option ℕ

unfoldable pub format_tls_rotation_state : TimeLayout → Text → ℕ → Text
format_tls_rotation_state layout hash start = hash ++ (codes "@" ++ layout.format_time start)

-- A window's start, unless it lies in the future.
unfoldable pub start_before : ℕ → Option ℕ → ℕ
start_before now none = now
start_before now (some t) = if ltb now t then now else t

-- What is made of the two parts of the state.
unfoldable pub recorded_start : TimeLayout → Text → ℕ → Option (Text × Text) → ℕ
unfolding start_before text_eq
recorded_start layout want_hash now none = now
recorded_start layout want_hash now (some (hash, ts)) =
    if hash == want_hash then start_before now (layout.parse_time ts) else now

unfoldable pub parse_tls_rotation_state : TimeLayout → Text → Text → ℕ → ℕ
unfolding cut recorded_start
parse_tls_rotation_state layout state want_hash now =
    recorded_start layout want_hash now (cut b'@' state)

-- `2 * time.Minute`
abbrev pub default_tls_rotation_window : ℕ
default_tls_rotation_window = 120000000000

unfoldable pub tls_rotation_window : ℤ → ℕ
tls_rotation_window (pos zero) = default_tls_rotation_window
tls_rotation_window (pos (suc n)) = suc n
tls_rotation_window (negsuc n) = default_tls_rotation_window
