-- ===== src/Tests/Rotations.antt =====
-- The rotation of one cluster's certificate, on concrete pods.
use proxysql_on_k8s.Base.{
  ℕ, ◌+◌, ◌≡◌, ◌≤◌, ◌↔◌, refl, true, false, List, [], ◌∷◌, ◌++◌, none, some, ◌==◌, text_eq, ltb, In,
  arith, if◌then◌else◌,
}
use proxysql_on_k8s.Base.Calls.{ok}
use proxysql_on_k8s.Base.Dict.{Dict, lookup}
use proxysql_on_k8s.Base.Int.{pos}
use proxysql_on_k8s.Base.Sort.{sort, IsSorted}
use proxysql_on_k8s.Base.Text.{Text, codes}
use proxysql_on_k8s.Base.Text.Decimal.{format_int}
use proxysql_on_k8s.Base.Calls.Returns.{Gives}
use proxysql_on_k8s.Client.Sync.Variables.{value_of}
use proxysql_on_k8s.Base.Text.Cut.{Without}
use proxysql_on_k8s.Discovery.{Pod, PodEndpoint, discover_pod_endpoints, less_addr}
use proxysql_on_k8s.Discovery.Laws.{IsListed, discover_pod_endpoints-IsListed}
use proxysql_on_k8s.Rotation.Reload.{Library, Connections, leaf_fingerprint}
use proxysql_on_k8s.Rotation.State.{
  TimeLayout, tls_content_hash, tls_cert_key, tls_ca_key, format_tls_rotation_state,
  parse_tls_rotation_state, tls_rotation_window,
}
use proxysql_on_k8s.Rotation.State.Laws.{parse-format}
use proxysql_on_k8s.Rotation.Resolve.{
  Cluster, Settings, StsAnnotations, Report, resolve_tls_rotation,
}
use proxysql_on_k8s.Rotation.Resolve.Marker.{IsJustified, resolve_tls_rotation-IsJustified}
use proxysql_on_k8s.Rotation.Resolve.Window.{HasEndpoint, IsSettled, resolve_tls_rotation-IsSettled}
use proxysql_on_k8s.Rotation.Resolve.Start.{KeepsWindow, resolve_tls_rotation-KeepsWindow}

-- A library in which a certificate is its own block and every digest is the same.
abbrev library : Library
library = record {
  CertPool = Text;
  Certificate = Text;
  sha256 = λ t. codes "abc";
  pem_decode = λ t. some t;
  cert_pool = λ t. some t;
  parse_certificate = λ t. ok t;
  verify = λ leaf roots others name. none;
  quoted = λ t. t;
}

-- Times as texts of one number.
abbrev layout : TimeLayout
layout = record {
  format_time = λ t. t ∷ [];
  parse_time = λ s. elim s [ [] ↦ none | t ∷ more ↦ some t ];
}

-- Pods that answer every handshake with the given certificates.
abbrev serving : List Text → Connections
serving certs = record {
  State = ℕ;
  connect = λ addr check s. (s, none);
  ping = λ addr check s. (s, (some certs, none));
  exec = λ addr check q s. (s, none);
  wait = λ s. (s, none);
}

abbrev pod_0 : Pod
pod_0 = record {
  name = codes "p-0";
  pod_ip = codes "10.0.0.1";
  is_deleted = false;
  conditions = (codes "Ready", codes "True") ∷ [];
}

abbrev renewed : Dict Text Text
renewed = (codes "tls.crt", codes "new") ∷ (codes "ca.crt", codes "ca") ∷ []

abbrev cluster_at : (certs : List Text) → ℕ → Cluster (serving certs)
cluster_at certs t = record {
  get_secret = λ name s. (s, ok (some renewed));
  list_pods = λ s. (s, ok (pod_0 ∷ []));
  now = λ s. (s, t);
}

abbrev settings : Settings
settings = record {
  tls_enabled = true;
  tls_mount_secret = [];
  tls_secret_name = codes "p-tls";
  cluster_name = codes "p";
  namespace = codes "db";
  admin_port = pos 6032;
  rotation_window = pos 5;
}

-- The window of a rotation that began at time 10.
abbrev rotating : StsAnnotations
rotating = record {
  tls_applied = codes "old";
  tls_rotation_state = codes "abc@" ++ (10 ∷ []);
  tls_restart = [];
}

abbrev found : PodEndpoint
found = record {
  pod = codes "p-0";
  addr = codes "10.0.0.1:6032";
  server_name = codes "p-0.p-headless.db.svc";
}

discover_pod_endpoints-IsListed_example :
    (eps : List PodEndpoint) × (discover_pod_endpoints
        (codes "p")
        (codes "db")
        (pos 6032)
        (λ (s : ℕ). (s, ok (pod_0 ∷ [])))
        0
      ≡ (0, ok eps))
    × ((e : PodEndpoint) → In e eps ↔ IsListed (codes "p") (codes "db") (pos 6032) (pod_0 ∷ []) e)
    × IsSorted less_addr eps
discover_pod_endpoints-IsListed_example =
    discover_pod_endpoints-IsListed (codes "p") (codes "db") (pos 6032)
      (λ (s : ℕ). (s, ok (pod_0 ∷ []))) 0 0 (pod_0 ∷ []) refl

is_open : rotating.tls_rotation_state ≡ format_tls_rotation_state layout (codes "abc") 10
unfolding format_tls_rotation_state
is_open = refl

is_over : 10 + tls_rotation_window settings.rotation_window ≤ 15
unfolding tls_rotation_window
is_over = omega arith

has_leaf : leaf_fingerprint library (value_of renewed tls_cert_key) ≡ ok (codes "abc")
unfolding leaf_fingerprint text_eq
has_leaf = refl

has_pool : some (value_of renewed tls_ca_key) ≡ some (codes "ca")
unfolding text_eq value_of lookup
has_pool = refl

finds :
    Gives HasEndpoint
      (discover_pod_endpoints (codes "p") (codes "db") (pos 6032) (λ (s : ℕ). (s, ok (pod_0 ∷ []))))
unfolding discover_pod_endpoints sort format_int
finds s = (s, found ∷ [], refl, (found, [], refl))

constant_hash :
    (secret_data : Dict Text Text) → tls_content_hash library.sha256 secret_data ≡ codes "abc"
unfolding tls_content_hash
constant_hash secret_data = refl

same_hash : tls_content_hash library.sha256 renewed ≡ codes "abc"
unfolding tls_content_hash
same_hash = refl

no_at : Without b'@' (codes "abc")
no_at = (omega arith, (omega arith, (omega arith, tt)))

parse-format_example :
    parse_tls_rotation_state layout
      (format_tls_rotation_state layout (codes "abc") 10)
      (codes "abc")
      12
    ≡ (if codes "abc" == codes "abc" then if ltb 12 10 then 12 else 10 else 12)
parse-format_example = parse-format layout (codes "abc") (codes "abc") 10 10 12 no_at refl

-- The pod shows no certificate, and the window of 5 is over at 15.
resolve_tls_rotation-IsSettled_example :
    IsSettled
      (codes "abc")
      (resolve_tls_rotation library layout
        (serving [])
        (cluster_at [] 15)
        settings
        rotating
        true
        0).1
resolve_tls_rotation-IsSettled_example =
    resolve_tls_rotation-IsSettled library layout (serving []) (cluster_at [] 15) settings rotating
      (codes "abc") 10 no_at refl is_open (λ s. is_over) renewed same_hash (codes "abc")
      (codes "ca") has_leaf has_pool finds (λ s. (s, some renewed, refl, refl)) refl 0

-- At 12 it is still open.
resolve_tls_rotation-KeepsWindow_example :
    KeepsWindow settings rotating
      (codes "abc")
      (resolve_tls_rotation library layout
        (serving [])
        (cluster_at [] 12)
        settings
        rotating
        true
        0).1
resolve_tls_rotation-KeepsWindow_example =
    resolve_tls_rotation-KeepsWindow library layout (serving []) (cluster_at [] 12) settings
      rotating (codes "abc") 10 no_at refl is_open (λ s. omega arith)
      (λ s s' other h. constant_hash other) true 0

-- The pod shows a certificate with the expected fingerprint.
abbrev reloaded : Report
reloaded = (
  record {
    applied = codes "abc";
    state = [];
    restart = [];
    summary = codes "RuntimeApplied: TLS certificate reloaded on 1 replica(s)";
  },
  none,
)

passes :
    resolve_tls_rotation library layout
      (serving (codes "new" ∷ []))
      (cluster_at (codes "new" ∷ []) 12)
      settings
      rotating
      true
      0
    ≡ (0, reloaded)
unfolding resolve_tls_rotation sort format_int
passes = refl

resolve_tls_rotation-IsJustified_example :
    IsJustified library layout
      (serving (codes "new" ∷ []))
      (cluster_at (codes "new" ∷ []) 12)
      settings
      rotating
      0
      0
      reloaded
resolve_tls_rotation-IsJustified_example =
    resolve_tls_rotation-IsJustified library layout (serving (codes "new" ∷ []))
      (cluster_at (codes "new" ∷ []) 12) settings rotating true 0 0 reloaded passes
