-- ===== src/Rotation/Cleanup.antt =====
-- tls_rotation.go, `resolveTLSCleanup`: whether the pods are to shed the links of a TLS setup that is
-- no longer there.
use proxysql_on_k8s.Base.{
  Bool, true, false, ◌||◌, List, [], ◌∷◌, ◌++◌, Option, none, some, ◌==◌, text_eq, if◌then◌else◌,
}
use proxysql_on_k8s.Base.Calls.{Reader, ◌>>=◌, give, wrapped}
use proxysql_on_k8s.Base.Text.{Text, codes}

-- The loop over the names of the live template's init containers.
unfoldable pub is_tls_wired : List Text → Bool
unfolding text_eq
is_tls_wired [] = false
is_tls_wired (name ∷ names) =
    if name == codes "tls-init" || name == codes "tls-cleanup" then true else is_tls_wired names

-- What `TLSCleanup` becomes. The StatefulSet may be absent.
unfoldable pub cleanup_for : Bool → Option (List Text) → Bool
unfolding is_tls_wired
cleanup_for tls_cleanup none = tls_cleanup
cleanup_for tls_cleanup (some names) = if is_tls_wired names then true else tls_cleanup

unfoldable pub resolve_tls_cleanup :
    {S : Type 0} → Bool → Bool → Reader S (Option (List Text)) → Reader S Bool
unfolding cleanup_for
resolve_tls_cleanup true tls_cleanup get_containers = give tls_cleanup
resolve_tls_cleanup false tls_cleanup get_containers = do
  containers ← wrapped (λ e. codes "get statefulset for TLS cleanup: " ++ e) get_containers
  give (cleanup_for tls_cleanup containers)
