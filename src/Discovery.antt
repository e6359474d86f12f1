-- ===== src/Discovery.antt =====
-- operator/internal/controller/pod_discovery.go: the replicas that can be dialled. The list of the
-- pods with the cluster's label comes from Kubernetes.
pub mod Laws
use proxysql_on_k8s.Base.{
  Bool, true, false, not, ◌&&◌, List, [], ◌∷◌, ◌++◌, ◌==◌, text_eq, if◌then◌else◌,
}
use proxysql_on_k8s.Base.Calls.{Reader, ◌>>=◌, give}
use proxysql_on_k8s.Base.Int.{ℤ}
use proxysql_on_k8s.Base.Sort.{sort}
use proxysql_on_k8s.Base.Text.{Text, codes, text_ltb}
use proxysql_on_k8s.Base.Text.Decimal.{format_int}

-- What of a pod the code reads; a condition is its type and its status.
pub record Pod : Type 0 where
  pub name : Text
  pub pod_ip : Text
  pub is_deleted : Bool
  pub conditions : List (Text × Text)

pub record PodEndpoint : Type 0 where
  pub pod : Text
  pub addr : Text
  pub server_name : Text

-- The first condition of the type decides.
unfoldable pub is_pod_ready : List (Text × Text) → Bool
unfolding text_eq
is_pod_ready [] = false
is_pod_ready ((condition, status) ∷ more) =
    if condition == codes "Ready" then status == codes "True" else is_pod_ready more

unfoldable pub pod_dns_name : Text → Text → Text → Text
pod_dns_name pod_name cluster_name namespace =
    pod_name ++ (codes "." ++ (cluster_name ++ (codes "-headless." ++ (namespace ++ codes ".svc"))))

-- The two tests that `continue` on failure.
unfoldable pub is_dialable : Pod → Bool
unfolding is_pod_ready text_eq
is_dialable p = not (p.pod_ip == []) && (not p.is_deleted && is_pod_ready p.conditions)

abbrev pub less_addr : PodEndpoint → PodEndpoint → Bool
less_addr a b = text_ltb a.addr b.addr

module _ (cluster_name namespace : Text) (port : ℤ) where
  unfoldable pub endpoint_of : Pod → PodEndpoint
  unfolding pod_dns_name
  endpoint_of p = record {
    pod = p.name;
    addr = p.pod_ip ++ (codes ":" ++ format_int port);
    server_name = pod_dns_name p.name cluster_name namespace;
  }

  -- The loop over the pods.
  unfoldable pub endpoints_of : List Pod → List PodEndpoint
  unfolding is_dialable endpoint_of
  endpoints_of [] = []
  endpoints_of (p ∷ pods) =
      let rest = endpoints_of pods in if is_dialable p then endpoint_of p ∷ rest else rest

  unfoldable pub discover_pod_endpoints :
      {S : Type 0} → Reader S (List Pod) → Reader S (List PodEndpoint)
  unfolding endpoints_of
  discover_pod_endpoints list_pods = do pods ← list_pods; give (sort less_addr (endpoints_of pods))
