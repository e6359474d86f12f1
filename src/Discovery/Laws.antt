-- ===== src/Discovery/Laws.antt =====
-- Which replicas are dialled.
use proxysql_on_k8s.Base.{
  ◌≡◌, ◌≢◌, ◌↔◌, ◌⊎◌, sym, ap, true, false, List, [], ◌∷◌, ◌++◌, In, text_eq, arith,
}
use proxysql_on_k8s.Base.Calls.{Reader, ok, give}
use proxysql_on_k8s.Base.Calls.Returns.{bind-ok}
use proxysql_on_k8s.Base.Int.{ℤ}
use proxysql_on_k8s.Base.Sort.{sort, IsSorted, IsWeakOrder}
use proxysql_on_k8s.Base.Sort.Laws.{In-sort, sort-IsSorted}
use proxysql_on_k8s.Base.Text.{Text, codes}
use proxysql_on_k8s.Base.Text.Decimal.{format_int}
use proxysql_on_k8s.Base.Text.Order.{text_order}
use proxysql_on_k8s.Discovery.{
  Pod, PodEndpoint, is_pod_ready, pod_dns_name, is_dialable, endpoint_of, endpoints_of, less_addr,
  discover_pod_endpoints,
}

less_addr-IsWeakOrder : IsWeakOrder less_addr
less_addr-IsWeakOrder = record {
  asym = λ a b. text_order.weak.asym a.addr b.addr;
  neg_trans = λ a b c. text_order.weak.neg_trans a.addr b.addr c.addr;
}

-- The first Ready condition of a pod has the status True.
abbrev pub IsReady : List (Text × Text) → Type 0
IsReady [] = ⊥
IsReady ((condition, status) ∷ more) =
    ((condition ≡ codes "Ready") × (status ≡ codes "True"))
    ⊎ ((condition ≢ codes "Ready") × IsReady more)

is_pod_ready_iff : (cs : List (Text × Text)) → (is_pod_ready cs ≡ true) ↔ IsReady cs
unfolding is_pod_ready
is_pod_ready_iff [] = ground arith
is_pod_ready_iff ((condition, status) ∷ more) = ground (arith, is_pod_ready_iff more)

-- What makes a pod one to be dialled.
abbrev pub CanBeDialled : Pod → Type 0
CanBeDialled p = (p.pod_ip ≢ []) × (p.is_deleted ≡ false) × IsReady p.conditions

is_dialable_iff : (p : Pod) → (is_dialable p ≡ true) ↔ CanBeDialled p
unfolding is_dialable
is_dialable_iff p = ground (arith, is_pod_ready_iff p.conditions)

module _ (cluster_name namespace : Text) (port : ℤ) where
  -- The endpoint of a pod: its name, the address, and the name under which the certificate is checked.
  abbrev pub IsEndpointOf : Pod → PodEndpoint → Type 0
  IsEndpointOf p e =
      (e.pod ≡ p.name)
      × (e.addr ≡ p.pod_ip ++ (codes ":" ++ format_int port))
      × (e.server_name
          ≡ p.name
            ++ (codes "." ++ (cluster_name ++ (codes "-headless." ++ (namespace ++ codes ".svc")))))

  endpoint_of_iff :
      (p : Pod) (e : PodEndpoint)
      → (endpoint_of cluster_name namespace port p ≡ e) ↔ IsEndpointOf p e
  unfolding endpoint_of pod_dns_name
  endpoint_of_iff p e = (
    λ h. (sym (ap (λ u. u.pod) h), sym (ap (λ u. u.addr) h), sym (ap (λ u. u.server_name) h)),
    λ (pod, addr, server_name). cc,
  )

  -- The endpoint belongs to a pod of the list that can be dialled.
  abbrev pub IsListed : List Pod → PodEndpoint → Type 0
  IsListed [] e = ⊥
  IsListed (p ∷ pods) e = (CanBeDialled p × IsEndpointOf p e) ⊎ IsListed pods e

  In-endpoints_of :
      (pods : List Pod) (e : PodEndpoint)
      → In e (endpoints_of cluster_name namespace port pods) ↔ IsListed pods e
  unfolding endpoints_of
  In-endpoints_of [] e = ground arith
  In-endpoints_of (p ∷ pods) e =
      ground (arith, In-endpoints_of pods e, is_dialable_iff p, endpoint_of_iff p e)

  -- Where the pods can be listed, the replicas that are found are the listed pods whose first Ready
  -- condition is True, that are not being deleted and that have an IP address, each at that address
  -- and the admin port and under its DNS name, in the order of the addresses.
  pub discover_pod_endpoints-IsListed :
      {S : Type 0} (list_pods : Reader S (List Pod)) (s s' : S) (pods : List Pod)
      → list_pods s ≡ (s', ok pods)
      → (found : List PodEndpoint) × (discover_pod_endpoints cluster_name namespace port list_pods s
          ≡ (s', ok found))
        × ((e : PodEndpoint) → In e found ↔ IsListed pods e)
        × IsSorted less_addr found
  unfolding discover_pod_endpoints
  discover_pod_endpoints-IsListed list_pods s s' pods h = (
    sort less_addr (endpoints_of cluster_name namespace port pods),
    bind-ok list_pods
        (λ found. give (sort less_addr (endpoints_of cluster_name namespace port found))) s s' pods
        h,
    λ e.
        let (found, listed) = In-sort less_addr e (endpoints_of cluster_name namespace port pods) in
        let (to, from) = In-endpoints_of pods e in ((λ i. to (found i)), λ l. listed (from l)),
    sort-IsSorted less_addr less_addr-IsWeakOrder _,
  )
