-- ===== src/Config/Union.antt =====
-- proxysqlconfig_controller.go, `buildUnionedDesired`: the configurations for one cluster, merged,
-- with the cluster's own pods as peers where none are configured.
pub mod Laws
pub mod Order
use proxysql_on_k8s.Api.{ProxySqlConfig}
use proxysql_on_k8s.Base.{
  ℕ, zero, suc, Bool, true, false, not, ◌&&◌, List, [], ◌∷◌, ◌++◌, Option, none, some, map, keep,
  leb, ◌==◌, text_eq, if◌then◌else◌,
}
use proxysql_on_k8s.Base.Calls.{Reader, ◌>>=◌, give, wrapped}
use proxysql_on_k8s.Base.Int.{ℤ, pos, negsuc}
use proxysql_on_k8s.Base.Sort.{sort}
use proxysql_on_k8s.Base.Text.{Text, codes, text_ltb}
use proxysql_on_k8s.Base.Text.Decimal.{decimal}
use proxysql_on_k8s.Client.Types.{Desired, ProxySqlServer, empty_desired}
use proxysql_on_k8s.Client.Union.{union}
use proxysql_on_k8s.Config.Desired.{Secrets, config_to_desired}

-- What the code reads of a ProxySQLCluster here, its defaults filled in.
pub record ClusterView : Type 0 where
  pub name : Text
  pub namespace : Text
  pub replicas : Option ℤ
  pub admin_port : ℤ

abbrev pub less_name : ProxySqlConfig → ProxySqlConfig → Bool
less_name a b = text_ltb a.name b.name

module _ (cluster : ClusterView) where
  -- `%s-%d.%s.%s.svc`
  abbrev pub pod_dns : ℕ → Text
  pod_dns i =
      cluster.name
      ++ (codes "-"
          ++ (decimal i
              ++ (codes "."
                  ++ (cluster.name
                      ++ (codes "-headless." ++ (cluster.namespace ++ codes ".svc"))))))

  -- The loop over the ordinals from `i` on.
  unfoldable pub dns_from : ℕ → ℕ → List Text
  dns_from i zero = []
  dns_from i (suc n) = pod_dns i ∷ dns_from (suc i) n

  unfoldable pub proxysql_server_dns : Option ℤ → List Text
  unfolding dns_from
  proxysql_server_dns none = []
  proxysql_server_dns (some (pos n)) = if leb n 1 then [] else dns_from 0 n
  proxysql_server_dns (some (negsuc n)) = []

  abbrev pub peer_at : Text → ProxySqlServer
  peer_at host = record {
    hostname = host;
    port = cluster.admin_port;
    weight = pos 0;
    comment = codes "operator-populated from ProxySQLCluster pods";
  }

  unfoldable pub auto_populated_proxysql_servers : List ProxySqlServer
  unfolding proxysql_server_dns
  auto_populated_proxysql_servers = map peer_at (proxysql_server_dns cluster.replicas)

  unfoldable pub cleanup_desired : Bool → Desired
  unfolding auto_populated_proxysql_servers
  cleanup_desired false = empty_desired
  cleanup_desired true = record (empty_desired) {
    proxysql_servers = auto_populated_proxysql_servers;
  }

  -- The test that does not `continue`.
  unfoldable pub is_selected : Text → ProxySqlConfig → Bool
  unfolding text_eq
  is_selected exclude_name c =
      c.spec.cluster_ref == cluster.name && (not c.is_deleted && not (c.name == exclude_name))

  unfoldable pub selected : Text → List ProxySqlConfig → List ProxySqlConfig
  unfolding is_selected
  selected exclude_name configs = sort less_name (keep (is_selected exclude_name) configs)

  -- `if len(union.ProxySQLServers) == 0`
  unfoldable pub if_no_peers : List ProxySqlServer → Desired → Desired
  unfolding auto_populated_proxysql_servers
  if_no_peers [] d = record (d) { proxysql_servers = auto_populated_proxysql_servers }
  if_no_peers (s ∷ servers) d = d

  unfoldable pub with_peers : Desired → Desired
  unfolding if_no_peers
  with_peers d = if_no_peers d.proxysql_servers d

  abbrev pub is_any : List ProxySqlConfig → Bool
  is_any [] = false
  is_any (c ∷ cs) = true

  module _ (K : Secrets) where
    open K use {State}

    -- The loop over the selected configurations.
    unfoldable pub desireds_of : List ProxySqlConfig → Reader State (List (Option Desired))
    unfolding config_to_desired
    desireds_of [] = give []
    desireds_of (c ∷ cs) = do
      d ←
          wrapped (λ e. codes "config " ++ (K.quoted c.name ++ (codes ": " ++ e)))
            (config_to_desired K c)
      rest ← desireds_of cs
      give (some d ∷ rest)

    unfoldable pub union_selected : List ProxySqlConfig → Reader State (Desired × Bool)
    unfolding desireds_of with_peers union
    union_selected cfgs = do
      desireds ← desireds_of cfgs
      give (with_peers (union desireds), is_any cfgs)

    unfoldable pub build_unioned_desired :
        Reader State (List ProxySqlConfig) → Text → Reader State (Desired × Bool)
    unfolding union_selected selected
    build_unioned_desired list_configs exclude_name = do
      configs ← list_configs
      union_selected (selected exclude_name configs)
