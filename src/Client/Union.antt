-- ===== src/Client/Union.antt =====
-- operator/internal/proxysqlclient/union.go: the configurations for one cluster, merged into one.
pub mod Keyed
pub mod Laws
use proxysql_on_k8s.Base.{Bool, List, [], ◌∷◌, ◌++◌, Option, none, some, text_eq, Eq}
use proxysql_on_k8s.Base.Int.{ℤ, ltb_ℤ, int_eq}
use proxysql_on_k8s.Base.Dict.{Dict, keys, lookup, insert, copy}
use proxysql_on_k8s.Base.Sort.{sort}
use proxysql_on_k8s.Base.Text.{Text, codes, text_ltb}
use proxysql_on_k8s.Base.Text.Decimal.{format_int}
use proxysql_on_k8s.Client.Types.{
  Desired, MySqlServer, MySqlUser, MySqlQueryRule, MySqlReplicationHostgroup,
  MySqlHostgroupAttributes, PostgreSqlServer, PostgreSqlUser, PostgreSqlQueryRule, ProxySqlServer,
}

unfoldable pub host_key : ℤ → Text → ℤ → Text
host_key hg host port = format_int hg ++ (codes ":" ++ (host ++ (codes ":" ++ format_int port)))

abbrev pub mysql_server_key : MySqlServer → Text
mysql_server_key s = host_key s.hostgroup s.hostname s.port

abbrev pub pgsql_server_key : PostgreSqlServer → Text
pgsql_server_key s = host_key s.hostgroup s.hostname s.port

-- `s.Hostname+":"+strconv.Itoa(int(s.Port))`
unfoldable pub peer_key : ProxySqlServer → Text
peer_key s = s.hostname ++ (codes ":" ++ format_int s.port)

module _ {K V : Type 0} ⦃e : Eq K⦄ where
  -- The loop over one section of one configuration.
  unfoldable pub put_all : (V → K) → List V → Dict K V → Dict K V
  put_all key [] m = m
  put_all key (v ∷ vs) m = put_all key vs (insert (key v) v m)

  -- The map's values at the given keys, `append(out, m[k])` for each.
  unfoldable pub values_at : List K → Dict K V → List V
  values_at [] m = []
  values_at (k ∷ ks) m =
      let rest = values_at ks m in elim (lookup k m) [ some v ↦ v ∷ rest | none ↦ rest ]

  -- `sortedStrKeys` and `sortedInt32Keys`
  abbrev pub sorted_keys : (K → K → Bool) → Dict K V → List K
  sorted_keys less m = sort less (keys m)

  -- A keyed map as a list in the order of its keys.
  unfoldable pub flatten : (K → K → Bool) → Dict K V → List V
  unfolding values_at
  flatten less m = values_at (sorted_keys less m) m

-- The maps that `Union` fills, and the statements that it collects.
pub record Merged : Type 0 where
  pub msrv : Dict Text MySqlServer
  pub musr : Dict Text MySqlUser
  pub mrule : Dict ℤ MySqlQueryRule
  pub mrepl : Dict ℤ MySqlReplicationHostgroup
  pub mattr : Dict ℤ MySqlHostgroupAttributes
  pub pgsrv : Dict Text PostgreSqlServer
  pub pgusr : Dict Text PostgreSqlUser
  pub pgrule : Dict ℤ PostgreSqlQueryRule
  pub psrv : Dict Text ProxySqlServer
  pub admin_vars : Dict Text Text
  pub mysql_vars : Dict Text Text
  pub pg_vars : Dict Text Text
  pub statements : List Text

abbrev pub nothing_merged : Merged
nothing_merged = record {
  msrv = [];
  musr = [];
  mrule = [];
  mrepl = [];
  mattr = [];
  pgsrv = [];
  pgusr = [];
  pgrule = [];
  psrv = [];
  admin_vars = [];
  mysql_vars = [];
  pg_vars = [];
  statements = [];
}

-- The body of the loop over the configurations.
unfoldable pub merge_one : Desired → Merged → Merged
unfolding put_all copy
merge_one d m = record {
  msrv = put_all mysql_server_key d.mysql_servers m.msrv;
  musr = put_all (λ u. u.username) d.mysql_users m.musr;
  mrule = put_all (λ r. r.rule_id) d.mysql_query_rules m.mrule;
  mrepl = put_all (λ h. h.writer_hostgroup) d.mysql_replication_hostgroups m.mrepl;
  mattr = put_all (λ a. a.hostgroup) d.mysql_hostgroup_attributes m.mattr;
  pgsrv = put_all pgsql_server_key d.pgsql_servers m.pgsrv;
  pgusr = put_all (λ u. u.username) d.pgsql_users m.pgusr;
  pgrule = put_all (λ r. r.rule_id) d.pgsql_query_rules m.pgrule;
  psrv = put_all peer_key d.proxysql_servers m.psrv;
  admin_vars = copy m.admin_vars d.admin_variables;
  mysql_vars = copy m.mysql_vars d.mysql_variables;
  pg_vars = copy m.pg_vars d.pgsql_variables;
  statements = m.statements ++ d.sql_statements;
}

-- A nil configuration is passed over.
unfoldable pub merge_all : List (Option Desired) → Merged → Merged
merge_all [] m = m
merge_all (none ∷ ds) m = merge_all ds m
merge_all (some d ∷ ds) m = merge_all ds (merge_one d m)

unfoldable pub flatten_all : Merged → Desired
unfolding flatten
flatten_all m = record {
  mysql_servers = flatten text_ltb m.msrv;
  mysql_users = flatten text_ltb m.musr;
  mysql_query_rules = flatten ltb_ℤ m.mrule;
  mysql_replication_hostgroups = flatten ltb_ℤ m.mrepl;
  mysql_hostgroup_attributes = flatten ltb_ℤ m.mattr;
  pgsql_servers = flatten text_ltb m.pgsrv;
  pgsql_users = flatten text_ltb m.pgusr;
  pgsql_query_rules = flatten ltb_ℤ m.pgrule;
  proxysql_servers = flatten text_ltb m.psrv;
  admin_variables = m.admin_vars;
  mysql_variables = m.mysql_vars;
  pgsql_variables = m.pg_vars;
  sql_statements = m.statements;
}

unfoldable pub union : List (Option Desired) → Desired
union ds = flatten_all (merge_all ds nothing_merged)
