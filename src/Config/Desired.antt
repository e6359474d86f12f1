-- ===== src/Config/Desired.antt =====
-- operator/internal/controller/proxysqlconfig_controller.go, `configToDesired`: a configuration with its
-- passwords looked up.
pub mod Laws
use proxysql_on_k8s.Api
use proxysql_on_k8s.Api.{SecretKeySelector, ProxySqlConfig, ProxySqlConfigSpec}
use proxysql_on_k8s.Base.{Bool, List, [], ◌∷◌, ◌++◌, Option, none, some, map, ◌==◌, text_eq}
use proxysql_on_k8s.Base.Calls.{Reader, Result, ok, failed, ◌>>=◌, give, wrapped, give_result}
use proxysql_on_k8s.Base.Dict.{Dict, lookup}
use proxysql_on_k8s.Base.Text.{Text, codes}
use proxysql_on_k8s.Client.Types.{
  Desired, MySqlServer, MySqlUser, MySqlQueryRule, MySqlReplicationHostgroup,
  MySqlHostgroupAttributes, PostgreSqlServer, PostgreSqlUser, PostgreSqlQueryRule, ProxySqlServer,
}

unfoldable pub mysql_server_of : Api.MySqlServer → MySqlServer
mysql_server_of s = record {
  hostgroup = s.hostgroup;
  hostname = s.hostname;
  port = s.port;
  weight = s.weight;
  max_connections = s.max_connections;
  max_replication_lag = s.max_replication_lag;
  use_ssl = s.use_ssl;
  status = s.status;
  comment = s.comment;
}

unfoldable pub replication_hostgroup_of : Api.MySqlReplicationHostgroup → MySqlReplicationHostgroup
replication_hostgroup_of s = record {
  writer_hostgroup = s.writer_hostgroup;
  reader_hostgroup = s.reader_hostgroup;
  check_type = s.check_type;
  comment = s.comment;
}

unfoldable pub hostgroup_attributes_of : Api.MySqlHostgroupAttributes → MySqlHostgroupAttributes
hostgroup_attributes_of s = record {
  hostgroup = s.hostgroup;
  max_num_online_servers = s.max_num_online_servers;
  autocommit = s.autocommit;
  free_connections_pct = s.free_connections_pct;
  init_connect = s.init_connect;
  multiplex = s.multiplex;
  connection_warming = s.connection_warming;
  throttle_connections_per_sec = s.throttle_connections_per_sec;
  ignore_session_variables = s.ignore_session_variables;
  comment = s.comment;
}

unfoldable pub mysql_query_rule_of : Api.MySqlQueryRule → MySqlQueryRule
mysql_query_rule_of s = record {
  rule_id = s.rule_id;
  active = s.active;
  username = s.username;
  schema_name = s.schema_name;
  flag_in = s.flag_in;
  match_pattern = s.match_pattern;
  match_digest = s.match_digest;
  flag_out = s.flag_out;
  replace_pattern = s.replace_pattern;
  destination_hostgroup = s.destination_hostgroup;
  cache_ttl = s.cache_ttl;
  cache_empty_result = s.cache_empty_result;
  timeout = s.timeout;
  delay = s.delay;
  mirror_hostgroup = s.mirror_hostgroup;
  error_message = s.error_message;
  log = s.log;
  apply = s.apply;
  comment = s.comment;
}

unfoldable pub pgsql_server_of : Api.PostgreSqlServer → PostgreSqlServer
pgsql_server_of s = record {
  hostgroup = s.hostgroup;
  hostname = s.hostname;
  port = s.port;
  weight = s.weight;
  max_connections = s.max_connections;
  use_ssl = s.use_ssl;
  comment = s.comment;
}

unfoldable pub pgsql_query_rule_of : Api.PostgreSqlQueryRule → PostgreSqlQueryRule
pgsql_query_rule_of s = record {
  rule_id = s.rule_id;
  active = s.active;
  flag_in = s.flag_in;
  match_pattern = s.match_pattern;
  flag_out = s.flag_out;
  replace_pattern = s.replace_pattern;
  destination_hostgroup = s.destination_hostgroup;
  cache_ttl = s.cache_ttl;
  cache_empty_result = s.cache_empty_result;
  timeout = s.timeout;
  delay = s.delay;
  mirror_hostgroup = s.mirror_hostgroup;
  error_message = s.error_message;
  log = s.log;
  apply = s.apply;
  comment = s.comment;
}

unfoldable pub proxysql_server_of : Api.ProxySqlServerEntry → ProxySqlServer
proxysql_server_of s = record {
  hostname = s.hostname;
  port = s.port;
  weight = s.weight;
  comment = s.comment;
}

unfoldable pub mysql_user_of : Api.MySqlUser → Text → MySqlUser
mysql_user_of u pw = record {
  username = u.username;
  password = pw;
  default_hostgroup = u.default_hostgroup;
  active = u.active;
  max_connections = u.max_connections;
  use_ssl = u.use_ssl;
  default_schema = u.default_schema;
  transaction_persistent = u.transaction_persistent;
  comment = u.comment;
}

unfoldable pub pgsql_user_of : Api.PostgreSqlUser → Text → PostgreSqlUser
pgsql_user_of u pw = record {
  username = u.username;
  password = pw;
  default_hostgroup = u.default_hostgroup;
  active = u.active;
  comment = u.comment;
}

-- The keys that the operator sets from the cluster's Secret.
abbrev pub operator_owned : List Text
operator_owned =
    codes "mysql-monitor_username"
    ∷ codes "mysql-monitor_password"
    ∷ codes "pgsql-monitor_username"
    ∷ codes "pgsql-monitor_password"
    ∷ []

-- The first of the keys that the map has.
unfoldable pub first_in : Dict Text Text → List Text → Option Text
unfolding lookup
first_in vars [] = none
first_in vars (k ∷ ks) =
    let rest = first_in vars ks in elim (lookup k vars) [ none ↦ rest | some v ↦ some k ]

-- What the code calls to read a Secret, and `%q`.
pub record Secrets : Type 1 where
  pub State : Type 0
  pub get_secret : Text → Text → State → State × Result (Dict Text Text)
  pub quoted : Text → Text

module _ (K : Secrets) where
  open K use {State}

  -- The error for an operator-owned variable.
  abbrev pub owned_error : Text → Text → Text
  owned_error field key =
      codes "operator-owned monitor variable: spec."
      ++ (field
          ++ (codes " key "
              ++ (K.quoted key ++ codes "; set monitor credentials in the cluster auth Secret")))

  unfoldable pub unless_owned : Text → Option Text → Result Unit → Result Unit
  unless_owned field none rest = rest
  unless_owned field (some key) rest = failed (owned_error field key)

  -- The two loops of the guard.
  unfoldable pub check_groups : List (Text × Dict Text Text) → Result Unit
  unfolding first_in unless_owned
  check_groups [] = ok tt
  check_groups ((field, vars) ∷ groups) =
      unless_owned field (first_in vars operator_owned) (check_groups groups)

  unfoldable pub resolve_secret_key : Text → SecretKeySelector → Reader State Text
  unfolding lookup text_eq
  resolve_secret_key ns sel = do
    secret_data ←
        wrapped (λ e. codes "get secret " ++ (K.quoted sel.name ++ (codes ": " ++ e)))
          (K.get_secret ns sel.name)
    give_result (elim (lookup sel.key secret_data) [
      | some v ↦ ok v
      | none ↦
          failed
            (codes "secret " ++ (K.quoted sel.name ++ (codes " has no key " ++ K.quoted sel.key)))
    ])

  -- `%s user %q: `
  abbrev pub of_user : Text → Text → Text → Text
  of_user protocol username e =
      protocol ++ (codes " user " ++ (K.quoted username ++ (codes ": " ++ e)))

  -- The loops over the users.
  unfoldable pub mysql_users_of : Text → List Api.MySqlUser → Reader State (List MySqlUser)
  unfolding resolve_secret_key mysql_user_of
  mysql_users_of ns [] = give []
  mysql_users_of ns (u ∷ us) = do
    pw ← wrapped (of_user (codes "mysql") u.username) (resolve_secret_key ns u.password_secret_ref)
    rest ← mysql_users_of ns us
    give (mysql_user_of u pw ∷ rest)

  unfoldable pub pgsql_users_of :
      Text → List Api.PostgreSqlUser → Reader State (List PostgreSqlUser)
  unfolding resolve_secret_key pgsql_user_of
  pgsql_users_of ns [] = give []
  pgsql_users_of ns (u ∷ us) = do
    pw ← wrapped (of_user (codes "pgsql") u.username) (resolve_secret_key ns u.password_secret_ref)
    rest ← pgsql_users_of ns us
    give (pgsql_user_of u pw ∷ rest)

  abbrev pub variable_groups : ProxySqlConfigSpec → List (Text × Dict Text Text)
  variable_groups spec =
      (codes "adminVariables", spec.admin_variables)
      ∷ (codes "mysqlVariables", spec.mysql_variables)
      ∷ (codes "pgsqlVariables", spec.pgsql_variables)
      ∷ []

  -- All but the users is copied.
  unfoldable pub desired_with : ProxySqlConfigSpec → List MySqlUser → List PostgreSqlUser → Desired
  unfolding mysql_server_of replication_hostgroup_of hostgroup_attributes_of mysql_query_rule_of
      pgsql_server_of pgsql_query_rule_of proxysql_server_of
  desired_with spec mysql_users pgsql_users = record {
    mysql_servers = map mysql_server_of spec.mysql_servers;
    mysql_users = mysql_users;
    mysql_query_rules = map mysql_query_rule_of spec.mysql_query_rules;
    mysql_replication_hostgroups = map replication_hostgroup_of spec.mysql_replication_hostgroups;
    mysql_hostgroup_attributes = map hostgroup_attributes_of spec.mysql_hostgroup_attributes;
    pgsql_servers = map pgsql_server_of spec.pgsql_servers;
    pgsql_users = pgsql_users;
    pgsql_query_rules = map pgsql_query_rule_of spec.pgsql_query_rules;
    proxysql_servers = map proxysql_server_of spec.proxysql_servers;
    admin_variables = spec.admin_variables;
    mysql_variables = spec.mysql_variables;
    pgsql_variables = spec.pgsql_variables;
    sql_statements = spec.sql_statements;
  }

  unfoldable pub with_users : ProxySqlConfig → Reader State Desired
  unfolding mysql_users_of pgsql_users_of desired_with
  with_users cfg = do
    mysql_users ← mysql_users_of cfg.namespace cfg.spec.mysql_users
    pgsql_users ← pgsql_users_of cfg.namespace cfg.spec.pgsql_users
    give (desired_with cfg.spec mysql_users pgsql_users)

  unfoldable pub config_to_desired : ProxySqlConfig → Reader State Desired
  unfolding check_groups with_users
  config_to_desired cfg = do
    checked ← give_result (check_groups (variable_groups cfg.spec))
    with_users cfg
