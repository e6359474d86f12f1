-- ===== src/Client/Types.antt =====
-- operator/internal/proxysqlclient/types.go: the resolved view of a ProxySQLConfig. A pointer field
-- is an `Option`; a nil slice or map is an empty one.
use mathlib.Core.Bool.{Bool}
use mathlib.Core.List.{List, []}
use mathlib.Core.Option.{Option}
use proxysql_on_k8s.Base.Int.{ℤ}
use proxysql_on_k8s.Base.Text.{Text}
use proxysql_on_k8s.Base.Dict.{Dict}

pub record MySqlServer : Type 0 where
  pub hostgroup : ℤ
  pub hostname : Text
  pub port : ℤ
  pub weight : Option ℤ
  pub max_connections : Option ℤ
  pub max_replication_lag : Option ℤ
  pub use_ssl : Option Bool
  pub status : Text
  pub comment : Text

pub record MySqlUser : Type 0 where
  pub username : Text
  pub password : Text
  pub default_hostgroup : ℤ
  pub active : Option Bool
  pub max_connections : Option ℤ
  pub use_ssl : Option Bool
  pub default_schema : Text
  pub transaction_persistent : Option Bool
  pub comment : Text

pub record MySqlQueryRule : Type 0 where
  pub rule_id : ℤ
  pub active : Option Bool
  pub username : Text
  pub schema_name : Text
  pub flag_in : Option ℤ
  pub match_pattern : Text
  pub match_digest : Text
  pub flag_out : Option ℤ
  pub replace_pattern : Text
  pub destination_hostgroup : Option ℤ
  pub cache_ttl : Option ℤ
  pub cache_empty_result : Option Bool
  pub timeout : Option ℤ
  pub delay : Option ℤ
  pub mirror_hostgroup : Option ℤ
  pub error_message : Text
  pub log : Option Bool
  pub apply : Option Bool
  pub comment : Text

pub record MySqlReplicationHostgroup : Type 0 where
  pub writer_hostgroup : ℤ
  pub reader_hostgroup : ℤ
  pub check_type : Text
  pub comment : Text

pub record MySqlHostgroupAttributes : Type 0 where
  pub hostgroup : ℤ
  pub max_num_online_servers : Option ℤ
  pub autocommit : Option ℤ
  pub free_connections_pct : Option ℤ
  pub init_connect : Text
  pub multiplex : Option Bool
  pub connection_warming : Option Bool
  pub throttle_connections_per_sec : Option ℤ
  pub ignore_session_variables : Text
  pub comment : Text

pub record PostgreSqlServer : Type 0 where
  pub hostgroup : ℤ
  pub hostname : Text
  pub port : ℤ
  pub weight : Option ℤ
  pub max_connections : Option ℤ
  pub use_ssl : Option Bool
  pub comment : Text

pub record PostgreSqlUser : Type 0 where
  pub username : Text
  pub password : Text
  pub default_hostgroup : ℤ
  pub active : Option Bool
  pub comment : Text

pub record PostgreSqlQueryRule : Type 0 where
  pub rule_id : ℤ
  pub active : Option Bool
  pub flag_in : Option ℤ
  pub match_pattern : Text
  pub flag_out : Option ℤ
  pub replace_pattern : Text
  pub destination_hostgroup : Option ℤ
  pub cache_ttl : Option ℤ
  pub cache_empty_result : Option Bool
  pub timeout : Option ℤ
  pub delay : Option ℤ
  pub mirror_hostgroup : Option ℤ
  pub error_message : Text
  pub log : Option Bool
  pub apply : Option Bool
  pub comment : Text

pub record ProxySqlServer : Type 0 where
  pub hostname : Text
  pub port : ℤ
  pub weight : ℤ
  pub comment : Text

pub record Desired : Type 0 where
  pub mysql_servers : List MySqlServer
  pub mysql_users : List MySqlUser
  pub mysql_query_rules : List MySqlQueryRule
  pub mysql_replication_hostgroups : List MySqlReplicationHostgroup
  pub mysql_hostgroup_attributes : List MySqlHostgroupAttributes
  pub pgsql_servers : List PostgreSqlServer
  pub pgsql_users : List PostgreSqlUser
  pub pgsql_query_rules : List PostgreSqlQueryRule
  pub proxysql_servers : List ProxySqlServer
  pub admin_variables : Dict Text Text
  pub mysql_variables : Dict Text Text
  pub pgsql_variables : Dict Text Text
  pub sql_statements : List Text

-- `&Desired{}`
abbrev pub empty_desired : Desired
empty_desired = record {
  mysql_servers = [];
  mysql_users = [];
  mysql_query_rules = [];
  mysql_replication_hostgroups = [];
  mysql_hostgroup_attributes = [];
  pgsql_servers = [];
  pgsql_users = [];
  pgsql_query_rules = [];
  proxysql_servers = [];
  admin_variables = [];
  mysql_variables = [];
  pgsql_variables = [];
  sql_statements = [];
}
