-- ===== src/Api.antt =====
-- operator/api/v1alpha1/proxysqlconfig_types.go: a ProxySQLConfig as users write it, less the part for
-- the AWS plugin. A pointer field is an `Option`; a nil slice or map is an empty one.
use proxysql_on_k8s.Base.{Bool, List, Option}
use proxysql_on_k8s.Base.Dict.{Dict}
use proxysql_on_k8s.Base.Int.{ℤ}
use proxysql_on_k8s.Base.Text.{Text}

-- `corev1.SecretKeySelector`, a Secret's name and a key in it.
pub record SecretKeySelector : Type 0 where
  pub name : Text
  pub key : Text

pub record MySqlServer : Type 0 where
  pub hostgroup : ℤ
  pub hostname : Text
  pub port : ℤ
  pub weight : Option ℤ
  pub max_connections : Option ℤ
  pub max_replication_lag : Option ℤ
  pub use_ssl : Option Bool
  pub status : Text
  pub comment : Text

pub record MySqlUser : Type 0 where
  pub username : Text
  pub password_secret_ref : SecretKeySelector
  pub default_hostgroup : ℤ
  pub active : Option Bool
  pub max_connections : Option ℤ
  pub use_ssl : Option Bool
  pub default_schema : Text
  pub transaction_persistent : Option Bool
  pub comment : Text

pub record MySqlQueryRule : Type 0 where
  pub rule_id : ℤ
  pub active : Option Bool
  pub username : Text
  pub schema_name : Text
  pub match_pattern : Text
  pub match_digest : Text
  pub destination_hostgroup : Option ℤ
  pub replace_pattern : Text
  pub mirror_hostgroup : Option ℤ
  pub timeout : Option ℤ
  pub delay : Option ℤ
  pub error_message : Text
  pub flag_in : Option ℤ
  pub flag_out : Option ℤ
  pub log : Option Bool
  pub cache_ttl : Option ℤ
  pub cache_empty_result : Option Bool
  pub apply : Option Bool
  pub comment : Text

pub record MySqlReplicationHostgroup : Type 0 where
  pub writer_hostgroup : ℤ
  pub reader_hostgroup : ℤ
  pub check_type : Text
  pub comment : Text

pub record MySqlHostgroupAttributes : Type 0 where
  pub hostgroup : ℤ
  pub max_num_online_servers : Option ℤ
  pub autocommit : Option ℤ
  pub free_connections_pct : Option ℤ
  pub init_connect : Text
  pub multiplex : Option Bool
  pub connection_warming : Option Bool
  pub throttle_connections_per_sec : Option ℤ
  pub ignore_session_variables : Text
  pub comment : Text

pub record PostgreSqlServer : Type 0 where
  pub hostgroup : ℤ
  pub hostname : Text
  pub port : ℤ
  pub weight : Option ℤ
  pub max_connections : Option ℤ
  pub use_ssl : Option Bool
  pub comment : Text

pub record PostgreSqlUser : Type 0 where
  pub username : Text
  pub password_secret_ref : SecretKeySelector
  pub default_hostgroup : ℤ
  pub active : Option Bool
  pub comment : Text

pub record PostgreSqlQueryRule : Type 0 where
  pub rule_id : ℤ
  pub active : Option Bool
  pub match_pattern : Text
  pub destination_hostgroup : Option ℤ
  pub replace_pattern : Text
  pub mirror_hostgroup : Option ℤ
  pub timeout : Option ℤ
  pub delay : Option ℤ
  pub error_message : Text
  pub flag_in : Option ℤ
  pub flag_out : Option ℤ
  pub log : Option Bool
  pub cache_ttl : Option ℤ
  pub cache_empty_result : Option Bool
  pub apply : Option Bool
  pub comment : Text

pub record ProxySqlServerEntry : Type 0 where
  pub hostname : Text
  pub port : ℤ
  pub weight : ℤ
  pub comment : Text

pub record ProxySqlConfigSpec : Type 0 where
  pub cluster_ref : Text
  pub version : ℤ
  pub mysql_servers : List MySqlServer
  pub mysql_users : List MySqlUser
  pub mysql_query_rules : List MySqlQueryRule
  pub mysql_replication_hostgroups : List MySqlReplicationHostgroup
  pub mysql_hostgroup_attributes : List MySqlHostgroupAttributes
  pub pgsql_servers : List PostgreSqlServer
  pub pgsql_users : List PostgreSqlUser
  pub pgsql_query_rules : List PostgreSqlQueryRule
  pub proxysql_servers : List ProxySqlServerEntry
  pub admin_variables : Dict Text Text
  pub mysql_variables : Dict Text Text
  pub pgsql_variables : Dict Text Text
  pub sql_statements : List Text

-- A ProxySQLConfig with what of its metadata the code reads.
pub record ProxySqlConfig : Type 0 where
  pub name : Text
  pub namespace : Text
  pub is_deleted : Bool
  pub spec : ProxySqlConfigSpec
