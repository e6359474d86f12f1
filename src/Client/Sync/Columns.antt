-- ===== src/Client/Sync/Columns.antt =====
-- The columns that the INSERT of each table writes for an entry, as rendered by the format strings of
-- sync.go, in the order of the statement's column list.
use proxysql_on_k8s.Base.{true, false, List, [], ◌∷◌, if◌then◌else◌, ◌==◌, text_eq}
use proxysql_on_k8s.Base.Int.{pos, negsuc, int_eq}
use proxysql_on_k8s.Base.Text.{Text, codes}
use proxysql_on_k8s.Base.Text.Decimal.{format_int}
use proxysql_on_k8s.Client.Types.{
  MySqlServer, MySqlUser, MySqlQueryRule, MySqlReplicationHostgroup, MySqlHostgroupAttributes,
  PostgreSqlServer, PostgreSqlUser, PostgreSqlQueryRule, ProxySqlServer,
}
use proxysql_on_k8s.Client.Quote.{
  quote, default_int32, nullable_int32, def_int32, nullable_bool_as_int, nullable_string,
  def_bool_as_int,
}

abbrev pub status_online : Text
status_online = codes "ONLINE"

unfoldable pub mysql_server_columns : MySqlServer → List Text
unfolding text_eq
mysql_server_columns s =
    let status = if s.status == [] then status_online else s.status in
    format_int s.hostgroup
    ∷ quote s.hostname
    ∷ format_int (default_int32 s.port (pos 3306))
    ∷ quote status
    ∷ def_int32 s.weight (pos 1)
    ∷ def_int32 s.max_connections (pos 1000)
    ∷ def_int32 s.max_replication_lag (pos 0)
    ∷ def_bool_as_int s.use_ssl false
    ∷ quote s.comment
    ∷ []

unfoldable pub mysql_replication_hostgroup_columns : MySqlReplicationHostgroup → List Text
unfolding text_eq
mysql_replication_hostgroup_columns h =
    let check = if h.check_type == [] then codes "read_only" else h.check_type in
    format_int h.writer_hostgroup
    ∷ format_int h.reader_hostgroup
    ∷ quote check
    ∷ quote h.comment
    ∷ []

unfoldable pub mysql_hostgroup_attributes_columns : MySqlHostgroupAttributes → List Text
mysql_hostgroup_attributes_columns a =
    format_int a.hostgroup
    ∷ def_int32 a.max_num_online_servers (pos 1000000)
    ∷ def_int32 a.autocommit (negsuc 0)
    ∷ def_int32 a.free_connections_pct (pos 10)
    ∷ quote a.init_connect
    ∷ def_bool_as_int a.multiplex true
    ∷ def_bool_as_int a.connection_warming false
    ∷ def_int32 a.throttle_connections_per_sec (pos 1000000)
    ∷ quote a.ignore_session_variables
    ∷ quote a.comment
    ∷ []

unfoldable pub mysql_user_columns : MySqlUser → List Text
mysql_user_columns u =
    quote u.username
    ∷ quote u.password
    ∷ format_int u.default_hostgroup
    ∷ def_bool_as_int u.active true
    ∷ def_int32 u.max_connections (pos 10000)
    ∷ def_bool_as_int u.use_ssl false
    ∷ quote u.default_schema
    ∷ def_bool_as_int u.transaction_persistent true
    ∷ quote u.comment
    ∷ []

unfoldable pub mysql_query_rule_columns : MySqlQueryRule → List Text
mysql_query_rule_columns r =
    format_int r.rule_id
    ∷ def_bool_as_int r.active true
    ∷ quote r.username
    ∷ quote r.schema_name
    ∷ def_int32 r.flag_in (pos 0)
    ∷ quote r.match_pattern
    ∷ quote r.match_digest
    ∷ nullable_int32 r.flag_out
    ∷ nullable_string r.replace_pattern
    ∷ nullable_int32 r.destination_hostgroup
    ∷ nullable_int32 r.cache_ttl
    ∷ nullable_bool_as_int r.cache_empty_result
    ∷ nullable_int32 r.timeout
    ∷ nullable_int32 r.delay
    ∷ nullable_int32 r.mirror_hostgroup
    ∷ nullable_string r.error_message
    ∷ nullable_bool_as_int r.log
    ∷ def_bool_as_int r.apply false
    ∷ quote r.comment
    ∷ []

unfoldable pub pgsql_server_columns : PostgreSqlServer → List Text
pgsql_server_columns s =
    format_int s.hostgroup
    ∷ quote s.hostname
    ∷ format_int (default_int32 s.port (pos 5432))
    ∷ def_int32 s.weight (pos 1)
    ∷ def_int32 s.max_connections (pos 1000)
    ∷ def_bool_as_int s.use_ssl false
    ∷ quote s.comment
    ∷ []

unfoldable pub pgsql_user_columns : PostgreSqlUser → List Text
pgsql_user_columns u =
    quote u.username
    ∷ quote u.password
    ∷ format_int u.default_hostgroup
    ∷ def_bool_as_int u.active true
    ∷ quote u.comment
    ∷ []

unfoldable pub pgsql_query_rule_columns : PostgreSqlQueryRule → List Text
pgsql_query_rule_columns r =
    format_int r.rule_id
    ∷ def_bool_as_int r.active true
    ∷ def_int32 r.flag_in (pos 0)
    ∷ quote r.match_pattern
    ∷ nullable_int32 r.flag_out
    ∷ nullable_string r.replace_pattern
    ∷ nullable_int32 r.destination_hostgroup
    ∷ nullable_int32 r.cache_ttl
    ∷ nullable_bool_as_int r.cache_empty_result
    ∷ nullable_int32 r.timeout
    ∷ nullable_int32 r.delay
    ∷ nullable_int32 r.mirror_hostgroup
    ∷ nullable_string r.error_message
    ∷ nullable_bool_as_int r.log
    ∷ def_bool_as_int r.apply false
    ∷ quote r.comment
    ∷ []

unfoldable pub proxysql_server_columns : ProxySqlServer → List Text
unfolding int_eq
proxysql_server_columns s =
    let port = if s.port == pos 0 then pos 6032 else s.port in
    quote s.hostname ∷ format_int port ∷ format_int s.weight ∷ quote s.comment ∷ []
