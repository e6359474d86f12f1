-- ===== src/Client/Sync/Values.antt =====
-- What each table section means: the values of the row that an entry stands for, with the defaults
-- of ProxySQL's columns. Written from the tables' columns and not from the code's text.
use proxysql_on_k8s.Base.{
  ℕ, ◌≡◌, refl, Bool, true, false, List, [], ◌∷◌, Option, none, some, map, arith, if◌then◌else◌,
  ◌==◌, text_eq,
}
use proxysql_on_k8s.Base.Int.{ℤ, pos, negsuc, int_eq}
use proxysql_on_k8s.Base.Text.{Text, codes}
use proxysql_on_k8s.Base.Text.Decimal.{format_int}
use proxysql_on_k8s.Client.Types.{
  MySqlServer, MySqlUser, MySqlQueryRule, MySqlReplicationHostgroup, MySqlHostgroupAttributes,
  PostgreSqlServer, PostgreSqlUser, PostgreSqlQueryRule, ProxySqlServer,
}
use proxysql_on_k8s.Client.Quote.{
  quote, default_int32, nullable_int32, def_int32, nullable_bool_as_int, nullable_string,
  def_bool_as_int,
}
use proxysql_on_k8s.Client.Quote.Laws.{render}
use proxysql_on_k8s.Client.Literals.{Value, int, text, null}
use proxysql_on_k8s.Client.Sync.Columns.{
  mysql_server_columns, mysql_replication_hostgroup_columns, mysql_hostgroup_attributes_columns,
  mysql_user_columns, mysql_query_rule_columns, pgsql_server_columns, pgsql_user_columns,
  pgsql_query_rule_columns, proxysql_server_columns,
}

abbrev pub int_or : ℤ → Option ℤ → Value
int_or d none = int d
int_or d (some z) = int z

abbrev pub int_or_null : Option ℤ → Value
int_or_null none = null
int_or_null (some z) = int z

abbrev pub flag : Bool → Value
flag true = int (pos 1)
flag false = int (pos 0)

abbrev pub flag_or : Bool → Option Bool → Value
flag_or d none = flag d
flag_or d (some b) = flag b

abbrev pub flag_or_null : Option Bool → Value
flag_or_null none = null
flag_or_null (some b) = flag b

-- Zero and the empty text stand for a field that is not set.
abbrev pub unset : ℤ → ℤ → Value
unset d (pos ℕ.zero) = int d
unset d z = int z

abbrev pub text_or : Text → Text → Value
text_or d [] = text d
text_or d (c ∷ s) = text (c ∷ s)

abbrev pub text_or_null : Text → Value
text_or_null [] = null
text_or_null (c ∷ s) = text (c ∷ s)

render-int_or : (d : ℤ) (p : Option ℤ) → render (int_or d p) ≡ def_int32 p d
unfolding def_int32
render-int_or d none = refl
render-int_or d (some z) = refl

render-int_or_null : (p : Option ℤ) → render (int_or_null p) ≡ nullable_int32 p
unfolding nullable_int32
render-int_or_null none = refl
render-int_or_null (some z) = refl

render-flag_or : (d : Bool) (p : Option Bool) → render (flag_or d p) ≡ def_bool_as_int p d
unfolding def_bool_as_int format_int
render-flag_or true none = refl
render-flag_or false none = refl
render-flag_or d (some true) = refl
render-flag_or d (some false) = refl

render-flag_or_null : (p : Option Bool) → render (flag_or_null p) ≡ nullable_bool_as_int p
unfolding nullable_bool_as_int format_int
render-flag_or_null none = refl
render-flag_or_null (some true) = refl
render-flag_or_null (some false) = refl

render-unset : (d z : ℤ) → render (unset d z) ≡ format_int (default_int32 z d)
unfolding default_int32
render-unset d (pos ℕ.zero) = refl
render-unset d (pos (ℕ.suc n)) = ground arith
render-unset d (negsuc n) = ground arith

render-text_or_null : (s : Text) → render (text_or_null s) ≡ nullable_string s
unfolding nullable_string
render-text_or_null [] = refl
render-text_or_null (c ∷ s) = refl

render-text_or : (d s : Text) → render (text_or d s) ≡ quote (if s == [] then d else s)
unfolding text_eq
render-text_or d [] = refl
render-text_or d (c ∷ s) = refl

ruleset render_laws = (
  render-int_or, render-int_or_null, render-flag_or, render-flag_or_null, render-unset,
  render-text_or_null, render-text_or,
)

abbrev pub mysql_server_values : MySqlServer → List Value
mysql_server_values s =
    int s.hostgroup
    ∷ text s.hostname
    ∷ unset (pos 3306) s.port
    ∷ text_or (codes "ONLINE") s.status
    ∷ int_or (pos 1) s.weight
    ∷ int_or (pos 1000) s.max_connections
    ∷ int_or (pos 0) s.max_replication_lag
    ∷ flag_or false s.use_ssl
    ∷ text s.comment
    ∷ []

pub render-mysql_server_values :
    (s : MySqlServer) → map render (mysql_server_values s) ≡ mysql_server_columns s
unfolding mysql_server_columns
render-mysql_server_values s = simp render_laws

abbrev pub mysql_replication_hostgroup_values : MySqlReplicationHostgroup → List Value
mysql_replication_hostgroup_values h =
    int h.writer_hostgroup
    ∷ int h.reader_hostgroup
    ∷ text_or (codes "read_only") h.check_type
    ∷ text h.comment
    ∷ []

pub render-mysql_replication_hostgroup_values :
    (h : MySqlReplicationHostgroup)
    → map render (mysql_replication_hostgroup_values h) ≡ mysql_replication_hostgroup_columns h
unfolding mysql_replication_hostgroup_columns
render-mysql_replication_hostgroup_values h = simp render_laws

abbrev pub mysql_hostgroup_attributes_values : MySqlHostgroupAttributes → List Value
mysql_hostgroup_attributes_values a =
    int a.hostgroup
    ∷ int_or (pos 1000000) a.max_num_online_servers
    ∷ int_or (negsuc 0) a.autocommit
    ∷ int_or (pos 10) a.free_connections_pct
    ∷ text a.init_connect
    ∷ flag_or true a.multiplex
    ∷ flag_or false a.connection_warming
    ∷ int_or (pos 1000000) a.throttle_connections_per_sec
    ∷ text a.ignore_session_variables
    ∷ text a.comment
    ∷ []

pub render-mysql_hostgroup_attributes_values :
    (a : MySqlHostgroupAttributes)
    → map render (mysql_hostgroup_attributes_values a) ≡ mysql_hostgroup_attributes_columns a
unfolding mysql_hostgroup_attributes_columns
render-mysql_hostgroup_attributes_values a = simp render_laws

abbrev pub mysql_user_values : MySqlUser → List Value
mysql_user_values u =
    text u.username
    ∷ text u.password
    ∷ int u.default_hostgroup
    ∷ flag_or true u.active
    ∷ int_or (pos 10000) u.max_connections
    ∷ flag_or false u.use_ssl
    ∷ text u.default_schema
    ∷ flag_or true u.transaction_persistent
    ∷ text u.comment
    ∷ []

pub render-mysql_user_values :
    (u : MySqlUser) → map render (mysql_user_values u) ≡ mysql_user_columns u
unfolding mysql_user_columns
render-mysql_user_values u = simp render_laws

abbrev pub mysql_query_rule_values : MySqlQueryRule → List Value
mysql_query_rule_values r =
    int r.rule_id
    ∷ flag_or true r.active
    ∷ text r.username
    ∷ text r.schema_name
    ∷ int_or (pos 0) r.flag_in
    ∷ text r.match_pattern
    ∷ text r.match_digest
    ∷ int_or_null r.flag_out
    ∷ text_or_null r.replace_pattern
    ∷ int_or_null r.destination_hostgroup
    ∷ int_or_null r.cache_ttl
    ∷ flag_or_null r.cache_empty_result
    ∷ int_or_null r.timeout
    ∷ int_or_null r.delay
    ∷ int_or_null r.mirror_hostgroup
    ∷ text_or_null r.error_message
    ∷ flag_or_null r.log
    ∷ flag_or false r.apply
    ∷ text r.comment
    ∷ []

pub render-mysql_query_rule_values :
    (r : MySqlQueryRule) → map render (mysql_query_rule_values r) ≡ mysql_query_rule_columns r
unfolding mysql_query_rule_columns
render-mysql_query_rule_values r = simp render_laws

abbrev pub pgsql_server_values : PostgreSqlServer → List Value
pgsql_server_values s =
    int s.hostgroup
    ∷ text s.hostname
    ∷ unset (pos 5432) s.port
    ∷ int_or (pos 1) s.weight
    ∷ int_or (pos 1000) s.max_connections
    ∷ flag_or false s.use_ssl
    ∷ text s.comment
    ∷ []

pub render-pgsql_server_values :
    (s : PostgreSqlServer) → map render (pgsql_server_values s) ≡ pgsql_server_columns s
unfolding pgsql_server_columns
render-pgsql_server_values s = simp render_laws

abbrev pub pgsql_user_values : PostgreSqlUser → List Value
pgsql_user_values u =
    text u.username
    ∷ text u.password
    ∷ int u.default_hostgroup
    ∷ flag_or true u.active
    ∷ text u.comment
    ∷ []

pub render-pgsql_user_values :
    (u : PostgreSqlUser) → map render (pgsql_user_values u) ≡ pgsql_user_columns u
unfolding pgsql_user_columns
render-pgsql_user_values u = simp render_laws

abbrev pub pgsql_query_rule_values : PostgreSqlQueryRule → List Value
pgsql_query_rule_values r =
    int r.rule_id
    ∷ flag_or true r.active
    ∷ int_or (pos 0) r.flag_in
    ∷ text r.match_pattern
    ∷ int_or_null r.flag_out
    ∷ text_or_null r.replace_pattern
    ∷ int_or_null r.destination_hostgroup
    ∷ int_or_null r.cache_ttl
    ∷ flag_or_null r.cache_empty_result
    ∷ int_or_null r.timeout
    ∷ int_or_null r.delay
    ∷ int_or_null r.mirror_hostgroup
    ∷ text_or_null r.error_message
    ∷ flag_or_null r.log
    ∷ flag_or false r.apply
    ∷ text r.comment
    ∷ []

pub render-pgsql_query_rule_values :
    (r : PostgreSqlQueryRule) → map render (pgsql_query_rule_values r) ≡ pgsql_query_rule_columns r
unfolding pgsql_query_rule_columns
render-pgsql_query_rule_values r = simp render_laws

abbrev pub proxysql_server_values : ProxySqlServer → List Value
proxysql_server_values s =
    text s.hostname ∷ unset (pos 6032) s.port ∷ int s.weight ∷ text s.comment ∷ []

pub render-proxysql_server_values :
    (s : ProxySqlServer) → map render (proxysql_server_values s) ≡ proxysql_server_columns s
unfolding proxysql_server_columns default_int32
render-proxysql_server_values s = simp render_laws
