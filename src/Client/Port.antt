-- ===== src/Client/Port.antt =====
-- What the push relies on of the admin port of a ProxySQL instance, which is no part of the
-- repository: the port is a parameter, and its documented behaviour is a record of laws.
use proxysql_on_k8s.Base.Calls.{Action}
use proxysql_on_k8s.Base.{
  ℕ, ◌≡◌, Bool, false, List, [], ◌∷◌, ◌++◌, All, some, none, map, length, eqb, ◌||◌, if◌then◌else◌,
}
use proxysql_on_k8s.Base.Text.{Text, codes, join}
use proxysql_on_k8s.Client.Executor.{Executor}
use proxysql_on_k8s.Client.Literals.{Value, read_rows}
use proxysql_on_k8s.Client.Sync.Variables.{load_statement, save_statement, update_statement}

pub data TableName : Type 0 where
  mysql_servers mysql_replication_hostgroups mysql_hostgroup_attributes mysql_users : TableName
  mysql_query_rules pgsql_servers pgsql_users pgsql_query_rules proxysql_servers : TableName

abbrev pub index : TableName → ℕ
index mysql_servers = 0
index mysql_replication_hostgroups = 1
index mysql_hostgroup_attributes = 2
index mysql_users = 3
index mysql_query_rules = 4
index pgsql_servers = 5
index pgsql_users = 6
index pgsql_query_rules = 7
index proxysql_servers = 8

abbrev pub table_name : TableName → Text
table_name mysql_servers = codes "mysql_servers"
table_name mysql_replication_hostgroups = codes "mysql_replication_hostgroups"
table_name mysql_hostgroup_attributes = codes "mysql_hostgroup_attributes"
table_name mysql_users = codes "mysql_users"
table_name mysql_query_rules = codes "mysql_query_rules"
table_name pgsql_servers = codes "pgsql_servers"
table_name pgsql_users = codes "pgsql_users"
table_name pgsql_query_rules = codes "pgsql_query_rules"
table_name proxysql_servers = codes "proxysql_servers"

-- The columns that the operator sets, in the order of the values of a row.
abbrev pub columns : TableName → List Text
columns mysql_servers =
    codes "hostgroup_id"
    ∷ codes "hostname"
    ∷ codes "port"
    ∷ codes "status"
    ∷ codes "weight"
    ∷ codes "max_connections"
    ∷ codes "max_replication_lag"
    ∷ codes "use_ssl"
    ∷ codes "comment"
    ∷ []
columns mysql_replication_hostgroups =
    codes "writer_hostgroup" ∷ codes "reader_hostgroup" ∷ codes "check_type" ∷ codes "comment" ∷ []
columns mysql_hostgroup_attributes =
    codes "hostgroup_id"
    ∷ codes "max_num_online_servers"
    ∷ codes "autocommit"
    ∷ codes "free_connections_pct"
    ∷ codes "init_connect"
    ∷ codes "multiplex"
    ∷ codes "connection_warming"
    ∷ codes "throttle_connections_per_sec"
    ∷ codes "ignore_session_variables"
    ∷ codes "comment"
    ∷ []
columns mysql_users =
    codes "username"
    ∷ codes "password"
    ∷ codes "default_hostgroup"
    ∷ codes "active"
    ∷ codes "max_connections"
    ∷ codes "use_ssl"
    ∷ codes "default_schema"
    ∷ codes "transaction_persistent"
    ∷ codes "comment"
    ∷ []
columns mysql_query_rules =
    codes "rule_id"
    ∷ codes "active"
    ∷ codes "username"
    ∷ codes "schemaname"
    ∷ codes "flagIN"
    ∷ codes "match_pattern"
    ∷ codes "match_digest"
    ∷ codes "flagOUT"
    ∷ codes "replace_pattern"
    ∷ codes "destination_hostgroup"
    ∷ codes "cache_ttl"
    ∷ codes "cache_empty_result"
    ∷ codes "timeout"
    ∷ codes "delay"
    ∷ codes "mirror_hostgroup"
    ∷ codes "error_msg"
    ∷ codes "log"
    ∷ codes "apply"
    ∷ codes "comment"
    ∷ []
columns pgsql_servers =
    codes "hostgroup_id"
    ∷ codes "hostname"
    ∷ codes "port"
    ∷ codes "weight"
    ∷ codes "max_connections"
    ∷ codes "use_ssl"
    ∷ codes "comment"
    ∷ []
columns pgsql_users =
    codes "username"
    ∷ codes "password"
    ∷ codes "default_hostgroup"
    ∷ codes "active"
    ∷ codes "comment"
    ∷ []
columns pgsql_query_rules =
    codes "rule_id"
    ∷ codes "active"
    ∷ codes "flagIN"
    ∷ codes "match_pattern"
    ∷ codes "flagOUT"
    ∷ codes "replace_pattern"
    ∷ codes "destination_hostgroup"
    ∷ codes "cache_ttl"
    ∷ codes "cache_empty_result"
    ∷ codes "timeout"
    ∷ codes "delay"
    ∷ codes "mirror_hostgroup"
    ∷ codes "error_msg"
    ∷ codes "log"
    ∷ codes "apply"
    ∷ codes "comment"
    ∷ []
columns proxysql_servers = codes "hostname" ∷ codes "port" ∷ codes "weight" ∷ codes "comment" ∷ []

-- A row gives a value to each named column.
abbrev pub Row : Type 0
Row = List (Text × Value)

abbrev pub named : List Text → List Value → Row
named (c ∷ cs) (v ∷ vs) = (c, v) ∷ named cs vs
named [] vs = []
named (c ∷ cs) [] = []

abbrev pub Tables : Type 0
Tables = TableName → List Row

-- What an instance is configured with: the tables in memory, the rows that each table had when it
-- was last loaded to the runtime, and those that were last saved.
pub record Configured : Type 0 where
  pub memory : Tables
  pub loaded : Tables
  pub saved : Tables

abbrev pub put : TableName → List Row → Tables → Tables
put t rs ts u = if eqb (index t) (index u) then rs else ts u

abbrev one_of : List TableName → TableName → Bool
one_of [] u = false
one_of (t ∷ ts) u = eqb (index t) (index u) || one_of ts u

-- The named tables of the first, the others of the second.
abbrev pub overlay : List TableName → Tables → Tables → Tables
overlay names new old u = if one_of names u then new u else old u

abbrev pub fill : TableName → List Row → Configured → Configured
fill t rs c = record c { memory = put t rs c.memory }

abbrev pub load : List TableName → Configured → Configured
load ts c = record c { loaded = overlay ts c.memory c.loaded }

abbrev pub save : List TableName → Configured → Configured
save ts c = record c { saved = overlay ts c.memory c.saved }

-- The modules of the admin interface, and their tables; a module's variables are no table.
pub data AdminModule : Type 0 where
  mysql_servers_module mysql_users_module mysql_query_rules_module : AdminModule
  pgsql_servers_module pgsql_users_module pgsql_query_rules_module : AdminModule
  proxysql_servers_module : AdminModule
  mysql_variables pgsql_variables admin_variables : AdminModule

abbrev pub title : AdminModule → Text
title mysql_servers_module = codes "MYSQL SERVERS"
title mysql_users_module = codes "MYSQL USERS"
title mysql_query_rules_module = codes "MYSQL QUERY RULES"
title pgsql_servers_module = codes "PGSQL SERVERS"
title pgsql_users_module = codes "PGSQL USERS"
title pgsql_query_rules_module = codes "PGSQL QUERY RULES"
title proxysql_servers_module = codes "PROXYSQL SERVERS"
title mysql_variables = codes "MYSQL VARIABLES"
title pgsql_variables = codes "PGSQL VARIABLES"
title admin_variables = codes "ADMIN VARIABLES"

abbrev pub tables_of : AdminModule → List TableName
tables_of mysql_servers_module =
    mysql_servers ∷ mysql_replication_hostgroups ∷ mysql_hostgroup_attributes ∷ []
tables_of mysql_users_module = mysql_users ∷ []
tables_of mysql_query_rules_module = mysql_query_rules ∷ []
tables_of pgsql_servers_module = pgsql_servers ∷ []
tables_of pgsql_users_module = pgsql_users ∷ []
tables_of pgsql_query_rules_module = pgsql_query_rules ∷ []
tables_of proxysql_servers_module = proxysql_servers ∷ []
tables_of mysql_variables = []
tables_of pgsql_variables = []
tables_of admin_variables = []

abbrev pub delete_statement : TableName → Text
delete_statement t = codes "DELETE FROM " ++ table_name t

-- An INSERT of the columns that the operator sets, up to the rows.
abbrev pub insert_head : TableName → Text
insert_head t =
    codes "INSERT INTO "
    ++ (table_name t ++ (codes " (" ++ (join (codes ",") (columns t) ++ codes ") VALUES ")))

-- The port: the statements, what they leave configured, and whether a table takes some rows, which
-- its keys and constraints decide.
pub record AdminPort : Type 1 where
  pub State : Type 0
  pub exec : Text → Action State
  pub configured : State → Configured
  pub Accepts : TableName → List Row → Type 0

abbrev pub executor : AdminPort → Executor
executor P = record { State = P.State; exec = P.exec }

module _ (P : AdminPort) where
  -- An action succeeds and changes what is configured as a function says.
  abbrev pub Does : Action P.State → P.State → (Configured → Configured) → Type 0
  Does m s f = (s' : P.State) × (m s ≡ (s', none)) × (P.configured s' ≡ f (P.configured s))

-- What the documentation of ProxySQL says: DELETE empties a table in memory; an INSERT whose text
-- holds rows of SQL literals, one for each column, fills an empty table with them where the table
-- takes them; LOAD makes a module's tables the running configuration, and SAVE keeps them on disk;
-- statements about variables leave the tables alone.
pub record AdminPortLaws (P : AdminPort) : Type 0 where
  pub deletes : (t : TableName) (s : P.State) → Does P (P.exec (delete_statement t)) s (fill t [])
  pub inserts :
      (t : TableName) (text : Text) (rows : List (List Value)) (s : P.State)
      → read_rows 64 (length text) text ≡ some rows
      → All (λ row. length row ≡ length (columns t)) rows
      → (P.configured s).memory t ≡ []
      → P.Accepts t (map (named (columns t)) rows)
      → Does P (P.exec (insert_head t ++ text)) s (fill t (map (named (columns t)) rows))
  pub loads :
      (a : AdminModule) (s : P.State)
      → Does P (P.exec (load_statement (title a))) s (load (tables_of a))
  pub saves :
      (a : AdminModule) (s : P.State)
      → Does P (P.exec (save_statement (title a))) s (save (tables_of a))
  pub updates : (k v : Text) (s : P.State) → Does P (P.exec (update_statement k v)) s (λ c. c)
