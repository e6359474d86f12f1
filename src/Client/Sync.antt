-- ===== src/Client/Sync.antt =====
-- operator/internal/proxysqlclient/sync.go: a full push of the desired state to one admin port.
pub mod Columns
pub mod Variables
pub mod Values
pub mod Convergence
pub mod Isolation
use proxysql_on_k8s.Base.Calls.{Action, succeed, ◌>>◌}
use proxysql_on_k8s.Base.{
  Bool, true, false, List, [], ◌∷◌, ◌++◌, Option, none, some, map, if◌then◌else◌,
}
use proxysql_on_k8s.Base.Text.{Text, codes}
use proxysql_on_k8s.Base.Sort.{sort}
use proxysql_on_k8s.Base.Int.{ltb_ℤ}
use proxysql_on_k8s.Client.Types.{Desired, MySqlQueryRule, PostgreSqlQueryRule}
use proxysql_on_k8s.Client.Quote.{rows}
use proxysql_on_k8s.Client.Executor.{Executor}
use Columns.{
  mysql_server_columns, mysql_replication_hostgroup_columns, mysql_hostgroup_attributes_columns,
  mysql_user_columns, mysql_query_rule_columns, pgsql_server_columns, pgsql_user_columns,
  pgsql_query_rule_columns, proxysql_server_columns,
}
use Variables.{load_save, sync_variables, sync_sql_statements}

-- `sort.Slice` by rule id.
abbrev pub mysql_rule_less : MySqlQueryRule → MySqlQueryRule → Bool
mysql_rule_less a b = ltb_ℤ a.rule_id b.rule_id

abbrev pub pgsql_rule_less : PostgreSqlQueryRule → PostgreSqlQueryRule → Bool
pgsql_rule_less a b = ltb_ℤ a.rule_id b.rule_id

-- A statement pair of a table section: what empties the table, and the head of what fills it.
pub record Table : Type 0 where
  pub delete : Text
  pub insert : Text

abbrev pub mysql_servers_table : Table
mysql_servers_table = record {
  delete = codes "DELETE FROM mysql_servers";
  insert =
      codes "INSERT INTO mysql_servers (hostgroup_id,hostname,port,status,weight,"
      ++ (codes "max_connections,max_replication_lag,use_ssl,comment) VALUES ");
}

abbrev pub mysql_replication_hostgroups_table : Table
mysql_replication_hostgroups_table = record {
  delete = codes "DELETE FROM mysql_replication_hostgroups";
  insert =
      codes "INSERT INTO mysql_replication_hostgroups (writer_hostgroup,"
      ++ (codes "reader_hostgroup,check_type,comment) VALUES ");
}

abbrev pub mysql_hostgroup_attributes_table : Table
mysql_hostgroup_attributes_table = record {
  delete = codes "DELETE FROM mysql_hostgroup_attributes";
  insert =
      codes "INSERT INTO mysql_hostgroup_attributes (hostgroup_id,"
      ++ (codes "max_num_online_servers,autocommit,free_connections_pct,init_connect,"
          ++ (codes "multiplex,connection_warming,throttle_connections_per_sec,"
              ++ (codes "ignore_session_variables,comment) VALUES ")));
}

abbrev pub mysql_users_table : Table
mysql_users_table = record {
  delete = codes "DELETE FROM mysql_users";
  insert =
      codes "INSERT INTO mysql_users (username,password,default_hostgroup,active,"
      ++ (codes "max_connections,use_ssl,default_schema,transaction_persistent,"
          ++ (codes "comment) VALUES "));
}

abbrev pub mysql_query_rules_table : Table
mysql_query_rules_table = record {
  delete = codes "DELETE FROM mysql_query_rules";
  insert =
      codes "INSERT INTO mysql_query_rules (rule_id,active,username,schemaname,"
      ++ (codes "flagIN,match_pattern,match_digest,flagOUT,replace_pattern,"
          ++ (codes "destination_hostgroup,cache_ttl,cache_empty_result,timeout,delay,"
              ++ (codes "mirror_hostgroup,error_msg,log,apply,comment) VALUES ")));
}

abbrev pub pgsql_servers_table : Table
pgsql_servers_table = record {
  delete = codes "DELETE FROM pgsql_servers";
  insert =
      codes "INSERT INTO pgsql_servers (hostgroup_id,hostname,port,weight,"
      ++ (codes "max_connections,use_ssl,comment) VALUES ");
}

abbrev pub pgsql_users_table : Table
pgsql_users_table = record {
  delete = codes "DELETE FROM pgsql_users";
  insert =
      codes "INSERT INTO pgsql_users (username,password,default_hostgroup,active,"
      ++ (codes "comment) VALUES ");
}

abbrev pub pgsql_query_rules_table : Table
pgsql_query_rules_table = record {
  delete = codes "DELETE FROM pgsql_query_rules";
  insert =
      codes "INSERT INTO pgsql_query_rules (rule_id,active,flagIN,match_pattern,"
      ++ (codes "flagOUT,replace_pattern,destination_hostgroup,cache_ttl,"
          ++ (codes "cache_empty_result,timeout,delay,mirror_hostgroup,error_msg,log,apply,"
              ++ (codes "comment) VALUES ")));
}

abbrev pub proxysql_servers_table : Table
proxysql_servers_table = record {
  delete = codes "DELETE FROM proxysql_servers";
  insert = codes "INSERT INTO proxysql_servers (hostname,port,weight,comment) VALUES ";
}

module _ (E : Executor) where
  open E use {State, exec}

  -- The statements of a table section. An empty section stops after the DELETE.
  unfoldable pub replace_rows : Table → List (List Text) → Action State
  replace_rows t [] = do exec t.delete; succeed
  replace_rows t (r ∷ rs) = do exec t.delete; exec (t.insert ++ rows (r ∷ rs))

  unfoldable pub sync_mysql_servers : Desired → Action State
  unfolding replace_rows
  sync_mysql_servers d = replace_rows mysql_servers_table (map mysql_server_columns d.mysql_servers)

  unfoldable pub sync_mysql_replication_hostgroups : Desired → Action State
  unfolding replace_rows
  sync_mysql_replication_hostgroups d =
      replace_rows mysql_replication_hostgroups_table
        (map mysql_replication_hostgroup_columns d.mysql_replication_hostgroups)

  unfoldable pub sync_mysql_hostgroup_attributes : Desired → Action State
  unfolding replace_rows
  sync_mysql_hostgroup_attributes d =
      replace_rows mysql_hostgroup_attributes_table
        (map mysql_hostgroup_attributes_columns d.mysql_hostgroup_attributes)

  unfoldable pub sync_mysql_users : Desired → Action State
  unfolding replace_rows
  sync_mysql_users d = replace_rows mysql_users_table (map mysql_user_columns d.mysql_users)

  unfoldable pub sync_mysql_query_rules : Desired → Action State
  unfolding replace_rows
  sync_mysql_query_rules d =
      replace_rows mysql_query_rules_table
        (map mysql_query_rule_columns (sort mysql_rule_less d.mysql_query_rules))

  unfoldable pub sync_pgsql_servers : Desired → Action State
  unfolding replace_rows
  sync_pgsql_servers d = replace_rows pgsql_servers_table (map pgsql_server_columns d.pgsql_servers)

  unfoldable pub sync_pgsql_users : Desired → Action State
  unfolding replace_rows
  sync_pgsql_users d = replace_rows pgsql_users_table (map pgsql_user_columns d.pgsql_users)

  unfoldable pub sync_pgsql_query_rules : Desired → Action State
  unfolding replace_rows
  sync_pgsql_query_rules d =
      replace_rows pgsql_query_rules_table
        (map pgsql_query_rule_columns (sort pgsql_rule_less d.pgsql_query_rules))

  unfoldable pub sync_proxysql_servers : Desired → Action State
  unfolding replace_rows
  sync_proxysql_servers d =
      replace_rows proxysql_servers_table (map proxysql_server_columns d.proxysql_servers)

  -- A named step of the list that `SyncWithAWSDBProxy` builds.
  abbrev pub SyncStep : Type 0
  SyncStep = Text × Action State

  -- The steps over the tables that an AWS DB proxy plugin may own.
  abbrev pub owned_steps : Desired → List SyncStep
  owned_steps d =
      (codes "mysql_servers", sync_mysql_servers d)
      ∷ (codes "mysql_replication_hostgroups", sync_mysql_replication_hostgroups d)
      ∷ (codes "mysql_hostgroup_attributes", sync_mysql_hostgroup_attributes d)
      ∷ (codes "mysql_servers_apply", load_save E (codes "MYSQL SERVERS"))
      ∷ (codes "mysql_users", sync_mysql_users d)
      ∷ (codes "mysql_users_apply", load_save E (codes "MYSQL USERS"))
      ∷ []

  abbrev pub other_steps : Desired → List SyncStep
  other_steps d =
      (codes "mysql_query_rules", sync_mysql_query_rules d)
      ∷ (codes "mysql_query_rules_apply", load_save E (codes "MYSQL QUERY RULES"))
      ∷ (codes "pgsql_servers", sync_pgsql_servers d)
      ∷ (codes "pgsql_servers_apply", load_save E (codes "PGSQL SERVERS"))
      ∷ (codes "pgsql_users", sync_pgsql_users d)
      ∷ (codes "pgsql_users_apply", load_save E (codes "PGSQL USERS"))
      ∷ (codes "pgsql_query_rules", sync_pgsql_query_rules d)
      ∷ (codes "pgsql_query_rules_apply", load_save E (codes "PGSQL QUERY RULES"))
      ∷ (codes "proxysql_servers", sync_proxysql_servers d)
      ∷ (codes "proxysql_servers_apply", load_save E (codes "PROXYSQL SERVERS"))
      ∷ (codes "mysql_variables", sync_variables E d.mysql_variables (codes "MYSQL"))
      ∷ (codes "pgsql_variables", sync_variables E d.pgsql_variables (codes "PGSQL"))
      ∷ (codes "admin_variables", sync_variables E d.admin_variables (codes "ADMIN"))
      ∷ (codes "sql_statements", sync_sql_statements E 0 d.sql_statements)
      ∷ []

  -- `fmt.Errorf("%s: %w", s.name, err)`
  abbrev pub step_error : Text → Text → Text
  step_error name e = name ++ (codes ": " ++ e)

  -- The loop over the steps: each runs, and the first error is kept.
  unfoldable pub run_steps : List SyncStep → Option Text → Action State
  run_steps [] first s = (s, first)
  run_steps ((name, run) ∷ steps) first s =
      let (s', err) = run s in
      run_steps steps
        (elim first [
          | some e ↦ some e
          | none ↦ elim err [ some e ↦ some (step_error name e) | none ↦ none ]
        ])
        s'

  unfoldable pub sync_with_aws_db_proxy : Desired → Bool → Action State
  sync_with_aws_db_proxy d aws_db_proxy =
      run_steps ((if aws_db_proxy then [] else owned_steps d) ++ other_steps d) none

  -- `Sync`
  unfoldable pub sync : Desired → Action State
  unfolding sync_with_aws_db_proxy
  sync d = sync_with_aws_db_proxy d false
