-- ===== src/Client/Sync/Convergence.antt =====
-- A push leaves every instance configured with exactly what is desired.
pub mod Sections
use proxysql_on_k8s.Base.Calls.{Action, >>_none}
use proxysql_on_k8s.Base.{
  ◌≡◌, refl, ap, ◌∙◌, subst, true, false, List, [], ◌∷◌, ◌++◌, none, All, if◌then◌else◌,
}
use proxysql_on_k8s.Base.Dict.{Dict, keys}
use proxysql_on_k8s.Base.Sort.{sort}
use proxysql_on_k8s.Base.Text.{Text, codes, text_ltb}
use proxysql_on_k8s.Client.Types.{Desired}
use proxysql_on_k8s.Client.Port.{
  TableName, AdminModule, title, tables_of, Tables, Configured, fill, load, save, AdminPort,
  AdminPortLaws, executor, Does,
}
use proxysql_on_k8s.Client.Sync.{
  SyncStep, run_steps, sync, sync_with_aws_db_proxy, owned_steps, other_steps, mysql_rule_less,
  pgsql_rule_less, sync_mysql_servers, mysql_servers_table, sync_mysql_replication_hostgroups,
  mysql_replication_hostgroups_table, sync_mysql_hostgroup_attributes,
  mysql_hostgroup_attributes_table, sync_mysql_users, mysql_users_table, sync_mysql_query_rules,
  mysql_query_rules_table, sync_pgsql_servers, pgsql_servers_table, sync_pgsql_users,
  pgsql_users_table, sync_pgsql_query_rules, pgsql_query_rules_table, sync_proxysql_servers,
  proxysql_servers_table,
}
use proxysql_on_k8s.Client.Sync.Columns.{
  mysql_server_columns, mysql_replication_hostgroup_columns, mysql_hostgroup_attributes_columns,
  mysql_user_columns, mysql_query_rule_columns, pgsql_server_columns, pgsql_user_columns,
  pgsql_query_rule_columns, proxysql_server_columns,
}
use proxysql_on_k8s.Client.Sync.Values.{
  mysql_server_values, render-mysql_server_values, mysql_replication_hostgroup_values,
  render-mysql_replication_hostgroup_values, mysql_hostgroup_attributes_values,
  render-mysql_hostgroup_attributes_values, mysql_user_values, render-mysql_user_values,
  mysql_query_rule_values, render-mysql_query_rule_values, pgsql_server_values,
  render-pgsql_server_values, pgsql_user_values, render-pgsql_user_values, pgsql_query_rule_values,
  render-pgsql_query_rule_values, proxysql_server_values, render-proxysql_server_values,
}
use proxysql_on_k8s.Client.Sync.Variables.{
  load_save, sync_variables, update_variables, sync_sql_statements, load_statement, save_statement,
  update_statement, value_of,
}
use Sections.{
  desired_rows, Does->>, succeed-Does, replace_rows-entries, mysql_servers-Names,
  mysql_replication_hostgroups-Names, mysql_hostgroup_attributes-Names, mysql_users-Names,
  mysql_query_rules-Names, pgsql_servers-Names, pgsql_users-Names, pgsql_query_rules-Names,
  proxysql_servers-Names,
}

-- What a step does to what is configured.
abbrev Effect : Type 0
Effect = Configured → Configured

abbrev all_of : List Effect → Effect
all_of [] c = c
all_of (f ∷ fs) c = all_of fs (f c)

abbrev publish : AdminModule → Effect
publish a c = save (tables_of a) (load (tables_of a) c)

abbrev filled : Desired → TableName → Effect
filled d t = fill t (desired_rows d t)

abbrev owned_effects : Desired → List Effect
owned_effects d =
    filled d TableName.mysql_servers
    ∷ filled d TableName.mysql_replication_hostgroups
    ∷ filled d TableName.mysql_hostgroup_attributes
    ∷ publish AdminModule.mysql_servers_module
    ∷ filled d TableName.mysql_users
    ∷ publish AdminModule.mysql_users_module
    ∷ []

abbrev other_effects : Desired → List Effect
other_effects d =
    filled d TableName.mysql_query_rules
    ∷ publish AdminModule.mysql_query_rules_module
    ∷ filled d TableName.pgsql_servers
    ∷ publish AdminModule.pgsql_servers_module
    ∷ filled d TableName.pgsql_users
    ∷ publish AdminModule.pgsql_users_module
    ∷ filled d TableName.pgsql_query_rules
    ∷ publish AdminModule.pgsql_query_rules_module
    ∷ filled d TableName.proxysql_servers
    ∷ publish AdminModule.proxysql_servers_module
    ∷ (λ c. c)
    ∷ (λ c. c)
    ∷ (λ c. c)
    ∷ (λ c. c)
    ∷ []

-- The tables that a plugin leaves to the push, and the rows of the others.
abbrev pub rows_beside_plugin : Desired → Tables → Tables
rows_beside_plugin d before TableName.mysql_servers = before TableName.mysql_servers
rows_beside_plugin d before TableName.mysql_replication_hostgroups =
    before TableName.mysql_replication_hostgroups
rows_beside_plugin d before TableName.mysql_hostgroup_attributes =
    before TableName.mysql_hostgroup_attributes
rows_beside_plugin d before TableName.mysql_users = before TableName.mysql_users
rows_beside_plugin d before TableName.mysql_query_rules = desired_rows d TableName.mysql_query_rules
rows_beside_plugin d before TableName.pgsql_servers = desired_rows d TableName.pgsql_servers
rows_beside_plugin d before TableName.pgsql_users = desired_rows d TableName.pgsql_users
rows_beside_plugin d before TableName.pgsql_query_rules = desired_rows d TableName.pgsql_query_rules
rows_beside_plugin d before TableName.proxysql_servers = desired_rows d TableName.proxysql_servers

-- Every table takes the rows that are desired.
abbrev pub AllAccepted : AdminPort → Desired → Type 0
AllAccepted P d = (t : TableName) → P.Accepts t (desired_rows d t)

module _ (P : AdminPort) (laws : AdminPortLaws P) where
  abbrev Runs : Action P.State → Effect → Type 0
  Runs m f = (s : P.State) → Does P m s f

  sync_mysql_servers-filled :
      (d : Desired)
      → AllAccepted P d
      → Runs (sync_mysql_servers (executor P) d) (filled d TableName.mysql_servers)
  unfolding sync_mysql_servers
  sync_mysql_servers-filled d accepted =
      replace_rows-entries P laws mysql_servers_table TableName.mysql_servers mysql_server_columns
        mysql_server_values mysql_servers-Names render-mysql_server_values (λ a. refl)
        d.mysql_servers (accepted TableName.mysql_servers)

  sync_mysql_replication_hostgroups-filled :
      (d : Desired)
      → AllAccepted P d
      → Runs
          (sync_mysql_replication_hostgroups (executor P) d)
          (filled d TableName.mysql_replication_hostgroups)
  unfolding sync_mysql_replication_hostgroups
  sync_mysql_replication_hostgroups-filled d accepted =
      replace_rows-entries P laws mysql_replication_hostgroups_table
        TableName.mysql_replication_hostgroups mysql_replication_hostgroup_columns
        mysql_replication_hostgroup_values mysql_replication_hostgroups-Names
        render-mysql_replication_hostgroup_values (λ a. refl) d.mysql_replication_hostgroups
        (accepted TableName.mysql_replication_hostgroups)

  sync_mysql_hostgroup_attributes-filled :
      (d : Desired)
      → AllAccepted P d
      → Runs
          (sync_mysql_hostgroup_attributes (executor P) d)
          (filled d TableName.mysql_hostgroup_attributes)
  unfolding sync_mysql_hostgroup_attributes
  sync_mysql_hostgroup_attributes-filled d accepted =
      replace_rows-entries P laws mysql_hostgroup_attributes_table
        TableName.mysql_hostgroup_attributes mysql_hostgroup_attributes_columns
        mysql_hostgroup_attributes_values mysql_hostgroup_attributes-Names
        render-mysql_hostgroup_attributes_values (λ a. refl) d.mysql_hostgroup_attributes
        (accepted TableName.mysql_hostgroup_attributes)

  sync_mysql_users-filled :
      (d : Desired)
      → AllAccepted P d
      → Runs (sync_mysql_users (executor P) d) (filled d TableName.mysql_users)
  unfolding sync_mysql_users
  sync_mysql_users-filled d accepted =
      replace_rows-entries P laws mysql_users_table TableName.mysql_users mysql_user_columns
        mysql_user_values mysql_users-Names render-mysql_user_values (λ a. refl) d.mysql_users
        (accepted TableName.mysql_users)

  sync_mysql_query_rules-filled :
      (d : Desired)
      → AllAccepted P d
      → Runs (sync_mysql_query_rules (executor P) d) (filled d TableName.mysql_query_rules)
  unfolding sync_mysql_query_rules
  sync_mysql_query_rules-filled d accepted =
      replace_rows-entries P laws mysql_query_rules_table TableName.mysql_query_rules
        mysql_query_rule_columns mysql_query_rule_values mysql_query_rules-Names
        render-mysql_query_rule_values (λ a. refl) (sort mysql_rule_less d.mysql_query_rules)
        (accepted TableName.mysql_query_rules)

  sync_pgsql_servers-filled :
      (d : Desired)
      → AllAccepted P d
      → Runs (sync_pgsql_servers (executor P) d) (filled d TableName.pgsql_servers)
  unfolding sync_pgsql_servers
  sync_pgsql_servers-filled d accepted =
      replace_rows-entries P laws pgsql_servers_table TableName.pgsql_servers pgsql_server_columns
        pgsql_server_values pgsql_servers-Names render-pgsql_server_values (λ a. refl)
        d.pgsql_servers (accepted TableName.pgsql_servers)

  sync_pgsql_users-filled :
      (d : Desired)
      → AllAccepted P d
      → Runs (sync_pgsql_users (executor P) d) (filled d TableName.pgsql_users)
  unfolding sync_pgsql_users
  sync_pgsql_users-filled d accepted =
      replace_rows-entries P laws pgsql_users_table TableName.pgsql_users pgsql_user_columns
        pgsql_user_values pgsql_users-Names render-pgsql_user_values (λ a. refl) d.pgsql_users
        (accepted TableName.pgsql_users)

  sync_pgsql_query_rules-filled :
      (d : Desired)
      → AllAccepted P d
      → Runs (sync_pgsql_query_rules (executor P) d) (filled d TableName.pgsql_query_rules)
  unfolding sync_pgsql_query_rules
  sync_pgsql_query_rules-filled d accepted =
      replace_rows-entries P laws pgsql_query_rules_table TableName.pgsql_query_rules
        pgsql_query_rule_columns pgsql_query_rule_values pgsql_query_rules-Names
        render-pgsql_query_rule_values (λ a. refl) (sort pgsql_rule_less d.pgsql_query_rules)
        (accepted TableName.pgsql_query_rules)

  sync_proxysql_servers-filled :
      (d : Desired)
      → AllAccepted P d
      → Runs (sync_proxysql_servers (executor P) d) (filled d TableName.proxysql_servers)
  unfolding sync_proxysql_servers
  sync_proxysql_servers-filled d accepted =
      replace_rows-entries P laws proxysql_servers_table TableName.proxysql_servers
        proxysql_server_columns proxysql_server_values proxysql_servers-Names
        render-proxysql_server_values (λ a. refl) d.proxysql_servers
        (accepted TableName.proxysql_servers)

  load_save-publish : (a : AdminModule) → Runs (load_save (executor P) (title a)) (publish a)
  unfolding load_save
  load_save-publish a s =
      Does->> P laws (P.exec (load_statement (title a))) (P.exec (save_statement (title a))) s
        (load (tables_of a)) (save (tables_of a)) (laws.loads a s) (λ s' now. laws.saves a s')

  update_variables-same :
      (vars : Dict Text Text) (ks : List Text)
      → Runs (update_variables (executor P) vars ks) (λ c. c)
  unfolding update_variables
  update_variables-same vars [] s = succeed-Does P laws s
  update_variables-same vars (k ∷ ks) s =
      Does->> P laws (P.exec (update_statement k (value_of vars k)))
        (update_variables (executor P) vars ks) s (λ c. c) (λ c. c)
        (laws.updates k (value_of vars k) s) (λ s' now. update_variables-same vars ks s')

  -- The variables of a domain whose LOAD and SAVE are those of a module without tables.
  sync_variables-same :
      (domain : Text) (a : AdminModule)
      → title a ≡ domain ++ codes " VARIABLES"
      → tables_of a ≡ []
      → (vars : Dict Text Text) → Runs (sync_variables (executor P) vars domain) (λ c. c)
  unfolding sync_variables
  sync_variables-same domain a same none_of [] s = succeed-Does P laws s
  sync_variables-same domain a same none_of (v ∷ vars) s =
      Does->> P laws (update_variables (executor P) (v ∷ vars) (sort text_ltb (keys (v ∷ vars))))
        (load_save (executor P) (domain ++ codes " VARIABLES")) s (λ c. c) (λ c. c)
        (update_variables-same (v ∷ vars) (sort text_ltb (keys (v ∷ vars))) s)
        λ s' now.
          subst (λ what. Does P (load_save (executor P) what) s' (λ c. c)) same
            (subst (λ ts. Does P (load_save (executor P) (title a)) s' (λ c. save ts (load ts c)))
              none_of (load_save-publish a s'))

  sync_sql_statements-same :
      (stmts : List Text) → stmts ≡ [] → Runs (sync_sql_statements (executor P) 0 stmts) (λ c. c)
  unfolding sync_sql_statements
  sync_sql_statements-same [] h s = (s, refl, refl)
  sync_sql_statements-same (q ∷ stmts) h s = absurd cc

  -- Step by step, the steps do what the effects say.
  abbrev AllRun : List (SyncStep (executor P)) → List Effect → Type 0
  AllRun [] [] = Unit
  AllRun (step ∷ steps) (f ∷ fs) = Runs step.1 f × AllRun steps fs
  AllRun [] (f ∷ fs) = ⊥
  AllRun (step ∷ steps) [] = ⊥

  run_steps-all_of :
      (steps : List (SyncStep (executor P))) (fs : List Effect)
      → AllRun steps fs
      → Runs (run_steps (executor P) steps none) (all_of fs)
  unfolding run_steps
  run_steps-all_of [] [] h s = (s, refl, refl)
  run_steps-all_of (step ∷ steps) (f ∷ fs) h s =
      let (s₁, ran, now) = h.0 s in
      let (s₂, rest, later) = run_steps-all_of steps fs h.1 s₁ in
      (s₂, rw ran rest, later ∙ ap (all_of fs) now)
  run_steps-all_of [] (f ∷ fs) h s = absurd h
  run_steps-all_of (step ∷ steps) [] h s = absurd h

  other_steps-AllRun :
      (d : Desired)
      → AllAccepted P d
      → d.sql_statements ≡ []
      → AllRun (other_steps (executor P) d) (other_effects d)
  other_steps-AllRun d accepted h = (
    sync_mysql_query_rules-filled d accepted,
    (
      load_save-publish AdminModule.mysql_query_rules_module,
      (
        sync_pgsql_servers-filled d accepted,
        (
          load_save-publish AdminModule.pgsql_servers_module,
          (
            sync_pgsql_users-filled d accepted,
            (
              load_save-publish AdminModule.pgsql_users_module,
              (
                sync_pgsql_query_rules-filled d accepted,
                (
                  load_save-publish AdminModule.pgsql_query_rules_module,
                  (
                    sync_proxysql_servers-filled d accepted,
                    (
                      load_save-publish AdminModule.proxysql_servers_module,
                      (
                        sync_variables-same (codes "MYSQL") AdminModule.mysql_variables refl refl
                            d.mysql_variables,
                        (
                          sync_variables-same (codes "PGSQL") AdminModule.pgsql_variables refl refl
                              d.pgsql_variables,
                          (
                            sync_variables-same (codes "ADMIN") AdminModule.admin_variables refl
                                refl d.admin_variables,
                            (sync_sql_statements-same d.sql_statements h, tt),
                          ),
                        ),
                      ),
                    ),
                  ),
                ),
              ),
            ),
          ),
        ),
      ),
    ),
  )

  owned_steps-AllRun :
      (d : Desired)
      → AllAccepted P d
      → d.sql_statements ≡ []
      → AllRun
          (owned_steps (executor P) d ++ other_steps (executor P) d)
          (owned_effects d ++ other_effects d)
  owned_steps-AllRun d accepted h = (
    sync_mysql_servers-filled d accepted,
    (
      sync_mysql_replication_hostgroups-filled d accepted,
      (
        sync_mysql_hostgroup_attributes-filled d accepted,
        (
          load_save-publish AdminModule.mysql_servers_module,
          (
            sync_mysql_users-filled d accepted,
            (load_save-publish AdminModule.mysql_users_module, other_steps-AllRun d accepted h),
          ),
        ),
      ),
    ),
  )

  loaded_rows :
      (d : Desired) (c : Configured) (t : TableName)
      → (all_of (owned_effects d ++ other_effects d) c).loaded t ≡ desired_rows d t
  loaded_rows d c TableName.mysql_servers = refl
  loaded_rows d c TableName.mysql_replication_hostgroups = refl
  loaded_rows d c TableName.mysql_hostgroup_attributes = refl
  loaded_rows d c TableName.mysql_users = refl
  loaded_rows d c TableName.mysql_query_rules = refl
  loaded_rows d c TableName.pgsql_servers = refl
  loaded_rows d c TableName.pgsql_users = refl
  loaded_rows d c TableName.pgsql_query_rules = refl
  loaded_rows d c TableName.proxysql_servers = refl

  saved_rows :
      (d : Desired) (c : Configured) (t : TableName)
      → (all_of (owned_effects d ++ other_effects d) c).saved t ≡ desired_rows d t
  saved_rows d c TableName.mysql_servers = refl
  saved_rows d c TableName.mysql_replication_hostgroups = refl
  saved_rows d c TableName.mysql_hostgroup_attributes = refl
  saved_rows d c TableName.mysql_users = refl
  saved_rows d c TableName.mysql_query_rules = refl
  saved_rows d c TableName.pgsql_servers = refl
  saved_rows d c TableName.pgsql_users = refl
  saved_rows d c TableName.pgsql_query_rules = refl
  saved_rows d c TableName.proxysql_servers = refl

  -- Over any admin port with the documented behaviour, and whatever it is configured with before, a
  -- push of a configuration without user statements, whose rows the tables take, succeeds, and
  -- leaves each of the nine tables last loaded to the runtime, and last saved, with exactly the
  -- desired rows, value by value under the names of the columns.
  pub sync-AdminPort :
      (d : Desired) (s : P.State)
      → d.sql_statements ≡ []
      → AllAccepted P d
      → (s' : P.State) × (sync (executor P) d s ≡ (s', none))
        × ((t : TableName) → (P.configured s').loaded t ≡ desired_rows d t)
        × ((t : TableName) → (P.configured s').saved t ≡ desired_rows d t)
  unfolding sync sync_with_aws_db_proxy
  sync-AdminPort d s h accepted =
      let (s', ran, now) =
        run_steps-all_of (owned_steps (executor P) d ++ other_steps (executor P) d)
          (owned_effects d ++ other_effects d) (owned_steps-AllRun d accepted h) s in
      (
        s',
        ran,
        λ t. ap (λ c. c.loaded t) now ∙ loaded_rows d (P.configured s) t,
        λ t. ap (λ c. c.saved t) now ∙ saved_rows d (P.configured s) t,
      )

  loaded_beside_plugin :
      (d : Desired) (c : Configured) (t : TableName)
      → (all_of (other_effects d) c).loaded t ≡ rows_beside_plugin d c.loaded t
  loaded_beside_plugin d c TableName.mysql_servers = refl
  loaded_beside_plugin d c TableName.mysql_replication_hostgroups = refl
  loaded_beside_plugin d c TableName.mysql_hostgroup_attributes = refl
  loaded_beside_plugin d c TableName.mysql_users = refl
  loaded_beside_plugin d c TableName.mysql_query_rules = refl
  loaded_beside_plugin d c TableName.pgsql_servers = refl
  loaded_beside_plugin d c TableName.pgsql_users = refl
  loaded_beside_plugin d c TableName.pgsql_query_rules = refl
  loaded_beside_plugin d c TableName.proxysql_servers = refl

  -- Over any admin port with the documented behaviour, a push beside an AWS plugin, of a
  -- configuration without user statements whose rows the tables take, succeeds, and of the rows last
  -- loaded to the runtime it leaves those of the four tables that the plugin owns, and makes those of
  -- the query rules, of PostgreSQL and of the ProxySQL peers exactly the desired ones.
  pub sync_with_aws_db_proxy-AdminPort :
      (d : Desired) (s : P.State)
      → d.sql_statements ≡ []
      → AllAccepted P d
      → (s' : P.State) × (sync_with_aws_db_proxy (executor P) d true s ≡ (s', none))
        × ((t : TableName)
            → (P.configured s').loaded t ≡ rows_beside_plugin d (P.configured s).loaded t)
  unfolding sync_with_aws_db_proxy
  sync_with_aws_db_proxy-AdminPort d s h accepted =
      let (s', ran, now) =
        run_steps-all_of (other_steps (executor P) d) (other_effects d)
          (other_steps-AllRun d accepted h) s in
      (s', ran, λ t. ap (λ c. c.loaded t) now ∙ loaded_beside_plugin d (P.configured s) t)
