-- ===== src/Tests/Push.antt =====
-- Pushes to an instance and to a connection that records its statements.
use proxysql_on_k8s.Base.Text.Decimal.{format_int}
use proxysql_on_k8s.Base.{◌≡◌, refl, true, List, [], ◌∷◌, none, some, if◌then◌else◌, text_eq, ◌==◌}
use proxysql_on_k8s.Base.Text.{Text, codes}
use proxysql_on_k8s.Client.Executor.{Executor}
use proxysql_on_k8s.Client.Port.{Configured, TableName, executor}
use proxysql_on_k8s.Client.Sync.Convergence.Sections.{desired_rows}
use proxysql_on_k8s.Tests.Instance.{instance_port, instance_laws}
use proxysql_on_k8s.Client.Sync.{sync, sync_with_aws_db_proxy, run_steps, owned_steps}
use proxysql_on_k8s.Client.Sync.Convergence.{
  rows_beside_plugin, sync-AdminPort, sync_with_aws_db_proxy-AdminPort,
}
use proxysql_on_k8s.Client.Sync.Isolation.{state_after, first_error, run_steps_lem}
use proxysql_on_k8s.Client.Sync.Variables.{sync_sql_statements}
use proxysql_on_k8s.Tests.Data.{web, stale}

-- A connection that keeps the statements it was sent, and fails at one of them.
abbrev recorder : Text → Executor
recorder bad = record {
  State = List Text;
  exec = λ q s. (q ∷ s, if q == bad then some (codes "busy") else none);
}

-- The failed statement is the last, under its index.
stops_at_failure :
    sync_sql_statements (recorder (codes "b")) 0 (codes "a" ∷ codes "b" ∷ codes "c" ∷ []) []
    ≡ (codes "b" ∷ codes "a" ∷ [], some (codes "sqlStatements[1]: busy"))
unfolding sync_sql_statements text_eq format_int
stops_at_failure = refl

sync-AdminPort_example :
    (s' : Configured) × (sync (executor instance_port) web stale ≡ (s', none))
    × ((t : TableName) → s'.loaded t ≡ desired_rows web t)
    × ((t : TableName) → s'.saved t ≡ desired_rows web t)
sync-AdminPort_example = sync-AdminPort instance_port instance_laws web stale refl (λ t. tt)

sync_with_aws_db_proxy-AdminPort_example :
    (s' : Configured) × (sync_with_aws_db_proxy (executor instance_port) web true stale
      ≡ (s', none))
    × ((t : TableName) → s'.loaded t ≡ rows_beside_plugin web stale.loaded t)
sync_with_aws_db_proxy-AdminPort_example =
    sync_with_aws_db_proxy-AdminPort instance_port instance_laws web stale refl (λ t. tt)

abbrev failing : Executor
failing = recorder (codes "DELETE FROM mysql_users")

run_steps_lem_example : run_steps failing (owned_steps failing web) none [] ≡ (
  state_after failing (owned_steps failing web) [],
  first_error failing (owned_steps failing web) [],
)
run_steps_lem_example = run_steps_lem failing (owned_steps failing web) []
