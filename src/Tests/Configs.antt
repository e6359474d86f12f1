-- ===== src/Tests/Configs.antt =====
-- Configurations of one cluster, reconciled and cleaned up.
use proxysql_on_k8s.Api.{ProxySqlConfig, ProxySqlConfigSpec}
use proxysql_on_k8s.Base.{
  ℕ, arith, ap, sym, ◌∙◌, ◌≡◌, inl, inr, refl, true, false, List, [], ◌∷◌, Option, none, some,
  text_eq,
}
use proxysql_on_k8s.Base.Calls.{Reader, Result, ok, failed}
use proxysql_on_k8s.Base.Int.{pos}
use proxysql_on_k8s.Base.Text.{Text, codes}
use proxysql_on_k8s.Client.Types.{Desired, empty_desired}
use proxysql_on_k8s.Base.Dict.{keys, insert}
use proxysql_on_k8s.Base.Sort.{sort}
use proxysql_on_k8s.Client.Drift.Keys.{
  put_server_keys, put_runtime, desired_statuses, user_keys, rule_keys, put_pgsql_keys,
}
use proxysql_on_k8s.Client.Union.{flatten_all, merge_all, merge_one}
use proxysql_on_k8s.Client.Sync.Variables.{
  load_save, sync_variables, update_variables, sync_sql_statements,
}
use proxysql_on_k8s.Client.Sync.{
  run_steps, sync_mysql_servers, sync_mysql_replication_hostgroups, sync_mysql_hostgroup_attributes,
  sync_mysql_users, sync_mysql_query_rules, sync_pgsql_servers, sync_pgsql_users,
  sync_pgsql_query_rules, sync_proxysql_servers,
}
use proxysql_on_k8s.Config.Desired.{Secrets}
use proxysql_on_k8s.Config.Desired.Laws.{OwnsNothing}
use proxysql_on_k8s.Config.Finalize.{Calls, Deleted}
use proxysql_on_k8s.Config.Reconcile.{ConfigStatus, Reconciling, reconcile_ready_replicas}
use proxysql_on_k8s.Config.Reconcile.Laws.{IsBacked, reconcile_ready_replicas-IsBacked}
use proxysql_on_k8s.Config.Replica.{Replicas, apply_replica}
use proxysql_on_k8s.Config.Replica.Laws.{IsHonestPush, apply_replica-IsHonest}
use proxysql_on_k8s.Config.Union.{ClusterView, build_unioned_desired}
use proxysql_on_k8s.Config.Union.Laws.{build_unioned_desired-OwnsNothing}
use proxysql_on_k8s.Config.Union.Order.{HasUniqueNames, build_unioned_desired_rearranged}
use proxysql_on_k8s.Discovery.{PodEndpoint}
use mathlib.Core.List.{Permᴰ}

abbrev spec : ProxySqlConfigSpec
spec = record {
  cluster_ref = codes "p";
  version = pos 1;
  mysql_servers = [];
  mysql_users = [];
  mysql_query_rules = [];
  mysql_replication_hostgroups = [];
  mysql_hostgroup_attributes = [];
  pgsql_servers = [];
  pgsql_users = [];
  pgsql_query_rules = [];
  proxysql_servers = [];
  admin_variables = [];
  mysql_variables = (codes "mysql-threads", codes "8") ∷ [];
  pgsql_variables = [];
  sql_statements = [];
}

abbrev config : Text → ProxySqlConfig
config name = record { name = name; namespace = codes "db"; is_deleted = false; spec = spec }

abbrev secrets : Secrets
secrets = record {
  State = Unit;
  get_secret = λ ns name s. (s, failed (codes "not found"));
  quoted = λ t. t;
}

abbrev cluster : ClusterView
cluster = record {
  name = codes "p";
  namespace = codes "db";
  replicas = some (pos 1);
  admin_port = pos 6032;
}

abbrev listing : List ProxySqlConfig → Reader Unit (List ProxySqlConfig)
listing cs s = (s, ok cs)

abbrev a_and_b : List ProxySqlConfig
a_and_b = config (codes "a") ∷ config (codes "b") ∷ []

abbrev b_and_a : List ProxySqlConfig
b_and_a = config (codes "b") ∷ config (codes "a") ∷ []

a-ne-b : codes "a" ≡ codes "b" → ⊥
a-ne-b h = ground (arith, h)

a_and_b-HasUniqueNames : HasUniqueNames a_and_b
a_and_b-HasUniqueNames x y (inl p) (inl q) same = sym p ∙ q
a_and_b-HasUniqueNames x y (inl p) (inr (inl q)) same =
    absurd (a-ne-b (ap (λ c. c.name) p ∙ same ∙ sym (ap (λ c. c.name) q)))
a_and_b-HasUniqueNames x y (inr (inl p)) (inl q) same =
    absurd (a-ne-b (ap (λ c. c.name) q ∙ sym same ∙ sym (ap (λ c. c.name) p)))
a_and_b-HasUniqueNames x y (inr (inl p)) (inr (inl q)) same = sym p ∙ q
a_and_b-HasUniqueNames x y (inl p) (inr (inr other)) same = absurd other
a_and_b-HasUniqueNames x y (inr (inl p)) (inr (inr other)) same = absurd other
a_and_b-HasUniqueNames x y (inr (inr other)) i same = absurd other

build_unioned_desired_rearranged_example :
    build_unioned_desired cluster secrets (listing a_and_b) [] tt
    ≡ build_unioned_desired cluster secrets (listing b_and_a) [] tt
build_unioned_desired_rearranged_example =
    build_unioned_desired_rearranged cluster [] secrets (listing a_and_b) (listing b_and_a) tt tt
      a_and_b b_and_a refl refl (Permᴰ.swap refl refl) a_and_b-HasUniqueNames

abbrev only_a : Desired
only_a = record empty_desired { mysql_variables = (codes "mysql-threads", codes "8") ∷ [] }

builds :
    build_unioned_desired cluster secrets (listing a_and_b) (codes "b") tt ≡ (tt, ok (only_a, true))
unfolding build_unioned_desired text_eq sort flatten_all keys merge_all merge_one insert
builds = refl

build_unioned_desired-OwnsNothing_example : OwnsNothing only_a
build_unioned_desired-OwnsNothing_example =
    build_unioned_desired-OwnsNothing cluster secrets (listing a_and_b) (codes "b") tt tt only_a
      true builds

-- A replica that answers every query with no rows.
abbrev replicas : Replicas
replicas = record {
  State = Unit;
  Observed = Unit;
  now = λ s. (s, 5);
  dial = λ addr s. (s, none);
  exec = λ addr q s. (s, none);
  query = λ addr q s. (s, ok []);
}

abbrev endpoint : PodEndpoint
endpoint = record {
  pod = codes "p-0";
  addr = codes "10.0.0.1:6032";
  server_name = codes "p-0.p-headless.db.svc";
}

apply_replica-IsHonest_example :
    IsHonestPush replicas only_a none
      (pos 1)
      endpoint
      tt
      tt
      (apply_replica replicas only_a none (pos 1) endpoint tt).1
apply_replica-IsHonest_example =
    apply_replica-IsHonest replicas only_a none (pos 1) endpoint tt tt
      (apply_replica replicas only_a none (pos 1) endpoint tt).1 refl

abbrev fresh : ConfigStatus
fresh = record {
  observed_generation = pos 0;
  observed_version = pos 0;
  last_applied_hash = [];
  last_sync_time = none;
  synced_replicas = 0;
  drifted_replicas = 0;
  shunned_backends = 0;
  last_runtime_check_time = none;
  replicas = [];
  conditions = [];
}

abbrev reconciling : Reconciling
reconciling = record {
  generation = pos 1;
  version = pos 1;
  status = fresh;
  hash = codes "h1";
  endpoints = endpoint ∷ [];
  addrs = codes "10.0.0.1:6032" ∷ [];
  pgsql_mismatch = false;
  resync_interval = pos 0;
  set_condition = λ c cs. c ∷ cs;
  remove_condition = λ t cs. cs;
}

abbrev after : Option ConfigStatus × Result ℕ
after = (reconcile_ready_replicas replicas only_a none (λ st s. (s, none)) reconciling tt).1

-- The new digest is recorded, since the replica runs what is desired.
applied : (elim after.0 [ none ↦ [] | some st ↦ st.last_applied_hash ]) ≡ codes "h1"
unfolding reconcile_ready_replicas text_eq sort run_steps sync_mysql_servers
    sync_mysql_replication_hostgroups sync_mysql_hostgroup_attributes load_save sync_mysql_users
    sync_mysql_query_rules sync_pgsql_servers sync_pgsql_users sync_pgsql_query_rules
    sync_proxysql_servers sync_variables update_variables sync_sql_statements put_server_keys
    put_runtime keys insert desired_statuses user_keys rule_keys put_pgsql_keys
applied = refl

reconcile_ready_replicas-IsBacked_example :
    IsBacked replicas only_a none (λ st s. (s, none)) reconciling tt after.0
reconcile_ready_replicas-IsBacked_example =
    reconcile_ready_replicas-IsBacked replicas only_a none (λ st s. (s, none)) reconciling tt tt
      after.0 after.1 refl

abbrev calls : Calls secrets
calls = record {
  Observed = Unit;
  update = λ s. (s, none);
  get_cluster = λ s. (s, ok (some cluster));
  get_admin_secret = λ c s. (s, ok (some []));
  passwords_from_secret = λ d. ok (codes "pw");
  discover = λ c s. (s, ok (endpoint ∷ []));
  dial_tls = λ c eps s. (s, none);
  dial = λ addr pw s. (s, none);
  exec = λ addr q s. (s, none);
  list_configs = λ c s. (s, ok a_and_b);
  build_rds = λ c s. (s, ok none);
  is_not_found = λ e. false;
}

abbrev deleted : Deleted
deleted = record {
  name = codes "b";
  has_finalizer = true;
  skip_cleanup = [];
  has_db_proxy = false;
  has_no_peers = true;
}
