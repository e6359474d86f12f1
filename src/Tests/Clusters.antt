-- ===== src/Tests/Clusters.antt =====
-- The variables of a section, and the status of a cluster whose two replicas are ready while the external Service is refused.
use proxysql_on_k8s.Base.{
  In, ◌↔◌, ◌++◌, ◌∷◌, ◌≡◌, refl, arith, [], none, some, true, false, text_eq,
}
use proxysql_on_k8s.Base.Calls.{ok}
use proxysql_on_k8s.Base.Dict.{Dict, lookup, insert, erase}
use proxysql_on_k8s.Base.Dict.Laws.{lookup-insert, lookup-erase}
use proxysql_on_k8s.Base.Int.{pos, int_eq}
use proxysql_on_k8s.Base.Text.{Text, codes, has_prefix, text_ltb}
use proxysql_on_k8s.Cluster.Variables.{merged_cnf_vars, overridden, merged_cnf_vars_iff}
use proxysql_on_k8s.Cluster.Phase.{StatefulSet, phase_running}
use proxysql_on_k8s.Cluster.Status.{
  ConditionStatus, ConditionLibrary, ConditionLaws, ClusterSpec, ClusterEndpoints, ClusterStatus,
  ClusterCalls, Deferred, update_status,
}
use proxysql_on_k8s.Cluster.Status.Laws.{IsCoherent, update_status-IsCoherent}

-- A user sets one of the two defaults, and one variable more.
abbrev default_vars : Dict Text Text
default_vars = (codes "threads", codes "4") ∷ (codes "format", codes "2") ∷ []

abbrev user_vars : Dict Text Text
user_vars = (codes "mysql-threads", codes "8") ∷ (codes "mysql-wait", codes "5") ∷ []

merged_threads :
    merged_cnf_vars default_vars user_vars (codes "mysql-")
    ≡ (codes "format", codes "2") ∷ (codes "threads", codes "8") ∷ (codes "wait", codes "5") ∷ []
unfolding merged_cnf_vars text_eq text_ltb
merged_threads = refl

merged_cnf_vars_iff_example :
    In (codes "threads", codes "8") (merged_cnf_vars default_vars user_vars (codes "mysql-")) ↔ (
      overridden
        (lookup (codes "mysql-" ++ codes "threads") user_vars)
        (lookup (codes "threads") default_vars)
      ≡ some (codes "8"))
merged_cnf_vars_iff_example =
    merged_cnf_vars_iff default_vars user_vars (codes "mysql-") (codes "threads") (codes "8")
      (unfold lookup text_eq in (refl, (refl, tt))) (unfold lookup text_eq in (refl, (refl, tt)))
      (unfold has_prefix in (refl, (refl, tt)))

-- Conditions as a map of their statuses.
abbrev library : ConditionLibrary
library = record {
  Conditions = Dict Text ConditionStatus;
  set_status_condition = λ c. insert c.kind c.status;
  remove_status_condition = λ k. erase k;
  status_of = λ k. lookup k;
}

library_laws : ConditionLaws library
library_laws = record {
  set = λ k c cs. ground (arith, lookup-insert k c.kind c.status cs);
  remove = λ k j cs. ground (arith, lookup-erase k j cs);
}

abbrev ready_set : StatefulSet
ready_set = record {
  created = true;
  ready_replicas = pos 2;
  updated_replicas = pos 2;
  update_revision = codes "r1";
  current_revision = codes "r1";
}

-- A client that finds that StatefulSet, and keeps the phase that was sent last.
abbrev client : ClusterCalls library
client = record {
  State = Text;
  get_stateful_set = λ s. (s, ok (some ready_set));
  get_external_service = λ s. (s, ok none);
  update = λ st s. (st.phase, none);
}

abbrev endpoints : ClusterEndpoints
endpoints = record {
  mysql = codes "db.ns.svc:6033";
  pgsql = [];
  admin = codes "db.ns.svc:6032";
  web = [];
  metrics = [];
  external = [];
}

abbrev spec : ClusterSpec
spec = record {
  generation = pos 3;
  replicas = some (pos 2);
  pause = false;
  external_enabled = true;
  secret_name = codes "db-auth";
  endpoints = endpoints;
}

abbrev refused : Deferred
refused = record { ext_svc = some (codes "nodePort is taken"); tls = none; rot = none }

abbrev before : ClusterStatus library
before = record {
  observed_generation = pos 2;
  replicas = pos 0;
  ready_replicas = pos 0;
  updated_replicas = pos 0;
  phase = [];
  endpoints = endpoints;
  admin_secret_name = [];
  conditions = [];
}

sent_phase : (update_status library client spec [] refused before []).0 ≡ phase_running
unfolding update_status int_eq text_eq
sent_phase = refl

update_status-IsCoherent_example :
    IsCoherent library refused (update_status library client spec [] refused before []).1.0
update_status-IsCoherent_example =
    update_status-IsCoherent library library_laws client spec refl [] refused before []
      (unfold update_status in refl)
