-- ===== src/Cluster/Phase.antt =====
-- proxysqlcluster_controller.go, `derivePhase` and `externalEndpoint`: what the status shows of the
-- StatefulSet and of the external Service.
use proxysql_on_k8s.Base.{
  Bool, true, false, not, ◌&&◌, ◌||◌, List, [], ◌∷◌, ◌++◌, Option, none, some, ◌==◌, text_eq,
  if◌then◌else◌,
}
use proxysql_on_k8s.Base.Calls.{Reader, Result, ok, failed, give}
use proxysql_on_k8s.Base.Int.{ℤ, pos, ltb_ℤ, int_eq}
use proxysql_on_k8s.Base.Text.{Text, codes, join}
use proxysql_on_k8s.Base.Text.Decimal.{format_int}

-- What is read of the StatefulSet; one that was not found reads as `missing_stateful_set`.
pub record StatefulSet : Type 0 where
  pub created : Bool
  pub ready_replicas : ℤ
  pub updated_replicas : ℤ
  pub update_revision : Text
  pub current_revision : Text

abbrev pub missing_stateful_set : StatefulSet
missing_stateful_set = record {
  created = false;
  ready_replicas = pos 0;
  updated_replicas = pos 0;
  update_revision = [];
  current_revision = [];
}

abbrev pub phase_pending : Text
phase_pending = codes "Pending"

abbrev pub phase_creating : Text
phase_creating = codes "Creating"

abbrev pub phase_running : Text
phase_running = codes "Running"

abbrev pub phase_updating : Text
phase_updating = codes "Updating"

abbrev pub phase_stopping : Text
phase_stopping = codes "Stopping"

abbrev pub phase_paused : Text
phase_paused = codes "Paused"

unfoldable pub derive_phase : StatefulSet → Bool → ℤ → Bool → Text
unfolding int_eq text_eq
derive_phase ss ss_missing desired true =
    if not ss_missing && ltb_ℤ (pos 0) ss.ready_replicas then phase_stopping else phase_paused
derive_phase ss ss_missing desired false =
    if ss_missing || not ss.created
    then phase_pending
    else if ss.ready_replicas == pos 0
    then phase_creating
    else if ss.ready_replicas == desired
        && (ss.update_revision == [] || ss.update_revision == ss.current_revision)
    then phase_running
    else phase_updating

pub data ServiceType : Type 0 where
  load_balancer : ServiceType
  node_port_type : ServiceType
  cluster_ip : ServiceType

pub record Ingress : Type 0 where
  pub ip : Text
  pub hostname : Text

pub record ServicePort : Type 0 where
  pub port : ℤ
  pub node_port : ℤ

-- What is read of the external Service.
pub record Service : Type 0 where
  pub service_type : ServiceType
  pub ports : List ServicePort
  pub ingress : List Ingress

-- The first address of the load balancer and the first port.
unfoldable pub load_balancer_endpoint : List Ingress → List ServicePort → Text
unfolding text_eq
load_balancer_endpoint [] ports = []
load_balancer_endpoint (i ∷ is) [] = []
load_balancer_endpoint (i ∷ is) (p ∷ ps) =
    let host = if i.ip == [] then i.hostname else i.ip in
    if host == [] then [] else host ++ (codes ":" ++ format_int p.port)

-- The loop over the ports of a NodePort Service.
unfoldable pub node_ports : List ServicePort → List Text
unfolding int_eq
node_ports [] = []
node_ports (p ∷ ps) =
    let rest = node_ports ps in if p.node_port == pos 0 then rest else format_int p.node_port ∷ rest

unfoldable pub service_endpoint : ServiceType → List Ingress → List ServicePort → Text
unfolding load_balancer_endpoint node_ports
service_endpoint load_balancer ingress ports = load_balancer_endpoint ingress ports
service_endpoint node_port_type ingress ports = join (codes ",") (node_ports ports)
service_endpoint cluster_ip ingress ports = []

unfoldable pub service_text : Result (Option Service) → Result Text
unfolding service_endpoint
service_text (ok none) = ok []
service_text (ok (some svc)) = ok (service_endpoint svc.service_type svc.ingress svc.ports)
service_text (failed e) = failed (codes "get external service: " ++ e)

-- The Service is read only where it is enabled.
unfoldable pub external_endpoint : {S : Type 0} → Bool → Reader S (Option Service) → Reader S Text
unfolding service_text
external_endpoint false get_service = give []
external_endpoint true get_service =
    λ s. let (s', found) = get_service s in (s', service_text found)
