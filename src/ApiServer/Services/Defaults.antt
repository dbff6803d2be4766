-- ===== src/ApiServer/Services/Defaults.antt =====
-- The defaults that `checkTypeAndPorts` fills in, field by field.
use mini_k8s.Base.{
  string_Eq, nat_Eq, ◌==◌, Bool-cases, ◌≡◌, refl, ◌≢◌, inl, inr, List, [], ◌∷◌, map, arith,
}
use mini_k8s.Api.{Service, ServicePort}
use mini_k8s.ApiServer.Services.{default_type, default_protocol, with_defaults}

-- A port of a new service, and the port with its default: an empty protocol is tcp.
pub record IsDefaulted (port filled : ServicePort) : Type 0 where
  pub empty_protocol : port.protocol ≡ "" → filled.protocol ≡ "tcp"
  pub given_protocol : port.protocol ≢ "" → filled.protocol ≡ port.protocol
  pub name : filled.name ≡ port.name
  pub port_number : filled.port ≡ port.port
  pub target_port : filled.target_port ≡ port.target_port
  pub node_port : filled.node_port ≡ port.node_port

abbrev pub AreDefaulted : List ServicePort → List ServicePort → Type 0
AreDefaulted [] [] = Unit
AreDefaulted [] (filled ∷ others) = ⊥
AreDefaulted (port ∷ ports) [] = ⊥
AreDefaulted (port ∷ ports) (filled ∷ others) = IsDefaulted port filled × AreDefaulted ports others

-- A new service, and the service with its defaults: an empty type is ClusterIP.
pub record HasDefaults (service checked : Service) : Type 0 where
  pub empty_type : service.spec.type ≡ "" → checked.spec.type ≡ "ClusterIP"
  pub given_type : service.spec.type ≢ "" → checked.spec.type ≡ service.spec.type
  pub ports : AreDefaulted service.spec.ports checked.spec.ports
  pub kind : checked.kind ≡ service.kind
  pub metadata : checked.metadata ≡ service.metadata
  pub selector : checked.spec.selector ≡ service.spec.selector
  pub cluster_ip : checked.spec.cluster_ip ≡ service.spec.cluster_ip

default_protocol-IsDefaulted : (port : ServicePort) → IsDefaulted port (default_protocol port)
unfolding default_protocol
default_protocol-IsDefaulted port = elim (Bool-cases (port.protocol == "")) [
  | inl missing ↦ rw missing (record {
    empty_protocol = λ e. refl;
    given_protocol = λ ne. absurd (ne ((string_Eq.beq_iff port.protocol "").0 missing));
    name = refl;
    port_number = refl;
    target_port = refl;
    node_port = refl;
  })
  | inr given ↦ rw given (record {
    empty_protocol = λ e. absurd (ground (arith, e, string_Eq.beq_iff port.protocol ""));
    given_protocol = λ ne. refl;
    name = refl;
    port_number = refl;
    target_port = refl;
    node_port = refl;
  })
]

map-AreDefaulted : (ports : List ServicePort) → AreDefaulted ports (map default_protocol ports)
map-AreDefaulted [] = tt
map-AreDefaulted (port ∷ ports) = (default_protocol-IsDefaulted port, map-AreDefaulted ports)

pub with_defaults-HasDefaults : (service : Service) → HasDefaults service (with_defaults service)
unfolding with_defaults default_type
with_defaults-HasDefaults service = record {
  empty_type = λ e. ground (arith, e, string_Eq.beq_iff service.spec.type "");
  given_type = λ ne. ground (arith, ne, string_Eq.beq_iff service.spec.type "");
  ports = map-AreDefaulted service.spec.ports;
  kind = refl;
  metadata = refl;
  selector = refl;
  cluster_ip = refl;
}

pub with_defaults_type :
    (service : Service) → default_type service.spec.type ≡ (with_defaults service).spec.type
unfolding with_defaults
with_defaults_type service = refl
