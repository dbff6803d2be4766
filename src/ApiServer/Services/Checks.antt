-- ===== src/ApiServer/Services/Checks.antt =====
-- `checkTypeAndPorts` as a whole, on a store that may fail.
use mathlib.Core.Bool.{Bool}
use mini_k8s.Base.{
  string_Eq, nat_Eq, ◌==◌, Result, ok, err, member, Distinct, ℕ, ◌≡◌, refl, sym, ap, ◌∙◌, subst,
  ◌⊎◌, true, false, ◌||◌, not, Option, none, some, List, [], ◌∷◌, arith,
}
use mini_k8s.Api.{Service, ServicePort, service_type_cluster_ip, service_type_node_port}
use mini_k8s.ApiServer.Etcd.{Kv}
use mini_k8s.ApiServer.Act.{Act, Codec, and_then, or_refuse, require}
use mini_k8s.ApiServer.Services.{
  check_ports, default_type, with_defaults, has_node_port, node_ports_conflict,
  get_all_services_from_etcd, check_node_ports, check_type_and_ports,
}
use mini_k8s.ApiServer.Services.Defaults.{
  HasDefaults, with_defaults-HasDefaults, with_defaults_type,
}
use mini_k8s.ApiServer.Services.Ports.{
  PortsFine, node_ports, check_ports-Collects, check_ports-PortsFine,
}

-- A handler that ends well has done each of its steps well.
pub and_then-eq-ok :
    {S A B : Type 0} (first : Result (List ℕ) A × S) (next : A → Act S B) {value : B}
    → (and_then first next).0 ≡ ok value
    → (a : A) × (first.0 ≡ ok a) × ((next a first.1).0 ≡ ok value)
and_then-eq-ok (ok a, s) next done = (a, refl, done)
and_then-eq-ok (err e, s) next done = cc

pub require-eq-ok :
    {S : Type 0} (status : ℕ) (test : Bool) (s : S)
    → (require status test s).0 ≡ ok tt
    → (test ≡ true) × ((require status test s).1 ≡ s)
require-eq-ok status true s done = (refl, refl)
require-eq-ok status false s done = cc

pub or_refuse-eq-ok :
    {S A : Type 0} (status : ℕ) (found : Option A) (s : S) {value : A}
    → (or_refuse status found s).0 ≡ ok value
    → (found ≡ some value) × ((or_refuse status found s).1 ≡ s)
or_refuse-eq-ok status none s done = cc
or_refuse-eq-ok status (some a) s done = (cc, refl)

-- No node port of the list is one of a service's.
abbrev pub NoneShared : List ℕ → List ServicePort → Type 0
NoneShared taken [] = Unit
NoneShared taken (port ∷ ports) = (member port.node_port taken ≡ false) × NoneShared taken ports

has_node_port-NoneShared :
    (taken : List ℕ) (ports : List ServicePort)
    → has_node_port taken ports ≡ false
    → NoneShared taken ports
unfolding has_node_port
has_node_port-NoneShared taken [] h = tt
has_node_port-NoneShared taken (port ∷ ports) h =
    (ground arith, has_node_port-NoneShared taken ports (ground arith))

-- Nor of the stored services that have node ports.
abbrev pub NoConflict : List ℕ → List Service → Type 0
NoConflict taken [] = Unit
NoConflict taken (service ∷ services) =
    (service.spec.type ≡ service_type_node_port → NoneShared taken service.spec.ports)
    × NoConflict taken services

node_ports_conflict-NoConflict :
    (taken : List ℕ) (services : List Service)
    → node_ports_conflict taken services ≡ false
    → NoConflict taken services
unfolding node_ports_conflict
node_ports_conflict-NoConflict taken [] h = tt
node_ports_conflict-NoConflict taken (service ∷ services) h = (
  λ same.
      has_node_port-NoneShared taken service.spec.ports
        (ground (arith, string_Eq.beq_iff service.spec.type service_type_node_port)),
  node_ports_conflict-NoConflict taken services (ground arith),
)

NoneShared-same :
    (taken other : List ℕ)
    → ((n : ℕ) → member n other ≡ member n taken)
    → (ports : List ServicePort) → NoneShared taken ports
    → NoneShared other ports
NoneShared-same taken other same [] h = tt
NoneShared-same taken other same (port ∷ ports) h =
    (same port.node_port ∙ h.0, NoneShared-same taken other same ports h.1)

NoConflict-same :
    (taken other : List ℕ)
    → ((n : ℕ) → member n other ≡ member n taken)
    → (services : List Service) → NoConflict taken services
    → NoConflict other services
NoConflict-same taken other same [] h = tt
NoConflict-same taken other same (service ∷ services) h = (
  λ type. NoneShared-same taken other same service.spec.ports (h.0 type),
  NoConflict-same taken other same services h.1,
)

module _ {S : Type 0} (kv : Kv S) (services : Codec Service) where
  check_node_ports-NoConflict :
      (taken : List ℕ) (s : S)
      → (check_node_ports kv services true taken s).0 ≡ ok tt
      → (found : List Service) × ((get_all_services_from_etcd kv services 400 s).0 ≡ ok found)
        × NoConflict taken found
  unfolding check_node_ports
  check_node_ports-NoConflict taken s done =
      let (found, read, passed) =
        and_then-eq-ok (get_all_services_from_etcd kv services 400 s)
          (λ found. require 400 (not (node_ports_conflict taken found))) done in
      let (passes, _) =
        require-eq-ok 400 (not (node_ports_conflict taken found))
          (get_all_services_from_etcd kv services 400 s).1 passed in
      (found, read, node_ports_conflict-NoConflict taken found (ground arith))

  check_node_ports-apart :
      (service : Service) (taken : List ℕ) (s : S)
      → check_ports true service.spec.ports [] ≡ some taken
      → (check_node_ports kv services true taken s).0 ≡ ok tt
      → (found : List Service) × ((get_all_services_from_etcd kv services 400 s).0 ≡ ok found)
        × Distinct (node_ports service.spec.ports)
        × NoConflict (node_ports service.spec.ports) found
  unfolding member
  check_node_ports-apart service taken s collected done =
      let (distinct, same, _) = check_ports-Collects service.spec.ports [] taken collected in
      let (found, read, apart) = check_node_ports-NoConflict taken s done in
      (
        found,
        read,
        distinct,
        NoConflict-same taken (node_ports service.spec.ports) (λ n. sym (same n)) found apart,
      )

  -- What the steps of `checkTypeAndPorts` have found when it accepts a service.
  check_type_and_ports_ok :
      (service checked : Service) (s : S)
      → (check_type_and_ports kv services service s).0 ≡ ok checked
      → (checked ≡ with_defaults service)
        × ((default_type service.spec.type ≡ service_type_cluster_ip)
            ⊎ (default_type service.spec.type ≡ service_type_node_port))
        × PortsFine (default_type service.spec.type == service_type_node_port) service.spec.ports
        × (default_type service.spec.type ≡ service_type_node_port
            → (found : List Service) × ((get_all_services_from_etcd kv services 400 s).0 ≡ ok found)
              × Distinct (node_ports service.spec.ports)
              × NoConflict (node_ports service.spec.ports) found)
  unfolding check_type_and_ports
  check_type_and_ports_ok service checked s done =
      let type = default_type service.spec.type in
      let on_nodes = type == service_type_node_port in
      let known = type == service_type_cluster_ip || on_nodes in
      let found_ports = check_ports on_nodes service.spec.ports [] in
      let (_, known_done, rest) = and_then-eq-ok (require 400 known s) _ done in
      let first = (require 400 known s).1 in
      let (is_known, same_first) = require-eq-ok 400 known s known_done in
      let (taken, taken_done, rest') = and_then-eq-ok (or_refuse 400 found_ports first) _ rest in
      let (collected, same_second) = or_refuse-eq-ok 400 found_ports first taken_done in
      let second = (or_refuse 400 found_ports first).1 in
      let same : second ≡ s = same_second ∙ same_first in
      let (_, nodes_done, last) =
        and_then-eq-ok (check_node_ports kv services on_nodes taken second) _ rest' in
      (
        cc,
        ground (
          arith,
          string_Eq.beq_iff type service_type_cluster_ip,
          string_Eq.beq_iff type service_type_node_port,
        ),
        check_ports-PortsFine on_nodes service.spec.ports [] taken collected,
        λ nodes.
            let on : on_nodes ≡ true = (string_Eq.beq_iff type service_type_node_port).1 nodes in
            check_node_ports-apart service taken s
              (subst (λ b. check_ports b service.spec.ports [] ≡ some taken) on collected)
              (subst (λ b. (check_node_ports kv services b taken s).0 ≡ ok tt) on
                (subst (λ s'. (check_node_ports kv services on_nodes taken s').0 ≡ ok tt) same
                  nodes_done)),
      )

  -- Whatever the store answers, a service that `checkTypeAndPorts` accepts comes back as it was but for
  -- its defaults: an empty type is ClusterIP, and the empty protocol of a port is tcp. Its type is
  -- then ClusterIP or NodePort and its ports are in range. If it is NodePort, its node ports differ
  -- from each other and from those of all services with node ports that were read from the store.
  pub check_type_and_ports_sound :
      (service checked : Service) (s : S)
      → (check_type_and_ports kv services service s).0 ≡ ok checked
      → HasDefaults service checked
        × ((checked.spec.type ≡ "ClusterIP") ⊎ (checked.spec.type ≡ "NodePort"))
        × PortsFine (checked.spec.type == "NodePort") service.spec.ports
        × (checked.spec.type ≡ "NodePort"
            → (found : List Service) × ((get_all_services_from_etcd kv services 400 s).0 ≡ ok found)
              × Distinct (node_ports service.spec.ports)
              × NoConflict (node_ports service.spec.ports) found)
  check_type_and_ports_sound service checked s done =
      let (same, known, fine, apart) = check_type_and_ports_ok service checked s done in
      let filled : HasDefaults service checked =
        subst (λ it. HasDefaults service it) (sym same) (with_defaults-HasDefaults service) in
      let typed : default_type service.spec.type ≡ checked.spec.type =
        with_defaults_type service ∙ ap (λ it. it.spec.type) (sym same) in
      let all =
        subst
          (λ type.
            ((type ≡ "ClusterIP") ⊎ (type ≡ "NodePort"))
            × PortsFine (type == "NodePort") service.spec.ports
            × (type ≡ "NodePort"
                → (found : List Service) × ((get_all_services_from_etcd kv services 400 s).0
                    ≡ ok found)
                  × Distinct (node_ports service.spec.ports)
                  × NoConflict (node_ports service.spec.ports) found))
          typed (known, fine, apart) in
      (filled, all.0, all.1, all.2)
