-- ===== src/ApiServer/Services/Ports.antt =====
-- What `checkTypeAndPorts` promises of the ports of a service that it accepts.
use mini_k8s.Base.{
  if◌then◌else◌, string_Eq, nat_Eq, ◌==◌, Bool-cases, member, Distinct, add_member,
  member-add_member, ℕ, ◌≤◌, ◌≡◌, refl, inl, inr, Bool, true, false, ◌||◌, some, List, [], ◌∷◌, map,
  arith,
}
use mini_k8s.Api.{ServicePort, port_min, port_max, node_port_min, node_port_max}
use mini_k8s.ApiServer.Services.{in_range, check_ports}

-- The ports of one service as the code wants them; the node ports count for the type that has them.
abbrev pub PortsFine : Bool → List ServicePort → Type 0
PortsFine on_nodes [] = Unit
PortsFine on_nodes (port ∷ ports) =
    (port_min ≤ port.port)
    × (port.port ≤ port_max)
    × (port_min ≤ port.target_port)
    × (port.target_port ≤ port_max)
    × (on_nodes ≡ true → (node_port_min ≤ port.node_port) × (port.node_port ≤ node_port_max))
    × PortsFine on_nodes ports

abbrev pub node_ports : List ServicePort → List ℕ
node_ports ports = map (λ port. port.node_port) ports

check_ports_steps :
    (on_nodes : Bool) (port : ServicePort) (ports : List ServicePort) (taken taken' : List ℕ)
    → check_ports on_nodes (port ∷ ports) taken ≡ some taken'
    → (port_min ≤ port.port)
      × (port.port ≤ port_max)
      × (port_min ≤ port.target_port)
      × (port.target_port ≤ port_max)
      × (on_nodes ≡ true
          → (node_port_min ≤ port.node_port)
            × (port.node_port ≤ node_port_max)
            × (member port.node_port taken ≡ false))
      × (check_ports on_nodes ports (if on_nodes then add_member port.node_port taken else taken)
          ≡ some taken')
unfolding check_ports in_range
check_ports_steps on_nodes port ports taken taken' h = ground arith

-- The node ports after the loop are those of before and those of the service, each of them once.
abbrev pub Collects : List ServicePort → List ℕ → List ℕ → Type 0
Collects ports taken taken' =
    Distinct (node_ports ports)
    × ((n : ℕ) → member n taken' ≡ (member n taken || member n (node_ports ports)))
    × ((n : ℕ) → member n taken ≡ true → member n (node_ports ports) ≡ false)

pub check_ports-Collects :
    (ports : List ServicePort) (taken taken' : List ℕ)
    → check_ports true ports taken ≡ some taken'
    → Collects ports taken taken'
unfolding check_ports member
check_ports-Collects [] taken taken' h = (tt, ground arith, λ n found. refl)
check_ports-Collects (port ∷ ports) taken taken' h =
    let (_, _, _, _, node, rest) = check_ports_steps true port ports taken taken' h in
    let (distinct, all, apart) =
      check_ports-Collects ports (add_member port.node_port taken) taken' rest in
    let added = λ (n : ℕ). member-add_member n port.node_port taken in
    let unseen = (node refl).2 in
    (
      (ground (arith, added port.node_port, apart port.node_port), distinct),
      λ n. ground (arith, added n, all n),
      λ n found. elim (Bool-cases (port.node_port == n)) [
        | inl same ↦ absurd (ground (arith, same, unseen))
        | inr other ↦ ground (arith, added n, apart n)
      ],
    )

pub check_ports-PortsFine :
    (on_nodes : Bool) (ports : List ServicePort) (taken taken' : List ℕ)
    → check_ports on_nodes ports taken ≡ some taken'
    → PortsFine on_nodes ports
check_ports-PortsFine on_nodes [] taken taken' h = tt
check_ports-PortsFine on_nodes (port ∷ ports) taken taken' h =
    let (a, b, c, d, node, rest) = check_ports_steps on_nodes port ports taken taken' h in
    (
      a,
      b,
      c,
      d,
      λ on. ((node on).0, (node on).1),
      check_ports-PortsFine on_nodes ports
          (if on_nodes then add_member port.node_port taken else taken) taken' rest,
    )
