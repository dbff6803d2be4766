-- ===== src/Proxy/Server.antt =====
-- pkg/kubeproxy/app/server.go and pkg/kubeproxy/types: the services and endpoints that the API
-- server shows now, compared with those of the last look. `isEndpointPortsEqual` sorts its arguments
-- in place; here the lists keep their order, as each comparison sorts anew.
pub mod Diff
pub mod Receiver
use mini_k8s.Base.{
  ltb, if◌then◌else◌, ◌==◌, nat_Eq, string_Eq, length, Map, lookup, insert, ℕ, String, Bool, true,
  false, ◌&&◌, ◌||◌, not, Option, none, some, List, [], ◌∷◌, ◌++◌,
}
use mini_k8s.Api.{Uid, Labels, Pod, Container, ContainerPort, Service, ServicePort, pod_running}

pub record EndpointPort : Type 0 where
  pub port : ℕ
  pub protocol : String

pub record Endpoint : Type 0 where
  pub ip : String
  pub ports : List EndpointPort

pub record ServiceAndEndpoints : Type 0 where
  pub service : Service
  pub endpoints : List Endpoint

pub data ServiceOperation : Type 0 where
  service_add service_delete service_endpoints_update : ServiceOperation

pub record ServiceUpdateSingle : Type 0 where
  pub service : Service
  pub endpoint_additions : List Endpoint
  pub endpoint_deletions : List Endpoint

pub record ServiceUpdate : Type 0 where
  pub updates : List ServiceUpdateSingle
  pub op : ServiceOperation

-- `isSelectorMatched`; the labels of a pod without any are nil, where each lookup fails.
unfoldable pub matches_labels : Labels → Labels → Bool
matches_labels labels [] = true
matches_labels labels ((key, value) ∷ selector) =
    let rest = matches_labels labels selector in
    elim (lookup key labels) [ none ↦ false | some label ↦ if label == value then rest else false ]

unfoldable pub labels_of : Pod → Labels
labels_of pod = elim pod.labels [ none ↦ [] | some labels ↦ labels ]

unfoldable pub is_selector_matched : Pod → Service → Bool
unfolding matches_labels labels_of
is_selector_matched pod svc = matches_labels (labels_of pod) svc.spec.selector

-- The two inner loops up to `break SearchLoop`: whether a container exposes the service's port.
unfoldable pub has_container_port : ServicePort → List ContainerPort → Bool
has_container_port port [] = false
has_container_port port (c ∷ cs) =
    (c.container_port == port.target_port && c.protocol == port.protocol)
    || has_container_port port cs

unfoldable pub search_containers : ServicePort → List Container → Bool
unfolding has_container_port
search_containers port [] = false
search_containers port (c ∷ cs) = has_container_port port c.ports || search_containers port cs

-- The ports of an endpoint: the target ports of the service that the pod exposes, in order.
unfoldable pub endpoint_ports : List Container → List ServicePort → List EndpointPort
unfolding search_containers
endpoint_ports containers [] = []
endpoint_ports containers (port ∷ ports) =
    let rest = endpoint_ports containers ports in
    if search_containers port containers
    then record { port = port.target_port; protocol = port.protocol } ∷ rest
    else rest

-- The conditions under which the loop does not `continue`.
unfoldable pub is_backend : Service → Pod → Bool
unfolding is_selector_matched
is_backend svc pod =
    is_selector_matched pod svc
    && (pod.status.phase == pod_running && not (pod.status.pod_ip == ""))

unfoldable pub endpoints_of : Service → List Pod → List Endpoint
unfolding is_backend endpoint_ports
endpoints_of svc [] = []
endpoints_of svc (pod ∷ pods) =
    let rest = endpoints_of svc pods in
    if is_backend svc pod
    then record {
      ip = pod.status.pod_ip;
      ports = endpoint_ports pod.spec.containers svc.spec.ports;
    }
      ∷ rest
    else rest

-- `newMap`
unfoldable pub service_map :
    List Pod → List Service → Map Uid ServiceAndEndpoints → Map Uid ServiceAndEndpoints
unfolding endpoints_of
service_map pods [] m = m
service_map pods (svc ∷ svcs) m =
    service_map pods svcs
      (insert svc.uid (record { service = svc; endpoints = endpoints_of svc pods }) m)

-- `sort.Slice` by port, as an insertion sort. Go's sort may order equal ports otherwise.
unfoldable pub insert_by_port : EndpointPort → List EndpointPort → List EndpointPort
insert_by_port p [] = p ∷ []
insert_by_port p (q ∷ qs) =
    let rest = insert_by_port p qs in if ltb q.port p.port then q ∷ rest else p ∷ q ∷ qs

unfoldable pub sort_ports : List EndpointPort → List EndpointPort
unfolding insert_by_port
sort_ports [] = []
sort_ports (p ∷ ps) = insert_by_port p (sort_ports ps)

-- The last loop of `isEndpointPortsEqual`, over slices of one length.
unfoldable pub same_ports : List EndpointPort → List EndpointPort → Bool
same_ports [] bs = true
same_ports (a ∷ as_) [] = true
same_ports (a ∷ as_) (b ∷ bs) = (a.port == b.port && a.protocol == b.protocol) && same_ports as_ bs

unfoldable pub is_endpoint_ports_equal : List EndpointPort → List EndpointPort → Bool
unfolding sort_ports same_ports
is_endpoint_ports_equal a b =
    if not (length a == length b) then false else same_ports (sort_ports a) (sort_ports b)

-- `ipMap[ep.IP] = ep.Ports`
unfoldable pub ip_map :
    List Endpoint → Map String (List EndpointPort) → Map String (List EndpointPort)
ip_map [] m = m
ip_map (ep ∷ eps) m = ip_map eps (insert ep.ip ep.ports m)

-- What the two loops of `calculateDiff` collect: the flag, the additions and the deletions.
pub record Changes : Type 0 where
  pub diff : Bool
  pub additions : List Endpoint
  pub deletions : List Endpoint

-- One round of the loop over the old addresses.
unfoldable pub diff_old :
    Map String (List EndpointPort) → String → List EndpointPort → Changes → Changes
unfolding is_endpoint_ports_equal
diff_old new_ip_map ip old_ports c = elim (lookup ip new_ip_map) [
  | none ↦ record c {
    diff = true;
    deletions = c.deletions ++ record { ip = ip; ports = old_ports } ∷ [];
  }
  | some new_ports ↦ if is_endpoint_ports_equal old_ports new_ports then c else record {
    diff = true;
    additions = c.additions ++ record { ip = ip; ports = new_ports } ∷ [];
    deletions = c.deletions ++ record { ip = ip; ports = old_ports } ∷ [];
  }
]

unfoldable pub diff_olds :
    Map String (List EndpointPort) → Map String (List EndpointPort) → Changes → Changes
unfolding diff_old
diff_olds new_ip_map [] c = c
diff_olds new_ip_map ((ip, ports) ∷ old) c =
    diff_olds new_ip_map old (diff_old new_ip_map ip ports c)

-- One round of the loop over the new addresses.
unfoldable pub diff_new :
    Map String (List EndpointPort) → String → List EndpointPort → Changes → Changes
diff_new old_ip_map ip new_ports c = elim (lookup ip old_ip_map) [
  | none ↦ record c {
    diff = true;
    additions = c.additions ++ record { ip = ip; ports = new_ports } ∷ [];
  }
  | some _ ↦ c
]

unfoldable pub diff_news :
    Map String (List EndpointPort) → Map String (List EndpointPort) → Changes → Changes
unfolding diff_new
diff_news old_ip_map [] c = c
diff_news old_ip_map ((ip, ports) ∷ new) c =
    diff_news old_ip_map new (diff_new old_ip_map ip ports c)

unfoldable pub old_endpoints : Option ServiceAndEndpoints → List Endpoint
old_endpoints none = []
old_endpoints (some item) = item.endpoints

unfoldable pub is_new : Option ServiceAndEndpoints → Bool
is_new none = true
is_new (some item) = false

unfoldable pub calculate_changes : Bool → List Endpoint → List Endpoint → Changes
unfolding ip_map diff_olds diff_news
calculate_changes diff old new =
    let old_ip_map = ip_map old [] in
    let new_ip_map = ip_map new [] in
    diff_news old_ip_map new_ip_map
      (diff_olds new_ip_map old_ip_map (record { diff = diff; additions = []; deletions = [] }))

unfoldable pub calculate_diff :
    Option ServiceAndEndpoints → ServiceAndEndpoints → Bool × ServiceUpdateSingle × ServiceOperation
unfolding calculate_changes old_endpoints is_new
calculate_diff old_item new_item =
    let c = calculate_changes (is_new old_item) (old_endpoints old_item) new_item.endpoints in
    (
      c.diff,
      record {
        service = new_item.service;
        endpoint_additions = c.additions;
        endpoint_deletions = c.deletions;
      },
      if is_new old_item then service_add else service_endpoints_update,
    )

pub record ProxyServer : Type 0 where
  pub latest : Map Uid ServiceAndEndpoints

-- The services that are gone.
unfoldable pub deleted_services :
    Map Uid ServiceAndEndpoints → Map Uid ServiceAndEndpoints → List ServiceUpdateSingle
deleted_services new_map [] = []
deleted_services new_map ((uid, item) ∷ latest) =
    let rest = deleted_services new_map latest in
    elim (lookup uid new_map) [
      | none ↦
          record { service = item.service; endpoint_additions = []; endpoint_deletions = [] } ∷ rest
      | some _ ↦ rest
    ]

unfoldable pub is_add : ServiceOperation → Bool
is_add service_add = true
is_add _ = false

-- The differences of the services that are there, those of new services only or of the others.
unfoldable pub changed_services :
    Bool → Map Uid ServiceAndEndpoints → Map Uid ServiceAndEndpoints → List ServiceUpdateSingle
unfolding calculate_diff is_add
changed_services added latest [] = []
changed_services added latest ((uid, item) ∷ new_map) =
    let (diff, update, op) = calculate_diff (lookup uid latest) item in
    let rest = changed_services added latest new_map in
    if diff && (if added then is_add op else not (is_add op)) then update ∷ rest else rest

unfoldable pub service_message : ServiceOperation → List ServiceUpdateSingle → List ServiceUpdate
service_message op [] = []
service_message op (u ∷ us) = record { updates = u ∷ us; op = op } ∷ []

-- `none` when the pods or the services could not be read.
unfoldable pub update_service :
    Option (List Pod) → Option (List Service) → ProxyServer → List ServiceUpdate × ProxyServer
unfolding service_map deleted_services changed_services service_message
update_service none services ps = ([], ps)
update_service (some pods) none ps = ([], ps)
update_service (some pods) (some services) ps =
    let new_map = service_map pods services [] in
    (
      service_message service_add (changed_services true ps.latest new_map)
          ++ (service_message service_delete (deleted_services new_map ps.latest)
              ++ service_message service_endpoints_update
                  (changed_services false ps.latest new_map)),
      record { latest = new_map },
    )
