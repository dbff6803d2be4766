-- ===== src/ApiServer/Services.antt =====
-- The handlers of services of pkg/kubeapiserver/app/routine.go: a service takes a cluster address
-- from the bitmap of pkg/kubeapiserver/utils/alloc.go and gives it back when it is deleted.
pub mod Addresses
pub mod RoundTrip
pub mod Ports
pub mod Defaults
pub mod Checks
use mini_k8s.Base.{
  leb, if◌then◌else◌, string_Eq, nat_Eq, ◌==◌, ok, err, member, add_member, insert, ℕ, ◌/◌, String,
  Bool, true, false, ◌&&◌, ◌||◌, not, Option, none, some, List, [], ◌∷◌, map,
}
use mini_k8s.Api.{
  Uid, Time, Service, ServicePort, port_min, port_max, node_port_min, node_port_max,
  service_type_cluster_ip, service_type_node_port, protocol_tcp, SidecarServiceNameMapping,
}
use mini_k8s.Alloc.{alloc_ip, free_ip, ip_pool_size}
use mini_k8s.ApiServer.Etcd.{Kv, get}
use mini_k8s.ApiServer.Act.{
  Act, Codec, Reply, ◌>>=◌, ◌>>◌, pure, refuse, or_refuse, require, reply, present, not_found,
  stored, deleted, read_below, decode, encode, decode_all,
}
use mini_k8s.ApiServer.Keys.{service_key, namespace_service_key, ip_bitmap_key, namespace_matches}
use mini_k8s.ApiServer.Bitmaps.{bitmap_text, text_bitmap, zero_bytes}

-- The type of a service, where the empty one stands for a cluster address.
unfoldable pub default_type : String → String
default_type type = if type == "" then service_type_cluster_ip else type

unfoldable pub default_protocol : ServicePort → ServicePort
default_protocol port =
    if port.protocol == "" then record port { protocol = protocol_tcp } else port

unfoldable pub in_range : ℕ → ℕ → ℕ → Bool
in_range low high n = leb low n && leb n high

-- The loop over the ports of a new service: `none` when a port is refused, else `nodePortSet`.
unfoldable pub check_ports : Bool → List ServicePort → List ℕ → Option (List ℕ)
check_ports on_nodes [] taken = some taken
check_ports on_nodes (port ∷ ports) taken =
    let rest =
      check_ports on_nodes ports (if on_nodes then add_member port.node_port taken else taken) in
    if not (in_range port_min port_max port.target_port)
    then none
    else if not (in_range port_min port_max port.port)
    then none
    else if on_nodes && not (in_range node_port_min node_port_max port.node_port)
    then none
    else if on_nodes && member port.node_port taken
    then none
    else rest

-- The inner loop over the ports of a service that is stored.
unfoldable pub has_node_port : List ℕ → List ServicePort → Bool
has_node_port taken [] = false
has_node_port taken (port ∷ ports) = member port.node_port taken || has_node_port taken ports

-- The loop over the services that are stored.
unfoldable pub node_ports_conflict : List ℕ → List Service → Bool
node_ports_conflict taken [] = false
node_ports_conflict taken (service ∷ services) =
    (service.spec.type == service_type_node_port && has_node_port taken service.spec.ports)
    || node_ports_conflict taken services

-- The service with the defaults that `checkTypeAndPorts` fills in.
unfoldable pub with_defaults : Service → Service
with_defaults service = record service {
  spec = record service.spec {
    type = default_type service.spec.type;
    ports = map default_protocol service.spec.ports;
  };
}

unfoldable pub created_service : Service → String → String → Uid → Time → Service
created_service service ip url_namespace new_uid now = record service {
  metadata = record service.metadata {
    namespace = url_namespace;
    uid = new_uid;
    creation_timestamp = now;
  };
  spec = record service.spec { cluster_ip = ip };
}

-- `AllocIP` and what the handler does on its error.
unfoldable pub take_ip : {S : Type 0} → List ℕ → Act S (String × List ℕ)
take_ip bitmap = elim (alloc_ip bitmap) [ err _ ↦ refuse 400 | ok found ↦ pure found ]

unfoldable pub give_ip : {S : Type 0} → String → List ℕ → Act S (List ℕ)
give_ip ip bitmap = elim (free_ip ip bitmap) [ err _ ↦ refuse 500 | ok bitmap' ↦ pure bitmap' ]

module _ {S : Type 0} (kv : Kv S) where
  -- The bitmap under a key; when none is read, a new one of `size` slots is stored there.
  unfoldable pub read_bitmap : String → ℕ → Act S (List ℕ)
  read_bitmap key size s =
      let (found, s') = get kv key s in
      let fresh = zero_bytes (size / 8) in
      let make : Act S (List ℕ) = (do stored kv key (bitmap_text fresh); pure fresh) in
      let made = make s' in
      elim found [
        | none ↦ made
        | some text ↦ if text == "" then made else (ok (text_bitmap text), s')
      ]

module _ {S : Type 0} (kv : Kv S) (services : Codec Service) where
  -- `getAllServicesFromEtcd`, with the status that its caller answers an error with.
  unfoldable pub get_all_services_from_etcd : ℕ → Act S (List Service)
  get_all_services_from_etcd status = do
    res ← read_below kv status "/registry/services"
    decode_all services status res

  -- `GetAllServicesHandler`
  unfoldable pub get_all_services : Act S (Reply (List Service))
  get_all_services = do found ← get_all_services_from_etcd 500; reply 200 found

  -- The last check of `checkTypeAndPorts`, over all services.
  unfoldable pub check_node_ports : Bool → List ℕ → Act S (Unit {0})
  check_node_ports false taken = pure tt
  check_node_ports true taken = do
    found ← get_all_services_from_etcd 400
    require 400 (not (node_ports_conflict taken found))

  -- `checkTypeAndPorts`, each of whose errors is answered with 400.
  unfoldable pub check_type_and_ports : Service → Act S Service
  check_type_and_ports service = do
    let type = default_type service.spec.type
    require 400 (type == service_type_cluster_ip || type == service_type_node_port)
    taken ← or_refuse 400 (check_ports (type == service_type_node_port) service.spec.ports [])
    check_node_ports (type == service_type_node_port) taken
    pure (with_defaults service)

  -- `AddServiceHandler`
  unfoldable pub add_service : Option Service → String → Uid → Time → Act S (Reply Service)
  add_service none url_namespace new_uid now = refuse 400
  add_service (some service) url_namespace new_uid now = do
    require 400 (not (service.name == ""))
    require 400 (service.kind == "Service")
    require 400 (not (url_namespace == ""))
    require 400 (namespace_matches service.namespace url_namespace)
    not_found kv 409 (namespace_service_key url_namespace service.name)
    checked ← check_type_and_ports service
    bitmap ← read_bitmap kv ip_bitmap_key ip_pool_size
    (ip, bitmap') ← take_ip bitmap
    stored kv ip_bitmap_key (bitmap_text bitmap')
    let made = created_service checked ip url_namespace new_uid now
    text ← encode services made
    stored kv (service_key new_uid) text
    stored kv (namespace_service_key url_namespace service.name) new_uid
    reply 201 made

  -- `DeleteServiceHandler`
  unfoldable pub delete_service : String → String → Act S (Reply Service)
  delete_service namespace name = do
    require 400 (not (namespace == "" || name == ""))
    uid ← present kv 404 (namespace_service_key namespace name)
    text ← present kv 500 (service_key uid)
    service ← decode services 500 text
    bits ← present kv 500 ip_bitmap_key
    bitmap ← give_ip service.spec.cluster_ip (text_bitmap bits)
    stored kv ip_bitmap_key (bitmap_text bitmap)
    deleted kv (namespace_service_key namespace name)
    deleted kv (service_key uid)
    reply 200 service

  -- The loop of `GetSidecarServiceNameMapping`.
  unfoldable pub service_name_mapping :
      List Service → SidecarServiceNameMapping → SidecarServiceNameMapping
  service_name_mapping [] mapping = mapping
  service_name_mapping (service ∷ more) mapping =
      service_name_mapping more (insert service.name service.spec.cluster_ip mapping)

  -- `GetSidecarServiceNameMapping`
  unfoldable pub get_sidecar_service_name_mapping : Act S (Reply SidecarServiceNameMapping)
  get_sidecar_service_name_mapping = do
    found ← get_all_services_from_etcd 500
    reply 200 (service_name_mapping found [])
