-- ===== src/ApiServer/Mesh.antt =====
-- The handlers of virtual services, subsets and the sidecar mapping of
-- pkg/kubeapiserver/app/routine.go.
use mini_k8s.Base.{
  if◌then◌else◌, string_Eq, nat_Eq, ◌==◌, ℕ, String, Bool, true, false, ◌&&◌, ◌||◌, not, Option,
  none, some, List, [], ◌∷◌,
}
use mini_k8s.Api.{
  Uid, Time, Service, ServicePort, protocol_tcp, VirtualService, VirtualServiceSubset, SubsetObject,
  SidecarMapping,
}
use mini_k8s.ApiServer.Etcd.{Kv}
use mini_k8s.ApiServer.Act.{
  Act, Codec, Reply, ◌>>=◌, ◌>>◌, pure, refuse, require, reply, present, not_found, readable,
  text_or_empty, stored, deleted, read_below, decode, decode_anyway, encode_anyway, decode_all,
}
use mini_k8s.ApiServer.Keys.{
  service_key, namespace_service_key, namespace_pod_key, virtual_service_key,
  namespace_virtual_service_key, subset_key, namespace_subset_key, sidecar_mapping_key,
  namespace_matches,
}

-- `validateVirtualService`: whether there is no error.
unfoldable pub validate_virtual_service : VirtualService → String → Bool
validate_virtual_service vs url_namespace =
    not (vs.name == "")
    && namespace_matches vs.namespace url_namespace
    && vs.kind == "VirtualService"

-- `validateSubset`
unfoldable pub validate_subset : SubsetObject → String → Bool
validate_subset subset url_namespace =
    not (subset.name == "")
    && namespace_matches subset.namespace url_namespace
    && subset.kind == "Subset"

unfoldable pub has_tcp_port : ℕ → List ServicePort → Bool
has_tcp_port n [] = false
has_tcp_port n (port ∷ ports) =
    (port.port == n && port.protocol == protocol_tcp) || has_tcp_port n ports

-- `!(subset.URL == nil && subset.Weight == nil)`
unfoldable pub has_rule : VirtualServiceSubset → Bool
has_rule subset = elim subset.url [
  | some _ ↦ true
  | none ↦ elim subset.weight [ some _ ↦ true | none ↦ false ]
]

unfoldable pub created_virtual_service : VirtualService → String → Uid → Time → VirtualService
created_virtual_service vs url_namespace new_uid now = record vs {
  metadata = record vs.metadata {
    namespace = url_namespace;
    uid = new_uid;
    creation_timestamp = now;
  };
}

unfoldable pub created_subset : SubsetObject → String → Uid → Time → SubsetObject
created_subset subset url_namespace new_uid now = record subset {
  metadata = record subset.metadata {
    namespace = url_namespace;
    uid = new_uid;
    creation_timestamp = now;
  };
}

module _ {S : Type 0} (kv : Kv S) (services : Codec Service) (meshes : Codec VirtualService) where
  -- The loop of `AddVirtualServiceHandler` over the subsets.
  unfoldable pub check_subsets : String → List VirtualServiceSubset → Act S (Unit {0})
  check_subsets namespace [] = pure tt
  check_subsets namespace (subset ∷ subsets) = do
    present kv 400 (namespace_subset_key namespace subset.name)
    require 400 (has_rule subset)
    check_subsets namespace subsets

  -- `AddVirtualServiceHandler`
  unfoldable pub add_virtual_service :
      Option VirtualService → String → Uid → Time → Act S (Reply VirtualService)
  add_virtual_service none url_namespace new_uid now = refuse 400
  add_virtual_service (some vs) url_namespace new_uid now = do
    require 400 (not (url_namespace == ""))
    require 400 (validate_virtual_service vs url_namespace)
    not_found kv 409 (namespace_virtual_service_key url_namespace vs.name)
    service_uid ← present kv 400 (namespace_service_key url_namespace vs.spec.service_ref)
    service_text ← present kv 500 (service_key service_uid)
    require 400 (has_tcp_port vs.spec.port (decode_anyway services service_text).spec.ports)
    check_subsets url_namespace vs.spec.subsets
    let made = created_virtual_service vs url_namespace new_uid now
    stored kv (namespace_virtual_service_key url_namespace vs.name) new_uid
    stored kv (virtual_service_key new_uid) (encode_anyway meshes made)
    reply 201 made

  -- `DeleteVirtualServiceHandler`
  unfoldable pub delete_virtual_service : String → String → Act S (Reply VirtualService)
  delete_virtual_service namespace name = do
    require 400 (not (namespace == "" || name == ""))
    uid ← present kv 404 (namespace_virtual_service_key namespace name)
    text ← text_or_empty kv (virtual_service_key uid)
    deleted kv (namespace_virtual_service_key namespace name)
    deleted kv (virtual_service_key uid)
    reply 200 (decode_anyway meshes text)

  -- `GetAllVirtualServicesHandler`
  unfoldable pub get_all_virtual_services : Act S (Reply (List VirtualService))
  get_all_virtual_services = do
    res ← read_below kv 500 "/registry/virtualservices"
    found ← decode_all meshes 500 res
    reply 200 found

module _ {S : Type 0} (kv : Kv S) (subsets : Codec SubsetObject) where
  -- The uid of the subset: that of the one it replaces, or the new one. An error of the read counts
  -- as a name that is free.
  unfoldable pub subset_uid : String → Uid → Act S Uid
  subset_uid key new_uid = do old ← text_or_empty kv key; pure (if old == "" then new_uid else old)

  -- The loop of `AddSubsetHandler` over the names of the pods.
  unfoldable pub check_pods : String → List String → Act S (Unit {0})
  check_pods namespace [] = pure tt
  check_pods namespace (name ∷ names) = do
    present kv 400 (namespace_pod_key namespace name)
    check_pods namespace names

  -- `AddSubsetHandler`
  unfoldable pub add_subset : Option SubsetObject → String → Uid → Time → Act S (Reply SubsetObject)
  add_subset none url_namespace new_uid now = refuse 400
  add_subset (some subset) url_namespace new_uid now = do
    require 400 (not (url_namespace == ""))
    require 400 (validate_subset subset url_namespace)
    uid ← subset_uid (namespace_subset_key url_namespace subset.name) new_uid
    check_pods url_namespace subset.pods
    let made = created_subset subset url_namespace uid now
    stored kv (namespace_subset_key url_namespace subset.name) uid
    stored kv (subset_key uid) (encode_anyway subsets made)
    reply 201 made

  -- `GetAllSubsetsHandler`
  unfoldable pub get_all_subsets : Act S (Reply (List SubsetObject))
  get_all_subsets = do
    res ← read_below kv 500 "/registry/subsets"
    found ← decode_all subsets 500 res
    reply 200 found

  -- `GetSubsetHandler`
  unfoldable pub get_subset : String → String → Act S (Reply SubsetObject)
  get_subset namespace name = do
    require 400 (not (namespace == "" || name == ""))
    uid ← present kv 404 (namespace_subset_key namespace name)
    text ← text_or_empty kv (subset_key uid)
    reply 200 (decode_anyway subsets text)

  -- `DeleteSubsetHandler`
  unfoldable pub delete_subset : String → String → Act S (Reply SubsetObject)
  delete_subset namespace name = do
    require 400 (not (namespace == "" || name == ""))
    uid ← present kv 404 (namespace_subset_key namespace name)
    text ← text_or_empty kv (subset_key uid)
    deleted kv (namespace_subset_key namespace name)
    deleted kv (subset_key uid)
    reply 200 (decode_anyway subsets text)

module _ {S : Type 0} (kv : Kv S) (mappings : Codec SidecarMapping) where
  -- `SaveSidecarMapping`
  unfoldable pub save_sidecar_mapping : Option SidecarMapping → Act S (Reply (Unit {0}))
  save_sidecar_mapping none = refuse 400
  save_sidecar_mapping (some mapping) = do
    stored kv sidecar_mapping_key (encode_anyway mappings mapping)
    reply 200 tt

  -- `GetSidecarMapping`
  unfoldable pub get_sidecar_mapping : Act S (Reply SidecarMapping)
  get_sidecar_mapping = do
    text ← readable kv 500 sidecar_mapping_key
    mapping ← decode mappings 500 (if text == "" then "{}" else text)
    reply 200 mapping
