-- ===== src/ApiServer/Keys.antt =====
-- The keys of the objects in the store, as the handlers of pkg/kubeapiserver/app/routine.go build
-- them: an object stands under its uid, and a namespace maps the name of an object to its uid.
pub mod Apart
use mini_k8s.Base.{if◌then◌else◌, string_Eq, nat_Eq, ◌==◌, String, Bool}
use mini_k8s.Alloc.Decimal.{append}

abbrev pub default_namespace : String
default_namespace = "default"

-- `"/registry/namespaces/%s" + infix + "%s"`
unfoldable pub namespaced : String → String → String → String
namespaced infix' namespace name =
    append "/registry/namespaces/" (append namespace (append infix' name))

abbrev pub pod_key : String → String
pod_key uid = append "/registry/pods/" uid

abbrev pub namespace_pod_key : String → String → String
namespace_pod_key = namespaced "/pods/"

-- The prefix of the names of the pods of a namespace.
abbrev pub namespace_pods_key : String → String
namespace_pods_key namespace = append "/registry/namespaces/" (append namespace "/pods")

abbrev pub service_key : String → String
service_key uid = append "/registry/services/" uid

abbrev pub namespace_service_key : String → String → String
namespace_service_key = namespaced "/services/"

abbrev pub dns_key : String → String
dns_key uid = append "/registry/dns/" uid

abbrev pub namespace_dns_key : String → String → String
namespace_dns_key = namespaced "/dns/"

abbrev pub node_key : String → String
node_key uid = append "/registry/nodes/" uid

abbrev pub namespace_node_key : String → String → String
namespace_node_key = namespaced "/nodes/"

-- The prefix of the pods that run on a node.
abbrev pub node_pods_key : String → String
node_pods_key node = append "/registry/host-nodes/" (append node "/pods")

abbrev pub scheduled_key : String → String → String → String
scheduled_key node namespace name =
    append "/registry/host-nodes/"
      (append node (append "/pods/" (append namespace (append "_" name))))

abbrev pub replica_set_key : String → String
replica_set_key uid = append "/registry/replicaset/" uid

abbrev pub namespace_replica_set_key : String → String → String
namespace_replica_set_key = namespaced "/replicasets/"

abbrev pub scaling_key : String → String
scaling_key uid = append "/registry/scaling/" uid

abbrev pub namespace_scaling_key : String → String → String
namespace_scaling_key = namespaced "/scaling/"

abbrev pub virtual_service_key : String → String
virtual_service_key uid = append "/registry/virtualservices/" uid

abbrev pub namespace_virtual_service_key : String → String → String
namespace_virtual_service_key = namespaced "/virtualservices/"

abbrev pub subset_key : String → String
subset_key uid = append "/registry/subsets/" uid

abbrev pub namespace_subset_key : String → String → String
namespace_subset_key = namespaced "/subsets/"

abbrev pub rolling_update_key : String → String
rolling_update_key uid = append "/registry/rollingupdates/" uid

abbrev pub namespace_rolling_update_key : String → String → String
namespace_rolling_update_key = namespaced "/rollingupdates/"

abbrev pub ip_bitmap_key : String
ip_bitmap_key = "/registry/IPPool/bitmap"

abbrev pub node_bitmap_key : String
node_bitmap_key = "/registry/NodePool/bitmap"

abbrev pub hosts_key : String
hosts_key = "/registry/hosts"

abbrev pub sidecar_mapping_key : String
sidecar_mapping_key = "/registry/sidecar-mapping"

-- An object without a namespace is one of the default namespace; else the URL must name its own.
unfoldable pub namespace_matches : String → String → Bool
namespace_matches own url = if own == "" then url == default_namespace else own == url
