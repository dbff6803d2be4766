-- ===== src/Api.antt =====
-- The API objects of pkg/api/v1/types.go and replicaset.go that the modelled code reads. String
-- types with named constants stay strings, since the API accepts any text. Fields that no
-- modelled code reads (volumes, commands, resources) are left out.
-- A time is the number of nanoseconds since a fixed instant.
use mini_k8s.Base.Ints.{ℤ}
use mini_k8s.Base.{string_Eq, nat_Eq, Map, lookup, ℕ, String, Option, none, some, List}

abbrev pub Uid : Type 0
Uid = String

abbrev pub Time : Type 0
Time = ℕ

-- `map[string]string`; a nil map is `none` where the code asks for it.
abbrev pub Labels : Type 0
Labels = Map String String

abbrev pub pod_pending : String
pod_pending = "Pending"

abbrev pub pod_running : String
pod_running = "Running"

abbrev pub pod_succeeded : String
pod_succeeded = "Succeeded"

abbrev pub pod_failed : String
pod_failed = "Failed"

abbrev pub restart_policy_always : String
restart_policy_always = "Always"

pub record ObjectMeta : Type 0 where
  pub name : String
  pub namespace : String
  pub uid : Uid
  pub creation_timestamp : Time
  pub labels : Option Labels

-- `int32` ports are compared for equality, checked against bounds above zero and cut to `uint16`.
pub record ContainerPort : Type 0 where
  pub container_port : ℕ
  pub protocol : String

pub record Container : Type 0 where
  pub name : String
  pub image : String
  pub ports : List ContainerPort

pub record PodStatus : Type 0 where
  pub phase : String
  pub pod_ip : String

pub record PodSpec : Type 0 where
  pub containers : List Container
  pub restart_policy : String

pub record Pod : Type 0 where
  pub kind : String
  pub metadata : ObjectMeta
  pub open metadata use *
  pub spec : PodSpec
  pub status : PodStatus

pub record ServicePort : Type 0 where
  pub name : String
  pub protocol : String
  pub port : ℕ
  pub target_port : ℕ
  pub node_port : ℕ

pub record ServiceSpec : Type 0 where
  pub type : String
  pub ports : List ServicePort
  pub selector : Labels
  pub cluster_ip : String

pub record Service : Type 0 where
  pub kind : String
  pub metadata : ObjectMeta
  pub open metadata use *
  pub spec : ServiceSpec

-- `selector` is a pointer, nil when the object names none.
pub record ReplicaSetSpec : Type 0 where
  pub replicas : ℤ
  pub selector : Option Labels
  pub template_metadata : ObjectMeta
  pub template_spec : PodSpec

pub record ReplicaSet : Type 0 where
  pub metadata : ObjectMeta
  pub open metadata use *
  pub spec : ReplicaSetSpec

pub record Node : Type 0 where
  pub metadata : ObjectMeta
  pub open metadata use *
  pub address : String

-- `m[k]` on a map of strings: the empty text where the key is missing.
pub label_or_empty : String → Labels → String
label_or_empty k labels = elim (lookup k labels) [ none ↦ "" | some v ↦ v ]

abbrev pub port_min : ℕ
port_min = 1

abbrev pub port_max : ℕ
port_max = 65535

abbrev pub node_port_min : ℕ
node_port_min = 30000

abbrev pub node_port_max : ℕ
node_port_max = 32767

abbrev pub service_type_cluster_ip : String
service_type_cluster_ip = "ClusterIP"

abbrev pub service_type_node_port : String
service_type_node_port = "NodePort"

abbrev pub protocol_tcp : String
protocol_tcp = "tcp"

pub record DnsServiceBackend : Type 0 where
  pub name : String
  pub port : ℕ

pub record DnsPath : Type 0 where
  pub path : String
  pub service : DnsServiceBackend

pub record DnsRule : Type 0 where
  pub host : String
  pub paths : List DnsPath

pub record Dns : Type 0 where
  pub kind : String
  pub metadata : ObjectMeta
  pub open metadata use *
  pub rules : List DnsRule

-- `Weight` and `URL` are pointers.
pub record VirtualServiceSubset : Type 0 where
  pub name : String
  pub weight : Option ℤ
  pub url : Option String

pub record VirtualServiceSpec : Type 0 where
  pub service_ref : String
  pub port : ℕ
  pub subsets : List VirtualServiceSubset

pub record VirtualService : Type 0 where
  pub kind : String
  pub metadata : ObjectMeta
  pub open metadata use *
  pub spec : VirtualServiceSpec

pub record SubsetObject : Type 0 where
  pub kind : String
  pub metadata : ObjectMeta
  pub open metadata use *
  pub pods : List String

abbrev pub rolling_update_pending : String
rolling_update_pending = "Pending"

pub record RollingUpdateSpec : Type 0 where
  pub service_ref : String
  pub port : ℕ
  pub minimum_alive : ℤ
  pub interval : ℕ
  pub new_pod_spec : PodSpec

pub record RollingUpdateStatus : Type 0 where
  pub phase : String

pub record RollingUpdate : Type 0 where
  pub metadata : ObjectMeta
  pub open metadata use *
  pub spec : RollingUpdateSpec
  pub status : RollingUpdateStatus

pub record SingleEndpoint : Type 0 where
  pub ip : String
  pub target_port : ℕ

pub record SidecarEndpoints : Type 0 where
  pub weight : Option ℤ
  pub url : Option String
  pub endpoints : List SingleEndpoint

abbrev pub SidecarMapping : Type 0
SidecarMapping = Map String (List SidecarEndpoints)

abbrev pub SidecarServiceNameMapping : Type 0
SidecarServiceNameMapping = Map String String
