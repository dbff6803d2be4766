-- ===== src/Kubelet/Types.antt =====
-- pkg/kubelet/types and pkg/kubelet/utils, and the runtime's view of pods (pkg/kubelet/runtime).
use Prim.Native.String.{◌++◌ as append_text}
use mini_k8s.Base.{ℕ, String, List}
use mini_k8s.Api.{Uid, Time, Pod}

pub data SyncPodType : Type 0 where
  sync_pod_create sync_pod_update sync_pod_kill sync_pod_sync sync_pod_recreate : SyncPodType

pub data PodOperation : Type 0 where
  add delete update : PodOperation

pub record PodUpdate : Type 0 where
  pub pods : List Pod
  pub op : PodOperation

-- `GetPodFullName`
unfoldable pub pod_full_name : Pod → String
pod_full_name pod = append_text (append_text pod.name "_") pod.namespace

pub data ContainerState : Type 0 where
  created running exited unknown : ContainerState

-- `runtime.Container` and `runtime.Pod`
pub record RuntimeContainer : Type 0 where
  pub id : String
  pub name : String
  pub image : String
  pub state : ContainerState

pub record RuntimePod : Type 0 where
  pub id : Uid
  pub name : String
  pub namespace : String
  pub created_at : ℕ
  pub containers : List RuntimeContainer

-- Times, the image and the resources of a container are not read.
pub record ContainerStatus : Type 0 where
  pub id : String
  pub name : String
  pub state : ContainerState
  pub exit_code : ℕ

pub record RuntimePodStatus : Type 0 where
  pub id : Uid
  pub name : String
  pub namespace : String
  pub ips : List String
  pub container_statuses : List ContainerStatus
  pub time_stamp : Time
