-- ===== src/Kubelet/PodManager.antt =====
-- pkg/kubelet/pod/pod_manager.go: two maps to the same pods. The lock makes each call one step.
pub mod Agreement
use mini_k8s.Base.{nat_Eq, string_Eq, Map, lookup, insert, erase, String, Option, List, [], map}
use mini_k8s.Api.{Uid, Pod}
use mini_k8s.Kubelet.Types.{pod_full_name}

pub record PodManager : Type 0 where
  pub pod_uid_map : Map Uid Pod
  pub pod_full_name_map : Map String Pod

unfoldable pub new_pod_manager : PodManager
new_pod_manager = record { pod_uid_map = []; pod_full_name_map = [] }

unfoldable pub get_pod_by_full_name : String → PodManager → Option Pod
get_pod_by_full_name name pm = lookup name pm.pod_full_name_map

unfoldable pub get_pod_by_uid : Uid → PodManager → Option Pod
get_pod_by_uid uid pm = lookup uid pm.pod_uid_map

unfoldable pub get_pods : PodManager → List Pod
get_pods pm = map (λ e. e.1) pm.pod_uid_map

unfoldable pub update_pod : Pod → PodManager → PodManager
update_pod pod pm = record {
  pod_uid_map = insert pod.uid pod pm.pod_uid_map;
  pod_full_name_map = insert (pod_full_name pod) pod pm.pod_full_name_map;
}

unfoldable pub delete_pod : Pod → PodManager → PodManager
delete_pod pod pm = record {
  pod_uid_map = erase pod.uid pm.pod_uid_map;
  pod_full_name_map = erase (pod_full_name pod) pm.pod_full_name_map;
}
