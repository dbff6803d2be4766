-- ===== src/Kubelet/Sync.antt =====
-- pkg/kubelet/kubelet.go: what the main loop does with an event, and what a pod worker asks of the
-- runtime and of the API server. The calls are values; the metrics tick and the logging are left
-- out, and `sort.Slice` is an insertion sort.
pub mod Handlers
use mini_k8s.Base.{
  ltb, if◌then◌else◌, ◌==◌, nat_Eq, string_Eq, Bool, true, false, ◌&&◌, Option, none, some, List,
  [], ◌∷◌, ◌++◌,
}
use mini_k8s.Api.{Uid, Time, Pod, PodStatus, restart_policy_always}
use mini_k8s.Kubelet.Types.{
  SyncPodType, sync_pod_create, sync_pod_update, sync_pod_kill, sync_pod_sync, sync_pod_recreate,
  PodOperation, add, delete, update, PodUpdate, RuntimePodStatus,
}
use mini_k8s.Kubelet.PodManager.{PodManager}
use mini_k8s.Kubelet.PodManager
use mini_k8s.Kubelet.Pleg.{PodLifecycleEvent, EventType, container_died}
use mini_k8s.Kubelet.Status.{compute_api_status}

-- A call of `podWorkers.UpdatePod`.
pub record Request : Type 0 where
  pub pod : Pod
  pub sync_pod_type : SyncPodType

-- `requests` are the calls of `podWorkers.UpdatePod` so far, oldest first.
pub record Kubelet : Type 0 where
  pub pod_manager : PodManager
  pub requests : List Request

unfoldable pub request : Pod → SyncPodType → Kubelet → Kubelet
request pod type kl = record kl {
  requests = kl.requests ++ record { pod = pod; sync_pod_type = type } ∷ [];
}

-- `SortPodsByCreationTime`
unfoldable pub insert_by_time : Pod → List Pod → List Pod
insert_by_time p [] = p ∷ []
insert_by_time p (q ∷ qs) =
    let rest = insert_by_time p qs in
    if ltb q.creation_timestamp p.creation_timestamp then q ∷ rest else p ∷ q ∷ qs

unfoldable pub sort_pods_by_creation_time : List Pod → List Pod
unfolding insert_by_time
sort_pods_by_creation_time [] = []
sort_pods_by_creation_time (p ∷ ps) = insert_by_time p (sort_pods_by_creation_time ps)

unfoldable pub add_pods : List Pod → Kubelet → Kubelet
unfolding request PodManager.update_pod
add_pods [] kl = kl
add_pods (pod ∷ pods) kl = add_pods pods (
    request pod sync_pod_create
      (record kl { pod_manager = PodManager.update_pod pod kl.pod_manager }))

unfoldable pub handle_pod_additions : List Pod → Kubelet → Kubelet
unfolding add_pods sort_pods_by_creation_time
handle_pod_additions pods kl = add_pods (sort_pods_by_creation_time pods) kl

unfoldable pub handle_pod_deletions : List Pod → Kubelet → Kubelet
unfolding request PodManager.delete_pod
handle_pod_deletions [] kl = kl
handle_pod_deletions (pod ∷ pods) kl = handle_pod_deletions pods (
    request pod sync_pod_kill
      (record kl { pod_manager = PodManager.delete_pod pod kl.pod_manager }))

unfoldable pub is_died : EventType → Bool
is_died container_died = true
is_died _ = false

unfoldable pub handle_pod_lifecycle_event : Pod → PodLifecycleEvent → Kubelet → Kubelet
unfolding request is_died
handle_pod_lifecycle_event pod e kl =
    if is_died e.type && pod.spec.restart_policy == restart_policy_always
    then request pod sync_pod_recreate kl
    else request pod sync_pod_sync kl

-- What the `select` of `syncLoopIteration` can receive, but for the tick of the metrics.
pub data LoopEvent : Type 0 where
  config : PodUpdate → LoopEvent
  config_closed : LoopEvent
  lifecycle : PodLifecycleEvent → LoopEvent
  done : LoopEvent

-- Whether the loop goes on, and the kubelet after the event.
unfoldable pub sync_loop_iteration : LoopEvent → Kubelet → Bool × Kubelet
unfolding handle_pod_additions handle_pod_deletions handle_pod_lifecycle_event
    PodManager.get_pod_by_uid
sync_loop_iteration (config u) kl = elim u.op [
  | add ↦ (true, handle_pod_additions u.pods kl)
  | delete ↦ (true, handle_pod_deletions u.pods kl)
  | update ↦ (true, kl)
]
sync_loop_iteration config_closed kl = (false, kl)
sync_loop_iteration (lifecycle e) kl = elim (PodManager.get_pod_by_uid e.pod_id kl.pod_manager) [
  | none ↦ (true, kl)
  | some pod ↦ (true, handle_pod_lifecycle_event pod e kl)
]
sync_loop_iteration done kl = (false, kl)

-- `for { if !iteration { break } }`, over the events that arrive.
unfoldable pub sync_loop : List LoopEvent → Kubelet → Kubelet
unfolding sync_loop_iteration
sync_loop [] kl = kl
sync_loop (e ∷ es) kl =
    let (goes_on, kl') = sync_loop_iteration e kl in
    elim goes_on [ true ↦ sync_loop es kl' | false ↦ kl' ]

-- The call that `SyncPod` makes, if it makes one.
pub data SyncEffect : Type 0 where
  add_pod restart_pod : Pod → SyncEffect
  delete_pod : Uid → SyncEffect
  update_pod_status : Pod → PodStatus → SyncEffect

unfoldable pub sync_pod : Pod → SyncPodType → Option RuntimePodStatus → Option SyncEffect
unfolding compute_api_status
sync_pod pod sync_pod_create status = some (add_pod pod)
sync_pod pod sync_pod_sync none = none
sync_pod pod sync_pod_sync (some status) = elim (compute_api_status pod status) [
  | none ↦ none
  | some api_status ↦ some (update_pod_status pod api_status)
]
sync_pod pod sync_pod_kill status = some (delete_pod pod.uid)
sync_pod pod sync_pod_recreate status = some (restart_pod pod)
sync_pod pod sync_pod_update status = none
