-- ===== src/Kubelet/Sync/Handlers.antt =====
-- What the main loop asks of the pod workers.
use mini_k8s.Base.{
  ◌==◌, nat_Eq, string_Eq, Bool-cases, Option-cases, has, lookup-has, has-insert, has-erase, ◌≡◌,
  refl, inl, inr, Bool, true, false, ◌&&◌, ◌||◌, not, some, List, [], ◌∷◌, ◌++◌, arith,
}
use mini_k8s.Api.{Uid, Pod, restart_policy_always}
use mini_k8s.Kubelet.Types.{
  SyncPodType, sync_pod_create, sync_pod_kill, sync_pod_sync, sync_pod_recreate, PodOperation, add,
  delete, update,
}
use mini_k8s.Kubelet.PodManager
use mini_k8s.Kubelet.PodManager.Agreement.{get_pod_by_uid-update_pod, get_pod_by_uid-delete_pod}
use mini_k8s.Kubelet.PodManager.{PodManager}
use mini_k8s.Kubelet.Pleg.{PodLifecycleEvent}
use mini_k8s.Kubelet.Sync.{
  Request, Kubelet, request, add_pods, sort_pods_by_creation_time, handle_pod_additions,
  handle_pod_deletions, handle_pod_lifecycle_event, is_died, LoopEvent, config, config_closed,
  lifecycle, done, sync_loop_iteration, sync_loop,
}

-- Whether a pod is live after a request, if `before` tells whether it was: a creation makes it so,
-- a kill ends it.
unfoldable pub live_after : Request → Uid → Bool → Bool
live_after r uid before = elim r.sync_pod_type [
  | sync_pod_create ↦ r.pod.uid == uid || before
  | sync_pod_kill ↦ not (r.pod.uid == uid) && before
  | _ ↦ before
]

unfoldable pub live : Uid → List Request → Bool → Bool
live uid [] before = before
live uid (r ∷ rs) before = live uid rs (live_after r uid before)

-- A request other than a creation and a kill is for a pod that is live.
unfoldable pub is_due : Request → Bool → Bool
is_due r alive = elim r.sync_pod_type [ sync_pod_create ↦ true | sync_pod_kill ↦ true | _ ↦ alive ]

-- So for each request, at its place.
unfoldable pub all_due : List Request → (Uid → Bool) → Bool
all_due [] known = true
all_due (r ∷ rs) known =
    is_due r (known r.pod.uid) && all_due rs (λ uid. live_after r uid (known uid))

live-append :
    (uid : Uid) (rs : List Request) (r : Request) (b : Bool)
    → live uid (rs ++ r ∷ []) b ≡ live_after r uid (live uid rs b)
unfolding live
live-append uid [] r b = refl
live-append uid (x ∷ rs) r b = live-append uid rs r (live_after x uid b)

all_due-append :
    (rs : List Request) (r : Request) (known : Uid → Bool)
    → all_due (rs ++ r ∷ []) known
      ≡ (all_due rs known && is_due r (live r.pod.uid rs (known r.pod.uid)))
unfolding all_due live
all_due-append [] r known = ground arith
all_due-append (x ∷ rs) r known =
    ground (arith, all_due-append rs r (λ uid. live_after x uid (known uid)))

-- The pods of the manager stand under their uids and are those that the requests left live, and
-- each request came at a time when it was due.
pub record IsOrderly (kl : Kubelet) : Type 0 where
  pub keyed :
      (uid : Uid) (pod : Pod)
      → PodManager.get_pod_by_uid uid kl.pod_manager ≡ some pod
      → pod.uid ≡ uid
  pub known : (uid : Uid) → has uid kl.pod_manager.pod_uid_map ≡ live uid kl.requests false
  pub due : all_due kl.requests (λ uid. false) ≡ true

-- One step of a handler: the manager and the request that goes with it.
request-IsOrderly :
    (kl : Kubelet) (pm : PodManager) (pod : Pod) (t : SyncPodType)
    → IsOrderly kl
    → ((uid : Uid) (p : Pod) → PodManager.get_pod_by_uid uid pm ≡ some p → p.uid ≡ uid)
    → ((uid : Uid)
        → has uid pm.pod_uid_map
          ≡ live_after
              (record { pod = pod; sync_pod_type = t })
              uid
              (has uid kl.pod_manager.pod_uid_map))
    → is_due (record { pod = pod; sync_pod_type = t }) (has pod.uid kl.pod_manager.pod_uid_map)
      ≡ true
    → IsOrderly (request pod t (record kl { pod_manager = pm }))
unfolding request
request-IsOrderly kl pm pod t v keyed known due =
    let r : Request = record { pod = pod; sync_pod_type = t } in
    record {
      keyed = keyed;
      known = λ uid. ground (arith, known uid, v.known uid, live-append uid kl.requests r false);
      due =
          ground (arith, v.due, due, v.known pod.uid, all_due-append kl.requests r (λ uid. false));
    }

update_pod-keyed :
    (kl : Kubelet) (pod : Pod)
    → IsOrderly kl
    → (uid : Uid) (p : Pod)
    → PodManager.get_pod_by_uid uid (PodManager.update_pod pod kl.pod_manager) ≡ some p
    → p.uid ≡ uid
update_pod-keyed kl pod v uid p h = ground (
  arith,
  v.keyed uid p,
  get_pod_by_uid-update_pod uid pod kl.pod_manager,
  string_Eq.beq_iff pod.uid uid,
)

delete_pod-keyed :
    (kl : Kubelet) (pod : Pod)
    → IsOrderly kl
    → (uid : Uid) (p : Pod)
    → PodManager.get_pod_by_uid uid (PodManager.delete_pod pod kl.pod_manager) ≡ some p
    → p.uid ≡ uid
delete_pod-keyed kl pod v uid p h =
    ground (arith, v.keyed uid p, get_pod_by_uid-delete_pod uid pod kl.pod_manager)

add_pods-IsOrderly : (pods : List Pod) (kl : Kubelet) → IsOrderly kl → IsOrderly (add_pods pods kl)
unfolding add_pods PodManager.update_pod live_after is_due
add_pods-IsOrderly [] kl v = v
add_pods-IsOrderly (pod ∷ pods) kl v = add_pods-IsOrderly pods _ (
    request-IsOrderly kl (PodManager.update_pod pod kl.pod_manager) pod sync_pod_create v
      (update_pod-keyed kl pod v) (λ uid. has-insert pod.uid uid pod kl.pod_manager.pod_uid_map)
      refl)

handle_pod_deletions-IsOrderly :
    (pods : List Pod) (kl : Kubelet) → IsOrderly kl → IsOrderly (handle_pod_deletions pods kl)
unfolding handle_pod_deletions PodManager.delete_pod live_after is_due
handle_pod_deletions-IsOrderly [] kl v = v
handle_pod_deletions-IsOrderly (pod ∷ pods) kl v = handle_pod_deletions-IsOrderly pods _ (
    request-IsOrderly kl (PodManager.delete_pod pod kl.pod_manager) pod sync_pod_kill v
      (delete_pod-keyed kl pod v) (λ uid. has-erase pod.uid uid kl.pod_manager.pod_uid_map) refl)

-- The manager knows the pod that an event is handled for.
found-has :
    (kl : Kubelet) (uid : Uid) (pod : Pod)
    → IsOrderly kl
    → PodManager.get_pod_by_uid uid kl.pod_manager ≡ some pod
    → has pod.uid kl.pod_manager.pod_uid_map ≡ true
unfolding PodManager.get_pod_by_uid
found-has kl uid pod v h =
    ground (arith, v.keyed uid pod h, lookup-has uid kl.pod_manager.pod_uid_map)

handle_pod_lifecycle_event-IsOrderly :
    (kl : Kubelet) (pod : Pod) (e : PodLifecycleEvent)
    → IsOrderly kl
    → has pod.uid kl.pod_manager.pod_uid_map ≡ true
    → IsOrderly (handle_pod_lifecycle_event pod e kl)
unfolding handle_pod_lifecycle_event live_after is_due
handle_pod_lifecycle_event-IsOrderly kl pod e v alive =
    elim (Bool-cases (is_died e.type && pod.spec.restart_policy == restart_policy_always)) [
      | inl restarts ↦
          rw restarts (
            request-IsOrderly kl kl.pod_manager pod sync_pod_recreate v v.keyed (λ uid. refl) alive)
      | inr syncs ↦
          rw syncs
            (request-IsOrderly kl kl.pod_manager pod sync_pod_sync v v.keyed (λ uid. refl) alive)
    ]

sync_loop_iteration-IsOrderly :
    (e : LoopEvent) (kl : Kubelet) → IsOrderly kl → IsOrderly (sync_loop_iteration e kl).1
unfolding sync_loop_iteration handle_pod_additions
sync_loop_iteration-IsOrderly (config u) kl v = config-IsOrderly u.op refl
  where
    config-IsOrderly :
        (op : PodOperation) → u.op ≡ op → IsOrderly (sync_loop_iteration (config u) kl).1
    config-IsOrderly add h =
        rw (h, sync_loop_iteration) (add_pods-IsOrderly (sort_pods_by_creation_time u.pods) kl v)
    config-IsOrderly delete h =
        rw (h, sync_loop_iteration) (handle_pod_deletions-IsOrderly u.pods kl v)
    config-IsOrderly update h = rw (h, sync_loop_iteration) v
sync_loop_iteration-IsOrderly config_closed kl v = v
sync_loop_iteration-IsOrderly done kl v = v
sync_loop_iteration-IsOrderly (lifecycle e) kl v =
    elim (Option-cases (PodManager.get_pod_by_uid e.pod_id kl.pod_manager)) [
      | inl missing ↦ rw (missing, sync_loop_iteration) v
      | inr (pod, present) ↦
          rw (present, sync_loop_iteration)
            (handle_pod_lifecycle_event-IsOrderly kl pod e v (found-has kl e.pod_id pod v present))
    ]

-- From a kubelet of which it holds, whatever events arrive, in whatever order, the pods of the
-- manager stay those that the requests to the pod workers left live, and every request to sync or
-- restart a pod is for one that is live then: it was created, and not killed since.
pub sync_loop-IsOrderly :
    (es : List LoopEvent) (kl : Kubelet) → IsOrderly kl → IsOrderly (sync_loop es kl)
unfolding sync_loop
sync_loop-IsOrderly [] kl v = v
sync_loop-IsOrderly (e ∷ es) kl v = elim (Bool-cases (sync_loop_iteration e kl).0) [
  | inl goes_on ↦
      rw (goes_on, sync_loop)
        (sync_loop-IsOrderly es (sync_loop_iteration e kl).1 (sync_loop_iteration-IsOrderly e kl v))
  | inr ends ↦ rw (ends, sync_loop) (sync_loop_iteration-IsOrderly e kl v)
]
