-- ===== src/Kubelet/ScheduleTests.antt =====
-- The theorems on the event generator and the pod workers at concrete runs.
use mini_k8s.Base.{
  string_Eq, nat_Eq, lookup, String, ◌≡◌, refl, ◌↔◌, true, none, some, List, [], ◌∷◌, ◌++◌, map,
  arith,
}
use mini_k8s.Api.{Uid}
use mini_k8s.Kubelet.Tests.{web}
use mini_k8s.Kubelet.Types.{
  running, exited, RuntimePod, ContainerState, sync_pod_kill, sync_pod_sync, sync_pod_create,
}
use mini_k8s.Kubelet.Pleg.{
  PodLifecycleEvent, EventType, Pleg, Runtime, get_pleg_container_state, get_old_pod_by_id,
  compute_events, relist,
}
use mini_k8s.Kubelet.Pleg.Events.{
  SameState, compute_events-Announces, Announces, IsUid, compute_events-eq-nil,
}
use mini_k8s.Kubelet.Pleg.Snapshots.{shown}
use mini_k8s.Kubelet.Pleg.Catchup.{relist_catches_up, relist_twice, Answers}
use mini_k8s.Kubelet.PodWorkers.{
  UpdatePodOptions, Worker, PodWorkers, Action, call, work, finish, resume, run, new_pod_workers,
}
use mini_k8s.Kubelet.PodWorkers.Bounds.{IsSound, run-new_pod_workers-IsSound}
use mini_k8s.Kubelet.PodWorkers.Deadlock.{IsStuck, run-IsStuck}

abbrev pod_in : ContainerState → RuntimePod
pod_in state = record {
  id = "u1";
  name = "web";
  namespace = "default";
  created_at = 0;
  containers = record { id = "c1"; name = "web"; image = "nginx"; state = state } ∷ [];
}

died : ¬ (
    get_pleg_container_state (some (pod_in running)) "c1"
    ≡ get_pleg_container_state (some (pod_in exited)) "c1")
unfolding get_pleg_container_state
died e = cc

compute_events-Announces_example :
    (id : Uid) × (types : List EventType) × (before : List PodLifecycleEvent) × (after : List
      PodLifecycleEvent)
    × IsUid (some (pod_in running)) (some (pod_in exited)) id
    × Announces
        (get_pleg_container_state (some (pod_in running)) "c1")
        (get_pleg_container_state (some (pod_in exited)) "c1")
        types
    × (compute_events (some (pod_in running)) (some (pod_in exited))
        ≡ before ++ (map (λ type. record { pod_id = id; type = type }) types ++ after))
compute_events-Announces_example =
    compute_events-Announces (some (pod_in running)) (some (pod_in exited)) "c1" died

compute_events-eq-nil_example :
    (compute_events (some (pod_in running)) (some (pod_in exited)) ≡ [])
    ↔ ((cid : String) → SameState (some (pod_in running)) (some (pod_in exited)) cid)
compute_events-eq-nil_example = compute_events-eq-nil (some (pod_in running)) (some (pod_in exited))

abbrev healthy : Runtime String
healthy = record { pod_status = λ pod. (none, none); clock = λ pod. 1 }

healthy-Answers : Answers healthy
healthy-Answers pod = refl

abbrev first_pleg : Pleg String
first_pleg = record { records = []; cache = record { pods = []; timestamp = none }; sent = [] }

relist_catches_up_example :
    get_pleg_container_state
      (get_old_pod_by_id "u1" (relist healthy 1 (some (pod_in running ∷ [])) first_pleg).records)
      "c1"
    ≡ get_pleg_container_state (shown "u1" (pod_in running ∷ []) none) "c1"
relist_catches_up_example =
    relist_catches_up healthy healthy-Answers (pod_in running ∷ []) first_pleg tt 1 "u1" "c1"

relist_twice_example :
    (relist healthy 2
      (some (pod_in running ∷ []))
      (relist healthy 1 (some (pod_in running ∷ [])) first_pleg)).sent
    ≡ (relist healthy 1 (some (pod_in running ∷ [])) first_pleg).sent
relist_twice_example =
    relist_twice healthy healthy healthy-Answers (pod_in running ∷ []) first_pleg tt 1 2

abbrev four_actions : List Action
four_actions =
    call web sync_pod_create
    ∷ call web sync_pod_sync
    ∷ work "u1" (some none) 3
    ∷ call web sync_pod_kill
    ∷ []

run-new_pod_workers-IsSound_example : IsSound (run four_actions new_pod_workers).1
run-new_pod_workers-IsSound_example = run-new_pod_workers-IsSound four_actions

abbrev sync_of_web : UpdatePodOptions
sync_of_web = record { sync_pod_type = sync_pod_sync; pod = web }

-- A worker that has taken its kill, with ten more updates in its channel.
abbrev killed_worker : Worker
killed_worker = record {
  queue =
      sync_of_web ∷ sync_of_web ∷ sync_of_web ∷ sync_of_web ∷ sync_of_web ∷ sync_of_web
      ∷ sync_of_web ∷ sync_of_web ∷ sync_of_web ∷ sync_of_web ∷ [];
  last_sync_time = 3;
  stopping = true;
}

abbrev stuck_workers : PodWorkers
stuck_workers = record {
  pod_updates = ("u1", killed_worker) ∷ [];
  waiting = some ("u1", sync_of_web);
}

stuck_workers-IsStuck : IsStuck "u1" sync_of_web killed_worker stuck_workers
unfolding lookup
stuck_workers-IsStuck = record { held = refl; present = refl; stopping = refl; full = omega arith }

run-IsStuck_example :
    IsStuck "u1" sync_of_web killed_worker
      (run (finish "u1" ∷ resume ∷ call web sync_pod_create ∷ []) stuck_workers).1
run-IsStuck_example =
    run-IsStuck "u1" sync_of_web killed_worker
      (finish "u1" ∷ resume ∷ call web sync_pod_create ∷ []) stuck_workers stuck_workers-IsStuck
