-- ===== src/Kubelet/PodWorkers/Bounds.antt =====
-- What every schedule keeps true of the channels.
use mini_k8s.Base.{
  ltb, nat_Eq, string_Eq, Bool-cases, Option-cases, length, length-append, All, lookup, Each,
  insert-Each, erase-Each, lookup-Each, ◌≤◌, ◌≡◌, refl, ap, subst, inl, inr, true, false, Option,
  none, some, List, [], ◌∷◌, ◌++◌, arith,
}
use mini_k8s.Api.{Uid, Time, Pod}
use mini_k8s.Kubelet.Types.{SyncPodType, RuntimePodStatus}
use mini_k8s.Kubelet.PodWorkers.{
  UpdatePodOptions, Worker, PodWorkers, new_pod_workers, channel_size, is_create, is_passed_on,
  send, update_pod, handle, work_on, Action, call, resume, work, finish, take_action, run,
}

-- No creation among the updates.
abbrev NoCreate : List UpdatePodOptions → Type 0
NoCreate os = All (λ o. is_create o.sync_pod_type ≡ false) os

-- No creation behind the first update.
abbrev pub CreatesFirst : List UpdatePodOptions → Type 0
CreatesFirst [] = Unit
CreatesFirst (o ∷ os) = NoCreate os

-- A channel holds ten updates at most, and a creation stands at its head only.
abbrev pub IsSoundWorker : Worker → Type 0
IsSoundWorker w = (length w.queue ≤ channel_size) × CreatesFirst w.queue

abbrev WaitsSoundly : Option (Uid × UpdatePodOptions) → Type 0
WaitsSoundly none = Unit
WaitsSoundly (some (uid, o)) = is_create o.sync_pod_type ≡ false

-- All channels are sound, and the call that waits is not for a creation.
pub record IsSound (pw : PodWorkers) : Type 0 where
  pub workers : Each IsSoundWorker pw.pod_updates
  pub waits : WaitsSoundly pw.waiting

snoc-NoCreate :
    (os : List UpdatePodOptions) (o : UpdatePodOptions)
    → is_create o.sync_pod_type ≡ false
    → NoCreate os
    → NoCreate (os ++ o ∷ [])
snoc-NoCreate [] o h n = (h, tt)
snoc-NoCreate (x ∷ os) o h n = (n.0, snoc-NoCreate os o h n.1)

snoc-CreatesFirst :
    (os : List UpdatePodOptions) (o : UpdatePodOptions)
    → is_create o.sync_pod_type ≡ false
    → CreatesFirst os
    → CreatesFirst (os ++ o ∷ [])
snoc-CreatesFirst [] o h n = tt
snoc-CreatesFirst (x ∷ os) o h n = snoc-NoCreate os o h n

tail-CreatesFirst :
    (o : UpdatePodOptions) (os : List UpdatePodOptions) → CreatesFirst (o ∷ os) → CreatesFirst os
tail-CreatesFirst o [] h = tt
tail-CreatesFirst o (x ∷ os) h = h.1

send-IsSound :
    (uid : Uid) (o : UpdatePodOptions) (w : Worker) (pw : PodWorkers)
    → is_create o.sync_pod_type ≡ false
    → IsSoundWorker w
    → IsSound pw
    → IsSound (send uid o w pw)
unfolding send
send-IsSound uid o w pw h ws v = elim (Bool-cases (ltb (length w.queue) channel_size)) [
  | inl room ↦ rw room (record {
    workers =
        insert-Each IsSoundWorker uid _ pw.pod_updates v.workers
          (ground (arith, length-append w.queue (o ∷ [])), snoc-CreatesFirst w.queue o h ws.1);
    waits = v.waits;
  })
  | inr full ↦ rw full (record { workers = v.workers; waits = h })
]

is_passed_on-is_create : (t : SyncPodType) → is_passed_on t ≡ true → is_create t ≡ false
unfolding is_passed_on is_create
is_passed_on-is_create t h = ground arith

update_pod-IsSound :
    (pod : Pod) (t : SyncPodType) (pw : PodWorkers) → IsSound pw → IsSound (update_pod pod t pw)
unfolding update_pod
update_pod-IsSound pod t pw v = elim (Option-cases (lookup pod.uid pw.pod_updates)) [
  | inl missing ↦ elim (Bool-cases (is_create t)) [
    | inl fresh ↦
        rw (missing, fresh, update_pod)
          (record {
            workers = insert-Each IsSoundWorker pod.uid _ pw.pod_updates v.workers (omega arith);
            waits = v.waits;
          })
    | inr other ↦ rw (missing, other, update_pod) v
  ]
  | inr (w, present) ↦ elim (Bool-cases (is_passed_on t)) [
    | inl passed ↦
        rw (present, passed, update_pod)
          (send-IsSound pod.uid _ w pw (is_passed_on-is_create t passed)
            (lookup-Each IsSoundWorker pod.uid w pw.pod_updates v.workers present) v)
    | inr dropped ↦ rw (present, dropped, update_pod) v
  ]
]

queue-handle :
    (read : Option (Option RuntimePodStatus)) (now : Time) (o : UpdatePodOptions) (w : Worker)
    → (handle read now o w).1.queue ≡ w.queue
unfolding handle
queue-handle read now o w = ground arith

work_on-IsSound :
    (read : Option (Option RuntimePodStatus)) (now : Time) (uid : Uid) (w : Worker)
    (pw : PodWorkers) (q : List UpdatePodOptions)
    → w.queue ≡ q
    → IsSoundWorker w
    → IsSound pw
    → IsSound (work_on read now uid w pw).1
unfolding work_on
work_on-IsSound read now uid w pw [] e ws v = rw (e, work_on) v
work_on-IsSound read now uid w pw (o ∷ rest) e ws v =
    rw (e, work_on)
      (record {
        workers = insert-Each IsSoundWorker uid _ pw.pod_updates v.workers (
            rw (queue-handle read now o (record w { queue = rest })) (
              omega (arith, ap length e, ws.0),
              tail-CreatesFirst o rest (subst CreatesFirst e ws.1),
            ));
        waits = v.waits;
      })

pub take_action_work :
    (uid : Uid) (read : Option (Option RuntimePodStatus)) (now : Time) (w : Worker)
    (pw : PodWorkers)
    → lookup uid pw.pod_updates ≡ some w
    → w.stopping ≡ false
    → take_action (work uid read now) pw ≡ work_on read now uid w pw
unfolding take_action
take_action_work uid read now w pw present going = ground arith

pub take_action_stopped :
    (uid : Uid) (read : Option (Option RuntimePodStatus)) (now : Time) (w : Worker)
    (pw : PodWorkers)
    → lookup uid pw.pod_updates ≡ some w
    → w.stopping ≡ true
    → take_action (work uid read now) pw ≡ ([], pw)
unfolding take_action
take_action_stopped uid read now w pw present stopped = ground arith

take_action-IsSound : (a : Action) (pw : PodWorkers) → IsSound pw → IsSound (take_action a pw).1
unfolding take_action
take_action-IsSound (call pod t) pw v = elim (Option-cases pw.waiting) [
  | inl free ↦ rw (free, take_action) (update_pod-IsSound pod t pw v)
  | inr (held, e) ↦ rw (e, take_action) v
]
take_action-IsSound resume pw v = elim (Option-cases pw.waiting) [
  | inl free ↦ rw (free, take_action) v
  | inr ((uid, o), e) ↦ elim (Option-cases (lookup uid pw.pod_updates)) [
    | inl missing ↦ rw (e, missing, take_action) v
    | inr (w, present) ↦
        rw (e, present, take_action)
          (send-IsSound uid o w (record pw { waiting = none }) (subst WaitsSoundly e v.waits)
            (lookup-Each IsSoundWorker uid w pw.pod_updates v.workers present)
            (record { workers = v.workers; waits = tt }))
  ]
]
take_action-IsSound (work uid read now) pw v = elim (Option-cases (lookup uid pw.pod_updates)) [
  | inl missing ↦ rw (missing, take_action) v
  | inr (w, present) ↦ elim (Bool-cases w.stopping) [
    | inl stopped ↦ rw (present, stopped, take_action) v
    | inr going ↦ rw (take_action_work uid read now w pw present going) (
        work_on-IsSound read now uid w pw w.queue refl
          (lookup-Each IsSoundWorker uid w pw.pod_updates v.workers present) v)
  ]
]
take_action-IsSound (finish uid) pw v = elim (Option-cases pw.waiting) [
  | inr (held, e) ↦ rw (e, take_action) v
  | inl free ↦ elim (Option-cases (lookup uid pw.pod_updates)) [
    | inl missing ↦ rw (free, missing, take_action) v
    | inr (w, present) ↦ elim (Bool-cases w.stopping) [
      | inl stopped ↦
          rw (free, present, stopped, take_action)
            (record {
              workers = erase-Each IsSoundWorker uid pw.pod_updates v.workers;
              waits = v.waits;
            })
      | inr going ↦ rw (free, present, going, take_action) v
    ]
  ]
]

run-IsSound : (actions : List Action) (pw : PodWorkers) → IsSound pw → IsSound (run actions pw).1
unfolding run
run-IsSound [] pw v = v
run-IsSound (a ∷ actions) pw v =
    run-IsSound actions (take_action a pw).1 (take_action-IsSound a pw v)

-- After any schedule of calls and workers no channel holds more than ten updates, and a creation is
-- never behind another update of its pod.
pub run-new_pod_workers-IsSound : (actions : List Action) → IsSound (run actions new_pod_workers).1
unfolding new_pod_workers
run-new_pod_workers-IsSound actions = run-IsSound actions _ (record { workers = tt; waits = tt })
