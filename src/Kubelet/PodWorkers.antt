-- ===== src/Kubelet/PodWorkers.antt =====
-- pkg/kubelet/pod_workers.go: one goroutine and one channel of ten places for each pod. The
-- goroutines, and a call of `UpdatePod` that waits for a place, are moved on by the actions of a
-- schedule; an action that cannot be taken in a state leaves it as it is.
pub mod Bounds
pub mod Deadlock
use mini_k8s.Base.{
  ltb, if◌then◌else◌, nat_Eq, string_Eq, length, Map, lookup, insert, erase, ℕ, Bool, true, false,
  Option, none, some, List, [], ◌∷◌, ◌++◌,
}
use mini_k8s.Api.{Uid, Time, Pod}
use mini_k8s.Kubelet.Types.{
  SyncPodType, sync_pod_create, sync_pod_update, sync_pod_kill, sync_pod_sync, sync_pod_recreate,
  RuntimePodStatus,
}

pub record UpdatePodOptions : Type 0 where
  pub sync_pod_type : SyncPodType
  pub pod : Pod

-- A channel with its goroutine, which is `stopping` between the kill and the removal of the entry.
pub record Worker : Type 0 where
  pub queue : List UpdatePodOptions
  pub last_sync_time : Time
  pub stopping : Bool

-- `waiting`: a call of `UpdatePod` that holds the lock and waits for a place in a full channel.
pub record PodWorkers : Type 0 where
  pub pod_updates : Map Uid Worker
  pub waiting : Option (Uid × UpdatePodOptions)

-- A call of the syncer: the pod, the kind of update and the status that it is given.
pub record SyncCall : Type 0 where
  pub pod : Pod
  pub sync_pod_type : SyncPodType
  pub status : Option RuntimePodStatus

unfoldable pub new_pod_workers : PodWorkers
new_pod_workers = record { pod_updates = []; waiting = none }

abbrev pub channel_size : ℕ
channel_size = 10

unfoldable pub is_create : SyncPodType → Bool
is_create sync_pod_create = true
is_create _ = false

-- The updates that `UpdatePod` passes on to a worker that exists.
unfoldable pub is_passed_on : SyncPodType → Bool
is_passed_on sync_pod_sync = true
is_passed_on sync_pod_kill = true
is_passed_on sync_pod_recreate = true
is_passed_on _ = false

-- `updateCh <- options`
unfoldable pub send : Uid → UpdatePodOptions → Worker → PodWorkers → PodWorkers
send uid o w pw =
    if ltb (length w.queue) channel_size
    then record pw {
      pod_updates = insert uid (record w { queue = w.queue ++ o ∷ [] }) pw.pod_updates;
    }
    else record pw { waiting = some (uid, o) }

-- `UpdatePod`, once it has the lock.
unfoldable pub update_pod : Pod → SyncPodType → PodWorkers → PodWorkers
unfolding send is_create is_passed_on
update_pod pod type pw =
    let o : UpdatePodOptions = record { sync_pod_type = type; pod = pod } in
    elim (lookup pod.uid pw.pod_updates) [
      | none ↦
          if is_create type
          then record pw {
            pod_updates =
                insert pod.uid (record { queue = o ∷ []; last_sync_time = 0; stopping = false })
                  pw.pod_updates;
          }
          else pw
      | some w ↦ if is_passed_on type then send pod.uid o w pw else pw
    ]

-- What a worker does with an update: the call of the syncer, and its own state after that.
-- `read` is what `GetNewerThan` returns: `none` for an error.
unfoldable pub handle :
    Option (Option RuntimePodStatus) → Time → UpdatePodOptions → Worker → List SyncCall × Worker
handle read now o w = elim o.sync_pod_type [
  | sync_pod_create ↦ (
    record { pod = o.pod; sync_pod_type = sync_pod_create; status = none } ∷ [],
    record w { last_sync_time = now },
  )
  | sync_pod_kill ↦ (
    record { pod = o.pod; sync_pod_type = sync_pod_kill; status = none } ∷ [],
    record w { stopping = true },
  )
  | sync_pod_update ↦ ([], w)
  | other ↦ elim read [
    | none ↦ ([], w)
    | some status ↦ (
      record { pod = o.pod; sync_pod_type = other; status = status } ∷ [],
      record w { last_sync_time = now },
    )
  ]
]

-- A worker takes the next update from its channel.
unfoldable pub work_on :
    Option (Option RuntimePodStatus) → Time → Uid → Worker → PodWorkers → List SyncCall × PodWorkers
unfolding handle
work_on read now uid w pw = elim w.queue [
  | [] ↦ ([], pw)
  | o ∷ rest ↦
      let (calls, w') = handle read now o (record w { queue = rest }) in
      (calls, record pw { pod_updates = insert uid w' pw.pod_updates })
]

pub data Action : Type 0 where
  -- `UpdatePod` is called by somebody, and gets the lock.
  call : Pod → SyncPodType → Action
  -- The waiting call finds a place in the channel.
  resume : Action
  -- The worker of a pod takes an update.
  work : Uid → Option (Option RuntimePodStatus) → Time → Action
  -- The worker of a killed pod gets the lock and removes its entry.
  finish : Uid → Action

unfoldable pub take_action : Action → PodWorkers → List SyncCall × PodWorkers
unfolding update_pod work_on
take_action (call pod type) pw = elim pw.waiting [
  | some _ ↦ ([], pw)
  | none ↦ ([], update_pod pod type pw)
]
take_action resume pw = elim pw.waiting [
  | none ↦ ([], pw)
  | some (uid, o) ↦ elim (lookup uid pw.pod_updates) [
    | none ↦ ([], pw)
    | some w ↦ ([], send uid o w (record pw { waiting = none }))
  ]
]
take_action (work uid read now) pw = elim (lookup uid pw.pod_updates) [
  | none ↦ ([], pw)
  | some w ↦ if w.stopping then ([], pw) else work_on read now uid w pw
]
take_action (finish uid) pw = elim pw.waiting [
  | some _ ↦ ([], pw)
  | none ↦ elim (lookup uid pw.pod_updates) [
    | none ↦ ([], pw)
    | some w ↦
        if w.stopping then ([], record pw { pod_updates = erase uid pw.pod_updates }) else ([], pw)
  ]
]

unfoldable pub run : List Action → PodWorkers → List SyncCall × PodWorkers
run [] pw = ([], pw)
run (a ∷ actions) pw =
    let (calls, pw') = take_action a pw in
    let (more, pw'') = run actions pw' in (calls ++ more, pw'')
