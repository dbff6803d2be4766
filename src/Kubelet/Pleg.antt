-- ===== src/Kubelet/Pleg.antt =====
-- pkg/kubelet/pleg/pleg.go: two snapshots of a pod's containers are compared, and the differences
-- sent as events. Reading the clock and the runtime are arguments of a relist.
use mini_k8s.Kubelet.Cache.{Cache}
pub mod Events
pub mod Snapshots
pub mod Catchup
use mini_k8s.Base.{
  if◌then◌else◌, ◌==◌, nat_Eq, string_Eq, Map, add_member, lookup, insert, erase, String, Bool,
  true, false, Option, none, some, List, [], ◌∷◌, ◌++◌, map,
}
use mini_k8s.Api.{Uid, Time}
use mini_k8s.Kubelet.Types.{
  ContainerState, created, running, exited, unknown, RuntimeContainer, RuntimePod, RuntimePodStatus,
}
use mini_k8s.Kubelet.Cache

pub data EventType : Type 0 where
  container_started container_died container_removed container_changed : EventType

pub record PodLifecycleEvent : Type 0 where
  pub pod_id : Uid
  pub type : EventType

pub data PlegContainerState : Type 0 where
  pleg_running pleg_exited pleg_unknown pleg_non_existent : PlegContainerState

unfoldable pub state_eq : PlegContainerState → PlegContainerState → Bool
state_eq pleg_running pleg_running = true
state_eq pleg_exited pleg_exited = true
state_eq pleg_unknown pleg_unknown = true
state_eq pleg_non_existent pleg_non_existent = true
state_eq _ _ = false

-- The inner switch of `getPlegContainerState`.
unfoldable pub pleg_state : ContainerState → PlegContainerState
pleg_state created = pleg_unknown
pleg_state running = pleg_running
pleg_state exited = pleg_exited
pleg_state unknown = pleg_unknown

unfoldable pub find_state : List RuntimeContainer → String → PlegContainerState
unfolding pleg_state
find_state [] cid = pleg_non_existent
find_state (c ∷ cs) cid =
    let rest = find_state cs cid in if c.id == cid then pleg_state c.state else rest

unfoldable pub get_pleg_container_state : Option RuntimePod → String → PlegContainerState
unfolding find_state
get_pleg_container_state none cid = pleg_non_existent
get_pleg_container_state (some pod) cid = find_state pod.containers cid

-- The cases of the switch in `computeEvents`, for one container.
unfoldable pub container_events :
    Uid → PlegContainerState → PlegContainerState → List PodLifecycleEvent
container_events id old pleg_running = record { pod_id = id; type = container_started } ∷ []
container_events id old pleg_exited = record { pod_id = id; type = container_died } ∷ []
container_events id old pleg_unknown = record { pod_id = id; type = container_changed } ∷ []
container_events id old pleg_non_existent =
    if state_eq old pleg_exited
    then record { pod_id = id; type = container_removed } ∷ []
    else record { pod_id = id; type = container_died }
      ∷ record { pod_id = id; type = container_removed }
      ∷ []

unfoldable pub add_ids : List RuntimeContainer → List String → List String
add_ids [] ids = ids
add_ids (c ∷ cs) ids = add_ids cs (add_member c.id ids)

unfoldable pub containers_of : Option RuntimePod → List RuntimeContainer
containers_of none = []
containers_of (some pod) = pod.containers

-- `cidMap`
unfoldable pub container_ids : Option RuntimePod → Option RuntimePod → List String
unfolding add_ids containers_of
container_ids old current = add_ids (containers_of current) (add_ids (containers_of old) [])

unfoldable pub events_id : Option RuntimePod → Option RuntimePod → Uid
events_id (some old) current = old.id
events_id none (some current) = current.id
events_id none none = ""

-- The loop over `cidMap`.
unfoldable pub events_for :
    Option RuntimePod → Option RuntimePod → List String → List PodLifecycleEvent
unfolding get_pleg_container_state container_events events_id state_eq
events_for old current [] = []
events_for old current (cid ∷ cids) =
    let before = get_pleg_container_state old cid in
    let after = get_pleg_container_state current cid in
    let rest = events_for old current cids in
    if state_eq before after
    then rest
    else container_events (events_id old current) before after ++ rest

unfoldable pub compute_events : Option RuntimePod → Option RuntimePod → List PodLifecycleEvent
unfolding events_for container_ids
compute_events old current = events_for old current (container_ids old current)

pub record PodRecord : Type 0 where
  pub old : Option RuntimePod
  pub current : Option RuntimePod

abbrev pub Records : Type 0
Records = Map Uid PodRecord

unfoldable pub get_old_pod_by_id : Uid → Records → Option RuntimePod
get_old_pod_by_id id rs = elim (lookup id rs) [ none ↦ none | some r ↦ r.old ]

unfoldable pub get_current_pod_by_id : Uid → Records → Option RuntimePod
get_current_pod_by_id id rs = elim (lookup id rs) [ none ↦ none | some r ↦ r.current ]

-- The first loop of `setCurrentPods`.
unfoldable pub clear_current : Records → Records
clear_current [] = []
clear_current ((id, r) ∷ rs) = (id, record r { current = none }) ∷ clear_current rs

-- One round of its second loop.
unfoldable pub set_current : RuntimePod → Records → Records
set_current pod rs = elim (lookup pod.id rs) [
  | none ↦ insert pod.id (record { old = none; current = some pod }) rs
  | some r ↦ insert pod.id (record r { current = some pod }) rs
]

unfoldable pub set_all_current : List RuntimePod → Records → Records
unfolding set_current
set_all_current [] rs = rs
set_all_current (pod ∷ pods) rs = set_all_current pods (set_current pod rs)

unfoldable pub set_current_pods : List RuntimePod → Records → Records
unfolding set_all_current clear_current
set_current_pods pods rs = set_all_current pods (clear_current rs)

unfoldable pub shift_current_to_old : Uid → Records → Records
shift_current_to_old id rs = elim (lookup id rs) [
  | none ↦ rs
  | some r ↦ elim r.current [
    | none ↦ erase id rs
    | some pod ↦ insert id (record { old = some pod; current = none }) rs
  ]
]

-- `eventMap`: the records whose snapshots differ, by the uids that the loop visits.
unfoldable pub event_map : List Uid → Records → List (Uid × List PodLifecycleEvent)
event_map [] rs = []
event_map (id ∷ ids) rs =
    let events = compute_events (get_old_pod_by_id id rs) (get_current_pod_by_id id rs) in
    let rest = event_map ids rs in elim events [ [] ↦ rest | e ∷ es ↦ (id, e ∷ es) ∷ rest ]

-- Events of the type `ContainerChanged` are not sent.
unfoldable pub sendable : List PodLifecycleEvent → List PodLifecycleEvent
sendable [] = []
sendable (e ∷ es) = elim e.type [ container_changed ↦ sendable es | _ ↦ e ∷ sendable es ]

-- The runtime as a relist sees it: what `GetPodStatus` returns for a pod (a status, an error), and
-- the clock at each of these calls.
pub record Runtime (E : Type 0) : Type 0 where
  pub pod_status : RuntimePod → Option RuntimePodStatus × Option E
  pub clock : RuntimePod → Time

-- The channel is seen as the list of what was sent, oldest first.
pub record Pleg (E : Type 0) : Type 0 where
  pub records : Records
  pub cache : Cache E
  pub sent : List PodLifecycleEvent

module _ {E : Type 0} (rt : Runtime E) where
  -- Returns the error of the runtime, and the cache.
  unfoldable pub update_cache : Option RuntimePod → Uid → Cache E → Option E × Cache E
  unfolding Cache.delete Cache.set_status
  update_cache none pid c = (none, Cache.delete pid c)
  update_cache (some pod) pid c =
      let (status, error) = rt.pod_status pod in
      (error, (Cache.set_status pod.id status error (rt.clock pod) c).1)

  -- One round of the second loop of `Relist`.
  unfoldable pub relist_pod : Uid × List PodLifecycleEvent → Pleg E → Pleg E
  unfolding update_cache shift_current_to_old sendable get_current_pod_by_id
  relist_pod (id, events) p =
      let (error, cache) = update_cache (get_current_pod_by_id id p.records) id p.cache in
      elim error [
        | some e ↦ record p { cache = cache }
        | none ↦ record {
          records = shift_current_to_old id p.records;
          cache = cache;
          sent = p.sent ++ sendable events;
        }
      ]

  unfoldable pub relist_pods : List (Uid × List PodLifecycleEvent) → Pleg E → Pleg E
  unfolding relist_pod
  relist_pods [] p = p
  relist_pods (entry ∷ entries) p = relist_pods entries (relist_pod entry p)

  -- `GetAllPods` failed, or returned the pods; `ts` is the time at the start.
  unfoldable pub relist : Time → Option (List RuntimePod) → Pleg E → Pleg E
  unfolding relist_pods set_current_pods event_map Cache.update_time
  relist ts none p = p
  relist ts (some pods) p =
      let records = set_current_pods pods p.records in
      let entries = event_map (map (λ r. r.0) records) records in
      let after = relist_pods entries (record p { records = records }) in
      record after { cache = Cache.update_time ts after.cache }
