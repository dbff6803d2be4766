-- ===== src/Kubelet/Pleg/Events.antt =====
-- The events of a pod against the states of its containers in the two snapshots.
use mini_k8s.Base.{
  string_Eq, nat_Eq, ◌==◌, Bool-cases, member, add_member, member-add_member, String, ◌≡◌, refl,
  sym, ap, ◌∙◌, ◌≢◌, ◌↔◌, inl, inr, Bool, true, false, ◌||◌, Option, none, some, List, [], ◌∷◌,
  ◌++◌, map, arith,
}
use mini_k8s.Api.{Uid}
use mathlib.Core.List.{append_assoc}
use mini_k8s.Kubelet.Types.{RuntimeContainer, RuntimePod}
use mini_k8s.Kubelet.Pleg.{
  PodLifecycleEvent, EventType, container_started, container_died, container_removed,
  container_changed, PlegContainerState, pleg_running, pleg_exited, pleg_unknown, pleg_non_existent,
  state_eq, find_state, get_pleg_container_state, container_events, add_ids, containers_of,
  container_ids, events_id, events_for, compute_events,
}

-- The kinds of events that a change of a container from one state to another one has.
abbrev pub Announces : PlegContainerState → PlegContainerState → List EventType → Type 0
Announces before pleg_running types = types ≡ container_started ∷ []
Announces before pleg_exited types = types ≡ container_died ∷ []
Announces before pleg_unknown types = types ≡ container_changed ∷ []
Announces before pleg_non_existent types =
    (before ≡ pleg_exited → types ≡ container_removed ∷ [])
    × (before ≢ pleg_exited → types ≡ container_died ∷ container_removed ∷ [])

state_eq_iff : (a b : PlegContainerState) → (state_eq a b ≡ true) ↔ (a ≡ b)
unfolding state_eq
state_eq_iff a b = ground arith

container_events-Announces :
    (id : Uid) (before after : PlegContainerState)
    → (types : List EventType) × Announces before after types
      × (container_events id before after ≡ map (λ type. record { pod_id = id; type = type }) types)
unfolding container_events
container_events-Announces id before pleg_running = (container_started ∷ [], refl, refl)
container_events-Announces id before pleg_exited = (container_died ∷ [], refl, refl)
container_events-Announces id before pleg_unknown = (container_changed ∷ [], refl, refl)
container_events-Announces id before pleg_non_existent =
    elim (Bool-cases (state_eq before pleg_exited)) [
      | inl same ↦ rw same (
        container_removed ∷ [],
        (λ e. refl, λ ne. absurd (ne ((state_eq_iff before pleg_exited).0 same))),
        refl,
      )
      | inr other ↦ rw other (
        container_died ∷ container_removed ∷ [],
        (λ e. absurd (ground (arith, e, state_eq_iff before pleg_exited)), λ ne. refl),
        refl,
      )
    ]

unfoldable has_container : String → List RuntimeContainer → Bool
has_container cid [] = false
has_container cid (c ∷ cs) = c.id == cid || has_container cid cs

member-add_ids :
    (cid : String) (cs : List RuntimeContainer) (ids : List String)
    → member cid (add_ids cs ids) ≡ (has_container cid cs || member cid ids)
unfolding add_ids has_container
member-add_ids cid [] ids = refl
member-add_ids cid (c ∷ cs) ids =
    ground (arith, member-add_ids cid cs (add_member c.id ids), member-add_member cid c.id ids)

find_state_absent :
    (cs : List RuntimeContainer) (cid : String)
    → has_container cid cs ≡ false
    → find_state cs cid ≡ pleg_non_existent
unfolding find_state has_container
find_state_absent [] cid h = refl
find_state_absent (c ∷ cs) cid h = ground (arith, find_state_absent cs cid)

get_state-containers_of :
    (pod : Option RuntimePod) (cid : String)
    → get_pleg_container_state pod cid ≡ find_state (containers_of pod) cid
unfolding get_pleg_container_state containers_of find_state
get_state-containers_of none cid = refl
get_state-containers_of (some pod) cid = refl

-- The uid that the events of two snapshots carry: that of the old one, if there is one.
pub record IsUid (old current : Option RuntimePod) (id : Uid) : Type 0 where
  pub is_old : (pod : RuntimePod) → old ≡ some pod → id ≡ pod.id
  pub is_current : (pod : RuntimePod) → old ≡ none → current ≡ some pod → id ≡ pod.id

events_id-IsUid : (old current : Option RuntimePod) → IsUid old current (events_id old current)
unfolding events_id
events_id-IsUid (some pod) current = record {
  is_old = λ other same. ap (λ found. elim found [ none ↦ "" | some it ↦ it.id ]) same;
  is_current = λ other missing same. cc;
}
events_id-IsUid none (some pod) = record {
  is_old = λ other same. cc;
  is_current = λ other missing same. ap (λ found. elim found [ none ↦ "" | some it ↦ it.id ]) same;
}
events_id-IsUid none none = record {
  is_old = λ other same. cc;
  is_current = λ other missing same. cc;
}

module _ (old current : Option RuntimePod) where
  abbrev pub SameState : String → Type 0
  SameState cid = get_pleg_container_state old cid ≡ get_pleg_container_state current cid

  -- A container that neither snapshot has is non-existent in both.
  untracked : (cid : String) → member cid (container_ids old current) ≡ false → SameState cid
  unfolding container_ids member
  untracked cid h = ground (
    arith,
    member-add_ids cid (containers_of current) (add_ids (containers_of old) []),
    member-add_ids cid (containers_of old) [],
    get_state-containers_of old cid,
    get_state-containers_of current cid,
    find_state_absent (containers_of old) cid,
    find_state_absent (containers_of current) cid,
  )

  container_events-ne-nil :
      (id : Uid) (a b : PlegContainerState) (es : List PodLifecycleEvent)
      → container_events id a b ++ es ≢ []
  unfolding container_events
  container_events-ne-nil id a b es h = ground arith

  events_for-eq-nil :
      (cids : List String) (cid : String)
      → events_for old current cids ≡ []
      → member cid cids ≡ true
      → SameState cid
  unfolding events_for member
  events_for-eq-nil [] cid h m = cc
  events_for-eq-nil (c ∷ cids) cid h m = ground (
    arith,
    string_Eq.beq_iff c cid,
    events_for-eq-nil cids cid,
    state_eq_iff (get_pleg_container_state old c) (get_pleg_container_state current c),
    container_events-ne-nil (events_id old current) (get_pleg_container_state old c)
        (get_pleg_container_state current c) (events_for old current cids),
  )

  nil-events_for :
      (cids : List String) → ((cid : String) → SameState cid) → events_for old current cids ≡ []
  unfolding events_for
  nil-events_for [] h = refl
  nil-events_for (c ∷ cids) h = ground (
    arith,
    h c,
    nil-events_for cids h,
    state_eq_iff (get_pleg_container_state old c) (get_pleg_container_state current c),
  )

  -- No event is computed for a pod exactly if every container, also one that only one of the
  -- snapshots has, is in the same state in both.
  pub compute_events-eq-nil : (compute_events old current ≡ []) ↔ ((cid : String) → SameState cid)
  unfolding compute_events
  compute_events-eq-nil = (
    λ h cid. elim (Bool-cases (member cid (container_ids old current))) [
      | inl tracked ↦ events_for-eq-nil (container_ids old current) cid h tracked
      | inr not_tracked ↦ untracked cid not_tracked
    ],
    nil-events_for (container_ids old current),
  )

  abbrev block : String → List PodLifecycleEvent
  block cid =
      container_events (events_id old current) (get_pleg_container_state old cid)
        (get_pleg_container_state current cid)

  events_for-block :
      (cids : List String) (cid : String)
      → member cid cids ≡ true
      → ¬ SameState cid
      → (before : List PodLifecycleEvent) × (after : List PodLifecycleEvent) × (events_for old
            current cids
          ≡ before ++ (block cid ++ after))
  unfolding events_for member
  events_for-block [] cid m h = cc
  events_for-block (c ∷ cids) cid m h = elim (Bool-cases (c == cid)) [
    | inl here ↦
        let same : c ≡ cid = (string_Eq.beq_iff c cid).0 here in
        (
          [],
          events_for old current cids,
          ground (
            arith,
            same,
            state_eq_iff (get_pleg_container_state old c) (get_pleg_container_state current c),
          ),
        )
    | inr there ↦
        let (before, after, e) = events_for-block cids cid (ground arith) h in
        elim (Bool-cases
          (state_eq (get_pleg_container_state old c) (get_pleg_container_state current c))) [
            | inl quiet ↦ (before, after, rw (quiet, events_for) e)
            | inr loud ↦ (
              block c ++ before,
              after,
              rw loud (ap (◌++◌ (block c)) e ∙ sym (append_assoc (block c) before _)),
            )
          ]
  ]

  -- A container whose state changed has its events in the list, next to each other and in order: it
  -- started when it runs now, died when it has exited, changed when its state is unknown, and when it
  -- is gone it was removed, after it died unless it had exited before. The events carry the uid of
  -- the pod, that of the old snapshot if there is one.
  pub compute_events-Announces :
      (cid : String)
      → get_pleg_container_state old cid ≢ get_pleg_container_state current cid
      → (id : Uid) × (types : List EventType) × (before : List PodLifecycleEvent) × (after : List
          PodLifecycleEvent)
        × IsUid old current id
        × Announces (get_pleg_container_state old cid) (get_pleg_container_state current cid) types
        × (compute_events old current
            ≡ before ++ (map (λ type. record { pod_id = id; type = type }) types ++ after))
  unfolding compute_events
  compute_events-Announces cid h =
      let (types, announces, same) =
        container_events-Announces (events_id old current) (get_pleg_container_state old cid)
          (get_pleg_container_state current cid) in
      elim (Bool-cases (member cid (container_ids old current))) [
        | inl tracked ↦
            let (before, after, e) = events_for-block (container_ids old current) cid tracked h in
            (
              events_id old current,
              types,
              before,
              after,
              events_id-IsUid old current,
              announces,
              rw (sym same) e,
            )
        | inr not_tracked ↦ absurd (h (untracked cid not_tracked))
      ]
