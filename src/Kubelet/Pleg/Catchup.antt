-- ===== src/Kubelet/Pleg/Catchup.antt =====
-- What a relist leaves in the records of the generator.
use mini_k8s.Base.{
  if◌then◌else◌, ◌==◌, nat_Eq, string_Eq, Bool-cases, Option-cases, member, Distinct, lookup, has,
  lookup-insert, lookup-erase, lookup-has, IsMap, insert-IsMap, erase-IsMap, keys, member-keys,
  keys-Distinct, String, ◌≡◌, refl, sym, ap, ◌∙◌, ◌⊎◌, inl, inr, false, Option, none, some, List,
  [], ◌∷◌, arith,
}
use mini_k8s.Api.{Uid, Time}
use mini_k8s.Kubelet.Types.{RuntimePod}
use mini_k8s.Kubelet.Pleg.{
  PodLifecycleEvent, Records, Pleg, Runtime, get_old_pod_by_id, get_current_pod_by_id,
  get_pleg_container_state, set_current_pods, shift_current_to_old, event_map, compute_events,
  update_cache, relist_pod, relist_pods, relist, Cache,
}
use mini_k8s.Kubelet.Pleg.Events.{compute_events-eq-nil}
use mini_k8s.Kubelet.Pleg.Snapshots.{
  shown, current-set_current_pods, old-set_current_pods, set_current_pods-IsMap,
}

module _ (id k : Uid) (rs : Records) where
  old-shift :
      get_old_pod_by_id k (shift_current_to_old id rs)
      ≡ (if id == k then get_current_pod_by_id k rs else get_old_pod_by_id k rs)
  unfolding get_old_pod_by_id get_current_pod_by_id shift_current_to_old
  old-shift = elim (Option-cases (lookup id rs)) [
    | inl missing ↦ rw (missing, shift_current_to_old) (ground (arith, string_Eq.beq_iff id k))
    | inr (record_, present) ↦ elim (Option-cases record_.current) [
      | inl gone ↦
          rw (present, gone, shift_current_to_old)
            (ground (arith, string_Eq.beq_iff id k, lookup-erase id k rs))
      | inr (pod, there) ↦
          rw (present, there, shift_current_to_old)
            (ground (
              arith,
              string_Eq.beq_iff id k,
              lookup-insert id k (record { old = some pod; current = none }) rs,
            ))
    ]
  ]

  current-shift :
      (id == k) ≡ false
      → get_current_pod_by_id k (shift_current_to_old id rs) ≡ get_current_pod_by_id k rs
  unfolding get_old_pod_by_id get_current_pod_by_id shift_current_to_old
  current-shift other = elim (Option-cases (lookup id rs)) [
    | inl missing ↦ rw (missing, shift_current_to_old)
    | inr (record_, present) ↦ elim (Option-cases record_.current) [
      | inl gone ↦ rw (present, gone, shift_current_to_old) (ground (arith, lookup-erase id k rs))
      | inr (pod, there) ↦
          rw (present, there, shift_current_to_old)
            (ground (arith, lookup-insert id k (record { old = some pod; current = none }) rs))
    ]
  ]

shift-IsMap : (id : Uid) (rs : Records) → IsMap rs → IsMap (shift_current_to_old id rs)
unfolding shift_current_to_old
shift-IsMap id rs h = elim (Option-cases (lookup id rs)) [
  | inl missing ↦ rw (missing, shift_current_to_old) h
  | inr (record_, present) ↦ elim (Option-cases record_.current) [
    | inl gone ↦ rw (present, gone, shift_current_to_old) (erase-IsMap id rs h)
    | inr (pod, there) ↦ rw (present, there, shift_current_to_old) (insert-IsMap id _ rs h)
  ]
]

module _ {E : Type 0} (rt : Runtime E) where
  -- The runtime can be asked about every pod.
  abbrev pub Answers : Type 0
  Answers = (pod : RuntimePod) → (rt.pod_status pod).1 ≡ none

  update_cache-ok :
      Answers
      → (pod : Option RuntimePod) (id : Uid) (c : Cache E) → (update_cache rt pod id c).0 ≡ none
  unfolding update_cache
  update_cache-ok answers none id c = refl
  update_cache-ok answers (some pod) id c = answers pod

  records-relist_pod :
      Answers
      → (id : Uid) (events : List PodLifecycleEvent) (p : Pleg E)
      → (relist_pod rt (id, events) p).records ≡ shift_current_to_old id p.records
  unfolding relist_pod
  records-relist_pod answers id events p =
      rw (update_cache-ok answers (get_current_pod_by_id id p.records) id p.cache, relist_pod)

  old-relist_pods :
      Answers
      → (entries : List (Uid × List PodLifecycleEvent)) (p : Pleg E) (k : Uid) → IsMap entries
      → get_old_pod_by_id k (relist_pods rt entries p).records ≡ (
          if has k entries
          then get_current_pod_by_id k p.records
          else get_old_pod_by_id k p.records)
  unfolding relist_pods has
  old-relist_pods answers [] p k d = refl
  old-relist_pods answers ((id, events) ∷ entries) p k d = ground (
    arith,
    string_Eq.beq_iff id k,
    old-relist_pods answers entries (relist_pod rt (id, events) p) k d.1,
    records-relist_pod answers id events p,
    old-shift id k p.records,
    current-shift id k p.records,
  )

  relist_pods-IsMap :
      (entries : List (Uid × List PodLifecycleEvent)) (p : Pleg E)
      → IsMap p.records
      → IsMap (relist_pods rt entries p).records
  unfolding relist_pods relist_pod
  relist_pods-IsMap [] p h = h
  relist_pods-IsMap ((id, events) ∷ entries) p h =
      relist_pods-IsMap entries (relist_pod rt (id, events) p)
        (elim (Option-cases (update_cache rt (get_current_pod_by_id id p.records) id p.cache).0) [
          | inl fine ↦ rw (fine, relist_pod) (shift-IsMap id p.records h)
          | inr (e, failed) ↦ rw (failed, relist_pod) h
        ])

abbrev events_of : Uid → Records → List PodLifecycleEvent
events_of k rs = compute_events (get_old_pod_by_id k rs) (get_current_pod_by_id k rs)

-- Whether the pod has events, and is among those visited.
has-event_map :
    (ids : List Uid) (rs : Records) (k : Uid)
    → (has k (event_map ids rs) ≡ false)
    → (member k ids ≡ false) ⊎ (events_of k rs ≡ [])
unfolding event_map has member
has-event_map [] rs k h = inl refl
has-event_map (id ∷ ids) rs k h = ground (arith, string_Eq.beq_iff id k, has-event_map ids rs k)

has-event_map_absent :
    (ids : List Uid) (rs : Records) (k : Uid)
    → member k ids ≡ false
    → has k (event_map ids rs) ≡ false
unfolding event_map has member
has-event_map_absent [] rs k h = refl
has-event_map_absent (id ∷ ids) rs k h = ground (arith, has-event_map_absent ids rs k)

event_map-IsMap : (ids : List Uid) (rs : Records) → Distinct ids → IsMap (event_map ids rs)
unfolding event_map
event_map-IsMap [] rs d = tt
event_map-IsMap (id ∷ ids) rs d =
    ground (arith, event_map-IsMap ids rs d.1, has-event_map_absent ids rs id d.0)

module _ {E : Type 0} (rt : Runtime E) (answers : Answers rt) (pods : List RuntimePod) (p : Pleg E)
    (v : IsMap p.records) where
  abbrev relisted : Records
  relisted = set_current_pods pods p.records

  abbrev entries : List (Uid × List PodLifecycleEvent)
  entries = event_map (keys relisted) relisted

  entries-IsMap : IsMap entries
  entries-IsMap =
      event_map-IsMap (keys relisted) relisted
        (keys-Distinct relisted (set_current_pods-IsMap pods p.records v))

  quiet_states :
      (id : Uid)
      → has id entries ≡ false
      → (cid : String)
      → get_pleg_container_state (get_old_pod_by_id id relisted) cid
        ≡ get_pleg_container_state (get_current_pod_by_id id relisted) cid
  unfolding get_old_pod_by_id get_current_pod_by_id
  quiet_states id h cid = elim (has-event_map (keys relisted) relisted id h) [
    | inl absent ↦
        let missing : lookup id relisted ≡ none =
          lookup-has id relisted (sym (member-keys id relisted) ∙ absent) in
        rw (missing, get_old_pod_by_id, get_current_pod_by_id)
    | inr quiet ↦
        (compute_events-eq-nil (get_old_pod_by_id id relisted)
            (get_current_pod_by_id id relisted)).0
          quiet cid
  ]

  -- After a relist whose status reads all succeed, from one record for a pod, the old snapshot of
  -- each pod shows every container in the state that the runtime reported, and shows nothing of a
  -- pod that is gone.
  pub relist_catches_up :
      (ts : Time) (id : Uid) (cid : String)
      → get_pleg_container_state (get_old_pod_by_id id (relist rt ts (some pods) p).records) cid
        ≡ get_pleg_container_state (shown id pods none) cid
  unfolding relist
  relist_catches_up ts id cid =
      let current = current-set_current_pods id pods p.records in
      let later =
        old-relist_pods rt answers entries (record p { records = relisted }) id entries-IsMap in
      elim (Bool-cases (has id entries)) [
        | inl visited ↦
            let moved : get_old_pod_by_id id (relist rt ts (some pods) p).records
                ≡ shown id pods none =
              later ∙ (rw visited current) in
            ap (λ q. get_pleg_container_state q cid) moved
        | inr quiet ↦
            let kept : get_old_pod_by_id id (relist rt ts (some pods) p).records
                ≡ get_old_pod_by_id id relisted =
              later ∙ (rw quiet) in
            ap (λ q. get_pleg_container_state q cid) kept
            ∙ quiet_states id quiet cid
            ∙ ap (λ q. get_pleg_container_state q cid) current
      ]

event_map_quiet :
    (ids : List Uid) (rs : Records)
    → ((id : Uid) (cid : String)
        → get_pleg_container_state (get_old_pod_by_id id rs) cid
          ≡ get_pleg_container_state (get_current_pod_by_id id rs) cid)
    → event_map ids rs ≡ []
unfolding event_map
event_map_quiet [] rs h = refl
event_map_quiet (id ∷ ids) rs h = ground (
  arith,
  (compute_events-eq-nil (get_old_pod_by_id id rs) (get_current_pod_by_id id rs)).1 (h id),
  event_map_quiet ids rs h,
)

module _ {E : Type 0} (rt rt' : Runtime E) (answers : Answers rt) (pods : List RuntimePod)
    (p : Pleg E) (v : IsMap p.records) where
  -- A relist whose status reads all succeed, from one record for a pod, leaves nothing to report: a
  -- relist that finds the same pods sends no event, whatever the runtime answers then.
  pub relist_twice :
      (ts ts' : Time)
      → (relist rt' ts' (some pods) (relist rt ts (some pods) p)).sent
        ≡ (relist rt ts (some pods) p).sent
  unfolding relist
  relist_twice ts ts' =
      let after = (relist rt ts (some pods) p).records in
      let again = set_current_pods pods after in
      let quiet : event_map (keys again) again ≡ [] = event_map_quiet (keys again) again λ id cid.
        ap (λ q. get_pleg_container_state q cid) (old-set_current_pods id pods after)
        ∙ relist_catches_up rt answers pods p v ts id cid
        ∙ sym (ap (λ q. get_pleg_container_state q cid) (current-set_current_pods id pods after)) in
      rw (quiet, relist_pods)
