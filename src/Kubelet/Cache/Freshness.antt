-- ===== src/Kubelet/Cache/Freshness.antt =====
-- How old an answer of the status cache can be.
use mini_k8s.Base.{
  ltb, if◌then◌else◌, ◌==◌, nat_Eq, string_Eq, Bool-cases, Option-cases, All, lookup, lookup-insert,
  ◌≤◌, ◌<◌, ◌≡◌, refl, subst, ◌≢◌, inl, inr, Bool, true, false, Option, none, some, List, [], ◌∷◌,
  arith,
}
use mini_k8s.Api.{Uid, Time}
use mini_k8s.Kubelet.Types.{RuntimePodStatus}
use mini_k8s.Kubelet.Cache.{
  CacheData, Cache, found, timed_out, try_newer, newer_rounds, get_newer_than, set_status,
}

module _ {E : Type 0} where
  -- One of the caches holds an entry for the pod that is not older than the given time.
  pub data Fresh (id : Uid) (min_time : Time) (s : Option RuntimePodStatus) (e : Option E)
      : List (Cache E) → Type 0 where
    now :
        (c : Cache E) (cs : List (Cache E)) (d : CacheData E)
        → lookup id c.pods ≡ some d
        → min_time ≤ d.modified
        → d.status ≡ s
        → d.error ≡ e
        → Fresh id min_time s e (c ∷ cs)
    later :
        (c : Cache E) (cs : List (Cache E))
        → Fresh id min_time s e cs
        → Fresh id min_time s e (c ∷ cs)

  module _ (id : Uid) (min_time : Time) where
    try_newer_found :
        (c : Cache E) (s : Option RuntimePodStatus) (e : Option E)
        → try_newer id min_time c ≡ some (found s e)
        → (d : CacheData E) × (lookup id c.pods ≡ some d)
          × (min_time ≤ d.modified)
          × (d.status ≡ s)
          × (d.error ≡ e)
    unfolding try_newer
    try_newer_found c s e h = ground arith

    try_newer_stale :
        (c : Cache E) (d : CacheData E)
        → lookup id c.pods ≡ some d
        → try_newer id min_time c ≡ none
        → d.modified < min_time
    unfolding try_newer
    try_newer_stale c d present h = ground arith

    try_newer_fresh :
        (c : Cache E) (d : CacheData E)
        → lookup id c.pods ≡ some d
        → min_time ≤ d.modified
        → try_newer id min_time c ≡ some (found d.status d.error)
    unfolding try_newer
    try_newer_fresh c d present h = ground arith

    try_newer-ne-timed_out : (c : Cache E) → try_newer id min_time c ≢ some timed_out
    unfolding try_newer
    try_newer-ne-timed_out c h = ground arith

    newer_rounds-Fresh :
        (cs : List (Cache E)) (s : Option RuntimePodStatus) (e : Option E)
        → newer_rounds id min_time cs ≡ found s e
        → Fresh id min_time s e cs
    unfolding newer_rounds
    newer_rounds-Fresh [] s e h = cc
    newer_rounds-Fresh (c ∷ cs) s e h = elim (Option-cases (try_newer id min_time c)) [
      | inl again ↦ later c cs (newer_rounds-Fresh cs s e (ground arith))
      | inr (a, answered) ↦
          let (d, present, fresh, same, same') = try_newer_found c s e (ground arith) in
          now c cs d present fresh same same'
    ]

    newer_rounds_timed_out :
        (cs : List (Cache E))
        → newer_rounds id min_time cs ≡ timed_out
        → All (λ c. (d : CacheData E) → lookup id c.pods ≡ some d → d.modified < min_time) cs
    unfolding newer_rounds
    newer_rounds_timed_out [] h = tt
    newer_rounds_timed_out (c ∷ cs) h = elim (Option-cases (try_newer id min_time c)) [
      | inl again ↦
          (λ d present. try_newer_stale c d present again, newer_rounds_timed_out cs (ground arith))
      | inr (a, answered) ↦ absurd (try_newer-ne-timed_out c (ground arith))
    ]

    module _ (first second third : Cache E) where
      -- A status that `GetNewerThan` returns was in the cache at one of its three looks, in an
      -- entry that is not older than the time asked for.
      pub get_newer_than-Fresh :
          (s : Option RuntimePodStatus) (e : Option E)
          → get_newer_than id min_time first second third ≡ found s e
          → Fresh id min_time s e (first ∷ second ∷ third ∷ [])
      unfolding get_newer_than
      get_newer_than-Fresh s e h = newer_rounds-Fresh (first ∷ second ∷ third ∷ []) s e h

      -- It gives up only if each of the three looks found no entry or an older one.
      pub get_newer_than_gives_up :
          get_newer_than id min_time first second third ≡ timed_out
          → All
              (λ c. (d : CacheData E) → lookup id c.pods ≡ some d → d.modified < min_time)
              (first ∷ second ∷ third ∷ [])
      unfolding get_newer_than
      get_newer_than_gives_up h = newer_rounds_timed_out (first ∷ second ∷ third ∷ []) h

  -- `Set` refuses a status exactly if the entry is newer, and then changes nothing; otherwise the
  -- pod's entry is the new status, and no other entry changes.
  abbrev pub Sets :
      Uid → Option RuntimePodStatus → Option E → Time → Cache E → Bool × Cache E → Type 0
  Sets id s e t c (false, c') =
      ((d : CacheData E) × (lookup id c.pods ≡ some d) × (t < d.modified)) × (c' ≡ c)
  Sets id s e t c (true, c') =
      ((d : CacheData E) → lookup id c.pods ≡ some d → d.modified ≤ t)
      × ((j : Uid)
          → lookup j c'.pods ≡ (
              if id == j
              then some (record { status = s; error = e; modified = t })
              else lookup j c.pods))
      × (c'.timestamp ≡ c.timestamp)

  -- `Set` refuses a status exactly if the pod has a newer one, and then leaves the cache alone. Else
  -- the pod has the new status, error and time, and no other pod's entry changes, nor the time of the
  -- whole cache.
  pub set_status-Sets :
      (id : Uid) (s : Option RuntimePodStatus) (e : Option E) (t : Time) (c : Cache E)
      → Sets id s e t c (set_status id s e t c)
  unfolding set_status
  set_status-Sets id s e t c =
      let written =
        λ (j : Uid). lookup-insert id j (record { status = s; error = e; modified = t }) c.pods in
      elim (Option-cases (lookup id c.pods)) [
        | inl missing ↦ rw (missing, set_status) (λ d h. cc, written, refl)
        | inr (d, present) ↦ elim (Bool-cases (ltb t d.modified)) [
          | inl newer ↦ rw (present, newer, set_status) ((d, present, ground arith), refl)
          | inr older ↦ rw (present, older, set_status) (λ d' h. ground arith, written, refl)
        ]
      ]

  -- A status that `Set` accepted for a time not before the one asked for is returned at once.
  pub get_newer_than-set_status :
      (id : Uid) (min_time : Time) (s : Option RuntimePodStatus) (e : Option E) (t : Time)
      (c c' second third : Cache E)
      → set_status id s e t c ≡ (true, c')
      → min_time ≤ t
      → get_newer_than id min_time c' second third ≡ found s e
  unfolding get_newer_than newer_rounds
  get_newer_than-set_status id min_time s e t c c' second third h fresh =
      let (_, written, _) = subst (Sets id s e t c) h (set_status-Sets id s e t c) in
      let entry : CacheData E = record { status = s; error = e; modified = t } in
      let present : lookup id c'.pods ≡ some entry =
        ground (arith, written id, string_Eq.beq_iff id id) in
      ground (arith, present)
