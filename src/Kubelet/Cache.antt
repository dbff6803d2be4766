-- ===== src/Kubelet/Cache.antt =====
-- pkg/kubelet/runtime/cache.go. `GetNewerThan` releases the lock between its rounds, so it is given
-- the states of the cache that its rounds see.
pub mod Freshness
use mini_k8s.Base.{
  ltb, leb, if◌then◌else◌, nat_Eq, string_Eq, Map, lookup, insert, erase, Bool, true, false, Option,
  none, some, List, [], ◌∷◌,
}
use mini_k8s.Api.{Uid, Time}
use mini_k8s.Kubelet.Types.{RuntimePodStatus}

-- A status that could not be read is nil, with the error of the runtime.
pub record CacheData (E : Type 0) : Type 0 where
  pub status : Option RuntimePodStatus
  pub error : Option E
  pub modified : Time

pub record Cache (E : Type 0) : Type 0 where
  pub pods : Map Uid (CacheData E)
  pub timestamp : Option Time

-- What a reader is told: the status and error of the entry, or an error of the cache.
pub data Answer (E : Type 0) : Type 0 where
  found : Option RuntimePodStatus → Option E → Answer E
  not_found global_newer timed_out : Answer E

module _ {E : Type 0} where
  unfoldable pub new_cache : Cache E
  new_cache = record { pods = []; timestamp = none }

  unfoldable pub get : Uid → Cache E → Answer E
  get id c = elim (lookup id c.pods) [ none ↦ not_found | some d ↦ found d.status d.error ]

  -- `t.After(min) || t.Equal(min)` behind a nil check
  unfoldable pub is_global_newer : Time → Cache E → Bool
  is_global_newer min_time c = elim c.timestamp [ none ↦ false | some t ↦ leb min_time t ]

  -- One round of the loop: an answer, or `none` to try again.
  unfoldable pub try_newer : Uid → Time → Cache E → Option (Answer E)
  unfolding is_global_newer
  try_newer id min_time c = elim (lookup id c.pods) [
    | none ↦ if is_global_newer min_time c then some global_newer else none
    | some d ↦ if leb min_time d.modified then some (found d.status d.error) else none
  ]

  -- The rounds that are left, each with the cache that it sees.
  unfoldable pub newer_rounds : Uid → Time → List (Cache E) → Answer E
  unfolding try_newer
  newer_rounds id min_time [] = timed_out
  newer_rounds id min_time (c ∷ cs) =
      let rest = newer_rounds id min_time cs in
      elim (try_newer id min_time c) [ none ↦ rest | some a ↦ a ]

  -- `maxRetry` is 3: the states of the cache that the rounds see, with a second between them.
  unfoldable pub get_newer_than : Uid → Time → Cache E → Cache E → Cache E → Answer E
  unfolding newer_rounds
  get_newer_than id min_time first second third =
      newer_rounds id min_time (first ∷ second ∷ third ∷ [])

  unfoldable pub set_status :
      Uid → Option RuntimePodStatus → Option E → Time → Cache E → Bool × Cache E
  set_status id status error timestamp c =
      let written = record c {
        pods = insert id (record { status = status; error = error; modified = timestamp }) c.pods;
      } in
      elim (lookup id c.pods) [
        | none ↦ (true, written)
        | some d ↦ if ltb timestamp d.modified then (false, c) else (true, written)
      ]

  unfoldable pub delete : Uid → Cache E → Cache E
  delete id c = record c { pods = erase id c.pods }

  unfoldable pub update_time : Time → Cache E → Cache E
  update_time timestamp c = record c { timestamp = some timestamp }
