-- ===== src/Control/Autoscaler/Run.antt =====
-- The loop of pkg/controller/podautoscaler/horizonal.go over the autoscalers. Its only policy is to
-- take the greatest number that a metric asks for.
use mini_k8s.Base.{
  if◌then◌else◌, nat_Eq, string_Eq, Map, lookup, insert, String, Bool, false, ◌&&◌, ◌||◌, not,
  Option, none, some, List, [], ◌∷◌, ◌++◌,
}
use mini_k8s.Base.Ints.{ℤ, pos, ◌-ℤ◌, ◌*ℤ◌, ltb_ℤ}
use mini_k8s.Api.{Uid, Time, Pod, ReplicaSet}
use mini_k8s.Control.Autoscaler.{
  Floats, Autoscaler, MetricsItem, max_rps_num, one_match_rps, one_match_rps_labels,
  default_scale_window,
}

-- A call of `UpdateReplicaSet`. Its error is only logged.
pub record Update : Type 0 where
  pub name : String
  pub namespace : String
  pub rep_num : ℤ

pub record HpaState : Type 0 where
  pub prev_act_time_map : Map Uid Time
  pub updates : List Update

-- Whether two `int32` numbers are the same.
unfoldable pub eq_ℤ : ℤ → ℤ → Bool
eq_ℤ a b = not (ltb_ℤ a b || ltb_ℤ b a)

-- `scaleWindowSz`, in seconds.
unfoldable pub window_of : {F : Type 0} → Autoscaler F → ℤ
unfolding eq_ℤ
window_of hpa =
    if eq_ℤ hpa.scale_window_seconds (pos 0) then default_scale_window else hpa.scale_window_seconds

-- Whether the last action is less than the window ago. An autoscaler that has not acted has the
-- zero time there, which is longer ago than any window.
unfoldable pub is_same_period : Option Time → ℤ → Time → Bool
is_same_period none window now = false
is_same_period (some last) window now = ltb_ℤ (pos now -ℤ pos last) (window *ℤ pos 1000000000)

unfoldable pub change_rps_pod_num :
    {F : Type 0} → Autoscaler F → ReplicaSet → ℤ → Time → HpaState → HpaState
unfolding eq_ℤ window_of is_same_period
change_rps_pod_num hpa rep most now st =
    if is_same_period (lookup hpa.uid st.prev_act_time_map) (window_of hpa) now
    then st
    else record {
      prev_act_time_map = insert hpa.uid now st.prev_act_time_map;
      updates =
          if not (eq_ℤ most rep.spec.replicas) && not (eq_ℤ most (pos 0))
          then st.updates
            ++ record { name = rep.name; namespace = rep.namespace; rep_num = most } ∷ []
          else st.updates;
    }

-- `get_replica_sets` is the client's answer while an autoscaler is looked at.
module _ {F : Type 0} (floats : Floats F)
    (get_pod_metrics : Uid → ℤ → Option (Map String (List (MetricsItem F))))
    (get_replica_sets : Autoscaler F → List ReplicaSet) where
  -- With the replica set found and its pods; `none` is a panic.
  unfoldable pub conduct : Autoscaler F → ReplicaSet → List Pod → Time → HpaState → Option HpaState
  unfolding change_rps_pod_num
  conduct hpa rep [] now st = some st
  conduct hpa rep (pod ∷ pods) now st =
      elim (max_rps_num floats get_pod_metrics hpa (pod ∷ pods) rep.spec.replicas hpa.metrics
        (pos 0)) [ none ↦ none | some most ↦ some (change_rps_pod_num hpa rep most now st) ]

  unfoldable pub conduct_hpa : Autoscaler F → List Pod → Time → HpaState → Option HpaState
  unfolding conduct
  conduct_hpa hpa pods now st =
      elim (one_match_rps floats get_pod_metrics hpa (get_replica_sets hpa)) [
        | none ↦ some st
        | some rep ↦ elim (one_match_rps_labels floats get_pod_metrics rep pods) [
          | none ↦ none
          | some found ↦ conduct hpa rep found now st
        ]
      ]

  -- A tick: the autoscalers in order, each with the time at which it is looked at.
  unfoldable pub run_tick : List (Autoscaler F × Time) → List Pod → HpaState → Option HpaState
  unfolding conduct_hpa
  run_tick [] pods st = some st
  run_tick ((hpa, now) ∷ hpas) pods st = elim (conduct_hpa hpa pods now st) [
    | none ↦ none
    | some next ↦ run_tick hpas pods next
  ]
