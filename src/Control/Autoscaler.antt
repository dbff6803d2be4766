-- ===== src/Control/Autoscaler.antt =====
-- pkg/controller/podautoscaler/horizonal.go: how many pods a replica set should have by the usage
-- of its pods. The float arithmetic is a parameter. The thresholds of a target and the debug
-- prints are left out, since nothing reads them.
pub mod Run
pub mod Bounds
pub mod Metrics
pub mod Requests
use mathlib.Core.Option
use mini_k8s.Base.{
  if◌then◌else◌, string_Eq, nat_Eq, ◌==◌, length, Map, ℕ, zero, suc, ◌*◌, String, Bool, ◌&&◌, not,
  Option, none, some, List, [], ◌∷◌,
}
use mini_k8s.Base.Ints.{ℤ, pos, negsuc, ◌+ℤ◌, ◌-ℤ◌, ◌*ℤ◌, ltb_ℤ, min_ℤ, max_ℤ, percent, wrap_32}
use mini_k8s.Api.{Uid, Time, Pod, ObjectMeta, ReplicaSet}
use mini_k8s.Control.ReplicaSet.{one_replica_set_match}

-- `float32`: what the code uses of it. `int32_of_ceil` is `int32(math.Ceil(float64(x)))`.
pub record Floats (F : Type 0) : Type 0 where
  pub add : F → F → F
  pub sub : F → F → F
  pub mul : F → F → F
  pub div : F → F → F
  pub less : F → F → Bool
  pub of_length : ℕ → F
  pub of_int32 : ℤ → F
  pub int32_of_ceil : F → ℤ
  -- The constants 0, 1, 100, 1.1, 0.9, 1.5 and 0.5.
  pub zero_f : F
  pub one_f : F
  pub hundred : F
  pub cpu_up : F
  pub cpu_down : F
  pub memory_up : F
  pub memory_down : F

abbrev pub pods_scaling_policy : String
pods_scaling_policy = "Pods"

abbrev pub percent_scaling_policy : String
percent_scaling_policy = "Percent"

abbrev pub utilization : String
utilization = "Utilization"

abbrev pub average_value_type : String
average_value_type = "AverageValue"

pub record ScalingPolicy : Type 0 where
  pub type : String
  pub value : ℤ
  pub period_seconds : ℤ

unfoldable pub default_policy : ScalingPolicy
default_policy = record { type = pods_scaling_policy; value = pos 1; period_seconds = pos 60 }

abbrev pub default_scale_window : ℤ
default_scale_window = pos 15

module _ (F : Type 0) where
  pub record MetricTarget : Type 0 where
    pub type : String
    pub average_value : F
    pub average_utilization : F

  pub record MetricSource : Type 0 where
    pub name : String
    pub target : MetricTarget

  pub record Autoscaler : Type 0 where
    pub kind : String
    pub metadata : ObjectMeta
    pub open metadata use *
    pub scale_target_name : String
    pub min_replicas : ℤ
    pub max_replicas : ℤ
    pub scale_window_seconds : ℤ
    pub metrics : List MetricSource
    pub scale_up : Option ScalingPolicy
    pub scale_down : Option ScalingPolicy

  pub record MetricsItem : Type 0 where
    pub cpu_usage : F
    pub memory_usage : F

-- `get_pod_metrics` is the client's answer for a pod and a window, `none` for nil, as on an error.
module _ {F : Type 0} (floats : Floats F)
    (get_pod_metrics : Uid → ℤ → Option (Map String (List (MetricsItem F)))) where
  unfoldable pub sum_usage : (MetricsItem F → F) → List (MetricsItem F) → F → F
  sum_usage usage [] sum = sum
  sum_usage usage (i ∷ items) sum = sum_usage usage items (floats.add sum (usage i))

  unfoldable pub container_avg : (MetricsItem F → F) → List (MetricsItem F) → F
  unfolding sum_usage
  container_avg usage items =
      if length items == 0
      then floats.zero_f
      else floats.div (sum_usage usage items floats.zero_f) (floats.of_length (length items))

  -- The loop over the containers of a pod, with the sum of their averages.
  unfoldable pub pod_sum : (MetricsItem F → F) → Map String (List (MetricsItem F)) → F → F
  unfolding container_avg
  pod_sum usage [] sum = sum
  pod_sum usage ((_, items) ∷ containers) sum =
      pod_sum usage containers (floats.add sum (container_avg usage items))

  -- What a pod adds to the sum over the pods; without metrics or containers it adds nothing.
  unfoldable pub add_pod_avg :
      (MetricsItem F → F) → Option (Map String (List (MetricsItem F))) → F → F
  unfolding pod_sum
  add_pod_avg usage none sum = sum
  add_pod_avg usage (some containers) sum =
      if length containers == 0
      then sum
      else floats.add sum (
          floats.div (pod_sum usage containers floats.zero_f)
            (floats.of_length (length containers)))

  unfoldable pub pods_sum : (MetricsItem F → F) → ℤ → List Pod → F → F
  unfolding add_pod_avg
  pods_sum usage window [] sum = sum
  pods_sum usage window (pod ∷ pods) sum =
      pods_sum usage window pods (add_pod_avg usage (get_pod_metrics pod.uid window) sum)

  unfoldable pub gen_avg_cpu_usage : ℤ → List Pod → F
  unfolding pods_sum
  gen_avg_cpu_usage window pods =
      floats.div (pods_sum (λ i. i.cpu_usage) window pods floats.zero_f)
        (floats.of_length (length pods))

  unfoldable pub gen_avg_memory_usage : ℤ → List Pod → F
  unfolding pods_sum
  gen_avg_memory_usage window pods =
      floats.div (pods_sum (λ i. i.memory_usage) window pods floats.zero_f)
        (floats.of_length (length pods))

  -- The change that the policy allows; `none` is the nil policy read, which panics, although a
  -- default stands in for its period. The percentage is an integer division, so the `Ceil` around
  -- it rounds nothing.
  unfoldable pub allowed_change : Option ScalingPolicy → ℤ → ℤ → Option ℤ
  allowed_change none change cur = none
  allowed_change (some policy) change cur = some (
      if policy.type == percent_scaling_policy
      then min_ℤ change (percent (wrap_32 (policy.value *ℤ cur)))
      else if policy.type == pods_scaling_policy
      then min_ℤ change policy.value
      else pos 1)

  unfoldable pub scaled_up : Autoscaler F → F → ℤ → Option ℤ
  unfolding allowed_change
  scaled_up hpa ratio cur =
      Option.map
        (λ change.
          let new_rep_num = wrap_32 (cur +ℤ change) in
          if ltb_ℤ hpa.max_replicas new_rep_num then hpa.max_replicas else new_rep_num)
        (allowed_change hpa.scale_up
          (floats.int32_of_ceil (floats.mul (floats.sub ratio floats.one_f) (floats.of_int32 cur)))
          cur)

  unfoldable pub scaled_down : Autoscaler F → F → ℤ → Option ℤ
  unfolding allowed_change
  scaled_down hpa ratio cur =
      Option.map
        (λ change.
          let new_rep_num = wrap_32 (cur -ℤ change) in
          if ltb_ℤ new_rep_num hpa.min_replicas then hpa.min_replicas else new_rep_num)
        (allowed_change hpa.scale_down
          (floats.int32_of_ceil (floats.mul (floats.sub floats.one_f ratio) (floats.of_int32 cur)))
          cur)

  unfoldable pub period_of : Option ScalingPolicy → ℤ
  unfolding default_policy
  period_of none = default_policy.period_seconds
  period_of (some policy) = policy.period_seconds

  unfoldable pub gen_rep_num_from_cpu : Autoscaler F → MetricTarget F → List Pod → ℤ → Option ℤ
  unfolding gen_avg_cpu_usage scaled_up scaled_down period_of
  gen_rep_num_from_cpu hpa target pods cur =
      let goal = floats.div target.average_utilization floats.hundred in
      let up = floats.div (gen_avg_cpu_usage (period_of hpa.scale_up) pods) goal in
      let down = floats.div (gen_avg_cpu_usage (period_of hpa.scale_down) pods) goal in
      if not (target.type == utilization)
      then some (negsuc 0)
      else if floats.less floats.cpu_up up
      then scaled_up hpa up cur
      else if floats.less down floats.cpu_down
      then scaled_down hpa down cur
      else some cur

  unfoldable pub gen_rep_num_from_memory : Autoscaler F → MetricTarget F → List Pod → ℤ → Option ℤ
  unfolding gen_avg_memory_usage scaled_up scaled_down period_of
  gen_rep_num_from_memory hpa target pods cur =
      let up =
        floats.div (gen_avg_memory_usage (period_of hpa.scale_up) pods) target.average_value in
      let down =
        floats.div (gen_avg_memory_usage (period_of hpa.scale_down) pods) target.average_value in
      if not (target.type == average_value_type)
      then some (negsuc 0)
      else if floats.less floats.memory_up up
      then scaled_up hpa up cur
      else if floats.less down floats.memory_down
      then scaled_down hpa down cur
      else some cur

  -- `if repNum != -1`
  unfoldable pub raise_max : ℤ → ℤ → ℤ
  raise_max most (negsuc zero) = most
  raise_max most (negsuc (suc n)) = max_ℤ most (negsuc (suc n))
  raise_max most (pos n) = max_ℤ most (pos n)

  -- The switch on the resource; another one is not supported, which counts as -1.
  unfoldable pub asked_rep_num : Autoscaler F → List Pod → ℤ → MetricSource F → Option ℤ
  unfolding gen_rep_num_from_cpu gen_rep_num_from_memory
  asked_rep_num hpa pods cur it =
      if it.name == "cpu"
      then gen_rep_num_from_cpu hpa it.target pods cur
      else if it.name == "memory"
      then gen_rep_num_from_memory hpa it.target pods cur
      else some (negsuc 0)

  -- The loop over the metrics; `none` is a panic.
  unfoldable pub max_rps_num : Autoscaler F → List Pod → ℤ → List (MetricSource F) → ℤ → Option ℤ
  unfolding asked_rep_num raise_max
  max_rps_num hpa pods cur [] most = some most
  max_rps_num hpa pods cur (it ∷ metrics) most = elim (asked_rep_num hpa pods cur it) [
    | none ↦ none
    | some rep_num ↦ max_rps_num hpa pods cur metrics (raise_max most rep_num)
  ]

  unfoldable pub one_match_rps : Autoscaler F → List ReplicaSet → Option ReplicaSet
  one_match_rps hpa [] = none
  one_match_rps hpa (rep ∷ reps) =
      let rest = one_match_rps hpa reps in
      if rep.name == hpa.scale_target_name && rep.namespace == hpa.namespace then some rep else rest

  unfoldable pub one_match_rps_labels : ReplicaSet → List Pod → Option (List Pod)
  unfolding one_replica_set_match
  one_match_rps_labels rep pods = one_replica_set_match rep.spec.selector pods
