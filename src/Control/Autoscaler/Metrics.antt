-- ===== src/Control/Autoscaler/Metrics.antt =====
-- What the metrics of an autoscaler ask for together.
use mini_k8s.Base.{
  ltb, string_Eq, nat_Eq, ◌==◌, Bool-cases, All, Map, ℕ, ◌+◌, ◌≤◌, String, ◌≡◌, refl, ◌⊎◌, inl, inr,
  true, Option, some, List, [], ◌∷◌,
}
use mini_k8s.Base.Ints.{ℤ, pos, negsuc, max_ℤ}
use mini_k8s.Api.{Uid, Pod}
use mini_k8s.Control.Autoscaler.{
  Floats, Autoscaler, ScalingPolicy, MetricsItem, MetricTarget, MetricSource, utilization,
  average_value_type, gen_rep_num_from_cpu, gen_rep_num_from_memory, asked_rep_num, raise_max,
  max_rps_num, period_of, gen_avg_cpu_usage, gen_avg_memory_usage,
}
use mini_k8s.Control.Autoscaler.Bounds.{
  IsRounding, growth, shrinkage, IsBounded, HasWithin, scaled_up-HasWithin, scaled_down-HasWithin,
  kept-HasWithin,
}

module _ {F : Type 0} (floats : Floats F)
    (get_pod_metrics : Uid → ℤ → Option (Map String (List (MetricsItem F)))) (hpa : Autoscaler F)
    (pods : List Pod) where
  -- Usage to target, over the period of a policy.
  abbrev pub cpu_ratio : Option ScalingPolicy → MetricTarget F → F
  cpu_ratio policy target =
      floats.div
        (gen_avg_cpu_usage floats get_pod_metrics (period_of floats get_pod_metrics policy) pods)
        (floats.div target.average_utilization floats.hundred)

  abbrev pub memory_ratio : Option ScalingPolicy → MetricTarget F → F
  memory_ratio policy target =
      floats.div
        (gen_avg_memory_usage floats get_pod_metrics (period_of floats get_pod_metrics policy) pods)
        target.average_value

  -- A change that a metric asks for is less than `limit`.
  pub record Fits (cur : ℕ) (limit : F) (it : MetricSource F) : Type 0 where
    pub cpu_up :
        it.name ≡ "cpu"
        → floats.less floats.cpu_up (cpu_ratio hpa.scale_up it.target) ≡ true
        → floats.less (growth floats cur (cpu_ratio hpa.scale_up it.target)) limit ≡ true
    pub cpu_down :
        it.name ≡ "cpu"
        → floats.less (cpu_ratio hpa.scale_down it.target) floats.cpu_down ≡ true
        → floats.less (shrinkage floats cur (cpu_ratio hpa.scale_down it.target)) limit ≡ true
    pub memory_up :
        it.name ≡ "memory"
        → floats.less floats.memory_up (memory_ratio hpa.scale_up it.target) ≡ true
        → floats.less (growth floats cur (memory_ratio hpa.scale_up it.target)) limit ≡ true
    pub memory_down :
        it.name ≡ "memory"
        → floats.less (memory_ratio hpa.scale_down it.target) floats.memory_down ≡ true
        → floats.less (shrinkage floats cur (memory_ratio hpa.scale_down it.target)) limit ≡ true

module _ {F : Type 0} (floats : Floats F)
    (get_pod_metrics : Uid → ℤ → Option (Map String (List (MetricsItem F)))) (hpa : Autoscaler F)
    (pods : List Pod) (cur lo hi : ℕ) (limit : F) (rounding : IsRounding floats cur limit)
    (bounded : IsBounded hpa lo hi cur) where
  -- The metric has a number of pods in the bounds, or it is not supported: -1.
  abbrev pub Asks : Option ℤ → Type 0
  Asks o = HasWithin floats get_pod_metrics cur hpa lo hi bounded o ⊎ (o ≡ some (negsuc 0))

  pub gen_rep_num_from_cpu-Asks :
      (it : MetricSource F)
      → it.name ≡ "cpu"
      → Fits floats get_pod_metrics hpa pods cur limit it
      → Asks (gen_rep_num_from_cpu floats get_pod_metrics hpa it.target pods (pos cur))
  unfolding gen_rep_num_from_cpu
  gen_rep_num_from_cpu-Asks it named fits =
      let up = cpu_ratio floats get_pod_metrics hpa pods hpa.scale_up it.target in
      let down = cpu_ratio floats get_pod_metrics hpa pods hpa.scale_down it.target in
      elim (Bool-cases (it.target.type == utilization)) [
        | inr other ↦ rw (other, gen_rep_num_from_cpu) (inr refl)
        | inl same ↦
            rw (same, gen_rep_num_from_cpu)
              (inl (elim (Bool-cases (floats.less floats.cpu_up up)) [
                | inl e ↦
                    let a = rounding.cpu_up up e (fits.cpu_up named e) in
                    rw e
                      (scaled_up-HasWithin floats get_pod_metrics cur hpa lo hi bounded up a.0 a.1)
                | inr e ↦ rw e elim (Bool-cases (floats.less down floats.cpu_down)) [
                  | inl f ↦
                      let a = rounding.cpu_down down f (fits.cpu_down named f) in
                      rw f (
                        scaled_down-HasWithin floats get_pod_metrics cur hpa lo hi bounded down a.0
                          a.1)
                  | inr f ↦ rw f (kept-HasWithin floats get_pod_metrics cur hpa lo hi bounded)
                ]
              ]))
      ]

  pub gen_rep_num_from_memory-Asks :
      (it : MetricSource F)
      → it.name ≡ "memory"
      → Fits floats get_pod_metrics hpa pods cur limit it
      → Asks (gen_rep_num_from_memory floats get_pod_metrics hpa it.target pods (pos cur))
  unfolding gen_rep_num_from_memory
  gen_rep_num_from_memory-Asks it named fits =
      let up = memory_ratio floats get_pod_metrics hpa pods hpa.scale_up it.target in
      let down = memory_ratio floats get_pod_metrics hpa pods hpa.scale_down it.target in
      elim (Bool-cases (it.target.type == average_value_type)) [
        | inr other ↦ rw (other, gen_rep_num_from_memory) (inr refl)
        | inl same ↦
            rw (same, gen_rep_num_from_memory)
              (inl (elim (Bool-cases (floats.less floats.memory_up up)) [
                | inl e ↦
                    let a = rounding.memory_up up e (fits.memory_up named e) in
                    rw e
                      (scaled_up-HasWithin floats get_pod_metrics cur hpa lo hi bounded up a.0 a.1)
                | inr e ↦ rw e elim (Bool-cases (floats.less down floats.memory_down)) [
                  | inl f ↦
                      let a = rounding.memory_down down f (fits.memory_down named f) in
                      rw f (
                        scaled_down-HasWithin floats get_pod_metrics cur hpa lo hi bounded down a.0
                          a.1)
                  | inr f ↦ rw f (kept-HasWithin floats get_pod_metrics cur hpa lo hi bounded)
                ]
              ]))
      ]

  asked_rep_num-Asks :
      (it : MetricSource F)
      → Fits floats get_pod_metrics hpa pods cur limit it
      → Asks (asked_rep_num floats get_pod_metrics hpa pods (pos cur) it)
  unfolding asked_rep_num
  asked_rep_num-Asks it fits = elim (Bool-cases (it.name == "cpu")) [
    | inl e ↦
        rw (e, asked_rep_num)
          (gen_rep_num_from_cpu-Asks it ((string_Eq.beq_iff it.name "cpu").0 e) fits)
    | inr e ↦
        rw (e, asked_rep_num)
          elim (Bool-cases (it.name == "memory")) [
            | inl f ↦
                rw f
                  (gen_rep_num_from_memory-Asks it ((string_Eq.beq_iff it.name "memory").0 f) fits)
            | inr f ↦ rw f (inr refl)
          ]
  ]

  -- The greatest number so far: 0 or in the bounds.
  abbrev pub IsMost : ℤ → Type 0
  IsMost most = (k : ℕ) × (most ≡ pos k) × ((k ≡ 0) ⊎ (lo ≤ k)) × (k ≤ hi)

  raise_max-IsMost :
      (k m : ℕ)
      → IsMost (pos m)
      → lo ≤ k
      → k ≤ hi
      → IsMost (raise_max floats get_pod_metrics (pos m) (pos k))
  unfolding raise_max max_ℤ
  raise_max-IsMost k m h low high = elim (Bool-cases (ltb (m + 0) (k + 0))) [
    | inl e ↦ rw e (k, refl, inr low, high)
    | inr e ↦ rw e h
  ]

  -- With an autoscaler whose bounds are at most a thousand million and contain the number of pods
  -- now, whose policies are both set to at most a thousand million without overflow of the
  -- percentage, and metrics whose changes are in the range of `int32`: the loop over the metrics
  -- returns, and the greatest number is 0 (no metric asks for any) or in the bounds, when it was so
  -- before.
  pub max_rps_num-IsMost :
      (metrics : List (MetricSource F)) (m : ℕ)
      → All (Fits floats get_pod_metrics hpa pods cur limit) metrics
      → IsMost (pos m)
      → (most : ℤ) × (max_rps_num floats get_pod_metrics hpa pods (pos cur) metrics (pos m)
          ≡ some most)
        × IsMost most
  unfolding max_rps_num raise_max
  max_rps_num-IsMost [] m fits h = (pos m, refl, h)
  max_rps_num-IsMost (it ∷ metrics) m fits h = elim (asked_rep_num-Asks it fits.0) [
    | inl (n, e, (k, f, low, high)) ↦
        let most = raise_max-IsMost k m h low high in
        rw (max_rps_num, e, f, most.1)
          (max_rps_num-IsMost metrics most.0 fits.1 (most.0, refl, most.2, most.3))
    | inr e ↦ rw (max_rps_num, e, raise_max) (max_rps_num-IsMost metrics m fits.1 h)
  ]
