-- ===== src/Control/Autoscaler/Requests.antt =====
-- The requests that the loop over the autoscalers makes.
use mini_k8s.Base.{
  string_Eq, nat_Eq, Bool-cases, All, Map, lookup, lookup-insert, ℕ, ◌≤◌, String, ◌≡◌, refl, ◌∙◌,
  ◌≢◌, ◌↔◌, ◌⊎◌, inl, inr, true, false, Option, some, List, [], ◌∷◌, ◌++◌, arith,
}
use mini_k8s.Base.Ints.{ℤ, pos}
use mini_k8s.Api.{Uid, Time, Pod, ReplicaSet}
use mini_k8s.Control.Autoscaler.{Floats, Autoscaler, MetricsItem, max_rps_num}
use mini_k8s.Control.Autoscaler.Run.{
  HpaState, eq_ℤ, window_of, is_same_period, change_rps_pod_num, conduct,
}
use mini_k8s.Control.Autoscaler.Bounds.{IsRounding, IsBounded}
use mini_k8s.Control.Autoscaler.Metrics.{Fits, max_rps_num-IsMost}

eq_ℤ-pos : (a b : ℕ) → (eq_ℤ (pos a) (pos b) ≡ true) ↔ (a ≡ b)
unfolding eq_ℤ
eq_ℤ-pos a b = ground arith

eq_ℤ-ne : (a b : ℕ) → eq_ℤ (pos a) (pos b) ≡ false → a ≢ b
eq_ℤ-ne a b h e = ground (arith, (eq_ℤ-pos a b).1 e)

module _ {F : Type 0} (hpa : Autoscaler F) (rep : ReplicaSet) (now : Time) (lo hi cur : ℕ) where
  -- A request for another number of pods, in the bounds, after the window, or none.
  pub record IsLimited (st next : HpaState) : Type 0 where
    pub waits :
        is_same_period (lookup hpa.uid st.prev_act_time_map) (window_of hpa) now ≡ true → next ≡ st
    pub acts :
        is_same_period (lookup hpa.uid st.prev_act_time_map) (window_of hpa) now ≡ false
        → (lookup hpa.uid next.prev_act_time_map ≡ some now)
          × ((next.updates ≡ st.updates)
              ⊎ ((k : ℕ) × (next.updates
                    ≡ st.updates
                      ++ record { name = rep.name; namespace = rep.namespace; rep_num = pos k }
                        ∷ [])
                  × (k ≢ cur)
                  × (k ≢ 0)
                  × (lo ≤ k)
                  × (k ≤ hi)))

  change_rps_pod_num-IsLimited :
      (st : HpaState) (k : ℕ)
      → rep.spec.replicas ≡ pos cur
      → (k ≡ 0) ⊎ (lo ≤ k)
      → k ≤ hi
      → IsLimited st (change_rps_pod_num hpa rep (pos k) now st)
  unfolding change_rps_pod_num
  change_rps_pod_num-IsLimited st k r low high = record {
    waits = λ h. rw (h, change_rps_pod_num) refl;
    acts = λ h.
        rw (h, change_rps_pod_num, r)
          (
            lookup-insert hpa.uid hpa.uid now st.prev_act_time_map
                ∙ rw ((string_Eq.beq_iff hpa.uid hpa.uid).1 refl) refl,
            elim (Bool-cases (eq_ℤ (pos k) (pos cur))) [
              | inl same ↦ rw same (inl refl)
              | inr other ↦ rw other elim (Bool-cases (eq_ℤ (pos k) (pos 0))) [
                | inl zero_pods ↦ rw zero_pods (inl refl)
                | inr some_pods ↦ rw some_pods (
                    inr (
                      k,
                      refl,
                      eq_ℤ-ne k cur other,
                      eq_ℤ-ne k 0 some_pods,
                      omega (arith, low, eq_ℤ-ne k 0 some_pods),
                      high,
                    ))
              ]
            ],
          );
  }

conduct-found :
    {F : Type 0} (floats : Floats F)
    (get_pod_metrics : Uid → ℤ → Option (Map String (List (MetricsItem F))))
    (get_replica_sets : Autoscaler F → List ReplicaSet) (hpa : Autoscaler F) (rep : ReplicaSet)
    (pod : Pod) (pods : List Pod) (now : Time) (st : HpaState) (most : ℤ)
    → max_rps_num floats get_pod_metrics hpa (pod ∷ pods) rep.spec.replicas hpa.metrics (pos 0)
      ≡ some most
    → conduct floats get_pod_metrics get_replica_sets hpa rep (pod ∷ pods) now st
      ≡ some (change_rps_pod_num hpa rep most now st)
unfolding conduct
conduct-found floats metrics reps hpa rep pod pods now st most e = rw (e, conduct) refl

pub conduct-IsLimited :
    {F : Type 0} (floats : Floats F)
    (get_pod_metrics : Uid → ℤ → Option (Map String (List (MetricsItem F))))
    (get_replica_sets : Autoscaler F → List ReplicaSet) (hpa : Autoscaler F) (rep : ReplicaSet)
    (pod : Pod) (pods : List Pod) (now : Time) (lo hi cur : ℕ) (limit : F) (st : HpaState)
    → IsRounding floats cur limit
    → All (Fits floats get_pod_metrics hpa (pod ∷ pods) cur limit) hpa.metrics
    → IsBounded hpa lo hi cur
    → rep.spec.replicas ≡ pos cur
    → (next : HpaState) × (conduct floats get_pod_metrics get_replica_sets hpa rep
          (pod ∷ pods)
          now
          st
        ≡ some next)
      × IsLimited hpa rep now lo hi cur st next
conduct-IsLimited floats metrics reps hpa rep pod pods now lo hi cur limit st rounding fits bounded
      r =
    let (most, e, (k, f, low, high)) =
      max_rps_num-IsMost floats metrics hpa (pod ∷ pods) cur lo hi limit rounding bounded
        hpa.metrics 0 fits (0, refl, inl refl, omega arith) in
    (
      change_rps_pod_num hpa rep most now st,
      conduct-found floats metrics reps hpa rep pod pods now st most (rw r e),
      rw f (change_rps_pod_num-IsLimited hpa rep now lo hi cur st k r low high),
    )
