-- ===== src/Kubelet/Status/Phases.antt =====
-- The phase against the containers, with no counting.
use mini_k8s.Base.{
  ltb, if◌then◌else◌, ◌==◌, nat_Eq, string_Eq, length, ℕ, ◌+◌, ◌≤◌, String, ◌≡◌, refl, Bool, true,
  false, ◌&&◌, ◌||◌, not, Option, none, some, List, [], ◌∷◌, arith,
}
use mini_k8s.Api.{Pod, pod_running, pod_failed, pod_succeeded}
use mini_k8s.Kubelet.Types.{running, exited, ContainerStatus, RuntimePodStatus}
use mini_k8s.Kubelet.Status.{
  Tally, count_container, count_containers, no_containers, first_ip, phase_of, compute_api_status,
}

unfoldable pub is_running : ContainerStatus → Bool
is_running c = elim c.state [ running ↦ true | _ ↦ false ]

unfoldable pub is_exited : ContainerStatus → Bool
is_exited c = elim c.state [ exited ↦ true | _ ↦ false ]

unfoldable pub is_failed : ContainerStatus → Bool
is_failed c = elim c.state [ exited ↦ not (c.exit_code == 0) | _ ↦ false ]

unfoldable pub any : (ContainerStatus → Bool) → List ContainerStatus → Bool
any p [] = false
any p (c ∷ cs) = p c || any p cs

unfoldable pub all : (ContainerStatus → Bool) → List ContainerStatus → Bool
all p [] = true
all p (c ∷ cs) = p c && all p cs

-- The phase as the comments of pkg/api/v1/types.go have it: a pod runs while one container does, and
-- has ended when all have.
unfoldable pub expected_phase : List ContainerStatus → Option String
expected_phase cs =
    if any is_running cs
    then some pod_running
    else if all is_exited cs
    then if any is_failed cs then some pod_failed else some pod_succeeded
    else none

count : (ContainerStatus → Bool) → List ContainerStatus → ℕ
count p [] = 0
count p (c ∷ cs) = (if p c then 1 else 0) + count p cs

count-le-length : (p : ContainerStatus → Bool) (cs : List ContainerStatus) → count p cs ≤ length cs
unfolding count
count-le-length p [] = omega arith
count-le-length p (c ∷ cs) = ground (arith, count-le-length p cs)

count-any : (p : ContainerStatus → Bool) (cs : List ContainerStatus) → ltb 0 (count p cs) ≡ any p cs
unfolding count any
count-any p [] = refl
count-any p (c ∷ cs) = ground (arith, count-any p cs)

count-all :
    (p : ContainerStatus → Bool) (cs : List ContainerStatus) → (count p cs == length cs) ≡ all p cs
unfolding count all
count-all p [] = refl
count-all p (c ∷ cs) = ground (arith, count-all p cs, count-le-length p cs)

count_containers_lem :
    (cs : List ContainerStatus) (t : Tally)
    → ((count_containers cs t).running_count ≡ t.running_count + count is_running cs)
      × ((count_containers cs t).exited_count ≡ t.exited_count + count is_exited cs)
      × ((count_containers cs t).failed_count ≡ t.failed_count + count is_failed cs)
unfolding count_containers count is_running is_exited is_failed
count_containers_lem [] t = omega arith
count_containers_lem (c ∷ cs) t = ground (arith, count_containers_lem cs (count_container c t))

phase_of-expected_phase :
    (cs : List ContainerStatus)
    → phase_of (count_containers cs no_containers) (length cs) ≡ expected_phase cs
unfolding phase_of expected_phase
phase_of-expected_phase cs = ground (
  arith,
  count_containers_lem cs no_containers,
  count-any is_running cs,
  count-all is_exited cs,
  count-any is_failed cs,
)

-- A status is reported exactly if the runtime shows as many containers as the pod has and their
-- states determine a phase. It has that phase, and the first address of the pod.
pub compute_api_status-expected_phase :
    (pod : Pod) (status : RuntimePodStatus)
    → compute_api_status pod status ≡ (
        if length status.container_statuses == length pod.spec.containers
        then elim (expected_phase status.container_statuses) [
          | none ↦ none
          | some phase ↦ some (record { phase = phase; pod_ip = first_ip status.ips })
        ]
        else none)
unfolding compute_api_status
compute_api_status-expected_phase pod status =
    ground (arith, phase_of-expected_phase status.container_statuses)
