-- ===== src/Kubelet/Status.antt =====
-- `computeApiStatus` of pkg/kubelet/kubelet.go: the phase of a pod from its containers.
pub mod Phases
use mini_k8s.Base.{
  ltb, if◌then◌else◌, ◌==◌, nat_Eq, string_Eq, length, ℕ, ◌+◌, String, not, Option, none, some,
  List, [], ◌∷◌,
}
use mini_k8s.Api.{Pod, PodStatus, Container, pod_running, pod_failed, pod_succeeded}
use mini_k8s.Kubelet.Types.{
  ContainerState, created, running, exited, unknown, ContainerStatus, RuntimePodStatus,
}

pub record Tally : Type 0 where
  pub running_count : ℕ
  pub exited_count : ℕ
  pub succeeded_count : ℕ
  pub failed_count : ℕ

-- The body of the loop over the container statuses.
unfoldable pub count_container : ContainerStatus → Tally → Tally
count_container c t = elim c.state [
  | running ↦ record t { running_count = t.running_count + 1 }
  | exited ↦
      if c.exit_code == 0
      then record t { exited_count = t.exited_count + 1; succeeded_count = t.succeeded_count + 1 }
      else record t { exited_count = t.exited_count + 1; failed_count = t.failed_count + 1 }
  | _ ↦ t
]

unfoldable pub count_containers : List ContainerStatus → Tally → Tally
unfolding count_container
count_containers [] t = t
count_containers (c ∷ cs) t = count_containers cs (count_container c t)

abbrev pub no_containers : Tally
no_containers = record {
  running_count = 0;
  exited_count = 0;
  succeeded_count = 0;
  failed_count = 0;
}

-- `podIP`: the first address, if there is one.
unfoldable pub first_ip : List String → String
first_ip [] = ""
first_ip (ip ∷ ips) = ip

-- The phase from the counts, of `total` containers.
unfoldable pub phase_of : Tally → ℕ → Option String
phase_of t total =
    if not (t.running_count == 0)
    then some pod_running
    else if t.exited_count == total
    then if ltb 0 t.failed_count then some pod_failed else some pod_succeeded
    else none

unfoldable pub compute_api_status : Pod → RuntimePodStatus → Option PodStatus
unfolding count_containers first_ip phase_of
compute_api_status pod status =
    let total = length status.container_statuses in
    if not (total == length pod.spec.containers)
    then none
    else elim (phase_of (count_containers status.container_statuses no_containers) total) [
      | none ↦ none
      | some phase ↦ some (record { phase = phase; pod_ip = first_ip status.ips })
    ]
