-- ===== src/Kubelet/Tests.antt =====
-- The theorems on the kubelet at concrete pods.
use mini_k8s.Kubelet.Sync.Handlers.{all_due}
use mini_k8s.Kubelet.Sync.Handlers.{live}
use mini_k8s.Kubelet.Status.{first_ip}
use mini_k8s.Kubelet.Status.Phases.{is_running}
use mini_k8s.Kubelet.Status.Phases.{any}
use mini_k8s.Kubelet.Status.Phases.{expected_phase}
use mini_k8s.Base.{
  string_Eq, nat_Eq, lookup, insert, has, String, ◌≡◌, refl, ◌≢◌, true, none, some, List, [], ◌∷◌,
  arith,
}
use mini_k8s.Api.{Uid, Time, Pod, restart_policy_always, pod_running}
use mini_k8s.Kubelet.Types.{running, RuntimePodStatus, add, delete, pod_full_name}
use mini_k8s.Kubelet.PodManager.{
  new_pod_manager, update_pod, delete_pod, get_pod_by_uid, get_pod_by_full_name,
}
use mini_k8s.Kubelet.PodManager.Agreement.{
  Agrees, Fits, new_pod_manager-Agrees, update_pod-Agrees, delete_pod-Agrees, delete_pod_hides,
}
use mini_k8s.Kubelet.Cache.{Cache, found, timed_out, get_newer_than, set_status}
use mini_k8s.Kubelet.Cache.Freshness.{
  Fresh, Sets, get_newer_than-Fresh, set_status-Sets, get_newer_than-set_status,
}
use mini_k8s.Kubelet.Status.{compute_api_status}
use mini_k8s.Kubelet.Status.Phases.{compute_api_status-expected_phase}
use mini_k8s.Kubelet.Server.{update_local_pods}
use mini_k8s.Kubelet.Server.Diff.{has_uid, follow, follow-update_local_pods}
use mini_k8s.Kubelet.Sync.{Kubelet, LoopEvent, config, lifecycle, sync_loop}
use mini_k8s.Kubelet.Sync.Handlers.{IsOrderly, sync_loop-IsOrderly}
use mini_k8s.Kubelet.Pleg.{container_died}

abbrev pub pod_of : Uid → String → Pod
pod_of uid name = record {
  kind = "Pod";
  metadata = record {
    name = name;
    namespace = "default";
    uid = uid;
    creation_timestamp = 5;
    labels = none;
  };
  spec = record {
    containers = record { name = "web"; image = "nginx"; ports = [] } ∷ [];
    restart_policy = restart_policy_always;
  };
  status = record { phase = ""; pod_ip = "" };
}

abbrev pub web : Pod
web = pod_of "u1" "web"

abbrev web_again : Pod
web_again = pod_of "u2" "web"

different_uids : web.uid ≢ web_again.uid
different_uids e = ground (arith, (string_Eq.beq_iff "u1" "u2").1 e)

nothing_known-Fits : (pod : Pod) → Fits pod new_pod_manager
unfolding new_pod_manager get_pod_by_uid lookup
nothing_known-Fits pod u p h = cc

update_pod-Agrees_example : Agrees (update_pod web new_pod_manager)
update_pod-Agrees_example =
    update_pod-Agrees web new_pod_manager new_pod_manager-Agrees (nothing_known-Fits web)

web-Fits : Fits web (update_pod web new_pod_manager)
unfolding new_pod_manager update_pod get_pod_by_uid lookup insert
web-Fits u p h = ground arith

delete_pod-Agrees_example : Agrees (delete_pod web (update_pod web new_pod_manager))
delete_pod-Agrees_example =
    delete_pod-Agrees web (update_pod web new_pod_manager) update_pod-Agrees_example web-Fits

delete_pod_hides_example :
    let after = delete_pod web (update_pod web_again (update_pod web new_pod_manager)) in
    (get_pod_by_uid "u2" after ≡ some web_again)
    × (get_pod_by_full_name (pod_full_name web_again) after ≡ none)
delete_pod_hides_example =
    delete_pod_hides web web_again new_pod_manager different_uids (unfold pod_full_name in refl)

abbrev seen : RuntimePodStatus
seen = record {
  id = "u1";
  name = "web";
  namespace = "default";
  ips = "10.0.0.2" ∷ [];
  container_statuses = record { id = "c1"; name = "web"; state = running; exit_code = 0 } ∷ [];
  time_stamp = 7;
}

abbrev seen_at : Time → Cache String
seen_at t = record {
  pods = ("u1", record { status = some seen; error = none; modified = t }) ∷ [];
  timestamp = none;
}

third_look : get_newer_than "u1" 6 (seen_at 4) (seen_at 5) (seen_at 7) ≡ found (some seen) none
unfolding get_newer_than lookup
third_look = refl

get_newer_than-Fresh_example :
    Fresh "u1" 6 (some seen) none (seen_at 4 ∷ seen_at 5 ∷ seen_at 7 ∷ [])
get_newer_than-Fresh_example =
    get_newer_than-Fresh "u1" 6 (seen_at 4) (seen_at 5) (seen_at 7) (some seen) none third_look

no_look : get_newer_than "u1" 9 (seen_at 4) (seen_at 5) (seen_at 7) ≡ timed_out
unfolding get_newer_than lookup
no_look = refl

set_status-Sets_example :
    Sets "u1" (some seen) none 3 (seen_at 4) (set_status "u1" (some seen) none 3 (seen_at 4))
set_status-Sets_example = set_status-Sets "u1" (some seen) none 3 (seen_at 4)

newer_accepted : set_status "u1" (some seen) none 8 (seen_at 4) ≡ (true, seen_at 8)
unfolding set_status lookup insert
newer_accepted = refl

get_newer_than-set_status_example :
    get_newer_than "u1" 6 (seen_at 8) (seen_at 8) (seen_at 8) ≡ found (some seen) none
get_newer_than-set_status_example =
    get_newer_than-set_status "u1" 6 (some seen) none 8 (seen_at 4) (seen_at 8) (seen_at 8)
      (seen_at 8) newer_accepted (omega arith)

compute_api_status-expected_phase_example :
    compute_api_status web seen ≡ some (record { phase = pod_running; pod_ip = "10.0.0.2" })
unfolding expected_phase any is_running first_ip
compute_api_status-expected_phase_example = compute_api_status-expected_phase web seen

follow-update_local_pods_example :
    follow
      (update_local_pods (some (web_again ∷ [])) (record { latest_local_pods = web ∷ [] })).0
      (λ i. has_uid i (web ∷ []))
      "u1"
    ≡ has_uid "u1" (web_again ∷ [])
follow-update_local_pods_example =
    follow-update_local_pods (web_again ∷ []) (record { latest_local_pods = web ∷ [] }) "u1"

abbrev fresh_kubelet : Kubelet
fresh_kubelet = record {
  pod_manager = record { pod_uid_map = []; pod_full_name_map = [] };
  requests = [];
}

fresh_kubelet-IsOrderly : IsOrderly fresh_kubelet
unfolding get_pod_by_uid lookup live has all_due
fresh_kubelet-IsOrderly = record { keyed = λ uid pod h. cc; known = λ uid. refl; due = refl }

abbrev three_events : List LoopEvent
three_events =
    config (record { pods = web ∷ []; op = add })
    ∷ lifecycle (record { pod_id = "u1"; type = container_died })
    ∷ config (record { pods = web ∷ []; op = delete })
    ∷ []

sync_loop-IsOrderly_example : IsOrderly (sync_loop three_events fresh_kubelet)
sync_loop-IsOrderly_example = sync_loop-IsOrderly three_events fresh_kubelet fresh_kubelet-IsOrderly
