-- ===== src/Pilot/Tests.antt =====
-- Tests: three pods of which one at least stays in service, so that the rounds take two pods and one.
use mini_k8s.Proxy.Server.{is_backend}
use mini_k8s.Pilot.{service_pods}
use mini_k8s.Pilot.{with_service}
use mini_k8s.Base.Ints.{◌-ℤ◌}
use mini_k8s.Base.Ints.{pos}
use mini_k8s.Base.{
  string_Eq, nat_Eq, All, lookup, String, ◌≡◌, refl, Bool, true, List, [], ◌∷◌, map,
}
use mini_k8s.Api.{ObjectMeta, Pod, PodSpec, Service, RollingUpdate}
use mini_k8s.Pilot.{
  Call, named_meta, windows, first_calls, update_num, rolling_update_worker, do_rolling_update,
}
use mini_k8s.Pilot.Traffic.{View, IsGuarded, rolling_update_worker-IsGuarded}
use mini_k8s.Pilot.Batches.{gather, deleted_pod, added_pod, reported_phase, worker_replaces_each}

abbrev meta : String → ObjectMeta
meta name = named_meta name "default"

abbrev old_spec : PodSpec
old_spec = record { containers = []; restart_policy = "Always" }

abbrev new_spec : PodSpec
new_spec = record { containers = []; restart_policy = "Never" }

abbrev pod_of : String → Pod
pod_of name = record {
  kind = "Pod";
  metadata = meta name;
  spec = old_spec;
  status = record { phase = "Running"; pod_ip = "10.0.0.2" };
}

abbrev three : List Pod
three = pod_of "a" ∷ pod_of "b" ∷ pod_of "c" ∷ []

abbrev rollout : RollingUpdate
rollout = record {
  metadata = meta "rollout";
  spec = record {
    service_ref = "shop";
    port = 80;
    minimum_alive = pos 1;
    interval = 5;
    new_pod_spec = new_spec;
  };
  status = record { phase = "Pending" };
}

abbrev shop : Service
shop = record {
  kind = "Service";
  metadata = meta "shop";
  spec = record { type = "ClusterIP"; ports = []; selector = []; cluster_ip = "100.0.0.1" };
}

abbrev granted : Call → Bool
granted call = true

each_granted : All (λ call. granted call ≡ true) (first_calls rollout shop)
unfolding first_calls
each_granted = (refl, (refl, (refl, (refl, tt))))

worker_replaces_each_example :
    (gather deleted_pod (rolling_update_worker granted rollout shop three)
      ≡ ("a", "default") ∷ ("b", "default") ∷ ("c", "default") ∷ [])
    × (gather added_pod (rolling_update_worker granted rollout shop three)
        ≡ map
            (λ pod. record {
              kind = pod.kind;
              metadata = pod.metadata;
              spec = new_spec;
              status = record { phase = ""; pod_ip = "" };
            })
            three)
    × (gather reported_phase (rolling_update_worker granted rollout shop three)
        ≡ "Running" ∷ "Finished" ∷ [])
unfolding update_num ◌-ℤ◌ named_meta
worker_replaces_each_example = worker_replaces_each granted rollout shop three 1 refl each_granted

abbrev nothing_told : View
nothing_told = record { blocked = []; available = []; routes = [] }

rolling_update_worker-IsGuarded_example :
    IsGuarded (pos 1) shop nothing_told (rolling_update_worker granted rollout shop three)
rolling_update_worker-IsGuarded_example =
    rolling_update_worker-IsGuarded granted rollout shop three nothing_told

two_rounds : windows 3 2 0 3 ≡ (0, 2) ∷ (2, 3) ∷ []
unfolding windows
two_rounds = refl

one_worker :
    map (λ w. w.0) (do_rolling_update (rollout ∷ []) (("default_shop", shop) ∷ []) three)
    ≡ rollout ∷ []
unfolding do_rolling_update with_service lookup named_meta service_pods is_backend
one_worker = refl
