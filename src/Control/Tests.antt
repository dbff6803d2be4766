-- ===== src/Control/Tests.antt =====
-- The theorems on the controllers and the scheduler at concrete pods and nodes.
use mini_k8s.Base.{
  ltb, if◌then◌else◌, string_Eq, nat_Eq, length, All, ok, Map, ℕ, ◌+◌, ◌-◌, ◌*◌, ◌/◌, String, ◌≡◌,
  refl, ◌⊎◌, inl, true, Option, none, some, List, [], ◌∷◌, ◌++◌, arith,
}
use mini_k8s.Base.Ints.{negsuc, ℤ, pos, pos_part, wrap_32, ◌+ℤ◌, min_ℤ, max_ℤ}
use mini_k8s.Api.{Uid, Pod, ObjectMeta, PodSpec, Node, Labels, ReplicaSet}
use mini_k8s.Control.ReplicaSet.{one_replica_set_check}
use mini_k8s.Control.ReplicaSet.Balance.{IsBalanced, one_replica_set_check-IsBalanced}
use mini_k8s.Control.Scheduler.{
  round_policy, Scheduler, sync_loop, nodes_in_node_affinity_policy, nodes_in_random_policy,
}
use mini_k8s.Control.Scheduler.Rounds.{in_turn, sync_loop-in_turn}
use mini_k8s.Control.Scheduler.Affinity.{Carries, IsFirst, nodes_in_node_affinity_policy-IsFirst}
use mini_k8s.Control.Autoscaler.{
  gen_avg_cpu_usage, gen_avg_memory_usage, Floats, MetricSource, Autoscaler, MetricsItem,
  ScalingPolicy, max_rps_num, gen_avg_memory_usage, gen_avg_cpu_usage,
}
use mini_k8s.Control.Autoscaler.Run.{HpaState, conduct}
use mini_k8s.Control.Autoscaler.Bounds.{growth, shrinkage, IsRounding, IsBounded}
use mini_k8s.Control.Autoscaler.Metrics.{Fits, IsMost, max_rps_num-IsMost}
use mini_k8s.Control.Autoscaler.Requests.{IsLimited, conduct-IsLimited}

abbrev meta : String → Option Labels → ObjectMeta
meta name labels = record {
  name = name;
  namespace = "default";
  uid = name;
  creation_timestamp = 0;
  labels = labels;
}

abbrev spec_of : PodSpec
spec_of = record { containers = []; restart_policy = "Always" }

abbrev pod_named : String → String → Pod
pod_named name phase = record {
  kind = "Pod";
  metadata = meta name (some (("app", "web") ∷ []));
  spec = spec_of;
  status = record { phase = phase; pod_ip = "" };
}

abbrev four_pods : List Pod
four_pods =
    pod_named "a" "Running"
    ∷ pod_named "b" "Failed"
    ∷ pod_named "c" "Pending"
    ∷ pod_named "d" "Running"
    ∷ []

one_replica_set_check-IsBalanced_example :
    IsBalanced 2 four_pods (one_replica_set_check four_pods (pos 2))
one_replica_set_check-IsBalanced_example = one_replica_set_check-IsBalanced four_pods 2

abbrev node_named : String → Option Labels → Node
node_named name labels = record { metadata = meta name labels; address = "" }

abbrev plain : Node
plain = node_named "plain" none

abbrev labelled : Node
labelled = node_named "labelled" (some (("zone", "east") ∷ ("app", "web") ∷ []))

abbrev scheduler : Scheduler
scheduler = record { round_robin_count = 3; bindings = [] }

sync_loop-in_turn_example :
    sync_loop
      (λ n. 0)
      (λ _. ok (some (plain ∷ labelled ∷ [])))
      (λ _ _. true)
      round_policy
      (some four_pods)
      scheduler
    ≡ ok (record {
      round_robin_count = scheduler.round_robin_count + length four_pods;
      bindings =
          scheduler.bindings ++ in_turn plain (labelled ∷ []) scheduler.round_robin_count four_pods;
    })
sync_loop-in_turn_example = sync_loop-in_turn (λ n. 0) plain (labelled ∷ []) four_pods scheduler

nodes_in_node_affinity_policy-IsFirst_example :
    ((node : Node) × (nodes_in_node_affinity_policy
          (λ n. 0)
          (λ _. ok none)
          (λ _ _. true)
          (some (plain ∷ labelled ∷ []))
          (pod_named "a" "")
        ≡ ok (some node))
      × IsFirst (("app", "web") ∷ []) (plain ∷ labelled ∷ []) node)
    ⊎ (All (λ node. ¬ Carries (("app", "web") ∷ []) node) (plain ∷ labelled ∷ [])
        × (nodes_in_node_affinity_policy
              (λ n. 0)
              (λ _. ok none)
              (λ _ _. true)
              (some (plain ∷ labelled ∷ []))
              (pod_named "a" "")
            ≡ nodes_in_random_policy
                (λ n. 0)
                (λ _. ok none)
                (λ _ _. true)
                (some (plain ∷ labelled ∷ []))))
nodes_in_node_affinity_policy-IsFirst_example =
    nodes_in_node_affinity_policy-IsFirst (λ n. 0) (λ _. ok none) (λ _ _. true)
      (plain ∷ labelled ∷ []) (pod_named "a" "") (("app", "web") ∷ []) refl

-- Numbers in hundredths. A number that is out of range becomes the least `int32`, as on amd64.
abbrev hundredths : Floats ℕ
hundredths = record {
  add = λ a b. a + b;
  sub = λ a b. a - b;
  mul = λ a b. a * b / 100;
  div = λ a b. a * 100 / b;
  less = λ a b. ltb a b;
  of_length = λ n. n * 100;
  of_int32 = λ n. pos_part n * 100;
  int32_of_ceil = λ a. if ltb a 214748364700 then pos ((a + 99) / 100) else negsuc 2147483647;
  zero_f = 0;
  one_f = 100;
  hundred = 10000;
  cpu_up = 110;
  cpu_down = 90;
  memory_up = 150;
  memory_down = 50;
}

hundredths-IsRounding : IsRounding hundredths 2 214748364700
hundredths-IsRounding = record {
  cpu_up = λ r h small. ((growth hundredths 2 r + 99) / 100, rw small refl);
  cpu_down = λ r h small. ((shrinkage hundredths 2 r + 99) / 100, rw small refl);
  memory_up = λ r h small. ((growth hundredths 2 r + 99) / 100, rw small refl);
  memory_down = λ r h small. ((shrinkage hundredths 2 r + 99) / 100, rw small refl);
}

abbrev two_pods_a_time : ScalingPolicy
two_pods_a_time = record { type = "Pods"; value = pos 2; period_seconds = pos 60 }

abbrev half_cpu : MetricSource ℕ
half_cpu = record {
  name = "cpu";
  target = record { type = "Utilization"; average_value = 0; average_utilization = 5000 };
}

abbrev autoscaler : Autoscaler ℕ
autoscaler = record {
  kind = "HorizontalPodAutoscaler";
  metadata = meta "scaler" none;
  scale_target_name = "web";
  min_replicas = pos 1;
  max_replicas = pos 3;
  scale_window_seconds = pos 0;
  metrics = half_cpu ∷ [];
  scale_up = some two_pods_a_time;
  scale_down = some two_pods_a_time;
}

autoscaler-IsBounded : IsBounded autoscaler 1 3 2
autoscaler-IsBounded = record {
  min_replicas = refl;
  max_replicas = refl;
  low = omega arith;
  high = omega arith;
  small = omega arith;
  up = (two_pods_a_time, 2, refl, refl, omega arith, omega arith);
  down = (two_pods_a_time, 2, refl, refl, omega arith, omega arith);
}

-- Each pod uses nine tenths of a processor.
abbrev busy : Uid → ℤ → Option (Map String (List (MetricsItem ℕ)))
busy uid window = some (("c1", record { cpu_usage = 90; memory_usage = 0 } ∷ []) ∷ [])

abbrev replica_set : ReplicaSet
replica_set = record {
  metadata = meta "web" none;
  spec = record {
    replicas = pos 2;
    selector = some (("app", "web") ∷ []);
    template_metadata = meta "web" none;
    template_spec = spec_of;
  };
}

busy_asks_for_three :
    max_rps_num hundredths busy autoscaler four_pods (pos 2) (half_cpu ∷ []) (pos 0) ≡ some (pos 3)
unfolding max_rps_num wrap_32 ◌+ℤ◌ min_ℤ max_ℤ
busy_asks_for_three = refl

half_cpu-Fits : Fits hundredths busy autoscaler four_pods 2 214748364700 half_cpu
unfolding gen_avg_cpu_usage gen_avg_memory_usage
half_cpu-Fits = record {
  cpu_up = λ named up. refl;
  cpu_down = λ named down. refl;
  memory_up = λ named up. refl;
  memory_down = λ named down. refl;
}

max_rps_num-IsMost_example :
    (most : ℤ) × (max_rps_num hundredths busy autoscaler four_pods (pos 2) (half_cpu ∷ []) (pos 0)
      ≡ some most)
    × IsMost hundredths busy autoscaler four_pods 2 1 3 214748364700 hundredths-IsRounding
        autoscaler-IsBounded most
max_rps_num-IsMost_example =
    max_rps_num-IsMost hundredths busy autoscaler four_pods 2 1 3 214748364700 hundredths-IsRounding
      autoscaler-IsBounded (half_cpu ∷ []) 0 (half_cpu-Fits, tt) (0, refl, inl refl, omega arith)

conduct-IsLimited_example :
    (next : HpaState) × (conduct hundredths busy
        (λ _. replica_set ∷ [])
        autoscaler
        replica_set
        four_pods
        50
        (record { prev_act_time_map = []; updates = [] })
      ≡ some next)
    × IsLimited autoscaler replica_set 50 1 3 2
        (record { prev_act_time_map = []; updates = [] })
        next
conduct-IsLimited_example =
    conduct-IsLimited hundredths busy (λ _. replica_set ∷ []) autoscaler replica_set
      (pod_named "a" "Running")
      (pod_named "b" "Failed" ∷ pod_named "c" "Pending" ∷ pod_named "d" "Running" ∷ []) 50 1 3 2
      214748364700 (record { prev_act_time_map = []; updates = [] }) hundredths-IsRounding
      (half_cpu-Fits, tt) autoscaler-IsBounded refl
