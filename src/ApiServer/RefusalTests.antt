-- ===== src/ApiServer/RefusalTests.antt =====
-- The theorem on refusals at a store in memory and one object of each kind.
use mini_k8s.Base.Ints.{pos}
use mini_k8s.Base.{ℕ, String, Bool, true, Option, none, [], ◌∷◌}
use mini_k8s.Api.{Pod, Service, Node, Dns, ReplicaSet, VirtualService, SubsetObject, RollingUpdate}
use mini_k8s.Control.Autoscaler.{Autoscaler}
use mini_k8s.ApiServer.MapStore.{map_kv, map_store}
use mini_k8s.ApiServer.Refusals.{RefusesClean}
use mini_k8s.ApiServer.Pods.{add_pod}
use mini_k8s.ApiServer.DnsNames.{add_dns}
use mini_k8s.ApiServer.ReplicaSets.{add_replica_set}
use mini_k8s.ApiServer.Services.{add_service}
use mini_k8s.ApiServer.Nodes.{register_node}
use mini_k8s.ApiServer.Mesh.{add_virtual_service, add_subset}
use mini_k8s.ApiServer.Rollouts.{add_rolling_update}
use mini_k8s.ApiServer.Scaling.{add_scaling}
use mini_k8s.ApiServer.Creations.{every_add-RefusesClean}
use mini_k8s.ApiServer.Tests.{meta, two_codec, web}
use mini_k8s.ApiServer.ServiceTests.{shop}

abbrev site : Dns
site = record { kind = "DNS"; metadata = meta "site" ""; rules = [] }

abbrev pair : ReplicaSet
pair = record {
  metadata = meta "pair" "";
  spec = record {
    replicas = pos 2;
    selector = none;
    template_metadata = meta "pair" "";
    template_spec = web.spec;
  };
}

abbrev mesh : VirtualService
mesh = record {
  kind = "VirtualService";
  metadata = meta "mesh" "";
  spec = record { service_ref = "shop"; port = 80; subsets = [] };
}

abbrev part : SubsetObject
part = record { kind = "Subset"; metadata = meta "part" ""; pods = "web" ∷ [] }

abbrev rollout : RollingUpdate
rollout = record {
  metadata = meta "rollout" "";
  spec = record {
    service_ref = "shop";
    port = 80;
    minimum_alive = pos 1;
    interval = 5;
    new_pod_spec = web.spec;
  };
  status = record { phase = "" };
}

abbrev scaler : Autoscaler ℕ
scaler = record {
  kind = "HorizontalPodAutoscaler";
  metadata = meta "scaler" "";
  scale_target_name = "pair";
  min_replicas = pos 0;
  max_replicas = pos 4;
  scale_window_seconds = pos 15;
  metrics = [];
  scale_up = none;
  scale_down = none;
}

abbrev host : Node
host = record { metadata = meta "host" ""; address = "10.0.0.2" }

every_add-RefusesClean_example :
    ((body : Option Service)
      → RefusesClean (add_service map_kv (two_codec shop shop) body "default" "u7" 9))
    × ((body : Option Node) (address : String)
        → RefusesClean (register_node map_kv (two_codec host host) body address true "u7" 9))
    × ((body : Option Pod)
        → RefusesClean (add_pod map_kv (two_codec web web) body "default" "u7" 9))
    × ((body : Option Dns)
        → RefusesClean
            (add_dns map_kv (two_codec shop shop) (two_codec site site) body "default" "u7" 9))
    × ((body : Option ReplicaSet) (nil_labels : Bool)
        → RefusesClean (add_replica_set map_kv (two_codec pair pair) body nil_labels "u7" 9))
    × ((body : Option VirtualService)
        → RefusesClean (
            add_virtual_service map_kv
              (two_codec shop shop)
              (two_codec mesh mesh)
              body
              "default"
              "u7"
              9))
    × ((body : Option SubsetObject)
        → RefusesClean (add_subset map_kv (two_codec part part) body "default" "u7" 9))
    × ((body : Option RollingUpdate)
        → RefusesClean
            (add_rolling_update map_kv (two_codec rollout rollout) body "default" "u7" 9))
    × ((body : Option (Autoscaler ℕ))
        → RefusesClean (add_scaling map_kv (two_codec scaler scaler) body "u7" 9))
every_add-RefusesClean_example =
    every_add-RefusesClean map_store (two_codec web web) (two_codec shop shop) (two_codec site site)
      (two_codec pair pair) (two_codec mesh mesh) (two_codec part part) (two_codec rollout rollout)
      (two_codec scaler scaler) (two_codec host host) "default" "u7" 9
