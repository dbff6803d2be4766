-- ===== src/ApiServer/Creations.antt =====
-- The handlers that create objects: one that refuses a request has written nothing, unless the store or
-- encoding/json failed.
use mini_k8s.Base.{String, refl, Bool, true, Option, none, some, List, [], ◌∷◌}
use mini_k8s.Api.{
  Uid, Time, Pod, Node, Service, Dns, DnsRule, DnsPath, ReplicaSet, VirtualService,
  VirtualServiceSubset, SubsetObject, RollingUpdate,
}
use mini_k8s.Control.Autoscaler.{Autoscaler}
use mini_k8s.ApiServer.Keys.{namespace_subset_key, namespace_pod_key}
use mini_k8s.ApiServer.Etcd.{Kv}
use mini_k8s.ApiServer.Act.{Codec, require, present, silent}
use mini_k8s.ApiServer.Store.{Reliable}
use mini_k8s.ApiServer.Refusals.{
  ReadsOnly, ReadsOnly-bind, ReadsOnly-then, ReadsOnly-require, ReadsOnly-present, RefusesClean,
  RefusesClean-Fails500, ReadsOnly-RefusesClean, refusal_rules,
}
use mini_k8s.ApiServer.Services.{add_service}
use mini_k8s.ApiServer.Nodes.{register_node}
use mini_k8s.ApiServer.Pools.{add_service-RefusesClean, register_node-RefusesClean}
use mini_k8s.ApiServer.Pods.{add_pod}
use mini_k8s.ApiServer.DnsNames.{add_dns, backend_service, check_paths, check_rules, has_port}
use mini_k8s.ApiServer.ReplicaSets.{add_replica_set, require_labels}
use mini_k8s.ApiServer.Mesh.{
  add_virtual_service, check_subsets, has_rule, add_subset, subset_uid, check_pods,
}
use mini_k8s.ApiServer.Rollouts.{add_rolling_update}
use mini_k8s.ApiServer.Scaling.{add_scaling}

module _ {S : Type 0} {kv : Kv S} (store : Reliable kv) (services : Codec Service) where
  backend_service-ReadsOnly :
      (namespace name : String) → ReadsOnly (backend_service kv services namespace name)
  unfolding backend_service
  backend_service-ReadsOnly namespace name = search (refusal_rules, store)

  check_paths-ReadsOnly :
      (namespace : String) (paths : List DnsPath)
      → ReadsOnly (check_paths kv services namespace paths)
  unfolding check_paths
  check_paths-ReadsOnly namespace [] = search refusal_rules
  check_paths-ReadsOnly namespace (path ∷ paths) =
      ReadsOnly-bind (backend_service kv services namespace path.service.name) _
        (backend_service-ReadsOnly namespace path.service.name)
        (λ service.
          ReadsOnly-then (require 400 (has_port path.service.port service.spec.ports)) _
            (ReadsOnly-require 400 (has_port path.service.port service.spec.ports))
            (check_paths-ReadsOnly namespace paths))

  check_rules-ReadsOnly :
      (namespace : String) (rules : List DnsRule)
      → ReadsOnly (check_rules kv services namespace rules)
  unfolding check_rules
  check_rules-ReadsOnly namespace [] = search refusal_rules
  check_rules-ReadsOnly namespace (rule ∷ rules) =
      ReadsOnly-then (check_paths kv services namespace rule.paths) _
        (check_paths-ReadsOnly namespace rule.paths) (check_rules-ReadsOnly namespace rules)

module _ {S : Type 0} {kv : Kv S} (store : Reliable kv) where
  check_subsets-ReadsOnly :
      (services : Codec Service) (meshes : Codec VirtualService) (namespace : String)
      (subsets : List VirtualServiceSubset)
      → ReadsOnly (check_subsets kv services meshes namespace subsets)
  unfolding check_subsets
  check_subsets-ReadsOnly services meshes namespace [] = search refusal_rules
  check_subsets-ReadsOnly services meshes namespace (subset ∷ subsets) =
      ReadsOnly-then (present kv 400 (namespace_subset_key namespace subset.name)) _
        (ReadsOnly-present store 400 (namespace_subset_key namespace subset.name))
        (ReadsOnly-then (require 400 (has_rule subset)) _ (ReadsOnly-require 400 (has_rule subset))
          (check_subsets-ReadsOnly services meshes namespace subsets))

  check_pods-ReadsOnly :
      (subsets : Codec SubsetObject) (namespace : String) (names : List String)
      → ReadsOnly (check_pods kv subsets namespace names)
  unfolding check_pods
  check_pods-ReadsOnly subsets namespace [] = search refusal_rules
  check_pods-ReadsOnly subsets namespace (name ∷ names) =
      ReadsOnly-then (present kv 400 (namespace_pod_key namespace name)) _
        (ReadsOnly-present store 400 (namespace_pod_key namespace name))
        (check_pods-ReadsOnly subsets namespace names)

  subset_uid-ReadsOnly :
      (subsets : Codec SubsetObject) (key new_uid : String)
      → ReadsOnly (subset_uid kv subsets key new_uid)
  unfolding subset_uid
  subset_uid-ReadsOnly subsets key new_uid = search (refusal_rules, store)

  require_labels-ReadsOnly :
      {L : Type 0} (selector : Option L) (nil_labels : Bool)
      → ReadsOnly {S = S} (require_labels selector nil_labels)
  unfolding require_labels
  require_labels-ReadsOnly none nil_labels = search refusal_rules
  require_labels-ReadsOnly (some labels) nil_labels = search refusal_rules

  add_pod-RefusesClean :
      (pods : Codec Pod) (body : Option Pod) (url_namespace : String) (uid : Uid) (now : Time)
      → RefusesClean (add_pod kv pods body url_namespace uid now)
  unfolding add_pod
  add_pod-RefusesClean pods none url_namespace uid now =
      ReadsOnly-RefusesClean silent (record { at = λ s. refl })
  add_pod-RefusesClean pods (some pod) url_namespace uid now =
      search (refusal_rules, store, RefusesClean-Fails500) depth 30

  add_dns-RefusesClean :
      (services : Codec Service) (names : Codec Dns) (body : Option Dns) (url_namespace : String)
      (uid : Uid) (now : Time)
      → RefusesClean (add_dns kv services names body url_namespace uid now)
  unfolding add_dns
  add_dns-RefusesClean services names none url_namespace uid now = search refusal_rules
  add_dns-RefusesClean services names (some dns) url_namespace uid now =
      let checked = check_rules-ReadsOnly store services in
      search (refusal_rules, store, checked, RefusesClean-Fails500) depth 40 fits 20000

  add_replica_set-RefusesClean :
      (sets : Codec ReplicaSet) (body : Option ReplicaSet) (nil_labels : Bool) (uid : Uid)
      (now : Time)
      → RefusesClean (add_replica_set kv sets body nil_labels uid now)
  unfolding add_replica_set
  add_replica_set-RefusesClean sets none nil_labels uid now =
      ReadsOnly-RefusesClean silent (record { at = λ s. refl })
  add_replica_set-RefusesClean sets (some rps) nil_labels uid now =
      search (refusal_rules, store, require_labels-ReadsOnly, RefusesClean-Fails500) depth 40 fits
        20000

  add_virtual_service-RefusesClean :
      (services : Codec Service) (meshes : Codec VirtualService) (body : Option VirtualService)
      (url_namespace : String) (uid : Uid) (now : Time)
      → RefusesClean (add_virtual_service kv services meshes body url_namespace uid now)
  unfolding add_virtual_service
  add_virtual_service-RefusesClean services meshes none url_namespace uid now = search refusal_rules
  add_virtual_service-RefusesClean services meshes (some vs) url_namespace uid now =
      search (refusal_rules, store, check_subsets-ReadsOnly, RefusesClean-Fails500) depth 40 fits
        20000

  add_subset-RefusesClean :
      (subsets : Codec SubsetObject) (body : Option SubsetObject) (url_namespace : String)
      (uid : Uid) (now : Time)
      → RefusesClean (add_subset kv subsets body url_namespace uid now)
  unfolding add_subset
  add_subset-RefusesClean subsets none url_namespace uid now = search refusal_rules
  add_subset-RefusesClean subsets (some subset) url_namespace uid now =
      search
        (refusal_rules, store, subset_uid-ReadsOnly, check_pods-ReadsOnly, RefusesClean-Fails500)
        depth 40 fits 20000

  add_rolling_update-RefusesClean :
      (updates : Codec RollingUpdate) (body : Option RollingUpdate) (url_namespace : String)
      (uid : Uid) (now : Time)
      → RefusesClean (add_rolling_update kv updates body url_namespace uid now)
  unfolding add_rolling_update
  add_rolling_update-RefusesClean updates none url_namespace uid now = search refusal_rules
  add_rolling_update-RefusesClean updates (some ru) url_namespace uid now =
      search (refusal_rules, store, RefusesClean-Fails500) depth 40 fits 20000

  add_scaling-RefusesClean :
      {F : Type 0} (scalings : Codec (Autoscaler F)) (body : Option (Autoscaler F)) (uid : Uid)
      (now : Time)
      → RefusesClean (add_scaling kv scalings body uid now)
  unfolding add_scaling
  add_scaling-RefusesClean scalings none uid now = search refusal_rules
  add_scaling-RefusesClean scalings (some hpa) uid now =
      search (refusal_rules, store, RefusesClean-Fails500) depth 40 fits 20000

  -- On a store that answers every call, every handler that creates an object, whatever the request, has
  -- left the store as it was when it ends in an error, unless it answered with 500. For a node this is
  -- said of a valid address only, as the handler goes on after it refused another one.
  pub every_add-RefusesClean :
      {F : Type 0} (pods : Codec Pod) (services : Codec Service) (names : Codec Dns)
      (sets : Codec ReplicaSet) (meshes : Codec VirtualService) (subsets : Codec SubsetObject)
      (updates : Codec RollingUpdate) (scalings : Codec (Autoscaler F)) (nodes : Codec Node)
      (url_namespace : String) (uid : Uid) (now : Time)
      → ((body : Option Service)
          → RefusesClean (add_service kv services body url_namespace uid now))
        × ((body : Option Node) (address : String)
            → RefusesClean (register_node kv nodes body address true uid now))
        × ((body : Option Pod) → RefusesClean (add_pod kv pods body url_namespace uid now))
        × ((body : Option Dns)
            → RefusesClean (add_dns kv services names body url_namespace uid now))
        × ((body : Option ReplicaSet) (nil_labels : Bool)
            → RefusesClean (add_replica_set kv sets body nil_labels uid now))
        × ((body : Option VirtualService)
            → RefusesClean (add_virtual_service kv services meshes body url_namespace uid now))
        × ((body : Option SubsetObject)
            → RefusesClean (add_subset kv subsets body url_namespace uid now))
        × ((body : Option RollingUpdate)
            → RefusesClean (add_rolling_update kv updates body url_namespace uid now))
        × ((body : Option (Autoscaler F)) → RefusesClean (add_scaling kv scalings body uid now))
  every_add-RefusesClean pods services names sets meshes subsets updates scalings nodes
        url_namespace uid now =
      (
        λ body. add_service-RefusesClean store services body url_namespace uid now,
        λ body address. register_node-RefusesClean store nodes body address uid now,
        λ body. add_pod-RefusesClean pods body url_namespace uid now,
        λ body. add_dns-RefusesClean services names body url_namespace uid now,
        λ body nil_labels. add_replica_set-RefusesClean sets body nil_labels uid now,
        λ body. add_virtual_service-RefusesClean services meshes body url_namespace uid now,
        λ body. add_subset-RefusesClean subsets body url_namespace uid now,
        λ body. add_rolling_update-RefusesClean updates body url_namespace uid now,
        λ body. add_scaling-RefusesClean scalings body uid now,
      )
