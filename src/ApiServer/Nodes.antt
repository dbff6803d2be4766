-- ===== src/ApiServer/Nodes.antt =====
-- The handlers of nodes and of scheduling of pkg/kubeapiserver/app/routine.go. Whether `net.ParseIP`
-- accepts an address is an argument.
pub mod Bindings
pub mod Schedule
pub mod Pending
use Prim.Native.Nat.{Ordering}
use Prim.Native.String.{compare as compare_text}
use mini_k8s.Base.{
  if◌then◌else◌, string_Eq, nat_Eq, ◌==◌, ok, err, Map, member, ℕ, String, Bool, ◌||◌, not, Option,
  none, some, List, [], ◌∷◌, ◌++◌, map,
}
use mini_k8s.Api.{Uid, Time, Labels, Node, Pod}
use mini_k8s.Alloc.{alloc_node, free_node, node_pool_size}
use mini_k8s.ApiServer.Etcd.{Kv, get_sub_keys_values}
use mini_k8s.ApiServer.Act.{
  Act, Codec, Reply, ◌>>=◌, ◌>>◌, pure, refuse, require, reply, present, stored, deleted,
  deleted_below, read_below, decode, encode, decode_all,
}
use mini_k8s.ApiServer.Services.{read_bitmap}
use mini_k8s.ApiServer.Keys.{
  default_namespace, pod_key, node_key, namespace_node_key, node_pods_key, scheduled_key,
  node_bitmap_key,
}
use mini_k8s.ApiServer.Bitmaps.{bitmap_text, text_bitmap}

-- A handler that goes on after it wrote an answer: its own statuses come later.
unfoldable pub after_writing : {S A : Type 0} → List ℕ → Act S (Reply A) → Act S (Reply A)
after_writing written act s =
    let (result, s') = act s in
    elim result [
      | err later ↦ (err (written ++ later), s')
      | ok done ↦ (ok (record done { statuses = written ++ done.statuses }), s')
    ]

unfoldable pub registered_node : String → Option Labels → String → Uid → Time → Node
registered_node node_name node_labels node_address new_uid now = record {
  metadata = record {
    name = node_name;
    namespace = default_namespace;
    uid = new_uid;
    creation_timestamp = now;
    labels = node_labels;
  };
  address = node_address;
}

unfoldable pub take_node : {S : Type 0} → List ℕ → Act S (String × List ℕ)
take_node bitmap = elim (alloc_node bitmap) [ err _ ↦ refuse 500 | ok found ↦ pure found ]

unfoldable pub give_node : {S : Type 0} → String → List ℕ → Act S (List ℕ)
give_node name bitmap = elim (free_node name bitmap) [
  | err _ ↦ refuse 500
  | ok bitmap' ↦ pure bitmap'
]

-- `sort.Slice` by name, which leaves the order of equal names open.
unfoldable pub place_node : Node → List Node → List Node
place_node node [] = node ∷ []
place_node node (other ∷ nodes) =
    let rest = place_node node nodes in
    elim (compare_text other.name node.name) [
      | Ordering.lt ↦ other ∷ rest
      | _ ↦ node ∷ other ∷ nodes
    ]

unfoldable pub sort_nodes : List Node → List Node
sort_nodes [] = []
sort_nodes (node ∷ nodes) = place_node node (sort_nodes nodes)

-- The pods whose uid is not among the scheduled ones.
unfoldable pub unscheduled : List Uid → List Pod → List Pod
unscheduled scheduled [] = []
unscheduled scheduled (pod ∷ pods) =
    let rest = unscheduled scheduled pods in if member pod.uid scheduled then rest else pod ∷ rest

module _ {S : Type 0} (kv : Kv S) (nodes : Codec Node) where
  -- `RegisterNodeHandler`, from the read of the bitmap on.
  unfoldable pub register_at : Node → String → Uid → Time → Act S (Reply Node)
  register_at n address new_uid now = do
    bitmap ← read_bitmap kv node_bitmap_key node_pool_size
    (name, bitmap') ← take_node bitmap
    stored kv node_bitmap_key (bitmap_text bitmap')
    let node = registered_node name n.labels address new_uid now
    text ← encode nodes node
    stored kv (node_key new_uid) text
    stored kv (namespace_node_key default_namespace name) new_uid
    reply 201 node

  -- `RegisterNodeHandler`: an invalid address is answered, and the node registered all the same.
  unfoldable pub register_node : Option Node → String → Bool → Uid → Time → Act S (Reply Node)
  register_node none address valid new_uid now = refuse 400
  register_node (some n) address valid new_uid now =
      after_writing (if valid then [] else 400 ∷ []) (register_at n address new_uid now)

  -- `UnregisterNodeHandler`
  unfoldable pub unregister_node : String → Act S (Reply (Unit {0}))
  unregister_node name = do
    require 400 (not (name == ""))
    uid ← present kv 404 (namespace_node_key default_namespace name)
    deleted_below kv (node_pods_key name)
    deleted kv (namespace_node_key default_namespace name)
    deleted kv (node_key uid)
    bits ← present kv 500 node_bitmap_key
    bitmap ← give_node name (text_bitmap bits)
    stored kv node_bitmap_key (bitmap_text bitmap)
    reply 200 tt

  -- `GetAllNodesHandler`
  unfoldable pub get_all_nodes : Act S (Reply (List Node))
  get_all_nodes = do
    res ← read_below kv 500 "/registry/nodes"
    found ← decode_all nodes 500 res
    reply 200 (sort_nodes found)

module _ {S : Type 0} (kv : Kv S) (pods : Codec Pod) where
  -- The loop of `SchedulePodToNodeHandler` that takes the pod off the node it was on.
  unfoldable pub unbind : Uid → Map String String → Act S (Unit {0})
  unbind uid [] = pure tt
  unbind uid ((key, held) ∷ res) =
      let rest = unbind uid res in if held == uid then (do deleted kv key; rest) else rest

  -- `SchedulePodToNodeHandler`
  unfoldable pub schedule_pod_to_node : Uid → String → Act S (Reply (Unit {0}))
  schedule_pod_to_node uid node = do
    require 400 (not (uid == "" || node == ""))
    text ← present kv 404 (pod_key uid)
    pod ← decode pods 500 text
    res ← read_below kv 500 "/registry/host-nodes"
    unbind uid res
    stored kv (scheduled_key node pod.namespace pod.name) uid
    reply 200 tt

  -- `hostRes, err := GetSubKeysValues(…)`, whose error is not looked at.
  unfoldable pub scheduled_uids : Act S (List Uid)
  scheduled_uids s =
      let (found, s') = get_sub_keys_values kv "/registry/host-nodes" s in
      elim found [ none ↦ (ok [], s') | some res ↦ (ok (map (λ entry. entry.1) res), s') ]

  -- `GetUnscheduledPodHandler`
  unfoldable pub get_unscheduled_pod : Act S (Reply (List Pod))
  get_unscheduled_pod = do
    res ← read_below kv 500 "/registry/pods"
    scheduled ← scheduled_uids
    found ← decode_all pods 500 res
    reply 200 (unscheduled scheduled found)
