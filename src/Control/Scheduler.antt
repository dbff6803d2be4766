-- ===== src/Control/Scheduler.antt =====
-- pkg/scheduler/scheduler.go: a node for each unscheduled pod, by the policy of the scheduler. The
-- count of the round policy is unbounded here. The resources that the selection functions take
-- are left out, since none of them reads its resources.
pub mod Rounds
pub mod Affinity
use mini_k8s.Base.{
  if◌then◌else◌, ◌==◌, nat_Eq, string_Eq, length, get_elem?, ◌>>=◌, Result, ok, err, lookup, ℕ, suc,
  ◌%◌, String, Bool, true, false, Option, none, some, List, [], ◌∷◌, ◌++◌,
}
use mini_k8s.Api.{Labels, Pod, Node}

abbrev pub round_policy : String
round_policy = "Round_Policy"

abbrev pub random_policy : String
random_policy = "Random_Policy"

abbrev pub node_affinity_policy : String
node_affinity_policy = "NodeAffinity_Policy"

-- `client_failed` is an error of the API client; `panicked` is `rand.Intn(0)`.
pub data SchedulerError : Type 0 where
  client_failed panicked : SchedulerError

-- The count of the round policy, and the bindings sent to the API server.
pub record Scheduler : Type 0 where
  pub round_robin_count : ℕ
  pub bindings : List (Pod × Node)

-- `nodes[num]`; the callers stay in range.
abbrev pub node_at : List Node → ℕ → Option Node
node_at nodes num = get_elem? nodes num

-- A nil slice and an empty one alike have no node.
unfoldable pub nodes_in_round_policy : Scheduler → Option (List Node) → Option Node × Scheduler
nodes_in_round_policy sc none = (none, sc)
nodes_in_round_policy sc (some nodes) = if length nodes == 0 then (none, sc) else (
  node_at nodes (sc.round_robin_count % length nodes),
  record sc { round_robin_count = suc sc.round_robin_count },
)

unfoldable pub labels_match : Labels → Labels → Bool
labels_match node_labels [] = true
labels_match node_labels ((key, value) ∷ labels) =
    let rest = labels_match node_labels labels in
    elim (lookup key node_labels) [ none ↦ false | some v ↦ if v == value then rest else false ]

-- A node without labels is passed over.
unfoldable pub is_affine : Labels → Node → Bool
unfolding labels_match
is_affine labels node = elim node.labels [
  | none ↦ false
  | some node_labels ↦ labels_match node_labels labels
]

unfoldable pub select_node : Labels → List Node → Option Node
unfolding is_affine
select_node labels [] = none
select_node labels (node ∷ nodes) =
    let rest = select_node labels nodes in if is_affine labels node then some node else rest

-- A loop over a nil slice has no rounds.
unfoldable pub listed : Option (List Node) → List Node
listed none = []
listed (some nodes) = nodes

-- What a round of the loop reads: `intn` is `rand.Intn` after its seeding, `inform_nodes` the
-- answer to `GetAllNodes` and `add_pod_to_node` whether that call of the client succeeds.
module _ (intn : ℕ → ℕ) (inform_nodes : Pod → Result SchedulerError (Option (List Node)))
    (add_pod_to_node : Pod → Node → Bool) where
  unfoldable pub nodes_in_random_policy : Option (List Node) → Result SchedulerError (Option Node)
  nodes_in_random_policy none = ok none
  nodes_in_random_policy (some nodes) =
      if length nodes == 0 then err panicked else ok (node_at nodes (intn (length nodes)))

  unfoldable pub nodes_in_node_affinity_policy :
      Option (List Node) → Pod → Result SchedulerError (Option Node)
  unfolding nodes_in_random_policy select_node listed
  nodes_in_node_affinity_policy nodes pod = elim pod.labels [
    | none ↦ nodes_in_random_policy nodes
    | some labels ↦ elim (select_node labels (listed nodes)) [
      | none ↦ nodes_in_random_policy nodes
      | some node ↦ ok (some node)
    ]
  ]

  unfoldable pub add_to_node : Option Node → Pod → Scheduler → Result SchedulerError Scheduler
  add_to_node none pod sc = ok sc
  add_to_node (some node) pod sc =
      if add_pod_to_node pod node
      then ok (record sc { bindings = sc.bindings ++ (pod, node) ∷ [] })
      else err client_failed

  -- The switch on the policy; another policy selects nothing.
  unfoldable pub schedule :
      String → Option (List Node) → Pod → Scheduler → Result SchedulerError Scheduler
  unfolding nodes_in_round_policy nodes_in_random_policy nodes_in_node_affinity_policy add_to_node
  schedule policy nodes pod sc =
      if policy == round_policy
      then (let (node, next) = nodes_in_round_policy sc nodes in add_to_node node pod next)
      else if policy == random_policy
      then nodes_in_random_policy nodes >>= (λ node. add_to_node node pod sc)
      else if policy == node_affinity_policy
      then nodes_in_node_affinity_policy nodes pod >>= (λ node. add_to_node node pod sc)
      else ok sc

  -- The loop over the pods of `syncLoop`; the nodes are read anew for each.
  unfoldable pub sync_pods : String → List Pod → Scheduler → Result SchedulerError Scheduler
  unfolding schedule
  sync_pods policy [] sc = ok sc
  sync_pods policy (pod ∷ pods) sc =
      inform_nodes pod
      >>= (λ nodes. schedule policy nodes pod sc >>= (λ next. sync_pods policy pods next))

  -- `none` when the unscheduled pods could not be read.
  unfoldable pub sync_loop :
      String → Option (List Pod) → Scheduler → Result SchedulerError Scheduler
  unfolding sync_pods
  sync_loop policy none sc = err client_failed
  sync_loop policy (some pods) sc = sync_pods policy pods sc
