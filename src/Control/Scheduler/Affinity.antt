-- ===== src/Control/Scheduler/Affinity.antt =====
-- The affinity policy takes the first node that carries the labels of the pod.
use mini_k8s.Base.{
  nat_Eq, string_Eq, Bool-cases, Option-cases, All, Result, ok, lookup, ℕ, ◌≡◌, refl, ap, ◌∙◌, ◌↔◌,
  ◌⊎◌, inl, inr, Bool, true, Option, none, some, List, [], ◌∷◌, ◌++◌, arith,
}
use mini_k8s.Api.{Labels, Pod, Node}
use mini_k8s.Control.Scheduler.{
  SchedulerError, labels_match, is_affine, select_node, nodes_in_random_policy,
  nodes_in_node_affinity_policy, listed,
}

-- The node has labels, and among them each of these with its value.
abbrev pub Carries : Labels → Node → Type 0
Carries labels node =
    (held : Labels) × (node.labels ≡ some held)
    × All (λ entry. lookup entry.0 held ≡ some entry.1) labels

labels_match-All :
    (held labels : Labels)
    → (labels_match held labels ≡ true) ↔ All (λ entry. lookup entry.0 held ≡ some entry.1) labels
unfolding labels_match
labels_match-All held [] = (λ _. tt, λ _. refl)
labels_match-All held ((k, v) ∷ labels) =
    let more = labels_match-All held labels in
    elim (Option-cases (lookup k held)) [
      | inl e ↦ (λ h. ground arith, λ h. ground (arith, h.0))
      | inr (w, e) ↦ (
        λ h. (e ∙ ap some ((string_Eq.beq_iff w v).0 (ground arith)), more.0 (ground arith)),
        λ h. ground (arith, h.0, string_Eq.beq_iff w v, more.1 h.1),
      )
    ]

is_affine-Carries :
    (labels : Labels) (node : Node) → (is_affine labels node ≡ true) ↔ Carries labels node
unfolding is_affine
is_affine-Carries labels node = elim (Option-cases node.labels) [
  | inl e ↦ (λ h. ground arith, λ h. ground (arith, h.1))
  | inr (held, e) ↦ (
    λ h. (held, e, (labels_match-All held labels).0 (ground arith)),
    λ h. ground (arith, h.1, ap (λ l. l) h.1, (labels_match-All h.0 labels).1 h.2),
  )
]

-- The node carries the labels, and none before it does.
pub record IsFirst (labels : Labels) (nodes : List Node) (node : Node) : Type 0 where
  before : List Node
  after : List Node
  split : nodes ≡ before ++ node ∷ after
  carries : Carries labels node
  passed_over : All (λ other. ¬ Carries labels other) before

select_node-IsFirst :
    (labels : Labels) (nodes : List Node)
    → ((select_node labels nodes ≡ none) × All (λ node. ¬ Carries labels node) nodes)
      ⊎ ((node : Node) × (select_node labels nodes ≡ some node) × IsFirst labels nodes node)
unfolding select_node
select_node-IsFirst labels [] = inl (refl, tt)
select_node-IsFirst labels (node ∷ nodes) = elim (Bool-cases (is_affine labels node)) [
  | inl here ↦ rw here (
      inr (
        node,
        refl,
        record {
          before = [];
          after = nodes;
          split = refl;
          carries = (is_affine-Carries labels node).0 here;
          passed_over = tt;
        },
      ))
  | inr there ↦
      let apart : ¬ Carries labels node =
        λ c. ground (arith, (is_affine-Carries labels node).1 c) in
      rw there elim (select_node-IsFirst labels nodes) [
        | inl (e, all) ↦ inl (e, (apart, all))
        | inr (found, e, first) ↦ inr (
          found,
          e,
          record {
            before = node ∷ first.before;
            after = first.after;
            split = ap (λ ns. node ∷ ns) first.split;
            carries = first.carries;
            passed_over = (apart, first.passed_over);
          },
        )
      ]
]

module _ (intn : ℕ → ℕ) (inform_nodes : Pod → Result SchedulerError (Option (List Node)))
    (add_pod_to_node : Pod → Node → Bool) where
  -- For a pod that has labels, the affinity policy selects the first node whose labels hold all
  -- of the pod's with their values, and none before it does; when no node does, it does what the
  -- random policy does.
  pub nodes_in_node_affinity_policy-IsFirst :
      (nodes : List Node) (pod : Pod) (labels : Labels)
      → pod.labels ≡ some labels
      → ((node : Node) × (nodes_in_node_affinity_policy intn inform_nodes add_pod_to_node
              (some nodes)
              pod
            ≡ ok (some node))
          × IsFirst labels nodes node)
        ⊎ (All (λ node. ¬ Carries labels node) nodes
            × (nodes_in_node_affinity_policy intn inform_nodes add_pod_to_node (some nodes) pod
                ≡ nodes_in_random_policy intn inform_nodes add_pod_to_node (some nodes)))
  unfolding nodes_in_node_affinity_policy listed
  nodes_in_node_affinity_policy-IsFirst nodes pod labels h =
      elim (select_node-IsFirst labels nodes) [
        | inl (e, all) ↦ inr (all, rw (h, nodes_in_node_affinity_policy, listed, e) refl)
        | inr (node, e, first) ↦
            inl (node, rw (h, nodes_in_node_affinity_policy, listed, e) refl, first)
      ]
