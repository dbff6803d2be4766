-- ===== src/Control/Scheduler/Rounds.antt =====
-- The round policy takes the nodes in turn.
use mathlib.Core.List.{append-nil, append_assoc}
use native.Mathlib.Nat.{mod-lt, zero-lt-suc}
use mini_k8s.Base.{
  ◌==◌, nat_Eq, string_Eq, length, get_or, get_elem?, Result, ok, ℕ, zero, suc, ◌+◌, ◌%◌, ◌<◌, ◌≡◌,
  refl, sym, ap, ◌∙◌, true, false, some, List, [], ◌∷◌, ◌++◌, arith,
}
use mini_k8s.Api.{Pod, Node}
use mini_k8s.Control.Scheduler.{
  round_policy, SchedulerError, Scheduler, nodes_in_round_policy, add_to_node, schedule, sync_pods,
  sync_loop,
}

-- The node of the i-th turn.
abbrev turn : Node → List Node → ℕ → Node
turn first nodes i = get_or (first ∷ nodes) (i % length (first ∷ nodes)) first

not_zero : (n : ℕ) → (suc n == 0) ≡ false
not_zero n = ground arith

-- The pods, each with the node of its turn.
unfoldable pub in_turn : Node → List Node → ℕ → List Pod → List (Pod × Node)
in_turn first nodes i [] = []
in_turn first nodes i (pod ∷ pods) = (pod, turn first nodes i) ∷ in_turn first nodes (suc i) pods

get_elem?-eq-get_or {ℓ} :
    {A : Type ℓ} (xs : List A) (i : ℕ) (d : A)
    → i < length xs
    → get_elem? xs i ≡ some (get_or xs i d)
get_elem?-eq-get_or [] i d h = elim h [ ]
get_elem?-eq-get_or (x ∷ xs) zero d h = refl
get_elem?-eq-get_or (x ∷ xs) (suc i) d h = get_elem?-eq-get_or xs i d (omega arith)

nodes_in_round_policy-turn :
    (first : Node) (nodes : List Node) (sc : Scheduler)
    → nodes_in_round_policy sc (some (first ∷ nodes)) ≡ (
      some (turn first nodes sc.round_robin_count),
      record sc { round_robin_count = suc sc.round_robin_count },
    )
unfolding nodes_in_round_policy
nodes_in_round_policy-turn first nodes sc =
    rw (not_zero (length nodes), nodes_in_round_policy)
      (ap (λ node. (node, record sc { round_robin_count = suc sc.round_robin_count }))
        (get_elem?-eq-get_or (first ∷ nodes) (sc.round_robin_count % length (first ∷ nodes)) first
          (mod-lt sc.round_robin_count (zero-lt-suc (length nodes)))))

ok-eq :
    (n n' : ℕ) (bs bs' : List (Pod × Node))
    → n ≡ n'
    → bs ≡ bs'
    → ◌≡◌ {A = Result SchedulerError Scheduler}
        (ok (record { round_robin_count = n; bindings = bs }))
        (ok (record { round_robin_count = n'; bindings = bs' }))
ok-eq n n' bs bs' e f = rw (e, f) refl

module _ (intn : ℕ → ℕ) (first : Node) (nodes : List Node) where
  schedule-round :
      (pod : Pod) (sc : Scheduler)
      → schedule intn
          (λ _. ok (some (first ∷ nodes)))
          (λ _ _. true)
          round_policy
          (some (first ∷ nodes))
          pod
          sc
        ≡ ok (record {
          round_robin_count = suc sc.round_robin_count;
          bindings = sc.bindings ++ (pod, turn first nodes sc.round_robin_count) ∷ [];
        })
  unfolding schedule add_to_node
  schedule-round pod sc = rw (nodes_in_round_policy-turn first nodes sc, schedule) refl

  -- With at least one node, the same nodes at every read and calls that succeed, a round of the
  -- loop binds every pod, in the order of the list, to the nodes in turn: the pod that comes i
  -- pods after the first goes to the node at the count plus i modulo the number of nodes, and the
  -- count grows by the number of pods.
  pub sync_loop-in_turn :
      (pods : List Pod) (sc : Scheduler)
      → sync_loop intn (λ _. ok (some (first ∷ nodes))) (λ _ _. true) round_policy (some pods) sc
        ≡ ok (record {
          round_robin_count = sc.round_robin_count + length pods;
          bindings = sc.bindings ++ in_turn first nodes sc.round_robin_count pods;
        })
  unfolding sync_loop sync_pods in_turn
  sync_loop-in_turn [] sc =
      ok-eq sc.round_robin_count (sc.round_robin_count + 0) sc.bindings (sc.bindings ++ [])
        (omega arith) (sym (append-nil sc.bindings))
  sync_loop-in_turn (pod ∷ pods) sc =
      let next : Scheduler = record {
        round_robin_count = suc sc.round_robin_count;
        bindings = sc.bindings ++ (pod, turn first nodes sc.round_robin_count) ∷ [];
      } in
      rw (schedule-round pod sc, sync_loop, sync_pods)
        (sync_loop-in_turn pods next
          ∙ ok-eq (suc sc.round_robin_count + length pods)
              (sc.round_robin_count + suc (length pods))
              (next.bindings ++ in_turn first nodes (suc sc.round_robin_count) pods)
              (sc.bindings ++ in_turn first nodes sc.round_robin_count (pod ∷ pods)) (omega arith)
              (append_assoc sc.bindings ((pod, turn first nodes sc.round_robin_count) ∷ [])
                (in_turn first nodes (suc sc.round_robin_count) pods)))
