-- ===== src/Control/ReplicaSet/Balance.antt =====
-- Whom the check of a replica set keeps, deletes and adds.
use mini_k8s.Base.{
  if◌then◌else◌, ◌==◌, nat_Eq, string_Eq, Bool-cases, ℕ, suc, ◌+◌, ◌-◌, ◌≤◌, ◌≡◌, refl, sym, ap,
  ◌∙◌, ◌⊎◌, inl, inr, true, false, ◌||◌, List, [], ◌∷◌, ◌++◌, map, arith,
}
use mathlib.Core.List.{append_assoc, append-nil}
use mini_k8s.Base.Ints.{ℤ, pos, ◌-ℤ◌}
use mini_k8s.Api.{Pod}
use mini_k8s.Control.ReplicaSet.{
  Request, delete_pod, is_replica, Check, is_wanted, check_pod, check_pods, one_replica_set_check,
}

-- How many of the pods count for a replica.
unfoldable pub replicas : List Pod → ℕ
replicas [] = 0
replicas (pod ∷ pods) = if is_replica pod then suc (replicas pods) else replicas pods

abbrev pub deletions_of : List Pod → List Request
deletions_of pods = map (λ pod. delete_pod pod.name pod.namespace) pods

replicas-append : (xs ys : List Pod) → replicas (xs ++ ys) ≡ replicas xs + replicas ys
unfolding replicas
replicas-append [] ys = omega arith
replicas-append (x ∷ xs) ys = ground (arith, replicas-append xs ys)

-- A check of the pods from the counts of `c` splits them: those before the mark and the others.
record Split (w : ℕ) (pods : List Pod) (c r : Check) : Type 0 where
  kept : List Pod
  gone : List Pod
  split : pods ≡ kept ++ gone
  deleted : r.deletions ≡ c.deletions ++ deletions_of gone
  counted : r.replicas_num ≡ c.replicas_num + replicas kept
  bounded : r.replicas_num ≤ w
  marked : ((r.state_mark ≡ false) × (gone ≡ [])) ⊎ ((r.state_mark ≡ true) × (r.replicas_num ≡ w))

module _ (w : ℕ) where
  check_pod-marks :
      (pod : Pod) (c : Check)
      → (is_wanted c.replicas_num (pos w) || c.state_mark) ≡ true
      → check_pod (pos w) pod c ≡ record c {
        state_mark = true;
        deletions = c.deletions ++ delete_pod pod.name pod.namespace ∷ [];
      }
  unfolding check_pod
  check_pod-marks pod c h = rw (h, check_pod) refl

  -- From the counts of `c` on every one of the pods is deleted.
  DeletesAll : List Pod → Check → Type 0
  DeletesAll pods c =
      ((check_pods (pos w) pods c).deletions ≡ c.deletions ++ deletions_of pods)
      × ((check_pods (pos w) pods c).state_mark ≡ true)
      × ((check_pods (pos w) pods c).replicas_num ≡ c.replicas_num)

  marked_by : Pod → Check → Check
  marked_by pod c = record c {
    state_mark = true;
    deletions = c.deletions ++ delete_pod pod.name pod.namespace ∷ [];
  }

  mark-DeletesAll :
      (pod : Pod) (pods : List Pod) (c : Check)
      → (is_wanted c.replicas_num (pos w) || c.state_mark) ≡ true
      → DeletesAll pods (marked_by pod c)
      → DeletesAll (pod ∷ pods) c
  unfolding DeletesAll marked_by check_pods
  mark-DeletesAll pod pods c h m =
      rw (check_pod-marks pod c h, check_pods)
        (
          m.0
              ∙ append_assoc c.deletions (delete_pod pod.name pod.namespace ∷ [])
                  (deletions_of pods),
          m.1,
          m.2,
        )

  check_pods-DeletesAll : (pods : List Pod) (c : Check) → c.state_mark ≡ true → DeletesAll pods c
  unfolding DeletesAll marked_by check_pods
  check_pods-DeletesAll [] c h = (sym (append-nil c.deletions), h, refl)
  check_pods-DeletesAll (pod ∷ pods) c h =
      mark-DeletesAll pod pods c (ground arith) (check_pods-DeletesAll pods (marked_by pod c) refl)

  check_pod-counts :
      (pod : Pod) (c : Check)
      → (is_wanted c.replicas_num (pos w) || c.state_mark) ≡ false
      → check_pod (pos w) pod c
        ≡ (if is_replica pod then record c { replicas_num = suc c.replicas_num } else c)
  unfolding check_pod
  check_pod-counts pod c h = rw (h, check_pod) refl

  kept_more :
      (pod : Pod) (pods : List Pod) (c c' r : Check)
      → c'.deletions ≡ c.deletions
      → c'.replicas_num ≡ c.replicas_num + replicas (pod ∷ [])
      → Split w pods c' r
      → Split w (pod ∷ pods) c r
  unfolding replicas
  kept_more pod pods c c' r d n s = record {
    kept = pod ∷ s.kept;
    gone = s.gone;
    split = ap (λ ps. pod ∷ ps) s.split;
    deleted = s.deleted ∙ ap (λ ds. ds ++ deletions_of s.gone) d;
    counted = ground (arith, s.counted);
    bounded = s.bounded;
    marked = s.marked;
  }

  check_pods-Split :
      (pods : List Pod) (c : Check)
      → c.state_mark ≡ false
      → c.replicas_num ≤ w
      → Split w pods c (check_pods (pos w) pods c)
  unfolding check_pods is_wanted replicas DeletesAll marked_by
  check_pods-Split [] c h b = record {
    kept = [];
    gone = [];
    split = refl;
    deleted = sym (append-nil c.deletions);
    counted = omega arith;
    bounded = b;
    marked = inl (h, refl);
  }
  check_pods-Split (pod ∷ pods) c h b = elim (Bool-cases (c.replicas_num == w)) [
    | inl full ↦
        let m =
          mark-DeletesAll pod pods c (ground arith)
            (check_pods-DeletesAll pods (marked_by pod c) refl) in
        record {
          kept = [];
          gone = pod ∷ pods;
          split = refl;
          deleted = m.0;
          counted = omega (arith, m.2);
          bounded = omega (arith, m.2);
          marked = inr (m.1, m.2 ∙ (nat_Eq.beq_iff c.replicas_num w).0 full);
        }
    | inr more ↦
        rw (check_pod-counts pod c (ground arith), check_pods)
          elim (Bool-cases (is_replica pod)) [
            | inl counts ↦ rw counts (
                kept_more pod pods c (record c { replicas_num = suc c.replicas_num })
                  (check_pods (pos w) pods (record c { replicas_num = suc c.replicas_num })) refl
                  (ground arith)
                  (check_pods-Split pods (record c { replicas_num = suc c.replicas_num }) h
                    (ground (arith, nat_Eq.beq_iff c.replicas_num w))))
            | inr other ↦ rw other (
                kept_more pod pods c c (check_pods (pos w) pods c) refl (ground arith)
                  (check_pods-Split pods c h b))
          ]
  ]

-- The outcome of a check that wants `w` pods: the pods that it asks to delete are the last ones.
pub record IsBalanced (w : ℕ) (pods : List Pod) (r : ℤ × List Request) : Type 0 where
  kept : List Pod
  gone : List Pod
  split : pods ≡ kept ++ gone
  deleted : r.1 ≡ deletions_of gone
  started : r.0 ≡ pos (w - replicas pods)
  surplus : replicas gone ≡ replicas pods - w

sub-pos : (a b : ℕ) → b ≤ a → pos a -ℤ pos b ≡ pos (a - b)
unfolding ◌-ℤ◌
sub-pos a b h = ground arith

Split-IsBalanced :
    (w : ℕ) (pods : List Pod) (c : Check)
    → Split w pods (record { replicas_num = 0; state_mark = false; deletions = [] }) c
    → IsBalanced w pods (if c.state_mark then pos 0 else pos w -ℤ pos c.replicas_num, c.deletions)
unfolding replicas
Split-IsBalanced w pods c s =
    let total : replicas pods ≡ replicas s.kept + replicas s.gone =
      ap replicas s.split ∙ replicas-append s.kept s.gone in
    record {
      kept = s.kept;
      gone = s.gone;
      split = s.split;
      deleted = s.deleted;
      started = elim s.marked [
        | inl (m, g) ↦ rw m (
            sub-pos w c.replicas_num s.bounded
            ∙ ap (λ n. pos (w - n)) (omega (arith, total, s.counted, ap replicas g)))
        | inr (m, n) ↦ rw m (ap pos (omega (arith, total, s.counted, n)))
      ];
      surplus = elim s.marked [
        | inl (m, g) ↦ omega (arith, total, s.counted, s.bounded, ap replicas g)
        | inr (m, n) ↦ omega (arith, total, s.counted, n)
      ];
    }

-- For a wanted number that is not negative: the check asks to delete a tail of the matching pods
-- that holds exactly the replicas beyond the wanted number, and to start exactly as many pods as
-- there are replicas missing. So with the wanted number of replicas it starts none and deletes
-- no replica.
pub one_replica_set_check-IsBalanced :
    (pods : List Pod) (w : ℕ) → IsBalanced w pods (one_replica_set_check pods (pos w))
unfolding one_replica_set_check
one_replica_set_check-IsBalanced pods w =
    Split-IsBalanced w pods
      (check_pods (pos w) pods (record { replicas_num = 0; state_mark = false; deletions = [] }))
      (check_pods-Split w pods (record { replicas_num = 0; state_mark = false; deletions = [] })
        refl (omega arith))
