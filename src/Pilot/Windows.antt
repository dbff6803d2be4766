-- ===== src/Pilot/Windows.antt =====
-- The slices of the pods that the rounds of a rolling update take, in pilot.go.
use mini_k8s.Base.Ints.{ℤ, pos, pos_part, neg_part, ◌≤ℤ◌}
use mini_k8s.Base.{
  ltb, Bool-cases, length, All, ℕ, zero, suc, ◌+◌, ◌-◌, ◌≤◌, ◌≡◌, refl, inl, inr, List, [], ◌∷◌,
  ◌++◌, map, arith,
}
use mini_k8s.Api.{Pod}
use mini_k8s.Pilot.{slice, split_names, windows}

-- Nothing is left of a slice that ends before it starts.
pub slice_empty : (i j k : ℕ) (pods : List Pod) → j ≤ i → slice i j k pods ≡ []
unfolding slice
slice_empty i j k [] h = refl
slice_empty i j k (pod ∷ pods) h = ground (arith, slice_empty i j (k + 1) pods h)

slice_past : (i j k : ℕ) (pods : List Pod) → j ≤ k → slice i j k pods ≡ []
unfolding slice
slice_past i j k [] h = refl
slice_past i j k (pod ∷ pods) h = ground (arith, slice_past i j (k + 1) pods (omega arith))

pub slice_all :
    (i j k : ℕ) (pods : List Pod) → i ≤ k → k + length pods ≤ j → slice i j k pods ≡ pods
unfolding slice
slice_all i j k [] low high = refl
slice_all i j k (pod ∷ pods) low high =
    ground (arith, slice_all i j (k + 1) pods (omega arith) (omega arith))

-- Two slices that meet are one.
pub slice_join :
    (i m j k : ℕ) (pods : List Pod)
    → i ≤ m
    → m ≤ j
    → slice i m k pods ++ slice m j k pods ≡ slice i j k pods
unfolding slice
slice_join i m j k [] low high = refl
slice_join i m j k (pod ∷ pods) low high = elim (Bool-cases (ltb k m)) [
  | inl before ↦ ground (arith, slice_join i m j (k + 1) pods low high)
  | inr after ↦
      ground
        (arith, slice_past i m (k + 1) pods (ground arith), slice_join i m j (k + 1) pods low high)
]

-- The names that are blocked are the ones of the slice.
pub split_names-slice :
    (i j k : ℕ) (pods : List Pod)
    → (split_names i j k pods).0 ≡ map (λ pod. pod.name) (slice i j k pods)
unfolding split_names slice
split_names-slice i j k [] = refl
split_names-slice i j k (pod ∷ pods) = ground (arith, split_names-slice i j (k + 1) pods)

-- How long a slice is.
slice_past_short : (i j k : ℕ) (pods : List Pod) → i ≤ k → length (slice i j k pods) ≤ j - k
unfolding slice
slice_past_short i j k [] h = omega arith
slice_past_short i j k (pod ∷ pods) h =
    ground (arith, slice_past_short i j (k + 1) pods (omega arith))

slice_short : (i j k : ℕ) (pods : List Pod) → length (slice i j k pods) ≤ j - i
unfolding slice
slice_short i j k [] = omega arith
slice_short i j k (pod ∷ pods) = elim (Bool-cases (ltb k i)) [
  | inl before ↦ ground (arith, slice_short i j (k + 1) pods)
  | inr after ↦ ground (arith, slice_past_short i j (k + 1) pods (ground arith))
]

-- Every pod is blocked or available.
available_rest :
    (i j k : ℕ) (pods : List Pod)
    → length (split_names i j k pods).1 + length (slice i j k pods) ≡ length pods
unfolding split_names slice
available_rest i j k [] = refl
available_rest i j k (pod ∷ pods) = ground (arith, available_rest i j (k + 1) pods)

-- The available pods of a round that takes `size` pods at most.
round_available :
    (size i j : ℕ) (minimum : ℤ) (pods : List Pod)
    → j ≤ i + size
    → pos_part minimum + size ≤ length pods + neg_part minimum
    → minimum ≤ℤ pos (length (split_names i j 0 pods).1)
round_available size i j minimum pods close enough =
    omega (arith, available_rest i j 0 pods, slice_short i j 0 pods)

pub windows_available :
    (fuel size i : ℕ) (minimum : ℤ) (pods : List Pod)
    → pos_part minimum + size ≤ length pods + neg_part minimum
    → All
        (λ window. minimum ≤ℤ pos (length (split_names window.0 window.1 0 pods).1))
        (windows fuel size i (length pods))
unfolding windows
windows_available zero size i minimum pods h = tt
windows_available (suc fuel) size i minimum pods h = elim (Bool-cases (ltb i (length pods))) [
  | inr done ↦ rw (done) tt
  | inl more ↦ rw (more) (
    elim (Bool-cases (ltb (length pods) (i + size))) [
      | inl over ↦ rw (over) (round_available size i (length pods) minimum pods (ground arith) h)
      | inr within ↦ rw (within) (round_available size i (i + size) minimum pods (omega arith) h)
    ],
    windows_available fuel size (i + size) minimum pods h,
  )
]
