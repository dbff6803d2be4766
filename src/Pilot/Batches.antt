-- ===== src/Pilot/Batches.antt =====
-- The calls that the worker of a rolling update makes, batch by batch, in pilot.go.
use mathlib.Core.List.{append_assoc, append-nil}
use mini_k8s.Base.Ints.{pos}
use mini_k8s.Base.{
  ltb, Bool-cases, length, All, ℕ, zero, suc, ◌+◌, ◌≤◌, ◌<◌, String, ◌≡◌, refl, sym, ap, ◌∙◌, inl,
  inr, Bool, true, List, [], ◌∷◌, ◌++◌, map, arith,
}
use mini_k8s.Api.{Pod, Service, RollingUpdate}
use mini_k8s.Pilot.{
  Call, set_phase, delete_pod, add_pod, new_pod, slice, split_names, windows, round_calls,
  all_rounds, last_calls, last_names, replace_pods, prepare, first_calls, update_num, worker_calls,
  rolling_update_worker, rolling_update_running, rolling_update_finished,
}
use mini_k8s.Pilot.Windows.{slice_empty, slice_all, slice_join, split_names-slice}

-- What the elements of a list give, one after the other.
unfoldable pub gather {ℓ κ} : {X : Type ℓ} {A : Type κ} → (X → List A) → List X → List A
gather f [] = []
gather f (x ∷ xs) = f x ++ gather f xs

-- What a call deletes, makes and reports.
unfoldable pub deleted_pod : Call → List (String × String)
deleted_pod (delete_pod name namespace) = (name, namespace) ∷ []
deleted_pod call = []

unfoldable pub added_pod : Call → List Pod
added_pod (add_pod pod) = pod ∷ []
added_pod call = []

unfoldable pub reported_phase : Call → List String
reported_phase (set_phase phase) = phase ∷ []
reported_phase call = []

module _ {ℓ κ} {X : Type ℓ} {A : Type κ} where
  gather-append :
      (f : X → List A) (xs ys : List X) → gather f (xs ++ ys) ≡ gather f xs ++ gather f ys
  unfolding gather
  gather-append f [] ys = refl
  gather-append f (x ∷ xs) ys =
      rw (gather-append f xs ys) (sym (append_assoc (f x) (gather f xs) (gather f ys)))

  gather_none : (xs : List X) → gather {A = A} (λ x. []) xs ≡ []
  unfolding gather
  gather_none [] = refl
  gather_none (x ∷ xs) = gather_none xs

  gather_each : (g : X → A) (xs : List X) → gather (λ x. g x ∷ []) xs ≡ map g xs
  unfolding gather
  gather_each g [] = refl
  gather_each g (x ∷ xs) = ap (◌∷◌ (g x)) (gather_each g xs)

gather-map {ℓ κ μ} :
    {X : Type ℓ} {Y : Type κ} {A : Type μ}
    → (f : Y → List A) (h : X → Y) (xs : List X) → gather f (map h xs) ≡ gather (λ x. f (h x)) xs
unfolding gather
gather-map f h [] = refl
gather-map f h (x ∷ xs) = ap (λ rest. f (h x) ++ rest) (gather-map f h xs)

module _ (ru : RollingUpdate) (service : Service) (pods : List Pod) where
  module _ {ℓ} {A : Type ℓ} (f : Call → List A) (g : Pod → List A)
      (each : (i j : ℕ)
        → gather f (round_calls ru service pods (i, j)) ≡ gather g (slice i j 0 pods)) where
    -- The rounds from pod `i` on give what the pods from `i` on do.
    gather-all_rounds :
        (fuel size i : ℕ)
        → 0 < size
        → length pods ≤ i + fuel
        → gather f (all_rounds ru service pods (windows fuel size i (length pods)))
          ≡ gather g (slice i (length pods) 0 pods)
    unfolding all_rounds windows gather
    gather-all_rounds zero size i positive enough =
        rw (slice_empty i (length pods) 0 pods (omega arith)) refl
    gather-all_rounds (suc fuel) size i positive enough =
        let later = gather-all_rounds fuel size (i + size) positive (omega arith) in
        elim (Bool-cases (ltb i (length pods))) [
          | inr done ↦ rw (done, slice_empty i (length pods) 0 pods (ground arith)) refl
          | inl more ↦ elim (Bool-cases (ltb (length pods) (i + size))) [
            | inl over ↦
                rw
                  (
                    more,
                    over,
                    gather-append f,
                    each,
                    later,
                    slice_empty (i + size) (length pods) 0 pods (ground arith),
                  )
                  (append-nil (gather g (slice i (length pods) 0 pods)))
            | inr within ↦
                rw
                  (
                    more,
                    within,
                    gather-append f,
                    each,
                    later,
                    sym (slice_join i (i + size) (length pods) 0 pods (omega arith) (ground arith)),
                    gather-append g,
                  )
                  refl
          ]
        ]

  -- The deletions and creations of a round, by pod.
  gather-batch {ℓ} :
      {A : Type ℓ}
      → (f : Call → List A) (i j : ℕ)
      → gather f (
          map (λ name. delete_pod name ru.namespace) (split_names i j 0 pods).0
          ++ map (λ pod. add_pod (new_pod ru pod)) (slice i j 0 pods))
        ≡ gather (λ pod. f (delete_pod pod.name ru.namespace)) (slice i j 0 pods)
          ++ gather (λ pod. f (add_pod (new_pod ru pod))) (slice i j 0 pods)
  gather-batch f i j =
      rw
        (
          gather-append f,
          split_names-slice i j 0 pods,
          gather-map f (λ name. delete_pod name ru.namespace),
          gather-map (λ name. f (delete_pod name ru.namespace)) (λ pod. pod.name)
              (slice i j 0 pods),
          gather-map f (λ pod. add_pod (new_pod ru pod)) (slice i j 0 pods),
        )
        refl

  each_deleted :
      (i j : ℕ)
      → gather deleted_pod (round_calls ru service pods (i, j))
        ≡ gather (λ pod. (pod.name, ru.namespace) ∷ []) (slice i j 0 pods)
  unfolding round_calls gather deleted_pod
  each_deleted i j =
      gather-batch deleted_pod i j
      ∙ ap (λ rest. gather (λ pod. (pod.name, ru.namespace) ∷ []) (slice i j 0 pods) ++ rest)
          (gather_none (slice i j 0 pods))
      ∙ append-nil (gather (λ pod. (pod.name, ru.namespace) ∷ []) (slice i j 0 pods))

  each_added :
      (i j : ℕ)
      → gather added_pod (round_calls ru service pods (i, j))
        ≡ gather (λ pod. new_pod ru pod ∷ []) (slice i j 0 pods)
  unfolding round_calls gather added_pod
  each_added i j =
      gather-batch added_pod i j
      ∙ ap (λ front. front ++ gather (λ pod. new_pod ru pod ∷ []) (slice i j 0 pods))
          (gather_none (slice i j 0 pods))

  each_reported :
      (i j : ℕ)
      → gather reported_phase (round_calls ru service pods (i, j))
        ≡ gather (λ pod. []) (slice i j 0 pods)
  unfolding round_calls gather reported_phase
  each_reported i j =
      gather-batch reported_phase i j
      ∙ ap (λ front. front ++ gather (λ pod. []) (slice i j 0 pods))
          (gather_none (slice i j 0 pods))

-- The whole run, once every first call is granted.
prepare_granted :
    (granted : Call → Bool) (calls rest : List Call)
    → All (λ call. granted call ≡ true) calls
    → prepare granted calls rest ≡ calls ++ rest
unfolding prepare
prepare_granted granted [] rest h = refl
prepare_granted granted (call ∷ calls) rest h =
    rw (h.0, prepare_granted granted calls rest h.1) refl

worker_run :
    (granted : Call → Bool) (ru : RollingUpdate) (service : Service) (pods : List Pod) (n : ℕ)
    → update_num ru pods ≡ pos (suc n)
    → All (λ call. granted call ≡ true) (first_calls ru service)
    → rolling_update_worker granted ru service pods
      ≡ first_calls ru service ++ replace_pods ru service pods (suc n)
unfolding rolling_update_worker worker_calls
worker_run granted ru service pods n h all =
    rw
      (
        h,
        prepare_granted granted (first_calls ru service) (replace_pods ru service pods (suc n)) all,
      )
      refl

-- What the rounds and the calls around them give.
gather-worker {ℓ} :
    {A : Type ℓ}
    → (f : Call → List A) (g : Pod → List A) (granted : Call → Bool) (ru : RollingUpdate)
      (service : Service) (pods : List Pod) (n : ℕ)
    → ((i j : ℕ) → gather f (round_calls ru service pods (i, j)) ≡ gather g (slice i j 0 pods))
    → update_num ru pods ≡ pos (suc n)
    → All (λ call. granted call ≡ true) (first_calls ru service)
    → (blocked : List String) × (available : List String) × (gather f
          (rolling_update_worker granted ru service pods)
        ≡ gather f (first_calls ru service)
          ++ (gather g pods ++ gather f (last_calls ru service blocked available)))
unfolding replace_pods gather
gather-worker f g granted ru service pods n each h all =
    let rounds = windows (length pods) (suc n) 0 (length pods) in
    let names = last_names pods rounds in
    (
      names.0,
      names.1,
      rw
          (
            worker_run granted ru service pods n h all,
            gather-append f,
            gather-append f,
            gather-all_rounds ru service pods f g each (length pods) (suc n) 0 (omega arith)
                (omega arith),
            slice_all 0 (length pods) 0 pods (omega arith) (omega arith),
          )
          refl,
    )

-- A worker whose round takes `n + 1` pods, and whose first calls are all granted, comes to its end.
-- It deletes each pod once, in order, by its name in the namespace of the rolling update. It makes
-- each pod anew once, in order, with the kind and metadata of before, the new spec and an empty
-- status. It reports `Running` and then `Finished`.
pub worker_replaces_each :
    (granted : Call → Bool) (ru : RollingUpdate) (service : Service) (pods : List Pod) (n : ℕ)
    → update_num ru pods ≡ pos (suc n)
    → All (λ call. granted call ≡ true) (first_calls ru service)
    → (gather deleted_pod (rolling_update_worker granted ru service pods)
        ≡ map (λ pod. (pod.name, ru.namespace)) pods)
      × (gather added_pod (rolling_update_worker granted ru service pods)
          ≡ map
              (λ pod. record {
                kind = pod.kind;
                metadata = pod.metadata;
                spec = ru.spec.new_pod_spec;
                status = record { phase = ""; pod_ip = "" };
              })
              pods)
      × (gather reported_phase (rolling_update_worker granted ru service pods)
          ≡ "Running" ∷ "Finished" ∷ [])
unfolding gather deleted_pod added_pod reported_phase first_calls last_calls new_pod
worker_replaces_each granted ru service pods n h all =
    let deletes =
      gather-worker deleted_pod (λ pod. (pod.name, ru.namespace) ∷ []) granted ru service pods n
        (each_deleted ru service pods) h all in
    let adds =
      gather-worker added_pod (λ pod. new_pod ru pod ∷ []) granted ru service pods n
        (each_added ru service pods) h all in
    let reports =
      gather-worker reported_phase (λ pod. []) granted ru service pods n
        (each_reported ru service pods) h all in
    (
      deletes.2
          ∙ append-nil (gather (λ pod. (pod.name, ru.namespace) ∷ []) pods)
          ∙ gather_each (λ pod. (pod.name, ru.namespace)) pods,
      adds.2
          ∙ append-nil (gather (λ pod. new_pod ru pod ∷ []) pods)
          ∙ gather_each (new_pod ru) pods,
      reports.2
          ∙ ap (λ front. rolling_update_running ∷ (front ++ rolling_update_finished ∷ []))
              (gather_none pods),
    )
