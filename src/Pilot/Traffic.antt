-- ===== src/Pilot/Traffic.antt =====
-- What the worker of a rolling update in pilot.go has told the API server when it deletes a pod.
use mathlib.Core.List.{append_assoc}
use text.Mathlib.TextLemmas.{append_cancel_left}
use mini_k8s.Base.Ints.{ℤ, pos, negsuc, pos_part, neg_part, ◌≤ℤ◌, sub_ℕ, ◌-ℤ◌}
use mini_k8s.Base.{
  leb, if◌then◌else◌, string_Eq, nat_Eq, ◌==◌, Bool-cases, length, All, member, All-member, ℕ, zero,
  suc, ◌+◌, ◌-◌, ◌≤◌, String, ◌≡◌, refl, ap, subst, inl, inr, Bool, true, false, none, some, List,
  [], ◌∷◌, ◌++◌, map, arith,
}
use mini_k8s.Alloc.Decimal.{append}
use mini_k8s.Api.{Pod, Service, VirtualServiceSubset, RollingUpdate}
use mini_k8s.Pilot.{
  Call, set_phase, add_subset, add_virtual_service, delete_pod, add_pod, named_meta, subset_of,
  virtual_service_of, new_pod, slice, split_names, windows, round_calls, all_rounds, last_calls,
  last_names, replace_pods, prepare, first_calls, update_num, worker_calls, rolling_update_worker,
  rolling_update_running,
}
use mini_k8s.Pilot.Windows.{windows_available}

-- What the API server was told last: the two subsets of the service, and how requests are spread.
pub record View : Type 0 where
  pub blocked : List String
  pub available : List String
  pub routes : List VirtualServiceSubset

unfoldable pub posted : Service → Call → View → View
posted service (add_subset subset) view =
    if subset.name == append service.name "-blocked"
    then record view { blocked = subset.pods }
    else if subset.name == append service.name "-available"
    then record view { available = subset.pods }
    else view
posted service (add_virtual_service vs) view = record view { routes = vs.spec.subsets }
posted service call view = view

-- Only the available pods get requests.
abbrev pub KeepsOff : Service → List VirtualServiceSubset → Type 0
KeepsOff service routes =
    routes
    ≡ record { name = append service.name "-available"; weight = some (pos 1); url = none }
      ∷ record { name = append service.name "-blocked"; weight = some (pos 0); url = none }
      ∷ []

-- A pod is deleted only when it is in the blocked subset, which gets no requests, and the available
-- subset has the configured minimum of pods.
abbrev pub Allowed : ℤ → Service → View → Call → Type 0
Allowed minimum service view (delete_pod name namespace) =
    (member name view.blocked ≡ true)
    × (minimum ≤ℤ pos (length view.available))
    × KeepsOff service view.routes
Allowed minimum service view call = Unit

abbrev pub IsGuarded : ℤ → Service → View → List Call → Type 0
IsGuarded minimum service view [] = Unit
IsGuarded minimum service view (call ∷ calls) =
    Allowed minimum service view call × IsGuarded minimum service (posted service call view) calls

suffixes_apart : (name : String) → (append name "-available" == append name "-blocked") ≡ false
suffixes_apart name = elim (Bool-cases (append name "-available" == append name "-blocked")) [
  | inr apart ↦ apart
  | inl same ↦
      let texts : ◌≡◌ {A = String} "-available" "-blocked" =
        append_cancel_left name "-available" "-blocked"
          ((string_Eq.beq_iff (append name "-available") (append name "-blocked")).0 same) in
      let tested : ◌==◌ {K = String} "-available" "-blocked" ≡ true =
        (string_Eq.beq_iff "-available" "-blocked").1 texts in
      absurd (ground (arith, tested))
]

posted-blocked :
    (ru : RollingUpdate) (service : Service) (names : List String) (view : View)
    → posted service (add_subset (subset_of ru service "-blocked" names)) view
      ≡ record view { blocked = names }
unfolding posted subset_of named_meta
posted-blocked ru service names view =
    rw
      ((string_Eq.beq_iff (append service.name "-blocked") (append service.name "-blocked")).1 refl)
      refl

posted-available :
    (ru : RollingUpdate) (service : Service) (names : List String) (view : View)
    → posted service (add_subset (subset_of ru service "-available" names)) view
      ≡ record view { available = names }
unfolding posted subset_of named_meta
posted-available ru service names view =
    rw
      (
        suffixes_apart service.name,
        (string_Eq.beq_iff (append service.name "-available") (append service.name "-available")).1
            refl,
      )
      refl

sub_ℕ_sound : (a b n : ℕ) → sub_ℕ a b ≡ pos (suc n) → a ≡ b + suc n
sub_ℕ_sound a b n h = elim (Bool-cases (leb b a)) [
  | inl fits ↦
      let parts : a - b ≡ suc n =
        subst (λ t. pos_part (if t then pos (a - b) else negsuc (b - a - 1)) ≡ suc n) fits
          (ap pos_part h) in
      omega (arith, parts)
  | inr less ↦
      let parts : 0 ≡ suc n =
        subst (λ t. pos_part (if t then pos (a - b) else negsuc (b - a - 1)) ≡ suc n) less
          (ap pos_part h) in
      omega (arith, parts)
]

difference_sound :
    (minimum : ℤ) (count n : ℕ)
    → pos count -ℤ minimum ≡ pos (suc n)
    → pos_part minimum + suc n ≤ count + neg_part minimum
unfolding ◌-ℤ◌
difference_sound minimum count n h =
    omega (arith, sub_ℕ_sound (count + neg_part minimum) (0 + pos_part minimum) n h)

-- The available pods of each round.
rounds_leave_enough :
    (ru : RollingUpdate) (pods : List Pod) (n : ℕ)
    → update_num ru pods ≡ pos (suc n)
    → All
        (λ window. ru.spec.minimum_alive ≤ℤ pos (length (split_names window.0 window.1 0 pods).1))
        (windows (length pods) (suc n) 0 (length pods))
unfolding update_num
rounds_leave_enough ru pods n h =
    windows_available (length pods) (suc n) 0 ru.spec.minimum_alive pods
      (difference_sound ru.spec.minimum_alive (length pods) n h)

module _ (ru : RollingUpdate) (service : Service) (minimum : ℤ) where
  deletes-IsGuarded :
      (names : List String) (view : View) (rest : List Call)
      → All (λ name. member name view.blocked ≡ true) names
      → minimum ≤ℤ pos (length view.available)
      → KeepsOff service view.routes
      → IsGuarded minimum service view rest
      → IsGuarded minimum service view (map (λ name. delete_pod name ru.namespace) names ++ rest)
  unfolding posted
  deletes-IsGuarded [] view rest among enough off later = later
  deletes-IsGuarded (name ∷ names) view rest among enough off later =
      ((among.0, enough, off), deletes-IsGuarded names view rest among.1 enough off later)

  adds-IsGuarded :
      (pods : List Pod) (view : View) (rest : List Call)
      → IsGuarded minimum service view rest
      → IsGuarded minimum service view (map (λ pod. add_pod (new_pod ru pod)) pods ++ rest)
  unfolding posted
  adds-IsGuarded [] view rest later = later
  adds-IsGuarded (pod ∷ pods) view rest later = (tt, adds-IsGuarded pods view rest later)

  rounds-IsGuarded :
      (pods : List Pod) (rounds : List (ℕ × ℕ)) (view : View) (rest : List Call)
      → All (λ window. minimum ≤ℤ pos (length (split_names window.0 window.1 0 pods).1)) rounds
      → KeepsOff service view.routes
      → ((later : View) → IsGuarded minimum service later rest)
      → IsGuarded minimum service view (all_rounds ru service pods rounds ++ rest)
  unfolding all_rounds round_calls
  rounds-IsGuarded pods [] view rest enough off later = later view
  rounds-IsGuarded pods ((i, j) ∷ rounds) view rest enough off later =
      let names = split_names i j 0 pods in
      let after : View = record { blocked = names.0; available = names.1; routes = view.routes } in
      let more = all_rounds ru service pods rounds ++ rest in
      let deletes = map (λ name. delete_pod name ru.namespace) names.0 in
      let adds = map (λ pod. add_pod (new_pod ru pod)) (slice i j 0 pods) in
      (
        tt,
        (
          tt,
          rw
              (
                posted-blocked ru service names.0 view,
                posted-available ru service names.1 (record view { blocked = names.0 }),
                append_assoc (deletes ++ adds) (all_rounds ru service pods rounds) rest,
                append_assoc deletes adds more,
              )
              (deletes-IsGuarded names.0 after (adds ++ more)
                (All-member names.0 names.0 (λ name found. found)) enough.0 off
                (adds-IsGuarded (slice i j 0 pods) after more
                  (rounds-IsGuarded pods rounds after rest enough.1 off later))),
        ),
      )

  last-IsGuarded :
      (blocked available : List String) (view : View)
      → IsGuarded minimum service view (last_calls ru service blocked available)
  unfolding last_calls
  last-IsGuarded blocked available view = (tt, (tt, (tt, (tt, tt))))

  prepare-IsGuarded :
      (granted : Call → Bool) (call : Call) (more rest : List Call) (view : View)
      → Allowed minimum service view call
      → IsGuarded minimum service (posted service call view) (prepare granted more rest)
      → IsGuarded minimum service view (prepare granted (call ∷ more) rest)
  unfolding prepare
  prepare-IsGuarded granted call more rest view allowed later = elim (Bool-cases (granted call)) [
    | inl on ↦ rw on (allowed, later)
    | inr off ↦ rw off (allowed, tt)
  ]

  first-IsGuarded :
      (granted : Call → Bool) (rest : List Call) (view : View)
      → ((later : View) → KeepsOff service later.routes → IsGuarded minimum service later rest)
      → IsGuarded minimum service view (prepare granted (first_calls ru service) rest)
  unfolding prepare first_calls posted virtual_service_of
  first-IsGuarded granted rest view later =
      let blocked = add_subset (subset_of ru service "-blocked" []) in
      let available = add_subset (subset_of ru service "-available" []) in
      let vs = add_virtual_service (virtual_service_of ru service) in
      let before = posted service blocked view in
      let told = posted service available before in
      prepare-IsGuarded granted (set_phase rolling_update_running) (blocked ∷ available ∷ vs ∷ [])
        rest view tt
        (prepare-IsGuarded granted blocked (available ∷ vs ∷ []) rest view tt (
          prepare-IsGuarded granted available (vs ∷ []) rest before tt
            (prepare-IsGuarded granted vs [] rest told tt (later (posted service vs told) refl))))

  worker_calls-IsGuarded :
      (granted : Call → Bool) (pods : List Pod) (size : ℤ) (view : View)
      → ((n : ℕ)
          → size ≡ pos (suc n)
          → All
              (λ window. minimum ≤ℤ pos (length (split_names window.0 window.1 0 pods).1))
              (windows (length pods) (suc n) 0 (length pods)))
      → IsGuarded minimum service view (worker_calls granted ru service pods size)
  unfolding worker_calls replace_pods
  worker_calls-IsGuarded granted pods (pos zero) view enough = tt
  worker_calls-IsGuarded granted pods (negsuc n) view enough = tt
  worker_calls-IsGuarded granted pods (pos (suc n)) view enough =
      let rounds = windows (length pods) (suc n) 0 (length pods) in
      let names = last_names pods rounds in
      first-IsGuarded granted (replace_pods ru service pods (suc n)) view (λ later off.
        rounds-IsGuarded pods rounds later (last_calls ru service names.0 names.1) (enough n refl)
          off (last-IsGuarded names.0 names.1))

pub rolling_update_worker-IsGuarded :
    (granted : Call → Bool) (ru : RollingUpdate) (service : Service) (pods : List Pod) (view : View)
    → IsGuarded ru.spec.minimum_alive service view (rolling_update_worker granted ru service pods)
unfolding rolling_update_worker
rolling_update_worker-IsGuarded granted ru service pods view =
    worker_calls-IsGuarded ru service ru.spec.minimum_alive granted pods (update_num ru pods) view
      (rounds_leave_enough ru pods)
