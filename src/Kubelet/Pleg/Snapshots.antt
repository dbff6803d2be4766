-- ===== src/Kubelet/Pleg/Snapshots.antt =====
-- The two snapshots of a pod after `setCurrentPods`.
use mini_k8s.Base.{
  if◌then◌else◌, ◌==◌, nat_Eq, string_Eq, Option-cases, lookup, has, lookup-insert, IsMap,
  insert-IsMap, ◌≡◌, refl, ap, ◌∙◌, inl, inr, Option, none, some, List, [], ◌∷◌, arith,
}
use mini_k8s.Api.{Uid}
use mini_k8s.Kubelet.Types.{RuntimePod}
use mini_k8s.Kubelet.Pleg.{
  Records, get_old_pod_by_id, get_current_pod_by_id, clear_current, set_current, set_all_current,
  set_current_pods,
}

lookup-clear_current :
    (id : Uid) (rs : Records)
    → lookup id (clear_current rs)
      ≡ elim (lookup id rs) [ none ↦ none | some r ↦ some (record r { current = none }) ]
unfolding lookup clear_current
lookup-clear_current id [] = refl
lookup-clear_current id ((k, r) ∷ rs) = ground (arith, lookup-clear_current id rs)

has-clear_current : (id : Uid) (rs : Records) → has id (clear_current rs) ≡ has id rs
unfolding has clear_current
has-clear_current id [] = refl
has-clear_current id ((k, r) ∷ rs) = ground (arith, has-clear_current id rs)

clear_current-IsMap : (rs : Records) → IsMap rs → IsMap (clear_current rs)
unfolding clear_current
clear_current-IsMap [] h = tt
clear_current-IsMap ((k, r) ∷ rs) h = (has-clear_current k rs ∙ h.0, clear_current-IsMap rs h.1)

module _ (pod : RuntimePod) (rs : Records) where
  current-set_current :
      (id : Uid)
      → get_current_pod_by_id id (set_current pod rs)
        ≡ (if pod.id == id then some pod else get_current_pod_by_id id rs)
  unfolding get_current_pod_by_id set_current
  current-set_current id = elim (Option-cases (lookup pod.id rs)) [
    | inl missing ↦
        rw (missing, set_current)
          (ground (arith, lookup-insert pod.id id (record { old = none; current = some pod }) rs))
    | inr (r, present) ↦
        rw (present, set_current)
          (ground (arith, lookup-insert pod.id id (record r { current = some pod }) rs))
  ]

  old-set_current : (id : Uid) → get_old_pod_by_id id (set_current pod rs) ≡ get_old_pod_by_id id rs
  unfolding get_old_pod_by_id set_current
  old-set_current id = elim (Option-cases (lookup pod.id rs)) [
    | inl missing ↦
        rw (missing, set_current)
          (ground (
            arith,
            string_Eq.beq_iff pod.id id,
            lookup-insert pod.id id (record { old = none; current = some pod }) rs,
          ))
    | inr (r, present) ↦
        rw (present, set_current)
          (ground (
            arith,
            string_Eq.beq_iff pod.id id,
            lookup-insert pod.id id (record r { current = some pod }) rs,
          ))
  ]

  set_current-IsMap : IsMap rs → IsMap (set_current pod rs)
  unfolding set_current
  set_current-IsMap h = elim (Option-cases (lookup pod.id rs)) [
    | inl missing ↦ rw (missing, set_current) (insert-IsMap pod.id _ rs h)
    | inr (r, present) ↦ rw (present, set_current) (insert-IsMap pod.id _ rs h)
  ]

-- The pod that the list of the runtime shows under a uid: the last one, as the loop overwrites.
unfoldable pub shown : Uid → List RuntimePod → Option RuntimePod → Option RuntimePod
shown id [] before = before
shown id (pod ∷ pods) before = shown id pods (if pod.id == id then some pod else before)

module _ (id : Uid) where
  current-set_all_current :
      (pods : List RuntimePod) (rs : Records)
      → get_current_pod_by_id id (set_all_current pods rs)
        ≡ shown id pods (get_current_pod_by_id id rs)
  unfolding set_all_current shown
  current-set_all_current [] rs = refl
  current-set_all_current (pod ∷ pods) rs =
      current-set_all_current pods (set_current pod rs)
      ∙ ap (shown id pods) (current-set_current pod rs id)

  old-set_all_current :
      (pods : List RuntimePod) (rs : Records)
      → get_old_pod_by_id id (set_all_current pods rs) ≡ get_old_pod_by_id id rs
  unfolding set_all_current
  old-set_all_current [] rs = refl
  old-set_all_current (pod ∷ pods) rs =
      old-set_all_current pods (set_current pod rs) ∙ old-set_current pod rs id

  pub current-set_current_pods :
      (pods : List RuntimePod) (rs : Records)
      → get_current_pod_by_id id (set_current_pods pods rs) ≡ shown id pods none
  unfolding set_current_pods
  current-set_current_pods pods rs =
      current-set_all_current pods (clear_current rs) ∙ ap (shown id pods) cleared
    where
      cleared : get_current_pod_by_id id (clear_current rs) ≡ none
      cleared = unfold get_current_pod_by_id in ground (arith, lookup-clear_current id rs)

  pub old-set_current_pods :
      (pods : List RuntimePod) (rs : Records)
      → get_old_pod_by_id id (set_current_pods pods rs) ≡ get_old_pod_by_id id rs
  unfolding set_current_pods
  old-set_current_pods pods rs = old-set_all_current pods (clear_current rs) ∙ kept
    where
      kept : get_old_pod_by_id id (clear_current rs) ≡ get_old_pod_by_id id rs
      kept = unfold get_old_pod_by_id in ground (arith, lookup-clear_current id rs)

set_all_current-IsMap :
    (pods : List RuntimePod) (rs : Records) → IsMap rs → IsMap (set_all_current pods rs)
unfolding set_all_current
set_all_current-IsMap [] rs h = h
set_all_current-IsMap (pod ∷ pods) rs h =
    set_all_current-IsMap pods (set_current pod rs) (set_current-IsMap pod rs h)

pub set_current_pods-IsMap :
    (pods : List RuntimePod) (rs : Records) → IsMap rs → IsMap (set_current_pods pods rs)
unfolding set_current_pods
set_current_pods-IsMap pods rs h =
    set_all_current-IsMap pods (clear_current rs) (clear_current-IsMap rs h)
