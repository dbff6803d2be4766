-- ===== src/Kubelet/PodManager/Agreement.antt =====
-- The two maps of the pod manager hold the same pods.
use mini_k8s.Base.{
  if◌then◌else◌, ◌==◌, nat_Eq, string_Eq, lookup, lookup-insert, lookup-erase, String, ◌≡◌, ◌≢◌,
  ◌↔◌, none, some, arith,
}
use mini_k8s.Api.{Uid, Pod}
use mini_k8s.Kubelet.Types.{pod_full_name}
use mini_k8s.Kubelet.PodManager.{
  PodManager, new_pod_manager, update_pod, delete_pod, get_pod_by_uid, get_pod_by_full_name,
}

-- Each map leads to pods that stand under their own key, and that the other map knows.
pub record Agrees (pm : PodManager) : Type 0 where
  pub by_uid :
      (u : Uid) (p : Pod)
      → get_pod_by_uid u pm ≡ some p
      → (p.uid ≡ u) × (get_pod_by_full_name (pod_full_name p) pm ≡ some p)
  pub by_full_name :
      (n : String) (p : Pod)
      → get_pod_by_full_name n pm ≡ some p
      → (pod_full_name p ≡ n) × (get_pod_by_uid p.uid pm ≡ some p)

-- A pod fits a manager when it shares its uid with just those pods that share its full name.
abbrev pub Fits : Pod → PodManager → Type 0
Fits pod pm =
    (u : Uid) (p : Pod)
    → get_pod_by_uid u pm ≡ some p
    → (pod.uid ≡ p.uid) ↔ (pod_full_name pod ≡ pod_full_name p)

pub new_pod_manager-Agrees : Agrees new_pod_manager
unfolding new_pod_manager get_pod_by_uid get_pod_by_full_name lookup
new_pod_manager-Agrees = record { by_uid = λ u p h. cc; by_full_name = λ n p h. cc }

pub get_pod_by_uid-update_pod :
    (u : Uid) (pod : Pod) (pm : PodManager)
    → get_pod_by_uid u (update_pod pod pm)
      ≡ (if pod.uid == u then some pod else get_pod_by_uid u pm)
unfolding get_pod_by_uid update_pod
get_pod_by_uid-update_pod u pod pm = lookup-insert pod.uid u pod pm.pod_uid_map

get_pod_by_full_name-update_pod :
    (n : String) (pod : Pod) (pm : PodManager)
    → get_pod_by_full_name n (update_pod pod pm)
      ≡ (if pod_full_name pod == n then some pod else get_pod_by_full_name n pm)
unfolding get_pod_by_full_name update_pod
get_pod_by_full_name-update_pod n pod pm =
    lookup-insert (pod_full_name pod) n pod pm.pod_full_name_map

pub get_pod_by_uid-delete_pod :
    (u : Uid) (pod : Pod) (pm : PodManager)
    → get_pod_by_uid u (delete_pod pod pm) ≡ (if pod.uid == u then none else get_pod_by_uid u pm)
unfolding get_pod_by_uid delete_pod
get_pod_by_uid-delete_pod u pod pm = lookup-erase pod.uid u pm.pod_uid_map

get_pod_by_full_name-delete_pod :
    (n : String) (pod : Pod) (pm : PodManager)
    → get_pod_by_full_name n (delete_pod pod pm)
      ≡ (if pod_full_name pod == n then none else get_pod_by_full_name n pm)
unfolding get_pod_by_full_name delete_pod
get_pod_by_full_name-delete_pod n pod pm = lookup-erase (pod_full_name pod) n pm.pod_full_name_map

module _ (pod : Pod) (pm : PodManager) (v : Agrees pm) (fits : Fits pod pm) where
  -- Storing a pod that fits keeps the two maps in agreement.
  pub update_pod-Agrees : Agrees (update_pod pod pm)
  update_pod-Agrees = record {
    by_uid = λ u p h. grind (
      arith,
      v.by_uid u p,
      fits u p,
      get_pod_by_uid-update_pod u pod pm,
      get_pod_by_full_name-update_pod (pod_full_name p) pod pm,
      string_Eq.beq_iff pod.uid u,
      string_Eq.beq_iff (pod_full_name pod) (pod_full_name p),
    );
    by_full_name = λ n p h. grind (
      arith,
      v.by_full_name n p,
      fits p.uid p,
      get_pod_by_full_name-update_pod n pod pm,
      get_pod_by_uid-update_pod p.uid pod pm,
      string_Eq.beq_iff pod.uid p.uid,
      string_Eq.beq_iff (pod_full_name pod) n,
    );
  }

  -- Deleting a pod that fits keeps the two maps in agreement.
  pub delete_pod-Agrees : Agrees (delete_pod pod pm)
  delete_pod-Agrees = record {
    by_uid = λ u p h. grind (
      arith,
      v.by_uid u p,
      fits u p,
      get_pod_by_uid-delete_pod u pod pm,
      get_pod_by_full_name-delete_pod (pod_full_name p) pod pm,
      string_Eq.beq_iff pod.uid u,
      string_Eq.beq_iff (pod_full_name pod) (pod_full_name p),
    );
    by_full_name = λ n p h. grind (
      arith,
      v.by_full_name n p,
      fits p.uid p,
      get_pod_by_full_name-delete_pod n pod pm,
      get_pod_by_uid-delete_pod p.uid pod pm,
      string_Eq.beq_iff pod.uid p.uid,
      string_Eq.beq_iff (pod_full_name pod) n,
    );
  }

-- A pod that was replaced under its full name takes the newer pod's name entry with it when it is
-- deleted: the newer pod is still found by its uid, and no longer by its name.
pub delete_pod_hides :
    (old new : Pod) (pm : PodManager)
    → old.uid ≢ new.uid
    → pod_full_name old ≡ pod_full_name new
    → let after = delete_pod old (update_pod new (update_pod old pm)) in
      (get_pod_by_uid new.uid after ≡ some new)
      × (get_pod_by_full_name (pod_full_name new) after ≡ none)
delete_pod_hides old new pm other same = (
  ground (
    arith,
    get_pod_by_uid-delete_pod new.uid old (update_pod new (update_pod old pm)),
    get_pod_by_uid-update_pod new.uid new (update_pod old pm),
    string_Eq.beq_iff old.uid new.uid,
    string_Eq.beq_iff new.uid new.uid,
  ),
  ground (
    arith,
    get_pod_by_full_name-delete_pod (pod_full_name new) old (update_pod new (update_pod old pm)),
    string_Eq.beq_iff (pod_full_name old) (pod_full_name new),
  ),
)
