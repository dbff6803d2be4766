-- ===== src/Kubelet/Server/Diff.antt =====
-- What the kubelet is told, against the two lists of pods.
use mini_k8s.Base.{
  ◌==◌, nat_Eq, string_Eq, Map, insert, has, has-lookup, lookup-has, has-insert, ◌≡◌, refl, ◌∙◌,
  Bool, false, ◌&&◌, ◌||◌, not, some, List, [], ◌∷◌, ◌++◌, arith,
}
use mini_k8s.Api.{Uid, Pod}
use mini_k8s.Kubelet.Types.{PodOperation, add, delete, update, PodUpdate}
use mini_k8s.Kubelet.Server.{
  KubeletServer, table_of, not_in_table, update_message, update_local_pods,
}

-- A pod of this uid is in the list.
unfoldable pub has_uid : Uid → List Pod → Bool
has_uid uid [] = false
has_uid uid (pod ∷ pods) = pod.uid == uid || has_uid uid pods

-- The uids that a receiver of the messages has after them, who had those of the test before.
unfoldable pub follow : List PodUpdate → (Uid → Bool) → Uid → Bool
follow [] known uid = known uid
follow (u ∷ us) known uid = elim u.op [
  | add ↦ follow us (λ i. has_uid i u.pods || known i) uid
  | delete ↦ follow us (λ i. not (has_uid i u.pods) && known i) uid
  | update ↦ follow us known uid
]

has-table_of :
    (uid : Uid) (pods : List Pod) (table : Map Uid Pod)
    → has uid (table_of pods table) ≡ (has_uid uid pods || has uid table)
unfolding table_of has_uid
has-table_of uid [] table = refl
has-table_of uid (pod ∷ pods) table =
    ground
      (arith, has-table_of uid pods (insert pod.uid pod table), has-insert pod.uid uid pod table)

has_uid-not_in_table :
    (uid : Uid) (table : Map Uid Pod) (pods : List Pod)
    → has_uid uid (not_in_table table pods) ≡ (has_uid uid pods && not (has uid table))
unfolding has_uid not_in_table
has_uid-not_in_table uid table [] = refl
has_uid-not_in_table uid table (pod ∷ pods) = ground (
  arith,
  string_Eq.beq_iff pod.uid uid,
  has_uid-not_in_table uid table pods,
  has-lookup pod.uid table,
  lookup-has pod.uid table,
)

follow-update_message :
    (op : PodOperation) (pods : List Pod) (us : List PodUpdate) (known : Uid → Bool) (uid : Uid)
    → follow (update_message op pods ++ us) known uid
      ≡ follow (record { pods = pods; op = op } ∷ us) known uid
unfolding follow update_message has_uid
follow-update_message add [] us known uid = refl
follow-update_message delete [] us known uid = refl
follow-update_message update [] us known uid = refl
follow-update_message op (pod ∷ pods) us known uid = refl

follow-update_message_last :
    (op : PodOperation) (pods : List Pod) (known : Uid → Bool) (uid : Uid)
    → follow (update_message op pods) known uid
      ≡ follow (record { pods = pods; op = op } ∷ []) known uid
unfolding follow update_message has_uid
follow-update_message_last add [] known uid = refl
follow-update_message_last delete [] known uid = refl
follow-update_message_last update [] known uid = refl
follow-update_message_last op (pod ∷ pods) known uid = refl

-- Who knew just the uids of the last look and follows the messages knows just those of the new one.
pub follow-update_local_pods :
    (pods : List Pod) (kls : KubeletServer) (uid : Uid)
    → follow (update_local_pods (some pods) kls).0 (λ i. has_uid i kls.latest_local_pods) uid
      ≡ has_uid uid pods
unfolding update_local_pods follow has
follow-update_local_pods pods kls uid =
    let old = kls.latest_local_pods in
    let additions = not_in_table (table_of old []) pods in
    let deletions = not_in_table (table_of pods []) old in
    follow-update_message add additions (update_message delete deletions) (λ i. has_uid i old) uid
    ∙ follow-update_message_last delete deletions (λ i. has_uid i additions || has_uid i old) uid
    ∙ ground (
      arith,
      has_uid-not_in_table uid (table_of old []) pods,
      has_uid-not_in_table uid (table_of pods []) old,
      has-table_of uid old [],
      has-table_of uid pods [],
    )
