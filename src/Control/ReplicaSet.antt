-- ===== src/Control/ReplicaSet.antt =====
-- pkg/controller/replicaset/controller.go: the pods of a replica set counted, the surplus deleted
-- and the missing ones made.

use mini_k8s.Base.{
  if◌then◌else◌, ◌==◌, nat_Eq, string_Eq, ℕ, zero, suc, ◌+◌, ◌-◌, String, Bool, true, false, ◌||◌,
  Option, none, some, List, [], ◌∷◌, ◌++◌,
}
pub mod Balance
use mathlib.Core.Option
use mini_k8s.Base.Ints.{ℤ, pos, negsuc, ◌-ℤ◌}
use mini_k8s.Alloc.Decimal.{append}
use mini_k8s.Api.{
  Labels, Pod, ReplicaSet, ObjectMeta, PodSpec, label_or_empty, pod_running, pod_pending,
  pod_succeeded,
}

-- What the controller asks of the API server.
pub data Request : Type 0 where
  delete_pod : String → String → Request
  add_pod : Pod → Request

-- The inner loop of `oneReplicaSetMatch`: `pod.Labels[k]` is the empty text for a missing key.
unfoldable pub is_belonging : Labels → Labels → Bool
is_belonging labels [] = true
is_belonging labels ((k, v) ∷ selector) =
    let rest = is_belonging labels selector in if label_or_empty k labels == v then rest else false

-- `none` is the nil selector read at a pod that has labels, which panics.
unfoldable pub one_replica_set_match : Option Labels → List Pod → Option (List Pod)
unfolding is_belonging
one_replica_set_match selector [] = some []
one_replica_set_match selector (pod ∷ pods) =
    let rest = one_replica_set_match selector pods in
    elim pod.labels [
      | none ↦ rest
      | some labels ↦ elim selector [
        | none ↦ none
        | some wanted ↦
            if is_belonging labels wanted then Option.map (λ found. pod ∷ found) rest else rest
      ]
    ]

-- The phases that count for a replica.
unfoldable pub is_replica : Pod → Bool
is_replica pod =
    pod.status.phase == pod_running
    || (pod.status.phase == pod_pending || pod.status.phase == pod_succeeded)

-- The variables of `oneReplicaSetCheck`, with the deletions asked for.
pub record Check : Type 0 where
  pub replicas_num : ℕ
  pub state_mark : Bool
  pub deletions : List Request

-- `replicasNum == wantedNum`
unfoldable pub is_wanted : ℕ → ℤ → Bool
is_wanted n (pos w) = n == w
is_wanted n (negsuc w) = false

unfoldable pub check_pod : ℤ → Pod → Check → Check
unfolding is_wanted is_replica
check_pod wanted pod c =
    if is_wanted c.replicas_num wanted || c.state_mark
    then record c {
      state_mark = true;
      deletions = c.deletions ++ delete_pod pod.name pod.namespace ∷ [];
    }
    else if is_replica pod
    then record c { replicas_num = suc c.replicas_num }
    else c

unfoldable pub check_pods : ℤ → List Pod → Check → Check
unfolding check_pod
check_pods wanted [] c = c
check_pods wanted (pod ∷ pods) c = check_pods wanted pods (check_pod wanted pod c)

-- The number of pods to start, with the deletions made on the way.
unfoldable pub one_replica_set_check : List Pod → ℤ → ℤ × List Request
unfolding check_pods
one_replica_set_check all_pods_match wanted =
    let c =
      check_pods wanted all_pods_match
        (record { replicas_num = 0; state_mark = false; deletions = [] }) in
    (if c.state_mark then pos 0 else wanted -ℤ pos c.replicas_num, c.deletions)

-- `for i := 1; i <= toStart; i++`
unfoldable pub rounds : ℤ → ℕ
rounds (pos n) = n
rounds (negsuc n) = 0

-- `addPod` of a pod from the template. `uuid` is the text that the identifier package made.
unfoldable pub new_pod : ReplicaSet → String → Pod
new_pod rep uuid = record {
  kind = "Pod";
  metadata = record rep.spec.template_metadata {
    name = append rep.spec.template_metadata.name (append "-" uuid);
  };
  spec = rep.spec.template_spec;
  status = record { phase = ""; pod_ip = "" };
}

-- The identifiers are made one after the other: `uuids i` is the i-th.
unfoldable pub start_pods : (ℕ → String) → ReplicaSet → ℕ → ℕ → List Request
unfolding new_pod
start_pods uuids rep made zero = []
start_pods uuids rep made (suc n) =
    add_pod (new_pod rep (uuids made)) ∷ start_pods uuids rep (suc made) n

-- One replica set of a round of `syncReplicaSet`.
unfoldable pub sync_replica_set :
    (ℕ → String) → List Pod → ReplicaSet → ℕ → Option (List Request × ℕ)
unfolding one_replica_set_match one_replica_set_check rounds start_pods
sync_replica_set uuids pods rep made =
    Option.map
      (λ found.
        let (to_start, deletions) = one_replica_set_check found rep.spec.replicas in
        (deletions ++ start_pods uuids rep made (rounds to_start), made + rounds to_start))
      (one_replica_set_match rep.spec.selector pods)

-- The replica sets of a round; each sees the pods that were read at its start.
unfoldable pub sync_replica_sets :
    (ℕ → String) → List Pod → List ReplicaSet → ℕ → Option (List Request × ℕ)
unfolding sync_replica_set
sync_replica_sets uuids pods [] made = some ([], made)
sync_replica_sets uuids pods (rep ∷ reps) made = elim (sync_replica_set uuids pods rep made) [
  | none ↦ none
  | some (requests, next) ↦
      Option.map (λ r. (requests ++ r.0, r.1)) (sync_replica_sets uuids pods reps next)
]
