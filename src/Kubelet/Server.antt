-- ===== src/Kubelet/Server.antt =====
-- `updateLocalPods` of pkg/kubelet/app/server.go: the pods of the node, compared with those of the
-- last look. The answer of the API server is an argument, and what is sent on the channel is a list.
pub mod Diff
use mini_k8s.Base.{nat_Eq, string_Eq, Map, lookup, insert, Option, none, some, List, [], ◌∷◌, ◌++◌}
use mini_k8s.Api.{Uid, Pod}
use mini_k8s.Kubelet.Types.{PodOperation, add, delete, PodUpdate}

pub record KubeletServer : Type 0 where
  pub latest_local_pods : List Pod

unfoldable pub new_kubelet_server : KubeletServer
new_kubelet_server = record { latest_local_pods = [] }

-- `table[pod.UID] = pod` for each pod.
unfoldable pub table_of : List Pod → Map Uid Pod → Map Uid Pod
table_of [] table = table
table_of (pod ∷ pods) table = table_of pods (insert pod.uid pod table)

-- The pods whose uid is not in the table, in order.
unfoldable pub not_in_table : Map Uid Pod → List Pod → List Pod
not_in_table table [] = []
not_in_table table (pod ∷ pods) =
    let rest = not_in_table table pods in
    elim (lookup pod.uid table) [ none ↦ pod ∷ rest | some _ ↦ rest ]

unfoldable pub update_message : PodOperation → List Pod → List PodUpdate
update_message op [] = []
update_message op (pod ∷ pods) = record { pods = pod ∷ pods; op = op } ∷ []

-- `none` when the API server could not be asked.
unfoldable pub update_local_pods :
    Option (List Pod) → KubeletServer → List PodUpdate × KubeletServer
unfolding not_in_table table_of update_message
update_local_pods none kls = ([], kls)
update_local_pods (some new_local_pods) kls =
    let old_table = table_of kls.latest_local_pods [] in
    let new_table = table_of new_local_pods [] in
    let additions = not_in_table old_table new_local_pods in
    let deletions = not_in_table new_table kls.latest_local_pods in
    (
      update_message add additions ++ update_message delete deletions,
      record { latest_local_pods = new_local_pods },
    )
