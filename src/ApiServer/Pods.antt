-- ===== src/ApiServer/Pods.antt =====
-- The handlers of pods of pkg/kubeapiserver/app/routine.go. A body that does not parse is `none`;
-- the new uid and the time of a creation are arguments. A nil list and an empty one are the same.
pub mod Registry
pub mod Updates
pub mod Removal
pub mod StatusUpdate
pub mod Refines
use mini_k8s.Base.{
  if◌then◌else◌, string_Eq, nat_Eq, ◌==◌, ok, Map, keys, String, not, Option, none, some, List, [],
  ◌∷◌,
}
use mini_k8s.Api.{Uid, Time, Pod, PodStatus, pod_pending}
use mini_k8s.ApiServer.Etcd.{Kv, get, delete}
use mini_k8s.ApiServer.Act.{
  Act, Codec, Reply, ◌>>=◌, ◌>>◌, pure, silent, require, reply, present, absent, stored, deleted,
  read_below, decode, encode, decode_all,
}
use mini_k8s.ApiServer.Keys.{
  pod_key, namespace_pod_key, node_pods_key, namespace_matches, namespace_pods_key,
}

abbrev default_podname : String
default_podname = "example-pod"

-- The name that the pod is stored under.
unfoldable pub pod_name : Pod → String
pod_name pod = if pod.name == "" then default_podname else pod.name

-- The object that is stored for a new pod.
unfoldable pub created_pod : Pod → String → Uid → Time → Pod
created_pod pod url_namespace new_uid now = record pod {
  metadata = record pod.metadata {
    namespace = url_namespace;
    uid = new_uid;
    creation_timestamp = now;
  };
  status = record pod.status { phase = pod_pending };
}

module _ {S : Type 0} (kv : Kv S) (pods : Codec Pod) where
  -- `GetAllPodsHandler`
  unfoldable pub get_all_pods : Act S (Reply (List Pod))
  get_all_pods = do
    res ← read_below kv 500 "/registry/pods"
    found ← decode_all pods 500 res
    reply 200 found

  -- The loop of `GetPodsByNamespaceHandler` over the uids.
  unfoldable pub pods_by_uid : Map String String → Act S (List Pod)
  pods_by_uid [] = pure []
  pods_by_uid ((key, uid) ∷ res) = do
    text ← present kv 404 (pod_key uid)
    pod ← decode pods 500 text
    more ← pods_by_uid res
    pure (pod ∷ more)

  -- `GetPodsByNamespaceHandler`
  unfoldable pub get_pods_by_namespace : String → Act S (Reply (List Pod))
  get_pods_by_namespace namespace = do
    require 404 (not (namespace == ""))
    res ← read_below kv 500 (namespace_pods_key namespace)
    found ← pods_by_uid res
    reply 200 found

  -- The two reads that find a pod by its name: its uid, then its text.
  unfoldable pub find_pod : String → String → Act S (String × String)
  find_pod namespace name = do
    uid ← present kv 404 (namespace_pod_key namespace name)
    text ← present kv 404 (pod_key uid)
    pure (uid, text)

  -- `GetPodHandler`
  unfoldable pub get_pod : String → String → Act S (Reply Pod)
  get_pod namespace name = do
    (uid, text) ← find_pod namespace name
    pod ← decode pods 500 text
    reply 200 pod

  -- `AddPodHandler`
  unfoldable pub add_pod : Option Pod → String → Uid → Time → Act S (Reply Uid)
  add_pod none url_namespace new_uid now = silent
  add_pod (some pod) url_namespace new_uid now = do
    require 400 (not (url_namespace == ""))
    require 400 (namespace_matches pod.namespace url_namespace)
    absent kv 409 (namespace_pod_key url_namespace (pod_name pod))
    stored kv (namespace_pod_key url_namespace (pod_name pod)) new_uid
    text ← encode pods (created_pod pod url_namespace new_uid now)
    stored kv (pod_key new_uid) text
    reply 201 new_uid

  -- `DeletePodHandler`
  unfoldable pub delete_pod : String → String → Act S (Reply (Unit {0}))
  delete_pod namespace name = do
    uid ← present kv 404 (namespace_pod_key namespace name)
    deleted kv (namespace_pod_key namespace name)
    present kv 404 (pod_key uid)
    deleted kv (pod_key uid)
    reply 200 tt

  -- `GetPodStatusHandler`
  unfoldable pub get_pod_status : String → String → Act S (Reply PodStatus)
  get_pod_status namespace name = do
    (uid, text) ← find_pod namespace name
    pod ← decode pods 500 text
    reply 200 pod.status

  -- `PutPodStatusHandler`
  unfoldable pub put_pod_status : Option PodStatus → String → String → Act S (Reply (Unit {0}))
  put_pod_status none namespace name = silent
  put_pod_status (some new_status) namespace name = do
    (uid, text) ← find_pod namespace name
    pod ← decode pods 500 text
    text' ← encode pods (record pod { status = new_status })
    stored kv (pod_key uid) text'
    reply 200 tt

  -- One entry of a node: the pod, or `none` when it is gone and the entry is stale.
  unfoldable pub pod_of_entry : String → Act S (Option Pod)
  pod_of_entry uid s =
      let (found, s') = get kv (pod_key uid) s in
      elim found [
        | none ↦ (ok none, s')
        | some text ↦
            if text == ""
            then (ok none, s')
            else ((do pod ← decode pods 500 text; pure (some pod)) s')
      ]

  unfoldable pub note_entry : String → Option Pod → List Pod × List String → List Pod × List String
  note_entry key none (found, stale) = (found, key ∷ stale)
  note_entry key (some pod) (found, stale) = (pod ∷ found, stale)

  -- The loop of `GetPodsByNodeHandler`: the pods, and the keys of the stale entries.
  unfoldable pub pods_of_entries : Map String String → Act S (List Pod × List String)
  pods_of_entries [] = pure ([], [])
  pods_of_entries ((key, uid) ∷ res) = do
    entry ← pod_of_entry uid
    rest ← pods_of_entries res
    pure (note_entry key entry rest)

  -- `for _, mapping := range keysToDelete { _ = Delete(mapping) }`
  unfoldable pub drop_keys : List String → S → S
  drop_keys [] s = s
  drop_keys (key ∷ keys) s = drop_keys keys (delete kv key s).1

  unfoldable pub dropped : List String → Act S (Unit {0})
  dropped keys s = (ok tt, drop_keys keys s)

  -- `GetPodsByNodeHandler`
  unfoldable pub get_pods_by_node : String → Act S (Reply (List Pod))
  get_pods_by_node node = do
    require 404 (not (node == ""))
    res ← read_below kv 404 (node_pods_key node)
    (found, stale) ← pods_of_entries res
    dropped stale
    reply 200 found
