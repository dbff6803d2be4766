-- ===== src/ApiServer/ReplicaSets.antt =====
-- The handlers of replica sets of pkg/kubeapiserver/app/routine.go. All of them are stored under the
-- default namespace.
use mini_k8s.Base.Ints.{ℤ, wrap_32}
use mini_k8s.Base.{
  if◌then◌else◌, string_Eq, nat_Eq, ◌==◌, String, Bool, ◌||◌, not, Option, none, some, List,
}
use mini_k8s.Api.{Uid, Time, ReplicaSet}
use mini_k8s.ApiServer.Etcd.{Kv}
use mini_k8s.ApiServer.Act.{
  Act, Codec, Reply, ◌>>=◌, ◌>>◌, pure, refuse, silent, require, reply, present, absent, stored,
  deleted, read_below, decode, encode, decode_all,
}
use mini_k8s.ApiServer.Keys.{default_namespace, replica_set_key, namespace_replica_set_key}

unfoldable pub replica_set_name : ReplicaSet → String
replica_set_name rps = if rps.name == "" then "example-pod" else rps.name

unfoldable pub created_replica_set : ReplicaSet → Uid → Time → ReplicaSet
created_replica_set rps new_uid now = record rps {
  metadata = record rps.metadata { uid = new_uid; creation_timestamp = now };
}

-- The read of `MatchLabels`: a nil selector panics, which the router answers with 500; a nil map,
-- told by the flag, is refused.
unfoldable pub require_labels {ℓ} : {S : Type 0} {L : Type ℓ} → Option L → Bool → Act S (Unit {0})
require_labels none nil_labels = refuse 500
require_labels (some labels) nil_labels = require 400 (not nil_labels)

module _ {S : Type 0} (kv : Kv S) (sets : Codec ReplicaSet) where
  -- `GetAllReplicaSetsHandler`
  unfoldable pub get_all_replica_sets : Act S (Reply (List ReplicaSet))
  get_all_replica_sets = do
    res ← read_below kv 500 "/registry/replicaset"
    found ← decode_all sets 500 res
    reply 200 found

  -- `AddReplicaSetHandler`
  unfoldable pub add_replica_set : Option ReplicaSet → Bool → Uid → Time → Act S (Reply Uid)
  add_replica_set none nil_labels new_uid now = silent
  add_replica_set (some rps) nil_labels new_uid now = do
    require_labels rps.spec.selector nil_labels
    absent kv 409 (namespace_replica_set_key default_namespace (replica_set_name rps))
    stored kv (namespace_replica_set_key default_namespace (replica_set_name rps)) new_uid
    text ← encode sets (created_replica_set rps new_uid now)
    stored kv (replica_set_key new_uid) text
    reply 201 new_uid

  -- The reads of `GetReplicaSetHandler`, `UpdateReplicaSetHandler` and `DeleteReplicaSetHandler`.
  unfoldable pub find_replica_set : String → String → Act S (Uid × ReplicaSet)
  find_replica_set namespace name = do
    uid ← present kv 404 (namespace_replica_set_key namespace name)
    text ← present kv 500 (replica_set_key uid)
    rps ← decode sets 500 text
    pure (uid, rps)

  -- `GetReplicaSetHandler`
  unfoldable pub get_replica_set : String → String → Act S (Reply ReplicaSet)
  get_replica_set namespace name = do
    require 400 (not (namespace == "" || name == ""))
    (uid, rps) ← find_replica_set namespace name
    reply 200 rps

  -- `UpdateReplicaSetHandler`; the number is `none` when `strconv.Atoi` refuses it.
  unfoldable pub update_replica_set : String → String → Option ℤ → Act S (Reply ReplicaSet)
  update_replica_set namespace name none = refuse 400
  update_replica_set namespace name (some replicas) = do
    require 400 (not (namespace == "" || name == ""))
    (uid, rps) ← find_replica_set namespace name
    let rps' = record rps { spec = record rps.spec { replicas = wrap_32 replicas } }
    text ← encode sets rps'
    stored kv (replica_set_key uid) text
    reply 200 rps'

  -- `DeleteReplicaSetHandler`: the namespace of the URL must not be empty, and is not read.
  unfoldable pub delete_replica_set : String → String → Act S (Reply ReplicaSet)
  delete_replica_set namespace name = do
    require 400 (not (namespace == "" || name == ""))
    (uid, rps) ← find_replica_set default_namespace name
    deleted kv (namespace_replica_set_key default_namespace name)
    deleted kv (replica_set_key uid)
    reply 200 rps
