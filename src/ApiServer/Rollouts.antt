-- ===== src/ApiServer/Rollouts.antt =====
-- The handlers of rolling updates of pkg/kubeapiserver/app/routine.go.
use mini_k8s.Base.{string_Eq, nat_Eq, ◌==◌, String, ◌||◌, not, Option, none, some, List}
use mini_k8s.Api.{Uid, Time, RollingUpdate, RollingUpdateStatus, rolling_update_pending}
use mini_k8s.ApiServer.Etcd.{Kv}
use mini_k8s.ApiServer.Act.{
  Act, Codec, Reply, ◌>>=◌, ◌>>◌, refuse, require, reply, present, not_found, text_or_empty, stored,
  deleted, read_below, decode_anyway, encode_anyway, decode_all,
}
use mini_k8s.ApiServer.Keys.{rolling_update_key, namespace_rolling_update_key}

unfoldable pub created_rolling_update : RollingUpdate → String → Uid → Time → RollingUpdate
created_rolling_update ru url_namespace new_uid now = record ru {
  metadata = record ru.metadata {
    namespace = url_namespace;
    uid = new_uid;
    creation_timestamp = now;
  };
  status = record { phase = rolling_update_pending };
}

module _ {S : Type 0} (kv : Kv S) (updates : Codec RollingUpdate) where
  -- `AddRollingUpdateHandler`
  unfoldable pub add_rolling_update :
      Option RollingUpdate → String → Uid → Time → Act S (Reply RollingUpdate)
  add_rolling_update none url_namespace new_uid now = refuse 400
  add_rolling_update (some ru) url_namespace new_uid now = do
    require 400 (not (url_namespace == ""))
    not_found kv 409 (namespace_rolling_update_key url_namespace ru.name)
    let made = created_rolling_update ru url_namespace new_uid now
    stored kv (rolling_update_key new_uid) (encode_anyway updates made)
    stored kv (namespace_rolling_update_key url_namespace ru.name) new_uid
    reply 201 made

  -- `GetAllRollingUpdatesHandler`
  unfoldable pub get_all_rolling_updates : Act S (Reply (List RollingUpdate))
  get_all_rolling_updates = do
    res ← read_below kv 500 "/registry/rollingupdates"
    found ← decode_all updates 500 res
    reply 200 found

  -- `UpdateRollingUpdateStatusHandler`
  unfoldable pub update_rolling_update_status :
      Option RollingUpdateStatus → String → String → Act S (Reply RollingUpdateStatus)
  update_rolling_update_status none namespace name = refuse 400
  update_rolling_update_status (some new_status) namespace name = do
    require 400 (not (namespace == "" || name == ""))
    uid ← present kv 404 (namespace_rolling_update_key namespace name)
    text ← present kv 500 (rolling_update_key uid)
    let ru = record (decode_anyway updates text) { status = new_status }
    stored kv (rolling_update_key uid) (encode_anyway updates ru)
    reply 200 new_status

  -- `DeleteRollingUpdateHandler`
  unfoldable pub delete_rolling_update : String → String → Act S (Reply RollingUpdate)
  delete_rolling_update namespace name = do
    require 400 (not (namespace == "" || name == ""))
    uid ← present kv 404 (namespace_rolling_update_key namespace name)
    text ← text_or_empty kv (rolling_update_key uid)
    deleted kv (namespace_rolling_update_key namespace name)
    deleted kv (rolling_update_key uid)
    reply 200 (decode_anyway updates text)
