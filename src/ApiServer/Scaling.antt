-- ===== src/ApiServer/Scaling.antt =====
-- The handlers of horizontal autoscalers of pkg/kubeapiserver/app/routine.go. The numbers of their
-- metrics are of any type.
use mini_k8s.Base.Ints.{ℤ, pos}
use mini_k8s.Base.{
  if◌then◌else◌, string_Eq, nat_Eq, ◌==◌, zero, String, ◌||◌, not, Option, none, some, List, [],
  ◌∷◌,
}
use mini_k8s.Api.{Uid, Time}
use mini_k8s.Control.Autoscaler.{Autoscaler}
use mini_k8s.ApiServer.Etcd.{Kv, delete}
use mini_k8s.ApiServer.Act.{
  Act, Codec, Reply, ◌>>=◌, ◌>>◌, refuse, require, reply, readable, text_or_empty, stored, deleted,
  read_below, decode, encode, decode_all,
}
use mini_k8s.ApiServer.Nodes.{after_writing}
use mini_k8s.ApiServer.Keys.{default_namespace, scaling_key, namespace_scaling_key}

abbrev scaler_type_hpa : String
scaler_type_hpa = "HorizontalPodAutoscaler"

-- `if hpa.Spec.MinReplicas == 0 { hpa.Spec.MinReplicas = 1 }`
unfoldable pub at_least_one : ℤ → ℤ
at_least_one (pos zero) = pos 1
at_least_one n = n

unfoldable pub scaling_namespace : String → String
scaling_namespace own = if own == "" then default_namespace else own

unfoldable pub created_scaling : {F : Type 0} → Autoscaler F → Uid → Time → Autoscaler F
created_scaling hpa new_uid now = record hpa {
  metadata = record hpa.metadata {
    namespace = scaling_namespace hpa.namespace;
    uid = new_uid;
    creation_timestamp = now;
  };
  min_replicas = at_least_one hpa.min_replicas;
}

module _ {S F : Type 0} (kv : Kv S) (scalings : Codec (Autoscaler F)) where
  -- `getAllScalingsFromEtcd` and `GetAllScalingHandler`
  unfoldable pub get_all_scaling : Act S (Reply (List (Autoscaler F)))
  get_all_scaling = do
    res ← read_below kv 500 "/registry/scaling"
    found ← decode_all scalings 500 res
    reply 200 found

  -- `AddScalingHandler`: an error of the first read counts as a name that is free.
  unfoldable pub add_scaling : Option (Autoscaler F) → Uid → Time → Act S (Reply (Autoscaler F))
  add_scaling none new_uid now = refuse 400
  add_scaling (some hpa) new_uid now = do
    require 400 (hpa.kind == scaler_type_hpa)
    require 400 (not (hpa.name == ""))
    held ← text_or_empty kv (namespace_scaling_key (scaling_namespace hpa.namespace) hpa.name)
    require 409 (held == "")
    text ← encode scalings (created_scaling hpa new_uid now)
    stored kv (namespace_scaling_key (scaling_namespace hpa.namespace) hpa.name) new_uid
    stored kv (scaling_key new_uid) text
    reply 201 (created_scaling hpa new_uid now)

  -- `DeleteScalingHandler`, from the second read on.
  unfoldable pub delete_scaling_object : Uid → Act S (Reply (Autoscaler F))
  delete_scaling_object uid = do
    text ← readable kv 500 (scaling_key uid)
    hpa ← decode scalings 500 text
    deleted kv (scaling_key uid)
    reply 200 hpa

  -- An error of the first `Delete` is answered, and the handler goes on.
  unfoldable pub delete_scaling_uid : String → String → Uid → Act S (Reply (Autoscaler F))
  delete_scaling_uid namespace name uid s =
      let (done, s') = delete kv (namespace_scaling_key namespace name) s in
      after_writing (if done then [] else 500 ∷ []) (delete_scaling_object uid) s'

  -- `DeleteScalingHandler`: a read that fails leaves the uid empty, which is answered first.
  unfoldable pub delete_scaling : String → String → Act S (Reply (Autoscaler F))
  delete_scaling namespace name = do
    require 400 (not (namespace == "" || name == ""))
    uid ← text_or_empty kv (namespace_scaling_key namespace name)
    require 404 (not (uid == ""))
    delete_scaling_uid namespace name uid
