-- ===== src/ApiServer/Pods/StatusUpdate.antt =====
-- `PutPodStatusHandler` against the map from names to pods: the state that it leaves.
use mini_k8s.Base.{
  if◌then◌else◌, string_Eq, nat_Eq, ◌==◌, Bool-cases, ok, String, ◌≡◌, refl, sym, ◌∙◌, inl, inr,
  false, some, [], ◌∷◌,
}
use mini_k8s.Api.{Pod, PodStatus}
use mini_k8s.ApiServer.Keys.{pod_key, namespace_pod_key}
use mini_k8s.ApiServer.Etcd.{Kv}
use mini_k8s.ApiServer.Act.{Codec, decode, encode}
use mini_k8s.ApiServer.Store.{Reliable, Survives, text_at, stored-write}
use mini_k8s.ApiServer.Pods.{put_pod_status}
use mini_k8s.ApiServer.Pods.Registry.{pod_at, UidsDiffer, text_at-write_pod, pod_of-write_pod}
use mini_k8s.ApiServer.Pods.Updates.{pod_in-Survives}
use mini_k8s.ApiServer.Pods.Removal.{Leads, find_pod-Leads, only_uid}

module _ {S : Type 0} {kv : Kv S} (store : Reliable kv) (pods : Codec Pod) where
  pub after_put : String → String → S → S
  after_put key text s = store.write (pod_key (text_at store key s)) (some text) s

  pub put_pod_status-after_put :
      (new_status : PodStatus) (namespace name : String) (pod : Pod) (text : String) (s : S)
      → Leads store pods (namespace_pod_key namespace name) pod s
      → Survives pods (record pod { status = new_status }) text
      → put_pod_status kv pods (some new_status) namespace name s ≡ (
        ok (record { statuses = 200 ∷ []; body = tt }),
        after_put (namespace_pod_key namespace name) text s,
      )
  unfolding put_pod_status decode encode after_put
  put_pod_status-after_put new_status namespace name pod text s leads survives =
      let key = namespace_pod_key namespace name in
      rw
        (
          find_pod-Leads store pods namespace name pod s leads,
          decode,
          leads.parsed,
          encode,
          survives.written,
          stored-write store (pod_key (text_at store key s)) text s,
        )
        refl

  text_at-after_put :
      (key text ns n : String) (s : S)
      → text_at store (namespace_pod_key ns n) (after_put key text s)
        ≡ text_at store (namespace_pod_key ns n) s
  unfolding after_put
  text_at-after_put key text ns n s =
      text_at-write_pod store pods (text_at store key s) (some text) ns n s

  pub after_put-entries :
      (namespace name : String) (changed : Pod) (text : String) (s : S)
      → UidsDiffer store pods s
      → (text_at store (namespace_pod_key namespace name) s == "") ≡ false
      → Survives pods changed text
      → (ns n : String)
      → pod_at store pods
          (namespace_pod_key ns n)
          (after_put (namespace_pod_key namespace name) text s)
        ≡ (if namespace_pod_key namespace name == namespace_pod_key ns n
            then some changed
            else pod_at store pods (namespace_pod_key ns n) s)
  unfolding pod_at after_put
  after_put-entries namespace name changed text s differ named survives ns n =
      let key = namespace_pod_key namespace name in
      let uid = text_at store key s in
      elim (Bool-cases (key == namespace_pod_key ns n)) [
        | inl same ↦
            let here : text_at store (namespace_pod_key ns n) s ≡ uid =
              rw ((string_Eq.beq_iff key (namespace_pod_key ns n)).0 same) refl in
            rw
              (
                pod_at,
                text_at-write_pod store pods uid (some text) ns n s,
                here,
                pod_of-write_pod store pods uid uid (some text) s,
                (string_Eq.beq_iff uid uid).1 refl,
                same,
                named,
                pod_in-Survives store pods changed text survives,
              )
              refl
        | inr apart ↦
            rw
              (
                pod_at,
                text_at-write_pod store pods uid (some text) ns n s,
                pod_of-write_pod store pods uid (text_at store (namespace_pod_key ns n) s)
                    (some text) s,
                only_uid store pods namespace name ns n s differ named apart,
                apart,
              )
              refl
      ]

  pub after_put-UidsDiffer :
      (key text : String) (s : S)
      → UidsDiffer store pods s
      → UidsDiffer store pods (after_put key text s)
  after_put-UidsDiffer key text s differ ns n ns' n' full same =
      let first = text_at-after_put key text ns n s in
      let second = text_at-after_put key text ns' n' s in
      differ ns n ns' n' (rw (← first) full) (sym first ∙ same ∙ second)
