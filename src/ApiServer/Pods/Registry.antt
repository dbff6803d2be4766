-- ===== src/ApiServer/Pods/Registry.antt =====
-- The pods of the store as a map from the key of a name to a pod, and what a write does to it.
use mini_k8s.Base.{
  if◌then◌else◌, string_Eq, nat_Eq, ◌==◌, Bool-cases, String, ◌≡◌, refl, inl, inr, false, Option,
  none, some,
}
use mini_k8s.Api.{Uid, Pod}
use mini_k8s.ApiServer.Keys.{pod_key, namespace_pod_key}
use mini_k8s.ApiServer.Keys.Apart.{pod_key-namespaced, namespaced-pod_key, pod_key-eq}
use mini_k8s.ApiServer.Etcd.{Kv}
use mini_k8s.ApiServer.Act.{Codec}
use mini_k8s.ApiServer.Store.{Reliable, text_of, text_at, text_at-write}

-- The object in a text, if there is one.
unfoldable pub pod_in : Codec Pod → String → Option Pod
pod_in pods text =
    let (fine, pod) = pods.unmarshal text in
    if text == "" then none else if fine then some pod else none

module _ {S : Type 0} {kv : Kv S} (store : Reliable kv) (pods : Codec Pod) where
  unfoldable pub pod_of : Uid → S → Option Pod
  pod_of uid s = if uid == "" then none else pod_in pods (text_at store (pod_key uid) s)

  -- The pod that a name leads to.
  unfoldable pub pod_at : String → S → Option Pod
  pod_at key s = pod_of (text_at store key s) s

  -- No two names lead to the same uid.
  abbrev pub UidsDiffer : S → Type 0
  UidsDiffer s =
      (namespace name namespace' name' : String)
      → (text_at store (namespace_pod_key namespace name) s == "") ≡ false
      → text_at store (namespace_pod_key namespace name) s
        ≡ text_at store (namespace_pod_key namespace' name') s
      → namespace_pod_key namespace name ≡ namespace_pod_key namespace' name'

  pub text_at-write_pod :
      (uid : Uid) (text : Option String) (namespace name : String) (s : S)
      → text_at store (namespace_pod_key namespace name) (store.write (pod_key uid) text s)
        ≡ text_at store (namespace_pod_key namespace name) s
  text_at-write_pod uid text namespace name s =
      rw
        (
          text_at-write store (pod_key uid) (namespace_pod_key namespace name) text s,
          pod_key-namespaced uid "/pods/" namespace name,
        )
        refl

  pub pod_of-write_name :
      (namespace name : String) (text : Option String) (uid : Uid) (s : S)
      → pod_of uid (store.write (namespace_pod_key namespace name) text s) ≡ pod_of uid s
  unfolding pod_of
  pod_of-write_name namespace name text uid s =
      rw
        (
          pod_of,
          text_at-write store (namespace_pod_key namespace name) (pod_key uid) text s,
          namespaced-pod_key uid "/pods/" namespace name,
        )
        refl

  pub pod_of-write_pod :
      (uid other : Uid) (text : Option String) (s : S)
      → pod_of other (store.write (pod_key uid) text s) ≡ (
          if uid == other
          then (if other == "" then none else pod_in pods (text_of text))
          else pod_of other s)
  unfolding pod_of
  pod_of-write_pod uid other text s =
      rw (pod_of, text_at-write store (pod_key uid) (pod_key other) text s, pod_key-eq uid other)
        (elim (Bool-cases (uid == other)) [ inl same ↦ rw same refl | inr apart ↦ rw apart refl ])
