-- ===== src/ApiServer/Pods/Updates.antt =====
-- `AddPodHandler` against the map from names to pods: the state that it leaves.
use mini_k8s.Base.{
  if◌then◌else◌, string_Eq, nat_Eq, ◌==◌, Bool-cases, ok, String, ◌≡◌, refl, ◌∙◌, inl, inr, true,
  false, Option, none, some, [], ◌∷◌, arith,
}
use mini_k8s.Api.{Uid, Time, Pod}
use mini_k8s.ApiServer.Keys.{pod_key, namespace_pod_key, namespace_matches}
use mini_k8s.ApiServer.Etcd.{Kv}
use mini_k8s.ApiServer.Act.{Codec, encode}
use mini_k8s.ApiServer.Store.{
  Reliable, Survives, text_at, absent-missing, stored-write, text_at-write,
}
use mini_k8s.ApiServer.Pods.{add_pod, pod_name, created_pod}
use mini_k8s.ApiServer.Pods.Registry.{
  pod_at, UidsDiffer, pod_in, text_at-write_pod, pod_of, pod_of-write_name, pod_of-write_pod,
}

module _ {S : Type 0} {kv : Kv S} (store : Reliable kv) (pods : Codec Pod) where
  -- The state after a handler: the pod under one name is now `entry`, the others are as before, and
  -- the uids still tell names apart.
  abbrev pub PodChanges : String → Option Pod → S → S → Type 0
  PodChanges key entry s s' =
      ((namespace name : String)
        → pod_at store pods (namespace_pod_key namespace name) s' ≡ (
            if key == namespace_pod_key namespace name
            then entry
            else pod_at store pods (namespace_pod_key namespace name) s))
      × UidsDiffer store pods s'

  -- The uid is that of no name.
  abbrev pub IsFresh : Uid → S → Type 0
  IsFresh uid s =
      (namespace name : String)
      → (uid == text_at store (namespace_pod_key namespace name) s) ≡ false

  pub after_add : String → Uid → String → S → S
  after_add key uid text s = store.write (pod_key uid) (some text) (store.write key (some uid) s)

  pub add_pod-after_add :
      (pod : Pod) (url_namespace : String) (uid : Uid) (now : Time) (text : String) (s : S)
      → (url_namespace == "") ≡ false
      → namespace_matches pod.namespace url_namespace ≡ true
      → (text_at store (namespace_pod_key url_namespace (pod_name pod)) s == "") ≡ true
      → Survives pods (created_pod pod url_namespace uid now) text
      → add_pod kv pods (some pod) url_namespace uid now s ≡ (
        ok (record { statuses = 201 ∷ []; body = uid }),
        after_add (namespace_pod_key url_namespace (pod_name pod)) uid text s,
      )
  unfolding add_pod after_add encode
  add_pod-after_add pod url_namespace uid now text s given matches free survives =
      rw
        (
          given,
          matches,
          absent-missing store 409 (namespace_pod_key url_namespace (pod_name pod)) s free,
          stored-write store (namespace_pod_key url_namespace (pod_name pod)) uid s,
          encode,
          survives.written,
          stored-write store (pod_key uid) text
              (store.write (namespace_pod_key url_namespace (pod_name pod)) (some uid) s),
        )
        refl

  text_at-after_add :
      (key : String) (uid : Uid) (text : String) (s : S) (namespace name : String)
      → text_at store (namespace_pod_key namespace name) (after_add key uid text s) ≡ (
          if key == namespace_pod_key namespace name
          then uid
          else text_at store (namespace_pod_key namespace name) s)
  unfolding after_add
  text_at-after_add key uid text s namespace name =
      text_at-write_pod store pods uid (some text) namespace name (store.write key (some uid) s)
      ∙ text_at-write store key (namespace_pod_key namespace name) (some uid) s

  pod_of-after_add :
      (namespace name : String) (uid other : Uid) (text : String) (s : S)
      → pod_of store pods other (after_add (namespace_pod_key namespace name) uid text s) ≡ (
          if uid == other
          then (if other == "" then none else pod_in pods text)
          else pod_of store pods other s)
  unfolding after_add
  pod_of-after_add namespace name uid other text s =
      rw (← pod_of-write_name store pods namespace name (some uid) other s) (
        pod_of-write_pod store pods uid other (some text)
          (store.write (namespace_pod_key namespace name) (some uid) s))

  pub pod_in-Survives :
      (made : Pod) (text : String) → Survives pods made text → pod_in pods text ≡ some made
  unfolding pod_in
  pod_in-Survives made text survives = rw (survives.not_empty, survives.read_back) refl

  pub after_add-entries :
      (namespace name : String) (uid : Uid) (made : Pod) (text : String) (s : S)
      → (uid == "") ≡ false
      → IsFresh uid s
      → Survives pods made text
      → (ns n : String)
      → pod_at store pods
          (namespace_pod_key ns n)
          (after_add (namespace_pod_key namespace name) uid text s)
        ≡ (if namespace_pod_key namespace name == namespace_pod_key ns n
            then some made
            else pod_at store pods (namespace_pod_key ns n) s)
  unfolding pod_at
  after_add-entries namespace name uid made text s named fresh survives ns n =
      elim (Bool-cases (namespace_pod_key namespace name == namespace_pod_key ns n)) [
        | inl same ↦
            rw
              (
                pod_at,
                text_at-after_add (namespace_pod_key namespace name) uid text s ns n,
                same,
                pod_of-after_add namespace name uid uid text s,
                (string_Eq.beq_iff uid uid).1 refl,
                named,
                pod_in-Survives made text survives,
              )
              refl
        | inr apart ↦
            rw
              (
                pod_at,
                text_at-after_add (namespace_pod_key namespace name) uid text s ns n,
                apart,
                pod_of-after_add namespace name uid (text_at store (namespace_pod_key ns n) s) text
                    s,
                fresh ns n,
              )
              refl
      ]

  pub after_add-UidsDiffer :
      (namespace name : String) (uid : Uid) (text : String) (s : S)
      → IsFresh uid s
      → UidsDiffer store pods s
      → UidsDiffer store pods (after_add (namespace_pod_key namespace name) uid text s)
  after_add-UidsDiffer namespace name uid text s fresh differ ns n ns' n' full same = ground (
    arith,
    text_at-after_add (namespace_pod_key namespace name) uid text s ns n,
    text_at-after_add (namespace_pod_key namespace name) uid text s ns' n',
    fresh ns n,
    fresh ns' n',
    differ ns n ns' n',
    string_Eq.beq_iff (namespace_pod_key namespace name) (namespace_pod_key ns n),
    string_Eq.beq_iff (namespace_pod_key namespace name) (namespace_pod_key ns' n'),
    string_Eq.beq_iff uid (text_at store (namespace_pod_key ns n) s),
    string_Eq.beq_iff uid (text_at store (namespace_pod_key ns' n') s),
  )
