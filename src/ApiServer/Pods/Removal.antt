-- ===== src/ApiServer/Pods/Removal.antt =====
-- `DeletePodHandler` against the map from names to pods: the state that it leaves.
use mini_k8s.Base.{
  if◌then◌else◌, string_Eq, nat_Eq, ◌==◌, Bool-cases, ok, String, ◌≡◌, refl, ◌∙◌, inl, inr, true,
  false, none, some, [], ◌∷◌, arith,
}
use mini_k8s.Api.{Pod, Uid}
use mini_k8s.ApiServer.Keys.{pod_key, namespace_pod_key}
use mini_k8s.ApiServer.Keys.Apart.{namespaced-pod_key, pod_key-namespaced}
use mini_k8s.ApiServer.Etcd.{Kv}
use mini_k8s.ApiServer.Act.{Codec}
use mini_k8s.ApiServer.Store.{Reliable, text_at, text_at-write, present-found, deleted-write}
use mini_k8s.ApiServer.Pods.{delete_pod, find_pod}
use mini_k8s.ApiServer.Pods.Registry.{
  pod_in, pod_of, pod_at, UidsDiffer, text_at-write_pod, pod_of-write_pod, pod_of-write_name,
}

pod_in-some :
    (pods : Codec Pod) (text : String) (pod : Pod)
    → pod_in pods text ≡ some pod
    → ((text == "") ≡ false) × (pods.unmarshal text ≡ (true, pod))
unfolding pod_in
pod_in-some pods text pod found = elim (Bool-cases (text == "")) [
  | inl missing ↦ absurd (ground arith)
  | inr full ↦ elim (Bool-cases (pods.unmarshal text).0) [
    | inr broken ↦ absurd (ground arith)
    | inl fine ↦
        let parsed : (pods.unmarshal text).1 ≡ pod = ground arith in (full, λ i. (fine i, parsed i))
  ]
]

module _ {S : Type 0} {kv : Kv S} (store : Reliable kv) (pods : Codec Pod) where
  -- What a name that leads to a pod has in the store.
  pub record Leads (key : String) (pod : Pod) (s : S) : Type 0 where
    pub named : (text_at store key s == "") ≡ false
    pub filled : (text_at store (pod_key (text_at store key s)) s == "") ≡ false
    pub parsed : pods.unmarshal (text_at store (pod_key (text_at store key s)) s) ≡ (true, pod)

  pub pod_at-Leads :
      (key : String) (pod : Pod) (s : S) → pod_at store pods key s ≡ some pod → Leads key pod s
  unfolding pod_at pod_of
  pod_at-Leads key pod s found = elim (Bool-cases (text_at store key s == "")) [
    | inl missing ↦ absurd (ground arith)
    | inr full ↦
        let there : pod_in pods (text_at store (pod_key (text_at store key s)) s) ≡ some pod =
          ground arith in
        let (filled, parsed) =
          pod_in-some pods (text_at store (pod_key (text_at store key s)) s) pod there in
        record { named = full; filled = filled; parsed = parsed }
  ]

  pub find_pod-Leads :
      (namespace name : String) (pod : Pod) (s : S)
      → Leads (namespace_pod_key namespace name) pod s
      → find_pod kv pods namespace name s ≡ (
        ok (
          text_at store (namespace_pod_key namespace name) s,
          text_at store (pod_key (text_at store (namespace_pod_key namespace name) s)) s,
        ),
        s,
      )
  unfolding find_pod
  find_pod-Leads namespace name pod s leads =
      rw
        (
          present-found store 404 (namespace_pod_key namespace name) s leads.named,
          present-found store 404 (pod_key (text_at store (namespace_pod_key namespace name) s)) s
              leads.filled,
        )
        refl

  pub after_delete : String → S → S
  after_delete key s = store.write (pod_key (text_at store key s)) none (store.write key none s)

  pub delete_pod-after_delete :
      (namespace name : String) (pod : Pod) (s : S)
      → Leads (namespace_pod_key namespace name) pod s
      → delete_pod kv pods namespace name s ≡ (
        ok (record { statuses = 200 ∷ []; body = tt }),
        after_delete (namespace_pod_key namespace name) s,
      )
  unfolding delete_pod after_delete
  delete_pod-after_delete namespace name pod s leads =
      let key = namespace_pod_key namespace name in
      let uid = text_at store key s in
      let kept : (text_at store (pod_key uid) (store.write key none s) == "") ≡ false =
        rw
          (
            text_at-write store key (pod_key uid) none s,
            namespaced-pod_key uid "/pods/" namespace name,
          )
          leads.filled in
      rw
        (
          present-found store 404 key s leads.named,
          deleted-write store key s,
          present-found store 404 (pod_key uid) (store.write key none s) kept,
          deleted-write store (pod_key uid) (store.write key none s),
        )
        refl

  pub name_gone :
      (namespace name : String) (s : S)
      → store.held
          (namespace_pod_key namespace name)
          (after_delete (namespace_pod_key namespace name) s)
        ≡ none
  unfolding after_delete
  name_gone namespace name s =
      let key = namespace_pod_key namespace name in
      rw
        (
          store.held_write (pod_key (text_at store key s)) key none (store.write key none s),
          store.held_write key key none s,
          pod_key-namespaced (text_at store key s) "/pods/" namespace name,
          (string_Eq.beq_iff key key).1 refl,
        )
        refl

  pub object_gone :
      (key : String) (s : S)
      → store.held (pod_key (text_at store key s)) (after_delete key s) ≡ none
  unfolding after_delete
  object_gone key s =
      let object = pod_key (text_at store key s) in
      rw
        (
          store.held_write object object none (store.write key none s),
          (string_Eq.beq_iff object object).1 refl,
        )
        refl

  -- The uid that a name leads to is that of no other name.
  pub only_uid :
      (namespace name ns n : String) (s : S)
      → UidsDiffer store pods s
      → (text_at store (namespace_pod_key namespace name) s == "") ≡ false
      → (namespace_pod_key namespace name == namespace_pod_key ns n) ≡ false
      → (text_at store (namespace_pod_key namespace name) s
          == text_at store (namespace_pod_key ns n) s)
        ≡ false
  only_uid namespace name ns n s differ named apart = ground (
    arith,
    differ namespace name ns n named,
    string_Eq.beq_iff (namespace_pod_key namespace name) (namespace_pod_key ns n),
    string_Eq.beq_iff (text_at store (namespace_pod_key namespace name) s)
        (text_at store (namespace_pod_key ns n) s),
  )

  pub text_at-after_delete :
      (namespace name ns n : String) (s : S)
      → text_at store (namespace_pod_key ns n) (after_delete (namespace_pod_key namespace name) s)
        ≡ (if namespace_pod_key namespace name == namespace_pod_key ns n
            then ""
            else text_at store (namespace_pod_key ns n) s)
  unfolding after_delete
  text_at-after_delete namespace name ns n s =
      let key = namespace_pod_key namespace name in
      text_at-write_pod store pods (text_at store key s) none ns n (store.write key none s)
      ∙ text_at-write store key (namespace_pod_key ns n) none s

  pub pod_of-after_delete :
      (namespace name : String) (other : Uid) (s : S)
      → (text_at store (namespace_pod_key namespace name) s == other) ≡ false
      → pod_of store pods other (after_delete (namespace_pod_key namespace name) s)
        ≡ pod_of store pods other s
  unfolding after_delete
  pod_of-after_delete namespace name other s apart =
      let key = namespace_pod_key namespace name in
      rw
        (
          pod_of-write_pod store pods (text_at store key s) other none (store.write key none s),
          apart,
        )
        (pod_of-write_name store pods namespace name none other s)

  pub after_delete-entries :
      (namespace name : String) (s : S)
      → UidsDiffer store pods s
      → (text_at store (namespace_pod_key namespace name) s == "") ≡ false
      → (ns n : String)
      → pod_at store pods
          (namespace_pod_key ns n)
          (after_delete (namespace_pod_key namespace name) s)
        ≡ (if namespace_pod_key namespace name == namespace_pod_key ns n
            then none
            else pod_at store pods (namespace_pod_key ns n) s)
  unfolding pod_at pod_of
  after_delete-entries namespace name s differ named ns n =
      elim (Bool-cases (namespace_pod_key namespace name == namespace_pod_key ns n)) [
        | inl same ↦ rw (pod_at, text_at-after_delete namespace name ns n s, same, pod_of) refl
        | inr apart ↦
            rw
              (
                pod_at,
                text_at-after_delete namespace name ns n s,
                apart,
                pod_of-after_delete namespace name (text_at store (namespace_pod_key ns n) s) s
                    (only_uid namespace name ns n s differ named apart),
              )
              refl
      ]

  pub after_delete-UidsDiffer :
      (namespace name : String) (s : S)
      → UidsDiffer store pods s
      → UidsDiffer store pods (after_delete (namespace_pod_key namespace name) s)
  after_delete-UidsDiffer namespace name s differ ns n ns' n' full same =
      let key = namespace_pod_key namespace name in
      ground (
        arith,
        text_at-after_delete namespace name ns n s,
        text_at-after_delete namespace name ns' n' s,
        differ ns n ns' n',
        string_Eq.beq_iff key (namespace_pod_key ns n),
        string_Eq.beq_iff key (namespace_pod_key ns' n'),
        string_Eq.beq_iff
            (text_at store (namespace_pod_key ns n)
              (after_delete (namespace_pod_key namespace name) s))
            "",
      )
