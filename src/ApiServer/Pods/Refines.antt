-- ===== src/ApiServer/Pods/Refines.antt =====
-- The handlers of pods as operations on a map from names to pods.
use mini_k8s.Base.{
  string_Eq, nat_Eq, ◌==◌, Bool-cases, Result, ok, err, ℕ, String, ◌≡◌, refl, subst, ◌⊎◌, inl, inr,
  true, false, Option, none, some, List, [], ◌∷◌,
}
use mini_k8s.Api.{Uid, Time, Pod, PodStatus}
use mini_k8s.ApiServer.Keys.{pod_key, namespace_pod_key, namespace_matches}
use mini_k8s.ApiServer.Etcd.{Kv}
use mini_k8s.ApiServer.Act.{Codec, Reply, decode}
use mini_k8s.ApiServer.Store.{
  Reliable, Survives, text_at, present-found, present-missing, absent-found,
}
use mini_k8s.ApiServer.Pods.{
  add_pod, get_pod, find_pod, delete_pod, put_pod_status, pod_name, created_pod,
}
use mini_k8s.ApiServer.Pods.Registry.{pod_in, pod_of, pod_at, UidsDiffer}
use mini_k8s.ApiServer.Pods.Updates.{
  PodChanges, IsFresh, after_add, add_pod-after_add, after_add-entries, after_add-UidsDiffer,
}
use mini_k8s.ApiServer.Pods.Removal.{
  pod_at-Leads, name_gone, object_gone, after_delete, delete_pod-after_delete, after_delete-entries,
  after_delete-UidsDiffer,
}
use mini_k8s.ApiServer.Pods.StatusUpdate.{
  after_put, put_pod_status-after_put, after_put-entries, after_put-UidsDiffer,
}

-- What a read of a pod answers: 200 and the pod, or 404 or 500 when there is none.
abbrev pub Shows : Option Pod → Result (List ℕ) (Reply Pod) → Type 0
Shows (some pod) answer = answer ≡ ok (record { statuses = 200 ∷ []; body = pod })
Shows none answer = (answer ≡ err (404 ∷ [])) ⊎ (answer ≡ err (500 ∷ []))

-- A new pod as it is stored: what the request says, with the namespace of the URL, the new uid and the
-- time of the creation, and pending.
pub record IsCreated (pod : Pod) (url_namespace : String) (new_uid : Uid) (now : Time)
    (created : Pod) : Type 0 where
  pub kind : created.kind ≡ pod.kind
  pub name : created.name ≡ pod.name
  pub namespace : created.namespace ≡ url_namespace
  pub uid : created.uid ≡ new_uid
  pub creation_timestamp : created.creation_timestamp ≡ now
  pub labels : created.labels ≡ pod.labels
  pub spec : created.spec ≡ pod.spec
  pub phase : created.status.phase ≡ "Pending"
  pub pod_ip : created.status.pod_ip ≡ pod.status.pod_ip

IsCreated-eq-created_pod :
    (pod created : Pod) (url_namespace : String) (uid : Uid) (now : Time)
    → IsCreated pod url_namespace uid now created
    → created ≡ created_pod pod url_namespace uid now
unfolding created_pod
IsCreated-eq-created_pod pod created url_namespace uid now is = λ i. record {
  kind = is.kind i;
  metadata = record {
    name = is.name i;
    namespace = is.namespace i;
    uid = is.uid i;
    creation_timestamp = is.creation_timestamp i;
    labels = is.labels i;
  };
  spec = is.spec i;
  status = record { phase = is.phase i; pod_ip = is.pod_ip i };
}

module _ {S : Type 0} {kv : Kv S} (store : Reliable kv) (pods : Codec Pod) where
  -- A new pod whose namespace fits the URL, whose name is free and whose uid is new is answered with
  -- 201 and its uid. The name then leads to the pod of the request, with the namespace of the URL,
  -- that uid and the time, and pending; every other name to what it did before, and no two names to
  -- one uid.
  pub add_pod-PodChanges :
      (pod created : Pod) (url_namespace : String) (uid : Uid) (now : Time) (text : String) (s : S)
      → IsCreated pod url_namespace uid now created
      → (url_namespace == "") ≡ false
      → namespace_matches pod.namespace url_namespace ≡ true
      → (text_at store (namespace_pod_key url_namespace (pod_name pod)) s == "") ≡ true
      → (uid == "") ≡ false
      → IsFresh store pods uid s
      → UidsDiffer store pods s
      → Survives pods created text
      → (s' : S) × (add_pod kv pods (some pod) url_namespace uid now s
          ≡ (ok (record { statuses = 201 ∷ []; body = uid }), s'))
        × PodChanges store pods (namespace_pod_key url_namespace (pod_name pod)) (some created) s s'
  add_pod-PodChanges pod created url_namespace uid now text s is given matches free named fresh
        differ survives =
      let key = namespace_pod_key url_namespace (pod_name pod) in
      let same = IsCreated-eq-created_pod pod created url_namespace uid now is in
      (
        after_add store pods key uid text s,
        add_pod-after_add store pods pod url_namespace uid now text s given matches free
            (subst (λ it. Survives pods it text) same survives),
        (
          after_add-entries store pods url_namespace (pod_name pod) uid created text s named fresh
              survives,
          after_add-UidsDiffer store pods url_namespace (pod_name pod) uid text s fresh differ,
        ),
      )

  -- A pod whose name is taken is refused with 409, and the store is left as it was.
  pub add_pod-taken :
      (pod : Pod) (url_namespace : String) (uid : Uid) (now : Time) (s : S)
      → (url_namespace == "") ≡ false
      → namespace_matches pod.namespace url_namespace ≡ true
      → (text_at store (namespace_pod_key url_namespace (pod_name pod)) s == "") ≡ false
      → add_pod kv pods (some pod) url_namespace uid now s ≡ (err (409 ∷ []), s)
  unfolding add_pod
  add_pod-taken pod url_namespace uid now s given matches taken =
      rw
        (
          given,
          matches,
          absent-found store 409 (namespace_pod_key url_namespace (pod_name pod)) s taken,
        )
        refl

  -- Deleting a pod that a name leads to is answered with 200. The name then holds no uid, and the key
  -- of the uid that it held no object; the name leads to no pod, every other name to what it did
  -- before, and no two names to one uid.
  pub delete_pod-PodChanges :
      (namespace name : String) (pod : Pod) (s : S)
      → pod_at store pods (namespace_pod_key namespace name) s ≡ some pod
      → UidsDiffer store pods s
      → (s' : S) × (delete_pod kv pods namespace name s
          ≡ (ok (record { statuses = 200 ∷ []; body = tt }), s'))
        × (store.held (namespace_pod_key namespace name) s' ≡ none)
        × (store.held (pod_key (text_at store (namespace_pod_key namespace name) s)) s' ≡ none)
        × PodChanges store pods (namespace_pod_key namespace name) none s s'
  delete_pod-PodChanges namespace name pod s found differ =
      let key = namespace_pod_key namespace name in
      let leads = pod_at-Leads store pods key pod s found in
      (
        after_delete store pods key s,
        delete_pod-after_delete store pods namespace name pod s leads,
        name_gone store pods namespace name s,
        object_gone store pods key s,
        (
          after_delete-entries store pods namespace name s differ leads.named,
          after_delete-UidsDiffer store pods namespace name s differ,
        ),
      )

  -- A new status of a pod that a name leads to is answered with 200. The name then leads to the same
  -- pod with that status, every other name to what it did before, and no two names to one uid.
  pub put_pod_status-PodChanges :
      (new_status : PodStatus) (namespace name : String) (pod : Pod) (text : String) (s : S)
      → pod_at store pods (namespace_pod_key namespace name) s ≡ some pod
      → UidsDiffer store pods s
      → Survives pods (record pod { status = new_status }) text
      → (s' : S) × (put_pod_status kv pods (some new_status) namespace name s
          ≡ (ok (record { statuses = 200 ∷ []; body = tt }), s'))
        × PodChanges store pods
            (namespace_pod_key namespace name)
            (some (record pod { status = new_status }))
            s
            s'
  put_pod_status-PodChanges new_status namespace name pod text s found differ survives =
      let key = namespace_pod_key namespace name in
      let leads = pod_at-Leads store pods key pod s found in
      let changed = record pod { status = new_status } in
      (
        after_put store pods key text s,
        put_pod_status-after_put store pods new_status namespace name pod text s leads survives,
        (
          after_put-entries store pods namespace name changed text s differ leads.named survives,
          after_put-UidsDiffer store pods key text s differ,
        ),
      )

  -- Reading a pod answers with the pod that its name leads to, or with an error when there is none,
  -- and leaves the store as it was.
  pub get_pod-Shows :
      (namespace name : String) (s : S)
      → Shows
          (pod_at store pods (namespace_pod_key namespace name) s)
          (get_pod kv pods namespace name s).0
        × ((get_pod kv pods namespace name s).1 ≡ s)
  unfolding get_pod find_pod decode pod_at pod_of pod_in
  get_pod-Shows namespace name s =
      let key = namespace_pod_key namespace name in
      let uid = text_at store key s in
      let text = text_at store (pod_key uid) s in
      elim (Bool-cases (uid == "")) [
        | inl missing ↦
            rw (pod_at, pod_of, missing, present-missing store 404 key s missing) (inl refl, refl)
        | inr named ↦ elim (Bool-cases (text == "")) [
          | inl empty ↦
              rw
                (
                  pod_at,
                  pod_of,
                  named,
                  present-found store 404 key s named,
                  pod_in,
                  empty,
                  present-missing store 404 (pod_key uid) s empty,
                )
                (inl refl, refl)
          | inr filled ↦ elim (Bool-cases (pods.unmarshal text).0) [
            | inl fine ↦
                rw
                  (
                    pod_at,
                    pod_of,
                    named,
                    present-found store 404 key s named,
                    pod_in,
                    filled,
                    present-found store 404 (pod_key uid) s filled,
                    decode,
                    fine,
                  )
                  (refl, refl)
            | inr broken ↦
                rw
                  (
                    pod_at,
                    pod_of,
                    named,
                    present-found store 404 key s named,
                    pod_in,
                    filled,
                    present-found store 404 (pod_key uid) s filled,
                    decode,
                    broken,
                  )
                  (inr refl, refl)
          ]
        ]
      ]
