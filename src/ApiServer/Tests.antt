-- ===== src/ApiServer/Tests.antt =====
-- The theorems on the handlers of pods, services and nodes at a store in memory.
use mini_k8s.Base.{
  if◌then◌else◌, string_Eq, nat_Eq, ◌==◌, Bool-cases, ok, Map, lookup, has, IsMap, String, ◌≡◌,
  refl, sym, ◌∙◌, inl, inr, true, false, none, some, [], ◌∷◌, arith,
}
use mini_k8s.Api.{Pod, PodStatus, ObjectMeta}
use mini_k8s.ApiServer.Keys.{namespace_pod_key, namespaced, namespace_matches}
use mini_k8s.ApiServer.Keys.Apart.{pod_key-namespaced}
use mini_k8s.ApiServer.Act.{Codec}
use mini_k8s.ApiServer.Store.{text_at}
use mini_k8s.ApiServer.MapStore.{MapStore, map_kv, map_store}
use mini_k8s.ApiServer.Pods.{add_pod, get_pod, delete_pod, put_pod_status, pod_name}
use mini_k8s.ApiServer.Pods.Registry.{pod_in, pod_of, pod_at, UidsDiffer}
use mini_k8s.ApiServer.Pods.Updates.{PodChanges}
use mini_k8s.ApiServer.Pods.Refines.{
  Shows, IsCreated, add_pod-PodChanges, delete_pod-PodChanges, put_pod_status-PodChanges,
  get_pod-Shows,
}

abbrev pub meta : String → String → ObjectMeta
meta name uid = record {
  name = name;
  namespace = "default";
  uid = uid;
  creation_timestamp = 7;
  labels = none;
}

-- Two objects, told apart by their texts.
abbrev pub two_codec : {A : Type 0} → A → A → Codec A
two_codec first second = record {
  marshal = λ a. some "second";
  unmarshal = λ text. if text == "second" then (true, second) else (true, first);
}

abbrev pub web : Pod
web = record {
  kind = "Pod";
  metadata = meta "web" "u1";
  spec = record { containers = []; restart_policy = "Always" };
  status = record { phase = "Pending"; pod_ip = "" };
}

abbrev running : PodStatus
running = record { phase = "Running"; pod_ip = "10.0.0.2" }

abbrev codec : Codec Pod
codec = two_codec web (record web { status = running })

abbrev pub empty : MapStore
empty = ([], tt)

abbrev pub pod_entries : Map String String
pod_entries = ("/registry/namespaces/default/pods/web", "u1") ∷ ("/registry/pods/u1", "first") ∷ []

pub pod_entries-IsMap : IsMap pod_entries
unfolding has
pod_entries-IsMap = (refl, (refl, tt))

abbrev pub one_pod : MapStore
one_pod = (pod_entries, pod_entries-IsMap)

abbrev second_web : Pod
second_web = record {
  kind = web.kind;
  metadata = record {
    name = web.name;
    namespace = "default";
    uid = "u2";
    creation_timestamp = 9;
    labels = web.labels;
  };
  spec = web.spec;
  status = record { phase = "Pending"; pod_ip = web.status.pod_ip };
}

second_web-IsCreated : IsCreated web "default" "u2" 9 second_web
second_web-IsCreated = record {
  kind = refl;
  name = refl;
  namespace = refl;
  uid = refl;
  creation_timestamp = refl;
  labels = refl;
  spec = refl;
  phase = refl;
  pod_ip = refl;
}

add_pod-PodChanges_example :
    (s' : MapStore) × (add_pod map_kv (two_codec web second_web) (some web) "default" "u2" 9 empty
      ≡ (ok (record { statuses = 201 ∷ []; body = "u2" }), s'))
    × PodChanges map_store
        (two_codec web second_web)
        (namespace_pod_key "default" (pod_name web))
        (some second_web)
        empty
        s'
unfolding namespace_matches map_store lookup
add_pod-PodChanges_example =
    add_pod-PodChanges map_store (two_codec web second_web) web second_web "default" "u2" 9 "second"
      empty second_web-IsCreated refl refl refl refl (λ namespace name. refl)
      (λ namespace name namespace' name' full same. absurd (ground (arith, full)))
      (record { written = refl; read_back = refl; not_empty = refl })

pub one_pod_name :
    (namespace name : String)
    → (text_at map_store (namespace_pod_key namespace name) one_pod == "") ≡ false
    → "/registry/namespaces/default/pods/web" ≡ namespace_pod_key namespace name
unfolding map_store lookup
one_pod_name namespace name full =
    let key = namespace_pod_key namespace name in
    elim (Bool-cases ("/registry/namespaces/default/pods/web" == key)) [
      | inl same ↦ (string_Eq.beq_iff "/registry/namespaces/default/pods/web" key).0 same
      | inr other ↦
          let apart = pod_key-namespaced "u1" "/pods/" namespace name in
          let gone : text_at map_store key one_pod ≡ "" = rw (other, apart) refl in
          let empty_text = (string_Eq.beq_iff (text_at map_store key one_pod) "").1 gone in cc
    ]

one_pod-UidsDiffer : UidsDiffer map_store codec one_pod
one_pod-UidsDiffer ns n ns' n' full same =
    sym (one_pod_name ns n full) ∙ one_pod_name ns' n' (rw (← same) full)

delete_pod-PodChanges_example :
    (s' : MapStore) × (delete_pod map_kv codec "default" "web" one_pod
      ≡ (ok (record { statuses = 200 ∷ []; body = tt }), s'))
    × (lookup "/registry/namespaces/default/pods/web" s'.0 ≡ none)
    × (lookup "/registry/pods/u1" s'.0 ≡ none)
    × PodChanges map_store codec (namespace_pod_key "default" "web") none one_pod s'
unfolding pod_at pod_of map_store lookup namespaced pod_in
delete_pod-PodChanges_example =
    delete_pod-PodChanges map_store codec "default" "web" web one_pod refl one_pod-UidsDiffer

put_pod_status-PodChanges_example :
    (s' : MapStore) × (put_pod_status map_kv codec (some running) "default" "web" one_pod
      ≡ (ok (record { statuses = 200 ∷ []; body = tt }), s'))
    × PodChanges map_store codec
        (namespace_pod_key "default" "web")
        (some (record web { status = running }))
        one_pod
        s'
unfolding pod_at pod_of map_store lookup namespaced pod_in
put_pod_status-PodChanges_example =
    put_pod_status-PodChanges map_store codec running "default" "web" web "second" one_pod refl
      one_pod-UidsDiffer (record { written = refl; read_back = refl; not_empty = refl })

get_pod-Shows_example :
    Shows
      (pod_at map_store codec (namespace_pod_key "default" "web") one_pod)
      (get_pod map_kv codec "default" "web" one_pod).0
    × ((get_pod map_kv codec "default" "web" one_pod).1 ≡ one_pod)
get_pod-Shows_example = get_pod-Shows map_store codec "default" "web" one_pod
