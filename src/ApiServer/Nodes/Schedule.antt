-- ===== src/ApiServer/Nodes/Schedule.antt =====
-- Scheduling: a pod is bound to one node at most, and the pods that no node holds are listed.
use text.Mathlib.Text.{starts_with}
use mini_k8s.Base.{
  string_Eq, nat_Eq, ◌==◌, ok, String, ◌≡◌, refl, ◌≢◌, ◌↔◌, true, false, some, [], ◌∷◌, arith,
}
use mini_k8s.Api.{Uid, Pod}
use mini_k8s.ApiServer.Keys.{pod_key, scheduled_key}
use mini_k8s.ApiServer.Etcd.{Kv}
use mini_k8s.ApiServer.Act.{Codec, decode}
use mini_k8s.ApiServer.Store.{Reliable, text_at, present-found, stored-write}
use mini_k8s.ApiServer.Nodes.{schedule_pod_to_node}
use mini_k8s.ApiServer.Nodes.Bindings.{
  holds, holds-lookup, unbound, held-unbound, listing, lookup-listing, listing-IsMap,
  read_below-listing, unbind-unbound,
}

abbrev pub host_nodes : String
host_nodes = "/registry/host-nodes"

module _ {S : Type 0} {kv : Kv S} (store : Reliable kv) (pods : Codec Pod) where
  after_schedule : Uid → String → S → S
  after_schedule uid target s =
      store.write target (some uid) (unbound store uid (listing store host_nodes s) s)

  schedule_pod_to_node-after_schedule :
      (uid : Uid) (node : String) (pod : Pod) (s : S)
      → (uid == "") ≡ false
      → (node == "") ≡ false
      → (text_at store (pod_key uid) s == "") ≡ false
      → pods.unmarshal (text_at store (pod_key uid) s) ≡ (true, pod)
      → schedule_pod_to_node kv pods uid node s ≡ (
        ok (record { statuses = 200 ∷ []; body = tt }),
        after_schedule uid (scheduled_key node pod.namespace pod.name) s,
      )
  unfolding schedule_pod_to_node decode after_schedule
  schedule_pod_to_node-after_schedule uid node pod s has_uid has_node filled parsed =
      let target = scheduled_key node pod.namespace pod.name in
      rw
        (
          has_uid,
          has_node,
          present-found store 404 (pod_key uid) s filled,
          decode,
          parsed,
          read_below-listing store 500 host_nodes s,
          unbind-unbound store pods uid (listing store host_nodes s) s,
          stored-write store target uid (unbound store uid (listing store host_nodes s) s),
        )
        refl

  -- Only the target, of all keys of nodes, holds the uid.
  abbrev pub BoundTo : Uid → String → S → Type 0
  BoundTo uid target s =
      (store.held target s ≡ some uid)
      × ((key : String)
          → starts_with key host_nodes ≡ true
          → store.held key s ≡ some uid
          → key ≡ target)

  -- No other key has changed but those that held the uid.
  abbrev pub OthersKept : Uid → String → S → S → Type 0
  OthersKept uid target s s' =
      (key : String)
      → key ≢ target
      → store.held key s ≢ some uid
      → store.held key s' ≡ store.held key s

  pub holds-listing :
      (uid : Uid) (key : String) (s : S)
      → starts_with key host_nodes ≡ true
      → (holds key uid (listing store host_nodes s) ≡ true) ↔ (store.held key s ≡ some uid)
  holds-listing uid key s below = ground (
    arith,
    holds-lookup key uid (listing store host_nodes s) (listing-IsMap store host_nodes s),
    lookup-listing store host_nodes key s,
  )

  after_schedule-BoundTo :
      (uid : Uid) (target : String) (s : S) → BoundTo uid target (after_schedule uid target s)
  unfolding after_schedule
  after_schedule-BoundTo uid target s =
      let before = unbound store uid (listing store host_nodes s) s in
      (
        ground (
          arith,
          store.held_write target target (some uid) before,
          string_Eq.beq_iff target target,
        ),
        λ key below found. ground (
          arith,
          store.held_write target key (some uid) before,
          string_Eq.beq_iff target key,
          held-unbound store uid key (listing store host_nodes s) s,
          holds-listing uid key s below,
        ),
      )

  after_schedule-OthersKept :
      (uid : Uid) (target : String) (s : S) → OthersKept uid target s (after_schedule uid target s)
  unfolding after_schedule
  after_schedule-OthersKept uid target s key other free =
      let before = unbound store uid (listing store host_nodes s) s in
      ground (
        arith,
        store.held_write target key (some uid) before,
        string_Eq.beq_iff target key,
        held-unbound store uid key (listing store host_nodes s) s,
        holds-lookup key uid (listing store host_nodes s) (listing-IsMap store host_nodes s),
        lookup-listing store host_nodes key s,
      )

  -- Scheduling a stored pod to a node is answered with 200. Of all keys below the nodes' prefix only
  -- the one that the handler builds from the node, the namespace and the name then holds the uid, so the
  -- pod has left the node it was on; no other key changes but those that held the uid.
  pub schedule_pod_to_node-BoundTo :
      (uid : Uid) (node : String) (pod : Pod) (s : S)
      → (uid == "") ≡ false
      → (node == "") ≡ false
      → (text_at store (pod_key uid) s == "") ≡ false
      → pods.unmarshal (text_at store (pod_key uid) s) ≡ (true, pod)
      → (s' : S) × (schedule_pod_to_node kv pods uid node s
          ≡ (ok (record { statuses = 200 ∷ []; body = tt }), s'))
        × BoundTo uid (scheduled_key node pod.namespace pod.name) s'
        × OthersKept uid (scheduled_key node pod.namespace pod.name) s s'
  schedule_pod_to_node-BoundTo uid node pod s has_uid has_node filled parsed =
      let target = scheduled_key node pod.namespace pod.name in
      (
        after_schedule uid target s,
        schedule_pod_to_node-after_schedule uid node pod s has_uid has_node filled parsed,
        after_schedule-BoundTo uid target s,
        after_schedule-OthersKept uid target s,
      )
