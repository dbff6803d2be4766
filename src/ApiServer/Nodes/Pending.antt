-- ===== src/ApiServer/Nodes/Pending.antt =====
-- The pods that `GetUnscheduledPodHandler` lists.
use text.Mathlib.Text.{starts_with}
use mini_k8s.Base.{
  string_Eq, nat_Eq, ◌==◌, Bool-cases, Result, ok, err, Map, member, ℕ, String, ◌≡◌, refl, ◌∙◌, ◌≢◌,
  ◌↔◌, inl, inr, Bool, true, false, ◌&&◌, ◌||◌, not, some, List, [], ◌∷◌, map, arith,
}
use mini_k8s.Api.{Uid, Pod}
use mini_k8s.ApiServer.Etcd.{Kv}
use mini_k8s.ApiServer.Act.{Codec, and_then, pure, decode, decode_all}
use mini_k8s.ApiServer.Store.{Reliable}
use mini_k8s.ApiServer.Nodes.{get_unscheduled_pod, scheduled_uids, unscheduled}
use mini_k8s.ApiServer.Nodes.Bindings.{
  holds, holds-lookup, listing, lookup-listing, listing-IsMap, get_sub_keys_values-listing,
  read_below-listing,
}
use mini_k8s.ApiServer.Nodes.Schedule.{host_nodes, holds-listing}

-- Whether a list has a pod with the uid.
unfoldable pub names : Uid → List Pod → Bool
names uid [] = false
names uid (pod ∷ pods) = pod.uid == uid || names uid pods

names-unscheduled :
    (uid : Uid) (scheduled : List Uid) (pods : List Pod)
    → names uid (unscheduled scheduled pods) ≡ (names uid pods && not (member uid scheduled))
unfolding names unscheduled
names-unscheduled uid scheduled [] = refl
names-unscheduled uid scheduled (pod ∷ pods) =
    ground (arith, string_Eq.beq_iff pod.uid uid, names-unscheduled uid scheduled pods)

values : Map String String → List String
values m = map (λ entry. entry.1) m

member-values :
    (text : String) (m : Map String String)
    → member text (values m) ≡ true
    → (key : String) × (holds key text m ≡ true)
unfolding values member holds
member-values text [] found = absurd (ground arith)
member-values text ((k, v) ∷ m) found = elim (Bool-cases (v == text)) [
  | inl same ↦ (k, ground (arith, same, string_Eq.beq_iff k k))
  | inr other ↦ let (key, there) = member-values text m (ground arith) in (key, ground arith)
]

values-member :
    (key text : String) (m : Map String String)
    → holds key text m ≡ true
    → member text (values m) ≡ true
unfolding values member holds
values-member key text [] found = absurd (ground arith)
values-member key text ((k, v) ∷ m) found = ground (arith, values-member key text m)

and_then-pure :
    {S A B : Type 0} (first : Result (List ℕ) A × S) (f : A → B)
    → (and_then first (λ a. pure (f a))).1 ≡ first.1
and_then-pure (ok a, s) f = refl
and_then-pure (err e, s) f = refl

decode_all-state :
    {S A : Type 0} (codec : Codec A) (status : ℕ) (res : Map String String) (s : S)
    → (decode_all codec status res s).1 ≡ s
unfolding decode_all decode
decode_all-state codec status [] s = refl
decode_all-state codec status ((key, text) ∷ res) s = elim (Bool-cases (codec.unmarshal text).0) [
  | inl fine ↦ rw fine (
      and_then-pure (decode_all codec status res s) (λ more. (codec.unmarshal text).1 ∷ more)
      ∙ decode_all-state codec status res s)
  | inr broken ↦ rw broken refl
]

module _ {S : Type 0} {kv : Kv S} (store : Reliable kv) (pods : Codec Pod) where
  -- No node has an entry with the uid.
  abbrev pub IsUnbound : Uid → S → Type 0
  IsUnbound uid s = (key : String) → starts_with key host_nodes ≡ true → store.held key s ≢ some uid

  member-IsUnbound :
      (uid : Uid) (s : S)
      → (member uid (values (listing store host_nodes s)) ≡ false) ↔ IsUnbound uid s
  member-IsUnbound uid s =
      let bound = listing store host_nodes s in
      (
        λ free key below held.
            let there = (holds-listing store pods uid key s below).1 held in
            let listed = values-member key uid bound there in ground arith,
        λ unbound. elim (Bool-cases (member uid (values bound))) [
          | inr free ↦ free
          | inl listed ↦
              let (key, there) = member-values uid bound listed in
              let found = (holds-lookup key uid bound (listing-IsMap store host_nodes s)).0 there in
              absurd (ground (arith, lookup-listing store host_nodes key s, found, unbound key))
        ],
      )

  scheduled_uids-values :
      (s : S) → scheduled_uids kv pods s ≡ (ok (values (listing store host_nodes s)), s)
  unfolding scheduled_uids values
  scheduled_uids-values s =
      rw
        (
          scheduled_uids,
          get_sub_keys_values-listing store host_nodes s,
          get_sub_keys_values-listing store host_nodes s,
        )
        refl

  get_unscheduled_pod-unscheduled :
      (found : List Pod) (s : S)
      → (decode_all pods 500 (listing store "/registry/pods" s) s).0 ≡ ok found
      → get_unscheduled_pod kv pods s ≡ (
        ok (record {
          statuses = 200 ∷ [];
          body = unscheduled (values (listing store host_nodes s)) found;
        }),
        s,
      )
  unfolding get_unscheduled_pod
  get_unscheduled_pod-unscheduled found s parsed =
      rw
        (
          read_below-listing store 500 "/registry/pods" s,
          scheduled_uids-values s,
          parsed,
          decode_all-state pods 500 (listing store "/registry/pods" s) s,
        )
        refl

  -- When all stored pods can be read, the answer has status 200 and leaves the store as it was, and a
  -- uid is listed exactly when a stored pod has it and no key below the nodes' prefix holds it.
  pub get_unscheduled_pod-IsUnbound :
      (found : List Pod) (s : S)
      → (decode_all pods 500 (listing store "/registry/pods" s) s).0 ≡ ok found
      → (answer : List Pod) × (get_unscheduled_pod kv pods s
          ≡ (ok (record { statuses = 200 ∷ []; body = answer }), s))
        × ((uid : Uid) → (names uid answer ≡ true) ↔ ((names uid found ≡ true) × IsUnbound uid s))
  get_unscheduled_pod-IsUnbound found s parsed =
      let bound = values (listing store host_nodes s) in
      (
        unscheduled bound found,
        get_unscheduled_pod-unscheduled found s parsed,
        λ uid. (
          λ named. (
            ground (arith, names-unscheduled uid bound found),
            (member-IsUnbound uid s).0 (ground (arith, names-unscheduled uid bound found)),
          ),
          λ (stored, unbound).
              let free = (member-IsUnbound uid s).1 unbound in
              ground (arith, names-unscheduled uid bound found),
        ),
      )
