-- ===== src/ApiServer/Nodes/Bindings.antt =====
-- The entries that bind pods to nodes: what a listing shows of them, and what the loop of
-- `SchedulePodToNodeHandler` leaves.
use text.Mathlib.Text.{starts_with}
use mini_k8s.Base.{
  if◌then◌else◌, string_Eq, nat_Eq, ◌==◌, Bool-cases, ok, Map, lookup, insert, has, lookup-insert,
  lookup-has, IsMap, insert-IsMap, ℕ, String, ◌≡◌, refl, ◌↔◌, inl, inr, Bool, true, false, ◌&&◌,
  ◌||◌, none, some, List, [], ◌∷◌, arith,
}
use mini_k8s.Api.{Uid, Pod}
use mini_k8s.ApiServer.Etcd.{Kv, collect, get_sub_keys_values}
use mini_k8s.ApiServer.Act.{Codec, read_below}
use mini_k8s.ApiServer.Store.{Reliable, deleted-write}
use mini_k8s.ApiServer.Nodes.{unbind}

collect-lookup :
    (key : String) (pairs : List (String × String)) (values : Map String String)
    → IsMap pairs
    → lookup key (collect pairs values)
      ≡ elim (lookup key pairs) [ none ↦ lookup key values | some text ↦ some text ]
unfolding collect lookup has
collect-lookup key [] values one = refl
collect-lookup key ((k, v) ∷ pairs) values one =
    let later = collect-lookup key pairs (insert k v values) one.1 in
    let alone = lookup-has k pairs one.0 in
    ground (arith, string_Eq.beq_iff k key, lookup-insert k key v values, later, alone)

collect-IsMap :
    (pairs : List (String × String)) (values : Map String String)
    → IsMap values
    → IsMap (collect pairs values)
unfolding collect
collect-IsMap [] values one = one
collect-IsMap ((k, v) ∷ pairs) values one =
    collect-IsMap pairs (insert k v values) (insert-IsMap k v values one)

-- Whether an entry of the map has this key and this value.
unfoldable pub holds : String → String → Map String String → Bool
holds key text [] = false
holds key text ((k, v) ∷ m) = (k == key && v == text) || holds key text m

pub holds-lookup :
    (key text : String) (m : Map String String)
    → IsMap m
    → (holds key text m ≡ true) ↔ (lookup key m ≡ some text)
unfolding holds lookup has
holds-lookup key text [] one = ground arith
holds-lookup key text ((k, v) ∷ m) one = ground (
  arith,
  string_Eq.beq_iff k key,
  string_Eq.beq_iff v text,
  holds-lookup key text m one.1,
  lookup-has k m one.0,
)

module _ {S : Type 0} {kv : Kv S} (store : Reliable kv) where
  -- The state after the entries of a map that hold a uid have been deleted.
  unfoldable pub unbound : Uid → Map String String → S → S
  unbound uid [] s = s
  unbound uid ((key, held) ∷ res) s =
      let rest = unbound uid res (if held == uid then store.write key none s else s) in rest

  pub held-unbound :
      (uid : Uid) (key : String) (res : Map String String) (s : S)
      → store.held key (unbound uid res s) ≡ (if holds key uid res then none else store.held key s)
  unfolding unbound holds
  held-unbound uid key [] s = refl
  held-unbound uid key ((k, v) ∷ res) s = elim (Bool-cases (v == uid)) [
    | inl same ↦
        rw (same, held-unbound uid key res (store.write k none s), store.held_write k key none s)
          (ground arith)
    | inr other ↦ rw (other, held-unbound uid key res s) (ground arith)
  ]

  -- What `GetSubKeysValues` returns.
  abbrev pub listing : String → S → Map String String
  listing prefix s = collect (store.found_below prefix s) []

  pub lookup-listing :
      (prefix key : String) (s : S)
      → lookup key (listing prefix s) ≡ (if starts_with key prefix then store.held key s else none)
  unfolding lookup
  lookup-listing prefix key s =
      let listed = store.found_held prefix key s in
      let all = collect-lookup key (store.found_below prefix s) [] (store.found_IsMap prefix s) in
      ground (arith, listed, all)

  pub listing-IsMap : (prefix : String) (s : S) → IsMap (listing prefix s)
  listing-IsMap prefix s = collect-IsMap (store.found_below prefix s) [] tt

  pub get_sub_keys_values-listing :
      (prefix : String) (s : S) → get_sub_keys_values kv prefix s ≡ (some (listing prefix s), s)
  unfolding get_sub_keys_values
  get_sub_keys_values-listing prefix s = rw (store.fetch_found prefix s) refl

  pub read_below-listing :
      (status : ℕ) (prefix : String) (s : S)
      → read_below kv status prefix s ≡ (ok (listing prefix s), s)
  unfolding read_below
  read_below-listing status prefix s =
      rw (read_below, get_sub_keys_values-listing prefix s, get_sub_keys_values-listing prefix s)
        refl

  pub unbind-unbound :
      (pods : Codec Pod) (uid : Uid) (res : Map String String) (s : S)
      → unbind kv pods uid res s ≡ (ok tt, unbound uid res s)
  unfolding unbind unbound
  unbind-unbound pods uid [] s = refl
  unbind-unbound pods uid ((key, held) ∷ res) s = elim (Bool-cases (held == uid)) [
    | inl same ↦
        rw (same, deleted-write store key s) (unbind-unbound pods uid res (store.write key none s))
    | inr other ↦ rw other (unbind-unbound pods uid res s)
  ]
