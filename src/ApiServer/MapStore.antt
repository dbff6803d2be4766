-- ===== src/ApiServer/MapStore.antt =====
-- A store that answers every call: a map in memory. It shows that `Reliable` can hold.
use text.Mathlib.Text.{starts_with}
use mini_k8s.Base.{
  if◌then◌else◌, string_Eq, nat_Eq, ◌==◌, Bool-cases, Map, lookup, insert, erase, has,
  lookup-insert, lookup-erase, IsMap, insert-IsMap, erase-IsMap, String, ◌≡◌, refl, inl, inr, Bool,
  true, false, Option, none, some, [], ◌∷◌, arith,
}
use mini_k8s.ApiServer.Etcd.{Kv}
use mini_k8s.ApiServer.Store.{Reliable}

-- A map with one entry for a key.
abbrev pub MapStore : Type 0
MapStore = (m : Map String String) × IsMap m

-- The entries whose key has the prefix, or has it not.
unfoldable pub below : Bool → String → Map String String → Map String String
below wanted prefix [] = []
below wanted prefix ((k, v) ∷ m) =
    let rest = below wanted prefix m in
    if starts_with k prefix
    then (if wanted then (k, v) ∷ rest else rest)
    else if wanted
    then rest
    else (k, v) ∷ rest

has-below :
    (wanted : Bool) (prefix key : String) (m : Map String String)
    → has key m ≡ false
    → has key (below wanted prefix m) ≡ false
unfolding below has
has-below wanted prefix key [] h = refl
has-below wanted prefix key ((k, v) ∷ m) h = ground (arith, has-below wanted prefix key m)

pub below-IsMap :
    (wanted : Bool) (prefix : String) (m : Map String String)
    → IsMap m
    → IsMap (below wanted prefix m)
unfolding below
below-IsMap wanted prefix [] one = tt
below-IsMap wanted prefix ((k, v) ∷ m) one =
    let rest = below-IsMap wanted prefix m one.1 in
    let alone = has-below wanted prefix k m one.0 in
    elim (Bool-cases (starts_with k prefix)) [
      | inl yes' ↦ rw yes' (ground arith)
      | inr no' ↦ rw no' (ground arith)
    ]

pub lookup-below :
    (wanted : Bool) (prefix key : String) (m : Map String String)
    → lookup key (below wanted prefix m) ≡ (
        if starts_with key prefix
        then (if wanted then lookup key m else none)
        else if wanted
        then none
        else lookup key m)
unfolding below lookup
lookup-below wanted prefix key [] = ground arith
lookup-below wanted prefix key ((k, v) ∷ m) =
    ground (arith, string_Eq.beq_iff k key, lookup-below wanted prefix key m)

unfoldable pub write_map : String → Option String → MapStore → MapStore
write_map key none (m, one) = (erase key m, erase-IsMap key m one)
write_map key (some text) (m, one) = (insert key text m, insert-IsMap key text m one)

unfoldable pub clear_map : String → MapStore → MapStore
clear_map prefix (m, one) = (below false prefix m, below-IsMap false prefix m one)

abbrev pub map_kv : Kv MapStore
map_kv = record {
  fetch = λ key s. (some (lookup key s.0), s);
  fetch_prefix = λ prefix s. (some (below true prefix s.0), s);
  put = λ key text s. (true, write_map key (some text) s);
  remove = λ key s. (true, write_map key none s);
  remove_prefix = λ prefix s. (true, clear_map prefix s);
}

pub lookup-write_map :
    (key other : String) (text : Option String) (s : MapStore)
    → lookup other (write_map key text s).0 ≡ (if key == other then text else lookup other s.0)
unfolding write_map
lookup-write_map key other none (m, one) = lookup-erase key other m
lookup-write_map key other (some text) (m, one) = lookup-insert key other text m

unfoldable pub map_store : Reliable map_kv
unfolding write_map clear_map
map_store = record {
  held = λ key s. lookup key s.0;
  found_below = λ prefix s. below true prefix s.0;
  write = write_map;
  clear = clear_map;
  fetch_held = λ key s. refl;
  fetch_found = λ key s. refl;
  put_write = λ key text s. refl;
  remove_write = λ key s. refl;
  remove_clear = λ key s. refl;
  held_write = lookup-write_map;
  held_clear = λ prefix other s. lookup-below false prefix other s.0;
  found_IsMap = λ prefix s. below-IsMap true prefix s.0 s.1;
  found_held = λ prefix other s. lookup-below true prefix other s.0;
}
