-- ===== src/ApiServer/Store.antt =====
-- What a store does whose calls are all answered, and the steps of a handler on such a store.
use text.Mathlib.Text.{starts_with}
use mini_k8s.Base.{
  if◌then◌else◌, string_Eq, nat_Eq, ◌==◌, Bool-cases, Option-cases, ok, err, lookup, IsMap, ℕ,
  String, ◌≡◌, refl, inl, inr, true, false, Option, none, some, List, [], ◌∷◌,
}
use mini_k8s.ApiServer.Etcd.{Kv, get, set, delete}
use mini_k8s.ApiServer.Act.{Codec, present, absent, not_found, readable, stored, deleted}

-- A store that answers every call, and reads and changes its contents as etcd documents it.
pub record Reliable {S : Type 0} (kv : Kv S) : Type 0 where
  -- What a key holds, and the pairs whose keys have a prefix.
  pub held : String → S → Option String
  pub found_below : String → S → List (String × String)
  -- The state after a key has been given a text, or none, and after all keys with a prefix are gone.
  pub write : String → Option String → S → S
  pub clear : String → S → S
  pub fetch_held : (key : String) (s : S) → kv.fetch key s ≡ (some (held key s), s)
  pub fetch_found : (key : String) (s : S) → kv.fetch_prefix key s ≡ (some (found_below key s), s)
  pub put_write : (key text : String) (s : S) → kv.put key text s ≡ (true, write key (some text) s)
  pub remove_write : (key : String) (s : S) → kv.remove key s ≡ (true, write key none s)
  pub remove_clear : (key : String) (s : S) → kv.remove_prefix key s ≡ (true, clear key s)
  pub held_write :
      (key other : String) (text : Option String) (s : S)
      → held other (write key text s) ≡ (if key == other then text else held other s)
  pub held_clear :
      (key other : String) (s : S)
      → held other (clear key s) ≡ (if starts_with other key then none else held other s)
  pub found_IsMap : (key : String) (s : S) → IsMap (found_below key s)
  pub found_held :
      (key other : String) (s : S)
      → lookup other (found_below key s) ≡ (if starts_with other key then held other s else none)

abbrev pub text_of : Option String → String
text_of none = ""
text_of (some text) = text

module _ {S : Type 0} {kv : Kv S} (store : Reliable kv) where
  -- What `Get` returns: the empty text where the key is missing.
  abbrev pub text_at : String → S → String
  text_at key s = text_of (store.held key s)

  pub text_at-write :
      (key other : String) (text : Option String) (s : S)
      → text_at other (store.write key text s)
        ≡ (if key == other then text_of text else text_at other s)
  text_at-write key other text s =
      rw (store.held_write key other text s)
        (elim (Bool-cases (key == other)) [ inl same ↦ rw same refl | inr apart ↦ rw apart refl ])

  pub text_at-same :
      (key : String) (text : Option String) (s : S)
      → text_at key (store.write key text s) ≡ text_of text
  text_at-same key text s =
      rw (text_at-write key key text s, (string_Eq.beq_iff key key).1 refl) refl

  pub text_at-other :
      (key other : String) (text : Option String) (s : S)
      → (key == other) ≡ false
      → text_at other (store.write key text s) ≡ text_at other s
  text_at-other key other text s apart = rw (text_at-write key other text s, apart) refl

  pub get-text_at : (key : String) (s : S) → get kv key s ≡ (some (text_at key s), s)
  unfolding get
  get-text_at key s = rw (store.fetch_held key s) (elim (Option-cases (store.held key s)) [
    | inl missing ↦ rw missing refl
    | inr (text, found) ↦ rw found refl
  ])

  pub present-found :
      (status : ℕ) (key : String) (s : S)
      → (text_at key s == "") ≡ false
      → present kv status key s ≡ (ok (text_at key s), s)
  unfolding present
  present-found status key s found = rw (present, get-text_at key s, found, get-text_at key s) refl

  pub present-missing :
      (status : ℕ) (key : String) (s : S)
      → (text_at key s == "") ≡ true
      → present kv status key s ≡ (err (status ∷ []), s)
  unfolding present
  present-missing status key s missing =
      rw (present, get-text_at key s, missing, get-text_at key s) refl

  pub absent-missing :
      (status : ℕ) (key : String) (s : S)
      → (text_at key s == "") ≡ true
      → absent kv status key s ≡ (ok tt, s)
  unfolding absent
  absent-missing status key s missing =
      rw (absent, get-text_at key s, missing, get-text_at key s) refl

  pub absent-found :
      (status : ℕ) (key : String) (s : S)
      → (text_at key s == "") ≡ false
      → absent kv status key s ≡ (err (status ∷ []), s)
  unfolding absent
  absent-found status key s found = rw (absent, get-text_at key s, found, get-text_at key s) refl

  pub not_found-missing :
      (status : ℕ) (key : String) (s : S)
      → (text_at key s == "") ≡ true
      → not_found kv status key s ≡ (ok tt, s)
  unfolding not_found
  not_found-missing status key s missing =
      rw (not_found, get-text_at key s, missing, get-text_at key s) refl

  pub readable-text_at :
      (status : ℕ) (key : String) (s : S) → readable kv status key s ≡ (ok (text_at key s), s)
  unfolding readable
  readable-text_at status key s = rw (readable, get-text_at key s, get-text_at key s) refl

  pub stored-write :
      (key text : String) (s : S) → stored kv key text s ≡ (ok tt, store.write key (some text) s)
  unfolding stored set
  stored-write key text s = rw (store.put_write key text s) refl

  pub deleted-write : (key : String) (s : S) → deleted kv key s ≡ (ok tt, store.write key none s)
  unfolding deleted delete
  deleted-write key s = rw (store.remove_write key s) refl

module _ {A : Type 0} (codec : Codec A) where
  -- A value that encoding/json writes as a text, and reads back from it.
  pub record Survives (a : A) (text : String) : Type 0 where
    pub written : codec.marshal a ≡ some text
    pub read_back : codec.unmarshal text ≡ (true, a)
    pub not_empty : (text == "") ≡ false
