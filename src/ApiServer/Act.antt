-- ===== src/ApiServer/Act.antt =====
-- How a handler of pkg/kubeapiserver/app/routine.go is put together: steps on the store, one after
-- the other, each of which may write an error and return. The lock of the server makes a handler
-- one action. The text of an error is left out.
use mini_k8s.Base.{
  if◌then◌else◌, string_Eq, nat_Eq, ◌==◌, Result, ok, err, Map, ℕ, String, Bool, true, false,
  Option, none, some, List, [], ◌∷◌,
}
use mini_k8s.ApiServer.Etcd.{Kv, get, set, delete, get_sub_keys_values, delete_sub_keys}

-- What a handler does to the store, and the answer of a call, with the HTTP statuses that it has
-- written when it stops on an error.
abbrev pub Act {ℓ} : Type 0 → Type ℓ → Type ℓ
Act S A = S → Result (List ℕ) A × S

abbrev pub and_then {ℓ κ} :
    {S : Type 0} {A : Type ℓ} {B : Type κ}
    → Result (List ℕ) A × S
    → (A → Act S B)
    → Result (List ℕ) B × S
and_then (ok a, s) next = next a s
and_then (err e, s) next = (err e, s)

infixl 10 ◌>>=◌ ◌>>◌
abbrev pub ◌>>=◌ {ℓ κ} : {S : Type 0} {A : Type ℓ} {B : Type κ} → Act S A → (A → Act S B) → Act S B
(m >>= next) s = and_then (m s) next

abbrev pub ◌>>◌ {ℓ κ} : {S : Type 0} {A : Type ℓ} {B : Type κ} → Act S A → Act S B → Act S B
m >> next = m >>= λ _. next

abbrev pub pure {ℓ} : {S : Type 0} {A : Type ℓ} → A → Act S A
pure a s = (ok a, s)

-- `c.JSON(status, …Error…); return`
abbrev pub refuse {ℓ} : {S : Type 0} {A : Type ℓ} → ℕ → Act S A
refuse status s = (err (status ∷ []), s)

-- A handler that returns and has written nothing.
abbrev pub silent {ℓ} : {S : Type 0} {A : Type ℓ} → Act S A
silent s = (err [], s)

-- `if !test { c.JSON(status, …); return }`
abbrev pub require : {S : Type 0} → ℕ → Bool → Act S (Unit {0})
require status true = pure tt
require status false = refuse status

-- `if` a computation gave no value `{ c.JSON(status, …); return }`
abbrev pub or_refuse {ℓ} : {S : Type 0} {A : Type ℓ} → ℕ → Option A → Act S A
or_refuse status none = refuse status
or_refuse status (some a) = pure a

-- The last word of a handler: the statuses it wrote, and the data of the response.
pub record Reply {ℓ} (A : Type ℓ) : Type ℓ where
  pub statuses : List ℕ
  pub body : A

abbrev pub reply {ℓ} : {S : Type 0} {A : Type ℓ} → ℕ → A → Act S (Reply A)
reply status a = pure (record { statuses = status ∷ []; body = a })

-- What encoding/json does with one type: a text for a value, and for a text whether there was no
-- error, with the value of the variable after the call.
pub record Codec (A : Type 0) : Type 0 where
  pub marshal : A → Option String
  pub unmarshal : String → Bool × A

module _ {S : Type 0} (kv : Kv S) where
  -- `res, err := Get(key); if err != nil || res == "" { c.JSON(status, …); return }`
  unfoldable pub present : ℕ → String → Act S String
  present status key s =
      let (found, s') = get kv key s in
      elim found [
        | none ↦ (err (status ∷ []), s')
        | some text ↦ if text == "" then (err (status ∷ []), s') else (ok text, s')
      ]

  -- `res, err := Get(key); if res != "" || err != nil { c.JSON(status, …); return }`
  unfoldable pub absent : ℕ → String → Act S (Unit {0})
  absent status key s =
      let (found, s') = get kv key s in
      elim found [
        | none ↦ (err (status ∷ []), s')
        | some text ↦ if text == "" then (ok tt, s') else (err (status ∷ []), s')
      ]

  -- `res, err := Get(key); if err == nil && res != "" { c.JSON(status, …); return }`
  unfoldable pub not_found : ℕ → String → Act S (Unit {0})
  not_found status key s =
      let (found, s') = get kv key s in
      elim found [
        | none ↦ (ok tt, s')
        | some text ↦ if text == "" then (ok tt, s') else (err (status ∷ []), s')
      ]

  -- `res, err := Get(key); if err != nil { c.JSON(status, …); return }`
  unfoldable pub readable : ℕ → String → Act S String
  readable status key s =
      let (found, s') = get kv key s in
      elim found [ none ↦ (err (status ∷ []), s') | some text ↦ (ok text, s') ]

  -- `res, _ := Get(key)`: the empty text on an error.
  unfoldable pub text_or_empty : String → Act S String
  text_or_empty key s =
      let (found, s') = get kv key s in
      elim found [ none ↦ (ok "", s') | some text ↦ (ok text, s') ]

  -- `err = Set(key, text); if err != nil { c.JSON(500, …); return }`
  unfoldable pub stored : String → String → Act S (Unit {0})
  stored key text s =
      let (done, s') = set kv key text s in if done then (ok tt, s') else (err (500 ∷ []), s')

  -- `err = Delete(key); if err != nil { c.JSON(500, …); return }`
  unfoldable pub deleted : String → Act S (Unit {0})
  deleted key s =
      let (done, s') = delete kv key s in if done then (ok tt, s') else (err (500 ∷ []), s')

  -- `err = DeleteSubKeys(key); if err != nil { c.JSON(500, …); return }`
  unfoldable pub deleted_below : String → Act S (Unit {0})
  deleted_below key s =
      let (done, s') = delete_sub_keys kv key s in
      if done then (ok tt, s') else (err (500 ∷ []), s')

  -- `res, err := GetSubKeysValues(key); if err != nil { c.JSON(status, …); return }`
  unfoldable pub read_below : ℕ → String → Act S (Map String String)
  read_below status key s =
      let (found, s') = get_sub_keys_values kv key s in
      elim found [ none ↦ (err (status ∷ []), s') | some pairs ↦ (ok pairs, s') ]

module _ {A : Type 0} (codec : Codec A) where
  -- `_ = json.Unmarshal([]byte(text), &a)`
  unfoldable pub decode_anyway : String → A
  decode_anyway text = (codec.unmarshal text).1

  -- `str, _ := json.Marshal(a)`: no bytes on an error.
  unfoldable pub encode_anyway : A → String
  encode_anyway a = elim (codec.marshal a) [ none ↦ "" | some text ↦ text ]

module _ {S A : Type 0} (codec : Codec A) where
  -- `err = json.Unmarshal([]byte(text), &a); if err != nil { c.JSON(status, …); return }`
  unfoldable pub decode : ℕ → String → Act S A
  decode status text =
      let (fine, a) = codec.unmarshal text in if fine then pure a else refuse status

  -- `str, err := json.Marshal(a); if err != nil { c.JSON(500, …); return }`
  unfoldable pub encode : A → Act S String
  encode a = elim (codec.marshal a) [ none ↦ refuse 500 | some text ↦ pure text ]

  -- `for _, v := range res { … json.Unmarshal …; as = append(as, a) }`
  unfoldable pub decode_all : ℕ → Map String String → Act S (List A)
  decode_all status [] = pure []
  decode_all status ((key, text) ∷ res) = do
    a ← decode status text
    more ← decode_all status res
    pure (a ∷ more)
