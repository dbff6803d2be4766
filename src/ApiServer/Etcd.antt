-- ===== src/ApiServer/Etcd.antt =====
-- pkg/kubeapiserver/etcd/client.go. The client of go.etcd.io is a parameter: its four calls over a
-- state of the store, where an error is `none` or `false`.
use mini_k8s.Base.{string_Eq, nat_Eq, Map, insert, String, Bool, Option, none, some, List, [], ◌∷◌}

-- The calls of `cliv3.KV` that the store makes. A read answers with the pairs it found.
pub record Kv (S : Type 0) : Type 0 where
  pub fetch : String → S → Option (Option String) × S
  pub fetch_prefix : String → S → Option (List (String × String)) × S
  pub put : String → String → S → Bool × S
  pub remove : String → S → Bool × S
  pub remove_prefix : String → S → Bool × S

-- `for _, kv := range res.Kvs { values[string(kv.Key)] = string(kv.Value) }`
unfoldable pub collect : List (String × String) → Map String String → Map String String
collect [] values = values
collect ((k, v) ∷ pairs) values = collect pairs (insert k v values)

module _ {S : Type 0} (kv : Kv S) where
  -- `Get`: no error and the empty text where the key is missing.
  unfoldable pub get : String → S → Option String × S
  get key s =
      let (found, s') = kv.fetch key s in
      (elim found [ none ↦ none | some none ↦ some "" | some (some text) ↦ some text ], s')

  -- `Set`
  unfoldable pub set : String → String → S → Bool × S
  set key text s = kv.put key text s

  -- `Delete`
  unfoldable pub delete : String → S → Bool × S
  delete key s = kv.remove key s

  -- `GetSubKeysValues`
  unfoldable pub get_sub_keys_values : String → S → Option (Map String String) × S
  unfolding collect
  get_sub_keys_values key s =
      let (found, s') = kv.fetch_prefix key s in
      (elim found [ none ↦ none | some pairs ↦ some (collect pairs []) ], s')

  -- `DeleteSubKeys`
  unfoldable pub delete_sub_keys : String → S → Bool × S
  delete_sub_keys key s = kv.remove_prefix key s
