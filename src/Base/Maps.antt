-- ===== src/Base/Maps.antt =====
-- Go maps as association lists with one entry for a key. A loop over a map goes through the list:
-- Go leaves the order open, and the list is one possible order.
use mathlib.Core.Path.{◌≡◌, refl, ◌∙◌}
use mathlib.Core.Logic.{inl, inr}
use mathlib.Core.Bool.{Bool, true, false, ◌&&◌, ◌||◌, not}
use mathlib.Core.Option.{Option, none, some}
use mathlib.Core.List.{List, [], ◌∷◌, ◌++◌, map}
use native.Mathlib.Omega.{arith}
use mini_k8s.Base.Lists.{All}
use mini_k8s.Base.Tests.{Eq, ◌==◌, if◌then◌else◌, Bool-cases}

abbrev pub Map {ℓ κ} : Type ℓ → Type κ → Type (ℓ ⊔ κ)
Map K V = List (K × V)

module _ {ℓ} {K : Type ℓ} ⦃e : Eq K⦄ where
  -- Whether a list holds a value.
  unfoldable pub member : K → List K → Bool
  member k [] = false
  member k (j ∷ js) = j == k || member k js

  -- No value stands twice in the list.
  abbrev pub Distinct : List K → Type 0
  Distinct [] = Unit
  Distinct (j ∷ js) = (member j js ≡ false) × Distinct js

  pub All-member :
      (js ks : List K)
      → ((k : K) → member k ks ≡ true → member k js ≡ true)
      → All (λ k. member k js ≡ true) ks
  unfolding member
  All-member js [] among = tt
  All-member js (k ∷ ks) among = (
    among k (ground (arith, e.beq_iff k k)),
    All-member js ks (λ other found. among other (ground arith)),
  )

  -- `set[k] = struct{}{}`
  unfoldable pub add_member : K → List K → List K
  add_member k js = if member k js then js else js ++ k ∷ []

  pub member-append : (k : K) (js is : List K) → member k (js ++ is) ≡ (member k js || member k is)
  unfolding member
  member-append k [] is = refl
  member-append k (j ∷ js) is = ground (arith, member-append k js is)

  pub member-add_member :
      (k i : K) (js : List K) → member k (add_member i js) ≡ (i == k || member k js)
  unfolding add_member member
  member-add_member k i js = ground (arith, e.beq_iff i k, member-append k js (i ∷ []))

  snoc-Distinct :
      (k : K) (js : List K) → member k js ≡ false → Distinct js → Distinct (js ++ k ∷ [])
  unfolding member
  snoc-Distinct k [] h d = (refl, tt)
  snoc-Distinct k (j ∷ js) h d =
      ground (arith, e.beq_iff k j, e.beq_iff j k, member-append j js (k ∷ []), snoc-Distinct k js)

  pub add_member-Distinct : (k : K) (js : List K) → Distinct js → Distinct (add_member k js)
  unfolding add_member
  add_member-Distinct k js d = ground (arith, snoc-Distinct k js)

module _ {ℓ κ} {K : Type ℓ} {V : Type κ} ⦃e : Eq K⦄ where
  -- `v, ok := m[k]`
  unfoldable pub lookup : K → Map K V → Option V
  lookup k [] = none
  lookup k ((j, v) ∷ m) = if j == k then some v else lookup k m

  -- `m[k] = v`
  unfoldable pub insert : K → V → Map K V → Map K V
  insert k v [] = (k, v) ∷ []
  insert k v ((j, w) ∷ m) = if j == k then (k, v) ∷ m else (j, w) ∷ insert k v m

  -- `delete(m, k)`
  unfoldable pub erase : K → Map K V → Map K V
  erase k [] = []
  erase k ((j, v) ∷ m) = if j == k then erase k m else (j, v) ∷ erase k m

  -- `_, ok := m[k]`
  unfoldable pub has : K → Map K V → Bool
  has k [] = false
  has k ((j, v) ∷ m) = j == k || has k m

  pub lookup-insert :
      (k j : K) (new : V) (m : Map K V)
      → lookup j (insert k new m) ≡ (if k == j then some new else lookup j m)
  unfolding lookup insert
  lookup-insert k j new [] = refl
  lookup-insert k j new ((i, old) ∷ m) =
      ground (arith, e.beq_iff k j, e.beq_iff i k, e.beq_iff i j, lookup-insert k j new m)

  pub lookup-erase :
      (k j : K) (m : Map K V) → lookup j (erase k m) ≡ (if k == j then none else lookup j m)
  unfolding lookup erase
  lookup-erase k j [] = ground arith
  lookup-erase k j ((i, w) ∷ m) =
      ground (arith, e.beq_iff k j, e.beq_iff i k, e.beq_iff i j, lookup-erase k j m)

  pub has-lookup : (k : K) (m : Map K V) → lookup k m ≡ none → has k m ≡ false
  unfolding lookup has
  has-lookup k [] h = refl
  has-lookup k ((j, v) ∷ m) h = ground (arith, has-lookup k m)

  pub lookup-has : (k : K) (m : Map K V) → has k m ≡ false → lookup k m ≡ none
  unfolding lookup has
  lookup-has k [] h = refl
  lookup-has k ((j, v) ∷ m) h = ground (arith, lookup-has k m)

  pub has-insert : (k j : K) (v : V) (m : Map K V) → has j (insert k v m) ≡ (k == j || has j m)
  unfolding has insert
  has-insert k j v [] = refl
  has-insert k j v ((i, w) ∷ m) =
      ground (arith, e.beq_iff k j, e.beq_iff i k, e.beq_iff i j, has-insert k j v m)

  -- One entry for a key.
  abbrev pub IsMap : Map K V → Type 0
  IsMap [] = Unit
  IsMap ((k, v) ∷ m) = (has k m ≡ false) × IsMap m

  pub insert-IsMap : (k : K) (v : V) (m : Map K V) → IsMap m → IsMap (insert k v m)
  unfolding insert has
  insert-IsMap k v [] h = (refl, tt)
  insert-IsMap k v ((j, w) ∷ m) h =
      ground (arith, e.beq_iff j k, e.beq_iff k j, has-insert k j v m, insert-IsMap k v m h.1)

  pub has-erase : (k j : K) (m : Map K V) → has j (erase k m) ≡ (not (k == j) && has j m)
  unfolding has erase
  has-erase k j [] = ground arith
  has-erase k j ((i, v) ∷ m) =
      ground (arith, e.beq_iff k j, e.beq_iff i k, e.beq_iff i j, has-erase k j m)

  pub erase-IsMap : (k : K) (m : Map K V) → IsMap m → IsMap (erase k m)
  unfolding erase has
  erase-IsMap k [] h = tt
  erase-IsMap k ((j, v) ∷ m) h = ground (arith, has-erase k j m, erase-IsMap k m h.1)

  abbrev pub keys : Map K V → List K
  keys m = map (λ r. r.0) m

  pub member-keys : (k : K) (m : Map K V) → member k (keys m) ≡ has k m
  unfolding member has
  member-keys k [] = refl
  member-keys k ((j, v) ∷ m) = ground (arith, member-keys k m)

  pub keys-Distinct : (m : Map K V) → IsMap m → Distinct (keys m)
  keys-Distinct [] h = tt
  keys-Distinct ((j, v) ∷ m) h = (member-keys j m ∙ h.0, keys-Distinct m h.1)

-- Every value of the map has the property.
abbrev pub Each {ℓ κ μ} : {K : Type ℓ} {V : Type κ} → (V → Type μ) → Map K V → Type μ
Each P [] = Unit
Each P ((k, v) ∷ m) = P v × Each P m

module _ {ℓ κ μ} {K : Type ℓ} {V : Type κ} (P : V → Type μ) ⦃e : Eq K⦄ where
  pub insert-Each : (k : K) (v : V) (m : Map K V) → Each P m → P v → Each P (insert k v m)
  unfolding insert
  insert-Each k v [] h p = (p, tt)
  insert-Each k v ((j, w) ∷ m) h p = elim (Bool-cases (j == k)) [
    | inl same ↦ rw same (p, h.1)
    | inr other ↦ rw other (h.0, insert-Each k v m h.1 p)
  ]

  pub erase-Each : (k : K) (m : Map K V) → Each P m → Each P (erase k m)
  unfolding erase
  erase-Each k [] h = tt
  erase-Each k ((j, w) ∷ m) h = elim (Bool-cases (j == k)) [
    | inl same ↦ rw same (erase-Each k m h.1)
    | inr other ↦ rw other (h.0, erase-Each k m h.1)
  ]

  pub lookup-Each : (k : K) (v : V) (m : Map K V) → Each P m → lookup k m ≡ some v → P v
  unfolding lookup
  lookup-Each k v [] h found = cc
  lookup-Each k v ((j, w) ∷ m) h found = elim (Bool-cases (j == k)) [
    | inl same ↦ let here : w ≡ v = ground arith in rw (← here) h.0
    | inr other ↦ lookup-Each k v m h.1 (ground arith)
  ]
