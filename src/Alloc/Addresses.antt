-- ===== src/Alloc/Addresses.antt =====
-- The allocators as a whole: a slot is handed out once, and given back as it was.
use mini_k8s.Base.{
  ltb, string_Eq, nat_Eq, ◌==◌, Bool-cases, length, Result, ok, err, ℕ, ◌*◌, ◌/◌, ◌≤◌, ◌<◌, ◌≡◌,
  refl, ◌⊎◌, inl, inr, true, false, ◌&&◌, ◌||◌, not, List, arith,
}
use mini_k8s.Alloc.Decimal.{Sign, plus, is_natural}
use mini_k8s.Alloc.{
  no_available, invalid_index, not_allocated, alloc_internal, free_internal, AllocError, free_at,
}
use mini_k8s.Alloc.Slots.{
  is_set, IsBytes, AllSet, take_slot, clear_slot, clear_slot, scan_bytes-Scanned,
}
use mini_k8s.Alloc.Updates.{
  take_slot-IsBytes, clear_slot-IsBytes, length-take_slot, length-clear_slot, is_set-take_slot,
  is_set-clear_slot, clear_slot-take_slot,
}

-- A bitmap of `size` slots.
pub record IsBitmap (size : ℕ) (bitmap : List ℕ) : Type 0 where
  pub bytes : IsBytes bitmap
  pub whole : 8 * length bitmap ≡ size

-- What `allocInternal` returns: the first free slot, which is now taken and was free, or the error
-- that all slots are taken.
abbrev pub Allocates : List ℕ → ℕ → Result AllocError (ℕ × List ℕ) → Type 0
Allocates bitmap size (err e) = (e ≡ no_available) × AllSet bitmap size
Allocates bitmap size (ok (n, bitmap')) =
    (n < size)
    × (is_set bitmap n ≡ false)
    × AllSet bitmap n
    × ((j : ℕ) → is_set bitmap' j ≡ (n == j || is_set bitmap j))
    × IsBitmap size bitmap'

alloc_internal_cases :
    (bitmap : List ℕ) (size : ℕ)
    → IsBitmap size bitmap
    → ((alloc_internal bitmap size ≡ err no_available) × AllSet bitmap size)
      ⊎ ((n : ℕ) × (alloc_internal bitmap size ≡ ok (n, take_slot bitmap n))
          × (n < size)
          × (is_set bitmap n ≡ false)
          × AllSet bitmap n)
unfolding alloc_internal
alloc_internal_cases bitmap size v =
    let e : (length bitmap == size / 8) ≡ true = ground arith in
    rw e (elim (scan_bytes-Scanned bitmap 0) [
      | inl (none_left, all) ↦ inl (rw none_left, λ j h. all j (omega arith))
      | inr (n, found, bound, free, below) ↦
          inr (n, rw found (ground arith), omega arith, free, below)
    ])

take_slot-IsBitmap :
    (bitmap : List ℕ) (size n : ℕ) → IsBitmap size bitmap → IsBitmap size (take_slot bitmap n)
take_slot-IsBitmap bitmap size n v = record {
  bytes = take_slot-IsBytes bitmap n v.bytes;
  whole = omega (arith, length-take_slot bitmap n v.bytes, v.whole);
}

clear_slot-IsBitmap :
    (bitmap : List ℕ) (size n : ℕ) → IsBitmap size bitmap → IsBitmap size (clear_slot bitmap n)
clear_slot-IsBitmap bitmap size n v = record {
  bytes = clear_slot-IsBytes bitmap n v.bytes;
  whole = omega (arith, length-clear_slot bitmap n v.bytes, v.whole);
}

-- On a well-formed bitmap `allocInternal` returns the lowest free slot, adds just that slot to the
-- taken ones and keeps the bitmap well-formed; it fails only when all slots are taken, and with
-- that error.
pub alloc_internal-Allocates :
    (bitmap : List ℕ) (size : ℕ)
    → IsBitmap size bitmap
    → Allocates bitmap size (alloc_internal bitmap size)
alloc_internal-Allocates bitmap size v = elim (alloc_internal_cases bitmap size v) [
  | inl (e, all) ↦ rw e (refl, all)
  | inr (n, e, bound, free, below) ↦ rw e (
    bound,
    free,
    below,
    λ j. is_set-take_slot bitmap n v.bytes j (omega (arith, v.whole)),
    take_slot-IsBitmap bitmap size n v,
  )
]

-- What `freeInternal` returns for the index that `%d` read as a sign and a number.
abbrev pub Frees : List ℕ → ℕ → Sign → ℕ → Result AllocError (List ℕ) → Type 0
Frees bitmap size sign idx (ok bitmap') =
    (is_natural sign idx ≡ true)
    × (idx < size)
    × (is_set bitmap idx ≡ true)
    × ((j : ℕ) → is_set bitmap' j ≡ (not (idx == j) && is_set bitmap j))
    × IsBitmap size bitmap'
Frees bitmap size sign idx (err not_allocated) =
    (is_natural sign idx ≡ true) × (idx < size) × (is_set bitmap idx ≡ false)
Frees bitmap size sign idx (err invalid_index) = (is_natural sign idx ≡ false) ⊎ (size ≤ idx)
Frees bitmap size sign idx (err _) = ⊥

free_at-eq-clear_slot :
    (bitmap : List ℕ) (size idx : ℕ)
    → IsBitmap size bitmap
    → idx < size
    → is_set bitmap idx ≡ true
    → free_at bitmap size idx ≡ ok (clear_slot bitmap idx)
unfolding free_at is_set clear_slot
free_at-eq-clear_slot bitmap size idx v h taken = ground arith

free_at-unset :
    (bitmap : List ℕ) (size idx : ℕ)
    → idx < size
    → is_set bitmap idx ≡ false
    → free_at bitmap size idx ≡ err not_allocated
unfolding free_at is_set
free_at-unset bitmap size idx h free = ground arith

free_at-Frees :
    (bitmap : List ℕ) (size : ℕ) (sign : Sign) (idx : ℕ)
    → IsBitmap size bitmap
    → is_natural sign idx ≡ true
    → Frees bitmap size sign idx (free_at bitmap size idx)
unfolding free_at
free_at-Frees bitmap size sign idx v natural = elim (Bool-cases (ltb idx size)) [
  | inr high ↦ rw high (inr (ground arith))
  | inl low ↦
      let bound : idx < size = ground arith in
      elim (Bool-cases (is_set bitmap idx)) [
        | inl taken ↦ rw (free_at-eq-clear_slot bitmap size idx v bound taken) (
          natural,
          bound,
          taken,
          λ j. is_set-clear_slot bitmap idx v.bytes j (omega (arith, v.whole)),
          clear_slot-IsBitmap bitmap size idx v,
        )
        | inr free ↦ rw (free_at-unset bitmap size idx bound free) (natural, bound, free)
      ]
]

-- `freeInternal` frees a slot exactly when its index is not negative and below the size, and the slot
-- is taken: then just that slot is free, and the bitmap stays well-formed. It tells the two errors apart.
pub free_internal-Frees :
    (bitmap : List ℕ) (size : ℕ) (sign : Sign) (idx : ℕ)
    → IsBitmap size bitmap
    → Frees bitmap size sign idx (free_internal bitmap size (sign, idx))
unfolding free_internal
free_internal-Frees bitmap size sign idx v =
    let e : (length bitmap == size / 8) ≡ true = ground arith in
    elim (Bool-cases (is_natural sign idx)) [
      | inl natural ↦ rw (e, natural) (free_at-Frees bitmap size sign idx v natural)
      | inr negative ↦ rw (e, negative) (inl negative)
    ]

free_internal-eq-clear_slot :
    (bitmap : List ℕ) (size idx : ℕ)
    → IsBitmap size bitmap
    → idx < size
    → is_set bitmap idx ≡ true
    → free_internal bitmap size (plus, idx) ≡ ok (clear_slot bitmap idx)
unfolding free_internal is_natural
free_internal-eq-clear_slot bitmap size idx v h taken =
    let e : (length bitmap == size / 8) ≡ true = ground arith in
    rw e (free_at-eq-clear_slot bitmap size idx v h taken)

-- Freeing the slot that was just allocated succeeds and gives the bitmap back as it was.
pub free_internal-alloc_internal :
    (bitmap bitmap' : List ℕ) (size n : ℕ)
    → IsBitmap size bitmap
    → alloc_internal bitmap size ≡ ok (n, bitmap')
    → free_internal bitmap' size (plus, n) ≡ ok bitmap
free_internal-alloc_internal bitmap bitmap' size n v h = elim (alloc_internal_cases bitmap size v) [
  | inl (e, all) ↦ cc
  | inr (m, e, bound, free, below) ↦
      let same : n ≡ m = cc in
      let after : bitmap' ≡ take_slot bitmap m = cc in
      let inside : m < 8 * length bitmap = omega (arith, v.whole) in
      rw (
        same,
        after,
        free_internal-eq-clear_slot (take_slot bitmap m) size m (take_slot-IsBitmap bitmap size m v)
            bound (ground (arith, is_set-take_slot bitmap m v.bytes m)),
        clear_slot-take_slot bitmap m v.bytes inside free,
      )
]
