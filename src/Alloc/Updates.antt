-- ===== src/Alloc/Updates.antt =====
-- What taking and clearing a slot do to the set of slots.
use mini_k8s.Base.{
  ◌==◌, nat_Eq, string_Eq, Bool-cases, length, get_or, set, length-set, get_or-set_self,
  get_or-set_ne, ℕ, zero, suc, ◌*◌, ◌/◌, ◌%◌, ◌<◌, ◌≡◌, refl, ap, inl, inr, false, ◌&&◌, ◌||◌, not,
  List, [], ◌∷◌, arith,
}
use mini_k8s.Base.Bytes.{
  set_bit, clear_bit, test_bit-set_bit, test_bit-clear_bit, set_bit-lt, clear_bit-lt,
  clear_bit-set_bit,
}
use mini_k8s.Alloc.Slots.{is_set, IsBytes, take_slot, clear_slot}

get_or-lt : (bs : List ℕ) (i : ℕ) → IsBytes bs → get_or bs i 0 < 256
get_or-lt [] i h = omega arith
get_or-lt (b ∷ bs) zero h = h.0
get_or-lt (b ∷ bs) (suc i) h = get_or-lt bs i h.1

set-IsBytes : (bs : List ℕ) (i v : ℕ) → IsBytes bs → v < 256 → IsBytes (set bs i v)
set-IsBytes [] i v h p = tt
set-IsBytes (b ∷ bs) zero v h p = (p, h.1)
set-IsBytes (b ∷ bs) (suc i) v h p = (h.0, set-IsBytes bs i v h.1 p)

set-get_or : (bs : List ℕ) (i : ℕ) → set bs i (get_or bs i 0) ≡ bs
set-get_or [] i = refl
set-get_or (b ∷ bs) zero = refl
set-get_or (b ∷ bs) (suc i) = ap (◌∷◌ b) (set-get_or bs i)

set-set : (bs : List ℕ) (i v w : ℕ) → set (set bs i v) i w ≡ set bs i w
set-set [] i v w = refl
set-set (b ∷ bs) zero v w = refl
set-set (b ∷ bs) (suc i) v w = ap (◌∷◌ b) (set-set bs i v w)

module _ (bs : List ℕ) (n : ℕ) (bytes : IsBytes bs) where
  byte_lt : get_or bs (n / 8) 0 < 256
  byte_lt = get_or-lt bs (n / 8) bytes

  pub take_slot-IsBytes : IsBytes (take_slot bs n)
  unfolding take_slot
  take_slot-IsBytes =
      set-IsBytes bs (n / 8) _ bytes
        (set_bit-lt (get_or bs (n / 8) 0) (n % 8) byte_lt (omega arith))

  pub clear_slot-IsBytes : IsBytes (clear_slot bs n)
  unfolding clear_slot
  clear_slot-IsBytes =
      set-IsBytes bs (n / 8) _ bytes
        (clear_bit-lt (get_or bs (n / 8) 0) (n % 8) byte_lt (omega arith))

  pub length-take_slot : length (take_slot bs n) ≡ length bs
  unfolding take_slot
  length-take_slot = length-set bs (n / 8) _

  pub length-clear_slot : length (clear_slot bs n) ≡ length bs
  unfolding clear_slot
  length-clear_slot = length-set bs (n / 8) _

  pub is_set-take_slot :
      (j : ℕ) → n < 8 * length bs → is_set (take_slot bs n) j ≡ (n == j || is_set bs j)
  unfolding is_set take_slot
  is_set-take_slot j h = elim (Bool-cases (n / 8 == j / 8)) [
    | inl e ↦
        let same : n / 8 ≡ j / 8 = ground arith in
        rw
          (
            ← same,
            get_or-set_self bs (n / 8) (set_bit (get_or bs (n / 8) 0) (n % 8)) 0 (omega arith),
          )
          (ground (arith, test_bit-set_bit (get_or bs (n / 8) 0) (n % 8) (j % 8) byte_lt))
    | inr e ↦
        rw
          (get_or-set_ne bs (n / 8) (j / 8) (set_bit (get_or bs (n / 8) 0) (n % 8)) 0
            (ground arith))
          (ground arith)
  ]

  pub is_set-clear_slot :
      (j : ℕ) → n < 8 * length bs → is_set (clear_slot bs n) j ≡ (not (n == j) && is_set bs j)
  unfolding is_set clear_slot
  is_set-clear_slot j h = elim (Bool-cases (n / 8 == j / 8)) [
    | inl e ↦
        let same : n / 8 ≡ j / 8 = ground arith in
        rw
          (
            ← same,
            get_or-set_self bs (n / 8) (clear_bit (get_or bs (n / 8) 0) (n % 8)) 0 (omega arith),
          )
          (ground (arith, test_bit-clear_bit (get_or bs (n / 8) 0) (n % 8) (j % 8) byte_lt))
    | inr e ↦
        rw
          (get_or-set_ne bs (n / 8) (j / 8) (clear_bit (get_or bs (n / 8) 0) (n % 8)) 0
            (ground arith))
          (ground arith)
  ]

  -- A slot that was free is free again, with every byte as before.
  pub clear_slot-take_slot :
      n < 8 * length bs → is_set bs n ≡ false → clear_slot (take_slot bs n) n ≡ bs
  unfolding is_set take_slot clear_slot
  clear_slot-take_slot h free =
      rw
        (
          get_or-set_self bs (n / 8) (set_bit (get_or bs (n / 8) 0) (n % 8)) 0 (omega arith),
          clear_bit-set_bit (get_or bs (n / 8) 0) (n % 8) byte_lt (omega arith) free,
          set-set bs (n / 8) (set_bit (get_or bs (n / 8) 0) (n % 8)) (get_or bs (n / 8) 0),
        )
        (set-get_or bs (n / 8))
