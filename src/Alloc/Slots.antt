-- ===== src/Alloc/Slots.antt =====
-- A bitmap as a set of slots, and what the scan of alloc.go finds in it.
use mini_k8s.Base.{
  ltb, ◌==◌, nat_Eq, string_Eq, Bool-cases, le_cases, length, get_or, set, All, ℕ, zero, suc, ◌+◌,
  ◌-◌, ◌*◌, ◌/◌, ◌%◌, ◌≤◌, ◌<◌, ◌≡◌, refl, subst, ◌⊎◌, inl, inr, Bool, true, false, Option, none,
  some, List, [], ◌∷◌, arith,
}
use mini_k8s.Base.Bytes.{test_bit, set_bit, clear_bit, test_bit_full}
use mini_k8s.Alloc.{first_clear, scan_bytes, pass_byte, scan_byte}

-- Slot `n` is bit `n % 8` of byte `n / 8`.
unfoldable pub is_set : List ℕ → ℕ → Bool
is_set bs n = test_bit (get_or bs (n / 8) 0) (n % 8)

abbrev pub IsBytes : List ℕ → Type 0
IsBytes bs = All (λ b. b < 256) bs

unfoldable pub take_slot : List ℕ → ℕ → List ℕ
take_slot bs n = set bs (n / 8) (set_bit (get_or bs (n / 8) 0) (n % 8))

unfoldable pub clear_slot : List ℕ → ℕ → List ℕ
clear_slot bs n = set bs (n / 8) (clear_bit (get_or bs (n / 8) 0) (n % 8))

pub is_set-cons_low : (b : ℕ) (bs : List ℕ) (j : ℕ) → j < 8 → is_set (b ∷ bs) j ≡ test_bit b j
unfolding is_set
is_set-cons_low b bs j h =
    let q : j / 8 ≡ 0 = omega arith in let r : j % 8 ≡ j = omega arith in rw (q, r)

pub is_set-cons_high : (b : ℕ) (bs : List ℕ) (j : ℕ) → is_set (b ∷ bs) (j + 8) ≡ is_set bs j
unfolding is_set
is_set-cons_high b bs j =
    let q : (j + 8) / 8 ≡ suc (j / 8) = omega arith in
    let r : (j + 8) % 8 ≡ j % 8 = omega arith in rw (q, r)

take_slot-cons_low : (b : ℕ) (bs : List ℕ) (j : ℕ) → j < 8 → take_slot (b ∷ bs) j ≡ set_bit b j ∷ bs
unfolding take_slot
take_slot-cons_low b bs j h =
    let q : j / 8 ≡ 0 = omega arith in let r : j % 8 ≡ j = omega arith in rw (q, r)

take_slot-cons_high :
    (b : ℕ) (bs : List ℕ) (j : ℕ) → take_slot (b ∷ bs) (j + 8) ≡ b ∷ take_slot bs j
unfolding take_slot
take_slot-cons_high b bs j =
    let q : (j + 8) / 8 ≡ suc (j / 8) = omega arith in
    let r : (j + 8) % 8 ≡ j % 8 = omega arith in rw (q, r)

-- All bits from `i` up to `k` are 1.
abbrev Full : ℕ → ℕ → ℕ → Type 0
Full b i k = (j : ℕ) → i ≤ j → j < k → test_bit b j ≡ true

first_clear_cases :
    (rounds b i k : ℕ)
    → i + rounds ≡ k
    → ((first_clear rounds b i ≡ none) × Full b i k)
      ⊎ ((n : ℕ) × (first_clear rounds b i ≡ some n)
          × (n < k)
          × (test_bit b n ≡ false)
          × Full b i n)
unfolding first_clear
first_clear_cases zero b i k e = inl (refl, λ j p q. absurd (omega arith))
first_clear_cases (suc rounds) b i k e = elim (Bool-cases (test_bit b i)) [
  | inr clear ↦ inr (i, rw clear, omega arith, clear, λ j p q. absurd (omega arith))
  | inl taken ↦ elim (first_clear_cases rounds b (i + 1) k (omega arith)) [
    | inl (e', full) ↦ inl (rw (taken, e'), extend taken k full)
    | inr (n, e', bound, clear, full) ↦ inr (n, rw (taken, e'), bound, clear, extend taken n full)
  ]
]
  where
    extend : test_bit b i ≡ true → (m : ℕ) → Full b (i + 1) m → Full b i m
    extend taken m full j p q = elim (le_cases i j p) [
      | inl e'' ↦ subst (λ x. test_bit b x ≡ true) e'' taken
      | inr h ↦ full j (omega arith) q
    ]

-- Every slot from 0 up to `k` is taken.
abbrev pub AllSet : List ℕ → ℕ → Type 0
AllSet bs k = (j : ℕ) → j < k → is_set bs j ≡ true

-- The scan stops at the first free slot, which it takes, or finds all slots taken.
abbrev pub Scanned : List ℕ → ℕ → Option (ℕ × List ℕ) → Type 0
Scanned bs idx r =
    ((r ≡ none) × AllSet bs (8 * length bs))
    ⊎ ((n : ℕ) × (r ≡ some (idx * 8 + n, take_slot bs n))
        × (n < 8 * length bs)
        × (is_set bs n ≡ false)
        × AllSet bs n)

AllSet-cons : (b : ℕ) (bs : List ℕ) (k : ℕ) → Full b 0 8 → AllSet bs k → AllSet (b ∷ bs) (k + 8)
AllSet-cons b bs k full rest j h = elim (Bool-cases (ltb j 8)) [
  | inl low ↦ let p : j < 8 = ground arith in rw (is_set-cons_low b bs j p) (full j (omega arith) p)
  | inr high ↦
      let e : j ≡ (j - 8) + 8 = ground arith in
      rw e (rw (is_set-cons_high b bs (j - 8)) (rest (j - 8) (ground arith)))
]

AllSet-low : (b : ℕ) (bs : List ℕ) (n : ℕ) → n < 8 → Full b 0 n → AllSet (b ∷ bs) n
AllSet-low b bs n p full j h = rw (is_set-cons_low b bs j (omega arith)) (full j (omega arith) h)

pass_byte-Scanned :
    (b : ℕ) (bs : List ℕ) (idx : ℕ) (later : Option (ℕ × List ℕ))
    → Full b 0 8
    → Scanned bs (idx + 1) later
    → Scanned (b ∷ bs) idx (pass_byte b later)
unfolding pass_byte
pass_byte-Scanned b bs idx later full (inl (e, all)) =
    inl (rw e, λ j h. AllSet-cons b bs (8 * length bs) full all j (omega arith))
pass_byte-Scanned b bs idx later full (inr (n, e, bound, clear, all)) = inr (
  n + 8,
  rw e (cc (take_slot-cons_high b bs n, shift)),
  omega arith,
  rw (is_set-cons_high b bs n) clear,
  AllSet-cons b bs n full all,
)
  where
    shift : (idx + 1) * 8 + n ≡ idx * 8 + (n + 8)
    shift = omega arith

scan_byte-Scanned :
    (b : ℕ) (bs : List ℕ) (idx : ℕ) (later : Option (ℕ × List ℕ))
    → Scanned bs (idx + 1) later
    → Scanned (b ∷ bs) idx (scan_byte b bs idx later)
unfolding scan_byte
scan_byte-Scanned b bs idx later ih = elim (Bool-cases (b == 255)) [
  | inl e ↦
      let full : b ≡ 255 = ground arith in
      rw e (pass_byte-Scanned b bs idx later (λ j p q. rw full (test_bit_full j q)) ih)
  | inr e ↦ elim (first_clear_cases 8 b 0 8 (omega arith)) [
    | inl (e', full) ↦ rw (e, e') (pass_byte-Scanned b bs idx later full ih)
    | inr (n, e', bound, clear, full) ↦
        rw (e, e')
          (inr (
            n,
            cc (take_slot-cons_low b bs n bound),
            omega arith,
            rw (is_set-cons_low b bs n bound) clear,
            AllSet-low b bs n bound full,
          ))
  ]
]

pub scan_bytes-Scanned : (bs : List ℕ) (idx : ℕ) → Scanned bs idx (scan_bytes bs idx)
unfolding scan_bytes
scan_bytes-Scanned [] idx = inl (refl, λ j h. absurd (omega arith))
scan_bytes-Scanned (b ∷ bs) idx =
    scan_byte-Scanned b bs idx (scan_bytes bs (idx + 1)) (scan_bytes-Scanned bs (idx + 1))
