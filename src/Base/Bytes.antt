-- ===== src/Base/Bytes.antt =====
-- Single bits of a byte. The laws are read off a table of all 256 bytes.
use Prim.Native.Nat.{ℕ, zero, suc, ◌-◌, ◌^◌, ◌<◌, bit_and, bit_or}
use mathlib.Core.Path.{◌≡◌, refl}
use mathlib.Core.Bool.{Bool, true, false, ◌&&◌, ◌||◌, not}
use native.Mathlib.Omega.{arith}
use mini_k8s.Base.Tests.{ltb, nat_eq}

-- `b & (1 << i) != 0`
unfoldable pub test_bit : ℕ → ℕ → Bool
test_bit b i = not (nat_eq (bit_and b (2 ^ i)) 0)

-- `b | 1 << i`
unfoldable pub set_bit : ℕ → ℕ → ℕ
set_bit b i = bit_or b (2 ^ i)

-- `b &^ (1 << i)`
unfoldable pub clear_bit : ℕ → ℕ → ℕ
clear_bit b i = bit_and b (255 - 2 ^ i)

unfoldable pub all_below : ℕ → (ℕ → Bool) → Bool
all_below zero p = true
all_below (suc n) p = p n && all_below n p

pub all_below_sound :
    (bound : ℕ) (test : ℕ → Bool) (i : ℕ) → all_below bound test ≡ true → i < bound → test i ≡ true
unfolding all_below
all_below_sound zero test i all below = absurd (omega arith)
all_below_sound (suc bound) test i all below = ground (arith, all_below_sound bound test i)

bool_eq : Bool → Bool → Bool
bool_eq true b = b
bool_eq false b = not b

bool_eq_sound : (a b : Bool) → bool_eq a b ≡ true → a ≡ b
unfolding bool_eq
bool_eq_sound a b h = ground arith

-- What is checked of a byte and two bit positions.
set_row : ℕ → ℕ → ℕ → Bool
unfolding test_bit set_bit clear_bit bool_eq
set_row b i j = bool_eq (test_bit (set_bit b i) j) (nat_eq i j || test_bit b j)

clear_row : ℕ → ℕ → ℕ → Bool
unfolding test_bit set_bit clear_bit bool_eq
clear_row b i j = bool_eq (test_bit (clear_bit b i) j) (not (nat_eq i j) && test_bit b j)

byte_row : ℕ → ℕ → Bool
unfolding test_bit set_bit clear_bit
byte_row b i =
    ltb (set_bit b i) 256
    && ltb (clear_bit b i) 256
    && (test_bit b i || nat_eq (clear_bit (set_bit b i) i) b)

table : ℕ → (ℕ → ℕ → ℕ → Bool) → Bool
unfolding all_below
table n row = all_below n (λ b. all_below 8 (λ i. all_below 8 (row b i)))

table_sound :
    (row : ℕ → ℕ → ℕ → Bool) (b i j : ℕ)
    → table 256 row ≡ true
    → b < 256
    → i < 8
    → j < 8
    → row b i j ≡ true
unfolding table
table_sound row b i j h p q r =
    all_below_sound 8 (row b i) j
      (all_below_sound 8 (λ k. all_below 8 (row b k)) i
        (all_below_sound 256 (λ c. all_below 8 (λ k. all_below 8 (row c k))) b h p) q)
      r

set_table : table 256 set_row ≡ true
unfolding table set_row
set_table = refl

clear_table : table 256 clear_row ≡ true
unfolding table clear_row
clear_table = refl

byte_table : table 256 (λ b i j. byte_row b i) ≡ true
unfolding table byte_row
byte_table = refl

byte_row_sound : (b i : ℕ) → b < 256 → i < 8 → byte_row b i ≡ true
byte_row_sound b i p q = table_sound (λ b i j. byte_row b i) b i 0 byte_table p q (omega arith)

pub test_bit-set_bit :
    (b i j : ℕ) → b < 256 → i < 8 → j < 8 → test_bit (set_bit b i) j ≡ (nat_eq i j || test_bit b j)
unfolding set_row
test_bit-set_bit b i j p q r = bool_eq_sound _ _ (table_sound set_row b i j set_table p q r)

pub test_bit-clear_bit :
    (b i j : ℕ)
    → b < 256
    → i < 8
    → j < 8
    → test_bit (clear_bit b i) j ≡ (not (nat_eq i j) && test_bit b j)
unfolding clear_row
test_bit-clear_bit b i j p q r = bool_eq_sound _ _ (table_sound clear_row b i j clear_table p q r)

pub set_bit-lt : (b i : ℕ) → b < 256 → i < 8 → set_bit b i < 256
unfolding byte_row
set_bit-lt b i p q = ground (arith, byte_row_sound b i p q)

pub clear_bit-lt : (b i : ℕ) → b < 256 → i < 8 → clear_bit b i < 256
unfolding byte_row
clear_bit-lt b i p q = ground (arith, byte_row_sound b i p q)

-- Clearing a bit that was set from 0 gives the byte back.
pub clear_bit-set_bit :
    (b i : ℕ) → b < 256 → i < 8 → test_bit b i ≡ false → clear_bit (set_bit b i) i ≡ b
unfolding byte_row
clear_bit-set_bit b i p q e = ground (arith, byte_row_sound b i p q)

-- The full byte has every bit.
pub test_bit_full : (i : ℕ) → i < 8 → test_bit 255 i ≡ true
unfolding test_bit all_below
test_bit_full i q = all_below_sound 8 (test_bit 255) i refl q
