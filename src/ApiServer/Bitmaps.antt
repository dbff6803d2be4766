-- ===== src/ApiServer/Bitmaps.antt =====
-- The conversions between a bitmap and the text that the store holds. A Go string is a sequence of
-- bytes: here the text of a bitmap has one character for each byte.
use Prim.Native.Char.{Char, char, code, IsScalar}
use text.Mathlib.TextLemmas.{cons-ne-nil}
use mini_k8s.Base.{
  string_Eq, nat_Eq, ◌==◌, Bool-cases, length, All, ℕ, zero, suc, ◌%◌, ◌<◌, String, ◌≡◌, refl, inl,
  inr, false, List, [], ◌∷◌, arith,
}

pub byte_IsScalar : (b : ℕ) → b < 256 → IsScalar b
byte_IsScalar b h = ground arith

byte_char : ℕ → Char
byte_char b = char (b % 256) (byte_IsScalar (b % 256) (omega arith))

-- `string(bitmap)`
unfoldable pub bitmap_text : List ℕ → String
unfolding byte_char
bitmap_text [] = String.[]
bitmap_text (b ∷ bitmap) = String.◌∷◌ (byte_char b) (bitmap_text bitmap)

-- `[]byte(text)`
unfoldable pub text_bitmap : String → List ℕ
text_bitmap String.[] = []
text_bitmap (String.◌∷◌ c text) = code c ∷ text_bitmap text

pub text_bitmap-bitmap_text :
    (bitmap : List ℕ) → All (λ b. b < 256) bitmap → text_bitmap (bitmap_text bitmap) ≡ bitmap
unfolding text_bitmap bitmap_text byte_char
text_bitmap-bitmap_text [] h = refl
text_bitmap-bitmap_text (b ∷ bitmap) h =
    let small : b % 256 ≡ b = omega (arith, h.0) in rw (small, text_bitmap-bitmap_text bitmap h.1)

-- `make([]byte, n)`
unfoldable pub zero_bytes : ℕ → List ℕ
zero_bytes zero = []
zero_bytes (suc n) = 0 ∷ zero_bytes n

pub bitmap_text-full : (bitmap : List ℕ) → 0 < length bitmap → (bitmap_text bitmap == "") ≡ false
unfolding bitmap_text byte_char
bitmap_text-full [] h = absurd (omega arith)
bitmap_text-full (b ∷ bitmap) h = elim (Bool-cases (bitmap_text (b ∷ bitmap) == "")) [
  | inl empty ↦ absurd (
      cons-ne-nil (byte_char b) (bitmap_text bitmap)
        ((string_Eq.beq_iff (bitmap_text (b ∷ bitmap)) "").0 empty))
  | inr full ↦ full
]
