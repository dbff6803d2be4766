-- ===== src/Alloc/Decimal.antt =====
-- What alloc.go uses of the package fmt: `Sprintf("%s%d")`, and `Sscanf` with a literal prefix and
-- one `%d`, which skips spaces, takes a sign and one digit at least, and ignores what follows.
-- An index past the range of an int is refused by `Sscanf`; here it is refused as too large.
use Prim.Native.Char.{code}
use Prim.Native.String.{◌++◌ as append_text}
use mini_k8s.Base.{
  ltb, leb, if◌then◌else◌, ◌==◌, nat_Eq, string_Eq, ℕ, zero, suc, ◌+◌, ◌-◌, ◌*◌, ◌/◌, ◌%◌, String,
  Bool, true, ◌&&◌, Option, none, some,
}

pub data Sign : Type 0 where
  plus minus : Sign

abbrev pub append : String → String → String
append s t = append_text s t

digit : ℕ → String
digit zero = "0"
digit (suc zero) = "1"
digit (suc (suc zero)) = "2"
digit (suc (suc (suc zero))) = "3"
digit (suc (suc (suc (suc zero)))) = "4"
digit (suc (suc (suc (suc (suc zero))))) = "5"
digit (suc (suc (suc (suc (suc (suc zero)))))) = "6"
digit (suc (suc (suc (suc (suc (suc (suc zero))))))) = "7"
digit (suc (suc (suc (suc (suc (suc (suc (suc zero)))))))) = "8"
digit _ = "9"

-- The digits of `n`, with fuel: each round divides by ten.
print_rounds : ℕ → ℕ → String
unfolding digit
print_rounds zero n = digit n
print_rounds (suc fuel) n =
    let more = print_rounds fuel (n / 10) in
    if ltb n 10 then digit n else append more (digit (n % 10))

unfoldable pub print_decimal : ℕ → String
unfolding print_rounds
print_decimal n = print_rounds n n

-- The literal part of the format.
strip_prefix : String → String → Option String
strip_prefix String.[] s = some s
strip_prefix (String.◌∷◌ c p) String.[] = none
strip_prefix (String.◌∷◌ c p) (String.◌∷◌ d s) =
    let rest = strip_prefix p s in if code c == code d then rest else none

is_digit : ℕ → Bool
is_digit c = leb b'0' c && leb c b'9'

digits_value : ℕ → String → ℕ
unfolding is_digit
digits_value acc String.[] = acc
digits_value acc (String.◌∷◌ c s) =
    let rest = digits_value (acc * 10 + (code c - b'0')) s in
    if is_digit (code c) then rest else acc

digits : String → Option ℕ
unfolding digits_value
digits String.[] = none
digits (String.◌∷◌ c s) = if is_digit (code c) then some (digits_value (code c - b'0') s) else none

signed : Sign → String → Option (Sign × ℕ)
unfolding digits
signed sign s = elim (digits s) [ none ↦ none | some n ↦ some (sign, n) ]

scan_decimal : String → Option (Sign × ℕ)
unfolding signed
scan_decimal String.[] = none
scan_decimal (String.◌∷◌ c s) =
    let rest = scan_decimal s in
    if code c == b' '
    then rest
    else if code c == b'-'
    then signed minus s
    else if code c == b'+'
    then signed plus s
    else signed plus (String.◌∷◌ c s)

-- `Sscanf(text, prefix + "%d", &n)`
unfoldable pub scan_after : String → String → Option (Sign × ℕ)
unfolding strip_prefix scan_decimal
scan_after prefix text = elim (strip_prefix prefix text) [ none ↦ none | some s ↦ scan_decimal s ]

-- Whether the value is not negative: `-0` is zero.
unfoldable pub is_natural : Sign → ℕ → Bool
is_natural plus n = true
is_natural minus n = n == 0
