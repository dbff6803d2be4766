-- ===== src/Alloc.antt =====
-- The bitmap allocators of pkg/kubeapiserver/utils/alloc.go. A bitmap is a list of bytes; a call
-- that the source lets write through the slice returns the new slice.
pub mod Decimal
pub mod Slots
pub mod Updates
pub mod Addresses
pub mod Names
pub mod Nodes
mod Tests
use mini_k8s.Base.{
  ltb, if◌then◌else◌, string_Eq, nat_Eq, ◌==◌, length, get_or, set, ◌>>=◌, ◌>>◌, guard, Result, ok,
  err, ℕ, zero, suc, ◌+◌, ◌*◌, ◌/◌, ◌%◌, String, Option, none, some, List, [], ◌∷◌,
}
use mini_k8s.Base.Bytes.{test_bit, set_bit, clear_bit}
use Decimal.{Sign, append, print_decimal, scan_after}

abbrev pub ip_prefix : String
ip_prefix = "100.0.0."

abbrev pub ip_pool_size : ℕ
ip_pool_size = 256

abbrev pub node_prefix : String
node_prefix = "node-"

abbrev pub node_pool_size : ℕ
node_pool_size = 64

pub data AllocError : Type 0 where
  invalid_bitmap_size no_available no_input invalid_index not_allocated : AllocError

-- `for i := 0; i < 8; i++`, with `rounds` of it left: the first bit that is 0.
pub first_clear : ℕ → ℕ → ℕ → Option ℕ
first_clear zero b i = none
first_clear (suc rounds) b i =
    let rest = first_clear rounds b (i + 1) in if test_bit b i then rest else some i

-- A byte that the loop has passed stays in the slice.
pub pass_byte : ℕ → Option (ℕ × List ℕ) → Option (ℕ × List ℕ)
pass_byte b none = none
pass_byte b (some (n, bs)) = some (n, b ∷ bs)

-- The body of the loop at byte `b`; `later` is what the rounds after it give.
pub scan_byte : ℕ → List ℕ → ℕ → Option (ℕ × List ℕ) → Option (ℕ × List ℕ)
unfolding first_clear pass_byte
scan_byte b bs idx later = if b == 255 then pass_byte b later else elim (first_clear 8 b 0) [
  | none ↦ pass_byte b later
  | some i ↦ some (idx * 8 + i, set_bit b i ∷ bs)
]

-- `for idx, b := range bitmap`: the slot that is taken, and the bytes from `idx` on after that.
pub scan_bytes : List ℕ → ℕ → Option (ℕ × List ℕ)
unfolding scan_byte
scan_bytes [] idx = none
scan_bytes (b ∷ bs) idx = scan_byte b bs idx (scan_bytes bs (idx + 1))

pub alloc_internal : List ℕ → ℕ → Result AllocError (ℕ × List ℕ)
alloc_internal bitmap size = do
  guard (length bitmap == size / 8) invalid_bitmap_size
  elim (scan_bytes bitmap 0) [ none ↦ err no_available | some found ↦ ok found ]

-- The index has passed `idx < 0`: a negative one is refused before the call.
pub free_at : List ℕ → ℕ → ℕ → Result AllocError (List ℕ)
free_at bitmap size idx = do
  guard (ltb idx size) invalid_index
  let b = get_or bitmap (idx / 8) 0
  guard (test_bit b (idx % 8)) not_allocated
  ok (set bitmap (idx / 8) (clear_bit b (idx % 8)))

pub free_internal : List ℕ → ℕ → Sign × ℕ → Result AllocError (List ℕ)
unfolding free_at
free_internal bitmap size (sign, idx) = do
  guard (length bitmap == size / 8) invalid_bitmap_size
  guard (Decimal.is_natural sign idx) invalid_index
  free_at bitmap size idx

unfoldable pub alloc_ip : List ℕ → Result AllocError (String × List ℕ)
unfolding scan_bytes
alloc_ip bitmap = do
  guard (length bitmap == ip_pool_size / 8) invalid_bitmap_size
  elim (scan_bytes bitmap 0) [
    | none ↦ err no_available
    | some (n, bitmap') ↦ ok (append ip_prefix (print_decimal n), bitmap')
  ]

pub free_ip : String → List ℕ → Result AllocError (List ℕ)
unfolding free_at
free_ip ip bitmap = do
  guard (length bitmap == ip_pool_size / 8) invalid_bitmap_size
  elim (scan_after ip_prefix ip) [
    | none ↦ err no_input
    | some (sign, idx) ↦ do
      guard (Decimal.is_natural sign idx) invalid_index
      free_at bitmap ip_pool_size idx
  ]

pub alloc_node : List ℕ → Result AllocError (String × List ℕ)
unfolding alloc_internal
alloc_node bitmap = do
  (n, bitmap') ← alloc_internal bitmap node_pool_size
  ok (append node_prefix (print_decimal n), bitmap')

pub free_node : String → List ℕ → Result AllocError (List ℕ)
unfolding free_internal
free_node node bitmap = elim (scan_after node_prefix node) [
  | none ↦ err no_input
  | some index ↦ free_internal bitmap node_pool_size index
]
