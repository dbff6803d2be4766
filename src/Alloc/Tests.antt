-- ===== src/Alloc/Tests.antt =====
-- The theorems on the allocators at concrete bitmaps.
use mini_k8s.Alloc.Decimal.{print_decimal}
use mini_k8s.Base.Bytes.{set_bit}
use mini_k8s.Base.Bytes.{test_bit}
use mini_k8s.Alloc.{scan_bytes}
use mini_k8s.Base.{set, ok, ℕ, String, ◌≡◌, refl, ◌≢◌, List, [], ◌∷◌, arith}
use mini_k8s.Alloc.Decimal.{plus}
use mini_k8s.Alloc.Nodes.{free_node-alloc_node}
use mini_k8s.Alloc.{
  node_pool_size, alloc_node, free_node, ip_pool_size, alloc_internal, free_internal, alloc_ip,
  free_ip,
}
use mini_k8s.Alloc.Addresses.{
  IsBitmap, Allocates, Frees, alloc_internal-Allocates, free_internal-Frees,
  free_internal-alloc_internal,
}
use mini_k8s.Alloc.Names.{free_ip-alloc_ip, alloc_ip_ne}

-- Ten slots of sixteen are taken.
abbrev ten_taken : List ℕ
ten_taken = 255 ∷ 3 ∷ []

abbrev eleven_taken : List ℕ
eleven_taken = 255 ∷ 7 ∷ []

ten_taken-IsBitmap : IsBitmap 16 ten_taken
ten_taken-IsBitmap = record { bytes = (omega arith, (omega arith, tt)); whole = refl }

ten_taken_allocates : alloc_internal ten_taken 16 ≡ ok (10, eleven_taken)
unfolding alloc_internal scan_bytes test_bit set_bit
ten_taken_allocates = refl

alloc_internal-Allocates_example : Allocates ten_taken 16 (alloc_internal ten_taken 16)
alloc_internal-Allocates_example = alloc_internal-Allocates ten_taken 16 ten_taken-IsBitmap

free_internal-Frees_example : Frees ten_taken 16 plus 3 (free_internal ten_taken 16 (plus, 3))
free_internal-Frees_example = free_internal-Frees ten_taken 16 plus 3 ten_taken-IsBitmap

free_internal-alloc_internal_example : free_internal eleven_taken 16 (plus, 10) ≡ ok ten_taken
free_internal-alloc_internal_example =
    free_internal-alloc_internal ten_taken eleven_taken 16 10 ten_taken-IsBitmap ten_taken_allocates

-- The pool of addresses, with the first three taken.
abbrev three_taken : List ℕ
three_taken =
    7 ∷ 0 ∷ 0 ∷ 0 ∷ 0 ∷ 0 ∷ 0 ∷ 0 ∷ 0 ∷ 0 ∷ 0 ∷ 0 ∷ 0 ∷ 0 ∷ 0 ∷ 0 ∷ 0 ∷ 0 ∷ 0 ∷ 0 ∷ 0 ∷ 0 ∷ 0 ∷ 0
    ∷ 0 ∷ 0 ∷ 0 ∷ 0 ∷ 0 ∷ 0 ∷ 0 ∷ 0 ∷ []

abbrev four_taken : List ℕ
four_taken = set three_taken 0 15

abbrev five_taken : List ℕ
five_taken = set three_taken 0 31

three_taken-IsBitmap : IsBitmap ip_pool_size three_taken
three_taken-IsBitmap = record { bytes = ground arith; whole = refl }

fourth_address : alloc_ip three_taken ≡ ok ("100.0.0.3", four_taken)
unfolding alloc_ip test_bit print_decimal set_bit
fourth_address = refl

fifth_address : alloc_ip four_taken ≡ ok ("100.0.0.4", five_taken)
unfolding alloc_ip test_bit print_decimal set_bit
fifth_address = refl

free_ip-alloc_ip_example : free_ip "100.0.0.3" four_taken ≡ ok three_taken
free_ip-alloc_ip_example =
    free_ip-alloc_ip three_taken four_taken "100.0.0.3" three_taken-IsBitmap fourth_address

alloc_ip_ne_example : ◌≢◌ {A = String} "100.0.0.3" "100.0.0.4"
alloc_ip_ne_example =
    alloc_ip_ne three_taken four_taken five_taken "100.0.0.3" "100.0.0.4" three_taken-IsBitmap
      fourth_address fifth_address

-- The first node is registered.
abbrev one_node : List ℕ
one_node = 1 ∷ 0 ∷ 0 ∷ 0 ∷ 0 ∷ 0 ∷ 0 ∷ 0 ∷ []

one_node-IsBitmap : IsBitmap node_pool_size one_node
one_node-IsBitmap = record { bytes = ground arith; whole = refl }

second_node : alloc_node one_node ≡ ok ("node-1", set one_node 0 3)
unfolding alloc_node scan_bytes test_bit print_decimal set_bit
second_node = refl

free_node-alloc_node_example : free_node "node-1" (set one_node 0 3) ≡ ok one_node
free_node-alloc_node_example =
    free_node-alloc_node one_node (set one_node 0 3) "node-1" one_node-IsBitmap second_node
