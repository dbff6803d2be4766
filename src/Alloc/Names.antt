-- ===== src/Alloc/Names.antt =====
-- Cluster addresses and node names: the text that a slot is handed out as leads back to the slot.
use mini_k8s.Base.{
  string_Eq, nat_Eq, ◌==◌, ◌>>=◌, >>=-eq-ok, ok, ℕ, ◌<◌, String, ◌≡◌, refl, sym, ap, ◌∙◌, subst,
  ◌≢◌, Bool, true, false, Option, none, some, List, arith,
}
use mini_k8s.Base.Bytes.{all_below, all_below_sound}
use mini_k8s.Alloc.Decimal.{Sign, plus, minus, append, print_decimal, scan_after}
use mini_k8s.Alloc.{
  ip_prefix, ip_pool_size, node_prefix, alloc_internal, free_internal, alloc_ip, free_ip,
}
use mini_k8s.Alloc.Slots.{is_set}
use mini_k8s.Alloc.Addresses.{
  IsBitmap, Allocates, alloc_internal-Allocates, free_internal-alloc_internal,
}

is_plus : ℕ → Option (Sign × ℕ) → Bool
is_plus n none = false
is_plus n (some (plus, m)) = m == n
is_plus n (some (minus, m)) = false

is_plus_sound : (n : ℕ) (r : Option (Sign × ℕ)) → is_plus n r ≡ true → r ≡ some (plus, n)
unfolding is_plus
is_plus_sound n r h = ground arith

reads_back : String → ℕ → Bool
unfolding is_plus scan_after print_decimal
reads_back prefix n = is_plus n (scan_after prefix (append prefix (print_decimal n)))

ip_table : all_below 256 (reads_back ip_prefix) ≡ true
unfolding all_below reads_back
ip_table = refl

node_table : all_below 64 (reads_back node_prefix) ≡ true
unfolding all_below reads_back
node_table = refl

pub scan_after-ip :
    (n : ℕ) → n < 256 → scan_after ip_prefix (append ip_prefix (print_decimal n)) ≡ some (plus, n)
unfolding reads_back
scan_after-ip n h =
    is_plus_sound n (scan_after ip_prefix (append ip_prefix (print_decimal n)))
      (all_below_sound 256 (reads_back ip_prefix) n ip_table h)

pub scan_after-node :
    (n : ℕ)
    → n < 64
    → scan_after node_prefix (append node_prefix (print_decimal n)) ≡ some (plus, n)
unfolding reads_back
scan_after-node n h =
    is_plus_sound n (scan_after node_prefix (append node_prefix (print_decimal n)))
      (all_below_sound 64 (reads_back node_prefix) n node_table h)

-- `AllocIP` repeats the loop of `allocInternal` and prints the slot.
alloc_ip-alloc_internal :
    (bitmap : List ℕ)
    → alloc_ip bitmap ≡ (
        alloc_internal bitmap ip_pool_size >>= λ (n, bitmap').
        ok (append ip_prefix (print_decimal n), bitmap'))
unfolding alloc_ip alloc_internal
alloc_ip-alloc_internal bitmap = ground arith

free_ip-free_internal :
    (ip : String) (bitmap : List ℕ) (sign : Sign) (n : ℕ)
    → scan_after ip_prefix ip ≡ some (sign, n)
    → free_ip ip bitmap ≡ free_internal bitmap ip_pool_size (sign, n)
unfolding free_ip free_internal
free_ip-free_internal ip bitmap sign n e = ground arith

alloc_ip_slot :
    (bitmap bitmap' : List ℕ) (ip : String)
    → alloc_ip bitmap ≡ ok (ip, bitmap')
    → (n : ℕ) × (alloc_internal bitmap ip_pool_size ≡ ok (n, bitmap'))
      × (ip ≡ append ip_prefix (print_decimal n))
alloc_ip_slot bitmap bitmap' ip h =
    let ((n, rest), e, e') =
      >>=-eq-ok (alloc_internal bitmap ip_pool_size)
        (λ (n, bitmap'). ok (append ip_prefix (print_decimal n), bitmap'))
        (sym (alloc_ip-alloc_internal bitmap) ∙ h) in
    (n, cc, cc)

alloc_ip_bound :
    (bitmap bitmap' : List ℕ) (n : ℕ)
    → IsBitmap ip_pool_size bitmap
    → alloc_internal bitmap ip_pool_size ≡ ok (n, bitmap')
    → (n < ip_pool_size)
      × (is_set bitmap n ≡ false)
      × (is_set bitmap' n ≡ true)
      × IsBitmap ip_pool_size bitmap'
alloc_ip_bound bitmap bitmap' n v e =
    let (bound, free, below, after, v') =
      subst (Allocates bitmap ip_pool_size) e (alloc_internal-Allocates bitmap ip_pool_size v) in
    (bound, free, ground (arith, after n), v')

-- An allocation keeps the bitmap well-formed.
pub alloc_ip-IsBitmap :
    (bitmap bitmap' : List ℕ) (ip : String)
    → IsBitmap ip_pool_size bitmap
    → alloc_ip bitmap ≡ ok (ip, bitmap')
    → IsBitmap ip_pool_size bitmap'
alloc_ip-IsBitmap bitmap bitmap' ip v h =
    let (n, e, printed) = alloc_ip_slot bitmap bitmap' ip h in
    (alloc_ip_bound bitmap bitmap' n v e).3

-- The address that `AllocIP` returns is one that `FreeIP` accepts, and freeing it gives the bitmap
-- back as it was.
pub free_ip-alloc_ip :
    (bitmap bitmap' : List ℕ) (ip : String)
    → IsBitmap ip_pool_size bitmap
    → alloc_ip bitmap ≡ ok (ip, bitmap')
    → free_ip ip bitmap' ≡ ok bitmap
free_ip-alloc_ip bitmap bitmap' ip v h =
    let (n, e, printed) = alloc_ip_slot bitmap bitmap' ip h in
    let (bound, _, _, _) = alloc_ip_bound bitmap bitmap' n v e in
    let scanned : scan_after ip_prefix ip ≡ some (plus, n) =
      ap (scan_after ip_prefix) printed ∙ scan_after-ip n bound in
    free_ip-free_internal ip bitmap' plus n scanned
    ∙ free_internal-alloc_internal bitmap bitmap' ip_pool_size n v e

-- Two allocations in a row never return the same address.
pub alloc_ip_ne :
    (bitmap bitmap' bitmap'' : List ℕ) (ip ip' : String)
    → IsBitmap ip_pool_size bitmap
    → alloc_ip bitmap ≡ ok (ip, bitmap')
    → alloc_ip bitmap' ≡ ok (ip', bitmap'')
    → ip ≢ ip'
alloc_ip_ne bitmap bitmap' bitmap'' ip ip' v h h' same =
    let (n, e, printed) = alloc_ip_slot bitmap bitmap' ip h in
    let (bound, _, taken, v') = alloc_ip_bound bitmap bitmap' n v e in
    let (m, e', printed') = alloc_ip_slot bitmap' bitmap'' ip' h' in
    let (bound', free, _, _) = alloc_ip_bound bitmap' bitmap'' m v' e' in
    let scanned : scan_after ip_prefix ip ≡ some (plus, n) =
      ap (scan_after ip_prefix) printed ∙ scan_after-ip n bound in
    let scanned' : scan_after ip_prefix ip' ≡ some (plus, m) =
      ap (scan_after ip_prefix) printed' ∙ scan_after-ip m bound' in
    let joined : ◌≡◌ {A = Option (Sign × ℕ)} (some (plus, n)) (some (plus, m)) =
      sym scanned ∙ ap (scan_after ip_prefix) same ∙ scanned' in
    let same_slot : n ≡ m = cc in cc
