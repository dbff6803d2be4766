-- ===== src/Alloc/Nodes.antt =====
-- The node names of pkg/kubeapiserver/utils/alloc.go.
use mini_k8s.Base.{>>=-eq-ok, ok, ℕ, String, ◌≡◌, refl, ap, ◌∙◌, subst, some, List}
use mini_k8s.Alloc.Decimal.{Sign, plus, append, print_decimal, scan_after}
use mini_k8s.Alloc.{
  node_prefix, node_pool_size, alloc_internal, alloc_node, free_internal, free_node,
}
use mini_k8s.Alloc.Addresses.{
  IsBitmap, Allocates, alloc_internal-Allocates, free_internal-alloc_internal,
}
use mini_k8s.Alloc.Names.{scan_after-node}

alloc_node_slot :
    (bitmap bitmap' : List ℕ) (node : String)
    → alloc_node bitmap ≡ ok (node, bitmap')
    → (n : ℕ) × (alloc_internal bitmap node_pool_size ≡ ok (n, bitmap'))
      × (node ≡ append node_prefix (print_decimal n))
unfolding alloc_node
alloc_node_slot bitmap bitmap' node h =
    let ((n, rest), e, e') =
      >>=-eq-ok (alloc_internal bitmap node_pool_size)
        (λ (n, bitmap'). ok (append node_prefix (print_decimal n), bitmap')) h in
    (n, cc, cc)

free_node-free_internal :
    (node : String) (bitmap : List ℕ) (sign : Sign) (n : ℕ)
    → scan_after node_prefix node ≡ some (sign, n)
    → free_node node bitmap ≡ free_internal bitmap node_pool_size (sign, n)
unfolding free_node
free_node-free_internal node bitmap sign n e = rw (e, free_node) refl

-- The name that `AllocNode` returns is one that `FreeNode` accepts, and freeing it gives the bitmap
-- back as it was.
pub free_node-alloc_node :
    (bitmap bitmap' : List ℕ) (node : String)
    → IsBitmap node_pool_size bitmap
    → alloc_node bitmap ≡ ok (node, bitmap')
    → free_node node bitmap' ≡ ok bitmap
free_node-alloc_node bitmap bitmap' node v h =
    let (n, e, printed) = alloc_node_slot bitmap bitmap' node h in
    let (bound, _, _, _, _) =
      subst (Allocates bitmap node_pool_size) e
        (alloc_internal-Allocates bitmap node_pool_size v) in
    let scanned : scan_after node_prefix node ≡ some (plus, n) =
      ap (scan_after node_prefix) printed ∙ scan_after-node n bound in
    free_node-free_internal node bitmap' plus n scanned
    ∙ free_internal-alloc_internal bitmap bitmap' node_pool_size n v e
