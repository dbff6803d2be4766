-- ===== src/ApiServer/Keys/Apart.antt =====
-- Keys of different families are different: their prefixes already are.
use Prim.Native.Char.{code}
use text.Mathlib.TextLemmas.{
  append_cancel_left, cons-append, head-eq_of_cons-eq, tail-eq_of_cons-eq,
}
use mini_k8s.Base.{
  string_Eq, nat_Eq, ◌==◌, Bool-cases, String, ◌≡◌, refl, sym, ap, ◌∙◌, ◌≢◌, inl, inr, Bool, true,
  false, ◌||◌, not, arith,
}
use mini_k8s.Alloc.Decimal.{append}
use mini_k8s.ApiServer.Keys.{namespaced, pod_key, service_key, ip_bitmap_key}

-- Two texts differ at a place that both have.
abbrev pub differ : String → String → Bool
differ String.[] t = false
differ (String.◌∷◌ c s) String.[] = false
differ (String.◌∷◌ c s) (String.◌∷◌ d t) = not (code c == code d) || differ s t

append-differ-ne : (p q s t : String) → differ p q ≡ true → append p s ≢ append q t
append-differ-ne String.[] q s t h same = cc
append-differ-ne (String.◌∷◌ c p) String.[] s t h same = cc
append-differ-ne (String.◌∷◌ c p) (String.◌∷◌ d q) s t h same =
    let whole : String.◌∷◌ c (append p s) ≡ String.◌∷◌ d (append q t) =
      sym (cons-append c p s) ∙ same ∙ cons-append d q t in
    let first : code c ≡ code d = ap code (head-eq_of_cons-eq whole) in
    append-differ-ne p q s t (ground arith) (tail-eq_of_cons-eq whole)

pub append-differ : (p q s t : String) → differ p q ≡ true → (append p s == append q t) ≡ false
append-differ p q s t h = elim (Bool-cases (append p s == append q t)) [
  | inl same ↦
      absurd (append-differ-ne p q s t h ((string_Eq.beq_iff (append p s) (append q t)).0 same))
  | inr other ↦ other
]

pub pod_key-namespaced :
    (uid infix' namespace name : String) → (pod_key uid == namespaced infix' namespace name) ≡ false
unfolding namespaced
pod_key-namespaced uid infix' namespace name =
    append-differ "/registry/pods/" "/registry/namespaces/" uid
      (append namespace (append infix' name)) refl

pub namespaced-pod_key :
    (uid infix' namespace name : String) → (namespaced infix' namespace name == pod_key uid) ≡ false
unfolding namespaced
namespaced-pod_key uid infix' namespace name =
    append-differ "/registry/namespaces/" "/registry/pods/" (append namespace (append infix' name))
      uid refl

-- Keys of one family differ where the uids do.
pub pod_key-eq : (uid other : String) → (pod_key uid == pod_key other) ≡ (uid == other)
pod_key-eq uid other = ground (
  arith,
  string_Eq.beq_iff (pod_key uid) (pod_key other),
  string_Eq.beq_iff uid other,
  append_cancel_left "/registry/pods/" uid other,
)

pub service_key-namespaced :
    (uid infix' namespace name : String)
    → (service_key uid == namespaced infix' namespace name) ≡ false
unfolding namespaced
service_key-namespaced uid infix' namespace name =
    append-differ "/registry/services/" "/registry/namespaces/" uid
      (append namespace (append infix' name)) refl

pub namespaced-service_key :
    (uid infix' namespace name : String)
    → (namespaced infix' namespace name == service_key uid) ≡ false
unfolding namespaced
namespaced-service_key uid infix' namespace name =
    append-differ "/registry/namespaces/" "/registry/services/"
      (append namespace (append infix' name)) uid refl

pub service_key-ip_bitmap_key : (uid : String) → (service_key uid == ip_bitmap_key) ≡ false
service_key-ip_bitmap_key uid =
    append-differ "/registry/services/" "/registry/IPPool/" uid "bitmap" refl

pub ip_bitmap_key-service_key : (uid : String) → (ip_bitmap_key == service_key uid) ≡ false
ip_bitmap_key-service_key uid =
    append-differ "/registry/IPPool/" "/registry/services/" "bitmap" uid refl

pub namespaced-ip_bitmap_key :
    (infix' namespace name : String) → (namespaced infix' namespace name == ip_bitmap_key) ≡ false
unfolding namespaced
namespaced-ip_bitmap_key infix' namespace name =
    append-differ "/registry/namespaces/" "/registry/IPPool/"
      (append namespace (append infix' name)) "bitmap" refl

pub ip_bitmap_key-namespaced :
    (infix' namespace name : String) → (ip_bitmap_key == namespaced infix' namespace name) ≡ false
unfolding namespaced
ip_bitmap_key-namespaced infix' namespace name =
    append-differ "/registry/IPPool/" "/registry/namespaces/" "bitmap"
      (append namespace (append infix' name)) refl
