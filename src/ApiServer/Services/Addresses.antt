-- ===== src/ApiServer/Services/Addresses.antt =====
-- What a store has of a service after its creation.
use mini_k8s.Base.{
  string_Eq, nat_Eq, ◌==◌, ok, ℕ, String, ◌≡◌, refl, ap, ◌∙◌, false, some, List, arith,
}
use mini_k8s.Api.{Uid, Service}
use mini_k8s.Alloc.{ip_pool_size}
use mini_k8s.Alloc.Addresses.{IsBitmap}
use mini_k8s.ApiServer.Keys.{service_key, namespace_service_key, ip_bitmap_key}
use mini_k8s.ApiServer.Keys.Apart.{
  namespaced-service_key, service_key-ip_bitmap_key, namespaced-ip_bitmap_key,
}
use mini_k8s.ApiServer.Bitmaps.{bitmap_text, text_bitmap, text_bitmap-bitmap_text, bitmap_text-full}
use mini_k8s.ApiServer.Etcd.{Kv}
use mini_k8s.ApiServer.Act.{Codec}
use mini_k8s.ApiServer.Store.{Reliable, text_at, text_at-same, text_at-other, get-text_at}
use mini_k8s.ApiServer.Services.{read_bitmap}

module _ {S : Type 0} {kv : Kv S} (store : Reliable kv) (services : Codec Service) where
  -- What a store has of one service and the bitmap of addresses.
  pub record Serves (namespace name : String) (uid : Uid) (text : String) (bitmap : List ℕ) (s : S)
      : Type 0 where
    pub named : text_at store (namespace_service_key namespace name) s ≡ uid
    pub filled : text_at store (service_key uid) s ≡ text
    pub pool : text_at store ip_bitmap_key s ≡ bitmap_text bitmap

  unfoldable pub after_add : String → String → Uid → String → List ℕ → S → S
  after_add namespace name uid text bitmap s =
      store.write (namespace_service_key namespace name) (some uid) (
        store.write (service_key uid) (some text)
          (store.write ip_bitmap_key (some (bitmap_text bitmap)) s))

  pub after_add-Serves :
      (namespace name : String) (uid : Uid) (text : String) (bitmap : List ℕ) (s : S)
      → Serves namespace name uid text bitmap (after_add namespace name uid text bitmap s)
  unfolding after_add
  after_add-Serves namespace name uid text bitmap s =
      let key = namespace_service_key namespace name in
      let first = store.write ip_bitmap_key (some (bitmap_text bitmap)) s in
      let second = store.write (service_key uid) (some text) first in
      record {
        named = text_at-same store key (some uid) second;
        filled =
            text_at-other store key (service_key uid) (some uid) second
              (namespaced-service_key uid "/services/" namespace name)
            ∙ text_at-same store (service_key uid) (some text) first;
        pool =
            text_at-other store key ip_bitmap_key (some uid) second
              (namespaced-ip_bitmap_key "/services/" namespace name)
            ∙ text_at-other store (service_key uid) ip_bitmap_key (some text) first
                (service_key-ip_bitmap_key uid)
            ∙ text_at-same store ip_bitmap_key (some (bitmap_text bitmap)) s;
      }

  pub read_bitmap-stored :
      (key : String) (size : ℕ) (bitmap : List ℕ) (s : S)
      → IsBitmap ip_pool_size bitmap
      → text_at store key s ≡ bitmap_text bitmap
      → read_bitmap kv key size s ≡ (ok bitmap, s)
  unfolding read_bitmap
  read_bitmap-stored key size bitmap s whole held =
      let full : (text_at store key s == "") ≡ false =
        rw held (bitmap_text-full bitmap (omega (arith, whole.whole))) in
      let bytes : text_bitmap (text_at store key s) ≡ bitmap =
        ap text_bitmap held ∙ text_bitmap-bitmap_text bitmap whole.bytes in
      rw (read_bitmap, get-text_at store key s, full, bytes, get-text_at store key s) refl
