-- ===== src/ApiServer/Services/RoundTrip.antt =====
-- A service that is created and deleted: its cluster address goes back to the pool.
use mini_k8s.Base.{
  string_Eq, nat_Eq, ◌==◌, ok, ℕ, String, ◌≡◌, refl, sym, ◌∙◌, true, false, none, some, List, [],
  ◌∷◌, arith,
}
use mini_k8s.Api.{Uid, Time, Service}
use mini_k8s.Alloc.{alloc_ip, free_ip, ip_pool_size}
use mini_k8s.Alloc.Addresses.{IsBitmap}
use mini_k8s.Alloc.Names.{free_ip-alloc_ip, alloc_ip-IsBitmap}
use mini_k8s.ApiServer.Keys.Apart.{
  service_key-namespaced, service_key-ip_bitmap_key, namespaced-ip_bitmap_key,
}
use mini_k8s.ApiServer.Keys.{service_key, namespace_service_key, ip_bitmap_key, namespace_matches}
use mini_k8s.ApiServer.Bitmaps.{bitmap_text, text_bitmap, text_bitmap-bitmap_text, bitmap_text-full}
use mini_k8s.ApiServer.Etcd.{Kv}
use mini_k8s.ApiServer.Act.{Codec, decode, encode}
use mini_k8s.ApiServer.Store.{
  Reliable, Survives, text_at, present-found, not_found-missing, stored-write, deleted-write,
  text_at-other, text_at-same,
}
use mini_k8s.ApiServer.Services.{
  add_service, delete_service, check_type_and_ports, created_service, take_ip, give_ip,
}
use mini_k8s.ApiServer.Services.Addresses.{Serves, after_add, read_bitmap-stored, after_add-Serves}

module _ {S : Type 0} {kv : Kv S} (store : Reliable kv) (services : Codec Service) where
  -- A request that passes the checks of `AddServiceHandler`, with `checked` after them.
  pub record IsAdmitted (service checked : Service) (url_namespace : String) (s : S) : Type 0 where
    pub has_name : (service.name == "") ≡ false
    pub has_kind : (service.kind == "Service") ≡ true
    pub has_namespace : (url_namespace == "") ≡ false
    pub matches : namespace_matches service.namespace url_namespace ≡ true
    pub is_free : (text_at store (namespace_service_key url_namespace service.name) s == "") ≡ true
    pub passes : check_type_and_ports kv services service s ≡ (ok checked, s)

  add_service-after_add :
      (service checked : Service) (url_namespace : String) (uid : Uid) (now : Time) (s : S)
      (bitmap bitmap' : List ℕ) (ip text : String)
      → IsAdmitted service checked url_namespace s
      → IsBitmap ip_pool_size bitmap
      → text_at store ip_bitmap_key s ≡ bitmap_text bitmap
      → alloc_ip bitmap ≡ ok (ip, bitmap')
      → Survives services (created_service checked ip url_namespace uid now) text
      → add_service kv services (some service) url_namespace uid now s ≡ (
        ok (record {
          statuses = 201 ∷ [];
          body = created_service checked ip url_namespace uid now;
        }),
        after_add store services url_namespace service.name uid text bitmap' s,
      )
  unfolding add_service take_ip encode after_add
  add_service-after_add service checked url_namespace uid now s bitmap bitmap' ip text admitted
        whole pool taken survives =
      rw
        (
          admitted.has_name,
          admitted.has_kind,
          admitted.has_namespace,
          admitted.matches,
          not_found-missing store 409 (namespace_service_key url_namespace service.name) s
              admitted.is_free,
          admitted.passes,
          read_bitmap-stored store services ip_bitmap_key ip_pool_size bitmap s whole pool,
          take_ip,
          taken,
          stored-write store ip_bitmap_key (bitmap_text bitmap') s,
          encode,
          survives.written,
          stored-write store (service_key uid) text
              (store.write ip_bitmap_key (some (bitmap_text bitmap')) s),
          stored-write store (namespace_service_key url_namespace service.name) uid (
              store.write (service_key uid) (some text)
                (store.write ip_bitmap_key (some (bitmap_text bitmap')) s)),
        )
        refl

  -- The object of a service that was read, with the bitmap after its address was given back.
  after_delete : String → String → Uid → List ℕ → S → S
  after_delete namespace name uid bitmap s = store.write (service_key uid) none (
      store.write (namespace_service_key namespace name) none
        (store.write ip_bitmap_key (some (bitmap_text bitmap)) s))

  delete_service-after_delete :
      (namespace name : String) (service : Service) (uid : Uid) (text : String)
      (bitmap bitmap' : List ℕ) (s : S)
      → (namespace == "") ≡ false
      → (name == "") ≡ false
      → (uid == "") ≡ false
      → Serves store services namespace name uid text bitmap s
      → Survives services service text
      → IsBitmap ip_pool_size bitmap
      → free_ip service.spec.cluster_ip bitmap ≡ ok bitmap'
      → delete_service kv services namespace name s ≡ (
        ok (record { statuses = 200 ∷ []; body = service }),
        after_delete namespace name uid bitmap' s,
      )
  unfolding delete_service after_delete give_ip decode
  delete_service-after_delete namespace name service uid text bitmap bitmap' s in_namespace has_name
        has_uid serves survives whole freed =
      let key = namespace_service_key namespace name in
      let first = present-found store 404 key s (rw serves.named has_uid) in
      let second =
        present-found store 500 (service_key uid) s (rw serves.filled survives.not_empty) in
      let third =
        present-found store 500 ip_bitmap_key s
          (rw serves.pool (bitmap_text-full bitmap (omega (arith, whole.whole)))) in
      let bytes : text_bitmap (bitmap_text bitmap) ≡ bitmap =
        text_bitmap-bitmap_text bitmap whole.bytes in
      rw
        (
          in_namespace,
          has_name,
          first,
          serves.named,
          second,
          serves.filled,
          decode,
          survives.read_back,
          third,
          serves.pool,
          bytes,
          give_ip,
          freed,
          stored-write store ip_bitmap_key (bitmap_text bitmap') s,
          deleted-write store key (store.write ip_bitmap_key (some (bitmap_text bitmap')) s),
          deleted-write store (service_key uid)
              (store.write key none (store.write ip_bitmap_key (some (bitmap_text bitmap')) s)),
        )
        refl

  text_at-after_delete :
      (namespace name : String) (uid : Uid) (bitmap : List ℕ) (s : S)
      → (text_at store
            (namespace_service_key namespace name)
            (after_delete namespace name uid bitmap s)
          ≡ "")
        × (text_at store (service_key uid) (after_delete namespace name uid bitmap s) ≡ "")
        × (text_at store ip_bitmap_key (after_delete namespace name uid bitmap s)
            ≡ bitmap_text bitmap)
  unfolding after_delete
  text_at-after_delete namespace name uid bitmap s =
      let key = namespace_service_key namespace name in
      let first = store.write ip_bitmap_key (some (bitmap_text bitmap)) s in
      let second = store.write key none first in
      (
        text_at-other store (service_key uid) key none second
              (service_key-namespaced uid "/services/" namespace name)
            ∙ text_at-same store key none first,
        text_at-same store (service_key uid) none second,
        text_at-other store (service_key uid) ip_bitmap_key none second
              (service_key-ip_bitmap_key uid)
            ∙ text_at-other store key ip_bitmap_key none first
                (namespaced-ip_bitmap_key "/services/" namespace name)
            ∙ text_at-same store ip_bitmap_key (some (bitmap_text bitmap)) s,
      )

  -- A service that passes the checks, in a store with a well-formed bitmap that has an address left,
  -- is answered with 201 and that address. Deleting it from the store it then leaves is answered with
  -- 200 and the same object: its name and its object are gone, and the bitmap is the first one again.
  pub delete_service-add_service :
      (service checked : Service) (url_namespace : String) (uid : Uid) (now : Time) (s : S)
      (bitmap bitmap' : List ℕ) (ip text : String)
      → IsAdmitted service checked url_namespace s
      → (uid == "") ≡ false
      → IsBitmap ip_pool_size bitmap
      → text_at store ip_bitmap_key s ≡ bitmap_text bitmap
      → alloc_ip bitmap ≡ ok (ip, bitmap')
      → Survives services (created_service checked ip url_namespace uid now) text
      → (between : S) × (after : S) × (add_service kv services
            (some service)
            url_namespace
            uid
            now
            s
          ≡ (
            ok (record {
              statuses = 201 ∷ [];
              body = created_service checked ip url_namespace uid now;
            }),
            between,
          ))
        × (delete_service kv services url_namespace service.name between ≡ (
          ok (record {
            statuses = 200 ∷ [];
            body = created_service checked ip url_namespace uid now;
          }),
          after,
        ))
        × (text_at store (namespace_service_key url_namespace service.name) after ≡ "")
        × (text_at store (service_key uid) after ≡ "")
        × (text_at store ip_bitmap_key after ≡ text_at store ip_bitmap_key s)
  unfolding created_service
  delete_service-add_service service checked url_namespace uid now s bitmap bitmap' ip text admitted
        has_uid whole pool taken survives =
      let made = created_service checked ip url_namespace uid now in
      let between = after_add store services url_namespace service.name uid text bitmap' s in
      let serves = after_add-Serves store services url_namespace service.name uid text bitmap' s in
      let (gone, erased, restored) =
        text_at-after_delete url_namespace service.name uid bitmap between in
      (
        between,
        after_delete url_namespace service.name uid bitmap between,
        add_service-after_add service checked url_namespace uid now s bitmap bitmap' ip text
            admitted whole pool taken survives,
        delete_service-after_delete url_namespace service.name made uid text bitmap' bitmap between
            admitted.has_namespace admitted.has_name has_uid serves survives
            (alloc_ip-IsBitmap bitmap bitmap' ip whole taken)
            (free_ip-alloc_ip bitmap bitmap' ip whole taken),
        gone,
        erased,
        restored ∙ sym pool,
      )
