-- ===== src/ApiServer/Pools.antt =====
-- The handlers that create services and nodes, which take an address or a name from a bitmap.
use mini_k8s.Base.{
  string_Eq, nat_Eq, ◌==◌, Bool-cases, Result, ok, err, Map, ℕ, ◌/◌, String, ◌≡◌, refl, ◌⊎◌, inl,
  inr, Bool, true, false, not, Option, none, some, List, [], ◌∷◌, arith,
}
use mini_k8s.Base.Bytes.{test_bit, set_bit}
use mini_k8s.Alloc.Decimal.{print_decimal}
use mini_k8s.Api.{Uid, Time, Service, Node}
use mini_k8s.Alloc.{alloc_ip, ip_pool_size}
use mini_k8s.ApiServer.Bitmaps.{bitmap_text, text_bitmap, zero_bytes}
use mini_k8s.ApiServer.Etcd.{Kv, get_sub_keys_values}
use mini_k8s.ApiServer.Keys.{namespace_service_key, namespace_matches, ip_bitmap_key}
use mini_k8s.ApiServer.Act.{
  Act, Codec, Reply, ◌>>=◌, pure, require, not_found, read_below, decode, decode_all,
}
use mini_k8s.ApiServer.Store.{Reliable, text_at, get-text_at, stored-write}
use mini_k8s.ApiServer.Refusals.{
  ReadsOnly, ReadsOnly-bind, ReadsOnly-decode, ReadsOnly-require, ReadsOnly-not_found, RefusesClean,
  Fails500, ReadsOnly-pure, RefusesClean-bind, RefusesClean-then, RefusesClean-Fails500,
  refusal_rules,
}
use mini_k8s.ApiServer.Services.{
  add_service, take_ip, read_bitmap, get_all_services_from_etcd, check_node_ports,
  check_type_and_ports,
}
use mini_k8s.ApiServer.Nodes.{register_node, register_at, take_node, after_writing}

module _ {S : Type 0} {kv : Kv S} (store : Reliable kv) where
  ReadsOnly-read_below : (status : ℕ) (key : String) → ReadsOnly (read_below kv status key)
  unfolding read_below get_sub_keys_values
  ReadsOnly-read_below status key = record {
    at = λ s.
        rw (read_below, get_sub_keys_values, store.fetch_found key s, store.fetch_found key s) refl;
  }

  ReadsOnly-decode_all :
      {A : Type 0} (codec : Codec A) (status : ℕ) (pairs : Map String String)
      → ReadsOnly {S = S} (decode_all codec status pairs)
  unfolding decode_all
  ReadsOnly-decode_all codec status [] = search refusal_rules
  ReadsOnly-decode_all codec status ((key, text) ∷ pairs) =
      ReadsOnly-bind (decode codec status text) _ (ReadsOnly-decode codec status text) (λ a.
        ReadsOnly-bind (decode_all codec status pairs) _ (ReadsOnly-decode_all codec status pairs)
          (λ more. ReadsOnly-pure (a ∷ more)))

  check_node_ports-ReadsOnly :
      (services : Codec Service) (on_nodes : Bool) (taken : List ℕ)
      → ReadsOnly (check_node_ports kv services on_nodes taken)
  unfolding check_node_ports get_all_services_from_etcd
  check_node_ports-ReadsOnly services false taken = search refusal_rules
  check_node_ports-ReadsOnly services true taken =
      search (refusal_rules, ReadsOnly-read_below, ReadsOnly-decode_all)

  check_type_and_ports-ReadsOnly :
      (services : Codec Service) (service : Service)
      → ReadsOnly (check_type_and_ports kv services service)
  unfolding check_type_and_ports
  check_type_and_ports-ReadsOnly services service =
      search (refusal_rules, check_node_ports-ReadsOnly) depth 30

  read_bitmap-fresh :
      (key : String) (size : ℕ) (s : S)
      → (text_at store key s == "") ≡ true
      → read_bitmap kv key size s ≡ (
        ok (zero_bytes (size / 8)),
        store.write key (some (bitmap_text (zero_bytes (size / 8)))) s,
      )
  unfolding read_bitmap
  read_bitmap-fresh key size s missing =
      rw (read_bitmap, get-text_at store key s, missing, get-text_at store key s)
        (rw (stored-write store key (bitmap_text (zero_bytes (size / 8))) s) refl)

  read_bitmap-found :
      (key : String) (size : ℕ) (s : S)
      → (text_at store key s == "") ≡ false
      → read_bitmap kv key size s ≡ (ok (text_bitmap (text_at store key s)), s)
  unfolding read_bitmap
  read_bitmap-found key size s found =
      rw (read_bitmap, get-text_at store key s, found, get-text_at store key s) refl

  Fails500-read_bitmap : (key : String) (size : ℕ) → Fails500 (read_bitmap kv key size)
  Fails500-read_bitmap key size = record {
    at = λ s. elim (Bool-cases (text_at store key s == "")) [
      | inl missing ↦ rw (read_bitmap-fresh key size s missing) (λ statuses failed. cc)
      | inr found ↦ rw (read_bitmap-found key size s found) (λ statuses failed. cc)
    ];
  }

  ReadsOnly-take_ip : (bitmap : List ℕ) → ReadsOnly {S = S} (take_ip bitmap)
  unfolding take_ip
  ReadsOnly-take_ip bitmap = record { at = λ s. ground arith }

  Fails500-take_node : (bitmap : List ℕ) → Fails500 {S = S} (take_node bitmap)
  unfolding take_node
  Fails500-take_node bitmap = record { at = λ s statuses failed. ground (arith, failed) }

  take_ip-fresh :
      take_ip {S = S} (zero_bytes (ip_pool_size / 8)) ≡ pure ("100.0.0.0", 1 ∷ zero_bytes 31)
  unfolding take_ip alloc_ip zero_bytes test_bit print_decimal set_bit
  take_ip-fresh = refl

  -- An address can be taken from the new bitmap that a first request stores.
  RefusesClean-pool :
      {B : Type 0} (rest : String × List ℕ → Act S B)
      → ((found : String × List ℕ) → Fails500 (rest found))
      → RefusesClean
          (read_bitmap kv ip_bitmap_key ip_pool_size >>= (λ bitmap. take_ip bitmap >>= rest))
  RefusesClean-pool rest late = record {
    at = λ s statuses. elim (Bool-cases (text_at store ip_bitmap_key s == "")) [
      | inl missing ↦
          rw (read_bitmap-fresh ip_bitmap_key ip_pool_size s missing, take_ip-fresh)
            (λ failed. inr ((late _).at _ statuses failed))
      | inr found ↦ rw (read_bitmap-found ip_bitmap_key ip_pool_size s found) (λ failed.
          (RefusesClean-bind (take_ip (text_bitmap (text_at store ip_bitmap_key s))) rest
              (ReadsOnly-take_ip (text_bitmap (text_at store ip_bitmap_key s)))
              (λ x. RefusesClean-Fails500 (rest x) (late x))).at
            s statuses failed)
    ];
  }

  pub add_service-RefusesClean :
      (services : Codec Service) (body : Option Service) (url_namespace : String) (uid : Uid)
      (now : Time)
      → RefusesClean (add_service kv services body url_namespace uid now)
  unfolding add_service
  add_service-RefusesClean services none url_namespace uid now = search refusal_rules
  add_service-RefusesClean services (some service) url_namespace uid now =
      RefusesClean-then (require 400 (not (service.name == ""))) _ (ReadsOnly-require 400 _) (
        RefusesClean-then (require 400 (service.kind == "Service")) _ (ReadsOnly-require 400 _) (
          RefusesClean-then (require 400 (not (url_namespace == ""))) _ (ReadsOnly-require 400 _) (
            RefusesClean-then (require 400 (namespace_matches service.namespace url_namespace)) _
              (ReadsOnly-require 400 _)
              (RefusesClean-then
                (not_found kv 409 (namespace_service_key url_namespace service.name)) _
                (ReadsOnly-not_found store 409 _)
                (RefusesClean-bind (check_type_and_ports kv services service) _
                  (check_type_and_ports-ReadsOnly services service)
                  (λ checked. RefusesClean-pool _ (λ found. search (refusal_rules, store))))))))

  after_writing-RefusesClean :
      {A : Type 0} (act : Act S (Reply A)) → RefusesClean act → RefusesClean (after_writing [] act)
  unfolding after_writing
  after_writing-RefusesClean {A = A} act clean = record { at = λ s. step (act s) s (clean.at s) }
    where
      step :
          (first : Result (List ℕ) (Reply A) × S) (s : S)
          → ((statuses : List ℕ) → first.0 ≡ err statuses → (first.1 ≡ s) ⊎ (statuses ≡ 500 ∷ []))
          → (statuses : List ℕ) → (after_writing [] (λ _. first) s).0 ≡ err statuses
          → ((after_writing [] (λ _. first) s).1 ≡ s) ⊎ (statuses ≡ 500 ∷ [])
      step (ok a, s') s late statuses failed = cc
      step (err e, s') s late statuses failed = late statuses failed

  pub register_node-RefusesClean :
      (nodes : Codec Node) (body : Option Node) (address : String) (uid : Uid) (now : Time)
      → RefusesClean (register_node kv nodes body address true uid now)
  unfolding register_node register_at
  register_node-RefusesClean nodes none address uid now = search refusal_rules
  register_node-RefusesClean nodes (some node) address uid now =
      after_writing-RefusesClean (register_at kv nodes node address uid now) (
        RefusesClean-Fails500 (register_at kv nodes node address uid now)
          (search (refusal_rules, store, Fails500-read_bitmap, Fails500-take_node) depth 30))
