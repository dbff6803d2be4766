-- ===== src/Proxy/Dns/Diff.antt =====
-- What a receiver of the updates knows, against the two maps of domain names.
use mini_k8s.Base.{
  string_Eq, nat_Eq, ◌==◌, Bool-cases, Map, insert, has, has-lookup, lookup-has, has-insert, ◌≡◌,
  refl, ◌∙◌, inl, inr, Bool, false, ◌&&◌, ◌||◌, not, some, List, [], ◌∷◌, ◌++◌, arith,
}
use mini_k8s.Api.{Dns, Uid}
use mini_k8s.Proxy.Dns.{
  dns_add, dns_delete, DnsUpdate, dns_map, missing_from, dns_message, update_dns,
}

-- Each entry stands under the uid of its name.
abbrev pub IsKeyed : Map Uid Dns → Type 0
IsKeyed [] = Unit
IsKeyed ((uid, dns) ∷ m) = (dns.uid ≡ uid) × IsKeyed m

unfoldable pub names_uid : Uid → List Dns → Bool
names_uid uid [] = false
names_uid uid (dns ∷ slice) = dns.uid == uid || names_uid uid slice

-- The uids that a receiver has after the updates, who had those of the test before.
unfoldable pub after_updates : List DnsUpdate → (Uid → Bool) → Uid → Bool
after_updates [] known uid = known uid
after_updates (u ∷ us) known uid = elim u.op [
  | dns_add ↦ after_updates us (λ i. names_uid i u.dns || known i) uid
  | dns_delete ↦ after_updates us (λ i. not (names_uid i u.dns) && known i) uid
]

insert-IsKeyed : (dns : Dns) (m : Map Uid Dns) → IsKeyed m → IsKeyed (insert dns.uid dns m)
unfolding insert
insert-IsKeyed dns [] h = (refl, tt)
insert-IsKeyed dns ((k, d) ∷ m) h = elim (Bool-cases (k == dns.uid)) [
  | inl same ↦ rw same (refl, h.1)
  | inr apart ↦ rw apart (h.0, insert-IsKeyed dns m h.1)
]

dns_map-IsKeyed : (slice : List Dns) (m : Map Uid Dns) → IsKeyed m → IsKeyed (dns_map slice m)
unfolding dns_map
dns_map-IsKeyed [] m h = h
dns_map-IsKeyed (dns ∷ slice) m h =
    dns_map-IsKeyed slice (insert dns.uid dns m) (insert-IsKeyed dns m h)

has-dns_map :
    (uid : Uid) (slice : List Dns) (m : Map Uid Dns)
    → has uid (dns_map slice m) ≡ (names_uid uid slice || has uid m)
unfolding dns_map names_uid
has-dns_map uid [] m = refl
has-dns_map uid (dns ∷ slice) m =
    ground (arith, has-dns_map uid slice (insert dns.uid dns m), has-insert dns.uid uid dns m)

names_uid-missing_from :
    (uid : Uid) (other m : Map Uid Dns)
    → IsKeyed m
    → names_uid uid (missing_from other m) ≡ (has uid m && not (has uid other))
unfolding names_uid missing_from has
names_uid-missing_from uid other [] h = refl
names_uid-missing_from uid other ((k, d) ∷ m) h = ground (
  arith,
  h.0,
  names_uid-missing_from uid other m h.1,
  string_Eq.beq_iff k uid,
  string_Eq.beq_iff d.uid uid,
  has-lookup k other,
  lookup-has k other,
)

after_updates-messages :
    (added deleted : List Dns) (known : Uid → Bool) (uid : Uid)
    → after_updates (dns_message dns_add added ++ dns_message dns_delete deleted) known uid
      ≡ (not (names_uid uid deleted) && (names_uid uid added || known uid))
unfolding after_updates dns_message names_uid
after_updates-messages [] [] known uid = ground arith
after_updates-messages [] (d ∷ ds) known uid = ground arith
after_updates-messages (a ∷ added) [] known uid = ground arith
after_updates-messages (a ∷ added) (d ∷ ds) known uid = ground arith

-- When the last map stands under the uids of its names: who knew just its uids and follows the
-- updates knows just the uids of the names that were read now, and the new map stands under its uids
-- again.
pub update_dns-IsKeyed :
    (slice : List Dns) (latest : Map Uid Dns)
    → IsKeyed latest
    → ((uid : Uid)
        → after_updates (update_dns (some slice) latest).0 (λ i. has i latest) uid
          ≡ names_uid uid slice)
      × IsKeyed (update_dns (some slice) latest).1
unfolding update_dns has
update_dns-IsKeyed slice latest h = (
  λ uid.
      after_updates-messages (missing_from latest (dns_map slice []))
        (missing_from (dns_map slice []) latest) (λ i. has i latest) uid
      ∙ ground (
        arith,
        names_uid-missing_from uid latest (dns_map slice []) (dns_map-IsKeyed slice [] tt),
        names_uid-missing_from uid (dns_map slice []) latest h,
        has-dns_map uid slice [],
      ),
  dns_map-IsKeyed slice [] tt,
)
