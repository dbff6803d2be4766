-- ===== src/Proxy/Dns.antt =====
-- `updateDNS` of pkg/kubeproxy/app/server.go and pkg/kubeproxy/types/dns_update.go: the domain names
-- that the API server shows now, compared with those of the last look.
pub mod Diff
use mini_k8s.Base.{string_Eq, nat_Eq, Map, lookup, insert, Option, none, some, List, [], ◌∷◌, ◌++◌}
use mini_k8s.Api.{Uid, Dns}

pub data DnsOperation : Type 0 where
  dns_add dns_delete : DnsOperation

pub record DnsUpdate : Type 0 where
  pub dns : List Dns
  pub op : DnsOperation

-- `newMap`
unfoldable pub dns_map : List Dns → Map Uid Dns → Map Uid Dns
dns_map [] m = m
dns_map (dns ∷ slice) m = dns_map slice (insert dns.uid dns m)

-- The entries of a map whose uid the other one lacks.
unfoldable pub missing_from : Map Uid Dns → Map Uid Dns → List Dns
missing_from other [] = []
missing_from other ((uid, dns) ∷ m) =
    let rest = missing_from other m in elim (lookup uid other) [ none ↦ dns ∷ rest | some _ ↦ rest ]

unfoldable pub dns_message : DnsOperation → List Dns → List DnsUpdate
dns_message op [] = []
dns_message op (dns ∷ more) = record { dns = dns ∷ more; op = op } ∷ []

-- `none` when the names could not be read. The second map is `latestDNS` of the server.
unfoldable pub update_dns : Option (List Dns) → Map Uid Dns → List DnsUpdate × Map Uid Dns
unfolding dns_map missing_from dns_message
update_dns none latest = ([], latest)
update_dns (some slice) latest =
    let new_map = dns_map slice [] in
    (
      dns_message dns_add (missing_from latest new_map)
          ++ dns_message dns_delete (missing_from new_map latest),
      new_map,
    )
