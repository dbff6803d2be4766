-- ===== src/Proxy/Tests.antt =====
-- The theorems on differences at concrete lists.
use mini_k8s.Base.{
  string_Eq, nat_Eq, lookup, has, ℕ, String, ◌≡◌, refl, false, none, some, List, [], ◌∷◌,
}
use mini_k8s.Api.{Dns, Uid}
use mini_k8s.Proxy.Dns.{update_dns}
use mini_k8s.Proxy.Dns.Diff.{IsKeyed, names_uid, after_updates, update_dns-IsKeyed}
use mini_k8s.Proxy.Server.{Endpoint, ip_map, calculate_changes}
use mini_k8s.Proxy.Server.Diff.{patched, SamePorts}
use mini_k8s.Proxy.Server.Receiver.{calculate_changes-SamePorts}

abbrev endpoint_of : String → ℕ → Endpoint
endpoint_of ip port = record { ip = ip; ports = record { port = port; protocol = "TCP" } ∷ [] }

abbrev old_list : List Endpoint
old_list = endpoint_of "10.0.0.2" 80 ∷ endpoint_of "10.0.0.3" 80 ∷ []

abbrev new_list : List Endpoint
new_list = endpoint_of "10.0.0.3" 8080 ∷ endpoint_of "10.0.0.4" 80 ∷ []

calculate_changes-SamePorts_example :
    SamePorts
      (patched
        (calculate_changes false old_list new_list)
        "10.0.0.3"
        (lookup "10.0.0.3" (ip_map old_list [])))
      (lookup "10.0.0.3" (ip_map new_list []))
calculate_changes-SamePorts_example = calculate_changes-SamePorts "10.0.0.3" old_list new_list false

abbrev name_of : String → Dns
name_of uid = record {
  kind = "DNS";
  metadata = record {
    name = uid;
    namespace = "default";
    uid = uid;
    creation_timestamp = 0;
    labels = none;
  };
  rules = [];
}

update_dns-IsKeyed_example :
    ((uid : Uid)
      → after_updates
          (update_dns (some (name_of "d2" ∷ [])) (("d1", name_of "d1") ∷ [])).0
          (λ i. has i (("d1", name_of "d1") ∷ []))
          uid
        ≡ names_uid uid (name_of "d2" ∷ []))
    × IsKeyed (update_dns (some (name_of "d2" ∷ [])) (("d1", name_of "d1") ∷ [])).1
update_dns-IsKeyed_example =
    update_dns-IsKeyed (name_of "d2" ∷ []) (("d1", name_of "d1") ∷ []) (refl, tt)
