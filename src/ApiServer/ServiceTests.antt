-- ===== src/ApiServer/ServiceTests.antt =====
-- The theorems on services, nodes, hosts and refusals at a store in memory.
use mini_k8s.Base.Bytes.{set_bit}
use mini_k8s.Alloc.Decimal.{print_decimal}
use mini_k8s.Base.Bytes.{test_bit}
use mini_k8s.ApiServer.Services.{node_ports_conflict}
use mini_k8s.ApiServer.Etcd.{get_sub_keys_values}
use mini_k8s.ApiServer.Act.{read_below}
use mini_k8s.ApiServer.Services.{check_node_ports}
use mini_k8s.ApiServer.Services.{in_range}
use mini_k8s.ApiServer.Services.{check_ports}
use mini_k8s.ApiServer.Keys.{namespaced}
use mini_k8s.Alloc.{alloc_ip}
use mini_k8s.ApiServer.Act.{Codec, decode_all, decode}
use mini_k8s.ApiServer.MapStore.{below}
use mini_k8s.ApiServer.Etcd.{collect}
use mini_k8s.Base.{
  string_Eq, nat_Eq, ok, Map, member, Distinct, lookup, insert, has, IsMap, ℕ, zero, suc, String,
  ◌≡◌, refl, ◌↔◌, ◌⊎◌, true, some, List, [], ◌∷◌, arith,
}
use mini_k8s.ApiServer.Store.{text_at}
use mini_k8s.ApiServer.Services.RoundTrip.{IsAdmitted, delete_service-add_service}
use mini_k8s.ApiServer.Bitmaps.{bitmap_text, zero_bytes}
use mini_k8s.Alloc.Addresses.{IsBitmap}
use mini_k8s.Api.{Uid, Pod, Service, ServicePort, DnsRule}
use mini_k8s.Alloc.Slots.{IsBytes}
use mini_k8s.ApiServer.Keys.{
  scheduled_key, service_key, namespace_service_key, ip_bitmap_key, namespace_matches,
}
use mini_k8s.ApiServer.MapStore.{MapStore, map_kv, map_store}
use mini_k8s.ApiServer.Services.{
  add_service, delete_service, created_service, with_defaults, default_protocol, default_type,
  get_all_services_from_etcd, check_type_and_ports,
}
use mini_k8s.ApiServer.Services.Ports.{PortsFine, node_ports}
use mini_k8s.ApiServer.Services.Defaults.{HasDefaults}
use mini_k8s.ApiServer.Services.Checks.{NoConflict, check_type_and_ports_sound}
use mini_k8s.ApiServer.Nodes.{schedule_pod_to_node, get_unscheduled_pod}
use mini_k8s.ApiServer.Nodes.Schedule.{BoundTo, OthersKept, schedule_pod_to_node-BoundTo}
use mini_k8s.ApiServer.Nodes.Pending.{names, IsUnbound, get_unscheduled_pod-IsUnbound}
use mini_k8s.ApiServer.DnsNames.{byte_length, scan_lines, add_hosts, keep_hosts, drop_return}
use mini_k8s.ApiServer.DnsNames.Hosts.{lines_text, is_unbroken}
use mini_k8s.ApiServer.DnsNames.HostsBack.{rule_hosts, keep_hosts-add_hosts}
use mini_k8s.ApiServer.Tests.{meta, two_codec, web, one_pod}

abbrev pub port_80 : ServicePort
port_80 = record { name = "http"; protocol = ""; port = 80; target_port = 8080; node_port = 30080 }

abbrev pub service_of : String → Service
service_of type = record {
  kind = "Service";
  metadata = meta "shop" "";
  spec = record { type = type; ports = port_80 ∷ []; selector = []; cluster_ip = "" };
}

abbrev on_nodes : Service
on_nodes = record (service_of "NodePort") {
  spec = record (service_of "NodePort").spec { ports = record port_80 { protocol = "tcp" } ∷ [] };
}

check_type_and_ports_sound_example :
    HasDefaults (service_of "NodePort") on_nodes
    × ((on_nodes.spec.type ≡ "ClusterIP") ⊎ (on_nodes.spec.type ≡ "NodePort"))
    × PortsFine true (port_80 ∷ [])
    × (on_nodes.spec.type ≡ "NodePort"
        → (found : List Service) × ((get_all_services_from_etcd map_kv
              (two_codec (service_of "") (service_of ""))
              400
              one_pod).0
            ≡ ok found)
          × Distinct (node_ports (port_80 ∷ []))
          × NoConflict (node_ports (port_80 ∷ [])) found)
unfolding check_type_and_ports default_type check_ports in_range member check_node_ports
    get_all_services_from_etcd read_below get_sub_keys_values decode_all below node_ports_conflict
    with_defaults default_protocol
check_type_and_ports_sound_example =
    check_type_and_ports_sound map_kv (two_codec (service_of "") (service_of ""))
      (service_of "NodePort") on_nodes one_pod refl

schedule_pod_to_node-BoundTo_example :
    (s' : MapStore) × (schedule_pod_to_node map_kv (two_codec web web) "u1" "node-0" one_pod
      ≡ (ok (record { statuses = 200 ∷ []; body = tt }), s'))
    × BoundTo map_store (two_codec web web) "u1" (scheduled_key "node-0" "default" "web") s'
    × OthersKept map_store
        (two_codec web web)
        "u1"
        (scheduled_key "node-0" "default" "web")
        one_pod
        s'
unfolding map_store lookup
schedule_pod_to_node-BoundTo_example =
    schedule_pod_to_node-BoundTo map_store (two_codec web web) "u1" "node-0" web one_pod refl refl
      refl refl

get_unscheduled_pod-IsUnbound_example :
    (answer : List Pod) × (get_unscheduled_pod map_kv (two_codec web web) one_pod
      ≡ (ok (record { statuses = 200 ∷ []; body = answer }), one_pod))
    × ((uid : Uid)
        → (names uid answer ≡ true)
          ↔ ((names uid (web ∷ []) ≡ true) × IsUnbound map_store (two_codec web web) uid one_pod))
unfolding decode_all collect map_store below insert decode
get_unscheduled_pod-IsUnbound_example =
    get_unscheduled_pod-IsUnbound map_store (two_codec web web) (web ∷ []) one_pod refl

abbrev rules : List DnsRule
rules = record { host = "a.com"; paths = [] } ∷ record { host = "b.com"; paths = [] } ∷ []

keep_hosts-add_hosts_example :
    (text : String) × (add_hosts
        (scan_lines (lines_text ("x.org" ∷ [])))
        rules
        (lines_text ("x.org" ∷ []))
      ≡ some text)
    × (scan_lines text ≡ "x.org" ∷ "a.com" ∷ "b.com" ∷ [])
    × (keep_hosts (rule_hosts rules) (scan_lines text) ≡ lines_text ("x.org" ∷ []))
unfolding is_unbroken drop_return member byte_length
keep_hosts-add_hosts_example =
    keep_hosts-add_hosts ("x.org" ∷ []) rules ((refl, refl, ground arith), tt)
      ((refl, refl, ground arith), ((refl, refl, ground arith), tt)) (refl, (refl, tt))

zero_bytes-IsBytes : (n : ℕ) → IsBytes (zero_bytes n)
unfolding zero_bytes
zero_bytes-IsBytes zero = tt
zero_bytes-IsBytes (suc n) = (omega arith, zero_bytes-IsBytes n)

zero_bytes-IsBitmap : IsBitmap 256 (zero_bytes 32)
unfolding zero_bytes
zero_bytes-IsBitmap = record { bytes = zero_bytes-IsBytes 32; whole = refl }

abbrev pub pool_entries : Map String String
pool_entries = (ip_bitmap_key, bitmap_text (zero_bytes 32)) ∷ []

pub pool_entries-IsMap : IsMap pool_entries
unfolding has
pool_entries-IsMap = (refl, tt)

abbrev pub pool : MapStore
pool = (pool_entries, pool_entries-IsMap)

abbrev pub shop : Service
shop = service_of "ClusterIP"

abbrev shop_codec : Codec Service
shop_codec = two_codec shop (created_service (with_defaults shop) "100.0.0.0" "default" "s1" 9)

shop-IsAdmitted : IsAdmitted map_store shop_codec shop (with_defaults shop) "default" pool
unfolding namespace_matches map_store lookup namespaced check_type_and_ports default_type
    check_ports in_range check_node_ports
shop-IsAdmitted = record {
  has_name = refl;
  has_kind = refl;
  has_namespace = refl;
  matches = refl;
  is_free = refl;
  passes = refl;
}

delete_service-add_service_example :
    (between : MapStore) × (after : MapStore) × (add_service map_kv shop_codec
        (some shop)
        "default"
        "s1"
        9
        pool
      ≡ (
        ok (record {
          statuses = 201 ∷ [];
          body = created_service (with_defaults shop) "100.0.0.0" "default" "s1" 9;
        }),
        between,
      ))
    × (delete_service map_kv shop_codec "default" "shop" between ≡ (
      ok (record {
        statuses = 200 ∷ [];
        body = created_service (with_defaults shop) "100.0.0.0" "default" "s1" 9;
      }),
      after,
    ))
    × (text_at map_store (namespace_service_key "default" "shop") after ≡ "")
    × (text_at map_store (service_key "s1") after ≡ "")
    × (text_at map_store ip_bitmap_key after ≡ text_at map_store ip_bitmap_key pool)
unfolding bitmap_text map_store zero_bytes lookup alloc_ip test_bit print_decimal set_bit
delete_service-add_service_example =
    delete_service-add_service map_store shop_codec shop (with_defaults shop) "default" "s1" 9 pool
      (zero_bytes 32) (1 ∷ zero_bytes 31) "100.0.0.0" "second" shop-IsAdmitted refl
      zero_bytes-IsBitmap refl refl (record { written = refl; read_back = refl; not_empty = refl })
