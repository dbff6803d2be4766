-- ===== src/ApiServer/DnsNames.antt =====
-- The handlers of domain names of pkg/kubeapiserver/app/routine.go. The store holds the text of
-- all hosts, one on each line.
pub mod Hosts
pub mod HostsBack
use Prim.Native.Char.{code}
use mini_k8s.Base.{
  ltb, if◌then◌else◌, string_Eq, nat_Eq, ◌==◌, member, ℕ, ◌+◌, String, Bool, true, false, ◌&&◌,
  ◌||◌, not, Option, none, some, List, [], ◌∷◌, map,
}
use mini_k8s.Api.{Uid, Time, Service, ServicePort, port_min, port_max, Dns, DnsRule, DnsPath}
use mini_k8s.Alloc.Decimal.{append}
use mini_k8s.ApiServer.Etcd.{Kv}
use mini_k8s.ApiServer.Act.{
  Act, Codec, Reply, ◌>>=◌, ◌>>◌, pure, refuse, or_refuse, require, reply, present, not_found,
  readable, stored, deleted, read_below, decode, encode, decode_all,
}
use mini_k8s.ApiServer.Services.{in_range}
use mini_k8s.ApiServer.Keys.{
  service_key, namespace_service_key, dns_key, namespace_dns_key, hosts_key, namespace_matches,
}

-- The text up to each line break, the text after the last one included.
unfoldable pub break_lines : String → String × List String
break_lines String.[] = ("", [])
break_lines (String.◌∷◌ c text) =
    let (line, more) = break_lines text in
    if code c == 10 then ("", line ∷ more) else (String.◌∷◌ c line, more)

-- What `ScanLines` does to the text after the last line break: it is no line when it is empty.
unfoldable pub drop_empty_end : String → List String → List String
drop_empty_end line [] = if line == "" then [] else line ∷ []
drop_empty_end line (next ∷ more) = line ∷ drop_empty_end next more

-- A line loses one `\r` at its end.
unfoldable pub drop_return : String → String
drop_return String.[] = String.[]
drop_return (String.◌∷◌ c String.[]) = if code c == 13 then "" else String.◌∷◌ c String.[]
drop_return (String.◌∷◌ c (String.◌∷◌ d text)) = String.◌∷◌ c (drop_return (String.◌∷◌ d text))

-- The number of bytes of a text in UTF-8.
unfoldable pub byte_length : String → ℕ
byte_length String.[] = 0
byte_length (String.◌∷◌ c text) =
    (if ltb (code c) 128
      then 1
      else if ltb (code c) 2048
      then 2
      else if ltb (code c) 65536
      then 3
      else 4)
    + byte_length text

-- `bufio.MaxScanTokenSize`, which the line break counts to.
abbrev max_scan_token_size : ℕ
max_scan_token_size = 65536

-- `Scan` stops for good before a line that does not fit its buffer. The callers do not look at `Err`.
unfoldable pub before_long : List String → List String
before_long [] = []
before_long (line ∷ lines) =
    let rest = before_long lines in
    if ltb (byte_length line) max_scan_token_size then line ∷ rest else []

-- `for scanner.Scan() { … scanner.Text() … }`
unfoldable pub scan_lines : String → List String
scan_lines text =
    let (line, more) = break_lines text in map drop_return (before_long (drop_empty_end line more))

-- `s + "\n"`
unfoldable pub with_line_end : String → String
with_line_end s = append s "\n"

unfoldable pub paths_fine : List DnsPath → Bool
paths_fine [] = true
paths_fine (path ∷ paths) =
    not (path.path == "")
    && not (path.service.name == "")
    && in_range port_min port_max path.service.port
    && paths_fine paths

unfoldable pub rules_fine : List DnsRule → Bool
rules_fine [] = true
rules_fine (rule ∷ rules) = not (rule.host == "") && paths_fine rule.paths && rules_fine rules

unfoldable pub is_empty {ℓ} : {A : Type ℓ} → List A → Bool
is_empty [] = true
is_empty (a ∷ more) = false

-- `validateDNS`: whether there is no error.
unfoldable pub validate_dns : Dns → String → Bool
validate_dns dns url_namespace =
    not (dns.name == "")
    && namespace_matches dns.namespace url_namespace
    && dns.kind == "DNS"
    && not (is_empty dns.rules)
    && rules_fine dns.rules

-- The loop over the hosts of the rules: `none` when one is taken, else the new text of all hosts.
unfoldable pub add_hosts : List String → List DnsRule → String → Option String
add_hosts taken [] hosts = some hosts
add_hosts taken (rule ∷ rules) hosts =
    let rest = add_hosts taken rules (append hosts (with_line_end rule.host)) in
    if member rule.host taken then none else rest

-- The loop of `DeleteDNSHandler` over the lines of the hosts.
unfoldable pub keep_hosts : List String → List String → String
keep_hosts gone [] = ""
keep_hosts gone (host ∷ hosts) =
    let rest = keep_hosts gone hosts in
    if member host gone then rest else append (with_line_end host) rest

unfoldable pub has_port : ℕ → List ServicePort → Bool
has_port n [] = false
has_port n (port ∷ ports) = port.port == n || has_port n ports

unfoldable pub named_dns : Dns → String → Uid → Time → Dns
named_dns dns url_namespace new_uid now = record dns {
  metadata = record dns.metadata {
    namespace = url_namespace;
    uid = new_uid;
    creation_timestamp = now;
  };
}

module _ {S : Type 0} (kv : Kv S) (services : Codec Service) where
  -- The two reads that find a service by its name, and its text parsed.
  unfoldable pub backend_service : String → String → Act S Service
  backend_service namespace name = do
    uid ← present kv 400 (namespace_service_key namespace name)
    text ← present kv 500 (service_key uid)
    decode services 500 text

  -- The loops over the paths of the rules: each names a service that has the port.
  unfoldable pub check_paths : String → List DnsPath → Act S (Unit {0})
  check_paths namespace [] = pure tt
  check_paths namespace (path ∷ paths) = do
    service ← backend_service namespace path.service.name
    require 400 (has_port path.service.port service.spec.ports)
    check_paths namespace paths

  unfoldable pub check_rules : String → List DnsRule → Act S (Unit {0})
  check_rules namespace [] = pure tt
  check_rules namespace (rule ∷ rules) = do
    check_paths namespace rule.paths
    check_rules namespace rules

module _ {S : Type 0} (kv : Kv S) (services : Codec Service) (names : Codec Dns) where
  -- `getAllDNSFromEtcd` and `GetAllDNSHandler`
  unfoldable pub get_all_dns : Act S (Reply (List Dns))
  get_all_dns = do
    res ← read_below kv 500 "/registry/dns"
    found ← decode_all names 500 res
    reply 200 found

  -- `AddDNSHandler`
  unfoldable pub add_dns : Option Dns → String → Uid → Time → Act S (Reply Dns)
  add_dns none url_namespace new_uid now = refuse 400
  add_dns (some dns) url_namespace new_uid now = do
    require 400 (not (url_namespace == ""))
    require 400 (validate_dns dns url_namespace)
    not_found kv 409 (namespace_dns_key url_namespace dns.name)
    hosts ← readable kv 500 hosts_key
    hosts' ← or_refuse 400 (add_hosts (scan_lines hosts) dns.rules hosts)
    check_rules kv services url_namespace dns.rules
    stored kv hosts_key hosts'
    stored kv (namespace_dns_key url_namespace dns.name) new_uid
    text ← encode names (named_dns dns url_namespace new_uid now)
    stored kv (dns_key new_uid) text
    reply 201 (named_dns dns url_namespace new_uid now)

  -- `DeleteDNSHandler`
  unfoldable pub delete_dns : String → String → Act S (Reply Dns)
  delete_dns namespace name = do
    require 400 (not (namespace == "" || name == ""))
    uid ← present kv 404 (namespace_dns_key namespace name)
    text ← present kv 500 (dns_key uid)
    dns ← decode names 500 text
    hosts ← readable kv 500 hosts_key
    stored kv hosts_key (keep_hosts (map (λ rule. rule.host) dns.rules) (scan_lines hosts))
    deleted kv (namespace_dns_key namespace name)
    deleted kv (dns_key uid)
    reply 200 dns
