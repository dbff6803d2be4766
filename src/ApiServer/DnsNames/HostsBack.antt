-- ===== src/ApiServer/DnsNames/HostsBack.antt =====
-- The hosts of a domain name, from its creation to its removal.
use mini_k8s.Base.{
  string_Eq, nat_Eq, Bool-cases, All, member, All-member, String, ◌≡◌, refl, sym, inl, inr, true,
  false, some, List, [], ◌∷◌, ◌++◌, map, arith,
}
use mini_k8s.Api.{DnsRule}
use mini_k8s.Alloc.Decimal.{append}
use text.Mathlib.TextLemmas.{append_assoc, append-nil, nil-append}
use mini_k8s.ApiServer.DnsNames.{scan_lines, with_line_end, add_hosts, keep_hosts}
use mini_k8s.ApiServer.DnsNames.Hosts.{
  AreHosts, lines_text, scan_lines-lines_text, append-lines_text,
}

abbrev pub rule_hosts : List DnsRule → List String
rule_hosts rules = map (λ rule. rule.host) rules

-- None of the hosts is among the others.
abbrev pub AreNew : List String → List String → Type 0
AreNew taken hosts = All (λ host. member host taken ≡ false) hosts

add_hosts-new :
    (taken : List String) (rules : List DnsRule) (text : String)
    → AreNew taken (rule_hosts rules)
    → add_hosts taken rules text ≡ some (append text (lines_text (rule_hosts rules)))
unfolding add_hosts lines_text
add_hosts-new taken [] text new = rw (append-nil text) refl
add_hosts-new taken (rule ∷ rules) text new =
    rw
      (
        new.0,
        add_hosts-new taken rules (append text (with_line_end rule.host)) new.1,
        append_assoc text (with_line_end rule.host) (lines_text (rule_hosts rules)),
      )
      refl

keep_hosts-append :
    (gone hosts more : List String)
    → keep_hosts gone (hosts ++ more) ≡ append (keep_hosts gone hosts) (keep_hosts gone more)
unfolding keep_hosts
keep_hosts-append gone [] more = sym (nil-append (keep_hosts gone more))
keep_hosts-append gone (host ∷ hosts) more =
    let rest = keep_hosts-append gone hosts more in
    elim (Bool-cases (member host gone)) [
      | inl there ↦ rw there rest
      | inr other ↦
          rw (other, rest)
            (sym (append_assoc (with_line_end host) (keep_hosts gone hosts) (keep_hosts gone more)))
    ]

keep_hosts-kept :
    (gone hosts : List String) → AreNew gone hosts → keep_hosts gone hosts ≡ lines_text hosts
unfolding keep_hosts lines_text
keep_hosts-kept gone [] new = refl
keep_hosts-kept gone (host ∷ hosts) new = rw (new.0, keep_hosts-kept gone hosts new.1) refl

keep_hosts-gone :
    (gone hosts : List String)
    → All (λ host. member host gone ≡ true) hosts
    → keep_hosts gone hosts ≡ ""
unfolding keep_hosts
keep_hosts-gone gone [] all = refl
keep_hosts-gone gone (host ∷ hosts) all = rw (all.0, keep_hosts-gone gone hosts all.1) refl

AreNew-head :
    (host : String) (taken hosts : List String)
    → AreNew (host ∷ taken) hosts
    → member host hosts ≡ false
unfolding member
AreNew-head host taken [] new = refl
AreNew-head host taken (first ∷ hosts) new = ground (
  arith,
  new.0,
  AreNew-head host taken hosts new.1,
  string_Eq.beq_iff first host,
  string_Eq.beq_iff host first,
)

AreNew-tail :
    (host : String) (taken hosts : List String) → AreNew (host ∷ taken) hosts → AreNew taken hosts
unfolding member
AreNew-tail host taken [] new = tt
AreNew-tail host taken (first ∷ hosts) new =
    (ground (arith, new.0), AreNew-tail host taken hosts new.1)

AreNew-swap : (taken hosts : List String) → AreNew taken hosts → AreNew hosts taken
AreNew-swap [] hosts new = tt
AreNew-swap (host ∷ taken) hosts new =
    (AreNew-head host taken hosts new, AreNew-swap taken hosts (AreNew-tail host taken hosts new))

All-append : (hosts more : List String) → AreHosts hosts → AreHosts more → AreHosts (hosts ++ more)
All-append [] more all all' = all'
All-append (host ∷ hosts) more all all' = (all.0, All-append hosts more all.1 all')

-- Hosts of one line and less than 64 KiB that none of the stored ones equals are accepted, and the scan
-- of the new text gives the stored hosts and the new ones behind them; taking the new ones away again
-- gives the text of before.
pub keep_hosts-add_hosts :
    (hosts : List String) (rules : List DnsRule)
    → AreHosts hosts
    → AreHosts (rule_hosts rules)
    → AreNew hosts (rule_hosts rules)
    → (text : String) × (add_hosts (scan_lines (lines_text hosts)) rules (lines_text hosts)
        ≡ some text)
      × (scan_lines text ≡ hosts ++ rule_hosts rules)
      × (keep_hosts (rule_hosts rules) (scan_lines text) ≡ lines_text hosts)
keep_hosts-add_hosts hosts rules all all' new =
    let added = rule_hosts rules in
    let text = lines_text (hosts ++ added) in
    let scanned : scan_lines text ≡ hosts ++ added =
      scan_lines-lines_text (hosts ++ added) (All-append hosts added all all') in
    (
      text,
      rw
          (
            scan_lines-lines_text hosts all,
            add_hosts-new hosts rules (lines_text hosts) new,
            append-lines_text hosts added,
          )
          refl,
      scanned,
      rw
          (
            scanned,
            keep_hosts-append added hosts added,
            keep_hosts-kept added hosts (AreNew-swap hosts added new),
            keep_hosts-gone added added (All-member added added (λ host found. found)),
          )
          (append-nil (lines_text hosts)),
    )
