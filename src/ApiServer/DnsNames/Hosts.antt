-- ===== src/ApiServer/DnsNames/Hosts.antt =====
-- The text of all hosts as a list of lines: what a new domain name adds, its removal takes away.
use Prim.Native.Char.{code}
use text.Mathlib.TextLemmas.{append_assoc, cons-append, nil-append}
use mini_k8s.Base.{
  ltb, string_Eq, nat_Eq, ◌==◌, All, ◌<◌, String, ◌≡◌, refl, ap, ◌∙◌, Bool, true, false, ◌&&◌, not,
  List, [], ◌∷◌, ◌++◌, map, arith,
}
use mini_k8s.Alloc.Decimal.{append}
use mini_k8s.ApiServer.DnsNames.{
  break_lines, byte_length, before_long, drop_empty_end, drop_return, scan_lines, with_line_end,
}

-- A text without a line break.
unfoldable pub is_unbroken : String → Bool
is_unbroken String.[] = true
is_unbroken (String.◌∷◌ c text) = not (code c == 10) && is_unbroken text

-- A host that the scanner gives back as it is: no line break, no `\r` that the scanner drops, and
-- less than 64 KiB.
abbrev pub IsHost : String → Type 0
IsHost host = (is_unbroken host ≡ true) × (drop_return host ≡ host) × (byte_length host < 65536)

abbrev pub AreHosts : List String → Type 0
AreHosts hosts = All IsHost hosts

-- The text with each host on a line of its own.
unfoldable pub lines_text : List String → String
lines_text [] = ""
lines_text (host ∷ hosts) = append (with_line_end host) (lines_text hosts)

break_lines-unbroken :
    (host text : String)
    → is_unbroken host ≡ true
    → break_lines (append host (String.◌∷◌ "\n" text))
      ≡ (host, (break_lines text).0 ∷ (break_lines text).1)
unfolding break_lines is_unbroken
break_lines-unbroken String.[] text h = rw (nil-append (String.◌∷◌ "\n" text)) refl
break_lines-unbroken (String.◌∷◌ c host) text h =
    let apart : (code c == 10) ≡ false = ground arith in
    let rest = break_lines-unbroken host text (ground arith) in
    rw (cons-append c host (String.◌∷◌ "\n" text), apart, rest) refl

lines_text-cons :
    (host : String) (hosts : List String)
    → lines_text (host ∷ hosts) ≡ append host (String.◌∷◌ "\n" (lines_text hosts))
unfolding lines_text with_line_end
lines_text-cons host hosts =
    append_assoc host "\n" (lines_text hosts)
    ∙ ap (append host) (
        cons-append "\n" "" (lines_text hosts)
        ∙ ap (String.◌∷◌ "\n") (nil-append (lines_text hosts)))

scan-lines_text :
    (hosts : List String)
    → AreHosts hosts
    → drop_empty_end (break_lines (lines_text hosts)).0 (break_lines (lines_text hosts)).1 ≡ hosts
unfolding drop_empty_end lines_text break_lines
scan-lines_text [] all = refl
scan-lines_text (host ∷ hosts) all =
    rw (lines_text-cons host hosts, break_lines-unbroken host (lines_text hosts) all.0.0)
      (ap (λ more. host ∷ more) (scan-lines_text hosts all.1))

before_long-all : (hosts : List String) → AreHosts hosts → before_long hosts ≡ hosts
unfolding before_long
before_long-all [] all = refl
before_long-all (host ∷ hosts) all =
    let fits : ltb (byte_length host) 65536 ≡ true = ground (arith, all.0.2) in
    rw (fits, before_long-all hosts all.1) refl

drop_return-all : (hosts : List String) → AreHosts hosts → map drop_return hosts ≡ hosts
drop_return-all [] all = refl
drop_return-all (host ∷ hosts) all = rw (all.0.1, drop_return-all hosts all.1) refl

-- Scanning the text of some hosts gives those hosts.
pub scan_lines-lines_text :
    (hosts : List String) → AreHosts hosts → scan_lines (lines_text hosts) ≡ hosts
unfolding scan_lines
scan_lines-lines_text hosts all =
    rw (scan-lines_text hosts all, before_long-all hosts all) (drop_return-all hosts all)

pub append-lines_text :
    (hosts more : List String)
    → append (lines_text hosts) (lines_text more) ≡ lines_text (hosts ++ more)
unfolding lines_text
append-lines_text [] more = nil-append (lines_text more)
append-lines_text (host ∷ hosts) more =
    append_assoc (with_line_end host) (lines_text hosts) (lines_text more)
    ∙ ap (append (with_line_end host)) (append-lines_text hosts more)
