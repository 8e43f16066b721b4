-- ===== src/Autoconf/Runs.antt =====
-- A host whose gateway comes into the ARP table at the third look-up on Linux, and at the second on
-- macOS and on Windows.
use paqet.Prelude.{ℕ, zero, suc, ◌≡◌, refl, List, [], ◌∷◌, Option, none, some, ◌==◌, if◌then◌else◌}
use mathlib.Core.List.{reverse}
use paqet.Prelude.Text.{Text, codes, str_eq, is_empty}
use paqet.Address.{to4}
use paqet.Autoconf.{System, Info, ip_net, interface_by_ipv4}
use paqet.Autoconf.Tools.{Tools, local}
use paqet.Autoconf.Darwin.{
  darwin_detect, darwin_default_gateway, gateway_line, darwin_arp_lines, darwin_arp_lookup,
  darwin_router_mac,
}
use paqet.Autoconf.Windows

-- A line is its number here, and `columns` its columns.
abbrev columns : Text → List Text
columns line =
    if str_eq line (codes "route")
    then codes "eth0" ∷ codes "00000000" ∷ codes "0100000A" ∷ codes "0003" ∷ []
    else codes "10.0.0.1"
      ∷ codes "0x1"
      ∷ codes "0x2"
      ∷ codes "02:00:00:00:00:01"
      ∷ codes "*"
      ∷ codes "eth0"
      ∷ []

abbrev arp_at : ℕ → Option (List Text)
arp_at zero = some (codes "header" ∷ [])
arp_at (suc zero) = none
arp_at (suc (suc k)) = some (codes "header" ∷ codes "arp" ∷ [])

abbrev system : System
system = record {
  dial = λ dest. some (10 ∷ 0 ∷ 0 ∷ 2 ∷ []);
  interfaces = some (
      record { name = codes "lo"; addrs = none }
      ∷ record { name = codes "eth0"; addrs = some (ip_net (10 ∷ 0 ∷ 0 ∷ 2 ∷ []) ∷ []) }
      ∷ []);
  route = some (codes "header" ∷ codes "route" ∷ []);
  arp = arp_at;
  fields = columns;
  decode_string = λ t. some (1 ∷ 0 ∷ 0 ∷ 10 ∷ []);
  parse_mac = λ t. some (2 ∷ 0 ∷ 0 ∷ 0 ∷ 0 ∷ 1 ∷ []);
  ip_string = λ ip. codes "10.0.0.1";
}

abbrev info : Info
info = record {
  interface = codes "eth0";
  guid = [];
  ipv4 = 10 ∷ 0 ∷ 0 ∷ 2 ∷ [];
  ipv4_gateway = some (10 ∷ 0 ∷ 0 ∷ 1 ∷ []);
  ipv4_router_mac = some (2 ∷ 0 ∷ 0 ∷ 0 ∷ 0 ∷ 1 ∷ []);
}

-- The fields of a line, with the characters of the field that is being read in reverse.
abbrev fields_from : Text → Text → List Text
fields_from [] [] = []
fields_from (c ∷ field) [] = reverse (c ∷ field) ∷ []
fields_from field (c ∷ t) =
    let more = fields_from (c ∷ field) t in
    let next = fields_from [] t in
    if c == b' ' then (if is_empty field then next else reverse field ∷ next) else more

abbrev a_mac : List ℕ
a_mac = 2 ∷ 0 ∷ 0 ∷ 0 ∷ 0 ∷ 1 ∷ []

abbrev parse_a_mac : Text → Option (List ℕ)
parse_a_mac t = if str_eq t (codes "02:00:00:00:00:01") then some a_mac else none

abbrev host : System
host = record system { fields = fields_from []; parse_mac = parse_a_mac }

abbrev printed : Text → ℕ → Option (List Text)
printed line zero = some (codes "? (10.0.0.1) at (incomplete) on en0" ∷ [])
printed line (suc k) = some (codes "Interface: 10.0.0.2" ∷ line ∷ [])

abbrev tools : Text → Text → Tools
tools route entry = record {
  system = host;
  route = some (codes "header" ∷ route ∷ []);
  arp = λ ip. printed entry;
  devices = some (
      record { name = codes "NPF_0"; addresses = [] }
      ∷ record { name = codes "NPF_1"; addresses = (10 ∷ 0 ∷ 0 ∷ 2 ∷ []) ∷ [] }
      ∷ []);
  trim_space = λ t. t;
  parse_ip = λ t. if is_empty t then none else some (10 ∷ 0 ∷ 0 ∷ 1 ∷ []);
}

abbrev mac_tools : Tools
mac_tools = tools (codes "gateway: 10.0.0.1") (codes "? (10.0.0.1) at 02:00:00:00:00:01 on en0")

abbrev windows_tools : Tools
windows_tools =
    tools (codes "0.0.0.0 0.0.0.0 10.0.0.1 10.0.0.2 25")
      (codes "10.0.0.1 02-00-00-00-00-01 dynamic")

darwin_runs : darwin_detect mac_tools [] ≡ some (some info)
unfolding darwin_detect darwin_default_gateway gateway_line darwin_arp_lines darwin_arp_lookup
    darwin_router_mac local interface_by_ipv4 to4
darwin_runs = refl

-- A line with " at " and only blanks after it makes Detect panic on macOS.
darwin_panics :
    darwin_detect (tools (codes "gateway: 10.0.0.1") (codes "? (10.0.0.1) at  ")) [] ≡ none
unfolding darwin_detect darwin_default_gateway gateway_line darwin_arp_lines darwin_arp_lookup
    darwin_router_mac local interface_by_ipv4 to4
darwin_panics = refl
