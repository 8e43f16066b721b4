-- ===== src/Autoconf/Tools.antt =====
-- What Detect of internal/autoconf/detect_darwin.go and detect_windows.go share: the programs they
-- run, the probe of the route and the second look-up of the ARP table.
use paqet.Prelude.{ℕ, List, Option, some, if◌then◌else◌}
use paqet.Prelude.Text.{Text, codes, is_empty}
use paqet.Prelude.Maybe.{◌>>=◌}
use paqet.Address.{to4}
use paqet.Autoconf.{Interface, System, Info, interface_by_ipv4}

-- A pcap device, with the addresses that are not nil.
pub record Device : Type 0 where
  pub name : Text
  pub addresses : List (List ℕ)

-- The lines that `route` prints, those that `arp` prints for an address when it is run for the
-- k-th time, and pcap's devices; `none` is an error. And the functions of Go's library.
pub record Tools : Type 0 where
  pub system : System
  pub route : Option (List Text)
  pub arp : Text → ℕ → Option (List Text)
  pub devices : Option (List Device)
  pub trim_space : Text → Text
  pub parse_ip : Text → Option (List ℕ)

-- The local address of a probe to the destination, and its interface.
unfoldable pub local : System → Text → Option (List ℕ × Interface)
unfolding interface_by_ipv4
local s destination =
    let dest = if is_empty destination then codes "8.8.8.8:53" else destination in
    s.dial dest >>= λ addr. (to4 addr >>= λ ip. (interface_by_ipv4 s ip >>= λ i. some (ip, i)))

abbrev pub info : Text → Text → List ℕ → Option (List ℕ) → Option (List ℕ) → Info
info name guid ip gw mac = record {
  interface = name;
  guid = guid;
  ipv4 = ip;
  ipv4_gateway = gw;
  ipv4_router_mac = mac;
}
