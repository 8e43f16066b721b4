-- ===== src/Autoconf.antt =====
-- internal/autoconf/autoconf.go and detect_linux.go: the interface, the gateway and its MAC, from
-- the system's interfaces and from /proc/net/route and /proc/net/arp; macOS and Windows in files
-- below. The system and the parsers of Go's standard library are arguments.
pub mod Sound
pub mod Routes
pub mod Detected
pub mod Tools
pub mod Darwin
pub mod Windows
mod Runs
use paqet.Prelude.{
  ℕ, zero, suc, Bool, true, false, ◌&&◌, not, List, [], ◌∷◌, Option, none, some, ◌==◌,
  if◌then◌else◌, ltb, length, get_elem?, drop,
}
use paqet.Prelude.Text.{Text, codes, str_eq, is_empty}
use paqet.Prelude.Maybe.{◌>>=◌}
use paqet.Address.{to4}

-- A net.Addr of an interface.
pub data IfAddr : Type 0 where
  ip_net ip_addr : List ℕ → IfAddr
  other : IfAddr

-- `addrs` is `none` where Addrs fails.
pub record Interface : Type 0 where
  pub name : Text
  pub addrs : Option (List IfAddr)

-- What the system answers: the local address of a probe to a destination, the interfaces, the
-- lines of /proc/net/route, and the lines of /proc/net/arp when they are read for the k-th time.
-- `none` is an error. And the functions of Go's library.
pub record System : Type 0 where
  pub dial : Text → Option (List ℕ)
  pub interfaces : Option (List Interface)
  pub route : Option (List Text)
  pub arp : ℕ → Option (List Text)
  pub fields : Text → List Text
  pub decode_string : Text → Option (List ℕ)
  pub parse_mac : Text → Option (List ℕ)
  pub ip_string : List ℕ → Text

pub record Info : Type 0 where
  pub interface : Text
  pub guid : Text
  pub ipv4 : List ℕ
  pub ipv4_gateway : Option (List ℕ)
  pub ipv4_router_mac : Option (List ℕ)

-- A loop that returns at the first element for which it can.
abbrev pub first_some {ℓ} : {A B : Type ℓ} → (A → Option B) → List A → Option B
first_some f [] = none
first_some f (x ∷ xs) = let rest = first_some f xs in elim (f x) [ some y ↦ some y | none ↦ rest ]

abbrev pub ip_of : IfAddr → Option (List ℕ)
ip_of (ip_net ip) = to4 ip
ip_of (ip_addr ip) = to4 ip
ip_of other = none

abbrev pub is_ip : List ℕ → Option (List ℕ) → Bool
is_ip ip none = false
is_ip ip (some if_ip) = str_eq if_ip ip

abbrev pub owner : List ℕ → Interface → IfAddr → Option Interface
owner ip i a = if is_ip ip (ip_of a) then some i else none

abbrev pub owner_if : List ℕ → Interface → Option Interface
owner_if ip i = i.addrs >>= first_some (owner ip i)

unfoldable pub interface_by_ipv4 : System → List ℕ → Option Interface
interface_by_ipv4 s ip = s.interfaces >>= first_some (owner_if ip)

-- The bytes of the gateway, which stand in reverse, unless they are 0.0.0.0 or not four.
abbrev pub reversed : List ℕ → Option (List ℕ)
reversed (a ∷ b ∷ c ∷ d ∷ []) =
    if a == 0 && (b == 0 && (c == 0 && d == 0)) then none else some (d ∷ c ∷ b ∷ a ∷ [])
reversed _ = none

-- One line of /proc/net/route.
unfoldable pub route_line : System → Text → Option (List ℕ)
route_line s line =
    let fields = s.fields line in
    if ltb (length fields) 4
    then none
    else get_elem? fields 1 >>= λ dest.
        if str_eq dest (codes "00000000")
        then (get_elem? fields 2 >>= λ gw. (s.decode_string gw >>= reversed))
        else none

unfoldable pub linux_default_gateway : System → Option (List ℕ)
unfolding route_line
linux_default_gateway s = s.route >>= λ lines. first_some (route_line s) (drop 1 lines)

-- One line of /proc/net/arp.
unfoldable pub arp_line : System → Text → Text → Text → Option (List ℕ)
arp_line s ip iface line =
    let fields = s.fields line in
    if ltb (length fields) 6
    then none
    else get_elem? fields 0 >>= λ entry_ip.
        if not (str_eq entry_ip ip)
        then none
        else get_elem? fields 5 >>= λ device.
            if not (is_empty iface) && not (str_eq device iface)
            then none
            else get_elem? fields 2 >>= λ flags.
                if str_eq flags (codes "0x0")
                then none
                else get_elem? fields 3 >>= λ mac. s.parse_mac mac

-- The k-th look-up.
unfoldable pub linux_arp_lookup : System → Text → Text → ℕ → Option (List ℕ)
unfolding arp_line
linux_arp_lookup s ip iface k = s.arp k >>= λ lines. first_some (arp_line s ip iface) (drop 1 lines)

-- The look-ups that are left, the next being look-up k.
abbrev pub retry : ℕ → System → Text → Text → ℕ → Option (List ℕ)
retry zero s ip iface k = none
retry (suc n) s ip iface k =
    let rest = retry n s ip iface (suc k) in
    elim (linux_arp_lookup s ip iface k) [ some mac ↦ some mac | none ↦ rest ]

abbrev pub with_gateway : System → Text → List ℕ → Option (List ℕ) → Info
with_gateway s iface ip none = record {
  interface = iface;
  guid = [];
  ipv4 = ip;
  ipv4_gateway = none;
  ipv4_router_mac = none;
}
with_gateway s iface ip (some gw) = record {
  interface = iface;
  guid = [];
  ipv4 = ip;
  ipv4_gateway = some gw;
  ipv4_router_mac = (elim (linux_arp_lookup s (s.ip_string gw) iface 0) [
    | some mac ↦ some mac
    | none ↦ retry 5 s (s.ip_string gw) iface 1
  ]);
}

-- Detect; `none` is an error.
unfoldable pub detect : System → Text → Option Info
unfolding linux_arp_lookup linux_default_gateway interface_by_ipv4
detect s destination =
    let dest = if is_empty destination then codes "8.8.8.8:53" else destination in
    s.dial dest >>= λ local.
    (to4 local >>= λ ip.
    (interface_by_ipv4 s ip >>= λ i. some (with_gateway s i.name ip (linux_default_gateway s))))
