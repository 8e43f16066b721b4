-- ===== src/Autoconf/Windows.antt =====
-- internal/autoconf/detect_windows.go: Detect on Windows, from what `route` and `arp` print and
-- from pcap's devices.
pub mod Detected
use paqet.Prelude.{
  ℕ, Bool, true, false, ◌&&◌, ◌||◌, List, [], ◌∷◌, Option, none, some, if◌then◌else◌,
}
use paqet.Prelude.Text.{Text, codes, str_eq, contains_text, replace_byte}
use paqet.Prelude.Maybe.{◌>>=◌}
use paqet.Address.{to4}
use paqet.Autoconf.{Interface, Info, first_some}
use paqet.Autoconf.Tools.{Device, Tools, local, info}

-- net.IP's Equal: the bytes are equal, or both are the same IPv4 address.
abbrev pub ip_equal : List ℕ → List ℕ → Bool
ip_equal a b = str_eq a b || (elim (to4 a) [
  | none ↦ false
  | some a4 ↦ elim (to4 b) [ none ↦ false | some b4 ↦ str_eq a4 b4 ]
])

abbrev pub owner_device : List ℕ → Device → List ℕ → Option Text
owner_device ip dev addr = if ip_equal addr ip then some dev.name else none

-- The name of the device that has an address.
unfoldable pub windows_find_guid : Tools → List ℕ → Option Text
windows_find_guid t ip =
    t.devices >>= first_some (λ dev. first_some (owner_device ip dev) dev.addresses)

-- One line that `route print 0.0.0.0` prints.
unfoldable pub windows_route_line : Tools → Text → Option (List ℕ)
windows_route_line t line = elim (t.system.fields line) [
  | dest ∷ mask ∷ gw ∷ _ ↦
      if str_eq dest (codes "0.0.0.0") && str_eq mask (codes "0.0.0.0")
      then t.parse_ip gw >>= to4
      else none
  | _ ↦ none
]

unfoldable pub windows_default_gateway : Tools → Option (List ℕ)
unfolding windows_route_line
windows_default_gateway t = t.route >>= first_some (windows_route_line t)

-- A field of a line of the ARP table, with colons for its hyphens.
abbrev pub mac_field : Tools → Text → Option (List ℕ)
mac_field t field = t.system.parse_mac (replace_byte b'-' b':' field)

unfoldable pub windows_arp_line : Tools → Text → Text → Option (List ℕ)
windows_arp_line t ip line =
    if contains_text line ip then first_some (mac_field t) (t.system.fields line) else none

-- The k-th look-up.
unfoldable pub windows_arp_lookup : Tools → Text → ℕ → Option (List ℕ)
unfolding windows_arp_line
windows_arp_lookup t ip k = t.arp ip k >>= first_some (windows_arp_line t ip)

-- A look-up, and another one if it fails.
unfoldable pub windows_router_mac : Tools → List ℕ → Option (List ℕ)
unfolding windows_arp_lookup
windows_router_mac t gw = elim (windows_arp_lookup t (t.system.ip_string gw) 0) [
  | some mac ↦ some mac
  | none ↦ windows_arp_lookup t (t.system.ip_string gw) 1
]

abbrev pub text_or_empty : Option Text → Text
text_or_empty none = []
text_or_empty (some t) = t

abbrev pub windows_info : Tools → Text → Text → List ℕ → Option (List ℕ) → Info
windows_info t name guid ip none = info name guid ip none none
windows_info t name guid ip (some gw) = info name guid ip (some gw) (windows_router_mac t gw)

-- Detect; `none` is an error.
unfoldable pub windows_detect : Tools → Text → Option Info
unfolding local windows_find_guid windows_default_gateway windows_router_mac
windows_detect t destination = local t.system destination >>= λ l.
    let (ip, i) = l in
    some (
      windows_info t i.name (text_or_empty (windows_find_guid t ip)) ip (windows_default_gateway t))
