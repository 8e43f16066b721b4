-- ===== src/Autoconf/Windows/Detected.antt =====
-- What Detect of internal/autoconf/detect_windows.go promises.
use paqet.Prelude.{ℕ, ◌≤◌, ◌≡◌, true, ◌&&◌, List, ◌∷◌, Option, none, some}
use paqet.Prelude.Text.{Text, codes, str_eq, contains_text}
use paqet.Address.{to4}
use paqet.Autoconf.{Info, first_some}
use paqet.Autoconf.Routes.{Has}
use paqet.Autoconf.Sound.{OnInterface}
use paqet.Autoconf.Tools.{Device, Tools}
use paqet.Autoconf.Windows.{
  ip_equal, owner_device, windows_route_line, mac_field, windows_arp_lookup, text_or_empty,
}

-- The fields of a line that gives a default route.
pub record IsDefaultRoute (t : Tools) (line : Text) (gw : List ℕ) : Type 0 where
  pub dest : Text
  pub mask : Text
  pub raw : Text
  pub rest : List Text
  pub fields : t.system.fields line ≡ dest ∷ mask ∷ raw ∷ rest
  pub default : (str_eq dest (codes "0.0.0.0") && str_eq mask (codes "0.0.0.0")) ≡ true
  pub ip : List ℕ
  pub parsed : t.parse_ip raw ≡ some ip
  pub is_v4 : to4 ip ≡ some gw

-- The gateway is that of a default route, or `route` fails or prints none.
abbrev pub InRoutes : Tools → Option (List ℕ) → Type 0
InRoutes t none =
    (lines : List Text) → t.route ≡ some lines → first_some (windows_route_line t) lines ≡ none
InRoutes t (some gw) =
    (lines : List Text) × (line : Text) × (t.route ≡ some lines)
    × Has lines line
    × IsDefaultRoute t line gw

-- A line of the k-th look-up contains the address, and the MAC is one of its fields.
abbrev pub InTable : Tools → Text → ℕ → List ℕ → Type 0
InTable t ip k mac =
    (lines : List Text) × (line : Text) × (field : Text) × (t.arp ip k ≡ some lines)
    × Has lines line
    × (contains_text line ip ≡ true)
    × Has (t.system.fields line) field
    × (mac_field t field ≡ some mac)

-- The MAC is found by one of two look-ups, or by none of them.
abbrev pub InArp : Tools → List ℕ → Option (List ℕ) → Type 0
InArp t gw none = (k : ℕ) → k ≤ 1 → windows_arp_lookup t (t.system.ip_string gw) k ≡ none
InArp t gw (some mac) = (k : ℕ) × (k ≤ 1) × InTable t (t.system.ip_string gw) k mac

-- The name is that of a device with the address, or pcap fails or has no such device.
abbrev pub InDevices : Tools → List ℕ → Option Text → Type 0
InDevices t ip none =
    (devs : List Device)
    → t.devices ≡ some devs
    → first_some (λ (dev : Device). first_some (owner_device ip dev) dev.addresses) devs ≡ none
InDevices t ip (some name) =
    (devs : List Device) × (dev : Device) × (addr : List ℕ) × (t.devices ≡ some devs)
    × Has devs dev
    × (dev.name ≡ name)
    × Has dev.addresses addr
    × (ip_equal addr ip ≡ true)

abbrev pub HasRouter : Tools → Option (List ℕ) → Option (List ℕ) → Type 0
HasRouter t none mac = mac ≡ none
HasRouter t (some gw) mac = InArp t gw mac

abbrev pub IsDetected : Tools → Info → Type 0
IsDetected t i =
    OnInterface t.system i.interface i.ipv4
    × ((o : Option Text) × (i.guid ≡ text_or_empty o) × InDevices t i.ipv4 o)
    × InRoutes t i.ipv4_gateway
    × HasRouter t i.ipv4_gateway i.ipv4_router_mac
