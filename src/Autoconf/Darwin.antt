-- ===== src/Autoconf/Darwin.antt =====
-- internal/autoconf/detect_darwin.go: Detect on macOS, from what `route` and `arp` print.
pub mod Table
pub mod Detected
use paqet.Prelude.{ℕ, Bool, true, false, ◌||◌, List, [], ◌∷◌, Option, none, some, if◌then◌else◌}
use paqet.Prelude.Text.{Text, codes, str_eq, cut_prefix, after}
use paqet.Prelude.Maybe.{◌>>=◌}
use paqet.Address.{to4}
use paqet.Autoconf.{Interface, Info, first_some}
use paqet.Autoconf.Tools.{Tools, local, info}

-- One line that `route -n get default` prints.
unfoldable pub gateway_line : Tools → Text → Option (List ℕ)
gateway_line t line = cut_prefix (codes "gateway:") (t.trim_space line) >>= λ rest.
    (t.parse_ip (t.trim_space rest) >>= to4)

unfoldable pub darwin_default_gateway : Tools → Option (List ℕ)
unfolding gateway_line
darwin_default_gateway t = t.route >>= first_some (gateway_line t)

abbrev pub is_incomplete : Text → Bool
is_incomplete s = str_eq s (codes "incomplete") || str_eq s (codes "(incomplete)")

-- The lines that `arp -n` prints: `none` is the panic of indexing no field, `some none` the error.
unfoldable pub darwin_arp_lines : Tools → List Text → Option (Option (List ℕ))
darwin_arp_lines t [] = some none
darwin_arp_lines t (line ∷ lines) =
    let rest = darwin_arp_lines t lines in
    elim (after (codes " at ") line) [
      | none ↦ rest
      | some part ↦ elim (t.system.fields part) [
        | [] ↦ none
        | mac_str ∷ _ ↦ elim (is_incomplete mac_str) [
          | true ↦ rest
          | false ↦ elim (t.system.parse_mac mac_str) [ some mac ↦ some (some mac) | none ↦ rest ]
        ]
      ]
    ]

-- The k-th look-up.
unfoldable pub darwin_arp_lookup : Tools → Text → ℕ → Option (Option (List ℕ))
unfolding darwin_arp_lines
darwin_arp_lookup t ip k = elim (t.arp ip k) [
  | none ↦ some none
  | some lines ↦ darwin_arp_lines t lines
]

-- A look-up, and another one if it fails.
unfoldable pub darwin_router_mac : Tools → List ℕ → Option (Option (List ℕ))
unfolding darwin_arp_lookup
darwin_router_mac t gw = darwin_arp_lookup t (t.system.ip_string gw) 0 >>= λ first. elim first [
  | some mac ↦ some (some mac)
  | none ↦ darwin_arp_lookup t (t.system.ip_string gw) 1
]

abbrev pub darwin_info : Tools → Text → List ℕ → Option (List ℕ) → Option (Option Info)
darwin_info t name ip none = some (some (info name [] ip none none))
darwin_info t name ip (some gw) =
    darwin_router_mac t gw >>= λ mac. some (some (info name [] ip (some gw) mac))

-- Detect: `none` is the panic, `some none` an error.
unfoldable pub darwin_detect : Tools → Text → Option (Option Info)
unfolding local darwin_default_gateway darwin_router_mac
darwin_detect t destination = elim (local t.system destination) [
  | none ↦ some none
  | some (ip, i) ↦ darwin_info t i.name ip (darwin_default_gateway t)
]
