-- ===== src/Autoconf/Sound.antt =====
-- What Detect returns stands in the system's tables.
use paqet.Prelude.{
  ℕ, zero, suc, ◌+◌, ◌≤◌, ◌<◌, ◌≡◌, sym, ap, ◌∙◌, true, false, ◌&&◌, not, List, Option, none, some,
  inl, inr, Bool-cases, Option-cases, ◌==◌, ==_iff, if◌then◌else◌, ltb, length, get_elem?, drop,
  arith,
}
use mathlib.Core.Path.{subst}
use paqet.Prelude.Text.{Text, codes, str_eq, is_empty}
use paqet.Prelude.Maybe.{◌>>=◌, >>=-eq-some, some_equal}
use paqet.Address.{to4}
use paqet.Autoconf.Tools.{local}
use paqet.Autoconf.{
  IfAddr, Interface, System, first_some, ip_of, is_ip, owner, owner_if, interface_by_ipv4,
  route_line, linux_default_gateway, arp_line, linux_arp_lookup, retry,
}
use paqet.Autoconf.Routes.{
  Has, first_some-Has, first_some-none, if_inv, else_inv, IsDefaultRoute, route_line-IsDefaultRoute,
  IsDefaultRoute-line,
}

-- The columns of a complete entry for an address on an interface.
pub record IsEntry (s : System) (ip iface line : Text) (mac : List ℕ) : Type 0 where
  pub entry_ip : Text
  pub flags : Text
  pub raw : Text
  pub at_0 : get_elem? (s.fields line) 0 ≡ some entry_ip
  pub same_ip : str_eq entry_ip ip ≡ true
  pub device :
      (d : Text) × (get_elem? (s.fields line) 5 ≡ some d)
      × ((not (is_empty iface) && not (str_eq d iface)) ≡ false)
  pub at_2 : get_elem? (s.fields line) 2 ≡ some flags
  pub complete : str_eq flags (codes "0x0") ≡ false
  pub at_3 : get_elem? (s.fields line) 3 ≡ some raw
  pub parsed : s.parse_mac raw ≡ some mac

arp_line-IsEntry :
    (s : System) (ip iface line : Text) (mac : List ℕ)
    → arp_line s ip iface line ≡ some mac
    → IsEntry s ip iface line mac
unfolding arp_line
arp_line-IsEntry s ip iface line mac e =
    let fs = s.fields line in
    let (_, e₁) = else_inv (ltb (length fs) 6) _ e in
    let (entry_ip, at_0, e₂) = >>=-eq-some (get_elem? fs 0) _ e₁ in
    let (same, e₃) = else_inv (not (str_eq entry_ip ip)) _ e₂ in
    let (device, at_5, e₄) = >>=-eq-some (get_elem? fs 5) _ e₃ in
    let (on, e₅) = else_inv (not (is_empty iface) && not (str_eq device iface)) _ e₄ in
    let (flags, at_2, e₆) = >>=-eq-some (get_elem? fs 2) _ e₅ in
    let (complete, e₇) = else_inv (str_eq flags (codes "0x0")) _ e₆ in
    let (raw, at_3, e₈) = >>=-eq-some (get_elem? fs 3) _ e₇ in
    record {
      entry_ip = entry_ip;
      flags = flags;
      raw = raw;
      at_0 = at_0;
      same_ip = ground (arith, same);
      device = (device, at_5, on);
      at_2 = at_2;
      complete = complete;
      at_3 = at_3;
      parsed = e₈;
    }

-- An interface of the system with that name has that address.
abbrev pub OnInterface : System → Text → List ℕ → Type 0
OnInterface s name ip =
    (is : List Interface) × (i : Interface) × (addrs : List IfAddr) × (a : IfAddr) × (s.interfaces
      ≡ some is)
    × Has is i
    × (i.name ≡ name)
    × (i.addrs ≡ some addrs)
    × Has addrs a
    × (is_ip ip (ip_of a) ≡ true)

-- The gateway is that of a default route, or no line is a default route.
abbrev pub InRoutes : System → Option (List ℕ) → Type 0
InRoutes s none =
    (lines : List Text) (line : Text)
    → s.route ≡ some lines
    → Has (drop 1 lines) line
    → (gw : List ℕ) → ¬ IsDefaultRoute s line gw
InRoutes s (some gw) =
    (lines : List Text) × (line : Text) × (s.route ≡ some lines)
    × Has (drop 1 lines) line
    × IsDefaultRoute s line gw

-- The MAC stands in an entry for the gateway in one of the six look-ups, or none of them finds one.
abbrev pub InArp : System → Text → Option (List ℕ) → Option (List ℕ) → Type 0
InArp s iface none mac = mac ≡ none
InArp s iface (some gw) none = (k : ℕ) → k ≤ 5 → linux_arp_lookup s (s.ip_string gw) iface k ≡ none
InArp s iface (some gw) (some mac) =
    (k : ℕ) × (k ≤ 5)
    × ((lines : List Text) × (line : Text) × (s.arp k ≡ some lines)
        × Has (drop 1 lines) line
        × IsEntry s (s.ip_string gw) iface line mac)

pub owner_if-OnInterface :
    (s : System) (ip : List ℕ) (i : Interface)
    → interface_by_ipv4 s ip ≡ some i
    → OnInterface s i.name ip
unfolding interface_by_ipv4
owner_if-OnInterface s ip i e =
    let (is, a, e₁) = >>=-eq-some s.interfaces _ e in
    let (j, h, e₂) = first_some-Has (owner_if ip) is i e₁ in
    let (addrs, b, e₃) = >>=-eq-some j.addrs _ e₂ in
    let (x, k, e₄) = first_some-Has (owner ip j) addrs i e₃ in
    let (own, same) = if_inv (is_ip ip (ip_of x)) (some j) e₄ in
    (is, j, addrs, x, a, h, ap (λ (y : Interface). y.name) (some_equal same), b, k, own)

pub local-OnInterface :
    (s : System) (destination : Text) (l : List ℕ × Interface)
    → local s destination ≡ some l
    → OnInterface s l.1.name l.0
unfolding local
local-OnInterface s destination l e =
    let dest = if is_empty destination then codes "8.8.8.8:53" else destination in
    let (addr, _, e₁) = >>=-eq-some (s.dial dest) _ e in
    let (ip, _, e₂) = >>=-eq-some (to4 addr) _ e₁ in
    let (i, o, e₃) = >>=-eq-some (interface_by_ipv4 s ip) _ e₂ in
    subst (λ (l : List ℕ × Interface). OnInterface s l.1.name l.0) (some_equal e₃)
      (owner_if-OnInterface s ip i o)

pub gateway-InRoutes :
    (s : System) (o : Option (List ℕ)) → linux_default_gateway s ≡ o → InRoutes s o
unfolding linux_default_gateway
gateway-InRoutes s none e = λ lines line h at gw r.
    let missing : route_line s line ≡ none =
      first_some-none (route_line s) (drop 1 lines) at.0 line
        (ap (λ m. m >>= λ lines. first_some (route_line s) (drop 1 lines)) (sym h) ∙ e) at.1 in
    let given : route_line s line ≡ some gw = IsDefaultRoute-line s line gw r in cc
gateway-InRoutes s (some gw) e =
    let (lines, a, e₁) = >>=-eq-some s.route _ e in
    let (line, h, e₂) = first_some-Has (route_line s) (drop 1 lines) gw e₁ in
    (lines, line, a, h, route_line-IsDefaultRoute s line gw e₂)

abbrev pub InFile : System → Text → Text → ℕ → List ℕ → Type 0
InFile s ip iface k mac =
    (lines : List Text) × (line : Text) × (s.arp k ≡ some lines)
    × Has (drop 1 lines) line
    × IsEntry s ip iface line mac

lookup-InFile :
    (s : System) (ip iface : Text) (k : ℕ) (mac : List ℕ)
    → linux_arp_lookup s ip iface k ≡ some mac
    → InFile s ip iface k mac
unfolding linux_arp_lookup
lookup-InFile s ip iface k mac e =
    let (lines, a, e₁) = >>=-eq-some (s.arp k) _ e in
    let (line, h, e₂) = first_some-Has (arp_line s ip iface) (drop 1 lines) mac e₁ in
    (lines, line, a, h, arp_line-IsEntry s ip iface line mac e₂)

-- What n look-ups from look-up k on come to.
abbrev pub Tried : System → Text → Text → ℕ → ℕ → Option (List ℕ) → Type 0
Tried s ip iface k n none = (j : ℕ) → k ≤ j → j < k + n → linux_arp_lookup s ip iface j ≡ none
Tried s ip iface k n (some mac) = (j : ℕ) × (j < k + n) × InFile s ip iface j mac

Tried-more :
    (s : System) (ip iface : Text) (k n : ℕ) (o : Option (List ℕ))
    → linux_arp_lookup s ip iface k ≡ none
    → Tried s ip iface (suc k) n o
    → Tried s ip iface k (suc n) o
Tried-more s ip iface k n none h t = λ j p q. elim (Bool-cases (j == k)) [
  | inl b ↦ ap (linux_arp_lookup s ip iface) ((==_iff j k).0 b) ∙ h
  | inr b ↦ t j (ground (arith, b, p)) (omega (arith, q))
]
Tried-more s ip iface k n (some mac) h (j, l, f) = (j, omega (arith, l), f)

pub retry-Tried :
    (n : ℕ) (s : System) (ip iface : Text) (k : ℕ) → Tried s ip iface k n (retry n s ip iface k)
retry-Tried zero s ip iface k = λ j p q. absurd (omega (arith, p, q))
retry-Tried (suc n) s ip iface k = elim (Option-cases (linux_arp_lookup s ip iface k)) [
  | inr (mac, e) ↦ rw (e, retry) (k, omega arith, lookup-InFile s ip iface k mac e)
  | inl e ↦ rw (e, retry) (Tried-more s ip iface k n _ e (retry-Tried n s ip iface (suc k)))
]
