-- ===== src/Autoconf/Darwin/Detected.antt =====
-- What Detect of internal/autoconf/detect_darwin.go promises, and when it panics.
use paqet.Prelude.{
  ℕ, zero, suc, ◌≤◌, ◌≡◌, refl, sym, ap, ◌∙◌, List, [], Option, none, some, inl, inr, Option-cases,
  arith,
}
use mathlib.Core.Path.{subst}
use paqet.Prelude.Text.{Text, codes, cut_prefix}
use paqet.Prelude.Maybe.{◌>>=◌, >>=-eq-some, some_equal}
use paqet.Address.{to4}
use paqet.Autoconf.{Info, first_some}
use paqet.Autoconf.Routes.{Has, first_some-Has}
use paqet.Autoconf.Sound.{OnInterface, local-OnInterface}
use paqet.Autoconf.Tools.{Tools, local, info}
use paqet.Autoconf.Darwin.{
  gateway_line, darwin_default_gateway, darwin_arp_lookup, darwin_router_mac, darwin_info,
  darwin_detect,
}
use paqet.Autoconf.Darwin.Table.{Found, arp_lines-Found, AreEntries, arp_lines_total}

-- A line that gives the gateway.
pub record IsGateway (t : Tools) (line : Text) (gw : List ℕ) : Type 0 where
  pub rest : Text
  pub ip : List ℕ
  pub prefix : cut_prefix (codes "gateway:") (t.trim_space line) ≡ some rest
  pub parsed : t.parse_ip (t.trim_space rest) ≡ some ip
  pub is_v4 : to4 ip ≡ some gw

abbrev pub InRoutes : Tools → Option (List ℕ) → Type 0
InRoutes t none =
    (lines : List Text) → t.route ≡ some lines → first_some (gateway_line t) lines ≡ none
InRoutes t (some gw) =
    (lines : List Text) × (line : Text) × (t.route ≡ some lines)
    × Has lines line
    × IsGateway t line gw

gateway-InRoutes : (t : Tools) (o : Option (List ℕ)) → darwin_default_gateway t ≡ o → InRoutes t o
unfolding darwin_default_gateway gateway_line
gateway-InRoutes t none e = λ lines h. ap (λ m. m >>= first_some (gateway_line t)) (sym h) ∙ e
gateway-InRoutes t (some gw) e =
    let (lines, a, e₁) = >>=-eq-some t.route _ e in
    let (line, h, e₂) = first_some-Has (gateway_line t) lines gw e₁ in
    let (rest, p, e₃) = >>=-eq-some (cut_prefix (codes "gateway:") (t.trim_space line)) _ e₂ in
    let (ip, q, v) = >>=-eq-some (t.parse_ip (t.trim_space rest)) _ e₃ in
    (lines, line, a, h, record { rest = rest; ip = ip; prefix = p; parsed = q; is_v4 = v })

module _ (t : Tools) where
  -- What the k-th look-up came to.
  abbrev Looked : Text → ℕ → Option (List ℕ) → Type 0
  Looked ip k none = (lines : List Text) → t.arp ip k ≡ some lines → Found t lines none
  Looked ip k (some mac) =
      (lines : List Text) × (t.arp ip k ≡ some lines) × Found t lines (some mac)

  lookup-Looked :
      (ip : Text) (k : ℕ) (o : Option (List ℕ)) → darwin_arp_lookup t ip k ≡ some o → Looked ip k o
  unfolding darwin_arp_lookup
  lookup-Looked ip k o = elim (Option-cases (t.arp ip k)) [
    | inl a ↦
        rw (a, darwin_arp_lookup)
          (λ e. subst (Looked ip k) (some_equal e) (λ lines h. let q = sym a ∙ h in cc))
    | inr (lines, a) ↦
        rw (a, darwin_arp_lookup) (λ e. of_found lines a o (arp_lines-Found t lines o e))
  ]
    where
      of_found :
          (lines : List Text)
          → t.arp ip k ≡ some lines
          → (o : Option (List ℕ)) → Found t lines o
          → Looked ip k o
      of_found lines a none f = λ ls h. subst (λ ls. Found t ls none) (some_equal (sym a ∙ h)) f
      of_found lines a (some mac) f = (lines, a, f)

  -- The MAC is found by one of two look-ups, or by none of them.
  abbrev InArp : List ℕ → Option (List ℕ) → Type 0
  InArp gw none = (k : ℕ) → k ≤ 1 → Looked (t.system.ip_string gw) k none
  InArp gw (some mac) = (k : ℕ) × (k ≤ 1) × Looked (t.system.ip_string gw) k (some mac)

  router_mac-InArp :
      (gw : List ℕ) (o : Option (List ℕ)) → darwin_router_mac t gw ≡ some o → InArp gw o
  unfolding darwin_router_mac
  router_mac-InArp gw o e =
      let (first, l, e₁) = >>=-eq-some (darwin_arp_lookup t (t.system.ip_string gw) 0) _ e in
      of_first first o (lookup-Looked (t.system.ip_string gw) 0 first l) e₁
    where
      both :
          Looked (t.system.ip_string gw) 0 none
          → Looked (t.system.ip_string gw) 1 none
          → (k : ℕ) → k ≤ 1
          → Looked (t.system.ip_string gw) k none
      both h h' zero l = h
      both h h' (suc zero) l = h'
      both h h' (suc (suc k)) l = absurd (omega (arith, l))

      of_second :
          (o : Option (List ℕ))
          → Looked (t.system.ip_string gw) 0 none
          → Looked (t.system.ip_string gw) 1 o
          → InArp gw o
      of_second none h h' = both h h'
      of_second (some mac) h h' = (1, omega arith, h')

      of_first :
          (first o : Option (List ℕ))
          → Looked (t.system.ip_string gw) 0 first
          → (elim first [
            | some mac ↦ some (some mac)
            | none ↦ darwin_arp_lookup t (t.system.ip_string gw) 1
          ])
            ≡ some o
          → InArp gw o
      of_first (some mac) o h e = subst (InArp gw) (some_equal e) (0, omega arith, h)
      of_first none o h e = of_second o h (lookup-Looked (t.system.ip_string gw) 1 o e)

abbrev pub HasRouter : Tools → Option (List ℕ) → Option (List ℕ) → Type 0
HasRouter t none mac = mac ≡ none
HasRouter t (some gw) mac = InArp t gw mac

abbrev pub IsDetected : Tools → Info → Type 0
IsDetected t i =
    OnInterface t.system i.interface i.ipv4
    × InRoutes t i.ipv4_gateway
    × HasRouter t i.ipv4_gateway i.ipv4_router_mac

darwin_info-IsDetected :
    (t : Tools) (name : Text) (ip : List ℕ) (o : Option (List ℕ)) (i : Info)
    → OnInterface t.system name ip
    → InRoutes t o
    → darwin_info t name ip o ≡ some (some i)
    → IsDetected t i
darwin_info-IsDetected t name ip none i h r e =
    subst (IsDetected t) (some_equal (some_equal e)) (h, r, refl)
darwin_info-IsDetected t name ip (some gw) i h r e =
    let (mac, m, e₁) = >>=-eq-some (darwin_router_mac t gw) _ e in
    subst (IsDetected t) (some_equal (some_equal e₁)) (h, r, router_mac-InArp t gw mac m)

-- On macOS, what Detect returns stands in what the system's programs print: an interface of that
-- name has the address; the gateway is that of a gateway line, or `route` prints none; and the
-- MAC is that of a complete entry in one of two look-ups, or neither has a complete entry.
pub darwin_detect-IsDetected :
    (t : Tools) (destination : Text) (i : Info)
    → darwin_detect t destination ≡ some (some i)
    → IsDetected t i
unfolding darwin_detect
darwin_detect-IsDetected t destination i = elim (Option-cases (local t.system destination)) [
  | inl l ↦ rw (l, darwin_detect) (λ e. cc)
  | inr (a, l) ↦
      rw (l, darwin_detect)
        (darwin_info-IsDetected t a.1.name a.0 (darwin_default_gateway t) i
          (local-OnInterface t.system destination a l)
          (gateway-InRoutes t (darwin_default_gateway t) refl))
]

-- Every line with " at " in it that `arp` prints has a field after it.
abbrev pub PrintsEntries : Tools → Type 0
PrintsEntries t =
    (ip : Text) (k : ℕ) (lines : List Text) → t.arp ip k ≡ some lines → AreEntries t lines

lookup_total :
    (t : Tools) (ip : Text) (k : ℕ)
    → PrintsEntries t
    → (o : Option (List ℕ)) × (darwin_arp_lookup t ip k ≡ some o)
unfolding darwin_arp_lookup
lookup_total t ip k h = elim (Option-cases (t.arp ip k)) [
  | inl a ↦ (none, rw (a, darwin_arp_lookup) refl)
  | inr (lines, a) ↦
      let (o, e) = arp_lines_total t lines (h ip k lines a) in (o, rw (a, darwin_arp_lookup) e)
]

router_mac_total :
    (t : Tools) (gw : List ℕ)
    → PrintsEntries t
    → (o : Option (List ℕ)) × (darwin_router_mac t gw ≡ some o)
unfolding darwin_router_mac
router_mac_total t gw h =
    let (first, e) = lookup_total t (t.system.ip_string gw) 0 h in
    let (second, e') = lookup_total t (t.system.ip_string gw) 1 h in of_first first second e e'
  where
    of_first :
        (first second : Option (List ℕ))
        → darwin_arp_lookup t (t.system.ip_string gw) 0 ≡ some first
        → darwin_arp_lookup t (t.system.ip_string gw) 1 ≡ some second
        → (o : Option (List ℕ)) × (darwin_router_mac t gw ≡ some o)
    of_first (some mac) second e e' = (some mac, rw (e, darwin_router_mac) refl)
    of_first none second e e' = (second, rw (e, darwin_router_mac) e')

info_total :
    (t : Tools) (name : Text) (ip : List ℕ) (o : Option (List ℕ))
    → PrintsEntries t
    → (r : Option Info) × (darwin_info t name ip o ≡ some r)
info_total t name ip none h = (some _, refl)
info_total t name ip (some gw) h =
    let (mac, e) = router_mac_total t gw h in
    (some _, ap (λ m. m >>= λ mac. some (some (info name [] ip (some gw) mac))) e)

-- Detect does not panic on macOS where `arp` prints a field after every " at ".
pub darwin_detect_total :
    (t : Tools) (destination : Text)
    → PrintsEntries t
    → (r : Option Info) × (darwin_detect t destination ≡ some r)
unfolding darwin_detect
darwin_detect_total t destination h = elim (Option-cases (local t.system destination)) [
  | inl l ↦ (none, rw (l, darwin_detect) refl)
  | inr (a, l) ↦
      let (r, e) = info_total t a.1.name a.0 (darwin_default_gateway t) h in
      (r, rw (l, darwin_detect) e)
]
