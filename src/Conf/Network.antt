-- ===== src/Conf/Network.antt =====
-- internal/conf/network.go. `none` is the panic of a nil address that is read.
use paqet.Prelude.{
  ℕ, Bool, true, false, not, ◌&&◌, List, [], ◌∷◌, ◌++◌, Option, none, some, if◌then◌else◌, ltb,
  length,
}
use paqet.Prelude.Int.{ℤ, ltb_ℤ}
use paqet.Prelude.Text.{Text, is_empty}
use paqet.Prelude.Maybe.{◌>>=◌}
use paqet.Address.{UdpAddr}
use paqet.Conf.{
  Error, interface_required, interface_long, interface_unknown, guid_required, family_required,
  ports_differ, router_mac_required, invalid_router_mac, Checked, check, Env, stored, error_of,
  validate_addr, Pcap, pcap_set_defaults, pcap_validate,
}
use paqet.Conf.Tcp.{Tcp, tcp_set_defaults, tcp_validate}

-- conf.Addr
pub record Interface : Type 0 where
  pub addr_ : Text
  pub router_mac_ : Text
  pub addr : Option UdpAddr
  pub router : Option (List ℕ)

pub record Network : Type 0 where
  pub interface_ : Text
  pub guid : Text
  pub ipv4 : Interface
  pub ipv6 : Interface
  pub pcap : Pcap
  pub tcp : Tcp
  pub interface : Option ℕ
  pub port : ℤ

unfoldable pub network_set_defaults : Text → Network → Network
unfolding tcp_set_defaults pcap_set_defaults
network_set_defaults role n = record n {
  pcap = pcap_set_defaults role n.pcap;
  tcp = tcp_set_defaults n.tcp;
}

abbrev pub is_none {ℓ} : {A : Type ℓ} → Option A → Bool
is_none none = true
is_none (some a) = false

unfoldable pub interface_validate : Env → Interface → Checked Interface
unfolding validate_addr
interface_validate env n =
    let l = validate_addr env n.addr_ false in
    let mac = env.parse_mac n.router_mac_ in
    record {
      value = record n { addr = stored l; router = mac };
      errors =
          error_of l
          ++ (check (is_empty n.router_mac_) router_mac_required
              ++ check (is_none mac) invalid_router_mac);
    }

-- `if configured { errors = append(errors, addr.validate()...) }`
unfoldable pub validate_if : Env → Bool → Interface → Checked Interface
unfolding interface_validate
validate_if env true n = interface_validate env n
validate_if env false n = record { value = n; errors = [] }

abbrev same_ℤ : ℤ → ℤ → Bool
same_ℤ a b = not (ltb_ℤ a b) && not (ltb_ℤ b a)

-- The ports must match if both families are configured.
unfoldable pub compare_ports : Bool → Option UdpAddr → Option UdpAddr → Option (List Error)
compare_ports false a b = some []
compare_ports true (some a) (some b) = some (check (not (same_ℤ a.port b.port)) ports_differ)
compare_ports true _ _ = none

-- `if addr != nil { port = addr.Port }`
abbrev pub port_or : Option UdpAddr → ℤ → ℤ
port_or none p = p
port_or (some a) p = a.port

-- Go's int of the length in bytes against 15.
unfoldable pub interface_errors : Env → Network → List Error
interface_errors env n =
    check (is_empty n.interface_) interface_required
    ++ (check (ltb 15 (length n.interface_)) interface_long
        ++ (check (is_none (env.interface_by_name n.interface_)) interface_unknown
            ++ check (env.is_windows && is_empty n.guid) guid_required))

-- The families, then the PCAP and TCP sections.
unfoldable pub families_validate : Env → Network → Option (Checked Network)
unfolding validate_if compare_ports pcap_validate tcp_validate
families_validate env n =
    let has4 = not (is_empty n.ipv4.addr_) in
    let has6 = not (is_empty n.ipv6.addr_) in
    let c4 = validate_if env has4 n.ipv4 in
    let c6 = validate_if env has6 n.ipv6 in
    let t = tcp_validate n.tcp in
    compare_ports (has4 && has6) c4.value.addr c6.value.addr >>= λ differ. some (record {
      value = record n {
        ipv4 = c4.value;
        ipv6 = c6.value;
        port = port_or c6.value.addr (port_or c4.value.addr n.port);
        tcp = t.value;
      };
      errors = c4.errors ++ (c6.errors ++ (differ ++ (pcap_validate n.pcap ++ t.errors)));
    })

unfoldable pub network_validate : Env → Network → Option (Checked Network)
unfolding interface_errors families_validate
network_validate env n =
    let es = interface_errors env n in
    let n' : Network = record n { interface = env.interface_by_name n.interface_ } in
    if is_empty n.ipv4.addr_ && is_empty n.ipv6.addr_
    then some (record { value = n'; errors = es ++ (family_required ∷ []) })
    else families_validate env n' >>= λ c. some (record c { errors = es ++ c.errors })
