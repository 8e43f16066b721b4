-- ===== src/Conf/Whole.antt =====
-- internal/conf/transport.go and conf.go, after the file is read: the defaults with the detected
-- network, and the validation of all parts. `none` is the panic of a nil pointer that is read.
use paqet.Prelude.{
  ℕ, ◌*◌, Bool, true, false, not, ◌&&◌, List, [], ◌∷◌, ◌++◌, Option, none, some, if◌then◌else◌,
}
use paqet.Prelude.Int.{ℤ, pos, ltb_ℤ, is_ℕ}
use paqet.Prelude.Text.{Text, codes, str_eq, is_one_of, is_empty}
use paqet.Prelude.Maybe.{◌>>=◌}
use paqet.Address.{UdpAddr, to4}
use paqet.Conf.{
  Error, transport_protocol, transport_conn, no_ipv4, no_ipv6, one_connection, Checked, check, Env,
  or_default, Server, server_validate, Socks5, socks5_validate, Forward, forward_validate, Log,
  log_set_defaults, log_validate, is_server,
}
use paqet.Conf.Kcp.{Kcp, kcp_set_defaults, kcp_validate, is_outside}
use paqet.Conf.Network.{Network, network_set_defaults, network_validate, is_none}

pub record Transport : Type 0 where
  pub protocol : Text
  pub conn : ℤ
  pub tcpbuf : ℤ
  pub udpbuf : ℤ
  pub kcp : Option Kcp

-- `if x < n { x = n }`
abbrev at_least : ℤ → ℕ → ℤ
at_least z n = if ltb_ℤ z (pos n) then pos n else z

abbrev pub is_kcp : Text → Bool
is_kcp p = str_eq p (codes "kcp")

-- The switch: the protocol "kcp" calls a method of the section.
abbrev default_kcp : Text → Bool → Option Kcp → Option (Option Kcp)
default_kcp role false k = some k
default_kcp role true none = none
default_kcp role true (some k) = some (some (kcp_set_defaults role k))

unfoldable pub transport_set_defaults : Text → Transport → Option Transport
unfolding kcp_set_defaults
transport_set_defaults role t = default_kcp role (is_kcp t.protocol) t.kcp >>= λ k. some (record t {
  conn = or_default t.conn 1;
  tcpbuf = at_least (or_default t.tcpbuf (8 * 1024)) (4 * 1024);
  udpbuf = at_least (or_default t.udpbuf (4 * 1024)) (2 * 1024);
  kcp = k;
})

abbrev pub validate_kcp : Env → Bool → Option Kcp → Option (Checked (Option Kcp))
validate_kcp env false k = some (record { value = k; errors = [] })
validate_kcp env true none = none
validate_kcp env true (some k) =
    let c = kcp_validate env k in some (record { value = some c.value; errors = c.errors })

unfoldable pub transport_validate : Env → Transport → Option (Checked Transport)
unfolding kcp_validate
transport_validate env t = validate_kcp env (is_kcp t.protocol) t.kcp >>= λ k. some (record {
  value = record t { kcp = k.value };
  errors =
      check (not (is_kcp t.protocol)) transport_protocol
      ++ (check (is_outside t.conn 1 256) transport_conn ++ k.errors);
})

pub record Conf : Type 0 where
  pub role : Text
  pub log : Log
  pub listen : Server
  pub socks5 : List Socks5
  pub forward : List Forward
  pub network : Network
  pub server : Server
  pub transport : Transport

-- What autoconf.Detect found.
pub record Info : Type 0 where
  pub interface : Text
  pub guid : Text
  pub ipv4 : Option (List ℕ)
  pub router_mac : Option (List ℕ)

abbrev is_client : Text → Bool
is_client role = str_eq role (codes "client")

-- The port of the detected address.
unfoldable pub detected_port : Env → Conf → ℤ
detected_port env c =
    if is_server c.role && not (is_empty c.listen.addr_)
    then elim (env.split_host_port c.listen.addr_) [
      | none ↦ pos 0
      | some (host, port_str) ↦ elim (env.atoi port_str) [ none ↦ pos 0 | some p ↦ p ]
    ]
    else pos 0

-- `if s == "" && found != "" { s = found }`
abbrev pub fill : Text → Text → Text
fill s found = if is_empty s && not (is_empty found) then found else s

abbrev pub fill_from {ℓ} : {A : Type ℓ} → Text → Option A → (A → Text) → Text
fill_from s none f = s
fill_from s (some a) f = if is_empty s then f a else s

-- autoDetectNetwork, given what Detect returns if it is called: the result does not depend on it
-- when nothing is missing.
unfoldable pub auto_detect_network : Env → Option Info → Conf → Network
unfolding detected_port
auto_detect_network env none c = c.network
auto_detect_network env (some info) c =
    let n : Network = c.network in
    record n {
      interface_ = fill n.interface_ info.interface;
      guid = if env.is_windows then fill n.guid info.guid else n.guid;
      ipv4 = record n.ipv4 {
        addr_ = fill_from n.ipv4.addr_ info.ipv4 (λ ip. env.print_addr ip (detected_port env c));
        router_mac_ = fill_from n.ipv4.router_mac_ info.router_mac env.print_mac;
      };
    }

-- Conf.setDefaults: the defaults of the servers, of socks5 and of forward are empty.
unfoldable pub set_defaults : Env → Option Info → Conf → Option Conf
unfolding auto_detect_network network_set_defaults transport_set_defaults
set_defaults env info c = transport_set_defaults c.role c.transport >>= λ t. some (record c {
  log = log_set_defaults c.log;
  network = network_set_defaults c.role (auto_detect_network env info c);
  transport = t;
})

-- A section that is a list.
unfoldable pub validate_all : {A : Type 0} → (A → Checked A) → List A → Checked (List A)
validate_all f [] = record { value = []; errors = [] }
validate_all f (x ∷ xs) =
    let c = f x in
    let rest = validate_all f xs in
    record { value = c.value ∷ rest.value; errors = c.errors ++ rest.errors }

-- The checks of a client between its server and its network; a nil server address panics.
unfoldable pub client_errors : Option UdpAddr → Network → ℤ → Option (List Error)
unfolding to4
client_errors none n conn = none
client_errors (some a) n conn = some (
    check (not (is_none (to4 a.ip)) && is_none n.ipv4.addr) no_ipv4
    ++ (check (is_none (to4 a.ip) && is_none n.ipv6.addr) no_ipv6
        ++ check (ltb_ℤ (pos 1) conn && not (is_ℕ n.port 0)) one_connection))

unfoldable pub listen_validate : Env → Conf → Option (Checked Conf)
unfolding server_validate
listen_validate env c =
    let l = server_validate env c.listen in
    some (record { value = record c { listen = l.value }; errors = l.errors })

unfoldable pub client_validate : Env → Conf → Option (Checked Conf)
unfolding server_validate client_errors
client_validate env c =
    let s = server_validate env c.server in
    client_errors s.value.addr c.network c.transport.conn >>= λ es.
    some (record { value = record c { server = s.value }; errors = s.errors ++ es })

-- The last part of Conf.validate, by role.
unfoldable pub role_validate : Env → Conf → Option (Checked Conf)
unfolding listen_validate client_validate
role_validate env c = if is_server c.role then listen_validate env c else client_validate env c

-- Conf.validate before writeErr: what it stores, and all errors in order.
unfoldable pub validate : Env → Conf → Option (Checked Conf)
unfolding log_validate validate_all socks5_validate forward_validate network_validate
    transport_validate role_validate
validate env c =
    let l = log_validate c.log in
    let s = validate_all (socks5_validate env) c.socks5 in
    let f = validate_all (forward_validate env) c.forward in
    network_validate env c.network >>= λ n. transport_validate env c.transport >>= λ t.
    role_validate env (record c {
      log = l.value;
      socks5 = s.value;
      forward = f.value;
      network = n.value;
      transport = t.value;
    })
    >>= λ r. some (record r {
      errors = l.errors ++ (s.errors ++ (f.errors ++ (n.errors ++ (t.errors ++ r.errors))));
    })

-- writeErr: an error if there is any.
abbrev pub write_err : List Error → Bool
write_err [] = false
write_err (e ∷ es) = true

-- LoadFromFile once the file is parsed.
pub data Loaded : Type 0 where
  bad_role panics : Loaded
  invalid : Conf → List Error → Loaded
  loaded : Conf → Loaded

abbrev pub of_checked : Option (Checked Conf) → Loaded
of_checked none = panics
of_checked (some r) = if write_err r.errors then invalid r.value r.errors else loaded r.value

abbrev pub of_defaults : Env → Option Conf → Loaded
of_defaults env none = panics
of_defaults env (some c) = of_checked (validate env c)

unfoldable pub load : Env → Option Info → Conf → Loaded
unfolding set_defaults validate
load env info c =
    if is_one_of (codes "client" ∷ codes "server" ∷ []) c.role
    then of_defaults env (set_defaults env info c)
    else bad_role
