-- ===== src/Conf.antt =====
-- internal/conf: the configuration. This file holds what its parts share (validation.go, NewAddr of
-- internal/tnet/addr.go) and the small parts (server.go, socks.go, forward.go, log.go, pcap.go).
-- A Go int is an ℤ. What a validate method stores and the errors that it lists are a Checked.
pub mod Kcp
pub mod Tcp
pub mod Network
pub mod Whole
pub mod Sound
pub mod Ready
pub mod Sample
mod Runs
use paqet.Prelude.{
  ℕ, ◌*◌, ◌+◌, ◌-◌, ◌%◌, ◌^◌, Bool, true, false, ◌||◌, List, [], ◌∷◌, ◌++◌, Option, none, some,
  if◌then◌else◌, ltb,
}
use paqet.Prelude.Int.{ℤ, pos, negsuc, ltb_ℤ, is_ℕ}
use paqet.Prelude.Text.{Text, codes, str_eq, is_empty}
use paqet.Address.{UdpAddr}
use paqet.Protocol.{Addr}

-- The errors that validation lists, without their texts.
pub data Error : Type 0 where
  address_required invalid_address port_range : Error
  invalid_target invalid_port : Error
  invalid_level : Error
  sockbuf_small sockbuf_large : Error
  invalid_flag no_flag_combination max_failures_small probe_timeout_small : Error
  kcp_mode kcp_mtu kcp_rcvwnd kcp_sndwnd kcp_block kcp_key kcp_new_block kcp_smuxbuf : Error
  kcp_streambuf : Error
  transport_protocol transport_conn : Error
  interface_required interface_long interface_unknown guid_required : Error
  family_required ports_differ router_mac_required invalid_router_mac : Error
  no_ipv4 no_ipv6 one_connection : Error

pub record Checked (A : Type 0) : Type 0 where
  pub value : A
  pub errors : List Error

-- `if b { errors = append(errors, e) }`
abbrev pub check : Bool → Error → List Error
check true e = e ∷ []
check false e = []

-- The ciphers of kcp-go that kcp_block.go names.
pub data Cipher : Type 0 where
  aes aes_gcm salsa20 blowfish twofish cast5 triple_des tea xtea simple_xor sm4 none_cipher : Cipher

-- The system and the libraries: name resolution, interfaces, the parsers of package net and
-- strconv, how they print, the derivation of a key, and whether kcp-go makes a cipher from a key.
pub record Env : Type 0 where
  pub resolve : Text → Option UdpAddr
  pub interface_by_name : Text → Option ℕ
  pub is_windows : Bool
  pub parse_mac : Text → Option (List ℕ)
  pub split_host_port : Text → Option (Text × Text)
  pub atoi : Text → Option ℤ
  pub print_addr : List ℕ → ℤ → Text
  pub print_mac : List ℕ → Text
  pub pbkdf2 : Text → List ℕ
  pub builds : Cipher → List ℕ → Bool

-- A value or an error.
pub data Try (A : Type 0) : Type 0 where
  ok : A → Try A
  fails : Error → Try A

-- What is stored is nil on an error.
abbrev pub stored : {A : Type 0} → Try A → Option A
stored (ok a) = some a
stored (fails e) = none

abbrev pub error_of : {A : Type 0} → Try A → List Error
error_of (ok a) = []
error_of (fails e) = e ∷ []

unfoldable pub validate_addr : Env → Text → Bool → Try UdpAddr
validate_addr env addr v_port =
    if is_empty addr then fails address_required else elim (env.resolve addr) [
      | none ↦ fails invalid_address
      | some u ↦
          if v_port
          then if ltb_ℤ u.port (pos 1) || ltb_ℤ (pos 65535) u.port then fails port_range else ok u
          else ok u
    ]

-- tnet.NewAddr
unfoldable pub new_addr : Env → Text → Try Addr
new_addr env s = elim (env.split_host_port s) [
  | none ↦ fails invalid_target
  | some (host, port_str) ↦ elim (env.atoi port_str) [
    | none ↦ fails invalid_port
    | some port ↦ ok (record { host = host; port = port })
  ]
]

-- `if x == 0 { x = n }`
abbrev pub or_default : ℤ → ℕ → ℤ
or_default z n = if is_ℕ z 0 then pos n else z

abbrev pub or_text : Text → Text → Text
or_text s t = if is_empty s then t else s

-- n on int64.
unfoldable pub i64 : ℕ → ℤ
i64 n = let m = n % 2 ^ 64 in if ltb m (2 ^ 63) then pos m else negsuc (2 ^ 64 - 1 - m)

-- time.Duration(z) * time.Second, for z in int64.
unfoldable pub seconds : ℤ → ℤ
unfolding i64
seconds (pos n) = i64 (n * 1000000000)
seconds (negsuc n) = i64 (2 ^ 64 - ((n + 1) * 1000000000) % 2 ^ 64)

pub record Server : Type 0 where
  pub addr_ : Text
  pub addr : Option UdpAddr

unfoldable pub server_validate : Env → Server → Checked Server
unfolding validate_addr
server_validate env s =
    let r = validate_addr env s.addr_ true in
    record { value = record s { addr = stored r }; errors = error_of r }

pub record Socks5 : Type 0 where
  pub listen_ : Text
  pub username : Text
  pub password : Text
  pub listen : Option UdpAddr

unfoldable pub socks5_validate : Env → Socks5 → Checked Socks5
unfolding validate_addr
socks5_validate env c =
    let r = validate_addr env c.listen_ true in
    record { value = record c { listen = stored r }; errors = error_of r }

pub record Forward : Type 0 where
  pub listen_ : Text
  pub target_ : Text
  pub protocol : Text
  pub listen : Option UdpAddr
  pub target : Option Addr

unfoldable pub forward_validate : Env → Forward → Checked Forward
unfolding validate_addr new_addr
forward_validate env c =
    let l = validate_addr env c.listen_ true in
    let t = new_addr env c.target_ in
    record {
      value = record c { listen = stored l; target = stored t };
      errors = error_of l ++ error_of t;
    }

pub record Log : Type 0 where
  pub level_ : Text
  pub level : ℤ

abbrev pub log_set_defaults : Log → Log
log_set_defaults l = record l { level_ = or_text l.level_ (codes "none") }

unfoldable pub log_level : Text → Option ℤ
log_level s =
    if str_eq s (codes "none")
    then some (negsuc 0)
    else if str_eq s (codes "debug")
    then some (pos 0)
    else if str_eq s (codes "info")
    then some (pos 1)
    else if str_eq s (codes "warn")
    then some (pos 2)
    else if str_eq s (codes "error")
    then some (pos 3)
    else if str_eq s (codes "fatal")
    then some (pos 4)
    else none

unfoldable pub log_validate : Log → Checked Log
unfolding log_level
log_validate l = elim (log_level l.level_) [
  | some n ↦ record { value = record l { level = n }; errors = [] }
  | none ↦ record { value = l; errors = invalid_level ∷ [] }
]

pub record Pcap : Type 0 where
  pub sockbuf : ℤ

abbrev pub is_server : Text → Bool
is_server role = str_eq role (codes "server")

unfoldable pub pcap_set_defaults : Text → Pcap → Pcap
pcap_set_defaults role p = record {
  sockbuf = or_default p.sockbuf (if is_server role then 8 * 1024 * 1024 else 4 * 1024 * 1024);
}

-- A size that is no power of two is logged only.
unfoldable pub pcap_validate : Pcap → List Error
pcap_validate p =
    check (ltb_ℤ p.sockbuf (pos 1024)) sockbuf_small
    ++ check (ltb_ℤ (pos (100 * 1024 * 1024)) p.sockbuf) sockbuf_large
