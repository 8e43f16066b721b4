-- ===== src/Address.antt =====
-- Network addresses as the code uses them: net.IP (its bytes), net.UDPAddr, and the map key of
-- internal/pkg/hash/ip_addr.go.
pub mod Key
mod Runs
use Prim.Native.Nat.{bit_or, bit_xor}
use paqet.Prelude.{
  ℕ, ◌+◌, ◌*◌, ◌%◌, ◌^◌, Bool, true, false, ◌&&◌, List, [], ◌∷◌, ◌++◌, Option, none, some, ◌==◌,
  if◌then◌else◌, length, take, drop,
}
use paqet.Prelude.Text.{str_eq}
use paqet.Prelude.Int.{ℤ, u16_of_ℤ}

pub record UdpAddr : Type 0 where
  pub ip : List ℕ
  pub port : ℤ

-- A net.Addr: a *net.UDPAddr that may be nil, or another implementation.
pub data NetAddr : Type 0 where
  udp : UdpAddr → NetAddr
  nil_udp other : NetAddr

-- The prefix of an IPv4 address in sixteen bytes.
abbrev pub v4_in_v6 : List ℕ
v4_in_v6 = 0 ∷ 0 ∷ 0 ∷ 0 ∷ 0 ∷ 0 ∷ 0 ∷ 0 ∷ 0 ∷ 0 ∷ 0xff ∷ 0xff ∷ []

-- net.IP's To4 and To16; `none` is nil.
unfoldable pub to4 : List ℕ → Option (List ℕ)
to4 ip =
    if length ip == 4
    then some ip
    else if length ip == 16 && str_eq (take 12 ip) v4_in_v6
    then some (drop 12 ip)
    else none

unfoldable pub to16 : List ℕ → Option (List ℕ)
to16 ip =
    if length ip == 4 then some (v4_in_v6 ++ ip) else if length ip == 16 then some ip else none

-- binary.BigEndian's Uint32 and Uint64, of a slice of that length.
unfoldable pub big_endian : ℕ → List ℕ → ℕ
big_endian acc [] = acc
big_endian acc (b ∷ bs) = big_endian (acc * 256 + b) bs

-- hash.IPAddr of an address and a uint16 port; `none` is the panic of slicing nil.
unfoldable pub ip_addr : List ℕ → ℕ → Option ℕ
unfolding to16 big_endian
ip_addr ip port =
    if length ip == 4
    then some (bit_or (big_endian 0 ip * 2 ^ 16 % 2 ^ 64) port)
    else (elim (to16 ip) [
      | none ↦ none
      | some ip16 ↦ some (
          bit_xor (bit_xor (big_endian 0 (take 8 ip16)) (big_endian 0 (drop 8 ip16)))
            (port * 2 ^ 48 % 2 ^ 64))
    ])

-- The key of an address, as its callers compute it.
abbrev pub key : UdpAddr → Option ℕ
key a = ip_addr a.ip (u16_of_ℤ a.port)
