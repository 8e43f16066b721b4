-- ===== src/Socks/Reply.antt =====
-- A SOCKS5 client reads the reply as RFC 1928 says.
use paqet.Prelude.{
  ℕ, ◌+◌, ◌*◌, ◌/◌, ◌%◌, ◌≤◌, ◌<◌, ◌≡◌, ap, ◌∙◌, sym, Bool, true, ◌&&◌, List, [], ◌∷◌, ◌++◌, Option,
  none, some, inl, inr, Bool-cases, Option-cases, ◌==◌, if◌then◌else◌, arith, length, take, drop,
  length-drop,
}
use mathlib.Core.Path.{subst}
use mathlib.Core.List.{append_assoc}
use paqet.Prelude.Maybe.{some_equal}
use paqet.Prelude.Text.{Text, str_eq}
use paqet.Protocol.{Result, ok, err, read_full}
use paqet.Protocol.RoundTrip.{read_full-append}
use paqet.Address.{to4, to16, v4_in_v6}
use paqet.Conf.{Env}
use paqet.Client.Streams.{Client, Turn}
use paqet.Socks.{TcpAddr, reply, tcp_handle, udp_associate, connect}

-- BND.ADDR
pub data Bound : Type 0 where
  ipv4 ipv6 domain : List ℕ → Bound

abbrev port_of : (List ℕ → Bound) → List ℕ × List ℕ → Option (Bound × ℕ × List ℕ)
port_of bound (addr, hi ∷ lo ∷ rest) = some (bound addr, hi * 256 + lo, rest)
port_of bound (addr, _) = none

abbrev bound_of : (List ℕ → Bound) → Result (List ℕ × List ℕ) → Option (Bound × ℕ × List ℕ)
bound_of bound (ok x) = port_of bound x
bound_of bound (err e) = none

abbrev domain_of : List ℕ → Option (Bound × ℕ × List ℕ)
domain_of [] = none
domain_of (n ∷ r) = bound_of domain (read_full n r)

-- A reply of success: its address and port, and the bytes that follow it.
unfoldable pub decode : List ℕ → Option (Bound × ℕ × List ℕ)
decode (ver ∷ rep ∷ rsv ∷ atyp ∷ r) =
    if ver == 5 && (rep == 0 && rsv == 0)
    then (if atyp == 1
        then bound_of ipv4 (read_full 4 r)
        else if atyp == 3
        then domain_of r
        else if atyp == 4
        then bound_of ipv6 (read_full 16 r)
        else none)
    else none
decode _ = none

abbrev first_of : Option (List ℕ) → Option (List ℕ) → List ℕ → Bound
first_of (some ip4) ip16 host = ipv4 ip4
first_of none (some ip6) host = ipv6 ip6
first_of none none host = domain host

-- The address that the reply is to carry.
abbrev pub expected : (List ℕ → List ℕ) → List ℕ → Bound
expected ip_string ip = first_of (to4 ip) (to16 ip) (ip_string ip)

read_full_exact : (n : ℕ) (bs r : List ℕ) → length bs ≡ n → read_full n (bs ++ r) ≡ ok (bs, r)
read_full_exact n bs r e = subst (λ n. read_full n (bs ++ r) ≡ ok (bs, r)) e (read_full-append bs r)

length-drop_12 : (xs : List ℕ) → length xs ≡ 16 → length (drop 12 xs) ≡ 4
length-drop_12 xs h = omega (arith, h, length-drop 12 xs)

length-to4 : (ip ip4 : List ℕ) → to4 ip ≡ some ip4 → length ip4 ≡ 4
unfolding to4
length-to4 ip ip4 = elim (Bool-cases (length ip == 4)) [
  | inl a ↦ rw a (λ e. ground (arith, a, some_equal e))
  | inr a ↦ rw a (elim (Bool-cases (length ip == 16 && str_eq (take 12 ip) v4_in_v6)) [
    | inl b ↦ rw b (λ e. ap length (sym (some_equal e)) ∙ length-drop_12 ip (ground (arith, b)))
    | inr b ↦ rw b (λ e. cc)
  ])
]

length-to16 : (ip ip6 : List ℕ) → to4 ip ≡ none → to16 ip ≡ some ip6 → length ip6 ≡ 16
unfolding to4 to16
length-to16 ip ip6 = elim (Bool-cases (length ip == 4)) [
  | inl a ↦ rw a (λ n e. cc)
  | inr a ↦ rw a (elim (Bool-cases (length ip == 16)) [
    | inl b ↦ rw b (λ n e. ground (arith, b, some_equal e))
    | inr b ↦ rw b (λ n e. cc)
  ])
]

port_lem :
    (bound : List ℕ → Bound) (addr rest : List ℕ) (port : ℕ)
    → port < 65536
    → port_of bound (addr, port / 256 % 256 ∷ port % 256 ∷ rest) ≡ some (bound addr, port, rest)
port_lem bound addr rest port h = ap (λ p. some (bound addr, p, rest)) (omega (arith, h))

exact :
    (bound : List ℕ → Bound) (n : ℕ) (addr rest : List ℕ) (port : ℕ)
    → length addr ≡ n
    → port < 65536
    → bound_of bound (read_full n ((addr ++ (port / 256 % 256 ∷ port % 256 ∷ [])) ++ rest))
      ≡ some (bound addr, port, rest)
exact bound n addr rest port e h =
    let ports : List ℕ = port / 256 % 256 ∷ port % 256 ∷ [] in
    ap (λ x. bound_of bound (read_full n x)) (append_assoc addr ports rest)
    ∙ ap (bound_of bound) (read_full_exact n addr (ports ++ rest) e)
    ∙ port_lem bound addr rest port h

decode-reply :
    (ip_string : List ℕ → List ℕ) (laddr : TcpAddr) (rest : List ℕ)
    → laddr.port < 65536
    → length (ip_string laddr.ip) ≤ 255
    → decode (reply ip_string laddr ++ rest) ≡ some (expected ip_string laddr.ip, laddr.port, rest)
unfolding decode reply
decode-reply ip_string laddr rest h l = elim (Option-cases (to4 laddr.ip)) [
  | inr (ip4, e) ↦ rw e (exact ipv4 4 ip4 rest laddr.port (length-to4 laddr.ip ip4 e) h)
  | inl e ↦ rw e (elim (Option-cases (to16 laddr.ip)) [
    | inr (ip6, e') ↦ rw e' (exact ipv6 16 ip6 rest laddr.port (length-to16 laddr.ip ip6 e e') h)
    | inl e' ↦ rw e' (exact domain _ (ip_string laddr.ip) rest laddr.port (omega (arith, l)) h)
  ])
]

-- Where the port fits 16 bits and what IP.String prints has at most 255 bytes, a client that reads
-- the reply to CONNECT or UDP ASSOCIATE as RFC 1928 says gets the local address of its connection
-- (as IPv4 if it is one, even mapped into IPv6) and the port, and has all that follows still to
-- read.
pub decode-tcp_handle :
    (ip_string : List ℕ → List ℕ) (env : Env) (w : ℕ → Turn) (strm_writes : Bool) (c : Client)
    (laddr : TcpAddr) (target : Text) (rest : List ℕ)
    → laddr.port < 65536
    → length (ip_string laddr.ip) ≤ 255
    → (decode ((tcp_handle ip_string env w true strm_writes c connect laddr target).0 ++ rest)
        ≡ some (expected ip_string laddr.ip, laddr.port, rest))
      × (decode
            ((tcp_handle ip_string env w true strm_writes c udp_associate laddr target).0 ++ rest)
          ≡ some (expected ip_string laddr.ip, laddr.port, rest))
unfolding tcp_handle
decode-tcp_handle ip_string env w strm_writes c laddr target rest h l =
    let d = decode-reply ip_string laddr rest h l in (d, d)
