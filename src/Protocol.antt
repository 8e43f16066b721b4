-- ===== src/Protocol.antt =====
-- The control messages of internal/protocol/protocol.go, and the address of internal/tnet/addr.go.
-- A stream is the bytes that can still be read from it before its end; a Go string of bytes is the
-- list of them. `frame` gives what Write hands to the stream's Write in its one call.
pub mod RoundTrip
pub mod Kept
mod Runs
use paqet.Prelude.{
  ℕ, zero, suc, ◌+◌, ◌*◌, ◌/◌, ◌%◌, List, [], ◌∷◌, ◌++◌, Option, none, some, u8, u16, ltb, ◌==◌,
  if◌then◌else◌, length, replicate,
}
use paqet.Prelude.Int.{ℤ, pos, u16_of_ℤ}
use paqet.Flags.{TcpFlags, no_flags, to_word, from_word}

-- tnet.Addr: the port is an int.
pub record Addr : Type 0 where
  pub host : List ℕ
  pub port : ℤ

abbrev pub p_ping : ℕ
p_ping = 0x01

abbrev pub p_pong : ℕ
p_pong = 0x02

abbrev pub p_tcpf : ℕ
p_tcpf = 0x03

abbrev pub p_tcp : ℕ
p_tcp = 0x04

abbrev pub p_udp : ℕ
p_udp = 0x05

pub record Proto : Type 0 where
  pub type : ℕ
  pub addr : Option Addr
  pub tcpf : List TcpFlags

-- `var p protocol.Proto`
abbrev pub zero_proto : Proto
zero_proto = record { type = 0; addr = none; tcpf = [] }

pub data Error : Type 0 where
  eof unexpected_eof unknown_type host_too_long : Error
  -- a nil pointer is read
  nil_deref : Error

pub data Result {ℓ} (A : Type ℓ) : Type ℓ where
  ok : A → Result A
  err : Error → Result A

-- io.ReadFull into a buffer of n bytes: the bytes, and what is left to read.
pub read_full : ℕ → List ℕ → Result (List ℕ × List ℕ)
read_full zero r = ok ([], r)
read_full (suc n) [] = err eof
read_full (suc n) (b ∷ r) = elim (read_full n r) [
  | ok (bs, r') ↦ ok (b ∷ bs, r')
  | err e ↦ err unexpected_eof
]

-- binary.BigEndian
abbrev pub put_uint16 : ℕ → List ℕ
put_uint16 v = (v / 256 % 256) ∷ (v % 256) ∷ []

abbrev pub uint16 : ℕ → ℕ → ℕ
uint16 hi lo = hi * 256 + lo

-- The loop over the flags words.
pub read_words : List ℕ → List TcpFlags
read_words [] = []
read_words (hi ∷ []) = []
read_words (hi ∷ lo ∷ raw) = from_word (uint16 hi lo) ∷ read_words raw

pub words : List TcpFlags → List ℕ
words [] = []
words (f ∷ fs) = put_uint16 (to_word f) ++ words fs

-- What Read leaves: the message, the bytes still unread, and its error.
abbrev pub Read : Type 0
Read = Proto × List ℕ × Option Error

-- A failed ReadFull has taken what there was.
read_host : Proto → ℕ → ℕ → List ℕ → Read
read_host p port host_len r = elim (read_full host_len r) [
  | ok (host, r') ↦ (record p { addr = some (record { host = host; port = pos port }) }, r', none)
  | err e ↦ (p, [], some e)
]

-- The cases of the lead's three bytes; `read_full 3` gives no other list.
read_lead : Proto → Result (List ℕ × List ℕ) → Read
unfolding read_host
read_lead p (ok (hi ∷ lo ∷ host_len ∷ [], r)) = read_host p (uint16 hi lo) host_len r
read_lead p (ok (_, r)) = (p, r, none)
read_lead p (err e) = (p, [], some e)

-- On a short read `p.TCPF` is already the slice of n zero values.
read_flags : Proto → ℕ → List ℕ → Read
read_flags p n r = elim (read_full (n * 2) r) [
  | ok (raw, r') ↦ (record p { tcpf = read_words raw }, r', none)
  | err e ↦ (record p { tcpf = replicate n no_flags }, [], some e)
]

read_count : Proto → List ℕ → Read
unfolding read_flags
read_count p [] = (p, [], some eof)
read_count p (n ∷ r) = read_flags p n r

read_body : Proto → List ℕ → Read
unfolding read_lead read_full read_count
read_body p r =
    if p.type == p_ping
    then (p, r, none)
    else if p.type == p_pong
    then (p, r, none)
    else if p.type == p_tcp
    then read_lead p (read_full 3 r)
    else if p.type == p_udp
    then read_lead p (read_full 3 r)
    else if p.type == p_tcpf
    then read_count p r
    else (p, r, some unknown_type)

unfoldable pub read : Proto → List ℕ → Read
unfolding read_body read_words
read p [] = (p, [], some eof)
read p (t ∷ r) = read_body (record p { type = t }) r

frame_addr : ℕ → Option Addr → Result (List ℕ)
frame_addr t none = err nil_deref
frame_addr t (some a) =
    if ltb 255 (length a.host)
    then err host_too_long
    else ok (t ∷ (put_uint16 (u16_of_ℤ a.port) ++ (u8 (length a.host) ∷ a.host)))

unfoldable pub frame : Proto → Result (List ℕ)
unfolding frame_addr words
frame p =
    if p.type == p_ping
    then ok (p.type ∷ [])
    else if p.type == p_pong
    then ok (p.type ∷ [])
    else if p.type == p_tcp
    then frame_addr p.type p.addr
    else if p.type == p_udp
    then frame_addr p.type p.addr
    else if p.type == p_tcpf
    then ok (p.type ∷ u8 (length p.tcpf) ∷ words p.tcpf)
    else err unknown_type
