-- ===== src/Send.antt =====
-- internal/socket/send_handle.go: the sequence state per destination, the flags per client, and the
-- packet that Write hands to gopacket and pcap (both outside the repository). Each method is one
-- sequential step; a lock's critical section is part of it. The sync pools only reuse memory and
-- have no counterpart: each layer is written whole before its use. `none` is a panic.
pub mod Header
pub mod Maps
pub mod Others
pub mod Sequence
pub mod Clients
mod Runs
use paqet.Prelude.{
  ℕ, ◌+◌, ◌-◌, ◌/◌, ◌%◌, ◌^◌, Bool, true, false, ◌&&◌, ◌||◌, List, [], ◌∷◌, ◌++◌, Option, none,
  some, ◌==◌, if◌then◌else◌, length, u16, u32,
}
use paqet.Prelude.Assoc.{lookup, insert, delete}
use paqet.Prelude.Int.{u16_of_ℤ}
use paqet.Flags.{TcpFlags}
use paqet.Iterator.{Iterator, next}
use paqet.Address.{UdpAddr, NetAddr, udp, nil_udp, other, to4, ip_addr, key}

pub record ConnState : Type 0 where
  pub seq : ℕ
  pub ack : ℕ
  pub peer_seq : ℕ
  pub has_peer : Bool

pub record SendHandle : Type 0 where
  pub src_ipv4 : List ℕ
  pub src_ipv4_rhwa : List ℕ
  pub src_ipv6 : List ℕ
  pub src_ipv6_rhwa : List ℕ
  pub src_mac : List ℕ
  pub src_port : ℕ
  pub start_ms : ℕ
  pub ts_counter : ℕ
  pub tcp_f : Iterator TcpFlags
  pub client_tcpf : List (ℕ × Iterator TcpFlags)
  pub conn_states : List (ℕ × ConnState)

-- layers.TCPOption
pub record TcpOption : Type 0 where
  pub kind : ℕ
  pub len : ℕ
  pub content : List ℕ

-- layers.TCP, with the fields that the code sets
pub record TcpHeader : Type 0 where
  pub src_port : ℕ
  pub dst_port : ℕ
  pub flags : TcpFlags
  pub window : ℕ
  pub seq : ℕ
  pub ack : ℕ
  pub options : List TcpOption

pub record Ipv4Header : Type 0 where
  pub version : ℕ
  pub ihl : ℕ
  pub tos : ℕ
  pub ttl : ℕ
  pub dont_fragment : Bool
  pub protocol : ℕ
  pub src_ip : List ℕ
  pub dst_ip : List ℕ

pub record Ipv6Header : Type 0 where
  pub version : ℕ
  pub traffic_class : ℕ
  pub hop_limit : ℕ
  pub next_header : ℕ
  pub src_ip : List ℕ
  pub dst_ip : List ℕ

pub data IpLayer : Type 0 where
  ipv4 : Ipv4Header → IpLayer
  ipv6 : Ipv6Header → IpLayer

pub record Packet : Type 0 where
  pub src_mac : List ℕ
  pub dst_mac : List ℕ
  pub ethernet_type : ℕ
  pub ip : IpLayer
  pub tcp : TcpHeader
  pub payload : List ℕ

-- The two random numbers are used only if the entry is new.
unfoldable pub get_or_create_conn_state : SendHandle → ℕ → ℕ → ℕ → ConnState × SendHandle
get_or_create_conn_state h k rand_seq rand_ack = elim (lookup k h.conn_states) [
  | some cs ↦ (cs, h)
  | none ↦
      let cs : ConnState = record {
        seq = u32 rand_seq;
        ack = u32 rand_ack;
        peer_seq = 0;
        has_peer = false;
      } in
      (cs, record h { conn_states = insert k cs h.conn_states })
]

pub observe_at : SendHandle → ℕ → ℕ → ℕ → ℕ → SendHandle
unfolding get_or_create_conn_state
observe_at h k seq rand_seq rand_ack =
    let (cs, h') = get_or_create_conn_state h k rand_seq rand_ack in
    record h' {
      conn_states = insert k (record cs { peer_seq = seq; has_peer = true }) h'.conn_states;
    }

unfoldable pub observe_peer_syn : SendHandle → NetAddr → ℕ → ℕ → ℕ → Option SendHandle
unfolding observe_at
observe_peer_syn h (udp a) seq rand_seq rand_ack = elim (key a) [
  | none ↦ none
  | some k ↦ some (observe_at h k seq rand_seq rand_ack)
]
observe_peer_syn h nil_udp seq rand_seq rand_ack = some h
observe_peer_syn h other seq rand_seq rand_ack = some h

unfoldable pub build_ipv4_header : SendHandle → List ℕ → Ipv4Header
build_ipv4_header h dst = record {
  version = 4;
  ihl = 5;
  tos = 184;
  ttl = 64;
  dont_fragment = true;
  protocol = 6;
  src_ip = h.src_ipv4;
  dst_ip = dst;
}

unfoldable pub build_ipv6_header : SendHandle → List ℕ → Ipv6Header
build_ipv6_header h dst = record {
  version = 6;
  traffic_class = 184;
  hop_limit = 64;
  next_header = 6;
  src_ip = h.src_ipv6;
  dst_ip = dst;
}

-- binary.BigEndian.PutUint32
abbrev pub put_uint32 : ℕ → List ℕ
put_uint32 v = (v / 2 ^ 24 % 256) ∷ (v / 2 ^ 16 % 256) ∷ (v / 256 % 256) ∷ (v % 256) ∷ []

abbrev pub nop : TcpOption
nop = record { kind = 1; len = 0; content = [] }

abbrev pub timestamps : ℕ → ℕ → TcpOption
timestamps val ecr = record { kind = 8; len = 10; content = put_uint32 val ++ put_uint32 ecr }

unfoldable pub build_tcp_header : SendHandle → ℕ → TcpFlags → ℕ → ℕ → ℕ → ℕ → TcpHeader
build_tcp_header h dst_port f seq ack ts_val ts_ecr =
    let tcp : TcpHeader = record {
      src_port = h.src_port;
      dst_port = dst_port;
      flags = f;
      window = 65535;
      seq = seq;
      ack = ack;
      options = [];
    } in
    if f.syn
    then record tcp {
      ack = (if f.ack then ack else 0);
      options =
          record { kind = 2; len = 4; content = 0x05 ∷ 0xb4 ∷ [] }
          ∷ record { kind = 4; len = 2; content = [] }
          ∷ timestamps ts_val (if f.ack then ts_ecr else 0)
          ∷ nop
          ∷ record { kind = 3; len = 3; content = 7 ∷ [] }
          ∷ [];
    }
    else record tcp { options = nop ∷ nop ∷ timestamps ts_val ts_ecr ∷ [] }

-- What a packet takes of the sequence space.
unfoldable pub advance_of : TcpFlags → List ℕ → ℕ
advance_of f payload =
    let advance = u32 (length payload) in if advance == 0 || (f.syn || f.fin) then 1 else advance

unfoldable pub advance_state : ConnState → ℕ → ConnState
advance_state cs advance = record cs {
  seq = u32 (cs.seq + advance);
  ack = u32 (cs.ack + u32 (advance / 2 + 1));
}

unfoldable pub ack_of : ConnState → TcpFlags → ℕ
ack_of cs f = if f.syn && (f.ack && cs.has_peer) then u32 (cs.peer_seq + 1) else cs.ack

-- Next on the client's iterator, if there is one, else on the shared one; `none` if it is empty.
unfoldable pub next_tcpf : SendHandle → ℕ → Option TcpFlags × SendHandle
next_tcpf h k = elim (lookup k h.client_tcpf) [
  | some it ↦ let (f, it') = next it in (f, record h { client_tcpf = insert k it' h.client_tcpf })
  | none ↦ let (f, it') = next h.tcp_f in (f, record h { tcp_f = it' })
]

packet_of : SendHandle → List ℕ → TcpHeader → List ℕ → Packet
unfolding build_ipv4_header build_ipv6_header
packet_of h dst tcp payload = elim (to4 dst) [
  | some _ ↦ record {
    src_mac = h.src_mac;
    dst_mac = h.src_ipv4_rhwa;
    ethernet_type = 0x0800;
    ip = ipv4 (build_ipv4_header h dst);
    tcp = tcp;
    payload = payload;
  }
  | none ↦ record {
    src_mac = h.src_mac;
    dst_mac = h.src_ipv6_rhwa;
    ethernet_type = 0x86dd;
    ip = ipv6 (build_ipv6_header h dst);
    tcp = tcp;
    payload = payload;
  }
]

-- Write from the flags on.
pub emit : SendHandle → ℕ → TcpFlags → List ℕ → UdpAddr → ℕ → ℕ → Packet × SendHandle
unfolding packet_of advance_of advance_state ack_of build_tcp_header get_or_create_conn_state
emit h k f payload a rand_seq rand_ack =
    let (cs, h') = get_or_create_conn_state h k rand_seq rand_ack in
    let counter = u32 (h'.ts_counter + 1) in
    let ts_val = u32 (h'.start_ms + counter) in
    let ts_ecr = (ts_val + 2 ^ 32 - 100) % 2 ^ 32 in
    let tcp = build_tcp_header h' (u16_of_ℤ a.port) f cs.seq (ack_of cs f) ts_val ts_ecr in
    (
      packet_of h' a.ip tcp payload,
      record h' {
        ts_counter = counter;
        conn_states = insert k (advance_state cs (advance_of f payload)) h'.conn_states;
      },
    )

with_flags :
    Option TcpFlags × SendHandle → ℕ → List ℕ → UdpAddr → ℕ → ℕ → Option (Packet × SendHandle)
unfolding emit
with_flags (none, h) k payload a rand_seq rand_ack = none
with_flags (some f, h) k payload a rand_seq rand_ack = some (emit h k f payload a rand_seq rand_ack)

-- Write up to SerializeLayers and WritePacketData, whose errors it returns.
unfoldable pub write : SendHandle → List ℕ → UdpAddr → ℕ → ℕ → Option (Packet × SendHandle)
unfolding with_flags next_tcpf
write h payload a rand_seq rand_ack = elim (key a) [
  | none ↦ none
  | some k ↦ with_flags (next_tcpf h k) k payload a rand_seq rand_ack
]

unfoldable pub set_client_tcpf : SendHandle → NetAddr → List TcpFlags → Option SendHandle
set_client_tcpf h (udp a) f = elim (key a) [
  | none ↦ none
  | some k ↦
      some (record h { client_tcpf = insert k (record { items = f; index = 0 }) h.client_tcpf })
]
set_client_tcpf h nil_udp f = none
set_client_tcpf h other f = none

unfoldable pub clear_client_tcpf : SendHandle → NetAddr → Option SendHandle
clear_client_tcpf h (udp a) = elim (key a) [
  | none ↦ none
  | some k ↦
      some (record h { client_tcpf = delete k h.client_tcpf; conn_states = delete k h.conn_states })
]
clear_client_tcpf h nil_udp = some h
clear_client_tcpf h other = some h
