-- ===== src/Send/Runs.antt =====
-- A handle with one client, sending two packets.
use paqet.Prelude.{ℕ, ◌+◌, ◌≡◌, refl, true, false, List, [], ◌∷◌, some, arith, u32}
use paqet.Prelude.Assoc.{lookup, insert}
use paqet.Flags.{TcpFlags, no_flags}
use paqet.Iterator.{next, slot}
use paqet.Address.{UdpAddr, udp, key, ip_addr, to4, to16, big_endian}
use paqet.Send.{
  ConnState, SendHandle, Packet, observe_peer_syn, build_tcp_header, write, clear_client_tcpf,
}
use paqet.Send.Header.{build_tcp_header_lem, timestamps_of}
use paqet.Send.Sequence.{Call, writes, IsStream, writes-IsStream, write-observe_peer_syn}
use paqet.Prelude.Int.{pos}

abbrev syn_ack : TcpFlags
syn_ack = record no_flags { syn = true; ack = true }

abbrev peer : UdpAddr
peer = record { ip = 10 ∷ 0 ∷ 0 ∷ 1 ∷ []; port = pos 443 }

abbrev peer_key : ℕ
peer_key = 10995116343739

abbrev state : ConnState
state = record { seq = 7; ack = 8; peer_seq = 0; has_peer = false }

abbrev handle : SendHandle
handle = record {
  src_ipv4 = 10 ∷ 0 ∷ 0 ∷ 2 ∷ [];
  src_ipv4_rhwa = 1 ∷ 2 ∷ 3 ∷ 4 ∷ 5 ∷ 6 ∷ [];
  src_ipv6 = [];
  src_ipv6_rhwa = [];
  src_mac = 6 ∷ 5 ∷ 4 ∷ 3 ∷ 2 ∷ 1 ∷ [];
  src_port = 9999;
  start_ms = 1000;
  ts_counter = 0;
  tcp_f = record { items = syn_ack ∷ []; index = 0 };
  client_tcpf = (peer_key, record { items = syn_ack ∷ []; index = 0 }) ∷ [];
  conn_states = (peer_key, state) ∷ [];
}

is_peer_key : key peer ≡ some peer_key
unfolding ip_addr to4 to16 big_endian
is_peer_key = refl

abbrev call : Call
call = record { payload = 1 ∷ 2 ∷ 3 ∷ []; addr = peer; rand_seq = 0; rand_ack = 0 }

build_tcp_header_lem_example :
    ((build_tcp_header handle 443 syn_ack 5 6 7 8).seq ≡ 5)
    × ((build_tcp_header handle 443 syn_ack 5 6 7 8).ack ≡ 6)
    × (timestamps_of (build_tcp_header handle 443 syn_ack 5 6 7 8).options ≡ some (7, 8))
build_tcp_header_lem_example =
    build_tcp_header_lem handle 443 syn_ack 5 6 7 8 (omega arith) (omega arith)

-- The packets of two calls, and what is left.
sent : (r : List (ℕ × Packet) × SendHandle) × (writes handle (call ∷ call ∷ []) ≡ some r)
unfolding writes write ip_addr to4 to16 big_endian lookup next slot insert
sent = (_, refl)

writes-IsStream_example : IsStream peer_key 7 sent.0.0
unfolding lookup
writes-IsStream_example =
    writes-IsStream (call ∷ call ∷ []) handle peer_key state sent.0 (omega arith, (omega arith, tt))
      refl sent.1

observed : (h : SendHandle) × (observe_peer_syn handle (udp peer) 41 0 0 ≡ some h)
unfolding observe_peer_syn ip_addr to4 to16 big_endian
observed = (_, refl)

cleared : (h : SendHandle) × (clear_client_tcpf handle (udp peer) ≡ some h)
unfolding clear_client_tcpf ip_addr to4 to16 big_endian
cleared = (_, refl)

answered :
    (r : Packet × SendHandle) × (write observed.0 [] peer 0 0 ≡ some r)
    × (r.0.tcp.flags.syn ≡ true)
    × (r.0.tcp.flags.ack ≡ true)
unfolding write observed ip_addr to4 to16 big_endian lookup next slot
answered = (_, refl, refl, refl)

write-observe_peer_syn_example : answered.0.0.tcp.ack ≡ u32 (41 + 1)
write-observe_peer_syn_example =
    write-observe_peer_syn handle observed.0 peer 41 0 0 peer_key [] 0 0 answered.0 is_peer_key
      observed.1 answered.1 answered.2 answered.3
