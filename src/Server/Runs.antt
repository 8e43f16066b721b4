-- ===== src/Server/Runs.antt =====
-- One client that names two flag sets, pings, and leaves.
use paqet.Prelude.{
  ℕ, ◌≡◌, refl, true, List, [], ◌∷◌, ◌++◌, none, some, ◌==◌, if◌then◌else◌, arith, u32,
}
use paqet.Prelude.Int.{pos}
use paqet.Prelude.Assoc.{lookup, insert, delete}
use paqet.Flags.{TcpFlags, no_flags}
use paqet.Protocol.{ok, p_tcpf, frame, read}
use paqet.Address.{UdpAddr, udp, key, ip_addr, to4, to16, big_endian}
use paqet.Send.{ConnState, SendHandle, Packet, next_tcpf, set_client_tcpf, clear_client_tcpf, write}
use paqet.Iterator.{next, slot}
use paqet.Server.{Event, strm, ends, writes, observes, done, handle_strm, conn_event, conn_events}
use paqet.Server.Handshake.{handle_strm-tcpf}
use paqet.Server.Session.{conn_events-ends}

abbrev syn : TcpFlags
syn = record no_flags { syn = true }

abbrev ack : TcpFlags
ack = record no_flags { ack = true }

abbrev client : UdpAddr
client = record { ip = 10 ∷ 0 ∷ 0 ∷ 1 ∷ []; port = pos 443 }

abbrev client_key : ℕ
client_key = 10995116343739

is_client_key : key client ≡ some client_key
unfolding ip_addr to4 to16 big_endian
is_client_key = refl

abbrev handle : SendHandle
handle = record {
  src_ipv4 = 10 ∷ 0 ∷ 0 ∷ 2 ∷ [];
  src_ipv4_rhwa = 1 ∷ 2 ∷ 3 ∷ 4 ∷ 5 ∷ 6 ∷ [];
  src_ipv6 = [];
  src_ipv6_rhwa = [];
  src_mac = 6 ∷ 5 ∷ 4 ∷ 3 ∷ 2 ∷ 1 ∷ [];
  src_port = 9999;
  start_ms = 1000;
  ts_counter = 0;
  tcp_f = record { items = ack ∷ []; index = 0 };
  client_tcpf = [];
  conn_states = [];
}

handle_strm-tcpf_example :
    (bs : List ℕ) × (h' : SendHandle) × (frame
        (record { type = p_tcpf; addr = none; tcpf = syn ∷ ack ∷ [] })
      ≡ ok bs)
    × (handle_strm handle (udp client) bs ≡ record { send = h'; written = []; outcome = done })
    × ((next_tcpf h' client_key).0 ≡ some syn)
    × ((j : ℕ)
        → lookup j h'.client_tcpf ≡ (
            if client_key == j
            then some (record { items = syn ∷ ack ∷ []; index = 0 })
            else lookup j handle.client_tcpf))
handle_strm-tcpf_example =
    handle_strm-tcpf handle client client_key syn (ack ∷ []) is_client_key (omega arith)

framed : (bs : List ℕ) × (frame (record { type = p_tcpf; addr = none; tcpf = syn ∷ [] }) ≡ ok bs)
unfolding frame
framed = (_, refl)

abbrev before : List Event
before = strm framed.0 ∷ []

-- A packet that the Close of the connection writes.
last :
    (r : Packet × SendHandle) × (write
        (conn_events handle (udp client) (before ++ (ends ∷ [])))
        (80 ∷ 81 ∷ [])
        client
        7
        8
      ≡ some r)
unfolding conn_events conn_event handle_strm framed frame read clear_client_tcpf set_client_tcpf
    write ip_addr to4 to16 big_endian lookup insert delete next slot
last = (_, refl)

conn_events-ends_example :
    ((lookup client_key (conn_events handle (udp client) (before ++ (ends ∷ []))).client_tcpf
        ≡ none)
      × (lookup client_key (conn_events handle (udp client) (before ++ (ends ∷ []))).conn_states
          ≡ none))
    × (lookup client_key
          (conn_events handle (udp client) (before ++ (ends ∷ strm framed.0 ∷ []))).client_tcpf
        ≡ some (record { items = syn ∷ []; index = 0 }))
    × ((last.0.0.tcp.seq ≡ u32 7)
        × ((cs : ConnState) × (lookup client_key
                (conn_events handle
                  (udp client)
                  (before ++ (ends ∷ writes (80 ∷ 81 ∷ []) 7 8 ∷ []))).conn_states
              ≡ some cs)))
    × ((cs : ConnState) × (lookup client_key
            (conn_events handle (udp client) (before ++ (ends ∷ observes 41 7 8 ∷ []))).conn_states
          ≡ some cs)
        × (cs.has_peer ≡ true)
        × (cs.peer_seq ≡ 41))
conn_events-ends_example =
    conn_events-ends before handle client client_key syn [] framed.0 (80 ∷ 81 ∷ []) 7 8 41 last.0
      is_client_key (omega arith) framed.1 last.1
