-- ===== src/Socket/Runs.antt =====
-- Two payloads that wait in recvCh at the same time, and a packet answered over a wire of numbers.
use paqet.Prelude.{
  All, ℕ, ◌+◌, ◌≡◌, refl, Bool, true, false, List, [], ◌∷◌, ◌++◌, none, some, ◌==◌, if◌then◌else◌,
  arith, u32, length,
}
use paqet.Prelude.Int.{pos}
use paqet.Prelude.Assoc.{lookup, insert}
use paqet.Flags.{no_flags}
use paqet.Iterator.{next, slot}
use paqet.Address.{UdpAddr, udp, key, ip_addr, to4, to16, big_endian}
use paqet.Send.{SendHandle, Packet, observe_peer_syn, write}
use paqet.Socket.{
  PacketConn, packet, Event, receives, hands_over, reads_from, drops, from_channel, Read, got,
  blocked, correlate, run,
}
use paqet.Socket.Spec
use paqet.Socket.Buffers.{IsOwned, view}
use paqet.Socket.Total.{HasKey}
use paqet.Socket.Refine.{run_refines}
use paqet.Socket.Recv.{
  RecvHandle, layer_ethernet, layer_ipv4, layer_tcp, frame, heard, read, wrote, write_to,
}
use paqet.Socket.Exchange.{exchange, exchange_syn, decoded_of, sender}
use paqet.Prelude.{false}
use paqet.Prelude.Text.{codes}
use paqet.Conf.Network.{Network}
use paqet.Socket.Open.{World, Pcap, new}

abbrev handle : List ℕ → ℕ → SendHandle
handle ip port = record {
  src_ipv4 = ip;
  src_ipv4_rhwa = 1 ∷ 2 ∷ 3 ∷ 4 ∷ 5 ∷ 6 ∷ [];
  src_ipv6 = [];
  src_ipv6_rhwa = [];
  src_mac = 6 ∷ 5 ∷ 4 ∷ 3 ∷ 2 ∷ 1 ∷ [];
  src_port = port;
  start_ms = 1000;
  ts_counter = 0;
  tcp_f = record { items = record no_flags { syn = true; ack = true } ∷ []; index = 0 };
  client_tcpf = [];
  conn_states = [];
}

abbrev client : SendHandle
client = handle (10 ∷ 0 ∷ 0 ∷ 2 ∷ []) 40000

abbrev server : SendHandle
server = handle (10 ∷ 0 ∷ 0 ∷ 1 ∷ []) 443

abbrev client_addr : UdpAddr
client_addr = record { ip = 10 ∷ 0 ∷ 0 ∷ 2 ∷ []; port = pos 40000 }

abbrev server_addr : UdpAddr
server_addr = record { ip = 10 ∷ 0 ∷ 0 ∷ 1 ∷ []; port = pos 443 }

abbrev conn : PacketConn
conn = record {
  send = server;
  bufs = λ i. [];
  made = 0;
  free = λ i. false;
  queue = [];
  pending = none;
  closed = false;
  cancelled = false;
  deadline = false;
}

conn-IsOwned : IsOwned conn
conn-IsOwned = record { held = tt; held_pending = tt; distinct = tt; apart = tt; old = λ i e. cc }

abbrev events : List Event
events =
    receives (packet (1 ∷ 2 ∷ 3 ∷ []) client_addr false 0 0 0) 0
    ∷ hands_over
    ∷ receives (packet (4 ∷ 5 ∷ []) client_addr false 0 0 0) 0
    ∷ hands_over
    ∷ reads_from 2 from_channel
    ∷ drops 7
    ∷ receives (packet (6 ∷ []) client_addr false 0 0 0) 0
    ∷ reads_from 9 from_channel
    ∷ reads_from 9 from_channel
    ∷ []

abbrev reads : List Read
reads = got (1 ∷ 2 ∷ []) client_addr ∷ got (4 ∷ 5 ∷ []) client_addr ∷ blocked ∷ []

abbrev client_key : ℕ
client_key = 10995116448832

keyed : All HasKey events
unfolding ip_addr to4 to16 big_endian
keyed =
    let k : (k : ℕ) × (key client_addr ≡ some k) = (client_key, refl) in
    (k, (tt, (k, (tt, (tt, (tt, (k, (tt, (tt, tt)))))))))

ran : (c : PacketConn) × (run conn events ≡ some (c, reads))
unfolding run
ran = (_, refl)

run_refines_example :
    (c : PacketConn) × (rs : List Read) × (run conn events ≡ some (c, rs))
    × IsOwned c
    × (Spec.run (view conn) events ≡ (view c, rs))
run_refines_example = run_refines conn events conn-IsOwned keyed

-- The wire: the sender's address, its port, the sequence number, SYN, and the payload.
abbrev serialize : Packet → List ℕ
serialize p =
    (sender p).ip ++ (p.tcp.src_port ∷ p.tcp.seq ∷ (if p.tcp.flags.syn then 1 else 0) ∷ p.payload)

abbrev parser : RecvHandle → List ℕ → Bool × RecvHandle
parser r (a ∷ b ∷ c ∷ d ∷ port ∷ seq ∷ syn ∷ payload) = (
  true,
  record r {
    decoded = layer_ethernet ∷ layer_ipv4 ∷ layer_tcp ∷ [];
    ip4_src = a ∷ b ∷ c ∷ d ∷ [];
    src_port = port;
    seq = seq;
    syn = syn == 1;
    payload = payload;
  },
)
parser r _ = (false, r)

abbrev recv : RecvHandle
recv = record {
  decoded = [];
  ip4_src = [];
  ip6_src = [];
  src_port = 0;
  seq = 0;
  syn = false;
  payload = [];
}

abbrev sent_bytes : List ℕ
sent_bytes = 7 ∷ 8 ∷ []

sent :
    (p : Packet) × (h : SendHandle) × (write_to client false false false sent_bytes
        (udp server_addr)
        99
        5
      ≡ some (wrote 2 p, h))
    × (parser recv (serialize p) ≡ (true, decoded_of recv p))
    × (p.tcp.flags.syn ≡ true)
    × (sender p ≡ client_addr)
unfolding write_to write ip_addr to4 to16 big_endian lookup insert next slot
sent = (_, _, refl, refl, refl, refl)

correlated :
    (h : SendHandle) × (correlate server
        (sender sent.0)
        (read parser recv (frame (serialize sent.0))).1.syn
        (read parser recv (frame (serialize sent.0))).1.seq
        0
        0
      ≡ some h)
unfolding correlate observe_peer_syn read sent ip_addr to4 to16 big_endian
correlated = (_, refl)

answered :
    (q : Packet) × (h : SendHandle) × (write_to correlated.0 false false false []
        (udp (sender sent.0))
        3
        4
      ≡ some (wrote 0 q, h))
    × (q.tcp.flags.syn ≡ true)
    × (q.tcp.flags.ack ≡ true)
unfolding write_to write correlated sent ip_addr to4 to16 big_endian lookup insert next slot
answered = (_, _, refl, refl, refl)

exchange_example :
    ((read parser recv (frame (serialize sent.0))).0 ≡ heard sent_bytes (sender sent.0))
    × (2 ≡ length sent_bytes)
exchange_example =
    exchange client sent.1 false sent_bytes server_addr 99 5 2 sent.0 recv serialize parser
      (omega arith) sent.2 sent.3

exchange_syn_example : answered.0.tcp.ack ≡ u32 (sent.0.tcp.seq + 1)
exchange_syn_example =
    exchange_syn server correlated.0 answered.1 false [] 0 0 3 4 0 sent.0 answered.0 recv serialize
      parser sent.3 sent.4 correlated.1 answered.2 answered.3 answered.4

-- The ninth call fails: it opens the device of the receiving handle.
abbrev open_world : World
open_world = record {
  answers = λ i. if i == 8 then false else true;
  is_windows = false;
  name = codes "eth0";
  hardware_addr = 6 ∷ 5 ∷ 4 ∷ 3 ∷ 2 ∷ 1 ∷ [];
  ip_string = λ ip. codes "10.0.0.2";
  print = λ port. codes "40000";
  now_ms = 1700000000000;
  random = 7232;
}

abbrev network : Network
network = record {
  interface_ = codes "eth0";
  guid = [];
  ipv4 = record {
    addr_ = codes "10.0.0.2:0";
    router_mac_ = codes "01:02:03:04:05:06";
    addr = some client_addr;
    router = some (1 ∷ 2 ∷ 3 ∷ 4 ∷ 5 ∷ 6 ∷ []);
  };
  ipv6 = record { addr_ = []; router_mac_ = []; addr = none; router = none };
  pcap = record { sockbuf = pos 4194304 };
  tcp = record {
    lf_ = [];
    rf_ = [];
    lf = [];
    rf = [];
    explicit_flags = false;
    max_failures = pos 2;
    health_interval_ = pos 0;
    health_interval = pos 0;
    probe_timeout_ = pos 0;
    probe_timeout = pos 0;
  };
  interface = some 2;
  port = pos 0;
}

abbrev no_calls : Pcap
no_calls = record { calls = []; inactive = 0; opened = 0; closed = 0 }

leaves_open :
    ((new open_world network no_calls).2.opened ≡ 1)
    × ((new open_world network no_calls).2.closed ≡ 0)
unfolding new
leaves_open = (refl, refl)
