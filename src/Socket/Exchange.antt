-- ===== src/Socket/Exchange.antt =====
-- A packet of WriteTo (internal/socket/socket.go) on its way through gopacket and pcap to the Read
-- of another handle (internal/socket/recv_handle.go), and the answer to it.
use paqet.Prelude.{
  ℕ, ◌+◌, ◌<◌, ◌≡◌, refl, ap, ◌∙◌, sym, Bool, true, false, List, [], ◌∷◌, Option, none, some,
  if◌then◌else◌, arith, length, u32, inl, inr, Option-cases,
}
use mathlib.Core.Path.{ap₂}
use paqet.Prelude.Int.{pos}
use paqet.Prelude.Maybe.{>>=-eq-some}
use paqet.Address.{UdpAddr, udp, key}
use paqet.Send.{SendHandle, Packet, IpLayer, ipv4, ipv6, write, next_tcpf}
use paqet.Send.Maps.{write_inv, emit_packet}
use paqet.Send.Sequence.{write-observe_peer_syn}
use paqet.Socket.{correlate}
use paqet.Socket.Recv.{
  RecvHandle, layer_ethernet, layer_ipv4, layer_ipv6, layer_tcp, frame, Heard, nothing, heard,
  heard_of, read, Write, wrote, write_to,
}

abbrev source_ip : IpLayer → List ℕ
source_ip (ipv4 h) = h.src_ip
source_ip (ipv6 h) = h.src_ip

abbrev with_ip : RecvHandle → IpLayer → RecvHandle
with_ip r (ipv4 h) = record r {
  decoded = layer_ethernet ∷ layer_ipv4 ∷ layer_tcp ∷ [];
  ip4_src = h.src_ip;
}
with_ip r (ipv6 h) = record r {
  decoded = layer_ethernet ∷ layer_ipv6 ∷ layer_tcp ∷ [];
  ip6_src = h.src_ip;
}

-- The layers after a packet was decoded.
abbrev pub decoded_of : RecvHandle → Packet → RecvHandle
decoded_of r p = record (with_ip r p.ip) {
  src_port = p.tcp.src_port;
  seq = p.tcp.seq;
  syn = p.tcp.flags.syn;
  payload = p.payload;
}

abbrev pub sender : Packet → UdpAddr
sender p = record { ip = source_ip p.ip; port = pos p.tcp.src_port }

heard_of-with_ip :
    (r : RecvHandle) (ip : IpLayer) (port seq : ℕ) (syn : Bool) (payload : List ℕ)
    → 0 < length payload
    → heard_of (record (with_ip r ip) { src_port = port; seq = seq; syn = syn; payload = payload })
      ≡ heard payload (record { ip = source_ip ip; port = pos port })
heard_of-with_ip r (ipv4 i) port seq syn payload h = ground (arith, h)
heard_of-with_ip r (ipv6 i) port seq syn payload h = ground (arith, h)

write-none :
    (h : SendHandle) (bytes : List ℕ) (a : UdpAddr) (rs ra : ℕ)
    → key a ≡ none
    → write h bytes a rs ra ≡ none
unfolding write
write-none h bytes a rs ra e = rw (e, write) refl

write_inv_any :
    (h : SendHandle) (bytes : List ℕ) (a : UdpAddr) (rs ra : ℕ) (r : Packet × SendHandle)
    → write h bytes a rs ra ≡ some r
    → (k : ℕ) × (key a ≡ some k) × (r.0.payload ≡ bytes)
write_inv_any h bytes a rs ra r w = elim (Option-cases (key a)) [
  | inl e ↦ let w' = sym (write-none h bytes a rs ra e) ∙ w in absurd (cc w')
  | inr (k, e) ↦
      let (f, nf, em) = write_inv h bytes a rs ra k e w in
      let (_, _, pl, _) = emit_packet (next_tcpf h k).1 k f bytes a rs ra in
      (k, e, ap (λ (x : Packet × SendHandle). x.0.payload) (sym em) ∙ pl)
]

wrote_injective :
    {n m : ℕ} {p q : Packet} {h k : SendHandle}
    → ◌≡◌ {A = Option (Write × SendHandle)} (some (wrote n p, h)) (some (wrote m q, k))
    → (n ≡ m) × (p ≡ q) × (h ≡ k)
wrote_injective e = (cc, cc, cc)

-- What a live WriteTo does.
write_to_inv :
    (h h' : SendHandle) (first : Bool) (bytes : List ℕ) (a : UdpAddr) (rs ra n : ℕ) (p : Packet)
    → write_to h false false first bytes (udp a) rs ra ≡ some (wrote n p, h')
    → (n ≡ length bytes) × (write h bytes a rs ra ≡ some (p, h'))
unfolding write_to
write_to_inv h h' first bytes a rs ra n p e =
    let (r, w, e') = >>=-eq-some (write h bytes a rs ra) _ e in
    let (a, b, c) = wrote_injective e' in (sym a, w ∙ ap₂ (λ p h. some (p, h)) b c)

read-frame :
    (parser : RecvHandle → List ℕ → Bool × RecvHandle) (r r' : RecvHandle) (bytes : List ℕ)
    → parser (record r { decoded = [] }) bytes ≡ (true, r')
    → read parser r (frame bytes) ≡ (heard_of r', r')
unfolding read
read-frame parser r r' bytes d =
    ap (λ (x : Bool × RecvHandle). (if x.0 then heard_of x.1 else nothing, x.1)) d

-- WriteTo of data that is not empty, neither cancelled nor past its deadline, returns the length of
-- the data if it does not fail, whatever the flags of its packet. If the frame of the packet
-- decodes into the packet's layers, Read on the other side returns that data and the sender's
-- address.
pub exchange :
    (client client' : SendHandle) (first : Bool) (bytes : List ℕ) (a : UdpAddr) (rs ra n : ℕ)
    (p : Packet) (r : RecvHandle) (serialize : Packet → List ℕ)
    (parser : RecvHandle → List ℕ → Bool × RecvHandle)
    → 0 < length bytes
    → write_to client false false first bytes (udp a) rs ra ≡ some (wrote n p, client')
    → parser (record r { decoded = [] }) (serialize p) ≡ (true, decoded_of r p)
    → ((read parser r (frame (serialize p))).0 ≡ heard bytes (sender p)) × (n ≡ length bytes)
exchange client client' first bytes a rs ra n p r serialize parser l w d =
    let (en, wr) = write_to_inv client client' first bytes a rs ra n p w in
    let (k, ek, pl) = write_inv_any client bytes a rs ra (p, client') wr in
    let rd = read-frame parser r (decoded_of r p) (serialize p) d in
    (
      ap (λ (x : Heard × RecvHandle). x.0) rd
          ∙ heard_of-with_ip r p.ip p.tcp.src_port p.tcp.seq p.tcp.flags.syn p.payload (rw pl l)
          ∙ ap (λ b. heard b (sender p)) pl,
      en,
    )

-- If a packet with SYN is read, its frame decoding into its layers, and recvLoop correlates it,
-- then a SYN+ACK that is written next to the sender's address acknowledges its sequence number.
pub exchange_syn :
    (server server' server'' : SendHandle) (first : Bool) (reply : List ℕ) (rs' ra' rs'' ra'' m : ℕ)
    (p q : Packet) (r : RecvHandle) (serialize : Packet → List ℕ)
    (parser : RecvHandle → List ℕ → Bool × RecvHandle)
    → parser (record r { decoded = [] }) (serialize p) ≡ (true, decoded_of r p)
    → p.tcp.flags.syn ≡ true
    → let (h, r') = read parser r (frame (serialize p)) in
      correlate server (sender p) r'.syn r'.seq rs' ra' ≡ some server'
      → write_to server' false false first reply (udp (sender p)) rs'' ra''
        ≡ some (wrote m q, server'')
      → q.tcp.flags.syn ≡ true
      → q.tcp.flags.ack ≡ true
      → q.tcp.ack ≡ u32 (p.tcp.seq + 1)
unfolding correlate
exchange_syn server server' server'' first reply rs' ra' rs'' ra'' m p q r serialize parser d s c w'
      sq aq =
    let (em, wr') = write_to_inv server' server'' first reply (sender p) rs'' ra'' m q w' in
    let (k', ek', _) = write_inv_any server' reply (sender p) rs'' ra'' (q, server'') wr' in
    let rd = read-frame parser r (decoded_of r p) (serialize p) d in
    let c' : correlate server (sender p) true p.tcp.seq rs' ra' ≡ some server' =
      ap₂ (λ b n. correlate server (sender p) b n rs' ra')
        (sym (ap (λ (x : Heard × RecvHandle). x.1.syn) rd ∙ s))
        (sym (ap (λ (x : Heard × RecvHandle). x.1.seq) rd))
      ∙ c in
    write-observe_peer_syn server server' (sender p) p.tcp.seq rs' ra' k' reply rs'' ra''
      (q, server'') ek' c' wr' sq aq
