-- ===== src/Server/Handshake.antt =====
-- The client's first stream, and its ping, against the server's handler.
use paqet.Prelude.{
  ℕ, ◌≤◌, ◌≡◌, refl, ap, ◌∙◌, sym, List, [], ◌∷◌, none, some, ◌==◌, ==_iff, if◌then◌else◌, length,
  arith,
}
use mathlib.Core.List.{append-nil}
use paqet.Prelude.Assoc.{lookup, insert}
use paqet.Flags.{TcpFlags}
use paqet.Protocol.{ok, Proto, zero_proto, frame, read, p_tcpf, p_ping, p_pong, Addr, p_tcp}
use paqet.Protocol.RoundTrip.{read-frame_tcpf_all}
use paqet.Iterator.Rotation.{next-new}
use paqet.Address.{UdpAddr, NetAddr, udp, key}
use paqet.Send.{SendHandle, next_tcpf, set_client_tcpf}
use paqet.Send.Maps.{next_tcpf-client}
use paqet.Send.Clients.{set_client_tcpf_lem}
use paqet.Server.{done, handle_strm, after_read, handle_tcpf, dispatch, handle_dial, tcp}

set_client_tcpf_total :
    (h : SendHandle) (a : UdpAddr) (k : ℕ) (f : List TcpFlags)
    → key a ≡ some k
    → (h' : SendHandle) × (set_client_tcpf h (udp a) f ≡ some h')
unfolding set_client_tcpf
set_client_tcpf_total h a k f e = (
  record h { client_tcpf = insert k (record { items = f; index = 0 }) h.client_tcpf },
  rw (e, set_client_tcpf) refl,
)

handle_tcpf-some :
    (h : SendHandle) (a : UdpAddr) (f : TcpFlags) (fs : List TcpFlags) {h' : SendHandle}
    → set_client_tcpf h (udp a) (f ∷ fs) ≡ some h'
    → handle_tcpf h (udp a) (f ∷ fs) ≡ record { send = h'; written = []; outcome = done }
unfolding handle_tcpf
handle_tcpf-some h a f fs s = rw (s, handle_tcpf) refl

-- A client whose PTCPF message names one to 255 flag sets is answered with these: the message
-- that Write frames makes the server's handler end without error or reply, the client's entry is
-- a fresh iterator over them, the next packet to the client takes the first of them, and no
-- other client's entry changes.
pub handle_strm-tcpf :
    (h : SendHandle) (a : UdpAddr) (k : ℕ) (f : TcpFlags) (fs : List TcpFlags)
    → key a ≡ some k
    → length (f ∷ fs) ≤ 255
    → (bs : List ℕ) × (h' : SendHandle) × (frame
          (record { type = p_tcpf; addr = none; tcpf = f ∷ fs })
        ≡ ok bs)
      × (handle_strm h (udp a) bs ≡ record { send = h'; written = []; outcome = done })
      × ((next_tcpf h' k).0 ≡ some f)
      × ((j : ℕ)
          → lookup j h'.client_tcpf ≡ (
              if k == j
              then some (record { items = f ∷ fs; index = 0 })
              else lookup j h.client_tcpf))
unfolding handle_strm after_read
handle_strm-tcpf h a k f fs e l =
    let (bs, framed, back) = read-frame_tcpf_all none (f ∷ fs) zero_proto [] l in
    let (h', s) = set_client_tcpf_total h a k (f ∷ fs) e in
    let entry = λ (j : ℕ). (set_client_tcpf_lem h a j k (f ∷ fs) e s).0 in
    (
      bs,
      h',
      framed,
      ap (after_read h (udp a)) (ap (read zero_proto) (sym (append-nil bs)) ∙ back)
          ∙ handle_tcpf-some h a f fs s,
      next_tcpf-client h' k (entry k ∙ rw ((==_iff k k).1 refl) refl) ∙ next-new f fs (omega arith),
      entry,
    )

-- The server answers every ping: what the client's Ping writes is handled without error, and the
-- bytes written back are those of a PONG, which Read reads.
pub handle_strm-ping :
    (h : SendHandle) (remote : NetAddr) (q : Proto)
    → (bs reply : List ℕ) × (frame (record { type = p_ping; addr = none; tcpf = [] }) ≡ ok bs)
      × (handle_strm h remote bs ≡ record { send = h; written = reply; outcome = done })
      × (read q reply ≡ (record q { type = p_pong }, [], none))
unfolding handle_strm after_read frame read
handle_strm-ping h remote q = (p_ping ∷ [], p_pong ∷ [], refl, refl, refl)

-- What the stream's first message makes of it, where that message is PTCP with an address.
pub handle_strm-tcp :
    (h : SendHandle) (remote : NetAddr) (bytes r : List ℕ) (a : Addr)
    → read zero_proto bytes ≡ (record zero_proto { type = p_tcp; addr = some a }, r, none)
    → handle_strm h remote bytes ≡ record { send = h; written = []; outcome = tcp a }
unfolding handle_strm after_read dispatch handle_dial
handle_strm-tcp h remote bytes r a e = ap (after_read h remote) e
