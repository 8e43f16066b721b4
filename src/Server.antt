-- ===== src/Server.antt =====
-- internal/server/handle.go, ping.go and server.go: the dispatch of a stream and the life of a
-- connection. A stream is the bytes that its peer wrote; what the server writes back and what it
-- dials is the result. Dialling and copying start from `tcp` and `udp` (see Relay). The streams
-- of a connection are handled by goroutines whose one shared access is under a lock: a schedule
-- is the order of these accesses.
pub mod Handshake
pub mod Session
pub mod Life
mod Runs
use paqet.Prelude.{ℕ, List, [], ◌∷◌, ◌++◌, Option, none, some, ◌==◌, if◌then◌else◌, length}
use paqet.Prelude.Int.{ℤ}
use paqet.Flags.{TcpFlags}
use paqet.Protocol.{
  Addr, Proto, zero_proto, Error, Result, ok, err, unknown_type, p_ping, p_pong, p_tcpf, p_tcp,
  p_udp, read, frame,
}
use paqet.Address.{NetAddr}
use paqet.Send.{SendHandle, set_client_tcpf, clear_client_tcpf, observe_peer_syn, write}

-- How a stream's handler goes on. `panics` is a nil pointer or a failed type assertion.
pub data Outcome : Type 0 where
  done panics : Outcome
  failed : Error → Outcome
  tcp udp : Addr → Outcome

pub record Handled : Type 0 where
  pub send : SendHandle
  pub written : List ℕ
  pub outcome : Outcome

-- `strm.Write` succeeds; its failure is that of the stream.
unfoldable pub handle_ping : SendHandle → Handled
handle_ping h = elim (frame (record { type = p_pong; addr = none; tcpf = [] })) [
  | ok bs ↦ record { send = h; written = bs; outcome = done }
  | err e ↦ record { send = h; written = []; outcome = failed e }
]

handle_tcpf : SendHandle → NetAddr → List TcpFlags → Handled
handle_tcpf h remote [] = record { send = h; written = []; outcome = done }
handle_tcpf h remote (f ∷ fs) = elim (set_client_tcpf h remote (f ∷ fs)) [
  | some h' ↦ record { send = h'; written = []; outcome = done }
  | none ↦ record { send = h; written = []; outcome = panics }
]

-- `p.Addr.String()` of a nil address is a nil pointer.
handle_dial : SendHandle → (Addr → Outcome) → Option Addr → Handled
handle_dial h to none = record { send = h; written = []; outcome = panics }
handle_dial h to (some a) = record { send = h; written = []; outcome = to a }

dispatch : SendHandle → NetAddr → Proto → Handled
unfolding handle_ping handle_tcpf handle_dial
dispatch h remote p =
    if p.type == p_ping
    then handle_ping h
    else if p.type == p_tcpf
    then handle_tcpf h remote p.tcpf
    else if p.type == p_tcp
    then handle_dial h tcp p.addr
    else if p.type == p_udp
    then handle_dial h udp p.addr
    else record { send = h; written = []; outcome = failed unknown_type }

after_read : SendHandle → NetAddr → Proto × List ℕ × Option Error → Handled
unfolding dispatch
after_read h remote (p, _, some e) = record { send = h; written = []; outcome = failed e }
after_read h remote (p, _, none) = dispatch h remote p

unfoldable pub handle_strm : SendHandle → NetAddr → List ℕ → Handled
unfolding after_read
handle_strm h remote bytes = after_read h remote (read zero_proto bytes)

-- What happens on the packet connection for one connection: a stream of it is handled, handleConn
-- ends with ClearClientTCPF, a packet is written to its address, as by the Close after that, and
-- recvLoop observes a SYN from it. The numbers are those that rand.Uint32 would return.
pub data Event : Type 0 where
  strm : List ℕ → Event
  ends : Event
  writes : List ℕ → ℕ → ℕ → Event
  observes : ℕ → ℕ → ℕ → Event

-- A packet for an address that is not a *net.UDPAddr is not written.
unfoldable pub write_any : SendHandle → NetAddr → List ℕ → ℕ → ℕ → SendHandle
write_any h (NetAddr.udp a) payload rs ra = elim (write h payload a rs ra) [
  | some r ↦ r.1
  | none ↦ h
]
write_any h _ payload rs ra = h

-- A panic, as of an address without a key, leaves the handle as it is.
unfoldable pub conn_event : SendHandle → NetAddr → Event → SendHandle
unfolding write_any
conn_event h remote (strm bytes) = (handle_strm h remote bytes).send
conn_event h remote ends = elim (clear_client_tcpf h remote) [ some h' ↦ h' | none ↦ h ]
conn_event h remote (writes payload rs ra) = write_any h remote payload rs ra
conn_event h remote (observes seq rs ra) = elim (observe_peer_syn h remote seq rs ra) [
  | some h' ↦ h'
  | none ↦ h
]

pub conn_events : SendHandle → NetAddr → List Event → SendHandle
conn_events h remote [] = h
conn_events h remote (e ∷ es) = conn_events (conn_event h remote e) remote es
