-- ===== src/Server/Life.antt =====
-- internal/server/server.go and handleConn of handle.go: the server's goroutines, from Start to its
-- return. Each step is one call of one goroutine; the steps of different goroutines come in any
-- order. A signal and what Accept, AcceptStrm and the relays answer are the environment's choice.
pub mod Closed
pub mod Count
pub mod Shutdown
pub mod Peers
mod Runs
use paqet.Prelude.{
  ℕ, zero, suc, ◌+◌, ◌-◌, ◌≡◌, ◌≢◌, Bool, true, false, List, [], ◌∷◌, ◌++◌, Option, none, some,
  get_elem?,
}
use paqet.Prelude.Places.{set_at}
use paqet.Address.{UdpAddr, NetAddr, udp}
use paqet.Send.{SendHandle, Packet, clear_client_tcpf, observe_peer_syn, write}
use paqet.Server.{panics, handle_strm}

-- The loop of listen: at its first select, in Accept, at the select after an error, or returned.
pub data Listening : Type 0 where
  looking accepting failed ended : Listening

-- handleConn's loop, and the deferred calls after it.
pub data ConnPhase : Type 0 where
  looking accepting clearing closing ended : ConnPhase

-- `cleared` and `closed` record that ClearClientTCPF and Close have been called for it.
pub record Conn : Type 0 where
  pub remote : NetAddr
  pub phase : ConnPhase
  pub cleared : Bool
  pub closed : Bool

pub data StrmPhase : Type 0 where
  waiting working ended : StrmPhase

-- `handled` and `closed` record that handleStrm and Close have been called for it.
pub record Strm : Type 0 where
  pub remote : NetAddr
  pub bytes : List ℕ
  pub phase : StrmPhase
  pub handled : Bool
  pub closed : Bool

-- What Start has come to; a panic of any goroutine ends the process.
pub data Status : Type 0 where
  running panicked returned : Status

-- `signalled` records that a shutdown signal has been received.
pub record World : Type 0 where
  pub status : Status
  pub signalled : Bool
  pub cancelled : Bool
  pub listening : Listening
  pub listener_closed : Bool
  pub conns : List Conn
  pub strms : List Strm
  pub send : SendHandle
  pub wg : ℕ

-- Start when it waits, with the handle of its packet connection.
unfoldable pub start : SendHandle → World
start h = record {
  status = running;
  signalled = false;
  cancelled = false;
  listening = Listening.looking;
  listener_closed = false;
  conns = [];
  strms = [];
  send = h;
  wg = 1;
}

-- What Start comes to: an error of socket.New, an error of kcp.Listen, or the wait.
pub data Started : Type 0 where
  no_conn : Started
  no_listener : SendHandle → Started
  waits : World → Started

pub start_server : Option SendHandle → Bool → Started
unfolding start
start_server none listens = no_conn
start_server (some h) false = no_listener h
start_server (some h) true = waits (start h)

abbrev pub to_listening : World → Listening → World
to_listening w l = record w { listening = l }

abbrev pub conn_of : NetAddr → Conn
conn_of r = record { remote = r; phase = ConnPhase.looking; cleared = false; closed = false }

abbrev pub strm_of : NetAddr → List ℕ → Strm
strm_of r bs = record { remote = r; bytes = bs; phase = waiting; handled = false; closed = false }

-- wg.Go of a connection, and back to the first select.
abbrev pub accepted : World → NetAddr → World
accepted w r = record w {
  listening = Listening.looking;
  conns = w.conns ++ conn_of r ∷ [];
  wg = w.wg + 1;
}

abbrev pub to_conn : World → ℕ → Conn → ConnPhase → World
to_conn w i c p = record w { conns = set_at w.conns i (record c { phase = p }) }

abbrev pub to_strm : World → ℕ → Strm → StrmPhase → World
to_strm w i s p = record w { strms = set_at w.strms i (record s { phase = p }) }

-- wg.Go of a stream, and back to handleConn's select.
abbrev pub strm_accepted : World → ℕ → Conn → List ℕ → World
strm_accepted w i c bs = record (to_conn w i c ConnPhase.looking) {
  strms = w.strms ++ strm_of c.remote bs ∷ [];
  wg = w.wg + 1;
}

-- A goroutine of the group has returned.
abbrev pub less : World → World
less w = record w { wg = w.wg - 1 }

-- One step of one goroutine.
pub data Step (w : World) : World → Type 0 where
  signal : w.cancelled ≡ false → Step w (record w { signalled = true; cancelled = true })
  close_listener :
      w.cancelled ≡ true → w.listener_closed ≡ false → Step w (record w { listener_closed = true })
  look :
      w.listening ≡ Listening.looking
      → w.cancelled ≡ false
      → Step w (to_listening w Listening.accepting)
  leave :
      w.listening ≡ Listening.looking
      → w.cancelled ≡ true
      → Step w (less (to_listening w Listening.ended))
  accept : (r : NetAddr) → w.listening ≡ Listening.accepting → Step w (accepted w r)
  refuse : w.listening ≡ Listening.accepting → Step w (to_listening w Listening.failed)
  again :
      w.listening ≡ Listening.failed
      → w.cancelled ≡ false
      → Step w (to_listening w Listening.looking)
  leave_failed :
      w.listening ≡ Listening.failed
      → w.cancelled ≡ true
      → Step w (less (to_listening w Listening.ended))
  conn_look :
      (i : ℕ) (c : Conn)
      → get_elem? w.conns i ≡ some c
      → c.phase ≡ ConnPhase.looking
      → w.cancelled ≡ false
      → Step w (to_conn w i c ConnPhase.accepting)
  conn_leave :
      (i : ℕ) (c : Conn)
      → get_elem? w.conns i ≡ some c
      → c.phase ≡ ConnPhase.looking
      → w.cancelled ≡ true
      → Step w (to_conn w i c clearing)
  conn_strm :
      (i : ℕ) (c : Conn) (bs : List ℕ)
      → get_elem? w.conns i ≡ some c
      → c.phase ≡ ConnPhase.accepting
      → Step w (strm_accepted w i c bs)
  conn_fail :
      (i : ℕ) (c : Conn)
      → get_elem? w.conns i ≡ some c
      → c.phase ≡ ConnPhase.accepting
      → Step w (to_conn w i c clearing)
  conn_clear :
      (i : ℕ) (c : Conn) (h : SendHandle)
      → get_elem? w.conns i ≡ some c
      → c.phase ≡ clearing
      → clear_client_tcpf w.send c.remote ≡ some h
      → Step w (record (to_conn w i (record c { cleared = true }) closing) { send = h })
  conn_panic :
      (i : ℕ) (c : Conn)
      → get_elem? w.conns i ≡ some c
      → c.phase ≡ clearing
      → clear_client_tcpf w.send c.remote ≡ none
      → Step w (record w { status = panicked })
  conn_close :
      (i : ℕ) (c : Conn)
      → get_elem? w.conns i ≡ some c
      → c.phase ≡ closing
      → Step w (less (to_conn w i (record c { closed = true }) ConnPhase.ended))
  strm_handle :
      (i : ℕ) (s : Strm)
      → get_elem? w.strms i ≡ some s
      → s.phase ≡ waiting
      → (handle_strm w.send s.remote s.bytes).outcome ≢ panics
      → Step w (record (to_strm w i (record s { handled = true }) working) {
        send = (handle_strm w.send s.remote s.bytes).send;
      })
  strm_panic :
      (i : ℕ) (s : Strm)
      → get_elem? w.strms i ≡ some s
      → s.phase ≡ waiting
      → (handle_strm w.send s.remote s.bytes).outcome ≡ panics
      → Step w (record w { status = panicked })
  strm_close :
      (i : ℕ) (s : Strm)
      → get_elem? w.strms i ≡ some s
      → s.phase ≡ working
      → Step w (less (to_strm w i (record s { closed = true }) StrmPhase.ended))
  -- Start returns, after its deferred cancel and Close of the listener.
  return :
      w.wg ≡ 0 → Step w (record w { status = returned; cancelled = true; listener_closed = true })

-- Steps while the process runs: n of them.
pub data Run (w : World) : ℕ → World → Type 0 where
  here : Run w 0 w
  next : {n : ℕ} {u v : World} → Run w n u → u.status ≡ running → Step u v → Run w (suc n) v

-- The goroutines of the server, with what the packet connection does beside them: recvLoop observes
-- a SYN from an address, and a packet is written to one (by kcp, whose calls come at any time). The
-- list has the addresses of these; the numbers are those that rand.Uint32 would return.
pub data Traffic (w : World) : List UdpAddr → World → Type 0 where
  quiet : Traffic w [] w
  steps :
      {ps : List UdpAddr} {u v : World}
      → Traffic w ps u
      → u.status ≡ running
      → Step u v
      → Traffic w ps v
  observes :
      {ps : List UdpAddr} {u : World} (a : UdpAddr) (seq rs ra : ℕ) (h : SendHandle)
      → Traffic w ps u
      → observe_peer_syn u.send (udp a) seq rs ra ≡ some h
      → Traffic w (a ∷ ps) (record u { send = h })
  writes :
      {ps : List UdpAddr} {u : World} (a : UdpAddr) (payload : List ℕ) (rs ra : ℕ)
      (r : Packet × SendHandle)
      → Traffic w ps u
      → write u.send payload a rs ra ≡ some r
      → Traffic w (a ∷ ps) (record u { send = r.1 })
