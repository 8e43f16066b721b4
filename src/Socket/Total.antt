-- ===== src/Socket/Total.antt =====
-- A run whose packets come from addresses with a key does not panic.
use paqet.Prelude.{
  ℕ, ◌≡◌, refl, ap, Bool, true, false, List, [], ◌∷◌, ◌++◌, Option, none, some, All,
}
use paqet.Prelude.Maybe.{◌>>=◌}
use paqet.Address.{UdpAddr, key}
use paqet.Send.{SendHandle, observe_at, observe_peer_syn}
use paqet.Socket.{
  RecvPacket, PacketConn, get_buf, copy_payload, Received, fatal, idle, packet, correlate, receive,
  receive_if, Read, Event, receives, hands_over, gives_up, cancels, reads_from, sets_deadline,
  drops, step, run,
}

-- The address of a packet has a key.
abbrev pub HasKey : Event → Type 0
HasKey (receives (packet payload addr syn seq rs ra) choice) = (k : ℕ) × (key addr ≡ some k)
HasKey _ = Unit {0}

correlate_total :
    (h : SendHandle) (a : UdpAddr) (syn : Bool) (seq rs ra k : ℕ)
    → key a ≡ some k
    → (h' : SendHandle) × (correlate h a syn seq rs ra ≡ some h')
unfolding correlate observe_peer_syn
correlate_total h a false seq rs ra k e = (h, refl)
correlate_total h a true seq rs ra k e = (observe_at h k seq rs ra, rw (e, observe_peer_syn) refl)

receive_total :
    (c : PacketConn) (o : Option RecvPacket) (b : Bool) (r : Received) (choice : ℕ)
    → HasKey (receives r choice)
    → (c' : PacketConn) × (receive_if c o b r choice ≡ some c')
unfolding receive
receive_total c none false fatal choice h = (_, refl)
receive_total c none false idle choice h = (_, refl)
receive_total c none false (packet payload addr syn seq rs ra) choice (k, e) =
    let (h', e') = correlate_total c.send addr syn seq rs ra k e in
    (
      copy_payload (get_buf (record c { send = h' }) choice) payload addr,
      ap (λ m. m >>= λ h. some (copy_payload (get_buf (record c { send = h }) choice) payload addr))
          e',
    )
receive_total c none true r choice h = (c, refl)
receive_total c (some p) b r choice h = (c, refl)

step_total :
    (c : PacketConn) (e : Event) → HasKey e → (x : PacketConn × List Read) × (step c e ≡ some x)
unfolding step
step_total c (receives r choice) h =
    let (c', e) = receive_total c c.pending c.closed r choice h in ((c', []), rw e refl)
step_total c hands_over h = (_, refl)
step_total c gives_up h = (_, refl)
step_total c cancels h = (_, refl)
step_total c (reads_from size way) h = (_, refl)
step_total c (sets_deadline d) h = (_, refl)
step_total c (drops i) h = (_, refl)

pub run_total :
    (es : List Event) (c : PacketConn)
    → All HasKey es
    → (x : PacketConn × List Read) × (run c es ≡ some x)
unfolding run
run_total [] c h = (_, refl)
run_total (e ∷ es) c h =
    let (x, ex) = step_total c e h.0 in
    let (y, ey) = run_total es x.0 h.1 in ((y.0, x.1 ++ y.1), rw (ex, ey) refl)
