-- ===== src/Server/Session.antt =====
-- What the streams and the end of a connection do to the shared maps, in any order of events.
use paqet.Prelude.{
  ℕ, ◌≡◌, refl, ap, ◌∙◌, sym, Bool, true, false, List, [], ◌∷◌, ◌++◌, Option, none, some, ◌==◌,
  ==_iff, if◌then◌else◌, inl, inr, Option-cases, length, ◌≤◌, u32,
}
use mathlib.Core.Path.{subst}
use paqet.Prelude.Assoc.{lookup, delete}
use paqet.Flags.{TcpFlags}
use paqet.Protocol.{Addr, Proto, Error, ok, zero_proto, read, frame, p_tcpf, p_ping, p_tcp, p_udp}
use paqet.Address.{UdpAddr, NetAddr, udp, key}
use paqet.Send.{ConnState, SendHandle, Packet, set_client_tcpf, clear_client_tcpf, write}
use paqet.Send.Maps.{conn_at, conn_states-observe_at}
use paqet.Send.Others.{observe_is, observe_at-others, write-others, write-fresh}
use paqet.Send.Clients.{set_client_tcpf_lem, clear_client_tcpf_lem}
use paqet.Server.{
  Handled, Outcome, done, tcp, handle_ping, handle_tcpf, handle_dial, dispatch, after_read,
  handle_strm, Event, strm, ends, writes, observes, write_any, conn_event, conn_events,
}
use paqet.Server.Handshake.{handle_strm-tcpf}

either {ℓ} : (Q : Handled → Type ℓ) (b : Bool) (x y : Handled) → Q x → Q y → Q (if b then x else y)
either Q true x y p q = p
either Q false x y p q = q

-- A stream leaves the handle as it is, or sets the flags of its remote address.
module _ {ℓ} (Q : Handled → Type ℓ) (h : SendHandle) (remote : NetAddr)
    (keep : (w : List ℕ) (o : Outcome) → Q (record { send = h; written = w; outcome = o }))
    (set : (f : List TcpFlags) (h' : SendHandle)
      → set_client_tcpf h remote f ≡ some h'
      → Q (record { send = h'; written = []; outcome = done })) where
  tcpf_cases : (f : List TcpFlags) → Q (handle_tcpf h remote f)
  unfolding handle_tcpf
  tcpf_cases [] = keep _ _
  tcpf_cases (f ∷ fs) = elim (Option-cases (set_client_tcpf h remote (f ∷ fs))) [
    | inl e ↦ rw (e, handle_tcpf) (keep _ _)
    | inr (h', e) ↦ rw (e, handle_tcpf) (set (f ∷ fs) h' e)
  ]

  dial_cases : (to : Addr → Outcome) (a : Option Addr) → Q (handle_dial h to a)
  unfolding handle_dial
  dial_cases to none = keep _ _
  dial_cases to (some a) = keep _ _

  ping_case : Q (handle_ping h)
  unfolding handle_ping frame
  ping_case = keep _ _

  dispatch_cases : (p : Proto) → Q (dispatch h remote p)
  unfolding dispatch
  dispatch_cases p = either Q (p.type == p_ping) _ _ ping_case (
      either Q (p.type == p_tcpf) _ _ (tcpf_cases p.tcpf) (
        either Q (p.type == p_tcp) _ _ (dial_cases tcp p.addr)
          (either Q (p.type == p_udp) _ _ (dial_cases Outcome.udp p.addr) (keep _ _))))

  read_cases : (r : Proto × List ℕ × Option Error) → Q (after_read h remote r)
  unfolding after_read
  read_cases (p, bs, none) = dispatch_cases p
  read_cases (p, bs, some e) = keep _ _

  strm_cases : (bytes : List ℕ) → Q (handle_strm h remote bytes)
  unfolding handle_strm
  strm_cases bytes = read_cases (read zero_proto bytes)

-- Both maps have the same entry under j.
abbrev pub SameAt : ℕ → SendHandle → SendHandle → Type 0
SameAt j h g =
    (lookup j g.client_tcpf ≡ lookup j h.client_tcpf)
    × (lookup j g.conn_states ≡ lookup j h.conn_states)

pub SameAt-trans : (j : ℕ) (h g f : SendHandle) → SameAt j h g → SameAt j g f → SameAt j h f
SameAt-trans j h g f p q = (q.0 ∙ p.0, q.1 ∙ p.1)

pub strm-SameAt :
    (h : SendHandle) (a : UdpAddr) (j k : ℕ) (bytes : List ℕ)
    → key a ≡ some k
    → (k == j) ≡ false
    → SameAt j h (handle_strm h (udp a) bytes).send
strm-SameAt h a j k bytes e ne =
    strm_cases (λ x. SameAt j h x.send) h (udp a) (λ w o. (refl, refl))
      (λ f h' s.
        let (m, c) = set_client_tcpf_lem h a j k f e s in (m ∙ rw ne refl, ap (lookup j) c))
      bytes

clear_total :
    (h : SendHandle) (a : UdpAddr) (k : ℕ)
    → key a ≡ some k
    → (h' : SendHandle) × (clear_client_tcpf h (udp a) ≡ some h') × (conn_event h (udp a) ends ≡ h')
unfolding clear_client_tcpf conn_event
clear_total h a k e = (
  record h { client_tcpf = delete k h.client_tcpf; conn_states = delete k h.conn_states },
  rw (e, clear_client_tcpf) refl,
  rw (e, conn_event) refl,
)

pub event-SameAt :
    (h : SendHandle) (a : UdpAddr) (j k : ℕ) (v : Event)
    → key a ≡ some k
    → (k == j) ≡ false
    → SameAt j h (conn_event h (udp a) v)
unfolding conn_event write_any
event-SameAt h a j k (strm bytes) e ne = strm-SameAt h a j k bytes e ne
event-SameAt h a j k ends e ne =
    let (h', s, is) = clear_total h a k e in
    let (m, c) = (clear_client_tcpf_lem h a k h' e s).0 j in
    subst (SameAt j h) (sym is) (m ∙ rw ne refl, c ∙ rw ne refl)
event-SameAt h a j k (writes payload rs ra) e ne = elim (Option-cases (write h payload a rs ra)) [
  | inl w ↦ rw (w, conn_event, write_any) (refl, refl)
  | inr (r, w) ↦ rw (w, conn_event, write_any) (write-others j k ne h payload a rs ra r e w)
]
event-SameAt h a j k (observes seq rs ra) e ne =
    rw (observe_is h a k seq rs ra e, conn_event) (observe_at-others j k ne h seq rs ra)

-- Nothing that happens on a connection, in any order, changes the flags or the sequence state of a
-- peer with another key.
pub conn_events-SameAt :
    (vs : List Event) (h : SendHandle) (a : UdpAddr) (j k : ℕ)
    → key a ≡ some k
    → (k == j) ≡ false
    → SameAt j h (conn_events h (udp a) vs)
unfolding conn_events
conn_events-SameAt [] h a j k e ne = (refl, refl)
conn_events-SameAt (v ∷ vs) h a j k e ne =
    SameAt-trans j h (conn_event h (udp a) v) (conn_events (conn_event h (udp a) v) (udp a) vs)
      (event-SameAt h a j k v e ne) (conn_events-SameAt vs (conn_event h (udp a) v) a j k e ne)

conn_events-append :
    (vs ws : List Event) (h : SendHandle) (r : NetAddr)
    → conn_events h r (vs ++ ws) ≡ conn_events (conn_events h r vs) r ws
unfolding conn_events
conn_events-append [] ws h r = refl
conn_events-append (v ∷ vs) ws h r = conn_events-append vs ws (conn_event h r v) r

ok_equal : {b c : List ℕ} → ok b ≡ ok c → b ≡ c
ok_equal e = cc

late_entry :
    (h : SendHandle) (a : UdpAddr) (k : ℕ) (f : TcpFlags) (fs : List TcpFlags) (bytes : List ℕ)
    → key a ≡ some k
    → length (f ∷ fs) ≤ 255
    → frame (record { type = p_tcpf; addr = none; tcpf = f ∷ fs }) ≡ ok bytes
    → lookup k (handle_strm h (udp a) bytes).send.client_tcpf
      ≡ some (record { items = f ∷ fs; index = 0 })
late_entry h a k f fs bytes e l w =
    let (bs, h', framed, handled, _, entry) = handle_strm-tcpf h a k f fs e l in
    let same : bs ≡ bytes = ok_equal (sym framed ∙ w) in
    ap (λ (b : List ℕ). lookup k (handle_strm h (udp a) b).send.client_tcpf) (sym same)
    ∙ ap (λ (x : Handled). lookup k x.send.client_tcpf) handled
    ∙ entry k
    ∙ rw ((==_iff k k).1 refl) refl

write_any_is :
    (h : SendHandle) (a : UdpAddr) (payload : List ℕ) (rs ra : ℕ) (r : Packet × SendHandle)
    → write h payload a rs ra ≡ some r
    → write_any h (udp a) payload rs ra ≡ r.1
unfolding write_any
write_any_is h a payload rs ra r w = rw (w, write_any) refl

late_syn :
    (h : SendHandle) (a : UdpAddr) (k seq rs ra : ℕ)
    → key a ≡ some k
    → lookup k (conn_event h (udp a) (observes seq rs ra)).conn_states
      ≡ some (record (conn_at h k rs ra) { peer_seq = seq; has_peer = true })
unfolding conn_event
late_syn h a k seq rs ra e =
    rw (observe_is h a k seq rs ra e, conn_event)
      (conn_states-observe_at h k k seq rs ra ∙ rw ((==_iff k k).1 refl) refl)

-- Right after ClearClientTCPF nothing is left under the key of the connection, whatever came
-- before. But what comes after it leaves entries again: a PTCPF stream, of one to 255 flag sets,
-- that is handled then leaves its flags; a packet that is written then, as by the Close of the
-- connection, starts at a random sequence number and leaves a sequence state; and a SYN that is
-- observed then leaves one with its sequence number.
pub conn_events-ends :
    (vs : List Event) (h : SendHandle) (a : UdpAddr) (k : ℕ) (f : TcpFlags) (fs : List TcpFlags)
    (bytes payload : List ℕ) (rs ra seq : ℕ) (r : Packet × SendHandle)
    → key a ≡ some k
    → length (f ∷ fs) ≤ 255
    → frame (record { type = p_tcpf; addr = none; tcpf = f ∷ fs }) ≡ ok bytes
    → write (conn_events h (udp a) (vs ++ (ends ∷ []))) payload a rs ra ≡ some r
    → ((lookup k (conn_events h (udp a) (vs ++ (ends ∷ []))).client_tcpf ≡ none)
        × (lookup k (conn_events h (udp a) (vs ++ (ends ∷ []))).conn_states ≡ none))
      × (lookup k (conn_events h (udp a) (vs ++ (ends ∷ strm bytes ∷ []))).client_tcpf
          ≡ some (record { items = f ∷ fs; index = 0 }))
      × ((r.0.tcp.seq ≡ u32 rs)
          × ((cs : ConnState) × (lookup k
                  (conn_events h (udp a) (vs ++ (ends ∷ writes payload rs ra ∷ []))).conn_states
                ≡ some cs)))
      × ((cs : ConnState) × (lookup k
              (conn_events h (udp a) (vs ++ (ends ∷ observes seq rs ra ∷ []))).conn_states
            ≡ some cs)
          × (cs.has_peer ≡ true)
          × (cs.peer_seq ≡ seq))
unfolding conn_events conn_event
conn_events-ends vs h a k f fs bytes payload rs ra seq r e l w p =
    let g = conn_events h (udp a) vs in
    let (g', s, is) = clear_total g a k e in
    let (m, c) = (clear_client_tcpf_lem g a k g' e s).0 k in
    let hit = (==_iff k k).1 refl in
    let after : conn_events h (udp a) (vs ++ (ends ∷ [])) ≡ conn_event g (udp a) ends =
      conn_events-append vs (ends ∷ []) h (udp a) in
    let ended = after ∙ is in
    let gone = ap (λ (x : SendHandle). lookup k x.conn_states) ended ∙ c ∙ rw hit refl in
    let (start, (cs, entry)) =
      write-fresh (conn_events h (udp a) (vs ++ (ends ∷ []))) payload a k rs ra r e gone p in
    let wrote : conn_events h (udp a) (vs ++ (ends ∷ writes payload rs ra ∷ [])) ≡ r.1 =
      conn_events-append vs (ends ∷ writes payload rs ra ∷ []) h (udp a)
      ∙ write_any_is (conn_event g (udp a) ends) a payload rs ra r
          (ap (λ x. write x payload a rs ra) (sym after) ∙ p) in
    (
      (ap (λ (x : SendHandle). lookup k x.client_tcpf) ended ∙ m ∙ rw hit refl, gone),
      ap (λ (x : SendHandle). lookup k x.client_tcpf)
            (conn_events-append vs (ends ∷ strm bytes ∷ []) h (udp a))
          ∙ late_entry (conn_event g (udp a) ends) a k f fs bytes e l w,
      (start, (cs, ap (λ (x : SendHandle). lookup k x.conn_states) wrote ∙ entry)),
      (
        record (conn_at (conn_event g (udp a) ends) k rs ra) { peer_seq = seq; has_peer = true },
        ap (λ (x : SendHandle). lookup k x.conn_states)
              (conn_events-append vs (ends ∷ observes seq rs ra ∷ []) h (udp a))
            ∙ late_syn (conn_event g (udp a) ends) a k seq rs ra e,
        refl,
        refl,
      ),
    )
