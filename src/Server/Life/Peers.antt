-- ===== src/Server/Life/Peers.antt =====
-- What the server's goroutines do to the shared maps of its packet connection, for a peer that is
-- none of theirs.
use paqet.Prelude.{ℕ, ◌≡◌, refl, sym, ap, ◌∙◌, false, List, [], ◌∷◌, some, ◌==◌, All, All-append}
use mathlib.Core.Path.{subst}
use paqet.Prelude.Places.{All_get, All_set, All_unset, All_init}
use paqet.Address.{UdpAddr, NetAddr, udp, key}
use paqet.Prelude.Maybe.{some_equal}
use paqet.Send.{SendHandle, Packet, clear_client_tcpf, observe_peer_syn, write}
use paqet.Send.Others.{observe_is, observe_at-others, write-others}
use paqet.Server.{handle_strm, ends, conn_event}
use paqet.Server.Session.{SameAt, SameAt-trans, strm-SameAt, event-SameAt}
use paqet.Server.Life.{
  Conn, Strm, World, start, Step, accept, conn_look, conn_leave, conn_strm, conn_fail, conn_clear,
  conn_close, strm_handle, strm_close, Traffic, quiet, steps, observes, writes,
}

-- A peer whose key is another one.
abbrev pub Other : ℕ → NetAddr → Type 0
Other j r = (a : UdpAddr) × (k : ℕ) × (r ≡ udp a) × (key a ≡ some k) × ((k == j) ≡ false)

abbrev pub OtherConn : ℕ → Conn → Type 0
OtherConn j c = Other j c.remote

abbrev pub OtherStrm : ℕ → Strm → Type 0
OtherStrm j s = Other j s.remote

udp_equal : {a b : UdpAddr} → udp a ≡ udp b → a ≡ b
udp_equal e = cc

handle-SameAt :
    (j : ℕ) (h : SendHandle) (r : NetAddr) (bs : List ℕ)
    → Other j r
    → SameAt j h (handle_strm h r bs).send
handle-SameAt j h r bs (a, k, e, ke, ne) =
    subst (λ r. SameAt j h (handle_strm h r bs).send) (sym e) (strm-SameAt h a j k bs ke ne)

clear-SameAt :
    (j : ℕ) (h g : SendHandle) (r : NetAddr)
    → Other j r
    → clear_client_tcpf h r ≡ some g
    → SameAt j h g
unfolding conn_event
clear-SameAt j h g r (a, k, e, ke, ne) c =
    let is : clear_client_tcpf h (udp a) ≡ some g = ap (clear_client_tcpf h) (sym e) ∙ c in
    let ended : conn_event h (udp a) ends ≡ g = rw (is, conn_event) refl in
    subst (SameAt j h) ended (event-SameAt h a j k ends ke ne)

module _ (j : ℕ) {w : World} where
  -- The connections before a step are among those after it.
  before : {u : World} → Step w u → All (OtherConn j) u.conns → All (OtherConn j) w.conns
  before (accept r l) a = All_init (OtherConn j) w.conns _ a
  before (conn_look i c at p q) a = All_unset (OtherConn j) w.conns i c _ at (λ o. o) a
  before (conn_leave i c at p q) a = All_unset (OtherConn j) w.conns i c _ at (λ o. o) a
  before (conn_strm i c bs at p) a = All_unset (OtherConn j) w.conns i c _ at (λ o. o) a
  before (conn_fail i c at p) a = All_unset (OtherConn j) w.conns i c _ at (λ o. o) a
  before (conn_clear i c h at p q) a = All_unset (OtherConn j) w.conns i c _ at (λ o. o) a
  before (conn_close i c at p) a = All_unset (OtherConn j) w.conns i c _ at (λ o. o) a
  before _ a = a

  after :
      {u : World}
      → Step w u
      → All (OtherConn j) w.conns
      → All (OtherStrm j) w.strms
      → All (OtherStrm j) u.strms × SameAt j w.send u.send
  after (conn_strm i c bs at p) a b = (
    All-append (OtherStrm j) w.strms (_ ∷ []) b (All_get (OtherConn j) w.conns i c at a, tt),
    (refl, refl),
  )
  after (conn_clear i c h at p q) a b =
      (b, clear-SameAt j w.send h c.remote (All_get (OtherConn j) w.conns i c at a) q)
  after (strm_handle i s at p q) a b =
      let o = All_get (OtherStrm j) w.strms i s at b in
      (All_set (OtherStrm j) w.strms i _ b o, handle-SameAt j w.send s.remote s.bytes o)
  after (strm_close i s at p) a b =
      (All_set (OtherStrm j) w.strms i _ b (All_get (OtherStrm j) w.strms i s at b), (refl, refl))
  after _ a b = (b, (refl, refl))

abbrev pub OtherAddr : ℕ → UdpAddr → Type 0
OtherAddr j a = Other j (udp a)

observe-SameAt :
    (j : ℕ) (h g : SendHandle) (a : UdpAddr) (seq rs ra : ℕ)
    → OtherAddr j a
    → observe_peer_syn h (udp a) seq rs ra ≡ some g
    → SameAt j h g
observe-SameAt j h g a seq rs ra (b, k, e, ke, ne) o =
    let at : key a ≡ some k = ap key (udp_equal e) ∙ ke in
    subst (SameAt j h) (some_equal (sym (observe_is h a k seq rs ra at) ∙ o))
      (observe_at-others j k ne h seq rs ra)

write-SameAt :
    (j : ℕ) (h : SendHandle) (payload : List ℕ) (a : UdpAddr) (rs ra : ℕ) (r : Packet × SendHandle)
    → OtherAddr j a
    → write h payload a rs ra ≡ some r
    → SameAt j h r.1
write-SameAt j h payload a rs ra r (b, k, e, ke, ne) w =
    write-others j k ne h payload a rs ra r (ap key (udp_equal e) ∙ ke) w

Traffic-both :
    (j : ℕ) (h : SendHandle) (ps : List UdpAddr) (w : World)
    → Traffic (start h) ps w
    → All (OtherConn j) w.conns
    → All (OtherAddr j) ps
    → All (OtherStrm j) w.strms × SameAt j h w.send
unfolding start
Traffic-both j h [] w quiet a o = (tt, (refl, refl))
Traffic-both j h ps w (steps {u = u} r s st) a o =
    let (b, m) = Traffic-both j h ps u r (before j st a) o in
    let (b', m') = after j st (before j st a) b in (b', SameAt-trans j h u.send w.send m m')
Traffic-both j h (x ∷ ps) w (observes {u = u} _ seq rs ra g r e) a o =
    let (b, m) = Traffic-both j h ps u r a o.1 in
    (b, SameAt-trans j h u.send g m (observe-SameAt j u.send g x seq rs ra o.0 e))
Traffic-both j h (x ∷ ps) w (writes {u = u} _ payload rs ra p r e) a o =
    let (b, m) = Traffic-both j h ps u r a o.1 in
    (b, SameAt-trans j h u.send p.1 m (write-SameAt j u.send payload x rs ra p o.0 e))

-- Whatever the server's goroutines do from its start on, with SYNs observed and packets written
-- between their steps in any order, changes neither the flags nor the sequence state of a peer
-- whose key is that of none of the connections and of none of the addresses of these packets.
pub Traffic-SameAt :
    (j : ℕ) (h : SendHandle) (ps : List UdpAddr) (w : World)
    → Traffic (start h) ps w
    → All (OtherConn j) w.conns
    → All (OtherAddr j) ps
    → SameAt j h w.send
Traffic-SameAt j h ps w r a o = (Traffic-both j h ps w r a o).1
