-- ===== src/Socket/Refine.antt =====
-- Every run of a PacketConn is a run of the channel that it promises.
use paqet.Prelude.{
  All_weaken, All, ℕ, ◌≡◌, refl, ap, ◌∙◌, sym, Bool, true, false, List, [], ◌∷◌, ◌++◌, map, Option,
  none, some, inl, inr, Bool-cases, ltb, length,
}
use Prim.Native.Nat.{suc}
use mathlib.Core.Path.{subst}
use mathlib.Core.List.{map-append}
use paqet.Prelude.Maybe.{>>=-eq-some, some_equal}
use paqet.Address.{UdpAddr}
use paqet.Socket.Total.{HasKey, run_total}
use paqet.Socket.{
  RecvPacket, pooled, oversized, PacketConn, get_buf, copy_payload, put_back, Received, fatal, idle,
  packet, correlate, receive, receive_if, hand_over, give_up, Way, from_channel, by_context,
  by_deadline, Read, read_head, read_from, Event, receives, hands_over, gives_up, cancels,
  reads_from, sets_deadline, drops, capacity, step, run,
}
use paqet.Socket.Spec
use paqet.Socket.Spec.{Message, Channel}
use paqet.Socket.Buffers.{
  Owned, IsOwned, put_back-Owned, message, OnPending-both, tail-Owned, lost-Owned, sent-Owned,
  drop-Owned, pending_message, view,
}
use paqet.Socket.Buffers.Filled.{get_buf-Taken, copy_payload-Filled, Filled}

receive-Filled :
    (c : PacketConn) (choice : ℕ) (payload : List ℕ) (addr : UdpAddr)
    → IsOwned c
    → Filled c payload addr (copy_payload (get_buf c choice) payload addr)
receive-Filled c choice payload addr v =
    let (t, same) = get_buf-Taken c choice v in
    let (o, e) = copy_payload-Filled (get_buf c choice).1 (get_buf c choice).0 payload addr t in
    (o, e ∙ same (some (record { bytes = payload; addr = addr })))

-- A step of the receiving loop.
abbrev Simulates : PacketConn → Channel → Type 0
Simulates c' d = IsOwned c' × (view c' ≡ d)

length-map {ℓ} : {A B : Type ℓ} (f : A → B) (xs : List A) → length (map f xs) ≡ length xs
length-map f [] = refl
length-map f (x ∷ xs) = ap suc (length-map f xs)

receive_refines :
    (c : PacketConn) (r : Received) (choice : ℕ) (c' : PacketConn)
    → IsOwned c
    → receive c r choice ≡ some c'
    → Simulates c' (Spec.accept (view c) r)
unfolding receive Spec.accept
receive_refines c fatal choice c' v e =
    subst (λ x. Simulates x (Spec.accept (view c) fatal)) (some_equal e) (v, refl)
receive_refines c idle choice c' v e =
    subst (λ x. Simulates x (Spec.accept (view c) idle)) (some_equal e)
      (elim (Bool-cases c.cancelled) [ inl b ↦ rw b (v, refl) | inr b ↦ rw b (v, refl) ])
receive_refines c (packet payload addr syn seq rs ra) choice c' v e =
    let (h, eh, er) = >>=-eq-some (correlate c.send addr syn seq rs ra) _ e in
    subst (λ x. Simulates x (Spec.accept (view c) (packet payload addr syn seq rs ra)))
      (some_equal er) (receive-Filled (record c { send = h }) choice payload addr v)

-- The head of the queue, taken off and given back.
read_head_refines :
    (c : PacketConn) (size : ℕ) (q : List RecvPacket)
    → Owned c.made c.free q c.pending
    → IsOwned c
    → let (c', r) = read_head c size q in
      IsOwned c' × ((view c', r) ≡ Spec.take_head (view c) size (map (message c.bufs) q))
unfolding put_back
read_head_refines c size [] v w = (w, refl)
read_head_refines c size (oversized addr bytes ∷ ps) v w = (tail-Owned _ _ _ ps c.pending v, refl)
read_head_refines c size (pooled addr i n ∷ ps) v w = (
  put_back-Owned _ _ ps c.pending i (v.held.0 i refl).0
      (All_weaken _ _ ps (λ p h. h i refl) v.distinct.0)
      (OnPending-both _ _ _ c.pending (λ p h k. h.0 i refl) v.apart v.apart)
      (tail-Owned _ _ _ ps c.pending v),
  refl,
)

read_from_refines :
    (c : PacketConn) (size : ℕ) (way : Way)
    → IsOwned c
    → let (c', r) = read_from c size way in
      IsOwned c' × ((view c', r) ≡ Spec.read (view c) size way)
unfolding read_from
read_from_refines c size from_channel v = read_head_refines c size c.queue v v
read_from_refines c size by_context v = (v, refl)
read_from_refines c size by_deadline v = (v, refl)

hand_over_refines :
    (c : PacketConn) (o : Option RecvPacket)
    → Owned c.made c.free c.queue o
    → IsOwned c
    → Simulates (hand_over c o) (Spec.pass_on (view c) (pending_message c.bufs o))
unfolding hand_over
hand_over_refines c none v w = (w, refl)
hand_over_refines c (some p) v w =
    let e = length-map (message c.bufs) c.queue in
    elim (Bool-cases (ltb (length c.queue) capacity)) [
      | inl b ↦
          rw (e, b)
            (
              sent-Owned _ _ c.queue p v,
              ap (λ q. record (view c) { queue = q; pending = none })
                  (map-append (message c.bufs) c.queue (p ∷ [])),
            )
      | inr b ↦ rw (e, b) (w, refl)
    ]

give_up_refines :
    (c : PacketConn) (o : Option RecvPacket)
    → Owned c.made c.free c.queue o
    → IsOwned c
    → Simulates (give_up c o) (Spec.lose (view c) (pending_message c.bufs o))
unfolding give_up put_back
give_up_refines c none v w = (w, refl)
give_up_refines c (some (oversized addr bytes)) v w = elim (Bool-cases c.cancelled) [
  | inl b ↦ rw b (lost-Owned _ _ _ _ v, refl)
  | inr b ↦ rw b (w, refl)
]
give_up_refines c (some (pooled addr i n)) v w = elim (Bool-cases c.cancelled) [
  | inl b ↦ rw b (
    put_back-Owned _ _ c.queue none i (v.held_pending i refl).0
        (All_weaken _ _ c.queue (λ p h e. h i e refl) v.apart) tt (lost-Owned _ _ _ _ v),
    refl,
  )
  | inr b ↦ rw b (w, refl)
]

receive_if_refines :
    (c : PacketConn) (o : Option RecvPacket) (b : Bool) (r : Received) (choice : ℕ)
    (c' : PacketConn)
    → IsOwned c
    → receive_if c o b r choice ≡ some c'
    → Simulates c' (Spec.accept_if (view c) (pending_message c.bufs o) b r)
receive_if_refines c none false r choice c' v e = receive_refines c r choice c' v e
receive_if_refines c none true r choice c' v e =
    subst (λ x. Simulates x (view c)) (some_equal e) (v, refl)
receive_if_refines c (some p) b r choice c' v e =
    subst (λ x. Simulates x (view c)) (some_equal e) (v, refl)

abbrev Follows : PacketConn × List Read → Channel × List Read → Type 0
Follows x y = IsOwned x.0 × ((view x.0, x.1) ≡ y)

follows :
    (x y : PacketConn × List Read) (z : Channel × List Read)
    → some x ≡ some y
    → Follows x z
    → Follows y z
follows x y z e = subst (λ x. Follows x z) (some_equal e)

step_refines :
    (c : PacketConn) (e : Event) (x : PacketConn × List Read)
    → IsOwned c
    → step c e ≡ some x
    → Follows x (Spec.step (view c) e)
unfolding step Spec.step
step_refines c (receives r choice) x v h =
    let (c', eh, er) = >>=-eq-some (receive_if c c.pending c.closed r choice) _ h in
    let (o, s) = receive_if_refines c c.pending c.closed r choice c' v eh in
    follows _ x _ er (o, ap (λ d. (d, [])) s)
step_refines c hands_over x v h =
    let (o, s) = hand_over_refines c c.pending v v in follows _ x _ h (o, ap (λ d. (d, [])) s)
step_refines c gives_up x v h =
    let (o, s) = give_up_refines c c.pending v v in follows _ x _ h (o, ap (λ d. (d, [])) s)
step_refines c cancels x v h = follows _ x _ h (v, refl)
step_refines c (reads_from size way) x v h =
    let (o, s) = read_from_refines c size way v in
    follows _ x _ h (o, ap (λ (d : Channel × Read). (d.0, d.1 ∷ [])) s)
step_refines c (sets_deadline d) x v h = follows _ x _ h (v, refl)
step_refines c (drops i) x v h = follows _ x _ h (drop-Owned _ _ _ c.pending i v, refl)

run_refines_if :
    (c : PacketConn) (es : List Event) (c' : PacketConn) (rs : List Read)
    → IsOwned c
    → run c es ≡ some (c', rs)
    → IsOwned c' × (Spec.run (view c) es ≡ (view c', rs))
unfolding run Spec.run
run_refines_if c [] c' rs v h =
    let (o, q) = subst (λ x. Follows x (view c, [])) (some_equal h) (v, refl) in (o, sym q)
run_refines_if c (e ∷ es) c' rs v h =
    let (x, ex, h') = >>=-eq-some (step c e) _ h in
    let (y, ey, h'') = >>=-eq-some (run x.0 es) _ h' in
    let (o, s) = step_refines c e x v ex in
    let (o', s') = run_refines_if x.0 es y.0 y.1 o ey in
    let q : Spec.run (view c) (e ∷ es) ≡ (view y.0, x.1 ++ y.1) = rw (sym s, s') refl in
    let (p, t) = subst (λ z. Follows z (Spec.run (view c) (e ∷ es))) (some_equal h'') (o', sym q) in
    (p, sym t)

-- Where no buffer is in two places and every packet's address has a key, a run of the PacketConn
-- (recvLoop's rounds, its two ways out of the last select, cancellation, deadlines, reads and the
-- pool's own choices, in any order) does not panic and ends with no buffer in two places; and
-- ReadFrom returns exactly what the channel of messages returns on the same events: every payload
-- as it was received, cut to the size of the reader's slice, in order and once.
pub run_refines :
    (c : PacketConn) (es : List Event)
    → IsOwned c
    → All HasKey es
    → (c' : PacketConn) × (rs : List Read) × (run c es ≡ some (c', rs))
      × IsOwned c'
      × (Spec.run (view c) es ≡ (view c', rs))
run_refines c es v h =
    let (x, e) = run_total es c h in
    let (o, s) = run_refines_if c es x.0 x.1 v e in (x.0, x.1, e, o, s)
