-- ===== src/Send/Sequence.antt =====
-- The packets to one peer form one stream, whatever is sent to others in between.
use paqet.Prelude.{
  ℕ, ◌+◌, ◌^◌, ◌<◌, ◌≡◌, refl, ap, ◌∙◌, sym, true, false, List, [], ◌∷◌, Option, some, ◌==◌, inl,
  inr, Bool-cases, ==_iff, arith, u32, length, All,
}
use paqet.Prelude.Maybe.{◌>>=◌, >>=-eq-some, some_equal}
use paqet.Prelude.Assoc.{lookup}
use mathlib.Core.Path.{ap₂, subst}
use paqet.Flags.{TcpFlags}
use paqet.Address.{UdpAddr, udp, key}
use paqet.Send.{
  ConnState, SendHandle, Packet, observe_at, observe_peer_syn, advance_of, advance_state, ack_of,
  next_tcpf, write,
}
use paqet.Send.Maps.{
  conn_at, conn_at-some, conn_states-emit, conn_states-observe_at, next_tcpf-conn_states,
  conn_at-next_tcpf, emit_packet, write_inv,
}

-- A call of Write, with the numbers that rand.Uint32 would return in it.
pub record Call : Type 0 where
  pub payload : List ℕ
  pub addr : UdpAddr
  pub rand_seq : ℕ
  pub rand_ack : ℕ

-- The calls in order; each packet with the key of its address. `none` is a panic of one of them.
unfoldable pub writes : SendHandle → List Call → Option (List (ℕ × Packet) × SendHandle)
writes h [] = some ([], h)
writes h (c ∷ cs) = do
  k ← key c.addr
  (p, h') ← write h c.payload c.addr c.rand_seq c.rand_ack
  (ps, h'') ← writes h' cs
  some ((k, p) ∷ ps, h'')

-- The sequence numbers that a packet takes: one if it has SYN or FIN or no data, else one for each
-- byte.
abbrev pub numbers : TcpFlags → List ℕ → ℕ
numbers f [] = 1
numbers f (x ∷ xs) = elim f.syn [
  | true ↦ 1
  | false ↦ elim f.fin [ true ↦ 1 | false ↦ length (x ∷ xs) ]
]

-- The data of a call is shorter than 4 GiB.
abbrev pub IsShort : Call → Type 0
IsShort c = length c.payload < 2 ^ 32

advance_of-numbers :
    (f : TcpFlags) (payload : List ℕ)
    → length payload < 2 ^ 32
    → advance_of f payload ≡ numbers f payload
unfolding advance_of
advance_of-numbers f [] h = refl
advance_of-numbers f (x ∷ xs) h = ground (arith, h)

-- The packets under key k carry sequence numbers from s on, each the last plus what the last took,
-- modulo 2 ^ 32.
abbrev pub IsStream : ℕ → ℕ → List (ℕ × Packet) → Type 0
IsStream k s [] = Unit {0}
IsStream k s ((j, p) ∷ ps) = elim (j == k) [
  | true ↦ (p.tcp.seq ≡ s) × IsStream k (u32 (s + numbers p.tcp.flags p.payload)) ps
  | false ↦ IsStream k s ps
]

IsStream-hit :
    (k s j : ℕ) (p : Packet) (ps : List (ℕ × Packet))
    → (j == k) ≡ true
    → p.tcp.seq ≡ s
    → IsStream k (u32 (s + numbers p.tcp.flags p.payload)) ps
    → IsStream k s ((j, p) ∷ ps)
IsStream-hit k s j p ps e h t = rw (e, IsStream) (h, t)

IsStream-miss :
    (k s j : ℕ) (p : Packet) (ps : List (ℕ × Packet))
    → (j == k) ≡ false
    → IsStream k s ps
    → IsStream k s ((j, p) ∷ ps)
IsStream-miss k s j p ps e t = rw (e, IsStream) t

same_key : (k : ℕ) → (k == k) ≡ true
same_key k = (==_iff k k).1 refl

-- A packet takes the number of the state under its key, and the state goes on behind it.
write_same :
    (h : SendHandle) (c : Call) (k : ℕ) {cs : ConnState} {r : Packet × SendHandle}
    → key c.addr ≡ some k
    → write h c.payload c.addr c.rand_seq c.rand_ack ≡ some r
    → lookup k h.conn_states ≡ some cs
    → (r.0.tcp.seq ≡ cs.seq)
      × (lookup k r.1.conn_states ≡ some (advance_state cs (advance_of r.0.tcp.flags r.0.payload)))
      × (r.0.payload ≡ c.payload)
write_same h c k {cs} {r} e w l =
    let (f, nf, em) = write_inv h c.payload c.addr c.rand_seq c.rand_ack k e w in
    let g = (next_tcpf h k).1 in
    let (sq, fl, pl, _) = emit_packet g k f c.payload c.addr c.rand_seq c.rand_ack in
    let at : conn_at g k c.rand_seq c.rand_ack ≡ cs =
      conn_at-next_tcpf h k c.rand_seq c.rand_ack ∙ conn_at-some h k c.rand_seq c.rand_ack l in
    (
      ap (λ (x : Packet × SendHandle). x.0.tcp.seq) (sym em)
          ∙ sq
          ∙ ap (λ (x : ConnState). x.seq) at,
      ap (λ (x : Packet × SendHandle). lookup k x.1.conn_states) (sym em)
          ∙ conn_states-emit g k k f c.payload c.addr c.rand_seq c.rand_ack
          ∙ rw (same_key k) (
              ap₂ (λ (x : ConnState) (n : ℕ). some (advance_state x n)) at
                (ap₂ advance_of (sym fl ∙ ap (λ (x : Packet × SendHandle). x.0.tcp.flags) em)
                  (sym pl ∙ ap (λ (x : Packet × SendHandle). x.0.payload) em))),
      ap (λ (x : Packet × SendHandle). x.0.payload) (sym em) ∙ pl,
    )

write_other :
    (h : SendHandle) (c : Call) (j k : ℕ) {r : Packet × SendHandle}
    → key c.addr ≡ some j
    → write h c.payload c.addr c.rand_seq c.rand_ack ≡ some r
    → (j == k) ≡ false
    → lookup k r.1.conn_states ≡ lookup k h.conn_states
write_other h c j k {r} e w ne =
    let (f, nf, em) = write_inv h c.payload c.addr c.rand_seq c.rand_ack j e w in
    let g = (next_tcpf h j).1 in
    ap (λ (x : Packet × SendHandle). lookup k x.1.conn_states) (sym em)
    ∙ conn_states-emit g k j f c.payload c.addr c.rand_seq c.rand_ack
    ∙ rw ne (ap (lookup k) (next_tcpf-conn_states h j))

-- The calls of a run, taken apart.
writes_inv :
    (h : SendHandle) (c : Call) (cs : List Call) {r : List (ℕ × Packet) × SendHandle}
    → writes h (c ∷ cs) ≡ some r
    → (j : ℕ) × (p : Packet × SendHandle) × (rest : List (ℕ × Packet) × SendHandle) × (key c.addr
        ≡ some j)
      × (write h c.payload c.addr c.rand_seq c.rand_ack ≡ some p)
      × (writes p.1 cs ≡ some rest)
      × (((j, p.0) ∷ rest.0, rest.1) ≡ r)
unfolding writes
writes_inv h c cs w =
    let (j, e, w1) = >>=-eq-some (key c.addr) _ w in
    let (p, f, w2) = >>=-eq-some (write h c.payload c.addr c.rand_seq c.rand_ack) _ w1 in
    let (rest, g, w3) = >>=-eq-some (writes p.1 cs) _ w2 in (j, p, rest, e, f, g, some_equal w3)

-- Between any calls of Write to any addresses, each with less than 4 GiB of data, from a state with
-- the entry s under k, the packets sent under k form one stream of sequence numbers from s.seq on:
-- each carries the number of the last, plus one if that had SYN or FIN or no data, else plus the
-- length of its data, modulo 2 ^ 32.
pub writes-IsStream :
    (cs : List Call) (h : SendHandle) (k : ℕ) (s : ConnState) (r : List (ℕ × Packet) × SendHandle)
    → All IsShort cs
    → lookup k h.conn_states ≡ some s
    → writes h cs ≡ some r
    → IsStream k s.seq r.0
unfolding writes advance_state
writes-IsStream [] h k s r short l w =
    subst (λ (x : List (ℕ × Packet) × SendHandle). IsStream k s.seq x.0) (some_equal w) tt
writes-IsStream (c ∷ cs) h k s r short l w =
    let (j, p, rest, e, f, g, eq) = writes_inv h c cs w in
    subst (λ (x : List (ℕ × Packet) × SendHandle). IsStream k s.seq x.0) eq
      (elim (Bool-cases (j == k)) [
        | inl same ↦
            let at : j ≡ k = (==_iff j k).0 same in
            let (sq, next_state, pl) = write_same h c k (e ∙ ap some at) f l in
            let fits : length p.0.payload < 2 ^ 32 =
              subst (λ (b : List ℕ). length b < 2 ^ 32) (sym pl) short.0 in
            IsStream-hit k s.seq j p.0 rest.0 same sq (
              subst (λ n. IsStream k (u32 (s.seq + n)) rest.0)
                (advance_of-numbers p.0.tcp.flags p.0.payload fits)
                (writes-IsStream cs p.1 k _ rest short.1 next_state g))
        | inr ne ↦
            IsStream-miss k s.seq j p.0 rest.0 ne
              (writes-IsStream cs p.1 k s rest short.1 (write_other h c j k e f ne ∙ l) g)
      ])

observed :
    (h : SendHandle) (a : UdpAddr) (seq rs ra k : ℕ) {h' : SendHandle}
    → key a ≡ some k
    → observe_peer_syn h (udp a) seq rs ra ≡ some h'
    → observe_at h k seq rs ra ≡ h'
unfolding observe_peer_syn
observed h a seq rs ra k {h'} e o =
    some_equal (subst (λ (m : Option SendHandle). m ≡ some h') (rw (e, observe_peer_syn) refl) o)

-- The entry of a peer after its SYN was observed.
observed_entry :
    (h : SendHandle) (a : UdpAddr) (seq rs ra k : ℕ) {h' : SendHandle}
    → key a ≡ some k
    → observe_peer_syn h (udp a) seq rs ra ≡ some h'
    → lookup k h'.conn_states
      ≡ some (record (conn_at h k rs ra) { peer_seq = seq; has_peer = true })
observed_entry h a seq rs ra k e o =
    subst
      (λ (g : SendHandle).
        lookup k g.conn_states
        ≡ some (record (conn_at h k rs ra) { peer_seq = seq; has_peer = true }))
      (observed h a seq rs ra k e o) (conn_states-observe_at h k k seq rs ra ∙ rw (same_key k) refl)

ack_of_syn_ack :
    (cs : ConnState) (f : TcpFlags)
    → f.syn ≡ true
    → f.ack ≡ true
    → cs.has_peer ≡ true
    → ack_of cs f ≡ u32 (cs.peer_seq + 1)
unfolding ack_of
ack_of_syn_ack cs f s a p = ground arith

-- A SYN+ACK that follows the observation of a peer's SYN acknowledges that SYN: its ack is the
-- observed sequence number plus one, modulo 2 ^ 32.
pub write-observe_peer_syn :
    (h h' : SendHandle) (a : UdpAddr) (seq rs ra k : ℕ) (payload : List ℕ) (rs' ra' : ℕ)
    (r : Packet × SendHandle)
    → key a ≡ some k
    → observe_peer_syn h (udp a) seq rs ra ≡ some h'
    → write h' payload a rs' ra' ≡ some r
    → r.0.tcp.flags.syn ≡ true
    → r.0.tcp.flags.ack ≡ true
    → r.0.tcp.ack ≡ u32 (seq + 1)
write-observe_peer_syn h h' a seq rs ra k payload rs' ra' r e o w sy ac =
    let (f, nf, em) = write_inv h' payload a rs' ra' k e w in
    let (sq, fl, pl, ak) = emit_packet (next_tcpf h' k).1 k f payload a rs' ra' in
    let flags : f ≡ r.0.tcp.flags = sym fl ∙ ap (λ (x : Packet × SendHandle). x.0.tcp.flags) em in
    let syn = ap (λ (x : TcpFlags). x.syn) flags ∙ sy in
    let ack = ap (λ (x : TcpFlags). x.ack) flags ∙ ac in
    let state =
      conn_at-next_tcpf h' k rs' ra'
      ∙ conn_at-some h' k rs' ra' (observed_entry h a seq rs ra k e o) in
    ap (λ (x : Packet × SendHandle). x.0.tcp.ack) (sym em)
    ∙ ak ack
    ∙ ap (λ (x : ConnState). ack_of x f) state
    ∙ ack_of_syn_ack _ f syn ack refl
