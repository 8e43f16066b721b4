-- ===== src/Send/Maps.antt =====
-- What each operation does to the two maps.
use paqet.Prelude.{
  ℕ, ◌≡◌, refl, ap, ◌∙◌, sym, true, false, List, Option, none, some, ◌==◌, inl, inr, Option-cases,
  if◌then◌else◌, arith, u32,
}
use paqet.Prelude.Assoc.{lookup, insert, lookup-insert}
use paqet.Prelude.Int.{u16_of_ℤ}
use paqet.Flags.{TcpFlags}
use paqet.Iterator.{Iterator, next}
use paqet.Address.{UdpAddr, key, to4}
use paqet.Send.{
  ConnState, SendHandle, Packet, TcpHeader, packet_of, ack_of, build_tcp_header,
  get_or_create_conn_state, observe_at, emit, advance_of, advance_state, next_tcpf, with_flags,
  write,
}

abbrev pub fresh : ℕ → ℕ → ConnState
fresh rs ra = record { seq = u32 rs; ack = u32 ra; peer_seq = 0; has_peer = false }

get_old :
    (h : SendHandle) (k rs ra : ℕ) {cs : ConnState}
    → lookup k h.conn_states ≡ some cs
    → get_or_create_conn_state h k rs ra ≡ (cs, h)
unfolding get_or_create_conn_state
get_old h k rs ra e = rw (e, get_or_create_conn_state)

get_new :
    (h : SendHandle) (k rs ra : ℕ)
    → lookup k h.conn_states ≡ none
    → get_or_create_conn_state h k rs ra
      ≡ (fresh rs ra, record h { conn_states = insert k (fresh rs ra) h.conn_states })
unfolding get_or_create_conn_state
get_new h k rs ra e = rw (e, get_or_create_conn_state)

-- The sequence state that a call at key k works on.
pub conn_at : SendHandle → ℕ → ℕ → ℕ → ConnState
conn_at h k rs ra = (get_or_create_conn_state h k rs ra).0

pub conn_at-some :
    (h : SendHandle) (k rs ra : ℕ) {cs : ConnState}
    → lookup k h.conn_states ≡ some cs
    → conn_at h k rs ra ≡ cs
unfolding conn_at
conn_at-some h k rs ra e = ap (λ p. p.0) (get_old h k rs ra e)

-- A write back at key k after get_or_create changes that entry alone.
put_back :
    (h : SendHandle) (j k rs ra : ℕ) (v : ConnState)
    → lookup j (insert k v (get_or_create_conn_state h k rs ra).1.conn_states)
      ≡ (if k == j then some v else lookup j h.conn_states)
put_back h j k rs ra v = elim (Option-cases (lookup k h.conn_states)) [
  | inl e ↦ rw (get_new h k rs ra e) (
      ground (
        arith,
        lookup-insert j k v (insert k (fresh rs ra) h.conn_states),
        lookup-insert j k (fresh rs ra) h.conn_states,
      ))
  | inr (cs, e) ↦ rw (get_old h k rs ra e) (lookup-insert j k v h.conn_states)
]

pub conn_states-emit :
    (h : SendHandle) (j k : ℕ) (f : TcpFlags) (payload : List ℕ) (a : UdpAddr) (rs ra : ℕ)
    → lookup j (emit h k f payload a rs ra).1.conn_states ≡ (
        if k == j
        then some (advance_state (conn_at h k rs ra) (advance_of f payload))
        else lookup j h.conn_states)
unfolding emit conn_at
conn_states-emit h j k f payload a rs ra = put_back h j k rs ra _

pub conn_states-observe_at :
    (h : SendHandle) (j k seq rs ra : ℕ)
    → lookup j (observe_at h k seq rs ra).conn_states ≡ (
        if k == j
        then some (record (conn_at h k rs ra) { peer_seq = seq; has_peer = true })
        else lookup j h.conn_states)
unfolding observe_at conn_at
conn_states-observe_at h j k seq rs ra = put_back h j k rs ra _

-- Taking the next flags moves one iterator, and leaves the sequence states alone.
pub next_tcpf-conn_states : (h : SendHandle) (k : ℕ) → (next_tcpf h k).1.conn_states ≡ h.conn_states
unfolding next_tcpf
next_tcpf-conn_states h k = elim (Option-cases (lookup k h.client_tcpf)) [
  | inl e ↦ rw (e, next_tcpf) refl
  | inr (it, e) ↦ rw (e, next_tcpf) refl
]

pub next_tcpf-client :
    (h : SendHandle) (k : ℕ) {it : Iterator TcpFlags}
    → lookup k h.client_tcpf ≡ some it
    → (next_tcpf h k).0 ≡ (next it).0
unfolding next_tcpf
next_tcpf-client h k e = rw (e, next_tcpf) refl

pub next_tcpf-shared :
    (h : SendHandle) (k : ℕ) → lookup k h.client_tcpf ≡ none → (next_tcpf h k).0 ≡ (next h.tcp_f).0
unfolding next_tcpf
next_tcpf-shared h k e = rw (e, next_tcpf) refl

pub conn_at-none :
    (h : SendHandle) (k rs ra : ℕ) → lookup k h.conn_states ≡ none → conn_at h k rs ra ≡ fresh rs ra
unfolding conn_at
conn_at-none h k rs ra e = ap (λ p. p.0) (get_new h k rs ra e)

-- The state depends on the entry alone.
pub conn_at-next_tcpf :
    (h : SendHandle) (k rs ra : ℕ) → conn_at (next_tcpf h k).1 k rs ra ≡ conn_at h k rs ra
conn_at-next_tcpf h k rs ra =
    let same = ap (lookup k) (next_tcpf-conn_states h k) in
    elim (Option-cases (lookup k h.conn_states)) [
      | inl e ↦ conn_at-none (next_tcpf h k).1 k rs ra (same ∙ e) ∙ sym (conn_at-none h k rs ra e)
      | inr (cs, e) ↦
          conn_at-some (next_tcpf h k).1 k rs ra (same ∙ e) ∙ sym (conn_at-some h k rs ra e)
    ]

tcp-packet_of :
    (h : SendHandle) (dst : List ℕ) (tcp : TcpHeader) (payload : List ℕ)
    → ((packet_of h dst tcp payload).tcp ≡ tcp) × ((packet_of h dst tcp payload).payload ≡ payload)
unfolding packet_of
tcp-packet_of h dst tcp payload = elim (Option-cases (to4 dst)) [
  | inl e ↦ rw (e, packet_of) (refl, refl)
  | inr (ip, e) ↦ rw (e, packet_of) (refl, refl)
]

header_fields :
    (h : SendHandle) (port : ℕ) (f : TcpFlags) (seq ack val ecr : ℕ)
    → let tcp = build_tcp_header h port f seq ack val ecr in
      (tcp.seq ≡ seq) × (tcp.flags ≡ f) × (f.ack ≡ true → tcp.ack ≡ ack)
unfolding build_tcp_header
header_fields h port f seq ack val ecr = ground arith

-- What a packet shows of the state and the flags that it was made from.
pub emit_packet :
    (h : SendHandle) (k : ℕ) (f : TcpFlags) (payload : List ℕ) (a : UdpAddr) (rs ra : ℕ)
    → let p = (emit h k f payload a rs ra).0 in
      (p.tcp.seq ≡ (conn_at h k rs ra).seq)
      × (p.tcp.flags ≡ f)
      × (p.payload ≡ payload)
      × (f.ack ≡ true → p.tcp.ack ≡ ack_of (conn_at h k rs ra) f)
unfolding emit conn_at
emit_packet h k f payload a rs ra =
    let (e, d) = tcp-packet_of (get_or_create_conn_state h k rs ra).1 a.ip _ payload in
    let (s, g, c) =
      header_fields (get_or_create_conn_state h k rs ra).1 (u16_of_ℤ a.port) f
        (get_or_create_conn_state h k rs ra).0.seq (ack_of (get_or_create_conn_state h k rs ra).0 f)
        _ _ in
    (ap (λ t. t.seq) e ∙ s, ap (λ t. t.flags) e ∙ g, d, λ y. ap (λ t. t.ack) e ∙ c y)

write-key :
    (h : SendHandle) (payload : List ℕ) (a : UdpAddr) (rs ra k : ℕ)
    → key a ≡ some k
    → write h payload a rs ra ≡ with_flags (next_tcpf h k) k payload a rs ra
unfolding write
write-key h payload a rs ra k e = rw (e, write) refl

flags_inv :
    (n : Option TcpFlags × SendHandle) (k : ℕ) (payload : List ℕ) (a : UdpAddr) (rs ra : ℕ)
    {r : Packet × SendHandle}
    → with_flags n k payload a rs ra ≡ some r
    → (f : TcpFlags) × (n.0 ≡ some f) × (emit n.1 k f payload a rs ra ≡ r)
unfolding with_flags
flags_inv (none, h) k payload a rs ra w = cc
flags_inv (some f, h) k payload a rs ra w = (f, refl, cc)

-- A call of Write that returns is `emit` with the flags that are next.
pub write_inv :
    (h : SendHandle) (payload : List ℕ) (a : UdpAddr) (rs ra k : ℕ) {r : Packet × SendHandle}
    → key a ≡ some k
    → write h payload a rs ra ≡ some r
    → (f : TcpFlags) × ((next_tcpf h k).0 ≡ some f)
      × (emit (next_tcpf h k).1 k f payload a rs ra ≡ r)
write_inv h payload a rs ra k e w =
    flags_inv (next_tcpf h k) k payload a rs ra (sym (write-key h payload a rs ra k e) ∙ w)
