-- ===== src/Send/Others.antt =====
-- What a packet or a SYN of one peer leaves alone: the entries of the other peers in both maps.
use paqet.Prelude.{
  ℕ, ◌≡◌, refl, ap, ◌∙◌, sym, false, List, none, some, ◌==◌, ==_iff, u32, inl, inr, Option-cases,
}
use paqet.Prelude.Assoc.{lookup, lookup-insert}
use paqet.Flags.{TcpFlags}
use paqet.Address.{UdpAddr, udp, key}
use paqet.Send.{
  ConnState, SendHandle, Packet, advance_of, advance_state, get_or_create_conn_state, observe_at,
  observe_peer_syn, emit, next_tcpf, write,
}
use paqet.Send.Maps.{
  conn_at, conn_at-none, conn_states-emit, conn_states-observe_at, next_tcpf-conn_states,
  conn_at-next_tcpf, emit_packet, write_inv,
}

get-client_tcpf :
    (h : SendHandle) (k rs ra : ℕ)
    → (get_or_create_conn_state h k rs ra).1.client_tcpf ≡ h.client_tcpf
unfolding get_or_create_conn_state
get-client_tcpf h k rs ra = elim (Option-cases (lookup k h.conn_states)) [
  | inl e ↦ rw (e, get_or_create_conn_state) refl
  | inr (cs, e) ↦ rw (e, get_or_create_conn_state) refl
]

emit-client_tcpf :
    (h : SendHandle) (k : ℕ) (f : TcpFlags) (payload : List ℕ) (a : UdpAddr) (rs ra : ℕ)
    → (emit h k f payload a rs ra).1.client_tcpf ≡ h.client_tcpf
unfolding emit
emit-client_tcpf h k f payload a rs ra = get-client_tcpf h k rs ra

observe_at-client_tcpf :
    (h : SendHandle) (k seq rs ra : ℕ) → (observe_at h k seq rs ra).client_tcpf ≡ h.client_tcpf
unfolding observe_at
observe_at-client_tcpf h k seq rs ra = get-client_tcpf h k rs ra

next_tcpf-others :
    (h : SendHandle) (j k : ℕ)
    → (k == j) ≡ false
    → lookup j (next_tcpf h k).1.client_tcpf ≡ lookup j h.client_tcpf
unfolding next_tcpf
next_tcpf-others h j k ne = elim (Option-cases (lookup k h.client_tcpf)) [
  | inl e ↦ rw (e, next_tcpf) refl
  | inr (it, e) ↦ rw (e, next_tcpf) (lookup-insert j k _ h.client_tcpf ∙ rw ne refl)
]

-- What ObservePeerSYN comes to for an address with a key.
pub observe_is :
    (h : SendHandle) (a : UdpAddr) (k seq rs ra : ℕ)
    → key a ≡ some k
    → observe_peer_syn h (udp a) seq rs ra ≡ some (observe_at h k seq rs ra)
unfolding observe_peer_syn
observe_is h a k seq rs ra e = rw (e, observe_peer_syn) refl

module _ (j k : ℕ) (ne : (k == j) ≡ false) where
  pub observe_at-others :
      (h : SendHandle) (seq rs ra : ℕ)
      → (lookup j (observe_at h k seq rs ra).client_tcpf ≡ lookup j h.client_tcpf)
        × (lookup j (observe_at h k seq rs ra).conn_states ≡ lookup j h.conn_states)
  observe_at-others h seq rs ra = (
    ap (lookup j) (observe_at-client_tcpf h k seq rs ra),
    conn_states-observe_at h j k seq rs ra ∙ rw ne refl,
  )

  pub write-others :
      (h : SendHandle) (payload : List ℕ) (a : UdpAddr) (rs ra : ℕ) (r : Packet × SendHandle)
      → key a ≡ some k
      → write h payload a rs ra ≡ some r
      → (lookup j r.1.client_tcpf ≡ lookup j h.client_tcpf)
        × (lookup j r.1.conn_states ≡ lookup j h.conn_states)
  write-others h payload a rs ra r e w =
      let (f, nf, em) = write_inv h payload a rs ra k e w in
      let g = (next_tcpf h k).1 in
      (
        ap (λ (x : Packet × SendHandle). lookup j x.1.client_tcpf) (sym em)
            ∙ ap (lookup j) (emit-client_tcpf g k f payload a rs ra)
            ∙ next_tcpf-others h j k ne,
        ap (λ (x : Packet × SendHandle). lookup j x.1.conn_states) (sym em)
            ∙ conn_states-emit g j k f payload a rs ra
            ∙ rw ne (ap (lookup j) (next_tcpf-conn_states h k)),
      )

-- A packet to a peer without a sequence state has the random number, and leaves a state.
pub write-fresh :
    (h : SendHandle) (payload : List ℕ) (a : UdpAddr) (k rs ra : ℕ) (r : Packet × SendHandle)
    → key a ≡ some k
    → lookup k h.conn_states ≡ none
    → write h payload a rs ra ≡ some r
    → (r.0.tcp.seq ≡ u32 rs) × ((cs : ConnState) × (lookup k r.1.conn_states ≡ some cs))
write-fresh h payload a k rs ra r e l w =
    let (f, nf, em) = write_inv h payload a rs ra k e w in
    let g = (next_tcpf h k).1 in
    let (sq, _, _, _) = emit_packet g k f payload a rs ra in
    let at = conn_at-next_tcpf h k rs ra ∙ conn_at-none h k rs ra l in
    let hit = (==_iff k k).1 refl in
    (
      ap (λ (x : Packet × SendHandle). x.0.tcp.seq) (sym em)
          ∙ sq
          ∙ ap (λ (x : ConnState). x.seq) at,
      (
        advance_state (conn_at g k rs ra) (advance_of f payload),
        ap (λ (x : Packet × SendHandle). lookup k x.1.conn_states) (sym em)
            ∙ conn_states-emit g k k f payload a rs ra
            ∙ rw hit refl,
      ),
    )
