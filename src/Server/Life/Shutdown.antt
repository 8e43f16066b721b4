-- ===== src/Server/Life/Shutdown.antt =====
-- The shutdown of internal/server/server.go: once the context is cancelled, the goroutines take a
-- bounded number of steps, and until Start has returned one of them can take a step.
use paqet.Prelude.{
  ℕ, suc, ◌+◌, ◌≤◌, ◌<◌, ◌≡◌, ◌≢◌, ◌⊎◌, inl, inr, refl, ap, Bool, true, false, Option-cases, some,
  get_elem?, arith,
}
use paqet.Prelude.Places.{total, total-set_at, total-append, counted}
use paqet.Send.{SendHandle, clear_client_tcpf}
use paqet.Server.{Outcome, panics, handle_strm}
use paqet.Server.Life.{
  Listening, ConnPhase, clearing, closing, Conn, StrmPhase, waiting, working, Strm, Status, running,
  World, start, conn_of, strm_of, Step, signal, close_listener, look, leave, accept, refuse, again,
  leave_failed, conn_look, conn_leave, conn_strm, conn_fail, conn_clear, conn_panic, conn_close,
  strm_handle, strm_panic, strm_close, return, Run, here, next,
}
use paqet.Server.Life.Count.{listening_live, conn_live, strm_live, Inv, start-Inv, Run-Inv}

-- The steps that a goroutine can still take once the context is cancelled, with those of the
-- goroutines that it can still start.
abbrev pub listening_left : Listening → ℕ
listening_left Listening.looking = 1
listening_left Listening.accepting = 5
listening_left Listening.failed = 1
listening_left Listening.ended = 0

abbrev pub conn_left : Conn → ℕ
conn_left c = elim c.phase [
  | ConnPhase.looking ↦ 3
  | ConnPhase.accepting ↦ 6
  | clearing ↦ 2
  | closing ↦ 1
  | ConnPhase.ended ↦ 0
]

abbrev pub strm_left : Strm → ℕ
strm_left s = elim s.phase [ waiting ↦ 2 | working ↦ 1 | StrmPhase.ended ↦ 0 ]

abbrev pub status_left : Status → ℕ
status_left running = 1
status_left _ = 0

abbrev pub closed_left : Bool → ℕ
closed_left true = 0
closed_left false = 1

abbrev pub steps_left : World → ℕ
steps_left w =
    status_left w.status
    + closed_left w.listener_closed
    + listening_left w.listening
    + total conn_left w.conns
    + total strm_left w.strms

Step-steps_left :
    {w u : World}
    → w.status ≡ running
    → w.cancelled ≡ true
    → Step w u
    → (u.cancelled ≡ true) × (steps_left u < steps_left w)
Step-steps_left {w} r k (signal c) = ground (arith, k, c)
Step-steps_left {w} r k (close_listener c l) = ground (arith, k, c, l)
Step-steps_left {w} r k (look l c) = ground (arith, k, l, c)
Step-steps_left {w} r k (leave l c) = ground (arith, k, l, c)
Step-steps_left {w} r k (accept rem l) =
    ground (arith, k, l, total-append conn_left w.conns (conn_of rem))
Step-steps_left {w} r k (refuse l) = ground (arith, k, l)
Step-steps_left {w} r k (again l c) = ground (arith, k, l, c)
Step-steps_left {w} r k (leave_failed l c) = ground (arith, k, l, c)
Step-steps_left {w} r k (conn_look i c at p q) = ground (arith, k, q)
Step-steps_left {w} r k (conn_leave i c at p q) =
    ground (arith, r, k, p, total-set_at conn_left w.conns i c (record c { phase = clearing }) at)
Step-steps_left {w} r k (conn_strm i c bs at p) = ground (
  arith,
  r,
  k,
  p,
  total-set_at conn_left w.conns i c (record c { phase = ConnPhase.looking }) at,
  total-append strm_left w.strms (strm_of c.remote bs),
)
Step-steps_left {w} r k (conn_fail i c at p) =
    ground (arith, r, k, p, total-set_at conn_left w.conns i c (record c { phase = clearing }) at)
Step-steps_left {w} r k (conn_clear i c g at p q) = ground (
  arith,
  r,
  k,
  p,
  total-set_at conn_left w.conns i c (record c { phase = closing; cleared = true }) at,
)
Step-steps_left {w} r k (conn_panic i c at p q) = ground (arith, r, k)
Step-steps_left {w} r k (conn_close i c at p) = ground (
  arith,
  r,
  k,
  p,
  total-set_at conn_left w.conns i c (record c { phase = ConnPhase.ended; closed = true }) at,
)
Step-steps_left {w} r k (strm_handle i s at p q) = ground (
  arith,
  r,
  k,
  p,
  total-set_at strm_left w.strms i s (record s { phase = working; handled = true }) at,
)
Step-steps_left {w} r k (strm_panic i s at p q) = ground (arith, r, k)
Step-steps_left {w} r k (strm_close i s at p) = ground (
  arith,
  r,
  k,
  p,
  total-set_at strm_left w.strms i s (record s { phase = StrmPhase.ended; closed = true }) at,
)
Step-steps_left {w} r k (return z) = ground (arith, r, k)

-- Once the context is cancelled, the server takes at most as many steps as `steps_left` says.
pub Run-steps_left :
    (w u : World) (n : ℕ)
    → w.cancelled ≡ true
    → Run w n u
    → (u.cancelled ≡ true) × (n + steps_left u ≤ steps_left w)
Run-steps_left w u n k here = (k, omega arith)
Run-steps_left w u (suc n) k (next r s st) =
    let (k', l) = Run-steps_left w _ n k r in
    let (k'', l') = Step-steps_left s k' st in (k'', omega (arith, l, l'))

conn_one : (c : Conn) → (conn_live c ≡ 0) ⊎ (conn_live c ≡ 1)
conn_one c = ground arith

strm_one : (s : Strm) → (strm_live s ≡ 0) ⊎ (strm_live s ≡ 1)
strm_one s = ground arith

panic_or_not : (o : Outcome) → (o ≡ panics) ⊎ (o ≢ panics)
panic_or_not panics = inl refl
panic_or_not Outcome.done = inr (λ e. cc)
panic_or_not (Outcome.failed x) = inr (λ e. cc)
panic_or_not (Outcome.tcp a) = inr (λ e. cc)
panic_or_not (Outcome.udp a) = inr (λ e. cc)

module _ (w : World) (k : w.cancelled ≡ true) where
  conn_steps :
      (p : ConnPhase) (i : ℕ) (c : Conn)
      → c.phase ≡ p
      → get_elem? w.conns i ≡ some c
      → conn_live c ≡ 1
      → (u : World) × Step w u
  conn_steps ConnPhase.looking i c p at l = (_, conn_leave i c at p k)
  conn_steps ConnPhase.accepting i c p at l = (_, conn_fail i c at p)
  conn_steps clearing i c p at l = elim (Option-cases (clear_client_tcpf w.send c.remote)) [
    | inl e ↦ (_, conn_panic i c at p e)
    | inr (h, e) ↦ (_, conn_clear i c h at p e)
  ]
  conn_steps closing i c p at l = (_, conn_close i c at p)
  conn_steps ConnPhase.ended i c p at l = absurd (ground (arith, p, l))

  strm_steps :
      (p : StrmPhase) (i : ℕ) (s : Strm)
      → s.phase ≡ p
      → get_elem? w.strms i ≡ some s
      → strm_live s ≡ 1
      → (u : World) × Step w u
  strm_steps waiting i s p at l =
      elim (panic_or_not (handle_strm w.send s.remote s.bytes).outcome) [
        | inl e ↦ (_, strm_panic i s at p e)
        | inr e ↦ (_, strm_handle i s at p e)
      ]
  strm_steps working i s p at l = (_, strm_close i s at p)
  strm_steps StrmPhase.ended i s p at l = absurd (ground (arith, p, l))

  group_steps : Inv w → w.listening ≡ Listening.ended → (u : World) × Step w u
  group_steps h e = elim (counted conn_live w.conns conn_one) [
    | inr (i, c, at, l) ↦ conn_steps c.phase i c refl at l
    | inl z ↦ elim (counted strm_live w.strms strm_one) [
      | inr (i, s, at, l) ↦ strm_steps s.phase i s refl at l
      | inl z' ↦
          let listen = ap listening_live e in (_, return (omega (arith, h.counted, z, z', listen)))
    ]
  ]

  steps : Inv w → (l : Listening) → w.listening ≡ l → (u : World) × Step w u
  steps h Listening.looking e = (_, leave e k)
  steps h Listening.accepting e = (_, refuse e)
  steps h Listening.failed e = (_, leave_failed e k)
  steps h Listening.ended e = group_steps h e

-- Once a signal has come, the server shuts down: from there the goroutines take no more than
-- `steps_left` steps in any order, and some goroutine can take one until Start has returned or the
-- process has panicked, where Accept and AcceptStrm fail and relays end.
pub shuts_down :
    (h : SendHandle) (n : ℕ) (w : World)
    → Run (start h) n w
    → w.cancelled ≡ true
    → (m : ℕ) (u : World) → Run w m u
    → (m + steps_left u ≤ steps_left w) × (u.status ≡ running → (v : World) × Step u v)
shuts_down h n w r k m u s =
    let (k', l) = Run-steps_left w u m k s in
    (l, λ _. steps u k' (Run-Inv (Run-Inv (start-Inv h) r) s) u.listening refl)
