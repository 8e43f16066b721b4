-- ===== src/Forwarder/Ends.antt =====
-- How listenTCP and the goroutines of its connections end.
use paqet.Prelude.{ℕ, ◌+◌, ◌≤◌, ◌<◌, ◌≡◌, ◌⊎◌, inl, inr, refl, ap, ◌∙◌, true, false, some, arith}
use paqet.Prelude.Places.{total, total-set_at, total-append, counted}
use paqet.Forwarder.{
  Loop, accepting, failed, ended, Conn, handled, closed, Tcp, listening, Step, cancel,
  close_listener, accept, refuse, again, leave, ends, Run, here, next,
}

abbrev pub loop_live : Loop → ℕ
loop_live ended = 0
loop_live _ = 1

abbrev pub conn_live : Conn → ℕ
conn_live handled = 1
conn_live closed = 0

record Inv (w : Tcp) : Type 0 where
  count : w.wg ≡ loop_live w.loop + total conn_live w.conns
  left : w.loop ≡ ended → (w.cancelled ≡ true) × (w.listener_open ≡ false)

Step-Inv : {w u : Tcp} → Step w u → Inv w → Inv u
Step-Inv {w} (cancel c) v = ground (arith, v)
Step-Inv {w} (close_listener c o) v = ground (arith, v)
Step-Inv {w} (accept l o) v = ground (arith, v, total-append conn_live w.conns handled)
Step-Inv {w} (refuse l) v = ground (arith, v)
Step-Inv {w} (again l c) v = ground (arith, v)
Step-Inv {w} (leave l c) v = ground (arith, v)
Step-Inv {w} (ends i at) v = ground (arith, v, total-set_at conn_live w.conns i handled closed at)

-- The steps that are left once the listener is closed.
abbrev pub loop_left : Loop → ℕ
loop_left accepting = 2
loop_left failed = 1
loop_left ended = 0

abbrev pub steps_left : Tcp → ℕ
steps_left w = loop_left w.loop + total conn_live w.conns

Step-steps_left :
    {w u : Tcp}
    → Step w u
    → w.cancelled ≡ true
    → w.listener_open ≡ false
    → (u.cancelled ≡ true) × (u.listener_open ≡ false) × (steps_left u < steps_left w)
Step-steps_left {w} (cancel c) k o = ground (arith, k, c)
Step-steps_left {w} (close_listener c o') k o = ground (arith, o, o')
Step-steps_left {w} (accept l o') k o = ground (arith, o, o')
Step-steps_left {w} (refuse l) k o = ground (arith, k, o, l)
Step-steps_left {w} (again l c) k o = ground (arith, k, c)
Step-steps_left {w} (leave l c) k o = ground (arith, k, o, l)
Step-steps_left {w} (ends i at) k o =
    ground (arith, k, o, total-set_at conn_live w.conns i handled closed at)

Run-Inv : {w u : Tcp} {n : ℕ} → Inv w → Run w n u → Inv u
Run-Inv v here = v
Run-Inv v (next r s) = Step-Inv s (Run-Inv v r)

Run-steps_left :
    {w u : Tcp} {n : ℕ}
    → w.cancelled ≡ true
    → w.listener_open ≡ false
    → Run w n u
    → (u.cancelled ≡ true) × (u.listener_open ≡ false) × (n + steps_left u ≤ steps_left w)
Run-steps_left k o here = (k, o, omega arith)
Run-steps_left k o (next r s) =
    let (k', o', l) = Run-steps_left k o r in
    let (k'', o'', l') = Step-steps_left s k' o' in (k'', o'', omega (arith, l, l'))

conn_one : (c : Conn) → (conn_live c ≡ 0) ⊎ (conn_live c ≡ 1)
conn_one handled = inr refl
conn_one closed = inl refl

is_handled : (c : Conn) → conn_live c ≡ 1 → c ≡ handled
is_handled handled h = refl
is_handled closed h = absurd (omega (arith, h))

goes :
    (w : Tcp)
    → Inv w
    → w.cancelled ≡ true
    → (l : Loop) → w.loop ≡ l
    → (w.wg ≡ 0) ⊎ ((u : Tcp) × Step w u)
goes w v k accepting e = inr (_, refuse e)
goes w v k failed e = inr (_, leave e k)
goes w v k ended e = elim (counted conn_live w.conns conn_one) [
  | inl z ↦ inl (ground (arith, v.count, e, z))
  | inr (i, c, at, l) ↦ inr (_, ends i (at ∙ ap some (is_handled c l)))
]

-- From the start of listenTCP to the closing of its listener by a shutdown, in any order of its
-- goroutines: from then on no connection is accepted, at most `steps_left` steps are taken, and one
-- is possible, where Accept fails and handlers end, until the loop has returned and every
-- connection is closed, so that the wait group is at zero.
pub listen_tcp_ends :
    (n m : ℕ) (w u : Tcp)
    → Run listening n w
    → w.cancelled ≡ true
    → w.listener_open ≡ false
    → Run w m u
    → (m + steps_left u ≤ steps_left w)
      × (u.wg ≡ loop_live u.loop + total conn_live u.conns)
      × ((u.wg ≡ 0) ⊎ ((v : Tcp) × Step u v))
unfolding listening
listen_tcp_ends n m w u r k o s =
    let start : Inv listening = record { count = refl; left = λ e. cc } in
    let v = Run-Inv (Run-Inv start r) s in
    let (k', o', l) = Run-steps_left k o s in (l, v.count, goes u v k' u.loop refl)
