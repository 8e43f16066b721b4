-- ===== src/Relay/Once.antt =====
-- Each end is closed once, and the handler returns.
use paqet.Prelude.{ℕ, ◌+◌, ◌≤◌, ◌≡◌, refl, true, List, [], ◌∷◌, Option, none, arith}
use paqet.Relay.{
  Event, copied, cancelled, timeout, Phase, draining, stopping, last_drain, returned, Relay, start,
  run, handle_tcp, handle_udp, handle_tcp_conn, handle_tcp_connect,
}

-- The error of the relay: that of the first copy to end, unless the context was cancelled before.
unfoldable pub outcome : List Event → Option ℕ
outcome [] = none
outcome (copied e ∷ es) = e
outcome (cancelled ∷ es) = none
outcome (timeout ∷ es) = outcome es

-- What ends a wait for the other copy.
unfoldable pub wakes : List Event → ℕ
wakes [] = 0
wakes (copied e ∷ es) = wakes es + 1
wakes (timeout ∷ es) = wakes es + 1
wakes (cancelled ∷ es) = wakes es

-- The events after the first end of a copy or cancellation.
unfoldable pub rest : List Event → List Event
rest [] = []
rest (copied e ∷ es) = es
rest (cancelled ∷ es) = es
rest (timeout ∷ es) = rest es

-- Both ends closed once.
abbrev pub closed_at : Phase → Relay
closed_at p = record { phase = p; once = true; conn_closes = 1; strm_closes = 1 }

run_returned :
    (es : List Event) (e : Option ℕ) → run (closed_at (returned e)) es ≡ closed_at (returned e)
unfolding run
run_returned [] e = refl
run_returned (x ∷ es) e = run_returned es e

run_draining :
    (es : List Event) (e : Option ℕ)
    → 1 ≤ wakes es
    → run (closed_at (draining e)) es ≡ closed_at (returned e)
unfolding run wakes
run_draining [] e h = absurd (omega (arith, h))
run_draining (copied x ∷ es) e h = run_returned es e
run_draining (timeout ∷ es) e h = run_returned es e
run_draining (cancelled ∷ es) e h = run_draining es e h

run_last :
    (es : List Event) → 1 ≤ wakes es → run (closed_at last_drain) es ≡ closed_at (returned none)
unfolding run wakes
run_last [] h = absurd (omega (arith, h))
run_last (copied x ∷ es) h = run_returned es none
run_last (timeout ∷ es) h = run_returned es none
run_last (cancelled ∷ es) h = run_last es h

run_stopping :
    (es : List Event) → 2 ≤ wakes es → run (closed_at stopping) es ≡ closed_at (returned none)
unfolding run wakes
run_stopping [] h = absurd (omega (arith, h))
run_stopping (copied x ∷ es) h = run_last es (omega (arith, h))
run_stopping (timeout ∷ es) h = run_returned es none
run_stopping (cancelled ∷ es) h = run_stopping es h

run-start :
    (es : List Event) → 2 ≤ wakes (rest es) → run start es ≡ closed_at (returned (outcome es))
unfolding run rest outcome wakes
run-start [] h = absurd (omega (arith, h))
run-start (copied e ∷ es) h = run_draining es e (omega (arith, h))
run-start (cancelled ∷ es) h = run_stopping es h
run-start (timeout ∷ es) h = run-start es h

-- Once a copy ends or the context is cancelled, two further ends of a copy or timeouts bring each
-- of the four relays to its return, whatever else happens and in every order. Then both ends have
-- been closed exactly once, and the result is the error of the first copy to end, or nil if the
-- context was cancelled first; the SOCKS5 relay returns nil.
pub relays-IsDone :
    (es : List Event)
    → 2 ≤ wakes (rest es)
    → (handle_tcp none es ≡ closed_at (returned (outcome es)))
      × (handle_udp none es ≡ closed_at (returned (outcome es)))
      × (handle_tcp_conn none es ≡ closed_at (returned (outcome es)))
      × (handle_tcp_connect none es ≡ closed_at (returned none))
unfolding handle_tcp handle_udp handle_tcp_conn handle_tcp_connect
relays-IsDone es h = let e = run-start es h in (e, e, e, rw e refl)
