-- ===== src/Forwarder/Runs.antt =====
-- One connection is accepted before the shutdown.
use paqet.Prelude.{◌+◌, ◌≤◌, ◌≡◌, ◌⊎◌, refl, true, false}
use paqet.Prelude.Places.{total}
use paqet.Forwarder.{
  Tcp, listening, Step, cancel, close_listener, accept, refuse, leave, ends, Run, here, next,
}
use paqet.Forwarder.Ends.{loop_live, conn_live, steps_left, listen_tcp_ends}

shut : (w : Tcp) × Run listening 3 w
unfolding listening
shut = (_, next (next (next here (accept refl refl)) (cancel refl)) (close_listener refl refl))

over : (u : Tcp) × Run shut.0 3 u
unfolding shut listening
over = (_, next (next (next here (refuse refl)) (ends 0 refl)) (leave refl refl))

is_shut : (shut.0.cancelled ≡ true) × (shut.0.listener_open ≡ false) × (over.0.wg ≡ 0)
unfolding over shut listening
is_shut = (refl, refl, refl)

listen_tcp_ends_example :
    (3 + steps_left over.0 ≤ steps_left shut.0)
    × (over.0.wg ≡ loop_live over.0.loop + total conn_live over.0.conns)
    × ((over.0.wg ≡ 0) ⊎ ((v : Tcp) × Step over.0 v))
listen_tcp_ends_example = listen_tcp_ends 3 3 shut.0 over.0 shut.1 is_shut.0 is_shut.1 over.1
