-- ===== src/Client/Streams/Runs.antt =====
-- A client whose server cannot be reached, and the shutdown of one with a dead connection.
use paqet.Prelude.{ℕ, ◌≡◌, refl, true, false, [], ◌∷◌, none, some, ◌==◌, if◌then◌else◌, arith}
use paqet.Prelude.Int.{pos}
use paqet.Cycler.{FlagCycler, pair, pa, active_strings, force_next, set_idx, len}
use paqet.Client.{
  World, failed, unreachable, TimedConn, new_timed_conn, probe_loop, probe_round, dial_kcp_only,
  last_resort,
}
use paqet.Client.Reconnect.{Live}
use paqet.Client.Reconnect.Leaks.{HasNoLeak}
use paqet.Client.Streams.{Client, Turn, new_strm, start, started, shut_down}
use paqet.Client.Streams.Started.{Returns, first_made, start-new_strm}

abbrev one : FlagCycler
one = record { combos = pair pa pa ∷ []; idx = 0; failures = 0; max_failures = pos 2 }

abbrev dead : World
dead i flags = record { dial = unreachable; verified = false }

no_conn : (t : TimedConn) × (new_timed_conn one dead ≡ some (failed t))
unfolding new_timed_conn probe_loop probe_round dial_kcp_only last_resort active_strings force_next
    set_idx len
no_conn = (_, refl)

start_fails : start ((one, dead) ∷ []) ≡ some ([], false)
unfolding start new_timed_conn probe_loop probe_round dial_kcp_only last_resort active_strings
    force_next set_idx len
start_fails = refl

-- Two connections were made; the first has been closed.
abbrev live : Live
live = record {
  cycler = one;
  current = 1;
  made = 2;
  closed = λ i. if i == 0 then true else false;
  pending = λ i. false;
}

live-HasNoLeak : HasNoLeak live
live-HasNoLeak = record {
  accounted = λ i h. ground (arith, h);
  current_made = omega arith;
  pending_made = λ i h. cc;
}

abbrev turns : ℕ → Turn
turns i = record { probe = record { dial = unreachable; verified = false }; opens = true }

start-new_strm_example :
    (first_made (failed no_conn.0) ≡ false
      → (false ≡ false) × (new_strm turns (started [] 5 (λ i. live)) ≡ none))
    × (first_made (failed no_conn.0) ≡ true
        → Returns (started [] 5 (λ i. live)) (new_strm turns (started [] 5 (λ i. live))))
start-new_strm_example =
    start-new_strm (one, dead) [] (failed no_conn.0) [] false 5 (λ i. live) turns no_conn.1
      start_fails (omega arith)

abbrev client : Client
client = record { iter = record { items = 0 ∷ 1 ∷ []; index = 5 }; conns = λ i. live }

shut_down_runs : ((shut_down client).conns 1).closed 1 ≡ true
unfolding shut_down
shut_down_runs = refl
