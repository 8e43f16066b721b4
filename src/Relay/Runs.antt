-- ===== src/Relay/Runs.antt =====
-- A relay whose first copy fails, and one that is cancelled.
use paqet.Prelude.{◌≡◌, refl, List, [], ◌∷◌, none, some, arith}
use paqet.Relay.{
  Event, copied, cancelled, timeout, returned, handle_tcp, handle_udp, handle_tcp_conn,
  handle_tcp_connect,
}
use paqet.Relay.Once.{outcome, wakes, rest, closed_at, relays-IsDone}

abbrev events : List Event
events = copied (some 5) ∷ cancelled ∷ timeout ∷ copied none ∷ []

stopped : handle_tcp none (cancelled ∷ copied (some 1) ∷ timeout ∷ []) ≡ closed_at (returned none)
unfolding handle_tcp
stopped = refl

relays-IsDone_example :
    (handle_tcp none events ≡ closed_at (returned (outcome events)))
    × (handle_udp none events ≡ closed_at (returned (outcome events)))
    × (handle_tcp_conn none events ≡ closed_at (returned (outcome events)))
    × (handle_tcp_connect none events ≡ closed_at (returned none))
unfolding wakes rest
relays-IsDone_example = relays-IsDone events (omega arith)
