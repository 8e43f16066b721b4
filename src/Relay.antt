-- ===== src/Relay.antt =====
-- The relays between a connection and a stream: handleTCP and handleUDP of internal/server/tcp.go
-- and udp.go, handleTCPConn of internal/forward/tcp.go, handleTCPConnect of
-- internal/socks/tcp_handle.go. Two goroutines copy and report one error each on a channel; the
-- handler is the machine below, and an Event is what its select sees next. An error is a number,
-- `none` is nil.
pub mod Once
mod Runs
use paqet.Prelude.{ℕ, ◌+◌, Bool, true, false, List, [], ◌∷◌, Option, none, some, if◌then◌else◌}

pub data Event : Type 0 where
  -- a goroutine's copy ended
  copied : Option ℕ → Event
  -- ctx.Done()
  cancelled : Event
  -- the two seconds of the timer that runs are over
  timeout : Event

-- Where the handler stands: in the outer select; in the inner select of its first case, with that
-- case's error; in the outer or the inner select of its second case; or it has returned.
pub data Phase : Type 0 where
  waiting : Phase
  draining : Option ℕ → Phase
  stopping last_drain : Phase
  returned : Option ℕ → Phase

-- `once` is closeOnce; the numbers count the calls of Close.
pub record Relay : Type 0 where
  pub phase : Phase
  pub once : Bool
  pub conn_closes : ℕ
  pub strm_closes : ℕ

abbrev pub start : Relay
start = record { phase = waiting; once = false; conn_closes = 0; strm_closes = 0 }

-- closeBoth
unfoldable pub close_both : Relay → Relay
close_both r =
    if r.once
    then r
    else record r { once = true; conn_closes = r.conn_closes + 1; strm_closes = r.strm_closes + 1 }

abbrev pub at_phase : Relay → Phase → Relay
at_phase r p = record r { phase = p }

-- What the handler does with one event. No timer runs in the outer select.
unfoldable pub select_step : Relay → Phase → Event → Relay
unfolding close_both
select_step r waiting (copied e) = at_phase (close_both r) (draining e)
select_step r waiting cancelled = at_phase (close_both r) stopping
select_step r waiting timeout = r
select_step r (draining e) cancelled = r
select_step r (draining e) (copied _) = at_phase r (returned e)
select_step r (draining e) timeout = at_phase r (returned e)
select_step r stopping (copied _) = at_phase r last_drain
select_step r stopping timeout = at_phase r (returned none)
select_step r stopping cancelled = r
select_step r last_drain (copied _) = at_phase r (returned none)
select_step r last_drain timeout = at_phase r (returned none)
select_step r last_drain cancelled = r
select_step r (returned e) _ = r

unfoldable pub run : Relay → List Event → Relay
unfolding select_step
run r [] = r
run r (e ∷ es) = run (select_step r r.phase e) es

-- The handlers, given the error of the dial or of opening the stream, if any.
unfoldable pub handle_tcp : Option ℕ → List Event → Relay
unfolding run
handle_tcp (some e) es = at_phase start (returned (some e))
handle_tcp none es = run start es

unfoldable pub handle_udp : Option ℕ → List Event → Relay
unfolding run
handle_udp (some e) es = at_phase start (returned (some e))
handle_udp none es = run start es

unfoldable pub handle_tcp_conn : Option ℕ → List Event → Relay
unfolding run
handle_tcp_conn (some e) es = at_phase start (returned (some e))
handle_tcp_conn none es = run start es

-- handleTCPConnect only logs the error of a copy, and defers closeBoth.
unfoldable pub drop_error : Relay → Phase → Relay
unfolding close_both
drop_error r (returned e) = at_phase (close_both r) (returned none)
drop_error r _ = r

unfoldable pub handle_tcp_connect : Option ℕ → List Event → Relay
unfolding run drop_error
handle_tcp_connect (some e) es = at_phase start (returned (some e))
handle_tcp_connect none es = let r = run start es in drop_error r r.phase
