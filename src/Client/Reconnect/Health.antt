-- ===== src/Client/Reconnect/Health.antt =====
-- healthCheckLoop (internal/client/timed_conn.go) beside the goroutines that call newConn, and the
-- shutdown of Client.Start.
pub mod Once
use paqet.Prelude.{
  ℕ, ◌≡◌, ◌≢◌, refl, sym, ap, ◌∙◌, Bool, true, false, ◌||◌, List, [], ◌∷◌, Option, none, some, inl,
  inr, Bool-cases, ◌==◌, ==_iff, if◌then◌else◌, All, arith,
}
use paqet.Prelude.Int.{ℤ, pos, ltb_ℤ}
use paqet.Client.{Dial, unreachable, handshake_fails, connects, Probe, mark}
use paqet.Client.Reconnect.{
  Live, reconnect, install, health_fails, Act, dies, reconnects, installs, health, act, acts,
  created,
}
use paqet.Client.Reconnect.Leaks.{HasNoLeak, act-HasNoLeak}

-- The loop: at its select, in the ping of a connection, or not running.
pub data Checker : Type 0 where
  waits ended : Checker
  pings : ℕ → Checker

pub record Watched : Type 0 where
  pub live : Live
  pub checker : Checker
  pub done : Bool

-- startHealthCheck: the loop runs if the interval is positive.
unfoldable pub start_health_check : ℤ → Live → Watched
start_health_check interval l = record {
  live = l;
  checker = if ltb_ℤ (pos 0) interval then waits else ended;
  done = false;
}

pub data Event : Type 0 where
  -- the context is done; then the loop stops, and Start's goroutine closes the connection
  cancels stops closes : Event
  -- the ticker fires, and the ping ends
  ticks pong no_pong : Event
  session_ends installs_conn : ℕ → Event
  reconnects_with : Probe → Event

abbrev pub tick : Watched → Checker → Watched
tick w waits = record w {
  checker = if w.live.closed w.live.current then waits else pings w.live.current;
}
tick w _ = w

abbrev pub ping_ends : Watched → Bool → Checker → Watched
ping_ends w true (pings i) = record w { checker = waits }
ping_ends w false (pings i) = record w { live = health_fails w.live i; checker = waits }
ping_ends w b _ = w

abbrev pub stop : Watched → Bool → Checker → Watched
stop w true waits = record w { checker = ended }
stop w _ _ = w

-- An event that cannot happen changes nothing.
unfoldable pub step : Watched → Event → Watched
unfolding health_fails act
step w cancels = record w { done = true }
step w stops = stop w w.done w.checker
step w closes = if w.done then record w { live = act w.live (dies w.live.current) } else w
step w ticks = tick w w.checker
step w pong = ping_ends w true w.checker
step w no_pong = ping_ends w false w.checker
step w (session_ends i) = record w { live = act w.live (dies i) }
step w (installs_conn i) = record w { live = act w.live (installs i) }
step w (reconnects_with p) = record w { live = act w.live (reconnects p) }

unfoldable pub steps : Watched → List Event → Watched
unfolding step
steps w [] = w
steps w (e ∷ es) = steps (step w e) es

-- The connections on which the loop counts a failure.
abbrev pub failed_by : Checker → List ℕ → List ℕ
failed_by (pings i) rest = i ∷ rest
failed_by _ rest = rest

unfoldable pub failures : Watched → List Event → List ℕ
unfolding step
failures w [] = []
failures w (no_pong ∷ es) = failed_by w.checker (failures (step w no_pong) es)
failures w (e ∷ es) = failures (step w e) es
