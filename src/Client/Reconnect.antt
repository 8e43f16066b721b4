-- ===== src/Client/Reconnect.antt =====
-- newConn (internal/client/dial.go) and healthCheckLoop: goroutines share a timedConn. An Act is
-- what one of them does at one instant: under the mutex, or one result of work outside it.
pub mod Leaks
pub mod Health
use paqet.Prelude.{
  ℕ, ◌+◌, ◌<◌, Bool, true, false, not, ◌&&◌, ◌||◌, List, [], ◌∷◌, Option, none, some, ◌==◌,
  if◌then◌else◌,
}
use paqet.Cycler.{FlagCycler, fail, succeed}
use paqet.Client.{Probe, Dial, TimedConn, Dialled, conn, error, create_conn, mark}

-- A timedConn after its start. `closed i` is what IsClosed says: that the session of connection i
-- is closed, by itself or by Close; a connection whose session has ended by itself is replaced
-- without a Close, which leaves its packet connection open. `pending i` says that a goroutine has
-- made connection i and has not come to the second critical section of newConn.
pub record Live : Type 0 where
  pub cycler : FlagCycler
  pub current : ℕ
  pub made : ℕ
  pub closed : ℕ → Bool
  pub pending : ℕ → Bool

abbrev pub timed : Live → TimedConn
timed l = record { cycler = l.cycler; conn = some l.current; made = l.made; closed = l.closed }

-- createConn returned: an error is counted by Fail; a connection, by Succeed, is then pending.
pub created : Live → Dialled → Live
created l (error t) = record l { cycler = fail t.cycler; made = t.made; closed = t.closed }
created l (conn i t) = record l {
  cycler = succeed t.cycler;
  made = t.made;
  closed = t.closed;
  pending = mark l.pending i;
}

unfoldable pub reconnect : Live → Probe → Live
unfolding created create_conn
reconnect l p = created l (create_conn (timed l) p)

abbrev unmark : (ℕ → Bool) → ℕ → ℕ → Bool
unmark p i j = if j == i then false else p j

-- The second critical section with the new connection i: it wins the race, or is closed.
unfoldable pub install : Live → ℕ → Live
install l i =
    if l.closed l.current
    then record l { current = i; pending = unmark l.pending i }
    else record l { closed = mark l.closed i; pending = unmark l.pending i }

-- The health check's ping on connection i failed.
unfoldable pub health_fails : Live → ℕ → Live
health_fails l i = record l { cycler = fail l.cycler; closed = mark l.closed i }

pub data Act : Type 0 where
  -- a session ends
  dies : ℕ → Act
  reconnects : Probe → Act
  installs health : ℕ → Act

unfoldable pub act : Live → Act → Live
unfolding install health_fails
act l (dies i) = record l { closed = mark l.closed i }
act l (reconnects p) = reconnect l p
act l (installs i) = if l.pending i then install l i else l
act l (health i) = health_fails l i

unfoldable pub acts : Live → List Act → Live
acts l [] = l
acts l (a ∷ rest) = acts (act l a) rest

-- newConn on the timedConn that the iterator gives, with nothing in between: the connection that it
-- returns, or an error.
pub after_created : Live → Dialled → Live × Option ℕ
unfolding install
after_created l (error t) = (created l (error t), none)
after_created l (conn i t) = let l' = install (created l (conn i t)) i in (l', some l'.current)

unfoldable pub new_conn : Live → Probe → Live × Option ℕ
unfolding after_created create_conn
new_conn l p =
    if not (l.closed l.current)
    then (l, some l.current)
    else after_created l (create_conn (timed l) p)
