-- ===== src/Client/Streams.antt =====
-- newStrm (internal/client/dial.go) over the timedConns of the iterator, TCP (tcp.go), and Start
-- (client.go). A timedConn is a number, and `conns` says how it stands.
pub mod Retry
pub mod Header
pub mod Started
mod Runs
use paqet.Prelude.Update.{put, put_other, put_self}
use paqet.Prelude.{
  ℕ, zero, suc, ◌+◌, Bool, true, false, List, [], ◌∷◌, ◌++◌, Option, none, some, ◌==◌,
  if◌then◌else◌, length,
}
use paqet.Prelude.Text.{Text}
use paqet.Prelude.Maybe.{◌>>=◌}
use paqet.Iterator.{Iterator, next}
use paqet.Protocol.{Addr, Result, ok, err, zero_proto, p_tcp, frame}
use paqet.Conf.{Env, Try, ok, fails, new_addr}
use paqet.Cycler.{FlagCycler}
use paqet.Client.{Probe, World, Start, working, unverified, failed, new_timed_conn, TimedConn, mark}
use paqet.Client.Reconnect.{Live, new_conn}

pub record Client : Type 0 where
  pub iter : Iterator ℕ
  pub conns : ℕ → Live

-- The world's answers to one round of newStrm: to a reconnect, and to OpenStrm.
pub record Turn : Type 0 where
  pub probe : Probe
  pub opens : Bool

-- A stream: its timedConn and its connection.
abbrev pub Strm : Type 0
Strm = ℕ × ℕ

abbrev pub opened : ℕ → Bool → Option ℕ → Option Strm
opened i opens none = none
opened i opens (some c) = if opens then some (i, c) else none

-- newConn on timedConn i, and OpenStrm.
unfoldable pub try_conn : Client → ℕ → Turn → Client × Option Strm
unfolding new_conn
try_conn c i t =
    let (l, r) = new_conn (c.conns i) t.probe in
    (record c { conns = put c.conns i l }, opened i t.opens r)

-- One round; `none` is a panic, of an iterator without items.
unfoldable pub round : Client → Turn → Option (Client × Option Strm)
unfolding try_conn
round c t = let (o, it) = next c.iter in o >>= λ i. some (try_conn (record c { iter = it }) i t)

-- n rounds, the first being round k.
unfoldable pub rounds : ℕ → ℕ → (ℕ → Turn) → Client → Option (Client × Option Strm)
unfolding round
rounds zero k w c = some (c, none)
rounds (suc n) k w c = round c (w k) >>= λ (r : Client × Option Strm). elim r.1 [
  | some s ↦ some (r.0, some s)
  | none ↦ rounds n (suc k) w r.0
]

abbrev pub max_retries : ℕ
max_retries = 3

unfoldable pub new_strm : (ℕ → Turn) → Client → Option (Client × Option Strm)
unfolding rounds
new_strm w c = rounds max_retries 0 w c

-- How TCP ends: without a stream; with the stream closed; or with a stream on which the header was
-- written.
pub data Tcp : Type 0 where
  no_strm : Tcp
  closed : Strm → Tcp
  strm : Strm → List ℕ → Tcp

-- The header; `writes` is what the stream's Write comes to.
abbrev pub tcp_header : Strm → Bool → Result (List ℕ) → Tcp
tcp_header s writes (ok bs) = if writes then strm s bs else closed s
tcp_header s writes (err e) = closed s

abbrev pub tcp_on : Strm → Bool → Try Addr → Tcp
tcp_on s writes (ok a) =
    tcp_header s writes (frame (record zero_proto { type = p_tcp; addr = some a }))
tcp_on s writes (fails e) = closed s

abbrev pub tcp_after : Env → Text → Bool → Option Strm → Tcp
tcp_after env addr writes none = no_strm
tcp_after env addr writes (some s) = tcp_on s writes (new_addr env addr)

-- Client.TCP
unfoldable pub tcp : Env → (ℕ → Turn) → Text → Bool → Client → Option (Client × Tcp)
unfolding new_strm
tcp env w addr writes c =
    new_strm w c >>= λ (r : Client × Option Strm). some (r.0, tcp_after env addr writes r.1)

-- The loop of Start: the timedConns made, and whether there was an error. `none` is a panic.
abbrev pub start_one : Start → Option TimedConn
start_one (working t) = some t
start_one (unverified t) = some t
start_one (failed t) = none

unfoldable pub start : List (FlagCycler × World) → Option (List TimedConn × Bool)
start [] = some ([], true)
start (x ∷ xs) =
    let rest = start xs in
    new_timed_conn x.0 x.1 >>= λ s. elim (start_one s) [
      | none ↦ some ([], false)
      | some t ↦ rest >>= λ (r : List TimedConn × Bool). some (t ∷ r.0, r.1)
    ]

abbrev pub count_from : ℕ → ℕ → List ℕ
count_from k zero = []
count_from k (suc n) = k ∷ count_from (suc k) n

-- The client after Start, `conns` being how its timedConns stand by then.
unfoldable pub started : List TimedConn → ℕ → (ℕ → Live) → Client
started ts index conns = record {
  iter = record { items = count_from 0 (length ts); index = index };
  conns = conns;
}

-- timedConn.close, and the goroutine of Start that closes all of them when the context is done.
abbrev pub close : Live → Live
close l = record l { closed = mark l.closed l.current }

unfoldable pub close_all : List ℕ → (ℕ → Live) → ℕ → Live
close_all [] conns = conns
close_all (i ∷ items) conns = close_all items (put conns i (close (conns i)))

unfoldable pub shut_down : Client → Client
unfolding close_all
shut_down c = record c { conns = close_all c.iter.items c.conns }
