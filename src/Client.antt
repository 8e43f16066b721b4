-- ===== src/Client.antt =====
-- The client's connections: internal/client/timed_conn.go and dial.go, with KCP and smux outside
-- the repository. A connection is a number, in the order in which connections are made; a socket
-- that fails before that leaves none.
pub mod Startup
pub mod Reconnect
pub mod UdpPool
pub mod Verify
pub mod Streams
mod Runs
use paqet.Prelude.{
  ℕ, zero, suc, ◌+◌, Bool, true, false, not, List, [], ◌∷◌, Option, none, some, ◌==◌, if◌then◌else◌,
}
use paqet.Prelude.Int.{pos}
use paqet.Cycler.{FlagCycler, FlagPair, active_strings, fail, succeed, force_next, set_idx, len}

-- What dialling comes to: socket.New or kcp.Dial fails; the TCPF handshake fails and the new
-- connection is closed; or a connection is made.
pub data Dial : Type 0 where
  unreachable handshake_fails connects : Dial

-- The world's answers to one attempt with given flags: of the dial, and of verifyBidirectional.
pub record Probe : Type 0 where
  pub dial : Dial
  pub verified : Bool

-- `conn` is nil before the first connection. Connection i exists if i < made.
pub record TimedConn : Type 0 where
  pub cycler : FlagCycler
  pub conn : Option ℕ
  pub made : ℕ
  pub closed : ℕ → Bool

abbrev pub mark : (ℕ → Bool) → ℕ → ℕ → Bool
mark p i j = if j == i then true else p j

abbrev pub close : TimedConn → ℕ → TimedConn
close t i = record t { closed = mark t.closed i }

-- A connection or an error, with the state that is left.
pub data Dialled : Type 0 where
  conn : ℕ → TimedConn → Dialled
  error : TimedConn → Dialled

-- dialKCPOnly
unfoldable pub dial_kcp_only : TimedConn → Dial → Dialled
dial_kcp_only t unreachable = error t
dial_kcp_only t handshake_fails = error (close (record t { made = t.made + 1 }) t.made)
dial_kcp_only t connects = conn t.made (record t { made = t.made + 1 })

-- createConn: as dialKCPOnly, and the connection is closed if it is not verified.
unfoldable pub create_conn : TimedConn → Probe → Dialled
unfolding dial_kcp_only
create_conn t p = elim (dial_kcp_only t p.dial) [
  | error t' ↦ error t'
  | conn i t' ↦ if p.verified then conn i t' else error (close t' i)
]

pub data Round : Type 0 where
  found next : TimedConn → Round

-- One round of the startup probe. A connection that verifies is kept.
unfoldable pub probe_round : TimedConn → Probe → Round
unfolding dial_kcp_only
probe_round t p = elim (dial_kcp_only t p.dial) [
  | error t' ↦ next (record t' { cycler = force_next t'.cycler })
  | conn i t' ↦
      if p.verified
      then found (record t' { conn = some i })
      else next (record (close t' i) { cycler = force_next t'.cycler })
]

-- The world, which answers attempt i when it is made with the flags that are active.
abbrev pub World : Type 0
World = ℕ → FlagPair → Probe

-- n rounds from attempt i on; `none` is the panic of an index out of range.
unfoldable pub probe_loop : ℕ → ℕ → World → TimedConn → Option Round
unfolding probe_round
probe_loop zero i w t = some (next t)
probe_loop (suc n) i w t = elim (active_strings t.cycler) [
  | none ↦ none
  | some flags ↦ elim (probe_round t (w i flags)) [
    | found t' ↦ some (found t')
    | next t' ↦ probe_loop n (suc i) w t'
  ]
]

-- How newTimedConn ends: with a verified connection, with one that is not verified, or with an
-- error.
pub data Start : Type 0 where
  working unverified failed : TimedConn → Start

pub finish : Dialled → Option Start
finish (error t) = some (failed t)
finish (conn i t) = some (unverified (record t { conn = some i }))

unfoldable pub last_resort : World → TimedConn → Option Start
unfolding dial_kcp_only finish
last_resort w t =
    let t0 : TimedConn = record t { cycler = set_idx t.cycler (pos 0) } in
    elim (active_strings t0.cycler) [
      | none ↦ none
      | some flags ↦ finish (dial_kcp_only t0 (w (len t.cycler) flags).dial)
    ]

abbrev pub unconnected : FlagCycler → TimedConn
unconnected fc = record { cycler = fc; conn = none; made = 0; closed = λ _. false }

pub after_rounds : World → Option Round → Option Start
after_rounds w none = none
after_rounds w (some (found t)) = some (working t)
after_rounds w (some (next t)) = last_resort w t

unfoldable pub new_timed_conn : FlagCycler → World → Option Start
unfolding probe_loop after_rounds last_resort
new_timed_conn fc w = after_rounds w (probe_loop (len fc) 0 w (unconnected fc))
