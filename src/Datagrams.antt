-- ===== src/Datagrams.antt =====
-- internal/forward/udp.go and UDPHandle of internal/socks/udp_handle.go: the goroutines that write
-- the datagrams of UDP pairs to the streams of the client's pool, and those that read the streams.
-- An Event is what one of them does at one instant, so a schedule is a sequence of Events.
pub mod Drained
mod Runs
use paqet.Prelude.Update.{put, put_other, put_self}
use paqet.Prelude.{
  ℕ, zero, suc, ◌+◌, Bool, true, false, List, [], ◌∷◌, Option, none, some, ◌==◌, if◌then◌else◌,
}
use paqet.Client.{mark}
use paqet.Client.UdpPool.{
  Pool, Attempt, no_strm, bad_header, written, open_strm, discard, keep, delete, unmark,
}

-- `key s` is the key with which stream s came into the pool; `starting s` says that UDP returned
-- it as new and its first datagram is not yet written; `reading s`, that its reader runs.
pub record Flows : Type 0 where
  pub pool : Pool
  pub key : ℕ → ℕ
  pub starting : ℕ → Bool
  pub reading : ℕ → Bool

-- Client.CloseUDP
unfoldable pub close_udp : Flows → ℕ → Flows
close_udp f k = record f { pool = delete f.pool k }

-- The end of UDP for the new stream i: it is new, or the pair has one already.
unfoldable pub stores_new : Flows → ℕ → ℕ → Option ℕ → Flows
stores_new f k i none = record f {
  pool = keep f.pool k i;
  key = put f.key i k;
  starting = mark f.starting i;
}
stores_new f k i (some s) = record f { pool = discard f.pool i }

-- What follows UDP for a new stream: the write, and the start of the reader.
unfoldable pub first_write : Flows → ℕ → Bool → Flows
unfolding close_udp
first_write f s true = record f { starting = unmark f.starting s; reading = mark f.reading s }
first_write f s false = close_udp (record f { starting = unmark f.starting s }) (f.key s)

-- The write to a stream that UDP found in the pool.
unfoldable pub next_write : Flows → ℕ → Bool → Flows
unfolding close_udp
next_write f s true = f
next_write f s false = close_udp f (f.key s)

-- The deferred calls of the reader, after a failed Read or WriteToUDP, or ctx.Done().
unfoldable pub reader_ends : Flows → ℕ → Flows
unfolding close_udp
reader_ends f s = close_udp (record f { reading = unmark f.reading s }) (f.key s)

pub data Event : Type 0 where
  opens : Event
  gives_up : ℕ → Event
  stores : ℕ → ℕ → Event
  -- UDP failed in the forwarder, which closes key 0
  fails : Event
  writes_first writes_next : ℕ → Bool → Event
  ends : ℕ → Event

-- An event that cannot happen changes nothing.
unfoldable pub step : Flows → Event → Flows
unfolding stores_new first_write next_write reader_ends close_udp
step f opens = record f { pool = open_strm f.pool }
step f (gives_up i) = if f.pool.pending i then record f { pool = discard f.pool i } else f
step f (stores k i) = if f.pool.pending i then stores_new f k i (f.pool.strms k) else f
step f fails = close_udp f 0
step f (writes_first s ok) = if f.starting s then first_write f s ok else f
step f (writes_next s ok) = next_write f s ok
step f (ends s) = if f.reading s then reader_ends f s else f

unfoldable pub steps : Flows → List Event → Flows
unfolding step
steps f [] = f
steps f (e ∷ es) = steps (step f e) es

-- The events of one datagram of the pair with key k that no other goroutine comes between.
abbrev pub events_of : Flows → ℕ → Option ℕ → Attempt → Bool → List Event
events_of f k (some s) attempt ok = writes_next s ok ∷ []
events_of f k none no_strm ok = fails ∷ []
events_of f k none bad_header ok = opens ∷ gives_up f.pool.opened ∷ fails ∷ []
events_of f k none written ok = opens ∷ stores k f.pool.opened ∷ writes_first f.pool.opened ok ∷ []

-- handleUDPPacket, for what ReadFromUDP gives: an error, or a number of bytes from a client; here
-- no other goroutine comes between its parts, which `steps` of a longer schedule can interleave.
unfoldable pub handle_udp_packet : Flows → Option ℕ → ℕ → Attempt → Bool → Flows
unfolding steps
handle_udp_packet f none k attempt ok = f
handle_udp_packet f (some zero) k attempt ok = f
handle_udp_packet f (some (suc n)) k attempt ok =
    steps f (events_of f k (f.pool.strms k) attempt ok)
