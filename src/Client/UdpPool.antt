-- ===== src/Client/UdpPool.antt =====
-- internal/client/udp.go and udp_pool.go: the streams of UDP pairs, shared by goroutines. A key is
-- the hash of a pair, a stream is a number in the order of opening. An Act is what one goroutine
-- does at one instant: under the pool's lock, or one result of its work outside it.
pub mod Strays
use paqet.Prelude.Update.{put, put_other, put_self}
use paqet.Prelude.{
  ℕ, ◌+◌, Bool, true, false, List, [], ◌∷◌, Option, none, some, ◌==◌, if◌then◌else◌,
}
use paqet.Client.{mark}

-- `pending i`: the goroutine that opened stream i in UDP has not come to the second look-up.
pub record Pool : Type 0 where
  pub strms : ℕ → Option ℕ
  pub opened : ℕ
  pub closed : ℕ → Bool
  pub pending : ℕ → Bool

abbrev pub unmark : (ℕ → Bool) → ℕ → ℕ → Bool
unmark p i j = if j == i then false else p j

-- newStrm gave a stream.
unfoldable pub open_strm : Pool → Pool
open_strm p = record p { opened = p.opened + 1; pending = mark p.pending p.opened }

-- newStrm.Close(), when the address or the header fails or the race is lost.
unfoldable pub discard : Pool → ℕ → Pool
discard p i = record p { closed = mark p.closed i; pending = unmark p.pending i }

unfoldable pub keep : Pool → ℕ → ℕ → Pool
keep p k i = record p { strms = put p.strms k (some i); pending = unmark p.pending i }

-- The second look-up, under the lock, with the new stream i.
unfoldable pub store : Pool → ℕ → ℕ → Pool
unfolding discard keep
store p k i = elim (p.strms k) [ none ↦ keep p k i | some s ↦ discard p i ]

-- udpPool.delete
unfoldable pub delete : Pool → ℕ → Pool
delete p k = elim (p.strms k) [
  | none ↦ record p { strms = put p.strms k none }
  | some s ↦ record p { strms = put p.strms k none; closed = mark p.closed s }
]

pub data Act : Type 0 where
  opens : Act
  gives_up : ℕ → Act
  stores : ℕ → ℕ → Act
  deletes : ℕ → Act

unfoldable pub act : Pool → Act → Pool
unfolding open_strm discard store delete
act p opens = open_strm p
act p (gives_up i) = if p.pending i then discard p i else p
act p (stores k i) = if p.pending i then store p k i else p
act p (deletes k) = delete p k

unfoldable pub acts : Pool → List Act → Pool
unfolding act
acts p [] = p
acts p (a ∷ rest) = acts (act p a) rest

-- What the work outside the lock comes to: newStrm fails; the address or the header does; or not.
pub data Attempt : Type 0 where
  no_strm bad_header written : Attempt

-- The results of UDP: a stream with `new` and the key, or an error with the key 0.
pub data Udp : Type 0 where
  strm : ℕ → Bool → ℕ → Udp
  failed : Udp

abbrev pub stored : Pool → ℕ → ℕ → Pool × Udp
stored p k i = (store p k i, elim (p.strms k) [ none ↦ strm i true k | some s ↦ strm s false k ])

abbrev pub try_udp : Pool → ℕ → Attempt → List Act → Pool × Udp
try_udp p k no_strm between = (p, failed)
try_udp p k bad_header between = (discard (acts (open_strm p) between) p.opened, failed)
try_udp p k written between = stored (acts (open_strm p) between) k p.opened

-- UDP, with what other goroutines do while it works outside the lock.
unfoldable pub udp : Pool → ℕ → Attempt → List Act → Pool × Udp
unfolding acts open_strm discard store
udp p k attempt between = elim (p.strms k) [
  | some s ↦ (p, strm s false k)
  | none ↦ try_udp p k attempt between
]
