-- ===== src/Datagrams/Runs.antt =====
-- Two pairs; the second one's stream fails, and its reader ends late.
use paqet.Prelude.{ℕ, suc, ◌≡◌, refl, true, false, ◌||◌, List, [], ◌∷◌, none, some, arith}
use paqet.Client.UdpPool.{Pool, written, open_strm, keep, delete}
use paqet.Client.UdpPool.Strays.{HasNoStray}
use paqet.Datagrams.{
  Flows, Event, opens, stores, writes_first, writes_next, ends, steps, handle_udp_packet,
}
use paqet.Datagrams.Drained.{IsDrained, handle_udp_packet-IsDrained}

abbrev empty : Pool
empty = record { strms = λ k. none; opened = 0; closed = λ i. false; pending = λ i. false }

abbrev flows : Flows
flows = record { pool = empty; key = λ s. 0; starting = λ s. false; reading = λ s. false }

empty-HasNoStray : HasNoStray empty
empty-HasNoStray = record {
  held = λ i h c d. absurd (omega (arith, h));
  pooled_open = λ k i e. cc;
  pooled_done = λ k i e. cc;
  pooled_old = λ k i e. cc;
  one_key = λ j k i e f. cc;
  pending_old = λ i e. cc;
  pending_open = λ i e. cc;
  closed_old = λ i e. cc;
}

flows-IsDrained : IsDrained flows
flows-IsDrained = record {
  sound = empty-HasNoStray;
  own_key = λ k s e. cc;
  drained = λ k s e. cc;
  once = λ s. refl;
  fresh = λ s e. cc;
  old = λ s e. cc;
}

-- The pair 7 gets stream 1 after a failed write to stream 0, whose reader then ends.
abbrev events : List Event
events =
    opens
    ∷ stores 7 0
    ∷ writes_first 0 true
    ∷ writes_next 0 false
    ∷ opens
    ∷ stores 7 1
    ∷ writes_first 1 true
    ∷ ends 0
    ∷ []

closes_next : (steps flows events).pool.closed 1 ≡ true
unfolding steps open_strm keep delete
closes_next = refl

handle_udp_packet-IsDrained_example :
    let g = handle_udp_packet (steps flows events) (some (suc 11)) 7 written true in
    IsDrained (steps flows events)
    × IsDrained g
    × ((s : ℕ) × (g.pool.strms 7 ≡ some s) × ((g.starting s || g.reading s) ≡ true))
handle_udp_packet-IsDrained_example = handle_udp_packet-IsDrained events flows 11 7 flows-IsDrained
