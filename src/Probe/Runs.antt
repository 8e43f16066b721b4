-- ===== src/Probe/Runs.antt =====
-- A network that passes two of the ten combinations.
use paqet.Prelude.{zero, suc}
use paqet.Probe.{pong, no_pong, World}

abbrev world : World
world zero lf rf = no_pong
world (suc zero) lf rf = pong 40
world (suc (suc zero)) lf rf = pong 30
world (suc (suc (suc i))) lf rf = no_pong
