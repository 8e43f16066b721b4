-- ===== src/Cycler/Runs.antt =====
-- A cycler at concrete flags.
use paqet.Prelude.{◌+◌, ◌/◌, ◌%◌, ◌≡◌, refl, true, false, List, [], ◌∷◌, some, arith, length}
use paqet.Prelude.Int.{pos}
use paqet.Flags.{TcpFlags, no_flags, parse_flag_str, tcpf_to_str}
use paqet.Cycler.{
  FlagCycler, FlagPair, pair, pa, a, sa, new_flag_cycler, active, active_strings, run, Call, fails,
  succeeds, forces_next,
}
use paqet.Cycler.Invariant.{IsValid, run-new_flag_cycler}
use paqet.Cycler.Failures.{at, fail_times, fail_times_lem}

abbrev push_ack : List TcpFlags
push_ack = record no_flags { psh = true; ack = true } ∷ []

abbrev calls : List Call
calls = fails ∷ fails ∷ forces_next ∷ succeeds ∷ []

abbrev three : FlagCycler
three = record {
  combos = pair pa pa ∷ pair a pa ∷ pair sa sa ∷ [];
  idx = 0;
  failures = 0;
  max_failures = pos 2;
}

fail_times_lem_example :
    fail_times 5 three
    ≡ at three
        ((three.idx + (three.failures + 5) / 2) % length three.combos)
        ((three.failures + 5) % 2)
fail_times_lem_example = fail_times_lem 5 2 three refl (omega arith) (omega arith)

run-new_flag_cycler_example :
    ((p : FlagPair) × (active_strings (run (new_flag_cycler push_ack push_ack false (pos 2)) calls)
        ≡ some p)
      × (active (run (new_flag_cycler push_ack push_ack false (pos 2)) calls)
          ≡ some (parse_flag_str p.lf, parse_flag_str p.rf)))
    × ((run (new_flag_cycler push_ack push_ack false (pos 2)) calls).combos
        ≡ (new_flag_cycler push_ack push_ack false (pos 2)).combos)
    × IsValid
        (pair (tcpf_to_str push_ack) (tcpf_to_str push_ack))
        (run (new_flag_cycler push_ack push_ack false (pos 2)) calls)
run-new_flag_cycler_example = run-new_flag_cycler push_ack push_ack false (pos 2) calls
