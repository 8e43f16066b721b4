-- ===== src/Probe.antt =====
-- cmd/probe/probe.go: the flags that it tries, one trial, and the recommendation. A trial's steps
-- are arguments, as is the time of its ping; what is printed is left out, the descriptions too.
pub mod Parse
pub mod Best
mod Runs
use paqet.Prelude.{
  ℕ, suc, Bool, true, false, ◌&&◌, List, [], ◌∷◌, Option, none, some, ◌==◌, if◌then◌else◌, ltb,
}
use paqet.Prelude.Text.{Text, codes}
use paqet.Flags.{TcpFlags, no_flags}

-- flagCombo
pub record FlagCombo : Type 0 where
  pub local : Text
  pub remote : Text

abbrev combo : Text → Text → FlagCombo
combo local remote = record { local = local; remote = remote }

unfoldable pub all_combos : List FlagCombo
all_combos =
    combo (codes "PA") (codes "PA")
    ∷ combo (codes "A") (codes "PA")
    ∷ combo (codes "P") (codes "PA")
    ∷ combo (codes "FA") (codes "FA")
    ∷ combo (codes "FA") (codes "PA")
    ∷ combo (codes "S") (codes "SA")
    ∷ combo (codes "SA") (codes "PA")
    ∷ combo (codes "EA") (codes "PA")
    ∷ combo (codes "CA") (codes "PA")
    ∷ combo (codes "FSPA") (codes "FSPA")
    ∷ []

-- The switch of parseTCPF; `none` is its default branch.
unfoldable pub set_flag : ℕ → TcpFlags → Option TcpFlags
set_flag ch f =
    if ch == b'F'
    then some (record f { fin = true })
    else if ch == b'S'
    then some (record f { syn = true })
    else if ch == b'R'
    then some (record f { rst = true })
    else if ch == b'P'
    then some (record f { psh = true })
    else if ch == b'A'
    then some (record f { ack = true })
    else if ch == b'U'
    then some (record f { urg = true })
    else if ch == b'E'
    then some (record f { ece = true })
    else if ch == b'C'
    then some (record f { cwr = true })
    else if ch == b'N'
    then some (record f { ns = true })
    else none

-- The flags, and the letter of the error if there is one.
unfoldable pub set_flags : TcpFlags → List ℕ → TcpFlags × Option ℕ
set_flags f [] = (f, none)
set_flags f (ch ∷ s) = elim (set_flag ch f) [ some g ↦ set_flags g s | none ↦ (f, some ch) ]

unfoldable pub parse_tcpf : Text → TcpFlags × Option ℕ
unfolding set_flags set_flag
parse_tcpf s = set_flags no_flags s

-- What a trial with given flags comes to: the first step that fails, or the time of the ping.
pub data Trial : Type 0 where
  no_socket no_dial no_strm not_sent no_pong : Trial
  pong : ℕ → Trial

pub data Failure : Type 0 where
  bad_flag : ℕ → Failure
  bad_trial : Trial → Failure

-- `latency` is set where there is no failure; `ok` says that there is none.
pub record Outcome : Type 0 where
  pub combo : FlagCombo
  pub ok : Bool
  pub latency : ℕ
  pub err_msg : Option Failure

abbrev failed : FlagCombo → Failure → Outcome
failed c e = record { combo = c; ok = false; latency = 0; err_msg = some e }

abbrev tried : FlagCombo → Trial → Outcome
tried c (pong t) = record { combo = c; ok = true; latency = t; err_msg = none }
tried c r = failed c (bad_trial r)

abbrev with_remote : (TcpFlags → Trial) → FlagCombo → TcpFlags × Option ℕ → Outcome
with_remote w c (rf, some ch) = failed c (bad_flag ch)
with_remote w c (rf, none) = tried c (w rf)

abbrev with_local : (TcpFlags → TcpFlags → Trial) → FlagCombo → TcpFlags × Option ℕ → Outcome
with_local w c (lf, some ch) = failed c (bad_flag ch)
with_local w c (lf, none) = with_remote (w lf) c (parse_tcpf c.remote)

unfoldable pub test_combo : (TcpFlags → TcpFlags → Trial) → FlagCombo → Outcome
test_combo w c = with_local w c (parse_tcpf c.local)

-- The world, which answers trial i.
abbrev pub World : Type 0
World = ℕ → TcpFlags → TcpFlags → Trial

unfoldable pub outcomes : World → ℕ → List FlagCombo → List Outcome
unfolding test_combo
outcomes w i [] = []
outcomes w i (c ∷ cs) = test_combo (w i) c ∷ outcomes w (suc i) cs

abbrev pub keeps : Option Outcome → Outcome → Bool
keeps none r = false
keeps (some best) r = if ltb r.latency best.latency then false else true

-- The update of `best`.
abbrev pub better : Option Outcome → Outcome → Option Outcome
better best r = if r.ok then (if keeps best r then best else some r) else best

abbrev pub best_of : Option Outcome → List Outcome → Option Outcome
best_of best [] = best
best_of best (r ∷ rs) = best_of (better best r) rs

-- The result that runProbe recommends.
unfoldable pub run_probe : World → Option Outcome
unfolding outcomes all_combos
run_probe w = best_of none (outcomes w 0 all_combos)
