-- ===== src/Cycler.antt =====
-- internal/client/flag_cycler.go: the rotation over pairs of flag combinations. Every method holds
-- the mutex, so a schedule of calls is a sequence of them. Indices and failures are ints that the
-- code never makes negative; maxFailures is any int.
pub mod Invariant
pub mod Failures
mod Runs
use paqet.Prelude.{
  ℕ, zero, suc, ◌+◌, ◌%◌, Bool, true, false, ◌&&◌, List, [], ◌∷◌, ◌++◌, Option, none, some, ◌==◌,
  if◌then◌else◌, ltb, length, get_elem?,
}
use mathlib.Core.Option
use paqet.Prelude.Int.{ℤ, pos, negsuc, ltb_ℤ}
use paqet.Prelude.Text.{str_eq}
use paqet.Flags.{TcpFlags, parse_flag_str, tcpf_to_str}

pub record FlagPair : Type 0 where
  pub lf : List ℕ
  pub rf : List ℕ

abbrev pub pa : List ℕ
pa = b'P' ∷ b'A' ∷ []

abbrev pub a : List ℕ
a = b'A' ∷ []

abbrev pub sa : List ℕ
sa = b'S' ∷ b'A' ∷ []

abbrev pub fa : List ℕ
fa = b'F' ∷ b'A' ∷ []

abbrev pub ea : List ℕ
ea = b'E' ∷ b'A' ∷ []

abbrev pub ca : List ℕ
ca = b'C' ∷ b'A' ∷ []

abbrev pub pair : List ℕ → List ℕ → FlagPair
pair l r = record { lf = l; rf = r }

unfoldable pub fallback_combos : List FlagPair
fallback_combos =
    pair pa pa
    ∷ pair a pa
    ∷ pair pa a
    ∷ pair a a
    ∷ pair (b'P' ∷ []) pa
    ∷ pair (b'S' ∷ []) sa
    ∷ pair sa pa
    ∷ pair sa sa
    ∷ pair fa fa
    ∷ pair fa pa
    ∷ pair fa a
    ∷ pair pa fa
    ∷ pair (b'F' ∷ b'P' ∷ b'A' ∷ []) pa
    ∷ pair ea pa
    ∷ pair ca pa
    ∷ pair pa ea
    ∷ pair pa ca
    ∷ pair ea ea
    ∷ pair pa sa
    ∷ []

pub record FlagCycler : Type 0 where
  pub combos : List FlagPair
  pub idx : ℕ
  pub failures : ℕ
  pub max_failures : ℤ

-- Equality of strings.
abbrev pub is_pair : List ℕ → List ℕ → FlagPair → Bool
is_pair lf rf c = str_eq c.lf lf && str_eq c.rf rf

-- The loop of newFlagCycler, after the first entry.
pub append_others : List ℕ → List ℕ → List FlagPair → List FlagPair
append_others lf rf [] = []
append_others lf rf (c ∷ cs) =
    let rest = append_others lf rf cs in if is_pair lf rf c then rest else c ∷ rest

unfoldable pub new_flag_cycler : List TcpFlags → List TcpFlags → Bool → ℤ → FlagCycler
unfolding append_others
new_flag_cycler lf rf explicit max_failures =
    let user_lf = tcpf_to_str lf in
    let user_rf = tcpf_to_str rf in
    let others : List FlagPair =
      if explicit then [] else append_others user_lf user_rf fallback_combos in
    record {
      combos = pair user_lf user_rf ∷ others;
      idx = 0;
      failures = 0;
      max_failures = max_failures;
    }

-- `none` is an index out of range, a panic.
unfoldable pub active_strings : FlagCycler → Option FlagPair
active_strings fc = get_elem? fc.combos fc.idx

unfoldable pub active : FlagCycler → Option (List TcpFlags × List TcpFlags)
unfolding active_strings
active fc = Option.map (λ p. (parse_flag_str p.lf, parse_flag_str p.rf)) (active_strings fc)

unfoldable pub fail : FlagCycler → FlagCycler
fail fc =
    let failures = fc.failures + 1 in
    if ltb_ℤ (pos failures) fc.max_failures
    then record fc { failures = failures }
    else record fc { idx = (fc.idx + 1) % length fc.combos; failures = 0 }

unfoldable pub succeed : FlagCycler → FlagCycler
succeed fc = record fc { failures = 0 }

abbrev pub len : FlagCycler → ℕ
len fc = length fc.combos

unfoldable pub force_next : FlagCycler → FlagCycler
force_next fc = record fc { idx = (fc.idx + 1) % length fc.combos; failures = 0 }

unfoldable pub set_idx : FlagCycler → ℤ → FlagCycler
set_idx fc (pos i) = if ltb i (length fc.combos) then record fc { idx = i; failures = 0 } else fc
set_idx fc (negsuc i) = fc

-- The methods that change a cycler.
pub data Call : Type 0 where
  fails succeeds forces_next : Call
  sets_idx : ℤ → Call

pub step : FlagCycler → Call → FlagCycler
unfolding fail succeed force_next set_idx
step fc fails = fail fc
step fc succeeds = succeed fc
step fc forces_next = force_next fc
step fc (sets_idx i) = set_idx fc i

pub run : FlagCycler → List Call → FlagCycler
run fc [] = fc
run fc (c ∷ cs) = run (step fc c) cs
