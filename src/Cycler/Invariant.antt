-- ===== src/Cycler/Invariant.antt =====
-- The active combination always exists, whatever calls are made in whatever order.
use paqet.Prelude.{
  ℕ, not, ◌&&◌, ◌+◌, ◌%◌, ◌<◌, ◌≡◌, refl, ap, ◌∙◌, Bool, true, false, List, [], ◌∷◌, some, arith,
  length, get_elem?, get_elem?-of_lt, All,
}
use mathlib.Core.Option
use native.Mathlib.Nat.{mod-lt}
use paqet.Prelude.Int.{ℤ, pos, negsuc, ltb_ℤ, ◌≤ℤ◌}
use paqet.Flags.{TcpFlags, tcpf_to_str, parse_flag_str}
use paqet.Cycler.{
  FlagPair, FlagCycler, new_flag_cycler, active, active_strings, fail, succeed, force_next, set_idx,
  Call, fails, succeeds, forces_next, sets_idx, step, run, pair, append_others, is_pair,
  fallback_combos,
}

-- The index is in range and the first combination is the user's; below a threshold of one or
-- more, failures stay below the threshold.
pub record IsValid (user : FlagPair) (fc : FlagCycler) : Type 0 where
  pub in_range : fc.idx < length fc.combos
  pub first : get_elem? fc.combos 0 ≡ some user
  pub below : pos 1 ≤ℤ fc.max_failures → ltb_ℤ (pos fc.failures) fc.max_failures ≡ true

pub new_flag_cycler-IsValid :
    (lf rf : List TcpFlags) (explicit : Bool) (m : ℤ)
    → IsValid (pair (tcpf_to_str lf) (tcpf_to_str rf)) (new_flag_cycler lf rf explicit m)
unfolding new_flag_cycler
new_flag_cycler-IsValid lf rf explicit m = record {
  in_range = omega arith;
  first = refl;
  below = λ h. ground arith;
}

next_in_range : (i n : ℕ) → i < n → (i + 1) % n < n
next_in_range i n h = mod-lt (i + 1) {m = n} (omega arith)

pub step-IsValid :
    (u : FlagPair) (fc : FlagCycler) (c : Call) → IsValid u fc → IsValid u (step fc c)
unfolding step fail succeed force_next set_idx
step-IsValid u fc fails v = ground (arith, next_in_range fc.idx (length fc.combos) v.in_range)
step-IsValid u fc succeeds v = ground arith
step-IsValid u fc forces_next v = ground (arith, next_in_range fc.idx (length fc.combos) v.in_range)
step-IsValid u fc (sets_idx (pos i)) v = ground arith
step-IsValid u fc (sets_idx (negsuc i)) v = v

step_combos : (fc : FlagCycler) (c : Call) → (step fc c).combos ≡ fc.combos
unfolding step fail succeed force_next set_idx
step_combos fc fails = ground arith
step_combos fc succeeds = refl
step_combos fc forces_next = refl
step_combos fc (sets_idx (pos i)) = ground arith
step_combos fc (sets_idx (negsuc i)) = refl

pub run-IsValid :
    (u : FlagPair) (fc : FlagCycler) (cs : List Call) → IsValid u fc → IsValid u (run fc cs)
unfolding run
run-IsValid u fc [] v = v
run-IsValid u fc (c ∷ cs) v = run-IsValid u (step fc c) cs (step-IsValid u fc c v)

pub run_combos : (fc : FlagCycler) (cs : List Call) → (run fc cs).combos ≡ fc.combos
unfolding run
run_combos fc [] = refl
run_combos fc (c ∷ cs) = run_combos (step fc c) cs ∙ step_combos fc c

-- After any calls, Active and ActiveStrings of a new cycler find a combination and do not panic:
-- the rotation holds the combinations it began with, the first of them the user's, and the failures
-- are below a threshold of at least one.
pub run-new_flag_cycler :
    (lf rf : List TcpFlags) (explicit : Bool) (m : ℤ) (cs : List Call)
    → let fc = run (new_flag_cycler lf rf explicit m) cs in
      ((p : FlagPair) × (active_strings fc ≡ some p)
        × (active fc ≡ some (parse_flag_str p.lf, parse_flag_str p.rf)))
      × (fc.combos ≡ (new_flag_cycler lf rf explicit m).combos)
      × IsValid (pair (tcpf_to_str lf) (tcpf_to_str rf)) fc
unfolding active active_strings
run-new_flag_cycler lf rf explicit m cs =
    let v =
      run-IsValid (pair (tcpf_to_str lf) (tcpf_to_str rf)) (new_flag_cycler lf rf explicit m) cs
        (new_flag_cycler-IsValid lf rf explicit m) in
    let (p, e) = get_elem?-of_lt _ (run (new_flag_cycler lf rf explicit m) cs).idx v.in_range in
    (
      (p, e, ap (Option.map (λ p. (parse_flag_str p.lf, parse_flag_str p.rf))) e),
      run_combos (new_flag_cycler lf rf explicit m) cs,
      v,
    )

only_zero : (i n : ℕ) → i < n → n ≡ 1 → i ≡ 0
only_zero i n h k = omega arith

-- With flags set in the configuration, no calls ever switch to another combination.
pub run-explicit :
    (lf rf : List TcpFlags) (m : ℤ) (cs : List Call)
    → active_strings (run (new_flag_cycler lf rf true m) cs)
      ≡ some (pair (tcpf_to_str lf) (tcpf_to_str rf))
unfolding active_strings new_flag_cycler
run-explicit lf rf m cs =
    let fc = new_flag_cycler lf rf true m in
    let v =
      run-IsValid (pair (tcpf_to_str lf) (tcpf_to_str rf)) fc cs
        (new_flag_cycler-IsValid lf rf true m) in
    let at_zero =
      only_zero (run fc cs).idx (length (run fc cs).combos) v.in_range
        (ap length (run_combos fc cs)) in
    ap (get_elem? (run fc cs).combos) at_zero ∙ v.first

abbrev pub Differs : FlagPair → List FlagPair → Type 0
Differs c = All λ d. is_pair c.lf c.rf d ≡ false

-- No pair of strings occurs twice.
abbrev pub IsDistinct : List FlagPair → Type 0
IsDistinct [] = Unit {0}
IsDistinct (c ∷ cs) = Differs c cs × IsDistinct cs

append_others-Differs :
    (l r : List ℕ) (cs : List FlagPair) → Differs (pair l r) (append_others l r cs)
unfolding append_others
append_others-Differs l r [] = tt
append_others-Differs l r (c ∷ cs) = ground (arith, append_others-Differs l r cs)

append_others-keeps :
    (c : FlagPair) (l r : List ℕ) (cs : List FlagPair)
    → Differs c cs
    → Differs c (append_others l r cs)
unfolding append_others
append_others-keeps c l r [] h = tt
append_others-keeps c l r (d ∷ cs) h = ground (arith, append_others-keeps c l r cs h.1)

append_others-IsDistinct :
    (l r : List ℕ) (cs : List FlagPair) → IsDistinct cs → IsDistinct (append_others l r cs)
unfolding append_others
append_others-IsDistinct l r [] h = tt
append_others-IsDistinct l r (c ∷ cs) h =
    ground (arith, append_others-IsDistinct l r cs h.1, append_others-keeps c l r cs h.0)

differs_from : FlagPair → List FlagPair → Bool
differs_from c [] = true
differs_from c (d ∷ ds) = not (is_pair c.lf c.rf d) && differs_from c ds

all_differ : List FlagPair → Bool
unfolding differs_from
all_differ [] = true
all_differ (c ∷ cs) = differs_from c cs && all_differ cs

Differs-of_from : (c : FlagPair) (ds : List FlagPair) → differs_from c ds ≡ true → Differs c ds
unfolding differs_from
Differs-of_from c [] h = tt
Differs-of_from c (d ∷ ds) h = ground (arith, Differs-of_from c ds)

all_differ→IsDistinct : (cs : List FlagPair) → all_differ cs ≡ true → IsDistinct cs
unfolding all_differ
all_differ→IsDistinct [] h = tt
all_differ→IsDistinct (c ∷ cs) h = ground (arith, Differs-of_from c cs, all_differ→IsDistinct cs)

fallback_table : all_differ fallback_combos ≡ true
unfolding fallback_combos all_differ
fallback_table = refl

fallback_combos-IsDistinct : IsDistinct fallback_combos
fallback_combos-IsDistinct = all_differ→IsDistinct fallback_combos fallback_table

-- A new cycler holds no pair of flag strings twice: a fallback that is spelled as the user's
-- combination is left out.
pub new_flag_cycler-IsDistinct :
    (lf rf : List TcpFlags) (explicit : Bool) (m : ℤ)
    → IsDistinct (new_flag_cycler lf rf explicit m).combos
unfolding new_flag_cycler
new_flag_cycler-IsDistinct lf rf true m = (tt, tt)
new_flag_cycler-IsDistinct lf rf false m = (
  append_others-Differs _ _ fallback_combos,
  append_others-IsDistinct _ _ fallback_combos fallback_combos-IsDistinct,
)
