-- ===== src/Cycler/Failures.antt =====
-- When repeated failures switch the combination.
use paqet.Prelude.{ℕ, zero, suc, ◌+◌, ◌/◌, ◌%◌, ◌<◌, ◌≡◌, refl, ap, ◌∙◌, arith, length}
use native.Mathlib.Nat.{mod-lt, mod-add-mod, mod-eq_of_lt, add-zero, zero-add, add-mod_right}
use native.Mathlib.Decide.{dec_lt}
use mathlib.Core.Path.{ap₂, sym}
use paqet.Prelude.Int.{pos}
use paqet.Cycler.{FlagCycler, fail, force_next}

pub fail_times : ℕ → FlagCycler → FlagCycler
fail_times zero fc = fc
fail_times (suc k) fc = fail_times k (fail fc)

pub force_next_times : ℕ → FlagCycler → FlagCycler
force_next_times zero fc = fc
force_next_times (suc k) fc = force_next_times k (force_next fc)

-- The cycler when the next combination is reached.
abbrev pub at : FlagCycler → ℕ → ℕ → FlagCycler
at fc idx failures = record fc { idx = idx; failures = failures }

fail_below :
    (m : ℕ) (fc : FlagCycler)
    → fc.max_failures ≡ pos m
    → fc.failures + 1 < m
    → fail fc ≡ at fc fc.idx (fc.failures + 1)
unfolding fail
fail_below m fc e h = ground arith

fail_reached :
    (m : ℕ) (fc : FlagCycler)
    → fc.max_failures ≡ pos m
    → fc.failures + 1 ≡ m
    → fail fc ≡ at fc ((fc.idx + 1) % length fc.combos) 0
unfolding fail
fail_reached m fc e h = ground arith

div_of_lt : (f m : ℕ) → f < m → (f + 0) / m ≡ 0
div_of_lt f m h = grind arith

-- f failures that reach m, and k more.
div_reached : (f k m : ℕ) → f + 1 ≡ m → (f + suc k) / m ≡ 1 + k / m
div_reached f k m h = grind arith

mod_reached : (f k m : ℕ) → f + 1 ≡ m → (f + suc k) % m ≡ k % m
mod_reached f k m h = grind arith

step_index : (i d n : ℕ) → ((i + 1) % n + d) % n ≡ (i + (1 + d)) % n
step_index i d n = mod-add-mod (i + 1) n d ∙ ap (λ (t : ℕ). t % n) (omega arith)

-- With f failures so far, below a threshold m, and an index in range, k failures in a row make (f +
-- k) / m steps round the rotation and leave (f + k) modulo m failures counted.
pub fail_times_lem :
    (k m : ℕ) (fc : FlagCycler)
    → fc.max_failures ≡ pos m
    → fc.failures < m
    → fc.idx < length fc.combos
    → fail_times k fc
      ≡ at fc ((fc.idx + (fc.failures + k) / m) % length fc.combos) ((fc.failures + k) % m)
unfolding fail_times
fail_times_lem zero m fc e h r =
    ap₂ (at fc) (sym (rw (div_of_lt fc.failures m h, add-zero) (mod-eq_of_lt r)))
      (sym (rw add-zero (mod-eq_of_lt h)))
fail_times_lem (suc k) m fc e h r = elim (dec_lt (fc.failures + 1) m) [
  | yes less ↦ rw (fail_below m fc e less) (
      fail_times_lem k m (at fc fc.idx (fc.failures + 1)) e less r
      ∙ ap (λ (t : ℕ). at fc ((fc.idx + t / m) % length fc.combos) (t % m)) (omega arith))
  | no reached ↦
      let full : fc.failures + 1 ≡ m = omega arith in
      rw (fail_reached m fc e full) (
        fail_times_lem k m (at fc ((fc.idx + 1) % length fc.combos) 0) e (omega arith)
          (mod-lt (fc.idx + 1) {m = length fc.combos} (omega arith))
        ∙ ap₂ (at fc)
            (step_index fc.idx ((0 + k) / m) (length fc.combos)
              ∙ ap (λ (t : ℕ). (fc.idx + t) % length fc.combos)
                  (ap (λ (t : ℕ). 1 + t / m) (zero-add k) ∙ sym (div_reached fc.failures k m full)))
            (ap (λ (t : ℕ). t % m) (zero-add k) ∙ sym (mod_reached fc.failures k m full)))
]

force_next_times-suc :
    (k : ℕ) (fc : FlagCycler)
    → force_next_times (suc k) fc ≡ at fc ((fc.idx + suc k) % length fc.combos) 0
unfolding force_next_times force_next
force_next_times-suc zero fc = ap (λ (t : ℕ). at fc (t % length fc.combos) 0) (omega arith)
force_next_times-suc (suc k) fc =
    force_next_times-suc k (force_next fc)
    ∙ ap (λ (t : ℕ). at fc t 0)
        (step_index fc.idx (suc k) (length fc.combos)
          ∙ ap (λ (t : ℕ). (fc.idx + t) % length fc.combos) (omega arith))

whole_turn : (i n : ℕ) → i < n → (i + n) % n ≡ i
whole_turn i n h = add-mod_right i n ∙ mod-eq_of_lt h

sweep :
    (n : ℕ) (fc : FlagCycler)
    → n ≡ length fc.combos
    → fc.idx < length fc.combos
    → force_next_times n fc ≡ at fc fc.idx 0
sweep zero fc e r = absurd (omega arith)
sweep (suc k) fc e r =
    force_next_times-suc k fc
    ∙ ap (λ (t : ℕ). at fc t 0)
        (ap (λ (t : ℕ). (fc.idx + t) % length fc.combos) e ∙ whole_turn fc.idx (length fc.combos) r)

-- k > 0 calls of ForceNext make k steps round the rotation and leave no failure counted, so a sweep
-- over all combinations ends at the one where it began.
pub force_next_times_lem :
    (k : ℕ) (fc : FlagCycler)
    → 0 < k
    → fc.idx < length fc.combos
    → (force_next_times k fc ≡ at fc ((fc.idx + k) % length fc.combos) 0)
      × (force_next_times (length fc.combos) fc ≡ at fc fc.idx 0)
force_next_times_lem zero fc p r = absurd (omega arith)
force_next_times_lem (suc k) fc p r =
    (force_next_times-suc k fc, sweep (length fc.combos) fc refl r)
