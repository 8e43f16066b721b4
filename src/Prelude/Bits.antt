-- ===== src/Prelude/Bits.antt =====
-- The binary digits of native numbers, and the test for a power of two.
use Prim.Native.Nat.{
  ℕ, zero, suc, ◌+◌, ◌*◌, ◌/◌, ◌%◌, ◌≤◌, ◌<◌, min, bit_and, digits, bit_and-bitwise,
}
use mathlib.Core.Path.{◌≡◌, refl, sym, ◌∙◌, ap, ap₂}
use mathlib.Core.Logic.{◌≢◌}
use native.Mathlib.Nat.{div-add-mod, mod-lt, mod-eq_of_lt, mul-add-mod_self_left}
use native.Mathlib.Omega.{arith}
use native.Mathlib.Decide.{ℕ_discrete}

-- Induction from half of a number.
halving : (P : ℕ → Type 0) → P 0 → ((a : ℕ) → P (suc a / 2) → P (suc a)) → (a : ℕ) → P a
halving P base step a = down a a (omega arith)
  where
    down : (count x : ℕ) → x ≤ count → P x
    down count zero le = base
    down zero (suc x) le = absurd (omega arith)
    down (suc count) (suc x) le = step x (down count (suc x / 2) (omega arith))

-- A digitwise operation that runs out of the first number needs no further count of digits.
module _ (z : ℕ → ℕ) (f : ℕ → ℕ → ℕ) where
  digits_of_zero : (count y : ℕ) → digits z f count zero y ≡ z y
  digits_of_zero zero y = refl
  digits_of_zero (suc count) y = refl

  spare_count :
      (count more x y : ℕ) → x ≤ count → count ≤ more → digits z f more x y ≡ digits z f count x y
  spare_count count more zero y le ge = digits_of_zero more y ∙ sym (digits_of_zero count y)
  spare_count zero more (suc x) y le ge = absurd (omega arith)
  spare_count (suc count) zero (suc x) y le ge = absurd (omega arith)
  spare_count (suc count) (suc more) (suc x) y le ge =
      ap (λ (t : ℕ). t * 2 + f (suc x % 2) (y % 2))
        (spare_count count more (suc x / 2) (y / 2) (omega arith) (omega arith))

-- The lowest digit apart.
bit_and_low : (x y : ℕ) → bit_and x y ≡ bit_and (x / 2) (y / 2) * 2 + min (x % 2) (y % 2)
bit_and_low zero y = omega (arith, bit_and-bitwise zero y, bit_and-bitwise zero (y / 2))
bit_and_low (suc x) y =
    let half = suc x / 2 in
    bit_and-bitwise (suc x) y
    ∙ ap (λ (t : ℕ). t * 2 + min (suc x % 2) (y % 2))
        (spare_count (λ _. zero) min half x half (y / 2) (omega arith) (omega arith)
          ∙ sym (bit_and-bitwise half (y / 2)))

and_nothing : (x : ℕ) → bit_and x 0 ≡ 0
and_nothing =
    halving (λ x. bit_and x 0 ≡ 0) (bit_and-bitwise 0 0)
      (λ x h. omega (arith, bit_and_low (suc x) 0, h))

and_itself : (x : ℕ) → bit_and x x ≡ x
and_itself =
    halving (λ x. bit_and x x ≡ x) (bit_and-bitwise 0 0)
      (λ x h. omega (arith, bit_and_low (suc x) (suc x), h))

-- Twice a remainder, with the lowest digit put back.
mod_double : (i m : ℕ) → 0 < m → i % (2 * m) ≡ i / 2 % m * 2 + i % 2
mod_double i m h = omega (
  arith,
  div-add-mod (i / 2) m,
  mod-lt (i / 2) {m = m} h,
  mul-add-mod_self_left (2 * m) (i / 2 / m) (i / 2 % m * 2 + i % 2),
  mod-eq_of_lt {n = i / 2 % m * 2 + i % 2} {m = 2 * m} (omega (arith, mod-lt (i / 2) {m = m} h)),
  ap (λ (t : ℕ). t % (2 * m)) (regroup i m),
)
  where
    regroup : (i m : ℕ) → i ≡ 2 * m * (i / 2 / m) + (i / 2 % m * 2 + i % 2)
    regroup i m = omega (arith, ap (λ (t : ℕ). 2 * t) (div-add-mod (i / 2) m))

lower : (n : ℕ) → n % 2 ≡ 0 → suc n / 2 ≡ n / 2
lower n h = omega arith

whole : (n : ℕ) → n % 2 ≡ 0 → suc (suc n) ≡ 2 * suc (n / 2)
whole n h = omega arith

upper : (n : ℕ) → n % 2 ≡ 0 → bit_and (suc (suc n) / 2) (suc n / 2) ≡ bit_and (suc (n / 2)) (n / 2)
upper n h = ap₂ bit_and (omega arith) (omega arith)

same : (n : ℕ) → n % 2 ≢ 0 → bit_and (suc (suc n) / 2) (suc n / 2) ≡ bit_and (suc n / 2) (suc n / 2)
same n h = ap₂ bit_and (omega arith) refl

-- n & (n - 1) = 0 holds only of a power of two, for which i & (n - 1) is the remainder.
mask_fuel : (f n i : ℕ) → n ≤ f → bit_and (suc n) n ≡ 0 → bit_and i n ≡ i % suc n
mask_fuel f zero i h e = omega (arith, and_nothing i)
mask_fuel zero (suc n) i h e = absurd (omega arith)
mask_fuel (suc f) (suc n) i h e = elim (ℕ_discrete (n % 2) 0) [
  | yes odd ↦ omega (
    arith,
    mask_fuel f (n / 2) (i / 2) (omega arith)
        (omega (arith, bit_and_low (suc (suc n)) (suc n), upper n odd)),
    bit_and_low i (suc n),
    ap (bit_and (i / 2)) (lower n odd),
    mod_double i (suc (n / 2)) (omega arith),
    ap (λ (t : ℕ). i % t) (whole n odd),
  )
  | no even ↦
      absurd (omega (arith, bit_and_low (suc (suc n)) (suc n), same n even, and_itself (suc n / 2)))
]

-- The power-of-two test n & (n - 1) = 0, and what it is for.
pub bit_and-mask : (n i : ℕ) → bit_and (suc n) n ≡ 0 → bit_and i n ≡ i % suc n
bit_and-mask n i e = mask_fuel n n i (omega arith) e
