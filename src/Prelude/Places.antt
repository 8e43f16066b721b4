-- ===== src/Prelude/Places.antt =====
-- Lists that are changed at an index, and sums over them.
use Prim.Native.Nat.{ℕ, zero, suc, ◌+◌}
use mathlib.Core.Path.{◌≡◌, refl, sym, ap, subst}
use mathlib.Core.Logic.{◌⊎◌, inl, inr}
use mathlib.Core.List.{List, [], ◌∷◌, ◌++◌}
use mathlib.Core.Option.{some}
use native.Mathlib.Omega.{arith}
use paqet.Prelude.Lists.{get_elem?, All}
use paqet.Prelude.Maybe.{some_equal}

-- The list with another element at an index.
abbrev pub set_at {ℓ} : {A : Type ℓ} → List A → ℕ → A → List A
set_at [] i y = []
set_at (x ∷ xs) zero y = y ∷ xs
set_at (x ∷ xs) (suc i) y = x ∷ set_at xs i y

module _ {ℓ κ} {A : Type ℓ} (P : A → Type κ) where
  pub All_get : (xs : List A) (i : ℕ) (x : A) → get_elem? xs i ≡ some x → All P xs → P x
  All_get [] i x h a = cc
  All_get (y ∷ xs) zero x h a = subst P (some_equal h) a.0
  All_get (y ∷ xs) (suc i) x h a = All_get xs i x h a.1

  pub All_set : (xs : List A) (i : ℕ) (y : A) → All P xs → P y → All P (set_at xs i y)
  All_set [] i y a p = tt
  All_set (x ∷ xs) zero y a p = (p, a.1)
  All_set (x ∷ xs) (suc i) y a p = (a.0, All_set xs i y a.1 p)

  -- What was at an index before it was set.
  pub All_unset :
      (xs : List A) (i : ℕ) (x y : A)
      → get_elem? xs i ≡ some x
      → (P y → P x)
      → All P (set_at xs i y)
      → All P xs
  All_unset [] i x y h f a = tt
  All_unset (z ∷ xs) zero x y h f a = (subst P (sym (some_equal h)) (f a.0), a.1)
  All_unset (z ∷ xs) (suc i) x y h f a = (a.0, All_unset xs i x y h f a.1)

  pub All_init : (xs ys : List A) → All P (xs ++ ys) → All P xs
  All_init [] ys a = tt
  All_init (x ∷ xs) ys a = (a.0, All_init xs ys a.1)

abbrev pub total {ℓ} : {A : Type ℓ} → (A → ℕ) → List A → ℕ
total f [] = 0
total f (x ∷ xs) = f x + total f xs

pub total-set_at {ℓ} :
    {A : Type ℓ} (f : A → ℕ) (xs : List A) (i : ℕ) (x y : A)
    → get_elem? xs i ≡ some x
    → total f (set_at xs i y) + f x ≡ total f xs + f y
total-set_at f [] i x y h = cc
total-set_at f (a ∷ xs) zero x y h = let e = ap f (some_equal h) in omega (arith, e)
total-set_at f (a ∷ xs) (suc i) x y h = omega (arith, total-set_at f xs i x y h)

pub total-append {ℓ} :
    {A : Type ℓ} (f : A → ℕ) (xs : List A) (y : A) → total f (xs ++ y ∷ []) ≡ total f xs + f y
total-append f [] y = omega arith
total-append f (x ∷ xs) y = omega (arith, total-append f xs y)

pub total-All {ℓ} : {A : Type ℓ} (f : A → ℕ) (xs : List A) → total f xs ≡ 0 → All (λ x. f x ≡ 0) xs
total-All f [] h = tt
total-All f (x ∷ xs) h = (omega (arith, h), total-All f xs (omega (arith, h)))

-- An element that counts, unless none does.
abbrev pub Counts {ℓ} : {A : Type ℓ} → (A → ℕ) → List A → Type ℓ
Counts {A = A} f xs = (i : ℕ) × (x : A) × (get_elem? xs i ≡ some x) × (f x ≡ 1)

pub counted {ℓ} :
    {A : Type ℓ} (f : A → ℕ) (xs : List A)
    → ((x : A) → (f x ≡ 0) ⊎ (f x ≡ 1))
    → (total f xs ≡ 0) ⊎ Counts f xs
counted f [] h = inl refl
counted f (x ∷ xs) h = elim (h x) [
  | inr e ↦ inr (zero, x, refl, e)
  | inl e ↦ elim (counted f xs h) [
    | inl z ↦ inl (omega (arith, e, z))
    | inr (i, y, at, l) ↦ inr (suc i, y, at, l)
  ]
]
