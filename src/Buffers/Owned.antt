-- ===== src/Buffers/Owned.antt =====
-- No buffer is in two hands, since each call gives back the one that it got, once.
use paqet.Prelude.{
  ℕ, zero, suc, ◌+◌, ◌≤◌, ◌<◌, ◌≡◌, ◌≢◌, refl, ap, List, [], ◌∷◌, some, ◌==◌, ==_iff, if◌then◌else◌,
  get_elem?, arith, Option, none, ltb, Bool-cases, inl, inr,
}
use paqet.Prelude.Maybe.{some_equal}
use paqet.Prelude.Places.{total, total-set_at, total-append}
use paqet.Buffers.{Pool, remove_at, initialize, Step, get_new, get, put, clear, Run, here, next}

abbrev is_buf : ℕ → ℕ → ℕ
is_buf b x = if x == b then 1 else 0

-- How often a buffer stands in a list.
abbrev pub times : ℕ → List ℕ → ℕ
times b xs = total (is_buf b) xs

times-remove_at :
    (b : ℕ) (xs : List ℕ) (i x : ℕ)
    → get_elem? xs i ≡ some x
    → times b (remove_at xs i) + is_buf b x ≡ times b xs
times-remove_at b [] i x h = cc
times-remove_at b (y ∷ xs) zero x h = let e = ap (is_buf b) (some_equal h) in omega (arith, e)
times-remove_at b (y ∷ xs) (suc i) x h = omega (arith, times-remove_at b xs i x h)

-- How often calls that run hold a buffer.
abbrev pub holds : ℕ → Option ℕ → ℕ
holds b none = 0
holds b (some x) = is_buf b x

abbrev pub held : ℕ → Pool → ℕ
held b p = total (holds b) p.copies

-- A buffer that was made is at most once in the pool and in calls; another one, nowhere.
abbrev pub Inv : Pool → Type 0
Inv p = (b : ℕ) → (held b p + times b p.free ≤ 1) × (p.made ≤ b → held b p + times b p.free ≡ 0)

Step-Inv : {p q : Pool} → Step p q → Inv p → Inv q
Step-Inv {p} get_new v = λ b. ground (arith, v b, total-append (holds b) p.copies (some p.made))
Step-Inv {p} (get i x at) v = λ b.
    ground (arith, v b, times-remove_at b p.free i x at, total-append (holds b) p.copies (some x))
Step-Inv {p} (put i x at) v =
    λ b. ground (arith, v b, total-set_at (holds b) p.copies i (some x) none at)
Step-Inv {p} clear v = λ b. ground (arith, v b)

Run-Inv : {p q : Pool} → Inv p → Run p q → Inv q
Run-Inv v here = v
Run-Inv v (next r s) = Step-Inv s (Run-Inv v r)

is_buf_self : (b : ℕ) → is_buf b b ≡ 1
is_buf_self b = let hit = (==_iff b b).1 refl in rw hit refl

one_place :
    (xs : List (Option ℕ)) (i b : ℕ) → get_elem? xs i ≡ some (some b) → 1 ≤ total (holds b) xs
one_place [] i b h = cc
one_place (x ∷ xs) zero b h = let e = ap (holds b) (some_equal h) in omega (arith, e, is_buf_self b)
one_place (x ∷ xs) (suc i) b h = omega (arith, one_place xs i b h)

two_places :
    (xs : List (Option ℕ)) (i j b : ℕ)
    → i < j
    → get_elem? xs i ≡ some (some b)
    → get_elem? xs j ≡ some (some b)
    → 2 ≤ total (holds b) xs
two_places [] i j b l h k = cc
two_places (x ∷ xs) i zero b l h k = absurd (omega (arith, l))
two_places (x ∷ xs) zero (suc j) b l h k =
    let e = ap (holds b) (some_equal h) in omega (arith, e, is_buf_self b, one_place xs j b k)
two_places (x ∷ xs) (suc i) (suc j) b l h k =
    omega (arith, two_places xs i j b (omega (arith, l)) h k)

apart :
    (p : Pool) (i j b : ℕ)
    → Inv p
    → i < j
    → get_elem? p.copies i ≡ some (some b)
    → get_elem? p.copies j ≢ some (some b)
apart p i j b v l h k = omega (arith, (v b).0, two_places p.copies i j b l h k)

-- From Initialize on, with calls of CopyT starting and returning in any order and the pool cleared
-- at any time: no two calls that run copy through the same buffer, none of their buffers is in the
-- pool, where another call could get it, and a pool holds no buffer twice.
pub Run-owned :
    (p : Pool) (i j b : ℕ)
    → Run initialize p
    → get_elem? p.copies i ≡ some (some b)
    → (i ≢ j → get_elem? p.copies j ≢ some (some b))
      × (times b p.free ≡ 0)
      × ((c : ℕ) → times c p.free ≤ 1)
unfolding initialize
Run-owned p i j b r h =
    let start : Inv initialize = λ b. (omega arith, λ _. refl) in
    let v = Run-Inv start r in
    let one = one_place p.copies i b h in
    (
      λ ne k. elim (Bool-cases (ltb i j)) [
        | inl l ↦ apart p i j b v (ground (arith, l)) h k
        | inr l ↦ apart p j i b v (ground (arith, l, ne)) k h
      ],
      omega (arith, (v b).0, one),
      λ c. omega (arith, (v c).0),
    )
