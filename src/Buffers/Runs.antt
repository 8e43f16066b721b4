-- ===== src/Buffers/Runs.antt =====
-- A call that gets a new buffer, and one that gets what an earlier call has given back.
use paqet.Prelude.{ℕ, ◌≤◌, ◌≡◌, ◌≢◌, refl, [], ◌∷◌, none, some, get_elem?}
use paqet.Buffers.{Pool, initialize, get_new, get, put, Run, here, next}
use paqet.Buffers.Owned.{times, Run-owned}

shared : (p : Pool) × Run initialize p
unfolding initialize
shared = (_, next (next (next (next here get_new) (put 0 0 refl)) get_new) (get 0 0 refl))

is_held :
    (get_elem? shared.0.copies 2 ≡ some (some 0)) × (shared.0.copies ≡ none ∷ some 1 ∷ some 0 ∷ [])
unfolding shared initialize
is_held = (refl, refl)

Run-owned_example :
    (◌≢◌ {A = ℕ} 2 1 → get_elem? shared.0.copies 1 ≢ some (some 0))
    × (times 0 shared.0.free ≡ 0)
    × ((c : ℕ) → times c shared.0.free ≤ 1)
Run-owned_example = Run-owned shared.0 2 1 0 shared.1 is_held.0
