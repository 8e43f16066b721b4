-- ===== src/Iterator/Runs.antt =====
-- Three items, seen by the fifth call.
use paqet.Prelude.{ℕ, ◌+◌, ◌%◌, ◌≡◌, [], ◌∷◌, some, arith, length, get_elem?}
use paqet.Iterator.{Iterator, next}
use paqet.Iterator.Rotation.{after, next-after}

abbrev three : Iterator ℕ
three = record { items = 7 ∷ 8 ∷ 9 ∷ []; index = 0 }

next-after_example :
    (a : ℕ) × (get_elem? three.items ((three.index + 4) % length three.items) ≡ some a)
    × ((next (after 4 three)).0 ≡ some a)
next-after_example = next-after 4 three (omega arith) (omega arith) (omega arith)
