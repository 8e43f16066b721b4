-- ===== src/Iterator/Rotation.antt =====
-- Next visits the items in turn.
use Prim.Native.Nat.{bit_and}
use paqet.Prelude.{
  ℕ, zero, suc, ◌+◌, ◌%◌, ◌^◌, ◌<◌, ◌≡◌, refl, ap, ◌∙◌, List, [], ◌∷◌, none, some, arith, length,
  get_elem?, get_elem?-of_lt, u64, ◌==◌, Bool-cases, inl, inr, ==_iff,
}
use native.Mathlib.Nat.{mod-lt, zero-mod}
use paqet.Prelude.Bits.{bit_and-mask}
use paqet.Iterator.{Iterator, pred_u64, slot, next, peek}

pred_u64-suc : (n : ℕ) → suc n < 2 ^ 64 → pred_u64 (suc n) ≡ n
pred_u64-suc n h = omega arith

-- The masked index of the power-of-two branch is the remainder too.
pub slot-mod : (n i : ℕ) → 0 < n → n < 2 ^ 64 → slot n i ≡ i % n
unfolding slot
slot-mod zero i h k = absurd (omega arith)
slot-mod (suc n) i h k = rw (pred_u64-suc n k) (elim (Bool-cases (bit_and (suc n) n == 0)) [
  | inl e ↦ rw e (bit_and-mask n i ((==_iff _ 0).0 e))
  | inr e ↦ rw e refl
])

module _ {ℓ} {A : Type ℓ} where
  -- The iterator after k calls of Next.
  pub after : ℕ → Iterator A → Iterator A
  after zero it = it
  after (suc k) it = after k (next it).1

  after_index :
      (k : ℕ) (it : Iterator A)
      → it.index + k < 2 ^ 64
      → ((after k it).index ≡ it.index + k) × ((after k it).items ≡ it.items)
  unfolding after next
  after_index zero it h = (omega arith, refl)
  after_index (suc k) it h =
      let wrapped : u64 (it.index + 1) ≡ it.index + 1 = omega arith in
      let (e, f) = after_index k (record it { index = u64 (it.index + 1) }) (omega arith) in
      (omega arith, f)

  -- Of a slice of n items, n > 0, the call after k others returns the item at (index + k) modulo n,
  -- which exists; so the calls go round the slice, until the counter wraps at 2 ^ 64.
  pub next-after :
      (k : ℕ) (it : Iterator A)
      → 0 < length it.items
      → length it.items < 2 ^ 64
      → it.index + k < 2 ^ 64
      → (a : A) × (get_elem? it.items ((it.index + k) % length it.items) ≡ some a)
        × ((next (after k it)).0 ≡ some a)
  unfolding next
  next-after k it h l b =
      let n : ℕ = length it.items in
      let (a, e) =
        get_elem?-of_lt it.items ((it.index + k) % n) (mod-lt (it.index + k) {m = n} h) in
      let (at_index, same_items) = after_index k it b in
      (a, e, rw (same_items, at_index) (rw (slot-mod n (it.index + k) h l) e))

  -- Next returns what Peek showed before the call; of an empty slice it panics at every counter.
  pub next-peek :
      (it : Iterator A)
      → length it.items < 2 ^ 64
      → ((next it).0 ≡ peek it) × (it.items ≡ [] → (next it).0 ≡ none)
  unfolding next peek
  next-peek it l = (same it.items refl, λ e. rw e refl)
    where
      same :
          (xs : List A)
          → it.items ≡ xs
          → get_elem? it.items (slot (length it.items) it.index)
            ≡ get_elem? it.items (it.index % length it.items)
      same [] e = rw e refl
      same (x ∷ xs) e =
          ap (get_elem? it.items) (slot-mod (length it.items) it.index (rw e (omega arith)) l)

  -- The first call on a new iterator returns the first item.
  pub next-new :
      (a : A) (rest : List A)
      → length (a ∷ rest) < 2 ^ 64
      → (next (record { items = a ∷ rest; index = 0 })).0 ≡ some a
  unfolding next
  next-new a rest l =
      ap (get_elem? (a ∷ rest))
        (slot-mod (length (a ∷ rest)) 0 (omega arith) l ∙ zero-mod (length (a ∷ rest)))
