-- ===== src/Iterator.antt =====
-- internal/pkg/iterator/iterator.go: a shared round-robin index over a slice. The atomic counter is
-- a uint64; one call of Next is one atomic step, so a schedule of calls is a sequence of them.
pub mod Rotation
mod Runs
use Prim.Native.Nat.{bit_and}
use paqet.Prelude.{ℕ, ◌+◌, ◌-◌, ◌%◌, ◌^◌, List, Option, ◌==◌, if◌then◌else◌, length, get_elem?, u64}

pub record Iterator {ℓ} (A : Type ℓ) : Type ℓ where
  pub items : List A
  pub index : ℕ

-- n - 1 on uint64.
abbrev pub pred_u64 : ℕ → ℕ
pred_u64 n = (n + 2 ^ 64 - 1) % 2 ^ 64

-- The position that Next reads from the old counter value.
unfoldable pub slot : ℕ → ℕ → ℕ
slot n i = let mask = pred_u64 n in if bit_and n mask == 0 then bit_and i mask else i % n

-- `none` is an index out of range, a panic.
module _ {ℓ} {A : Type ℓ} where
  unfoldable pub next : Iterator A → Option A × Iterator A
  next it = (
    get_elem? it.items (slot (length it.items) it.index),
    record it { index = u64 (it.index + 1) },
  )

  unfoldable pub peek : Iterator A → Option A
  peek it = get_elem? it.items (it.index % length it.items)
