-- ===== src/Buffers.antt =====
-- internal/pkg/buffer: the pools, and CopyT and CopyU, each of which takes a buffer, copies with
-- it and gives it back by its deferred Put. sync.Pool may drop what is in it at any time, and Get
-- gives any buffer of the pool or a new one. A buffer is a number. The handlers of UDP datagrams
-- (internal/forward/udp.go, internal/socks/udp_handle.go) use the pool in the same way: one Get and
-- one deferred Put of its buffer.
pub mod Owned
mod Runs
use paqet.Prelude.{ℕ, zero, suc, ◌+◌, ◌≡◌, List, [], ◌∷◌, ◌++◌, Option, none, some, get_elem?}
use paqet.Prelude.Places.{set_at}

abbrev pub remove_at {ℓ} : {A : Type ℓ} → List A → ℕ → List A
remove_at [] i = []
remove_at (x ∷ xs) zero = xs
remove_at (x ∷ xs) (suc i) = x ∷ remove_at xs i

-- A pool: what is in it, how many buffers New has made, and the calls of CopyT (or CopyU) in the
-- order of their start, each with its buffer until it has returned.
pub record Pool : Type 0 where
  pub free : List ℕ
  pub made : ℕ
  pub copies : List (Option ℕ)

unfoldable pub initialize : Pool
initialize = record { free = []; made = 0; copies = [] }

-- Get of a buffer that New makes, at the start of a call.
abbrev pub start_new : Pool → Pool
start_new p = record p { made = p.made + 1; copies = p.copies ++ some p.made ∷ [] }

-- Get of buffer b, which stands at place i of the pool.
abbrev pub start_with : Pool → ℕ → ℕ → Pool
start_with p i b = record p { free = remove_at p.free i; copies = p.copies ++ some b ∷ [] }

-- Put, and the return of call i.
abbrev pub give_back : Pool → ℕ → ℕ → Pool
give_back p i b = record p { free = b ∷ p.free; copies = set_at p.copies i none }

-- A call starts, or returns, its io.CopyBuffer having ended; or the pool is cleared.
pub data Step (p : Pool) : Pool → Type 0 where
  get_new : Step p (start_new p)
  get : (i b : ℕ) → get_elem? p.free i ≡ some b → Step p (start_with p i b)
  put : (i b : ℕ) → get_elem? p.copies i ≡ some (some b) → Step p (give_back p i b)
  clear : Step p (record p { free = [] })

pub data Run (p : Pool) : Pool → Type 0 where
  here : Run p p
  next : {q r : Pool} → Run p q → Step q r → Run p r
