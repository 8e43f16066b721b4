-- ===== src/Probe/Best.antt =====
-- The recommendation is the first combination with the least latency.
use paqet.Prelude.{ℕ, ◌<◌, ◌≤◌, ◌≡◌, true, false, List, ◌∷◌, ◌++◌, Option, none, some, All}
use paqet.Probe.{Outcome}

-- What stands before and after the best.
abbrev Slower : ℕ → Outcome → Type 0
Slower t x = x.ok ≡ true → t < x.latency

abbrev NotFaster : ℕ → Outcome → Type 0
NotFaster t x = x.ok ≡ true → t ≤ x.latency

pub record IsFirstBest (r : Outcome) (rs : List Outcome) : Type 0 where
  pub before : List Outcome
  pub after : List Outcome
  pub parts : rs ≡ before ++ (r ∷ after)
  pub works : r.ok ≡ true
  pub slower : All (Slower r.latency) before
  pub not_faster : All (NotFaster r.latency) after

abbrev pub IsBest : Option Outcome → List Outcome → Type 0
IsBest none rs = All (λ x. x.ok ≡ false) rs
IsBest (some r) rs = IsFirstBest r rs
