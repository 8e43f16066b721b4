-- ===== src/Client/Reconnect/Health/Once.antt =====
-- The health check fails a connection once, and loses none.
use paqet.Prelude.{ℕ, ◌≡◌, ◌≢◌, true, false, List, [], ◌∷◌, ◌==◌, All}
use paqet.Client.Reconnect.Leaks.{HasNoLeak}
use paqet.Client.Reconnect.Health.{pings, Watched}

IsSound : Watched → Type 0
IsSound w = HasNoLeak w.live

-- Connection i is closed, and the loop does not ping it.
record Over (i : ℕ) (w : Watched) : Type 0 where
  shut : w.live.closed i ≡ true
  unpinged : w.checker ≢ pings i

abbrev IsNot : ℕ → ℕ → Type 0
IsNot i j = (j == i) ≡ false

-- No element stands twice in the list.
abbrev pub IsDistinct : List ℕ → Type 0
IsDistinct [] = Unit {0}
IsDistinct (x ∷ xs) = All (λ (y : ℕ). (y == x) ≡ false) xs × IsDistinct xs
