-- ===== src/Log/Queue.antt =====
-- The channel of internal/flog/flog.go: what is printed is what was logged, in order, less what
-- found the channel full.
use paqet.Prelude.{◌≤◌, ◌<◌, Bool, ◌&&◌, List, [], ◌∷◌, ◌++◌, if◌then◌else◌, ltb, length}
use paqet.Prelude.Text.{Text}
use paqet.Log.{Log, capacity, passes, line, logf, drain, Act, logs, prints, act}

-- The first list is the second without some of its elements.
pub data Sub : List Text → List Text → Type 0 where
  none_left : Sub [] []
  keeps : {x : Text} {xs ys : List Text} → Sub xs ys → Sub (x ∷ xs) (x ∷ ys)
  drops : {x : Text} {xs ys : List Text} → Sub xs ys → Sub xs (x ∷ ys)

-- What has been logged so far.
abbrev pub logged : Log → List Text
logged l = l.printed ++ l.waiting

-- The channel has room whenever a goroutine logs.
abbrev pub Fits : Log → List Act → Type 0
Fits l [] = Unit {0}
Fits l (a ∷ rest) = (length l.waiting < capacity) × Fits (act l a) rest

-- What a goroutine that logs adds: the line, where it passes and the channel has room.
abbrev added : Bool → Bool → Text → List Text
added passed fits t = if passed && fits then t ∷ [] else []

-- The lines that a goroutine finds room for.
kept : Log → List Act → List Text
unfolding act
kept l [] = []
kept l (prints ∷ rest) = kept (drain l) rest
kept l (logs m ∷ rest) =
    added (passes l.min_level m.level m.args) (ltb (length l.waiting) capacity) (line m)
    ++ kept (logf l m) rest

AtMost : Log → Type 0
AtMost l = length l.waiting ≤ capacity
