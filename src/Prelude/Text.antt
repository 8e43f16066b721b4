-- ===== src/Prelude/Text.antt =====
-- Texts as lists of their bytes.

use Prim.Native.String.{String}
use Prim.Native.Char.{code}
use Prim.Native.Nat.{ℕ}
use mathlib.Core.Bool.{Bool, true, false, ◌&&◌, ◌||◌}
use mathlib.Core.List.{List, [], ◌∷◌}
use mathlib.Core.Option.{Option, none, some}
use paqet.Prelude.Tests.{◌==◌}

abbrev pub Text : Type 0
Text = List ℕ

-- The bytes of an ASCII literal.
abbrev pub codes : String → Text
codes String.[] = []
codes (String.◌∷◌ c s) = code c ∷ codes s

abbrev pub str_eq : Text → Text → Bool
str_eq [] [] = true
str_eq (x ∷ s) (y ∷ t) = x == y && str_eq s t
str_eq _ _ = false

-- slices.Contains
abbrev pub is_one_of : List Text → Text → Bool
is_one_of [] t = false
is_one_of (s ∷ ss) t = str_eq s t || is_one_of ss t

abbrev pub is_empty : Text → Bool
is_empty t = str_eq t []

-- strings.HasPrefix and strings.CutPrefix: the text after a prefix.
abbrev pub cut_prefix : Text → Text → Option Text
cut_prefix [] t = some t
cut_prefix (x ∷ p) [] = none
cut_prefix (x ∷ p) (y ∷ t) =
    let rest = cut_prefix p t in elim (x == y) [ true ↦ rest | false ↦ none ]

-- strings.Cut: the text after the first place where a separator stands.
abbrev pub after : Text → Text → Option Text
after sep [] = cut_prefix sep []
after sep (x ∷ t) =
    let rest = after sep t in elim (cut_prefix sep (x ∷ t)) [ some r ↦ some r | none ↦ rest ]

abbrev pub contains_text : Text → Text → Bool
contains_text t sub = elim (after sub t) [ some r ↦ true | none ↦ false ]

-- strings.ReplaceAll of a byte by a byte.
abbrev pub replace_byte : ℕ → ℕ → Text → Text
replace_byte a b [] = []
replace_byte a b (x ∷ t) =
    let rest = replace_byte a b t in elim (x == a) [ true ↦ b ∷ rest | false ↦ x ∷ rest ]
