-- ===== src/Log/Spec.antt =====
-- Which messages are to be logged and how their lines read, said without the code of
-- internal/flog.
use paqet.Prelude.{
  zero, suc, not, ◌||◌, none, some, get_elem?, ◌≡◌, refl, Bool, false, ◌&&◌, List, [], ◌∷◌, ◌++◌,
  if◌then◌else◌, arith,
}
use paqet.Prelude.Int.{ℤ, pos, negsuc, ltb_ℤ, is_ℕ}
use paqet.Prelude.Text.{Text, codes}
use paqet.Log.{Err, net_timeout, any_nil, level_string, Message, passes, line, Act, logs, prints}
use paqet.Log.Quiet.{ends_sentinel, op_times_out, w_err_lem}

-- An error that is hidden from the log under a minimum level: any of a few kinds, except at debug.
abbrev pub hides : ℤ → Err → Bool
hides min e = not (is_ℕ min 0) && (ends_sentinel e || (net_timeout e || op_times_out e))

abbrev pub any_hides : ℤ → List Err → Bool
any_hides min [] = false
any_hides min (e ∷ es) = hides min e || any_hides min es

-- The names of the levels from 0 on.
abbrev pub level_names : List Text
level_names = codes "DEBUG" ∷ codes "INFO" ∷ codes "WARN" ∷ codes "ERROR" ∷ codes "FATAL" ∷ []

abbrev pub level_name : ℤ → Text
level_name (negsuc zero) = codes "None"
level_name (negsuc (suc n)) = codes "UNKNOWN"
level_name (pos n) = elim (get_elem? level_names n) [ some t ↦ t | none ↦ codes "UNKNOWN" ]

level_string-level_name : (l : ℤ) → level_string l ≡ level_name l
unfolding level_string
level_string-level_name (negsuc zero) = refl
level_string-level_name (negsuc (suc n)) = ground arith
level_string-level_name (pos zero) = refl
level_string-level_name (pos (suc zero)) = refl
level_string-level_name (pos (suc (suc zero))) = refl
level_string-level_name (pos (suc (suc (suc zero)))) = refl
level_string-level_name (pos (suc (suc (suc (suc zero))))) = refl
level_string-level_name (pos (suc (suc (suc (suc (suc n)))))) = ground arith

-- The level is at least the minimum, which is not None, and no argument is a hidden error.
abbrev pub is_logged : ℤ → Message → Bool
is_logged (negsuc zero) m = false
is_logged min m = not (ltb_ℤ m.level min) && not (any_hides min m.args)

abbrev pub text_of : Message → Text
text_of m = m.now ++ (codes " [" ++ (level_name m.level ++ (codes "] " ++ (m.text ++ 10 ∷ []))))

-- The lines of those messages, in order.
unfoldable pub to_log : ℤ → List Act → List Text
to_log min [] = []
to_log min (prints ∷ rest) = to_log min rest
to_log min (logs m ∷ rest) =
    let more = to_log min rest in if is_logged min m then text_of m ∷ more else more

any_nil-any_hides : (min : ℤ) (es : List Err) → any_nil min es ≡ any_hides min es
any_nil-any_hides min [] = refl
any_nil-any_hides min (e ∷ es) = ground (arith, w_err_lem min e, any_nil-any_hides min es)

pub passes_lem : (min : ℤ) (m : Message) → passes min m.level m.args ≡ is_logged min m
unfolding passes
passes_lem (negsuc zero) m = ground arith
passes_lem (negsuc (suc n)) m = ground (arith, any_nil-any_hides (negsuc (suc n)) m.args)
passes_lem (pos n) m = ground (arith, any_nil-any_hides (pos n) m.args)

line_lem : (m : Message) → line m ≡ text_of m
unfolding line
line_lem m = rw (level_string-level_name m.level) refl

-- `to_log` with the tests of the code.
pub to_log-passes :
    (min : ℤ) (m : Message) (more : List Text)
    → (if passes min m.level m.args then line m ∷ more else more)
      ≡ (if is_logged min m then text_of m ∷ more else more)
to_log-passes min m more = rw (passes_lem min m, line_lem m) refl
