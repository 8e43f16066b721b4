-- ===== src/Log/Runs.antt =====
-- An error that is logged, a message below the level, and an error that is hidden.
use paqet.Prelude.{ℕ, ◌≡◌, refl, true, false, List, [], ◌∷◌, ◌++◌, some}
use paqet.Prelude.Int.{pos}
use paqet.Prelude.Text.{Text, codes}
use paqet.Log.{
  eof, net_closed, Err, plain, sentinel, other, op, wrap, errors_is, net_timeout, is_hidden, as_op,
  w_err, level_string, fatal, new_log, Message, passes, line, logf, set_level, drain, Act, logs,
  prints, act, acts,
}

abbrev message : ℕ → List Err → Message
message n args = record { level = pos n; args = args; now = codes "12:00"; text = codes "lost" }

abbrev todo : List Act
todo =
    logs (message 3 (op plain ∷ []))
    ∷ logs (message 0 [])
    ∷ prints
    ∷ logs (message 3 (plain ∷ wrap (sentinel eof) ∷ []))
    ∷ logs (message 2 [])
    ∷ []

todo_printed :
    (acts (set_level new_log (pos 1)) todo).printed ≡ (codes "12:00 [ERROR] lost" ++ 10 ∷ []) ∷ []
unfolding acts act set_level drain logf passes line level_string w_err as_op is_hidden errors_is
    net_timeout
todo_printed = refl

-- A fatal message with a hidden error is not logged.
fatal_hidden : passes (pos 1) fatal (op (sentinel net_closed) ∷ []) ≡ false
unfolding passes w_err as_op is_hidden errors_is net_timeout
fatal_hidden = refl

-- A time-out is hidden bare and in a *net.OpError, but not in another wrapper.
wrapped_timeout : w_err (pos 1) (some (wrap (other true))) ≡ some (wrap (other true))
unfolding w_err as_op is_hidden errors_is net_timeout
wrapped_timeout = refl
