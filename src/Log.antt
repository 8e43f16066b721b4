-- ===== src/Log.antt =====
-- internal/flog: which messages are logged, and the channel that they wait in. An error is what
-- errors.Is, errors.As and net.Error can tell of it: a chain in which each error wraps at most one.
pub mod Quiet
pub mod Spec
pub mod Queue
mod Runs
use paqet.Prelude.{
  ℕ, ◌≡◌, Bool, true, false, not, ◌&&◌, ◌||◌, List, [], ◌∷◌, ◌++◌, Option, none, some, ◌==◌,
  if◌then◌else◌, ltb, length,
}
use paqet.Prelude.Int.{ℤ, pos, negsuc, ltb_ℤ, is_ℕ}
use paqet.Prelude.Text.{Text, codes}

-- The errors that WErr names.
pub data Sentinel : Type 0 where
  eof net_closed closed_pipe epipe conn_reset : Sentinel

-- `other` is a net.Error besides these, with its Timeout; `op` is a *net.OpError, whose Err may be
-- nil; `syscall` an *os.SyscallError; `wrap` any other error with an Unwrap.
pub data Err : Type 0 where
  plain op_nil : Err
  sentinel : Sentinel → Err
  other : Bool → Err
  op wrap syscall : Err → Err

abbrev pub code : Sentinel → ℕ
code eof = 0
code net_closed = 1
code closed_pipe = 2
code epipe = 3
code conn_reset = 4

-- errors.Is
unfoldable pub errors_is : Sentinel → Err → Bool
errors_is s plain = false
errors_is s op_nil = false
errors_is s (sentinel t) = code t == code s
errors_is s (other b) = false
errors_is s (op e) = errors_is s e
errors_is s (wrap e) = errors_is s e
errors_is s (syscall e) = errors_is s e

-- Timeout, of an error that has one.
abbrev pub timeout : Err → Bool
timeout (other b) = b
timeout (op e) = timeout e
timeout (syscall e) = timeout e
timeout _ = false

-- netErr, ok := err.(net.Error); ok && netErr.Timeout()
unfoldable pub net_timeout : Err → Bool
net_timeout (other b) = b
net_timeout (op e) = timeout e
net_timeout _ = false

-- The tests of WErr before errors.As.
unfoldable pub is_hidden : Err → Bool
unfolding errors_is net_timeout
is_hidden e =
    errors_is eof e
    || (errors_is net_closed e
        || ((errors_is closed_pipe e || errors_is epipe e)
            || (errors_is conn_reset e || net_timeout e)))

-- errors.As in the rest of the chain of `whole`, and WErr of the Err that it finds.
unfoldable pub as_op : Err → Err → Option Err
unfolding is_hidden
as_op whole (op e) = let inner = as_op e e in if is_hidden e then none else inner
as_op whole op_nil = none
as_op whole (wrap e) = as_op whole e
as_op whole (syscall e) = as_op whole e
as_op whole _ = some whole

-- WErr under a minLevel; `none` is nil.
unfoldable pub w_err : ℤ → Option Err → Option Err
unfolding as_op is_hidden
w_err min none = none
w_err min (some e) = if is_ℕ min 0 then some e else if is_hidden e then none else as_op e e

-- The levels.
abbrev pub none_level : ℤ
none_level = negsuc 0

abbrev pub fatal : ℤ
fatal = pos 4

-- Level.String
unfoldable pub level_string : ℤ → Text
level_string (pos n) =
    if n == 0
    then codes "DEBUG"
    else if n == 1
    then codes "INFO"
    else if n == 2
    then codes "WARN"
    else if n == 3
    then codes "ERROR"
    else if n == 4
    then codes "FATAL"
    else codes "UNKNOWN"
level_string (negsuc n) = if n == 0 then codes "None" else codes "UNKNOWN"

-- What is logged and waits in logCh, and what the goroutine of SetLevel has printed.
pub record Log : Type 0 where
  pub min_level : ℤ
  pub waiting : List Text
  pub printed : List Text
  pub drains : Bool

abbrev pub capacity : ℕ
capacity = 1024

-- minLevel and logCh before SetLevel.
abbrev pub new_log : Log
new_log = record { min_level = pos 1; waiting = []; printed = []; drains = false }

-- `args` are the arguments that are errors.
abbrev pub any_nil : ℤ → List Err → Bool
any_nil min [] = false
any_nil min (e ∷ es) =
    let rest = any_nil min es in elim (w_err min (some e)) [ none ↦ true | some x ↦ rest ]

unfoldable pub passes : ℤ → ℤ → List Err → Bool
unfolding w_err
passes min level args =
    not (ltb_ℤ level min || (not (ltb_ℤ min none_level) && not (ltb_ℤ none_level min)))
    && not (any_nil min args)

-- A message: its level, its arguments that are errors, the time and the formatted text.
pub record Message : Type 0 where
  pub level : ℤ
  pub args : List Err
  pub now : Text
  pub text : Text

unfoldable pub line : Message → Text
unfolding level_string
line m = m.now ++ (codes " [" ++ (level_string m.level ++ (codes "] " ++ (m.text ++ 10 ∷ []))))

-- The send that does not block.
abbrev pub send : Log → Text → Log
send l t = if ltb (length l.waiting) capacity then record l { waiting = l.waiting ++ t ∷ [] } else l

unfoldable pub logf : Log → Message → Log
unfolding passes line
logf l m = if passes l.min_level m.level m.args then send l (line m) else l

unfoldable pub set_level : Log → ℤ → Log
set_level l n = record l {
  min_level = n;
  drains = l.drains || (ltb_ℤ n none_level || ltb_ℤ none_level n);
}

-- The goroutine receives a message, if it runs and there is one, and prints it.
abbrev pub print_first : List Text → Log → Log
print_first [] l = l
print_first (t ∷ ts) l = record l { waiting = ts; printed = l.printed ++ t ∷ [] }

unfoldable pub drain : Log → Log
drain l = if l.drains then print_first l.waiting l else l

-- What goroutines do with the log after the level is set once, in any order.
pub data Act : Type 0 where
  logs : Message → Act
  prints : Act

unfoldable pub act : Log → Act → Log
unfolding logf drain
act l (logs m) = logf l m
act l prints = drain l

unfoldable pub acts : Log → List Act → Log
unfolding act
acts l [] = l
acts l (a ∷ rest) = acts (act l a) rest
