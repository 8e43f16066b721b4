-- ===== src/Log/Quiet.antt =====
-- Which errors WErr of internal/flog/error.go hides, said of the chain of an error.
use paqet.Prelude.{
  ◌≡◌, refl, Bool, true, false, ◌||◌, Option, none, some, Bool-cases, inl, inr, if◌then◌else◌,
  arith,
}
use paqet.Prelude.Int.{ℤ, is_ℕ}
use paqet.Log.{
  eof, net_closed, closed_pipe, epipe, conn_reset, Err, plain, op_nil, sentinel, other, op, wrap,
  syscall, errors_is, net_timeout, is_hidden, as_op, w_err,
}

-- One of the five errors stands in the chain.
abbrev pub ends_sentinel : Err → Bool
ends_sentinel (sentinel s) = true
ends_sentinel (op e) = ends_sentinel e
ends_sentinel (wrap e) = ends_sentinel e
ends_sentinel (syscall e) = ends_sentinel e
ends_sentinel _ = false

-- A *net.OpError in the chain that holds no error, or one that is a net.Error timing out.
abbrev pub op_times_out : Err → Bool
op_times_out (op e) = net_timeout e || op_times_out e
op_times_out op_nil = true
op_times_out (wrap e) = op_times_out e
op_times_out (syscall e) = op_times_out e
op_times_out _ = false

-- The error that WErr gives back where it hides none: the Err of the last *net.OpError.
abbrev pub innermost : Err → Err → Err
innermost whole (op e) = innermost e e
innermost whole (wrap e) = innermost whole e
innermost whole (syscall e) = innermost whole e
innermost whole _ = whole

abbrev pub any_is : Err → Bool
any_is e =
    errors_is eof e
    || (errors_is net_closed e
        || ((errors_is closed_pipe e || errors_is epipe e) || errors_is conn_reset e))

any_is-ends_sentinel : (e : Err) → any_is e ≡ ends_sentinel e
unfolding errors_is
any_is-ends_sentinel plain = refl
any_is-ends_sentinel op_nil = refl
any_is-ends_sentinel (sentinel eof) = refl
any_is-ends_sentinel (sentinel net_closed) = refl
any_is-ends_sentinel (sentinel closed_pipe) = refl
any_is-ends_sentinel (sentinel epipe) = refl
any_is-ends_sentinel (sentinel conn_reset) = refl
any_is-ends_sentinel (other b) = refl
any_is-ends_sentinel (op e) = any_is-ends_sentinel e
any_is-ends_sentinel (wrap e) = any_is-ends_sentinel e
any_is-ends_sentinel (syscall e) = any_is-ends_sentinel e

is_hidden_lem : (e : Err) → is_hidden e ≡ (ends_sentinel e || net_timeout e)
unfolding is_hidden
is_hidden_lem e = ground (arith, any_is-ends_sentinel e)

abbrev pub hidden_or : Bool → Err → Option Err
hidden_or b e = if b then none else some e

as_op_lem :
    (e whole : Err)
    → ends_sentinel e ≡ false
    → as_op whole e ≡ hidden_or (op_times_out e) (innermost whole e)
unfolding as_op
as_op_lem plain whole h = refl
as_op_lem op_nil whole h = refl
as_op_lem (sentinel s) whole h = cc
as_op_lem (other b) whole h = refl
as_op_lem (op e) whole h = ground (arith, is_hidden_lem e, as_op_lem e e h, h)
as_op_lem (wrap e) whole h = as_op_lem e whole h
as_op_lem (syscall e) whole h = as_op_lem e whole h

pub w_err_lem :
    (min : ℤ) (e : Err)
    → w_err min (some e) ≡ (
        if is_ℕ min 0
        then some e
        else hidden_or (ends_sentinel e || (net_timeout e || op_times_out e)) (innermost e e))
unfolding w_err
w_err_lem min e = elim (Bool-cases (is_ℕ min 0)) [
  | inl z ↦ rw z refl
  | inr z ↦ elim (Bool-cases (ends_sentinel e)) [
    | inl s ↦ ground (arith, is_hidden_lem e)
    | inr s ↦ ground (arith, is_hidden_lem e, as_op_lem e e s)
  ]
]
