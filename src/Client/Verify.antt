-- ===== src/Client/Verify.antt =====
-- verifyBidirectional and maxAttempts (internal/client/timed_conn.go), on a clock in nanoseconds. A
-- Ping returns at the latest at its deadline.
pub mod Bounds
use paqet.Prelude.{ℕ, zero, suc, ◌+◌, ◌-◌, ◌/◌, Bool, if◌then◌else◌, ltb, leb}
use Prim.Native.Nat.{min}

abbrev pub attempt_dur : ℕ
attempt_dur = 1500000000

-- One round: how long it takes from the loop's test to time.Until, and from there to the deadline's
-- time.Now; how long the Ping takes if nothing ends it, and whether it succeeds.
pub record Attempt : Type 0 where
  pub to_until : ℕ
  pub to_deadline : ℕ
  pub takes : ℕ
  pub answers : Bool

-- The value of `attempt`, and the time at the end.
pub data Verdict : Type 0 where
  verified gave_up : ℕ → ℕ → Verdict
  out_of_fuel : Verdict

-- When the round's Ping ends, with time.Until read at the given time.
abbrev pub ping_end : Attempt → ℕ → ℕ → ℕ
ping_end a overall now = now + a.to_deadline + min a.takes (min (overall - now) attempt_dur)

unfoldable pub verify_loop : ℕ → (ℕ → Attempt) → ℕ → ℕ → ℕ → Verdict
verify_loop zero w overall now attempt = out_of_fuel
verify_loop (suc n) w overall now attempt =
    let a = w attempt in
    let until = now + a.to_until in
    let rest = verify_loop n w overall (ping_end a overall until) (attempt + 1) in
    if ltb now overall
    then (if leb overall until
        then gave_up (attempt + 1) until
        else if a.answers
        then verified (attempt + 1) (ping_end a overall until)
        else rest)
    else gave_up attempt now

-- The fuel is enough (Client/Verify/Bounds): a round takes time.
unfoldable pub verify_bidirectional : (ℕ → Attempt) → ℕ → ℕ → Verdict
unfolding verify_loop
verify_bidirectional w start timeout = verify_loop (timeout + 1) w (start + timeout) start 0

-- int(timeout / attempt), of durations that are not negative.
unfoldable pub max_attempts : ℕ → ℕ → ℕ
max_attempts timeout zero = 1
max_attempts timeout (suc attempt) = let n = timeout / suc attempt in if ltb n 1 then 1 else n
