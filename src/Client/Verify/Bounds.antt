-- ===== src/Client/Verify/Bounds.antt =====
-- The rounds of verifyBidirectional end in time.
use paqet.Prelude.{
  ℕ, zero, suc, ◌+◌, ◌-◌, ◌/◌, ◌<◌, ◌≤◌, ◌≡◌, ◌⊎◌, true, false, inl, inr, Bool-cases, ltb, leb,
  arith,
}
use paqet.Client.Verify.{
  attempt_dur, Attempt, Verdict, verified, gave_up, out_of_fuel, ping_end, verify_loop,
  verify_bidirectional, max_attempts,
}

-- The Pings k, ..., n - 1 failed.
abbrev pub Failed : (ℕ → Attempt) → ℕ → ℕ → Type 0
Failed w k n = (j : ℕ) → k ≤ j → j < n → (w j).answers ≡ false

-- The time at which round k begins, if all before it ping and fail.
pub began : (ℕ → Attempt) → ℕ → ℕ → ℕ → ℕ
began w overall start zero = start
began w overall start (suc k) =
    let now = began w overall start k in ping_end (w k) overall (now + (w k).to_until)

module _ (w : ℕ → Attempt) (overall gap start : ℕ) where
  -- The n-th Ping succeeded and all before it failed, and it ended at c.
  abbrev pub Verified : ℕ → ℕ → ℕ → Type 0
  Verified k n c =
      (m : ℕ) × (n ≡ m + 1)
      × (k ≤ m)
      × ((w m).answers ≡ true)
      × Failed w k m
      × (c ≡ began w overall start n)

  -- Each of n rounds pinged and failed; or all but the last did, which found the time over after it
  -- had begun, before its Ping.
  abbrev pub GaveUp : ℕ → ℕ → ℕ → Type 0
  GaveUp k n c =
      ((k ≤ n) × Failed w k n × (c ≡ began w overall start n))
      ⊎ ((m : ℕ) × (n ≡ m + 1)
          × (k ≤ m)
          × Failed w k m
          × (began w overall start m < overall)
          × (c ≡ began w overall start m + (w m).to_until))

  -- How the loop may end, from round k on.
  abbrev pub Ends : ℕ → Verdict → Type 0
  Ends k (verified n c) = Verified k n c × (c ≤ overall + gap)
  Ends k (gave_up n c) = GaveUp k n c × (overall ≤ c) × (c ≤ overall + gap)
  Ends k out_of_fuel = ⊥

-- The attempts that were counted.
abbrev pub AtMost : ℕ → Verdict → Type 0
AtMost b (verified n c) = n ≤ b
AtMost b (gave_up n c) = n ≤ b
AtMost b out_of_fuel = ⊥

weaken : (a b : ℕ) (v : Verdict) → a ≤ b → AtMost a v → AtMost b v
weaken a b (verified n c) h g = omega (arith, h, g)
weaken a b (gave_up n c) h g = omega (arith, h, g)
weaken a b out_of_fuel h g = absurd g

-- Rounded up.
abbrev rounds : ℕ → ℕ
rounds time = (time + 1499999999) / 1500000000

one_more : (k x y : ℕ) → 0 < y → x ≤ y - attempt_dur → k + 1 + rounds x ≤ k + rounds y
one_more k x y p h = omega (arith, p, h)

verify_loop-AtMost :
    (n : ℕ) (w : ℕ → Attempt) (overall now k : ℕ)
    → ((j : ℕ) → (w j).answers ≡ false → attempt_dur ≤ (w j).takes)
    → overall - now < n
    → AtMost (k + rounds (overall - now)) (verify_loop n w overall now k)
unfolding verify_loop
verify_loop-AtMost zero w overall now k t h = absurd (omega (arith, h))
verify_loop-AtMost (suc n) w overall now k t h = elim (Bool-cases (ltb now overall)) [
  | inr late ↦ rw late (omega arith)
  | inl early ↦ elim (Bool-cases (leb overall (now + (w k).to_until))) [
    | inl late ↦ rw (early, late) (ground (arith, early))
    | inr still ↦ elim (Bool-cases (w k).answers) [
      | inl good ↦ rw (early, still, good) (ground (arith, early))
      | inr bad ↦
          rw (early, still, bad)
            let next = ping_end (w k) overall (now + (w k).to_until) in
              let less : overall - next ≤ overall - now - attempt_dur =
                ground (arith, still, t k bad) in
              (weaken _ _ _
                (one_more k (overall - next) (overall - now) (ground (arith, early)) less)
                (verify_loop-AtMost n w overall next (k + 1) t (ground (arith, still, t k bad, h))))
    ]
  ]
]

-- If every failing Ping would last at least the time of an attempt, then verifyBidirectional ends
-- and counts at most one attempt more than maxAttempts says.
pub verify_bidirectional-max_attempts :
    (w : ℕ → Attempt) (start timeout : ℕ)
    → ((j : ℕ) → (w j).answers ≡ false → attempt_dur ≤ (w j).takes)
    → AtMost (max_attempts timeout attempt_dur + 1) (verify_bidirectional w start timeout)
unfolding verify_bidirectional max_attempts
verify_bidirectional-max_attempts w start timeout t =
    weaken _ _ (verify_loop (timeout + 1) w (start + timeout) start 0) (ground arith)
      (verify_loop-AtMost (timeout + 1) w (start + timeout) start 0 t (omega arith))
