-- ===== src/Socks/Wait.antt =====
-- The end of handleUDPAssociate (internal/socks/udp_handle.go): it waits for its goroutine, which
-- copies from the TCP connection until that closes, or for the shutdown.
use paqet.Prelude.{ℕ, suc, ◌+◌, ◌-◌, ◌≤◌, ◌<◌, ◌≡◌, ◌≢◌, refl, Bool, true, false, ◌&&◌, ◌||◌, arith}

-- In the select; after ctx.Done(), receiving from `done`; or returned.
pub data Phase : Type 0 where
  selecting draining returned : Phase

-- `copying` says that the goroutine runs, `sent` that its result is in the channel of one place.
pub record Associate : Type 0 where
  pub phase : Phase
  pub copying : Bool
  pub sent : Bool
  pub conn_open : Bool
  pub cancelled : Bool

unfoldable pub associate : Bool → Associate
associate cancelled = record {
  phase = selecting;
  copying = true;
  sent = false;
  conn_open = true;
  cancelled = cancelled;
}

pub data Step (a : Associate) : Associate → Type 0 where
  cancel : a.cancelled ≡ false → Step a (record a { cancelled = true })
  copied : a.copying ≡ true → Step a (record a { copying = false; sent = true })
  ends : a.phase ≡ selecting → a.sent ≡ true → Step a (record a { phase = returned; sent = false })
  force :
      a.phase ≡ selecting
      → a.cancelled ≡ true
      → Step a (record a { phase = draining; conn_open = false })
  drain : a.phase ≡ draining → a.sent ≡ true → Step a (record a { phase = returned; sent = false })

pub data Run (a : Associate) : ℕ → Associate → Type 0 where
  here : Run a 0 a
  next : {n : ℕ} {b c : Associate} → Run a n b → Step b c → Run a (suc n) c

abbrev bit : Bool → ℕ
bit true = 1
bit false = 0

abbrev pub phase_left : Phase → ℕ
phase_left selecting = 2
phase_left draining = 1
phase_left returned = 0

abbrev left : Associate → ℕ
left a = phase_left a.phase + bit a.copying + (1 - bit a.cancelled)

-- The goroutine runs, or its result waits, or it has been received; and a wait for it after the
-- shutdown has closed the connection.
record Inv (a : Associate) : Type 0 where
  waits : a.phase ≢ returned → (a.copying || a.sent) ≡ true
  over : a.phase ≡ returned → (a.copying ≡ false) × (a.sent ≡ false)
  once : (a.copying && a.sent) ≡ false
  forced : a.phase ≡ draining → a.conn_open ≡ false

Step-Inv : {a b : Associate} → Step a b → Inv a → Inv b
Step-Inv {a} (cancel c) v = ground (arith, v)
Step-Inv {a} (copied c) v = ground (arith, v)
Step-Inv {a} (ends p s) v = ground (arith, v)
Step-Inv {a} (force p c) v = ground (arith, v)
Step-Inv {a} (drain p s) v = ground (arith, v)

Step-left : {a b : Associate} → Step a b → left b < left a
Step-left {a} (cancel c) = ground (arith, c)
Step-left {a} (copied c) = ground (arith, c)
Step-left {a} (ends p s) = ground (arith, p)
Step-left {a} (force p c) = ground (arith, p)
Step-left {a} (drain p s) = ground (arith, p)

Run-both :
    (b : Bool) {n : ℕ} {a : Associate}
    → Run (associate b) n a
    → Inv a × (n + left a ≤ left (associate b))
unfolding associate
Run-both true here =
    (record { waits = λ h. refl; over = λ e. cc; once = refl; forced = λ e. cc }, omega arith)
Run-both false here =
    (record { waits = λ h. refl; over = λ e. cc; once = refl; forced = λ e. cc }, omega arith)
Run-both b (next r st) =
    let (v, l) = Run-both b r in (Step-Inv st v, omega (arith, l, Step-left st))

-- A step that needs nothing from the client: the goroutine is done, or its connection is closed,
-- or the shutdown has begun.
abbrev pub Goes : Associate → Type 0
Goes a = (b : Associate) × Step a b

goes :
    (p : Phase) (c s : Bool) (a : Associate)
    → Inv a
    → a.phase ≡ p
    → a.copying ≡ c
    → a.sent ≡ s
    → a.cancelled ≡ true
    → p ≢ returned
    → Goes a
goes selecting c s a v e f g k h = (_, force e k)
goes draining c true a v e f g k h = (_, drain e g)
goes draining true false a v e f g k h = (_, copied f)
goes draining false false a v e f g k h = absurd (ground (arith, v.waits, e, f, g))
goes returned c s a v e f g k h = absurd (h refl)

four : (b : Bool) (n m : ℕ) → n + m ≤ left (associate b) → n ≤ 4
unfolding associate
four true n m h = omega (arith, h)
four false n m h = omega (arith, h)

-- handleUDPAssociate, once it waits, takes at most four steps with its goroutine and the shutdown.
-- When it returns, the goroutine has ended and its result has been received. After a shutdown a
-- step is possible until it returns, and it receives only once it has closed the connection, so
-- that the copy ends.
pub wait_lem :
    (b : Bool) (n : ℕ) (a : Associate)
    → Run (associate b) n a
    → (n ≤ 4)
      × (a.phase ≡ returned → (a.copying ≡ false) × (a.sent ≡ false))
      × (a.cancelled ≡ true → a.phase ≢ returned → Goes a)
      × (a.phase ≡ draining → a.conn_open ≡ false)
unfolding associate
wait_lem b n a r =
    let (v, l) = Run-both b r in
    (
      four b n (left a) l,
      v.over,
      (λ k h. goes a.phase a.copying a.sent a v refl refl refl k h),
      v.forced,
    )
