-- ===== src/Client/Reconnect/Leaks.antt =====
-- No interleaving loses an open connection, and newConn returns an open one.
use paqet.Prelude.{
  ℕ, ◌+◌, ◌<◌, ◌≡◌, refl, ap, Bool, true, false, ◌||◌, List, [], ◌∷◌, none, some, ◌==◌, arith,
  Bool-cases, inl, inr,
}
use paqet.Cycler.{fail, succeed}
use paqet.Client.{Dial, unreachable, handshake_fails, connects, Probe}
use paqet.Client.Reconnect.{
  Live, created, reconnect, install, Act, dies, reconnects, installs, health, act, acts, new_conn,
}
use paqet.Client.Startup.{passes}

-- Every connection made is the current one, closed, or still to be installed; the current one and
-- those to be installed were made.
pub record HasNoLeak (l : Live) : Type 0 where
  pub accounted : (i : ℕ) → i < l.made → ((i == l.current) || (l.closed i || l.pending i)) ≡ true
  pub current_made : l.current < l.made
  pub pending_made : (i : ℕ) → l.pending i ≡ true → i < l.made

dies-HasNoLeak : (l : Live) (i : ℕ) → HasNoLeak l → HasNoLeak (act l (dies i))
unfolding act
dies-HasNoLeak l i v = record {
  accounted = λ j h. ground (arith, v.accounted j h);
  current_made = v.current_made;
  pending_made = v.pending_made;
}

health-HasNoLeak : (l : Live) (i : ℕ) → HasNoLeak l → HasNoLeak (act l (health i))
unfolding act
health-HasNoLeak l i v = record {
  accounted = λ j h. ground (arith, v.accounted j h);
  current_made = v.current_made;
  pending_made = v.pending_made;
}

installs-HasNoLeak : (l : Live) (i : ℕ) → HasNoLeak l → HasNoLeak (act l (installs i))
unfolding act
installs-HasNoLeak l i v = elim (Bool-cases (l.pending i)) [
  | inl p ↦ rw p (elim (Bool-cases (l.closed l.current)) [
    | inl c ↦
        rw (c, install)
          (record {
            accounted = λ j h. ground (arith, v.accounted j, ap l.closed {x = j} {y = l.current});
            current_made = v.pending_made i p;
            pending_made = λ j h. ground (arith, v.pending_made j);
          })
    | inr c ↦
        rw (c, install)
          (record {
            accounted = λ j h. ground (arith, v.accounted j);
            current_made = v.current_made;
            pending_made = λ j h. ground (arith, v.pending_made j);
          })
  ])
  | inr p ↦ rw p v
]

reconnect-HasNoLeak :
    (l : Live) (d : Dial) (b : Bool)
    → HasNoLeak l
    → HasNoLeak (reconnect l (record { dial = d; verified = b }))
unfolding reconnect
reconnect-HasNoLeak l unreachable b v = record {
  accounted = v.accounted;
  current_made = v.current_made;
  pending_made = v.pending_made;
}
reconnect-HasNoLeak l handshake_fails b v = record {
  accounted = λ j h. ground (arith, v.accounted j);
  current_made = omega (arith, v.current_made);
  pending_made = λ j h. omega (arith, v.pending_made j h);
}
reconnect-HasNoLeak l connects false v = record {
  accounted = λ j h. ground (arith, v.accounted j);
  current_made = omega (arith, v.current_made);
  pending_made = λ j h. omega (arith, v.pending_made j h);
}
reconnect-HasNoLeak l connects true v = record {
  accounted = λ j h. ground (arith, v.accounted j);
  current_made = omega (arith, v.current_made);
  pending_made = λ j h. ground (arith, v.pending_made j);
}

pub act-HasNoLeak : (l : Live) (a : Act) → HasNoLeak l → HasNoLeak (act l a)
act-HasNoLeak l (dies i) v = dies-HasNoLeak l i v
act-HasNoLeak l (reconnects p) v = unfold act in reconnect-HasNoLeak l p.dial p.verified v
act-HasNoLeak l (installs i) v = installs-HasNoLeak l i v
act-HasNoLeak l (health i) v = health-HasNoLeak l i v

-- From a state without leaks, in every interleaving of sessions that end, reconnects, their
-- installation and failed health checks, each connection made stays accounted for: it is current,
-- closed or still to be installed. So when no installation is outstanding, no connection but the
-- current one is open.
pub acts-HasNoLeak :
    (rest : List Act) (l : Live)
    → HasNoLeak l
    → HasNoLeak (acts l rest)
      × (((i : ℕ) → (acts l rest).pending i ≡ false)
          → (i : ℕ) → i < (acts l rest).made
          → (acts l rest).closed i ≡ false
          → i ≡ (acts l rest).current)
unfolding acts
acts-HasNoLeak [] l v = (v, λ none_pending i h o. ground (arith, v.accounted i h, none_pending i))
acts-HasNoLeak (a ∷ rest) l v = acts-HasNoLeak rest (act l a) (act-HasNoLeak l a v)

-- A connection still to be made is not closed.
abbrev pub IsFresh : Live → Type 0
IsFresh l = (i : ℕ) → l.made < i + 1 → l.closed i ≡ false

-- What newConn returns when it reconnects.
pub Reconnected : Live → Probe → Type 0
unfolding new_conn
Reconnected l p =
    (passes p ≡ true
      → ((new_conn l p).1 ≡ some l.made)
        × ((new_conn l p).0.current ≡ l.made)
        × ((new_conn l p).0.closed l.made ≡ false)
        × ((new_conn l p).0.cycler ≡ succeed l.cycler))
    × (passes p ≡ false
        → ((new_conn l p).1 ≡ none)
          × ((new_conn l p).0.current ≡ l.current)
          × ((new_conn l p).0.cycler ≡ fail l.cycler))

reconnected :
    (l : Live) (d : Dial) (b : Bool)
    → l.closed l.current ≡ true
    → l.closed l.made ≡ false
    → Reconnected l (record { dial = d; verified = b })
unfolding Reconnected created
reconnected l unreachable b c f = rw c ((λ e. cc), λ _. (refl, refl, refl))
reconnected l handshake_fails b c f = rw c ((λ e. cc), λ _. (refl, refl, refl))
reconnected l connects false c f = rw c ((λ e. cc), λ _. (refl, refl, refl))
reconnected l connects true c f = rw c ((λ _. (refl, refl, f, refl)), λ e. cc)

-- newConn with no other goroutine in between, where the next connection is not closed. On an open
-- connection it returns that and changes nothing. Otherwise, if the new connection connects and
-- verifies, it installs and returns it, open, and resets the failures; if not, it returns an error,
-- counts one failure and keeps the connection.
new_conn_lem :
    (l : Live) (p : Probe)
    → l.closed l.made ≡ false
    → (l.closed l.current ≡ false → new_conn l p ≡ (l, some l.current))
      × (l.closed l.current ≡ true → Reconnected l p)
unfolding new_conn
new_conn_lem l p f = ((λ o. rw o refl), λ c. reconnected l p.dial p.verified c f)
