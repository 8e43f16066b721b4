-- ===== src/Client/Streams/Retry.antt =====
-- The rounds of newStrm go on to the next timedConns.
use paqet.Prelude.{
  ℕ, zero, suc, ◌+◌, ◌%◌, ◌^◌, ◌<◌, ◌≡◌, refl, ap, ◌∙◌, sym, true, false, Option, some, inl, inr,
  Bool-cases, Option-cases, ◌==◌, ==_iff, arith, length, get_elem?, get_elem?-of_lt,
}
use paqet.Prelude.Maybe.{◌>>=◌, some_equal}
use mathlib.Core.Path.{ap₂, subst}
use paqet.Iterator.{Iterator, next}
use native.Mathlib.Nat.{mod-lt}
use paqet.Iterator.Rotation.{slot-mod}
use paqet.Client.{Probe}
use paqet.Client.Reconnect.{Live, new_conn}
use paqet.Client.Streams.{Client, Turn, Strm, try_conn, round, rounds, new_strm}

-- The connection of a timedConn is open.
abbrev pub IsUp : Live → Type 0
IsUp l = l.closed l.current ≡ false

new_conn-IsUp : (l : Live) (p : Probe) → IsUp l → new_conn l p ≡ (l, some l.current)
unfolding new_conn
new_conn-IsUp l p h = rw h refl

IsUp-new_conn : (l : Live) (p : Probe) → IsUp l → IsUp (new_conn l p).0
IsUp-new_conn l p h = rw (new_conn-IsUp l p h) h

try_conn-IsUp :
    (c : Client) (i j : ℕ) (t : Turn) → IsUp (c.conns j) → IsUp ((try_conn c i t).0.conns j)
unfolding try_conn
try_conn-IsUp c i j t h = elim (Bool-cases (j == i)) [
  | inl e ↦
      rw e (IsUp-new_conn (c.conns i) t.probe (subst (λ j. IsUp (c.conns j)) ((==_iff j i).0 e) h))
  | inr e ↦ rw e h
]

-- Some stream is returned.
abbrev pub Gives : Option (Client × Option Strm) → Type 0
Gives x = (c : Client) × (s : Strm) × (x ≡ some (c, some s))

pub next_item :
    (it : Iterator ℕ)
    → 0 < length it.items
    → length it.items < 2 ^ 64
    → it.index + 1 < 2 ^ 64
    → (a : ℕ) × (get_elem? it.items (it.index % length it.items) ≡ some a)
      × (next it ≡ (some a, record it { index = it.index + 1 }))
unfolding next
next_item it h l b =
    let n = length it.items in
    let (a, e) = get_elem?-of_lt it.items (it.index % n) (mod-lt it.index {m = n} h) in
    (
      a,
      e,
      ap₂ (λ x i. (x, record it { index = i })) (rw (slot-mod n it.index h l) e) (omega (arith, b)),
    )

pub round-next :
    (c : Client) (t : Turn) (a : ℕ) (it : Iterator ℕ)
    → next c.iter ≡ (some a, it)
    → round c t ≡ some (try_conn (record c { iter = it }) a t)
unfolding round
round-next c t a it e =
    ap (λ (x : Option ℕ × Iterator ℕ). x.0 >>= λ i. some (try_conn (record c { iter = x.1 }) i t)) e

-- A round on an open connection whose stream opens.
try_conn_up :
    (c : Client) (i : ℕ) (t : Turn)
    → IsUp (c.conns i)
    → t.opens ≡ true
    → (s : Strm) × ((try_conn c i t).1 ≡ some s)
unfolding try_conn
try_conn_up c i t h o = ((i, (c.conns i).current), rw (new_conn-IsUp (c.conns i) t.probe h, o) refl)

rounds-Gives :
    (n k d : ℕ) (w : ℕ → Turn) (c : Client) (i : ℕ)
    → 0 < length c.iter.items
    → length c.iter.items < 2 ^ 64
    → c.iter.index + n < 2 ^ 64
    → d < n
    → get_elem? c.iter.items ((c.iter.index + d) % length c.iter.items) ≡ some i
    → IsUp (c.conns i)
    → (w (k + d)).opens ≡ true
    → Gives (rounds n k w c)
unfolding rounds
rounds-Gives zero k d w c i l m b q g u o = absurd (omega (arith, q))
rounds-Gives (suc n) k zero w c i l m b q g u o =
    let (a, at, step) = next_item c.iter l m (omega (arith, b)) in
    let c' : Client = record c { iter = record c.iter { index = c.iter.index + 1 } } in
    let same : i ≡ a =
      some_equal
        (sym g ∙ ap (λ x. get_elem? c.iter.items (x % length c.iter.items)) (omega arith) ∙ at) in
    let (s, e) =
      try_conn_up c' a (w k) (subst (λ i. IsUp (c.conns i)) same u)
        (ap (λ i. (w i).opens) (omega arith) ∙ o) in
    rw (round-next c (w k) a _ step, e) ((try_conn c' a (w k)).0, s, refl)
rounds-Gives (suc n) k (suc d) w c i l m b q g u o =
    let (a, at, step) = next_item c.iter l m (omega (arith, b)) in
    let c' : Client = record c { iter = record c.iter { index = c.iter.index + 1 } } in
    rw (round-next c (w k) a _ step) (elim (Option-cases (try_conn c' a (w k)).1) [
      | inr (s, e) ↦ rw e ((try_conn c' a (w k)).0, s, refl)
      | inl e ↦ rw e (
          rounds-Gives n (suc k) d w (try_conn c' a (w k)).0 i l m (omega (arith, b))
            (omega (arith, q))
            (ap (λ x. get_elem? c.iter.items (x % length c.iter.items)) (omega arith) ∙ g)
            (try_conn-IsUp c' a i (w k) u) (ap (λ i. (w i).opens) (omega arith) ∙ o))
    ])

-- newStrm gives a stream, without an error or a panic, if one of the next three timedConns in the
-- iterator's turn has an open connection and OpenStrm succeeds in its round, whatever becomes of
-- the other rounds. The iterator has items, and its counter does not wrap meanwhile.
pub new_strm-Gives :
    (w : ℕ → Turn) (c : Client) (d i : ℕ)
    → 0 < length c.iter.items
    → length c.iter.items < 2 ^ 64
    → c.iter.index + 3 < 2 ^ 64
    → d < 3
    → get_elem? c.iter.items ((c.iter.index + d) % length c.iter.items) ≡ some i
    → IsUp (c.conns i)
    → (w d).opens ≡ true
    → Gives (new_strm w c)
unfolding new_strm
new_strm-Gives w c d i l m b q g u o =
    rounds-Gives 3 0 d w c i l m b q g u (ap (λ i. (w i).opens) (omega arith) ∙ o)
