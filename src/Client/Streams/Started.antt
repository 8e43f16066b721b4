-- ===== src/Client/Streams/Started.antt =====
-- What Client.Start (internal/client/client.go) leaves behind, and what its shutdown closes.
use paqet.Prelude.{
  ℕ, zero, suc, ◌+◌, ◌^◌, ◌<◌, ◌≡◌, refl, sym, ap, ◌∙◌, Bool, true, false, List, [], ◌∷◌, Option,
  none, some, inl, inr, Bool-cases, Option-cases, ◌==◌, ==_iff, length, get_elem?, get_elem?-of_lt,
  ◌%◌, u64, arith,
}
use paqet.Prelude.Maybe.{◌>>=◌, >>=-eq-some, some_equal}
use paqet.Prelude.Update.{put}
use mathlib.Core.Path.{subst}
use paqet.Cycler.{FlagCycler}
use native.Mathlib.Nat.{mod-lt}
use paqet.Iterator.{Iterator, next}
use paqet.Iterator.Rotation.{slot-mod}
use paqet.Client.{World, Start, working, unverified, failed, new_timed_conn, TimedConn}
use paqet.Client.Reconnect.{Live}
use paqet.Client.Reconnect.Leaks.{HasNoLeak}
use paqet.Client.Streams.{
  Client, Turn, Strm, try_conn, round, rounds, new_strm, start, count_from, started, close,
  close_all, shut_down,
}
use paqet.Client.Streams.Retry.{round-next}

next_any :
    (it : Iterator ℕ)
    → 0 < length it.items
    → length it.items < 2 ^ 64
    → (a : ℕ) × (next it ≡ (some a, record it { index = u64 (it.index + 1) }))
unfolding next
next_any it h l =
    let n = length it.items in
    let (a, e) = get_elem?-of_lt it.items (it.index % n) (mod-lt it.index {m = n} h) in
    (
      a,
      ap (λ (x : Option ℕ). (x, record it { index = u64 (it.index + 1) }))
          (ap (get_elem? it.items) (slot-mod n it.index h l) ∙ e),
    )

-- A call that returns, and leaves the iterator over the same timedConns.
abbrev pub Returns : Client → Option (Client × Option Strm) → Type 0
Returns c x = (r : Client × Option Strm) × (x ≡ some r) × (r.0.iter.items ≡ c.iter.items)

rounds_total :
    (n k : ℕ) (w : ℕ → Turn) (c : Client)
    → 0 < length c.iter.items
    → length c.iter.items < 2 ^ 64
    → Returns c (rounds n k w c)
unfolding rounds try_conn
rounds_total zero k w c l m = ((c, none), refl, refl)
rounds_total (suc n) k w c l m =
    let (a, step) = next_any c.iter l m in
    let c' : Client = record c { iter = record c.iter { index = u64 (c.iter.index + 1) } } in
    rw (round-next c (w k) a _ step) (elim (Option-cases (try_conn c' a (w k)).1) [
      | inr (s, e) ↦ (((try_conn c' a (w k)).0, some s), rw e refl, refl)
      | inl e ↦ rw e (rounds_total n (suc k) w (try_conn c' a (w k)).0 l m)
    ])

length-count_from : (n k : ℕ) → length (count_from k n) ≡ n
length-count_from zero k = refl
length-count_from (suc n) k = omega (arith, length-count_from n (suc k))

started_total :
    (ts : List TimedConn) (index : ℕ) (conns : ℕ → Live) (w : ℕ → Turn)
    → 0 < length ts
    → length ts < 2 ^ 64
    → Returns (started ts index conns) (new_strm w (started ts index conns))
unfolding new_strm started
started_total ts index conns w h l =
    let n = length-count_from (length ts) 0 in
    rounds_total 3 0 w (started ts index conns) (omega (arith, n, h)) (omega (arith, n, l))

-- newStrm panics on a client without timedConns.
started_panics :
    (index : ℕ) (conns : ℕ → Live) (w : ℕ → Turn) → new_strm w (started [] index conns) ≡ none
unfolding new_strm started rounds round next
started_panics index conns w = refl

-- The first connection could be made.
abbrev pub first_made : Start → Bool
first_made (failed t) = false
first_made _ = true

one_more :
    (t : TimedConn) (m : Option (List TimedConn × Bool)) (ts : List TimedConn) (fine : Bool)
    → ◌>>=◌ {B = List TimedConn × Bool} m (λ r. some (t ∷ r.0, r.1)) ≡ some (ts, fine)
    → 0 < length ts
one_more t m ts fine e =
    let (r, _, q) = >>=-eq-some m _ e in
    subst (λ (ts : List TimedConn). 0 < length ts)
      (ap (λ (p : List TimedConn × Bool). p.0) (some_equal q)) (omega arith)

start_first :
    (x : FlagCycler × World) (xs : List (FlagCycler × World)) (s : Start) (ts : List TimedConn)
    (fine : Bool)
    → new_timed_conn x.0 x.1 ≡ some s
    → start (x ∷ xs) ≡ some (ts, fine)
    → (first_made s ≡ false → (ts ≡ []) × (fine ≡ false)) × (first_made s ≡ true → 0 < length ts)
unfolding start
start_first x xs (failed t) ts fine e =
    rw (e, start)
      (λ h.
        let q = some_equal h in
        (
          (λ _. (
            sym (ap (λ (p : List TimedConn × Bool). p.0) q),
            sym (ap (λ (p : List TimedConn × Bool). p.1) q),
          )),
          λ f. cc,
        ))
start_first x xs (working t) ts fine e =
    rw (e, start) (λ h. ((λ f. cc), λ _. one_more t (start xs) ts fine h))
start_first x xs (unverified t) ts fine e =
    rw (e, start) (λ h. ((λ f. cc), λ _. one_more t (start xs) ts fine h))

-- When Start of a client with at least one connection returns, with or without an error: if its
-- first connection could not be made, it returns an error and newStrm panics, at whatever index of
-- the iterator; if it could, newStrm at any index returns, whatever the connections have come to,
-- and the next newStrm is again one over the same timedConns. There are below 2^64 of them.
pub start-new_strm :
    (x : FlagCycler × World) (xs : List (FlagCycler × World)) (s : Start) (ts : List TimedConn)
    (fine : Bool) (index : ℕ) (conns : ℕ → Live) (w : ℕ → Turn)
    → new_timed_conn x.0 x.1 ≡ some s
    → start (x ∷ xs) ≡ some (ts, fine)
    → length ts < 2 ^ 64
    → (first_made s ≡ false → (fine ≡ false) × (new_strm w (started ts index conns) ≡ none))
      × (first_made s ≡ true
          → Returns (started ts index conns) (new_strm w (started ts index conns)))
start-new_strm x xs s ts fine index conns w e h l =
    let (none_made, made) = start_first x xs s ts fine e h in
    (
      λ f.
          let (empty, err) = none_made f in
          (
            err,
            ap (λ ts. new_strm w (started ts index conns)) empty ∙ started_panics index conns w,
          ),
      λ m. started_total ts index conns w (made m) l,
    )

-- Only `closed` is changed, and it only grows.
pub record Kept (l g : Live) : Type 0 where
  pub same_current : g.current ≡ l.current
  pub same_made : g.made ≡ l.made
  pub same_pending : (j : ℕ) → g.pending j ≡ l.pending j
  pub stays : (j : ℕ) → l.closed j ≡ true → g.closed j ≡ true

Kept-refl : (l : Live) → Kept l l
Kept-refl l = record {
  same_current = refl;
  same_made = refl;
  same_pending = λ j. refl;
  stays = λ j h. h;
}

put-close-Kept : (i k : ℕ) (conns : ℕ → Live) → Kept (conns k) (put conns i (close (conns i)) k)
put-close-Kept i k conns = elim (Bool-cases (k == i)) [
  | inl e ↦
      let same : i ≡ k = sym ((==_iff k i).0 e) in
      rw e (
        subst (λ k. Kept (conns k) (close (conns i))) same
          (record {
            same_current = refl;
            same_made = refl;
            same_pending = λ j. refl;
            stays = λ j h. ground (arith, h);
          }))
  | inr e ↦ rw e (Kept-refl (conns k))
]

put-close-current :
    (i k : ℕ) (conns : ℕ → Live)
    → i ≡ k
    → (put conns i (close (conns i)) k).closed (conns k).current ≡ true
put-close-current i k conns e =
    let hit : (k == i) ≡ true = (==_iff k i).1 (sym e) in
    rw hit (subst (λ k. (close (conns i)).closed (conns k).current ≡ true) e (ground arith))

close_all-Kept :
    (items : List ℕ) (conns : ℕ → Live) (k : ℕ) → Kept (conns k) (close_all items conns k)
unfolding close_all
close_all-Kept [] conns k = Kept-refl (conns k)
close_all-Kept (i ∷ items) conns k =
    let a = put-close-Kept i k conns in
    let conns' = put conns i (close (conns i)) in
    let b = close_all-Kept items conns' k in
    record {
      same_current = b.same_current ∙ a.same_current;
      same_made = b.same_made ∙ a.same_made;
      same_pending = λ j. b.same_pending j ∙ a.same_pending j;
      stays = λ j h. b.stays j (a.stays j h);
    }

close_all-current :
    (items : List ℕ) (conns : ℕ → Live) (k p : ℕ)
    → get_elem? items p ≡ some k
    → (close_all items conns k).closed (conns k).current ≡ true
unfolding close_all
close_all-current [] conns k p e = cc
close_all-current (i ∷ items) conns k zero e =
    (close_all-Kept items (put conns i (close (conns i))) k).stays (conns k).current
      (put-close-current i k conns (some_equal e))
close_all-current (i ∷ items) conns k (suc p) e =
    let conns' = put conns i (close (conns i)) in
    subst (λ c. (close_all items conns' k).closed c ≡ true) (put-close-Kept i k conns).same_current
      (close_all-current items conns' k p e)

-- When the context is done, Start's goroutine closes every connection that a timedConn of the
-- client has made and that no newConn is still to install.
pub shut_down-closes :
    (c : Client) (p k : ℕ)
    → get_elem? c.iter.items p ≡ some k
    → HasNoLeak (c.conns k)
    → ((j : ℕ) → (c.conns k).pending j ≡ false)
    → (j : ℕ) → j < (c.conns k).made
    → ((shut_down c).conns k).closed j ≡ true
unfolding shut_down
shut_down-closes c p k at v none_pending j l =
    let kept = close_all-Kept c.iter.items c.conns k in
    let now = close_all-current c.iter.items c.conns k p at in
    elim (Bool-cases (j == (c.conns k).current)) [
      | inl e ↦
          subst (λ j. (close_all c.iter.items c.conns k).closed j ≡ true)
            (sym ((==_iff j (c.conns k).current).0 e)) now
      | inr e ↦ kept.stays j (ground (arith, v.accounted j l, none_pending j))
    ]
