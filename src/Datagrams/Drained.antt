-- ===== src/Datagrams/Drained.antt =====
-- Every stream of the pool is read by one goroutine.
use paqet.Prelude.{
  ℕ, suc, ◌<◌, ◌≡◌, ◌≢◌, refl, ap, ◌∙◌, sym, Bool, true, false, ◌&&◌, ◌||◌, List, [], ◌∷◌, Option,
  none, some, inl, inr, Bool-cases, Option-cases, arith, ◌==◌, ==_iff,
}
use paqet.Prelude.Maybe.{some_equal}
use paqet.Client.{mark}
use paqet.Client.UdpPool.{Pool, written, unmark, open_strm, discard, keep, delete}
use paqet.Client.UdpPool.Strays.{
  HasNoStray, open_strm-HasNoStray, discard-HasNoStray, keep-HasNoStray, delete-HasNoStray, put_inv,
}
use paqet.Datagrams.{
  Flows, close_udp, stores_new, first_write, next_write, reader_ends, Event, opens, gives_up,
  stores, fails, writes_first, writes_next, ends, step, steps, events_of, handle_udp_packet,
}

-- A stream of the pool stands there with its own key, and either its reader runs, or the goroutine
-- that is to start it has not come to it; never both, and neither before the stream is in the
-- pool.
pub record IsDrained (f : Flows) : Type 0 where
  pub sound : HasNoStray f.pool
  pub own_key : (k s : ℕ) → f.pool.strms k ≡ some s → f.key s ≡ k
  pub drained : (k s : ℕ) → f.pool.strms k ≡ some s → (f.starting s || f.reading s) ≡ true
  pub once : (s : ℕ) → (f.starting s && f.reading s) ≡ false
  pub fresh : (s : ℕ) → f.pool.pending s ≡ true → (f.starting s || f.reading s) ≡ false
  pub old : (s : ℕ) → (f.starting s || f.reading s) ≡ true → s < f.pool.opened

delete_inv : (p : Pool) (k j s : ℕ) → (delete p k).strms j ≡ some s → (j ≢ k) × (p.strms j ≡ some s)
unfolding delete
delete_inv p k j s = elim (Option-cases (p.strms k)) [
  | inl n ↦
      rw (delete, n) (λ e. elim (put_inv p.strms k none j s e) [ inl (_, x) ↦ cc | inr x ↦ x ])
  | inr (t, q) ↦
      rw (delete, q) (λ e. elim (put_inv p.strms k none j s e) [ inl (_, x) ↦ cc | inr x ↦ x ])
]

delete_rest :
    (p : Pool) (k : ℕ) → ((delete p k).pending ≡ p.pending) × ((delete p k).opened ≡ p.opened)
unfolding delete
delete_rest p k = elim (Option-cases (p.strms k)) [
  | inl n ↦ rw (delete, n) (refl, refl)
  | inr (t, q) ↦ rw (delete, q) (refl, refl)
]

-- A stream s that was there with key k is let go, and CloseUDP takes that key from the pool.
close_udp-IsDrained :
    (f : Flows) (k : ℕ) (starting reading : ℕ → Bool)
    → ((s : ℕ) → f.key s ≢ k → (starting s ≡ f.starting s) × (reading s ≡ f.reading s))
    → ((s : ℕ) → f.starting s ≡ false → starting s ≡ false)
    → ((s : ℕ) → f.reading s ≡ false → reading s ≡ false)
    → IsDrained f
    → IsDrained (close_udp (record f { starting = starting; reading = reading }) k)
unfolding close_udp
close_udp-IsDrained f k starting reading same less_s less_r v =
    let (pe, oe) = delete_rest f.pool k in
    record {
      sound = delete-HasNoStray f.pool k v.sound;
      own_key = λ j s e. v.own_key j s (delete_inv f.pool k j s e).1;
      drained = λ j s e.
          let (ne, e') = delete_inv f.pool k j s e in
          ground (arith, same s (λ x. ne (sym (v.own_key j s e') ∙ x)), v.drained j s e');
      once = λ s. ground (arith, less_s s, less_r s, v.once s);
      fresh = λ s e. ground (arith, less_s s, less_r s, v.fresh s (ap (λ p. p s) (sym pe) ∙ e));
      old = λ s e. rw oe (ground (arith, less_s s, less_r s, v.old s, e));
    }

kept-IsDrained :
    (f : Flows) (k i : ℕ)
    → f.pool.pending i ≡ true
    → f.pool.strms k ≡ none
    → IsDrained f
    → IsDrained (stores_new f k i none)
unfolding stores_new keep
kept-IsDrained f k i p n v = record {
  sound = keep-HasNoStray f.pool k i p n v.sound;
  own_key = λ j s e. elim (put_inv f.pool.strms k (some i) j s e) [
    | inl (a, x) ↦ ground (arith, a, some_equal x)
    | inr (a, x) ↦ ground (arith, v.own_key j s x, v.sound.pooled_done j s x, p)
  ];
  drained = λ j s e. elim (put_inv f.pool.strms k (some i) j s e) [
    | inl (a, x) ↦ ground (arith, some_equal x)
    | inr (a, x) ↦ ground (arith, v.drained j s x)
  ];
  once = λ s. ground (arith, v.once s, v.fresh i p);
  fresh = λ s e. ground (arith, v.fresh s);
  old = λ s e. ground (arith, v.old s, v.sound.pending_old i p);
}

lost-IsDrained :
    (f : Flows) (i : ℕ)
    → f.pool.pending i ≡ true
    → IsDrained f
    → IsDrained (record f { pool = discard f.pool i })
unfolding discard
lost-IsDrained f i p v = record {
  sound = discard-HasNoStray f.pool i p v.sound;
  own_key = v.own_key;
  drained = v.drained;
  once = v.once;
  fresh = λ s e. ground (arith, v.fresh s);
  old = v.old;
}

opened-IsDrained : (f : Flows) → IsDrained f → IsDrained (record f { pool = open_strm f.pool })
unfolding open_strm
opened-IsDrained f v = record {
  sound = open_strm-HasNoStray f.pool v.sound;
  own_key = v.own_key;
  drained = v.drained;
  once = v.once;
  fresh = λ s e. ground (arith, v.fresh s, v.old s);
  old = λ s e. omega (arith, v.old s e);
}

started-IsDrained :
    (f : Flows) (s : ℕ) → f.starting s ≡ true → IsDrained f → IsDrained (first_write f s true)
unfolding first_write
started-IsDrained f s q v = record {
  sound = v.sound;
  own_key = v.own_key;
  drained = λ j t e. ground (arith, v.drained j t e);
  once = λ t. ground (arith, v.once t);
  fresh = λ t e. ground (arith, v.fresh t e, q);
  old = λ t e. ground (arith, v.old t, v.old s, q);
}

unmark_other : (p : ℕ → Bool) (key : ℕ → ℕ) (s t : ℕ) → key t ≢ key s → unmark p s t ≡ p t
unmark_other p key s t h = elim (Bool-cases (t == s)) [
  | inl b ↦ absurd (h (ap key ((==_iff t s).0 b)))
  | inr b ↦ rw b refl
]

step-IsDrained : (f : Flows) (e : Event) → IsDrained f → IsDrained (step f e)
unfolding step
step-IsDrained f opens v = opened-IsDrained f v
step-IsDrained f (gives_up i) v = elim (Bool-cases (f.pool.pending i)) [
  | inl p ↦ rw p (lost-IsDrained f i p v)
  | inr p ↦ rw p v
]
step-IsDrained f (stores k i) v = elim (Bool-cases (f.pool.pending i)) [
  | inl p ↦ rw p (elim (Option-cases (f.pool.strms k)) [
    | inl n ↦ rw n (kept-IsDrained f k i p n v)
    | inr (s, e) ↦ rw (e, stores_new) (lost-IsDrained f i p v)
  ])
  | inr p ↦ rw p v
]
step-IsDrained f fails v =
    close_udp-IsDrained f 0 f.starting f.reading (λ s h. (refl, refl)) (λ s h. h) (λ s h. h) v
step-IsDrained f (writes_first s true) v = elim (Bool-cases (f.starting s)) [
  | inl p ↦ rw p (started-IsDrained f s p v)
  | inr p ↦ rw p v
]
step-IsDrained f (writes_first s false) v = elim (Bool-cases (f.starting s)) [
  | inl p ↦
      rw (p, first_write)
        (close_udp-IsDrained f (f.key s) (unmark f.starting s) f.reading
          (λ t h. (unmark_other f.starting f.key s t h, refl)) (λ t h. ground (arith, h)) (λ t h. h)
          v)
  | inr p ↦ rw p v
]
step-IsDrained f (writes_next s true) v = v
step-IsDrained f (writes_next s false) v =
    close_udp-IsDrained f (f.key s) f.starting f.reading (λ s h. (refl, refl)) (λ s h. h) (λ s h. h)
      v
step-IsDrained f (ends s) v = elim (Bool-cases (f.reading s)) [
  | inl p ↦
      rw (p, reader_ends)
        (close_udp-IsDrained f (f.key s) f.starting (unmark f.reading s)
          (λ t h. (refl, unmark_other f.reading f.key s t h)) (λ t h. h) (λ t h. ground (arith, h))
          v)
  | inr p ↦ rw p v
]

steps-IsDrained : (es : List Event) (f : Flows) → IsDrained f → IsDrained (steps f es)
unfolding steps
steps-IsDrained [] f v = v
steps-IsDrained (e ∷ es) f v = steps-IsDrained es (step f e) (step-IsDrained f e v)

mark_self : (p : ℕ → Bool) (i : ℕ) → mark p i i ≡ true
mark_self p i = ground arith

stored_first :
    (f : Flows) (k : ℕ) (o : Option ℕ)
    → f.pool.strms k ≡ o
    → (s : ℕ) × ((steps f (events_of f k o written true)).pool.strms k ≡ some s)
unfolding steps step open_strm stores_new first_write next_write keep
stored_first f k (some s) e = (s, e)
stored_first f k none e = (
  f.pool.opened,
  rw (mark_self f.pool.pending f.pool.opened, e, mark_self f.starting f.pool.opened) (ground arith),
)

-- In every schedule of goroutines that open, give up, store, write to and read streams: where no
-- stream has two readers, or a reader before it is stored, and each stream of the pool has a
-- reader or one about to start, that stays so. After any such schedule, if a datagram is then
-- handled to its end without another goroutine coming between, and UDP and the write succeed, the
-- pair's stream is in the pool, and its reader runs or is about to start.
pub handle_udp_packet-IsDrained :
    (es : List Event) (f : Flows) (n k : ℕ)
    → IsDrained f
    → let g = handle_udp_packet (steps f es) (some (suc n)) k written true in
      IsDrained (steps f es)
      × IsDrained g
      × ((s : ℕ) × (g.pool.strms k ≡ some s) × ((g.starting s || g.reading s) ≡ true))
unfolding handle_udp_packet
handle_udp_packet-IsDrained es f n k v =
    let g = steps f es in
    let d = steps-IsDrained es f v in
    let d' = steps-IsDrained (events_of g k (g.pool.strms k) written true) g d in
    let (s, e) = stored_first g k (g.pool.strms k) refl in (d, d', (s, e, d'.drained k s e))
