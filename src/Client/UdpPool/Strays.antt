-- ===== src/Client/UdpPool/Strays.antt =====
-- No stream is lost, and no stream of the pool is closed.
use paqet.Prelude.Update.{put, put_other, put_self}
use paqet.Prelude.{
  ℕ, ◌<◌, ◌≡◌, refl, ap, ◌∙◌, sym, Bool, true, false, List, [], ◌∷◌, Option, none, some, ◌==◌, ◌⊎◌,
  ◌≢◌, inl, inr, Bool-cases, Option-cases, arith,
}
use mathlib.Core.Path.{subst, fun_ext}
use paqet.Prelude.Maybe.{some_equal}
use paqet.Client.{mark}
use paqet.Client.UdpPool.{
  Pool, open_strm, discard, keep, store, stored, delete, Act, opens, gives_up, stores, deletes, act,
  acts, written, strm, udp,
}

-- A stream that was opened is closed, pending or in the pool; a stream of the pool is none of the
-- first two and has one key.
pub record HasNoStray (p : Pool) : Type 0 where
  pub held :
      (i : ℕ)
      → i < p.opened
      → p.closed i ≡ false
      → p.pending i ≡ false
      → (k : ℕ) × (p.strms k ≡ some i)
  pub pooled_open : (k i : ℕ) → p.strms k ≡ some i → p.closed i ≡ false
  pub pooled_done : (k i : ℕ) → p.strms k ≡ some i → p.pending i ≡ false
  pub pooled_old : (k i : ℕ) → p.strms k ≡ some i → i < p.opened
  pub one_key : (j k i : ℕ) → p.strms j ≡ some i → p.strms k ≡ some i → j ≡ k
  pub pending_old : (i : ℕ) → p.pending i ≡ true → i < p.opened
  pub pending_open : (i : ℕ) → p.pending i ≡ true → p.closed i ≡ false
  pub closed_old : (i : ℕ) → p.closed i ≡ true → i < p.opened

pub open_strm-HasNoStray : (p : Pool) → HasNoStray p → HasNoStray (open_strm p)
unfolding open_strm
open_strm-HasNoStray p v = record {
  held = λ i h c d. v.held i (ground (arith, h, d)) c (ground (arith, h, d));
  pooled_open = v.pooled_open;
  pooled_done = λ k i e. ground (arith, v.pooled_done k i e, v.pooled_old k i e);
  pooled_old = λ k i e. omega (arith, v.pooled_old k i e);
  one_key = v.one_key;
  pending_old = λ i e. ground (arith, v.pending_old i);
  pending_open = λ i e. ground (arith, v.pending_open i, v.closed_old i);
  closed_old = λ i e. omega (arith, v.closed_old i e);
}

pub discard-HasNoStray :
    (p : Pool) (i : ℕ) → p.pending i ≡ true → HasNoStray p → HasNoStray (discard p i)
unfolding discard
discard-HasNoStray p i q v = record {
  held = λ j h c d. v.held j h (ground (arith, c)) (ground (arith, c, d));
  pooled_open = λ k j e. ground (arith, v.pooled_open k j e, v.pooled_done k j e, q);
  pooled_done = λ k j e. ground (arith, v.pooled_done k j e);
  pooled_old = v.pooled_old;
  one_key = v.one_key;
  pending_old = λ j e. ground (arith, v.pending_old j);
  pending_open = λ j e. ground (arith, v.pending_open j);
  closed_old = λ j e. ground (arith, v.closed_old j, v.pending_old i q);
}

pub put_inv :
    (m : ℕ → Option ℕ) (k : ℕ) (o : Option ℕ) (j x : ℕ)
    → put m k o j ≡ some x
    → ((j ≡ k) × (o ≡ some x)) ⊎ ((j ≢ k) × (m j ≡ some x))
put_inv m k o j x = elim (Bool-cases (j == k)) [
  | inl b ↦ rw b (λ e. inl (ground (arith, b), e))
  | inr b ↦ rw b (λ e. inr ((λ q. ground (arith, b, q)), e))
]

pending_not_pooled :
    (p : Pool) (v : HasNoStray p) {i : ℕ} → p.pending i ≡ true → (k : ℕ) → p.strms k ≡ some i → ⊥
pending_not_pooled p v {i} q k e = cc (v.pooled_done k i e)

pub keep-HasNoStray :
    (p : Pool) (k i : ℕ)
    → p.pending i ≡ true
    → p.strms k ≡ none
    → HasNoStray p
    → HasNoStray (keep p k i)
unfolding keep
keep-HasNoStray p k i q n v = record {
  held = λ j h c d. elim (Bool-cases (j == i)) [
    | inl b ↦ (k, put_self p.strms k (some i) ∙ ap some (ground (arith, b)))
    | inr b ↦
        let (k', e) = v.held j h c (ground (arith, b, d)) in
        (k', put_other p.strms k (some i) k' (λ x. cc) ∙ e)
  ];
  pooled_open = λ j x e. elim (put_inv p.strms k (some i) j x e) [
    | inl (_, s) ↦ subst (λ x. p.closed x ≡ false) (some_equal s) (v.pending_open i q)
    | inr (_, s) ↦ v.pooled_open j x s
  ];
  pooled_done = λ j x e. elim (put_inv p.strms k (some i) j x e) [
    | inl (_, s) ↦ ground (arith, some_equal s)
    | inr (_, s) ↦ ground (arith, v.pooled_done j x s)
  ];
  pooled_old = λ j x e. elim (put_inv p.strms k (some i) j x e) [
    | inl (_, s) ↦ subst (λ x. x < p.opened) (some_equal s) (v.pending_old i q)
    | inr (_, s) ↦ v.pooled_old j x s
  ];
  one_key = λ j l x e f. elim (put_inv p.strms k (some i) j x e) [
    | inl (a, s) ↦ elim (put_inv p.strms k (some i) l x f) [
      | inl (b, _) ↦ a ∙ sym b
      | inr (_, t) ↦ absurd (pending_not_pooled p v q l (t ∙ sym s))
    ]
    | inr (_, s) ↦ elim (put_inv p.strms k (some i) l x f) [
      | inl (_, t) ↦ absurd (pending_not_pooled p v q j (s ∙ sym t))
      | inr (_, t) ↦ v.one_key j l x s t
    ]
  ];
  pending_old = λ j e. ground (arith, v.pending_old j);
  pending_open = λ j e. ground (arith, v.pending_open j);
  closed_old = v.closed_old;
}

not_marked : (c : ℕ → Bool) (s x : ℕ) → mark c s x ≡ false → x ≢ s
not_marked c s x h = ground (arith, h)

mark_other : (c : ℕ → Bool) (s x : ℕ) → x ≢ s → mark c s x ≡ c x
mark_other c s x h = ground (arith, h)

put_same : (m : ℕ → Option ℕ) (k : ℕ) → m k ≡ none → (j : ℕ) → put m k none j ≡ m j
put_same m k n j = elim (Bool-cases (j == k)) [
  | inl b ↦ rw b (sym (ap m (ground (arith, b)) ∙ n))
  | inr b ↦ rw b refl
]

-- The pool without its stream of one key, which is closed.
removed-HasNoStray :
    (p : Pool) (k s : ℕ)
    → p.strms k ≡ some s
    → HasNoStray p
    → HasNoStray (record p { strms = put p.strms k none; closed = mark p.closed s })
removed-HasNoStray p k s q v = record {
  held = λ j h c d.
      let (k', e) = v.held j h (ground (arith, c)) d in
      (
        k',
        put_other p.strms k none k'
              (λ x. not_marked p.closed s j c (some_equal (sym e ∙ ap p.strms x ∙ q)))
            ∙ e,
      );
  pooled_open = λ j x e. elim (put_inv p.strms k none j x e) [
    | inl (_, t) ↦ cc
    | inr (n, t) ↦
        mark_other p.closed s x (λ z. n (v.one_key j k x t (q ∙ ap some (sym z))))
        ∙ v.pooled_open j x t
  ];
  pooled_done = λ j x e. elim (put_inv p.strms k none j x e) [
    | inl (_, t) ↦ cc
    | inr (_, t) ↦ v.pooled_done j x t
  ];
  pooled_old = λ j x e. elim (put_inv p.strms k none j x e) [
    | inl (_, t) ↦ cc
    | inr (_, t) ↦ v.pooled_old j x t
  ];
  one_key = λ j l x e f. elim (put_inv p.strms k none j x e) [
    | inl (_, t) ↦ cc
    | inr (_, t) ↦ elim (put_inv p.strms k none l x f) [
      | inl (_, u) ↦ cc
      | inr (_, u) ↦ v.one_key j l x t u
    ]
  ];
  pending_old = v.pending_old;
  pending_open = λ j e. ground (arith, v.pending_open j, v.pooled_done k s q);
  closed_old = λ j e. ground (arith, v.closed_old j, v.pooled_old k s q);
}

delete_none :
    (p : Pool) (k : ℕ)
    → p.strms k ≡ none
    → HasNoStray p
    → HasNoStray (record p { strms = put p.strms k none })
delete_none p k n v =
    subst (λ m. HasNoStray (record p { strms = m })) (fun_ext (λ j. sym (put_same p.strms k n j))) v

pub delete-HasNoStray : (p : Pool) (k : ℕ) → HasNoStray p → HasNoStray (delete p k)
unfolding delete
delete-HasNoStray p k v = elim (Option-cases (p.strms k)) [
  | inl n ↦ rw (delete, n) (delete_none p k n v)
  | inr (s, e) ↦ rw (delete, e) (removed-HasNoStray p k s e v)
]

store-HasNoStray :
    (p : Pool) (k i : ℕ) → p.pending i ≡ true → HasNoStray p → HasNoStray (store p k i)
unfolding store
store-HasNoStray p k i q v = elim (Option-cases (p.strms k)) [
  | inl n ↦ rw (store, n) (keep-HasNoStray p k i q n v)
  | inr (s, e) ↦ rw (store, e) (discard-HasNoStray p i q v)
]

act-HasNoStray : (p : Pool) (a : Act) → HasNoStray p → HasNoStray (act p a)
unfolding act
act-HasNoStray p opens v = open_strm-HasNoStray p v
act-HasNoStray p (deletes k) v = delete-HasNoStray p k v
act-HasNoStray p (gives_up i) v = elim (Bool-cases (p.pending i)) [
  | inl q ↦ rw q (discard-HasNoStray p i q v)
  | inr q ↦ rw q v
]
act-HasNoStray p (stores k i) v = elim (Bool-cases (p.pending i)) [
  | inl q ↦ rw q (store-HasNoStray p k i q v)
  | inr q ↦ rw q v
]

-- From a pool without strays, in every interleaving of streams opened, given up, stored and
-- deleted, a stream that was opened is closed, still to be stored, or in the pool, and a stream of
-- the pool is not closed and has one key.
pub acts-HasNoStray : (rest : List Act) (p : Pool) → HasNoStray p → HasNoStray (acts p rest)
unfolding acts
acts-HasNoStray [] p v = v
acts-HasNoStray (a ∷ rest) p v = acts-HasNoStray rest (act p a) (act-HasNoStray p a v)

stored_lem :
    (p : Pool) (k i : ℕ)
    → (s : ℕ) × (b : Bool) × (stored p k i ≡ (store p k i, strm s b k))
      × ((store p k i).strms k ≡ some s)
      × (b ≡ true → s ≡ i)
unfolding store keep discard
stored_lem p k i = elim (Option-cases (p.strms k)) [
  | inl n ↦ rw (store, n) (i, true, refl, put_self p.strms k (some i), λ _. refl)
  | inr (s, e) ↦ rw (store, e) (s, false, refl, e, λ h. cc)
]

udp_slow :
    (p : Pool) (k : ℕ) (between : List Act)
    → p.strms k ≡ none
    → udp p k written between ≡ stored (acts (open_strm p) between) k p.opened
unfolding udp
udp_slow p k between n = rw (udp, n) refl

udp_fast :
    (p : Pool) (k : ℕ) (between : List Act) (s : ℕ)
    → p.strms k ≡ some s
    → udp p k written between ≡ (p, strm s false k)
unfolding udp
udp_fast p k between s e = rw (udp, e) refl

-- Whatever other goroutines do while UDP works outside the lock: if it opens a stream and writes
-- the header, it returns the stream that the pool then holds for the key, and `new` only if that is
-- the stream that it opened itself; if a stream is there at once it returns that and changes
-- nothing.
pub udp_lem :
    (p : Pool) (k : ℕ) (between : List Act)
    → (s : ℕ) × (b : Bool) × ((udp p k written between).1 ≡ strm s b k)
      × ((udp p k written between).0.strms k ≡ some s)
      × (b ≡ true → (s ≡ p.opened) × (p.strms k ≡ none))
      × (p.strms k ≡ some s → (udp p k written between).0 ≡ p)
udp_lem p k between = elim (Option-cases (p.strms k)) [
  | inl n ↦
      let (s, b, e, h, f) = stored_lem (acts (open_strm p) between) k p.opened in
      let u = udp_slow p k between n ∙ e in
      (s, b, ap (λ r. r.1) u, ap (λ r. r.0.strms k) u ∙ h, (λ t. (f t, n)), λ x. cc)
  | inr (s, e) ↦
      let u = udp_fast p k between s e in
      (s, false, ap (λ r. r.1) u, ap (λ r. r.0.strms k) u ∙ e, (λ x. cc), λ _. ap (λ r. r.0) u)
]
