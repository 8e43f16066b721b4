-- ===== src/Client/Startup.antt =====
-- newTimedConn: the startup probe finds the first combination that works.
use paqet.Prelude.{
  ℕ, suc, ◌+◌, ◌%◌, ◌<◌, ◌≡◌, refl, ap, ◌∙◌, sym, Bool, true, false, not, ◌&&◌, List, [], ◌∷◌,
  Option, none, some, ◌==◌, if◌then◌else◌, inl, inr, Bool-cases, arith, ltb, length, get_elem?,
}
use mathlib.Core.Path.{subst}
use native.Mathlib.Nat.{mod-eq_of_lt, mod-add-mod, zero-mod}
use paqet.Prelude.Int.{pos}
use paqet.Cycler.{FlagCycler, FlagPair, active_strings, force_next, set_idx, len}
use paqet.Client.{
  Dial, unreachable, handshake_fails, connects, Probe, TimedConn, dial_kcp_only, Round, found, next,
  probe_round, World, probe_loop, Start, working, unverified, failed, last_resort, unconnected,
  new_timed_conn, mark, finish, after_rounds,
}

-- A combination works if its dial connects and its ping is answered.
abbrev pub passes : Probe → Bool
passes p = elim p.dial [ connects ↦ p.verified | _ ↦ false ]

-- The first of the combinations that works when it is tried in its turn, from turn i on.
unfoldable pub first_pass : World → ℕ → List FlagPair → Option ℕ
first_pass w i [] = none
first_pass w i (c ∷ cs) = if passes (w i c) then some i else first_pass w (suc i) cs

-- All connections made are closed.
abbrev pub IsTidy : TimedConn → Type 0
IsTidy t = (i : ℕ) → t.closed i ≡ ltb i t.made

-- Of the connections made, c alone is open.
abbrev pub IsOnlyOpen : ℕ → TimedConn → Type 0
IsOnlyOpen c t = (c < t.made) × ((i : ℕ) → t.closed i ≡ (ltb i t.made && not (i == c)))

mark_next :
    (p : ℕ → Bool) (n : ℕ) → ((i : ℕ) → p i ≡ ltb i n) → (i : ℕ) → mark p n i ≡ ltb i (n + 1)
mark_next p n h i = ground (arith, h i)

pass_last :
    (p : ℕ → Bool) (n : ℕ)
    → ((i : ℕ) → p i ≡ ltb i n)
    → (i : ℕ) → p i ≡ (ltb i (n + 1) && not (i == n))
pass_last p n h i = ground (arith, h i)

round_fails :
    (t : TimedConn) (d : Dial) (b : Bool)
    → IsTidy t
    → passes (record { dial = d; verified = b }) ≡ false
    → (t' : TimedConn) × (probe_round t (record { dial = d; verified = b }) ≡ next t')
      × IsTidy t'
      × (t'.cycler ≡ force_next t.cycler)
unfolding probe_round
round_fails t unreachable b h e = (record t { cycler = force_next t.cycler }, refl, h, refl)
round_fails t handshake_fails b h e = (_, refl, mark_next t.closed t.made h, refl)
round_fails t connects false h e = (_, refl, mark_next t.closed t.made h, refl)
round_fails t connects true h e = cc

round_passes :
    (t : TimedConn) (d : Dial) (b : Bool)
    → IsTidy t
    → passes (record { dial = d; verified = b }) ≡ true
    → (t' : TimedConn) × (probe_round t (record { dial = d; verified = b }) ≡ found t')
      × (c : ℕ) × (t'.conn ≡ some c)
      × IsOnlyOpen c t'
      × (t'.cycler ≡ t.cycler)
unfolding probe_round
round_passes t unreachable b h e = cc
round_passes t handshake_fails b h e = cc
round_passes t connects false h e = cc
round_passes t connects true h e = (
  record t { made = t.made + 1; conn = some t.made },
  refl,
  t.made,
  refl,
  (omega arith, pass_last t.closed t.made h),
  refl,
)

-- The cycler at combination i, with no failure counted.
abbrev pub at : FlagCycler → ℕ → FlagCycler
at fc i = record fc { idx = i; failures = 0 }

-- What the rounds come to, from combination i on, where the combinations left are cs.
abbrev Found : FlagCycler → ℕ → Option Round → Type 0
Found fc j r =
    (t : TimedConn) × (r ≡ some (found t))
    × (t.cycler ≡ at fc j)
    × (c : ℕ) × (t.conn ≡ some c)
    × IsOnlyOpen c t

abbrev Exhausted : FlagCycler → ℕ → Option Round → Type 0
Exhausted fc j r = (t : TimedConn) × (r ≡ some (next t)) × (t.cycler ≡ at fc j) × IsTidy t

abbrev Outcome : FlagCycler → Option ℕ → Option Round → Type 0
Outcome fc (some j) r = Found fc j r
Outcome fc none r = Exhausted fc (len fc % len fc) r

loop_step_fail :
    (n i : ℕ) (w : World) (t t' : TimedConn) (c : FlagPair)
    → active_strings t.cycler ≡ some c
    → probe_round t (w i c) ≡ next t'
    → probe_loop (suc n) i w t ≡ probe_loop n (suc i) w t'
unfolding probe_loop
loop_step_fail n i w t t' c e r = rw (e, probe_loop) (rw (r, probe_loop) refl)

loop_step_pass :
    (n i : ℕ) (w : World) (t t' : TimedConn) (c : FlagPair)
    → active_strings t.cycler ≡ some c
    → probe_round t (w i c) ≡ found t'
    → probe_loop (suc n) i w t ≡ some (found t')
unfolding probe_loop
loop_step_pass n i w t t' c e r = rw (e, probe_loop) (rw (r, probe_loop) refl)

next_at :
    (fc : FlagCycler) (i : ℕ)
    → i < len fc
    → force_next (at fc (i % len fc)) ≡ at fc (suc i % len fc)
unfolding force_next
next_at fc i h = ap (at fc) (mod-add-mod i (len fc) 1 ∙ ap (λ (t : ℕ). t % len fc) (omega arith))

active_at :
    (fc : FlagCycler) (i : ℕ) (c : FlagPair) (t : TimedConn)
    → i < len fc
    → get_elem? fc.combos i ≡ some c
    → t.cycler ≡ at fc (i % len fc)
    → active_strings t.cycler ≡ some c
unfolding active_strings
active_at fc i c t h e s = ap active_strings s ∙ (ap (get_elem? fc.combos) (mod-eq_of_lt h) ∙ e)

hit :
    (fc : FlagCycler) (i : ℕ) (o : Option ℕ) (r : Option Round) (b : Bool)
    → b ≡ true
    → Found fc i r
    → Outcome fc (if b then some i else o) r
hit fc i o r true e f = f
hit fc i o r false e f = cc

miss :
    (fc : FlagCycler) (i : ℕ) (o : Option ℕ) (r : Option Round) (b : Bool)
    → b ≡ false
    → Outcome fc o r
    → Outcome fc (if b then some i else o) r
miss fc i o r false e f = f
miss fc i o r true e f = cc

loop_lem :
    (cs : List FlagPair) (fc : FlagCycler) (i : ℕ) (w : World) (t : TimedConn)
    → ((j : ℕ) → get_elem? fc.combos (i + j) ≡ get_elem? cs j)
    → i + length cs ≡ len fc
    → t.cycler ≡ at fc (i % len fc)
    → IsTidy t
    → Outcome fc (first_pass w i cs) (probe_loop (length cs) i w t)
unfolding first_pass
loop_lem [] fc i w t at_cs total s h =
    unfold probe_loop in (t, refl, s ∙ ap (λ (n : ℕ). at fc (n % len fc)) (omega arith), h)
loop_lem (c ∷ cs) fc i w t at_cs total s h =
    let below : i < len fc = omega arith in
    let here : get_elem? fc.combos i ≡ some c = ap (get_elem? fc.combos) (omega arith) ∙ at_cs 0 in
    let active = active_at fc i c t below here s in
    elim (Bool-cases (passes (w i c))) [
      | inl e ↦
          let (t', r, k, cn, only, cy) = round_passes t (w i c).dial (w i c).verified h e in
          let idx : i % len fc ≡ i = mod-eq_of_lt below in
          hit fc i _ _ (passes (w i c)) e (
            t',
            loop_step_pass (length cs) i w t t' c active r,
            cy ∙ s ∙ ap (at fc) idx,
            k,
            cn,
            only,
          )
      | inr e ↦
          let (t', r, tidy, cy) = round_fails t (w i c).dial (w i c).verified h e in
          miss fc i (first_pass w (suc i) cs) _ (passes (w i c)) e (
            subst (Outcome fc (first_pass w (suc i) cs))
              (sym (loop_step_fail (length cs) i w t t' c active r))
              (loop_lem cs fc (suc i) w t'
                (λ j. ap (get_elem? fc.combos) (omega arith) ∙ at_cs (suc j)) (omega arith)
                (cy ∙ ap force_next s ∙ next_at fc i below) tidy))
    ]

-- What the last resort comes to on the first combination u: the ping is not asked for.
abbrev pub LastResort : FlagCycler → Dial → Option Start → Type 0
LastResort fc connects r =
    (t : TimedConn) × (r ≡ some (unverified t))
    × (t.cycler ≡ at fc 0)
    × (c : ℕ) × (t.conn ≡ some c)
    × IsOnlyOpen c t
LastResort fc _ r = (t : TimedConn) × (r ≡ some (failed t)) × (t.cycler ≡ at fc 0) × IsTidy t

reset : FlagCycler → FlagCycler
reset fc = set_idx fc (pos 0)

reset-at : (fc : FlagCycler) (i : ℕ) → 0 < len fc → reset (at fc i) ≡ at fc 0
unfolding reset set_idx
reset-at fc i h = ground arith

finish_cases :
    (fc : FlagCycler) (d : Dial) (t : TimedConn)
    → IsTidy t
    → t.cycler ≡ at fc 0
    → LastResort fc d (finish (dial_kcp_only t d))
unfolding finish dial_kcp_only
finish_cases fc unreachable t h s = (t, refl, s, h)
finish_cases fc handshake_fails t h s = (_, refl, s, mark_next t.closed t.made h)
finish_cases fc connects t h s =
    (_, refl, s, t.made, refl, (omega arith, pass_last t.closed t.made h))

last_resort_step :
    (w : World) (t : TimedConn) (u : FlagPair)
    → active_strings (reset t.cycler) ≡ some u
    → last_resort w t
      ≡ finish (dial_kcp_only (record t { cycler = reset t.cycler }) (w (len t.cycler) u).dial)
unfolding last_resort reset
last_resort_step w t u e = rw (e, last_resort) refl

last_resort_lem :
    (fc : FlagCycler) (i : ℕ) (u : FlagPair) (w : World) (t : TimedConn)
    → 0 < len fc
    → get_elem? fc.combos 0 ≡ some u
    → t.cycler ≡ at fc i
    → IsTidy t
    → LastResort fc (w (len fc) u).dial (last_resort w t)
unfolding active_strings
last_resort_lem fc i u w t b e s h =
    let cycler = ap reset s ∙ reset-at fc i b in
    let same =
      last_resort_step w t u (ap active_strings cycler ∙ e)
      ∙ ap (λ (n : ℕ). finish (dial_kcp_only (record t { cycler = reset t.cycler }) (w n u).dial))
          (ap len s) in
    subst (LastResort fc (w (len fc) u).dial) (sym same)
      (finish_cases fc (w (len fc) u).dial (record t { cycler = reset t.cycler }) h cycler)

-- How newTimedConn ends when the first combination that works is the j-th, and when there is none.
abbrev pub Startup : FlagCycler → FlagPair → World → Option ℕ → Option Start → Type 0
Startup fc u w (some j) r =
    (t : TimedConn) × (r ≡ some (working t))
    × (t.cycler ≡ at fc j)
    × (c : ℕ) × (t.conn ≡ some c)
    × IsOnlyOpen c t
Startup fc u w none r = LastResort fc (w (len fc) u).dial r

start_cases :
    (fc : FlagCycler) (u : FlagPair) (w : World) (o : Option ℕ) (r : Option Round)
    → 0 < len fc
    → get_elem? fc.combos 0 ≡ some u
    → Outcome fc o r
    → Startup fc u w o (after_rounds w r)
unfolding after_rounds
start_cases fc u w (some j) r b e (t, is, s, c, k, only) =
    subst (λ (x : Option Round). Startup fc u w (some j) (after_rounds w x)) (sym is)
      (t, refl, s, c, k, only)
start_cases fc u w none r b e (t, is, s, h) =
    subst (λ (x : Option Round). Startup fc u w none (after_rounds w x)) (sym is)
      (last_resort_lem fc (len fc % len fc) u w t b e s h)

nonempty : (cs : List FlagPair) (u : FlagPair) → get_elem? cs 0 ≡ some u → 0 < length cs
nonempty [] u e = cc
nonempty (c ∷ cs) u e = omega arith

-- newTimedConn, begun on a cycler at its first combination u with no failure counted, never panics.
-- If a combination works in its turn, it ends with the connection of the first that does, verified,
-- and with that combination active. Else it resets to u and dials once more, without a ping: it
-- ends with that connection, or with an error if the dial or the handshake fails. Each connection
-- made, other than the one kept, is closed.
pub new_timed_conn_lem :
    (fc : FlagCycler) (u : FlagPair) (w : World)
    → fc.idx ≡ 0
    → fc.failures ≡ 0
    → get_elem? fc.combos 0 ≡ some u
    → Startup fc u w (first_pass w 0 fc.combos) (new_timed_conn fc w)
unfolding new_timed_conn
new_timed_conn_lem fc u w z y e =
    let start : fc ≡ at fc 0 = λ i. record fc { idx = z i; failures = y i } in
    start_cases fc u w (first_pass w 0 fc.combos) (probe_loop (len fc) 0 w (unconnected fc))
      (nonempty fc.combos u e) e
      (loop_lem fc.combos fc 0 w (unconnected fc) (λ j. ap (get_elem? fc.combos) (omega arith))
        (omega arith) (start ∙ ap (at fc) (sym (zero-mod (len fc)))) (λ i. ground arith))
