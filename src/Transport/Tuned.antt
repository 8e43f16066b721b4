-- ===== src/Transport/Tuned.antt =====
-- A configuration that validates (internal/conf/kcp.go) sets every parameter of its KCP session
-- (internal/tnet/kcp/kcp.go).
use paqet.Prelude.{
  ℕ, ◌≤◌, ◌≡◌, refl, Bool, true, false, ◌||◌, [], ◌⊎◌, inl, inr, if◌then◌else◌, arith,
}
use paqet.Prelude.Text.{codes, str_eq}
use paqet.Conf.{Env}
use paqet.Conf.Kcp.{Kcp, kcp_validate}
use paqet.Conf.Sound.{IsWithin, kcp_validate-IsSoundKcp}
use paqet.Transport.{Tuning, fixed, manual, unset, tuning_of, apl_conf}

-- One of the fixed rows of the switch, with an interval between 10 and 40 milliseconds.
abbrev pub IsFixed : Tuning → Type 0
IsFixed t =
    (n interval : ℕ) × (slow : Bool) × (t ≡ fixed n interval slow)
    × (10 ≤ interval)
    × (interval ≤ 40)
    × (n ≤ 1)

switch :
    (m t0 : Tuning) (a b c d e f g : Bool)
    → (a || (b || (c || (d || (e || (f || (g || false))))))) ≡ true
    → let t =
        if a
        then fixed 0 40 true
        else if b
        then fixed 0 30 true
        else if c
        then fixed 1 20 false
        else if d || e
        then fixed 1 10 false
        else if f
        then fixed 1 10 false
        else if g
        then m
        else t0 in
      IsFixed t ⊎ ((g ≡ true) × (t ≡ m))
switch m t0 true b c d e f g h = inl (_, _, _, refl, omega arith, omega arith, omega arith)
switch m t0 false true c d e f g h = inl (_, _, _, refl, omega arith, omega arith, omega arith)
switch m t0 false false true d e f g h = inl (_, _, _, refl, omega arith, omega arith, omega arith)
switch m t0 false false false true e f g h =
    inl (_, _, _, refl, omega arith, omega arith, omega arith)
switch m t0 false false false false true f g h =
    inl (_, _, _, refl, omega arith, omega arith, omega arith)
switch m t0 false false false false false true g h =
    inl (_, _, _, refl, omega arith, omega arith, omega arith)
switch m t0 false false false false false false true h = inr (refl, refl)
switch m t0 false false false false false false false h = cc

-- If a KCP section validates, aplConf gives its session an MTU between 50 and 1500, windows
-- between 1 and 32768, and the parameters of a mode, with an interval between 10 and 40
-- milliseconds, or, in the mode manual, those of the section.
pub apl_conf-IsTuned :
    (env : Env) (k : Kcp)
    → (kcp_validate env k).errors ≡ []
    → let k' = (kcp_validate env k).value in
      let s = apl_conf k' in
      IsWithin 50 1500 s.mtu
      × IsWithin 1 32768 s.sndwnd
      × IsWithin 1 32768 s.rcvwnd
      × (IsFixed s.tuning ⊎ ((str_eq (codes "manual") k'.mode ≡ true) × (s.tuning ≡ manual k')))
unfolding apl_conf tuning_of
apl_conf-IsTuned env k h =
    let v = kcp_validate-IsSoundKcp env k h in
    let k' = (kcp_validate env k).value in
    let m = k'.mode in
    let is_tuned : IsFixed (tuning_of k')
        ⊎ ((str_eq (codes "manual") m ≡ true) × (tuning_of k' ≡ manual k')) =
      switch (manual k') unset (str_eq (codes "normal") m) (str_eq (codes "fast") m)
        (str_eq (codes "fast2") m) (str_eq (codes "fast3") m) (str_eq (codes "auto") m)
        (str_eq (codes "turbo") m) (str_eq (codes "manual") m) v.mode in
    (v.mtu, v.sndwnd, v.rcvwnd, is_tuned)
