-- ===== src/Command/Kinds.antt =====
-- Which forwarder a protocol names (internal/forward/forward.go).
use paqet.Prelude.{
  ◌==◌, ==_iff, ◌≢◌, ◌≡◌, refl, sym, ap, ◌∙◌, true, false, List, [], ◌∷◌, map, inl, inr, Bool-cases,
  arith,
}
use mathlib.Core.Path.{ap₂}
use paqet.Prelude.Text.{Text, codes, str_eq}
use paqet.Conf.{Forward}
use paqet.Command.{Forwarder, tcp, udp, unsupported, forward_start}

-- What is started for a protocol.
abbrev pub IsFor : Text → Forwarder → Type 0
IsFor p tcp = p ≡ codes "tcp"
IsFor p udp = p ≡ codes "udp"
IsFor p unsupported = (p ≢ codes "tcp") × (p ≢ codes "udp")

-- One for each forward, in order.
abbrev pub AreFor : List Forward → List Forwarder → Type 0
AreFor [] [] = Unit {0}
AreFor (f ∷ fs) (x ∷ xs) = IsFor f.protocol x × AreFor fs xs
AreFor _ _ = ⊥

pub str_eq_text : (s t : Text) → str_eq s t ≡ true → s ≡ t
str_eq_text [] [] h = refl
str_eq_text [] (y ∷ t) h = cc
str_eq_text (x ∷ s) [] h = cc
str_eq_text (x ∷ s) (y ∷ t) h =
    let same : (x == y) ≡ true = ground (arith, h) in
    let rest : str_eq s t ≡ true = ground (arith, h) in
    ap₂ (λ a b. a ∷ b) ((==_iff x y).0 same) (str_eq_text s t rest)

str_eq_self : (s : Text) → str_eq s s ≡ true
str_eq_self [] = refl
str_eq_self (x ∷ s) = rw ((==_iff x x).1 refl, str_eq_self s) refl

differs : (s t : Text) → str_eq s t ≡ false → s ≢ t
differs s t h e = let clash : true ≡ false = sym (str_eq_self s) ∙ ap (str_eq s) e ∙ h in cc

forward_start-IsFor : (p : Text) → IsFor p (forward_start p)
unfolding forward_start
forward_start-IsFor p = elim (Bool-cases (str_eq p (codes "tcp"))) [
  | inl b ↦ rw b (str_eq_text p (codes "tcp") b)
  | inr b ↦ elim (Bool-cases (str_eq p (codes "udp"))) [
    | inl d ↦ rw (b, d) (str_eq_text p (codes "udp") d)
    | inr d ↦ rw (b, d) (differs p (codes "tcp") b, differs p (codes "udp") d)
  ]
]

pub forwards-AreFor :
    (fs : List Forward) → AreFor fs (map (λ (f : Forward). forward_start f.protocol) fs)
forwards-AreFor [] = tt
forwards-AreFor (f ∷ fs) = (forward_start-IsFor f.protocol, forwards-AreFor fs)
