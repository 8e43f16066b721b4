-- ===== src/Autoconf/Routes.antt =====
-- The default route in the routing table of Linux (internal/autoconf/detect_linux.go).
use paqet.Prelude.{
  ℕ, zero, suc, ◌≤◌, ◌≡◌, refl, sym, ap, ◌∙◌, Bool, true, false, ◌&&◌, List, [], ◌∷◌, Option, none,
  some, inl, inr, Bool-cases, Option-cases, ◌==◌, if◌then◌else◌, ltb, length, get_elem?, arith,
}
use paqet.Prelude.Text.{Text, codes, str_eq}
use paqet.Prelude.Maybe.{>>=-eq-some, some_equal}
use paqet.Autoconf.{System, first_some, reversed, route_line}

-- An element of a list.
abbrev pub Has {ℓ} : {A : Type ℓ} → List A → A → Type ℓ
Has xs x = (i : ℕ) × (get_elem? xs i ≡ some x)

pub first_some-Has {ℓ} :
    {A B : Type ℓ} (f : A → Option B) (xs : List A) (y : B)
    → first_some f xs ≡ some y
    → (x : A) × Has xs x × (f x ≡ some y)
first_some-Has f [] y = λ e. cc
first_some-Has f (x ∷ xs) y = elim (Option-cases (f x)) [
  | inr (z, h) ↦ rw (h, first_some) (λ e. (x, (zero, refl), h ∙ e))
  | inl h ↦
      rw (h, first_some)
        (λ e. let (x', (i, at), q) = first_some-Has f xs y e in (x', (suc i, at), q))
]

pub first_some-none :
    {A B : Type 0} (f : A → Option B) (xs : List A) (i : ℕ) (x : A)
    → first_some f xs ≡ none
    → get_elem? xs i ≡ some x
    → f x ≡ none
first_some-none f [] i x = λ e h. cc
first_some-none f (y ∷ xs) zero x = elim (Option-cases (f y)) [
  | inr (z, q) ↦ rw (q, first_some) (λ e. cc)
  | inl q ↦ rw (q, first_some) (λ e h. ap f (sym (some_equal h)) ∙ q)
]
first_some-none f (y ∷ xs) (suc i) x = elim (Option-cases (f y)) [
  | inr (z, q) ↦ rw (q, first_some) (λ e. cc)
  | inl q ↦ rw (q, first_some) (λ e h. first_some-none f xs i x e h)
]

pub if_inv {ℓ} :
    {B : Type ℓ} (b : Bool) (x : Option B) {y : B}
    → (if b then x else none) ≡ some y
    → (b ≡ true) × (x ≡ some y)
if_inv true x e = (refl, e)
if_inv false x e = cc

pub else_inv {ℓ} :
    {B : Type ℓ} (b : Bool) (x : Option B) {y : B}
    → (if b then none else x) ≡ some y
    → (b ≡ false) × (x ≡ some y)
else_inv false x e = (refl, e)
else_inv true x e = cc

-- The columns of a default route: its gateway is in the third, as the hexadecimal digits of four
-- bytes, the last of which comes first; it is not 0.0.0.0.
pub record IsDefaultRoute (s : System) (line : Text) (gw : List ℕ) : Type 0 where
  pub dest : Text
  pub raw : Text
  pub columns : 4 ≤ length (s.fields line)
  pub at_1 : get_elem? (s.fields line) 1 ≡ some dest
  pub default : str_eq dest (codes "00000000") ≡ true
  pub at_2 : get_elem? (s.fields line) 2 ≡ some raw
  pub in_reverse :
      (a b c d : ℕ) × (s.decode_string raw ≡ some (d ∷ c ∷ b ∷ a ∷ []))
      × (gw ≡ a ∷ b ∷ c ∷ d ∷ [])
      × ¬ ((a ≡ 0) × (b ≡ 0) × (c ≡ 0) × (d ≡ 0))

reversed_inv :
    (bytes gw : List ℕ)
    → reversed bytes ≡ some gw
    → (a b c d : ℕ) × (bytes ≡ d ∷ c ∷ b ∷ a ∷ [])
      × (gw ≡ a ∷ b ∷ c ∷ d ∷ [])
      × ¬ ((a ≡ 0) × (b ≡ 0) × (c ≡ 0) × (d ≡ 0))
reversed_inv (d ∷ c ∷ b ∷ a ∷ []) gw e =
    let (n, q) = else_inv (d == 0 && (c == 0 && (b == 0 && a == 0))) _ e in
    (a, b, c, d, refl, sym (some_equal q), ground (arith, n))
reversed_inv [] gw e = cc
reversed_inv (d ∷ []) gw e = cc
reversed_inv (d ∷ c ∷ []) gw e = cc
reversed_inv (d ∷ c ∷ b ∷ []) gw e = cc
reversed_inv (d ∷ c ∷ b ∷ a ∷ x ∷ bytes) gw e = cc

reversed_of :
    (a b c d : ℕ)
    → ¬ ((a ≡ 0) × (b ≡ 0) × (c ≡ 0) × (d ≡ 0))
    → reversed (d ∷ c ∷ b ∷ a ∷ []) ≡ some (a ∷ b ∷ c ∷ d ∷ [])
reversed_of a b c d h = elim (Bool-cases (d == 0 && (c == 0 && (b == 0 && a == 0)))) [
  | inl e ↦ absurd (h (ground (arith, e)))
  | inr e ↦ rw e refl
]

pub route_line-IsDefaultRoute :
    (s : System) (line : Text) (gw : List ℕ)
    → route_line s line ≡ some gw
    → IsDefaultRoute s line gw
unfolding route_line
route_line-IsDefaultRoute s line gw e =
    let (wide, e₁) = else_inv (ltb (length (s.fields line)) 4) _ e in
    let (dest, at_1, e₂) = >>=-eq-some (get_elem? (s.fields line) 1) _ e₁ in
    let (d, e₃) = if_inv (str_eq dest (codes "00000000")) _ e₂ in
    let (raw, at_2, e₄) = >>=-eq-some (get_elem? (s.fields line) 2) _ e₃ in
    let (bytes, dec, e₅) = >>=-eq-some (s.decode_string raw) _ e₄ in
    let (x, y, z, t, is, rev, nonzero) = reversed_inv bytes gw e₅ in
    record {
      dest = dest;
      raw = raw;
      columns = ground (arith, wide);
      at_1 = at_1;
      default = d;
      at_2 = at_2;
      in_reverse = (x, y, z, t, dec ∙ ap some is, rev, nonzero);
    }

-- A default route is one that the line gives.
pub IsDefaultRoute-line :
    (s : System) (line : Text) (gw : List ℕ)
    → IsDefaultRoute s line gw
    → route_line s line ≡ some gw
unfolding route_line
IsDefaultRoute-line s line gw r =
    let (a, b, c, d, dec, is, nonzero) = r.in_reverse in
    let narrow : ltb (length (s.fields line)) 4 ≡ false = ground (arith, r.columns) in
    rw (narrow, r.at_1, r.default, r.at_2, dec) (reversed_of a b c d nonzero ∙ ap some (sym is))
