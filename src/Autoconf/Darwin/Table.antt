-- ===== src/Autoconf/Darwin/Table.antt =====
-- The lines that `arp -n` prints, as internal/autoconf/detect_darwin.go reads them.
use paqet.Prelude.{
  ℕ, zero, suc, ◌≡◌, ◌≢◌, refl, sym, ap, ◌∙◌, true, false, List, [], ◌∷◌, Option, none, some, inl,
  inr, Option-cases, Bool-cases,
}
use mathlib.Core.Path.{subst}
use paqet.Prelude.Text.{Text, codes, after}
use paqet.Prelude.Maybe.{some_equal}
use paqet.Autoconf.Routes.{Has}
use paqet.Autoconf.Tools.{Tools}
use paqet.Autoconf.Darwin.{is_incomplete, darwin_arp_lines}

-- An entry whose MAC is known.
pub record IsEntry (t : Tools) (line : Text) (mac : List ℕ) : Type 0 where
  pub part : Text
  pub mac_str : Text
  pub others : List Text
  pub at_part : after (codes " at ") line ≡ some part
  pub fields : t.system.fields part ≡ mac_str ∷ others
  pub complete : is_incomplete mac_str ≡ false
  pub parsed : t.system.parse_mac mac_str ≡ some mac

-- What a run over the lines came to: an entry, or none.
abbrev pub Found : Tools → List Text → Option (List ℕ) → Type 0
Found t lines none = (line : Text) (mac : List ℕ) → Has lines line → IsEntry t line mac → ⊥
Found t lines (some mac) = (line : Text) × Has lines line × IsEntry t line mac

Found-more :
    (t : Tools) (line : Text) (lines : List Text) (o : Option (List ℕ))
    → ((mac : List ℕ) → IsEntry t line mac → ⊥)
    → Found t lines o
    → Found t (line ∷ lines) o
Found-more t line lines (some mac) h (l, (i, at), e) = (l, (suc i, at), e)
Found-more t line lines none h f = skip
  where
    skip : (l : Text) (mac : List ℕ) → Has (line ∷ lines) l → IsEntry t l mac → ⊥
    skip l mac (zero, at) e = h mac (subst (λ x. IsEntry t x mac) (sym (some_equal at)) e)
    skip l mac (suc i, at) e = f l mac (i, at) e

-- A line that cannot be an entry because of what its fields are.
no_entry :
    {t : Tools} {line part : Text} {fs : List Text} {mac : List ℕ}
    → after (codes " at ") line ≡ some part
    → t.system.fields part ≡ fs
    → IsEntry t line mac
    → (m : Text) × (others : List Text) × (fs ≡ m ∷ others)
      × (is_incomplete m ≡ false)
      × (t.system.parse_mac m ≡ some mac)
no_entry {t} a f e = (
  e.mac_str,
  e.others,
  sym f ∙ ap t.system.fields (some_equal (sym a ∙ e.at_part)) ∙ e.fields,
  e.complete,
  e.parsed,
)

first_equal {ℓ} : {A : Type ℓ} {x y : A} {xs ys : List A} → x ∷ xs ≡ y ∷ ys → x ≡ y
first_equal e = cc

module _ (t : Tools) where
  of_mac :
      (line part m : Text) (others lines : List Text) (o : Option (List ℕ))
      → after (codes " at ") line ≡ some part
      → t.system.fields part ≡ m ∷ others
      → ((o : Option (List ℕ)) → darwin_arp_lines t lines ≡ some o → Found t lines o)
      → darwin_arp_lines t (line ∷ lines) ≡ some o
      → Found t (line ∷ lines) o
  unfolding darwin_arp_lines
  of_mac line part m others lines o a f ih = elim (Bool-cases (is_incomplete m)) [
    | inl b ↦
        rw (a, f, b, darwin_arp_lines)
          (λ e.
            Found-more t line lines o
              (λ mac h.
                let (m', os, q, c, p) = no_entry a f h in
                let same : m ≡ m' = first_equal q in
                let q : true ≡ false = sym b ∙ ap is_incomplete same ∙ c in cc)
              (ih o e))
    | inr b ↦ elim (Option-cases (t.system.parse_mac m)) [
      | inr (mac, p) ↦
          rw (a, f, b, p, darwin_arp_lines)
            (λ e. subst (Found t (line ∷ lines)) (some_equal e) (
              line,
              (zero, refl),
              record {
                part = part;
                mac_str = m;
                others = others;
                at_part = a;
                fields = f;
                complete = b;
                parsed = p;
              },
            ))
      | inl p ↦
          rw (a, f, b, p, darwin_arp_lines)
            (λ e.
              Found-more t line lines o
                (λ mac h.
                  let (m', os, q, c, p') = no_entry a f h in
                  let same : m ≡ m' = first_equal q in
                  let q : none ≡ some mac = sym p ∙ ap t.system.parse_mac same ∙ p' in cc)
                (ih o e))
    ]
  ]

  of_part :
      (line part : Text) (fs lines : List Text) (o : Option (List ℕ))
      → after (codes " at ") line ≡ some part
      → t.system.fields part ≡ fs
      → ((o : Option (List ℕ)) → darwin_arp_lines t lines ≡ some o → Found t lines o)
      → darwin_arp_lines t (line ∷ lines) ≡ some o
      → Found t (line ∷ lines) o
  unfolding darwin_arp_lines
  of_part line part [] lines o a f ih = rw (a, f, darwin_arp_lines) (λ e. cc)
  of_part line part (m ∷ others) lines o a f ih = of_mac line part m others lines o a f ih

  pub arp_lines-Found :
      (lines : List Text) (o : Option (List ℕ))
      → darwin_arp_lines t lines ≡ some o
      → Found t lines o
  unfolding darwin_arp_lines
  arp_lines-Found [] o =
      λ e. subst (Found t []) (some_equal e) (λ l mac h x. let q : none ≡ some l = h.1 in cc)
  arp_lines-Found (line ∷ lines) o = elim (Option-cases (after (codes " at ") line)) [
    | inr (part, a) ↦
        of_part line part (t.system.fields part) lines o a refl (λ o. arp_lines-Found lines o)
    | inl a ↦
        rw (a, darwin_arp_lines)
          (λ e.
            Found-more t line lines o
              (λ mac h. let q : none ≡ some h.part = sym a ∙ h.at_part in cc)
              (arp_lines-Found lines o e))
  ]

  -- Every line with " at " in it has something after it.
  abbrev pub AreEntries : List Text → Type 0
  AreEntries lines =
      (line part : Text)
      → Has lines line
      → after (codes " at ") line ≡ some part
      → t.system.fields part ≢ []

  line_total :
      (line part : Text) (fs lines : List Text) (r : Option (List ℕ))
      → after (codes " at ") line ≡ some part
      → t.system.fields part ≡ fs
      → fs ≢ []
      → darwin_arp_lines t lines ≡ some r
      → (o : Option (List ℕ)) × (darwin_arp_lines t (line ∷ lines) ≡ some o)
  unfolding darwin_arp_lines
  line_total line part [] lines r a f h ih = absurd (h refl)
  line_total line part (m ∷ others) lines r a f h ih = elim (Bool-cases (is_incomplete m)) [
    | inl b ↦ (r, rw (a, f, b, darwin_arp_lines) ih)
    | inr b ↦ elim (Option-cases (t.system.parse_mac m)) [
      | inr (mac, p) ↦ (some mac, rw (a, f, b, p, darwin_arp_lines) refl)
      | inl p ↦ (r, rw (a, f, b, p, darwin_arp_lines) ih)
    ]
  ]

  pub arp_lines_total :
      (lines : List Text)
      → AreEntries lines
      → (o : Option (List ℕ)) × (darwin_arp_lines t lines ≡ some o)
  unfolding darwin_arp_lines
  arp_lines_total [] h = (none, refl)
  arp_lines_total (line ∷ lines) h =
      let (r, ih) = arp_lines_total lines (λ l p i. h l p (suc i.0, i.1)) in
      elim (Option-cases (after (codes " at ") line)) [
        | inr (part, a) ↦
            line_total line part (t.system.fields part) lines r a refl (h line part (zero, refl) a)
              ih
        | inl a ↦ (r, rw (a, darwin_arp_lines) ih)
      ]
