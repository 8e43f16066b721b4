-- ===== src/Protocol/Kept.antt =====
-- Read keeps the type byte that it reads, whatever follows.
use paqet.Prelude.{ℕ, ◌≡◌, refl, ◌*◌, List, [], ◌∷◌, inl, inr, arith, ◌⊎◌}
use paqet.Protocol.{
  Proto, Error, Result, ok, err, read_full, read_host, read_lead, read_flags, read_count, read_body,
  read, uint16,
}

Result-cases {ℓ} :
    {A : Type ℓ} (r : Result A) → ((a : A) × (r ≡ ok a)) ⊎ ((e : Error) × (r ≡ err e))
Result-cases (ok a) = inl (a, refl)
Result-cases (err e) = inr (e, refl)

read_host-type : (p : Proto) (port n : ℕ) (r : List ℕ) → (read_host p port n r).0.type ≡ p.type
unfolding read_host
read_host-type p port n r = elim (Result-cases (read_full n r)) [
  | inl (a, e) ↦ rw (e, read_host) refl
  | inr (x, e) ↦ rw (e, read_host) refl
]

read_flags-type : (p : Proto) (n : ℕ) (r : List ℕ) → (read_flags p n r).0.type ≡ p.type
unfolding read_flags
read_flags-type p n r = elim (Result-cases (read_full (n * 2) r)) [
  | inl (a, e) ↦ rw (e, read_flags) refl
  | inr (x, e) ↦ rw (e, read_flags) refl
]

read_lead-type : (p : Proto) (x : Result (List ℕ × List ℕ)) → (read_lead p x).0.type ≡ p.type
unfolding read_lead
read_lead-type p (ok ([], r)) = refl
read_lead-type p (ok (a ∷ [], r)) = refl
read_lead-type p (ok (a ∷ b ∷ [], r)) = refl
read_lead-type p (ok (a ∷ b ∷ c ∷ [], r)) = read_host-type p (uint16 a b) c r
read_lead-type p (ok (a ∷ b ∷ c ∷ d ∷ xs, r)) = refl
read_lead-type p (err e) = refl

read_count-type : (p : Proto) (r : List ℕ) → (read_count p r).0.type ≡ p.type
unfolding read_count
read_count-type p [] = refl
read_count-type p (n ∷ r) = read_flags-type p n r

pub read-type : (q : Proto) (t : ℕ) (r : List ℕ) → (read q (t ∷ r)).0.type ≡ t
unfolding read read_body
read-type q t r =
    let p : Proto = record q { type = t } in
    ground (arith, read_lead-type p (read_full 3 r), read_count-type p r)
