-- ===== src/Address/Key.antt =====
-- When the key of an address tells addresses apart.
use Prim.Native.Nat.{bit_or, bit_xor, differ, digits, bit_or-bitwise, bit_xor-bitwise, max}
use paqet.Prelude.{
  ℕ, zero, suc, ◌+◌, ◌*◌, ◌/◌, ◌%◌, ◌^◌, ◌≤◌, ◌<◌, ◌≡◌, refl, sym, ap, ◌∙◌, List, [], ◌∷◌, ◌++◌,
  some, arith, length, take, drop, take-append, drop-append, All, length-append,
}
use native.Mathlib.Nat.{pow-suc}
use mathlib.Core.Logic.{◌≢◌}
use mathlib.Core.Path.{ap₂}
use paqet.Address.{big_endian, ip_addr}

-- The law for the lowest digit of an operation that keeps the second number when the first runs
-- out.
module _ (f : ℕ → ℕ → ℕ) (unit : (y : ℕ) → f 0 y ≡ y) where
  op : ℕ → ℕ → ℕ → ℕ
  op n a b = digits (λ b. b) f n a b

  op_fuel : (n m a b : ℕ) → a ≤ n → a ≤ m → op n a b ≡ op m a b
  unfolding op
  op_fuel zero zero a b p q = refl
  op_fuel zero (suc m) zero b p q = refl
  op_fuel zero (suc m) (suc a) b p q = absurd (omega arith)
  op_fuel (suc n) zero zero b p q = refl
  op_fuel (suc n) zero (suc a) b p q = absurd (omega arith)
  op_fuel (suc n) (suc m) zero b p q = refl
  op_fuel (suc n) (suc m) (suc a) b p q =
      omega (arith, op_fuel n m (suc a / 2) (b / 2) (omega arith) (omega arith))

  op_step : (a b : ℕ) → op a a b ≡ op (a / 2) (a / 2) (b / 2) * 2 + f (a % 2) (b % 2)
  unfolding op
  op_step zero b = omega (arith, unit (b % 2))
  op_step (suc a) b =
      omega (arith, op_fuel a (suc a / 2) (suc a / 2) (b / 2) (omega arith) (omega arith))

or_step : (a b : ℕ) → bit_or a b ≡ bit_or (a / 2) (b / 2) * 2 + max (a % 2) (b % 2)
unfolding op
or_step a b =
    omega (
      arith,
      bit_or-bitwise a b,
      bit_or-bitwise (a / 2) (b / 2),
      op_step max (λ y. omega arith) a b,
    )

xor_step : (a b : ℕ) → bit_xor a b ≡ bit_xor (a / 2) (b / 2) * 2 + differ (a % 2) (b % 2)
unfolding op
xor_step a b =
    omega
      (arith, bit_xor-bitwise a b, bit_xor-bitwise (a / 2) (b / 2), op_step differ (λ y. refl) a b)

differ_comm : (a b : ℕ) → differ a b ≡ differ b a
differ_comm zero zero = refl
differ_comm zero (suc b) = refl
differ_comm (suc a) zero = refl
differ_comm (suc a) (suc b) = differ_comm a b

xor_comm_fuel : (n a b : ℕ) → a ≤ n → b ≤ n → bit_xor a b ≡ bit_xor b a
xor_comm_fuel zero zero zero p q = refl
xor_comm_fuel zero zero (suc b) p q = absurd (omega arith)
xor_comm_fuel zero (suc a) b p q = absurd (omega arith)
xor_comm_fuel (suc n) a b p q = omega (
  arith,
  xor_step a b,
  xor_step b a,
  differ_comm (a % 2) (b % 2),
  xor_comm_fuel n (a / 2) (b / 2) (omega arith) (omega arith),
)

xor_comm : (a b : ℕ) → bit_xor a b ≡ bit_xor b a
xor_comm a b = xor_comm_fuel (a + b) a b (omega arith) (omega arith)

or-zero_fuel : (n a : ℕ) → a ≤ n → bit_or a 0 ≡ a
or-zero_fuel zero zero h = refl
or-zero_fuel zero (suc a) h = absurd (omega arith)
or-zero_fuel (suc n) a h = omega (arith, or_step a 0, or-zero_fuel n (a / 2) (omega arith))

or_double : (s p : ℕ) → bit_or (s * 2) p ≡ bit_or s (p / 2) * 2 + p % 2
or_double s p = omega (arith, or_step (s * 2) p, ap (λ (t : ℕ). bit_or t (p / 2)) halved)
  where
    halved : s * 2 / 2 ≡ s
    halved = omega arith

double_shift : (x k : ℕ) → x * 2 ^ suc k ≡ x * 2 ^ k * 2
double_shift x k = rw (pow-suc 2 k) (omega arith)

-- The low digits of a number shifted by k are free.
or-shifted : (k x p : ℕ) → p < 2 ^ k → bit_or (x * 2 ^ k) p ≡ x * 2 ^ k + p
or-shifted zero x zero h = omega (arith, or-zero_fuel (x * 1) (x * 1) (omega arith))
or-shifted zero x (suc p) h = absurd (omega arith)
or-shifted (suc k) x p h =
    rw (double_shift x k)
      (omega (arith, or_double (x * 2 ^ k) p, or-shifted k x (p / 2) (omega (arith, pow-suc 2 k))))

abbrev pub IsByte : ℕ → Type 0
IsByte b = b < 256

v4_key : (n p : ℕ) → n < 2 ^ 32 → p < 2 ^ 16 → bit_or (n * 2 ^ 16 % 2 ^ 64) p ≡ n * 2 ^ 16 + p
v4_key n p h k = ap (λ (t : ℕ). bit_or t p) fits ∙ or-shifted 16 n p k
  where
    fits : n * 2 ^ 16 % 2 ^ 64 ≡ n * 2 ^ 16
    fits = omega arith

abbrev four : ℕ → ℕ → ℕ → ℕ → List ℕ
four a b c d = a ∷ b ∷ c ∷ d ∷ []

abbrev quad : ℕ → ℕ → ℕ → ℕ → ℕ
quad a b c d = ((a * 256 + b) * 256 + c) * 256 + d

ip_addr-four :
    (a b c d p : ℕ)
    → All IsByte (four a b c d)
    → p < 65536
    → ip_addr (four a b c d) p ≡ some (quad a b c d * 2 ^ 16 + p)
unfolding ip_addr
ip_addr-four a b c d p h k = ap some (
    v4_key ((((0 * 256 + a) * 256 + b) * 256 + c) * 256 + d) p (omega arith) (omega arith)
    ∙ omega arith)

length-four : (ip : List ℕ) → length ip ≡ 4 → (a b c d : ℕ) × (ip ≡ four a b c d)
length-four (a ∷ b ∷ c ∷ d ∷ []) h = (a, b, c, d, refl)
length-four [] h = absurd (omega arith)
length-four (a ∷ []) h = absurd (omega arith)
length-four (a ∷ b ∷ []) h = absurd (omega arith)
length-four (a ∷ b ∷ c ∷ []) h = absurd (omega arith)
length-four (a ∷ b ∷ c ∷ d ∷ e ∷ ip) h = absurd (omega arith)

four_injective :
    (a b c d p a' b' c' d' p' : ℕ)
    → All IsByte (four a b c d)
    → All IsByte (four a' b' c' d')
    → p < 65536
    → p' < 65536
    → quad a b c d * 2 ^ 16 + p ≡ quad a' b' c' d' * 2 ^ 16 + p'
    → (four a b c d ≡ four a' b' c' d') × (p ≡ p')
four_injective a b c d p a' b' c' d' p' h h' k k' e =
    let words : quad a b c d ≡ quad a' b' c' d' = omega arith in
    let ed : d ≡ d' = omega arith in
    let ec : c ≡ c' = omega arith in
    let eb : b ≡ b' = omega arith in let ea : a ≡ a' = omega arith in (cc, omega arith)

some_equal : {a b : ℕ} → some a ≡ some b → a ≡ b
some_equal e = cc

-- Two IPv4 addresses of four bytes, each with a port of 16 bits, have the same key only if they are
-- the same; so no two IPv4 peers share an entry of a map under this key.
pub ip_addr-injective :
    (ip ip' : List ℕ) (p p' : ℕ) {k : ℕ}
    → length ip ≡ 4
    → length ip' ≡ 4
    → All IsByte ip
    → All IsByte ip'
    → p < 65536
    → p' < 65536
    → ip_addr ip p ≡ some k
    → ip_addr ip' p' ≡ some k
    → (ip ≡ ip') × (p ≡ p')
ip_addr-injective ip ip' p p' l l' h h' q q' e e' =
    let (a, b, c, d, s) = length-four ip l in
    let (a', b', c', d', s') = length-four ip' l' in
    let bytes : All IsByte (four a b c d) = rw s at h in
    let bytes' : All IsByte (four a' b' c' d') = rw s' at h' in
    let same =
      sym (ip_addr-four a b c d p bytes q)
      ∙ sym (ap (λ (t : List ℕ). ip_addr t p) s)
      ∙ e
      ∙ sym e'
      ∙ ap (λ (t : List ℕ). ip_addr t p') s'
      ∙ ip_addr-four a' b' c' d' p' bytes' q' in
    let (x, y) = four_injective a b c d p a' b' c' d' p' bytes bytes' q q' (some_equal same) in
    (s ∙ x ∙ sym s', y)

length-halves : (s t : List ℕ) → length s ≡ 8 → length t ≡ 8 → length (s ++ t) ≡ 16
length-halves s t h k = omega (arith, length-append s t)

ip_addr_sixteen :
    (ip : List ℕ) (p : ℕ)
    → length ip ≡ 16
    → ip_addr ip p
      ≡ some (
          bit_xor
            (bit_xor (big_endian 0 (take 8 ip)) (big_endian 0 (drop 8 ip)))
            (p * 2 ^ 48 % 2 ^ 64))
unfolding ip_addr
ip_addr_sixteen ip p h = rw h refl

halves_key :
    (s t : List ℕ) (p : ℕ)
    → length s ≡ 8
    → length t ≡ 8
    → ip_addr (s ++ t) p
      ≡ some (bit_xor (bit_xor (big_endian 0 s) (big_endian 0 t)) (p * 2 ^ 48 % 2 ^ 64))
halves_key s t p h k =
    ip_addr_sixteen (s ++ t) p (length-halves s t h k)
    ∙ ap₂
        (λ (x y : List ℕ).
          some (bit_xor (bit_xor (big_endian 0 x) (big_endian 0 y)) (p * 2 ^ 48 % 2 ^ 64)))
        (rw h at (take-append s t)) (rw h at (drop-append s t))

-- The key of an IPv6 address is the exclusive or of its halves and the port: swapping the halves
-- gives another address, if they differ, with the same key.
pub ip_addr_swapped :
    (s t : List ℕ) (p : ℕ)
    → length s ≡ 8
    → length t ≡ 8
    → (ip_addr (s ++ t) p ≡ ip_addr (t ++ s) p) × (s ≢ t → (s ++ t) ≢ (t ++ s))
ip_addr_swapped s t p h k = (
  halves_key s t p h k
      ∙ ap (λ (n : ℕ). some (bit_xor n (p * 2 ^ 48 % 2 ^ 64)))
          (xor_comm (big_endian 0 s) (big_endian 0 t))
      ∙ sym (halves_key t s p k h),
  λ ne e. ne (sym (rw h at (take-append s t)) ∙ ap (take 8) e ∙ (rw k at (take-append t s))),
)
