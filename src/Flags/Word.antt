-- ===== src/Flags/Word.antt =====
-- The flags word of a PTCPF message holds a flag set exactly.
use paqet.Prelude.{◌<◌, ◌≡◌, refl, sym, not, Bool, true, false, ◌&&◌, arith, ltb, ltb→lt}
use paqet.Flags.{TcpFlags, to_word, from_word}

-- A property of nine Booleans, checked by evaluation.
abbrev both : (Bool → Bool) → Bool
both p = p true && p false

both_sound : (p : Bool → Bool) → both p ≡ true → (b : Bool) → p b ≡ true
both_sound p h true = ground arith
both_sound p h false = ground arith

abbrev flags_of : Bool → Bool → Bool → Bool → Bool → Bool → Bool → Bool → Bool → TcpFlags
flags_of a b c d e f g h i = record {
  fin = a;
  syn = b;
  rst = c;
  psh = d;
  ack = e;
  urg = f;
  ece = g;
  cwr = h;
  ns = i;
}

module _ (p : TcpFlags → Bool) where
  all_flags : Bool
  all_flags = both λ a. both λ b. both λ c.
      both λ d. both λ e. both λ f. both λ g. both λ h. both λ i. p (flags_of a b c d e f g h i)

  all_flags_sound : all_flags ≡ true → (f : TcpFlags) → p f ≡ true
  unfolding all_flags
  all_flags_sound t f =
      let t1 =
        both_sound
          (λ x. both λ b. both λ c.
            both
              λ d. both λ e. both λ q. both λ g. both λ h. both λ i. p (flags_of x b c d e q g h i))
          t f.fin in
      let t2 =
        both_sound
          (λ x. both λ c. both λ d.
            both λ e. both λ q. both λ g. both λ h. both λ i. p (flags_of f.fin x c d e q g h i))
          t1 f.syn in
      let t3 =
        both_sound
          (λ x. both λ d.
            both
              λ e. both λ q. both λ g. both λ h. both λ i. p (flags_of f.fin f.syn x d e q g h i))
          t2 f.rst in
      let t4 =
        both_sound
          (λ x.
            both λ e.
              both λ q. both λ g. both λ h. both λ i. p (flags_of f.fin f.syn f.rst x e q g h i))
          t3 f.psh in
      let t5 =
        both_sound
          (λ x.
            both λ q. both λ g. both λ h. both λ i. p (flags_of f.fin f.syn f.rst f.psh x q g h i))
          t4 f.ack in
      let t6 =
        both_sound
          (λ x. both λ g. both λ h. both λ i. p (flags_of f.fin f.syn f.rst f.psh f.ack x g h i)) t5
          f.urg in
      let t7 =
        both_sound (λ x. both λ h. both λ i. p (flags_of f.fin f.syn f.rst f.psh f.ack f.urg x h i))
          t6 f.ece in
      let t8 =
        both_sound (λ x. both λ i. p (flags_of f.fin f.syn f.rst f.psh f.ack f.urg f.ece x i)) t7
          f.cwr in
      both_sound (λ x. p (flags_of f.fin f.syn f.rst f.psh f.ack f.urg f.ece f.cwr x)) t8 f.ns

-- The word of a flag set is below 2 ^ 9, so its low bits give the flags back.
to_word_table : all_flags (λ f. ltb (to_word f) 512) ≡ true
unfolding all_flags to_word
to_word_table = refl

pub to_word-lt : (f : TcpFlags) → to_word f < 512
to_word-lt f = ltb→lt _ 512 (all_flags_sound (λ f. ltb (to_word f) 512) to_word_table f)

abbrev same : Bool → Bool → Bool
same true b = b
same false b = not b

same→eq : (a b : Bool) → same a b ≡ true → a ≡ b
same→eq true b h = sym h
same→eq false true h = h
same→eq false false h = refl

abbrev same_flags : TcpFlags → TcpFlags → Bool
same_flags f g =
    same f.fin g.fin
    && (same f.syn g.syn
        && (same f.rst g.rst
            && (same f.psh g.psh
                && (same f.ack g.ack
                    && (same f.urg g.urg
                        && (same f.ece g.ece && (same f.cwr g.cwr && same f.ns g.ns)))))))

and_split : (a b : Bool) → (a && b) ≡ true → (a ≡ true) × (b ≡ true)
and_split true b h = (refl, h)
and_split false b h = cc

same_flags→eq : (f g : TcpFlags) → same_flags f g ≡ true → f ≡ g
same_flags→eq f g h =
    let (e1, h1) = and_split (same f.fin g.fin) _ h in
    let (e2, h2) = and_split (same f.syn g.syn) _ h1 in
    let (e3, h3) = and_split (same f.rst g.rst) _ h2 in
    let (e4, h4) = and_split (same f.psh g.psh) _ h3 in
    let (e5, h5) = and_split (same f.ack g.ack) _ h4 in
    let (e6, h6) = and_split (same f.urg g.urg) _ h5 in
    let (e7, h7) = and_split (same f.ece g.ece) _ h6 in
    let (e8, h8) = and_split (same f.cwr g.cwr) _ h7 in
    λ i. record {
      fin = same→eq f.fin g.fin e1 i;
      syn = same→eq f.syn g.syn e2 i;
      rst = same→eq f.rst g.rst e3 i;
      psh = same→eq f.psh g.psh e4 i;
      ack = same→eq f.ack g.ack e5 i;
      urg = same→eq f.urg g.urg e6 i;
      ece = same→eq f.ece g.ece e7 i;
      cwr = same→eq f.cwr g.cwr e8 i;
      ns = same→eq f.ns g.ns h8 i;
    }

round_trip_table : all_flags (λ f. same_flags (from_word (to_word f)) f) ≡ true
unfolding all_flags to_word from_word
round_trip_table = refl

-- Reading back the word of a flag set gives the flag set.
pub from_word-to_word : (f : TcpFlags) → from_word (to_word f) ≡ f
from_word-to_word f =
    same_flags→eq _ f
      (all_flags_sound (λ f. same_flags (from_word (to_word f)) f) round_trip_table f)
