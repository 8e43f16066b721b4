-- ===== src/Flags/Text.antt =====
-- tcpfToStr, parseFlagStr and strTCPF agree.
use paqet.Prelude.{
  ℕ, ◌≡◌, refl, ◌∙◌, Bool, true, false, ◌||◌, List, [], ◌∷◌, ◌++◌, arith, ◌==◌, ap, if◌then◌else◌,
}
use paqet.Flags.{
  or_same, sets, unknown, TcpFlags, no_flags, parse_letters, set_letter, parse_flag_str,
  str_letters, str_tcpf, letter, flag_letters, tcpf_to_str,
}

parse_letters-append :
    (s : List ℕ) (f : TcpFlags) (t : List ℕ)
    → parse_letters f (s ++ t) ≡ parse_letters (parse_letters f s) t
unfolding parse_letters
parse_letters-append [] f t = refl
parse_letters-append (c ∷ s) f t = parse_letters-append s (or_same f (set_letter c f)) t

abbrev pub contains : ℕ → List ℕ → Bool
contains c [] = false
contains c (x ∷ s) = x == c || contains c s

-- The flags of `f` and those whose letter stands in `s`.
abbrev pub with_letters : TcpFlags → List ℕ → TcpFlags
with_letters f s = record {
  fin = f.fin || contains b'F' s;
  syn = f.syn || contains b'S' s;
  rst = f.rst || contains b'R' s;
  psh = f.psh || contains b'P' s;
  ack = f.ack || contains b'A' s;
  urg = f.urg || contains b'U' s;
  ece = f.ece || contains b'E' s;
  cwr = f.cwr || contains b'C' s;
  ns = f.ns || contains b'N' s;
}

set_letter_fin :
    (c : ℕ) (f : TcpFlags) (t : Bool)
    → ((or_same f (set_letter c f)).fin || t) ≡ (f.fin || (c == b'F' || t))
unfolding set_letter
set_letter_fin c f t = ground arith

set_letter_syn :
    (c : ℕ) (f : TcpFlags) (t : Bool)
    → ((or_same f (set_letter c f)).syn || t) ≡ (f.syn || (c == b'S' || t))
unfolding set_letter
set_letter_syn c f t = ground arith

set_letter_rst :
    (c : ℕ) (f : TcpFlags) (t : Bool)
    → ((or_same f (set_letter c f)).rst || t) ≡ (f.rst || (c == b'R' || t))
unfolding set_letter
set_letter_rst c f t = ground arith

set_letter_psh :
    (c : ℕ) (f : TcpFlags) (t : Bool)
    → ((or_same f (set_letter c f)).psh || t) ≡ (f.psh || (c == b'P' || t))
unfolding set_letter
set_letter_psh c f t = ground arith

set_letter_ack :
    (c : ℕ) (f : TcpFlags) (t : Bool)
    → ((or_same f (set_letter c f)).ack || t) ≡ (f.ack || (c == b'A' || t))
unfolding set_letter
set_letter_ack c f t = ground arith

set_letter_urg :
    (c : ℕ) (f : TcpFlags) (t : Bool)
    → ((or_same f (set_letter c f)).urg || t) ≡ (f.urg || (c == b'U' || t))
unfolding set_letter
set_letter_urg c f t = ground arith

set_letter_ece :
    (c : ℕ) (f : TcpFlags) (t : Bool)
    → ((or_same f (set_letter c f)).ece || t) ≡ (f.ece || (c == b'E' || t))
unfolding set_letter
set_letter_ece c f t = ground arith

set_letter_cwr :
    (c : ℕ) (f : TcpFlags) (t : Bool)
    → ((or_same f (set_letter c f)).cwr || t) ≡ (f.cwr || (c == b'C' || t))
unfolding set_letter
set_letter_cwr c f t = ground arith

set_letter_ns :
    (c : ℕ) (f : TcpFlags) (t : Bool)
    → ((or_same f (set_letter c f)).ns || t) ≡ (f.ns || (c == b'N' || t))
unfolding set_letter
set_letter_ns c f t = ground arith

parse_letters-with_letters : (s : List ℕ) (f : TcpFlags) → parse_letters f s ≡ with_letters f s
unfolding parse_letters
parse_letters-with_letters [] f = ground arith
parse_letters-with_letters (c ∷ s) f =
    parse_letters-with_letters s (or_same f (set_letter c f)) ∙ λ i. record {
      fin = set_letter_fin c f (contains b'F' s) i;
      syn = set_letter_syn c f (contains b'S' s) i;
      rst = set_letter_rst c f (contains b'R' s) i;
      psh = set_letter_psh c f (contains b'P' s) i;
      ack = set_letter_ack c f (contains b'A' s) i;
      urg = set_letter_urg c f (contains b'U' s) i;
      ece = set_letter_ece c f (contains b'E' s) i;
      cwr = set_letter_cwr c f (contains b'C' s) i;
      ns = set_letter_ns c f (contains b'N' s) i;
    }

-- Each letter after an optional one.
put_fin :
    (b : Bool) (g : TcpFlags) → parse_letters g (letter b b'F') ≡ record g { fin = g.fin || b }
unfolding parse_letters set_letter
put_fin b g = ground arith

put_syn :
    (b : Bool) (g : TcpFlags) → parse_letters g (letter b b'S') ≡ record g { syn = g.syn || b }
unfolding parse_letters set_letter
put_syn b g = ground arith

put_rst :
    (b : Bool) (g : TcpFlags) → parse_letters g (letter b b'R') ≡ record g { rst = g.rst || b }
unfolding parse_letters set_letter
put_rst b g = ground arith

put_psh :
    (b : Bool) (g : TcpFlags) → parse_letters g (letter b b'P') ≡ record g { psh = g.psh || b }
unfolding parse_letters set_letter
put_psh b g = ground arith

put_ack :
    (b : Bool) (g : TcpFlags) → parse_letters g (letter b b'A') ≡ record g { ack = g.ack || b }
unfolding parse_letters set_letter
put_ack b g = ground arith

put_urg :
    (b : Bool) (g : TcpFlags) → parse_letters g (letter b b'U') ≡ record g { urg = g.urg || b }
unfolding parse_letters set_letter
put_urg b g = ground arith

put_ece :
    (b : Bool) (g : TcpFlags) → parse_letters g (letter b b'E') ≡ record g { ece = g.ece || b }
unfolding parse_letters set_letter
put_ece b g = ground arith

put_cwr :
    (b : Bool) (g : TcpFlags) → parse_letters g (letter b b'C') ≡ record g { cwr = g.cwr || b }
unfolding parse_letters set_letter
put_cwr b g = ground arith

put_ns : (b : Bool) (g : TcpFlags) → parse_letters g (letter b b'N') ≡ record g { ns = g.ns || b }
unfolding parse_letters set_letter
put_ns b g = ground arith

ruleset puts = (put_fin, put_syn, put_rst, put_psh, put_ack, put_urg, put_ece, put_cwr, put_ns)

parse_letters-flag_letters : (f : TcpFlags) → parse_letters no_flags (flag_letters f) ≡ f
unfolding flag_letters
parse_letters-flag_letters f = simp (parse_letters-append, puts)

-- parseFlagStr reads back the flag set that tcpfToStr printed, as a slice of one element; of a
-- longer slice it is the first element.
pub parse_flag_str-tcpf_to_str :
    (f : TcpFlags) (fs : List TcpFlags) → parse_flag_str (tcpf_to_str (f ∷ fs)) ≡ f ∷ []
unfolding parse_flag_str tcpf_to_str
parse_flag_str-tcpf_to_str f fs = ap (λ (g : TcpFlags). g ∷ []) (parse_letters-flag_letters f)

-- The letters of flags.
pub is_flag : ℕ → Bool
is_flag c = contains c (b'F' ∷ b'S' ∷ b'R' ∷ b'P' ∷ b'A' ∷ b'U' ∷ b'E' ∷ b'C' ∷ b'N' ∷ [])

-- The first letter that is no flag, in a list of one, or nothing.
abbrev pub first_invalid : List ℕ → List ℕ
first_invalid [] = []
first_invalid (c ∷ s) = if is_flag c then first_invalid s else c ∷ []

set_letter_known :
    (c : ℕ) (f : TcpFlags) → is_flag c ≡ true → set_letter c f ≡ sets (or_same f (set_letter c f))
unfolding set_letter is_flag
set_letter_known c f h = ground arith

set_letter_unknown : (c : ℕ) (f : TcpFlags) → is_flag c ≡ false → set_letter c f ≡ unknown
unfolding set_letter is_flag
set_letter_unknown c f h = ground arith

str_letters_invalid : (s : List ℕ) (f : TcpFlags) → (str_letters f s).invalid ≡ first_invalid s
unfolding str_letters
str_letters_invalid [] f = refl
str_letters_invalid (c ∷ s) f = ground (
  arith,
  set_letter_known c f,
  set_letter_unknown c f,
  str_letters_invalid s (or_same f (set_letter c f)),
)

str_letters_valid :
    (s : List ℕ) (f : TcpFlags) → first_invalid s ≡ [] → (str_letters f s).flags ≡ parse_letters f s
unfolding str_letters parse_letters
str_letters_valid [] f h = refl
str_letters_valid (c ∷ s) f h =
    ground (arith, set_letter_known c f, str_letters_valid s (or_same f (set_letter c f)))

-- strTCPF names the first letter that is no flag letter; if there is none, it sets exactly the
-- flags whose letters occur, as parseFlagStr does of any string.
pub str_tcpf_letters :
    (s : List ℕ)
    → ((str_tcpf s).invalid ≡ first_invalid s)
      × (first_invalid s ≡ [] → (str_tcpf s).flags ≡ with_letters no_flags s)
      × (parse_flag_str s ≡ with_letters no_flags s ∷ [])
unfolding str_tcpf parse_flag_str
str_tcpf_letters s = (
  str_letters_invalid s no_flags,
  λ h. str_letters_valid s no_flags h ∙ parse_letters-with_letters s no_flags,
  ap (λ (g : TcpFlags). g ∷ []) (parse_letters-with_letters s no_flags),
)
