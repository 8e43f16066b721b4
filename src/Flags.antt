-- ===== src/Flags.antt =====
-- TCP flag sets: conf.TCPF (internal/conf/tcp.go), their letters (strTCPF there, parseFlagStr and
-- tcpfToStr of internal/client/flag_cycler.go) and the flags word of internal/protocol/protocol.go.
-- A Go string is the list of its code points.
pub mod Text
pub mod Word
mod Runs
use Prim.Native.Nat.{bit_and, bit_or}
use paqet.Prelude.{ℕ, Bool, true, false, not, List, [], ◌∷◌, ◌++◌, ◌==◌, if◌then◌else◌}

pub record TcpFlags : Type 0 where
  pub fin : Bool
  pub syn : Bool
  pub rst : Bool
  pub psh : Bool
  pub ack : Bool
  pub urg : Bool
  pub ece : Bool
  pub cwr : Bool
  pub ns : Bool

-- Go's zero value.
abbrev pub no_flags : TcpFlags
no_flags = record {
  fin = false;
  syn = false;
  rst = false;
  psh = false;
  ack = false;
  urg = false;
  ece = false;
  cwr = false;
  ns = false;
}

-- The switch over a letter: `none` is its default branch.
pub data Letter : Type 0 where
  sets : TcpFlags → Letter
  unknown : Letter

unfoldable pub set_letter : ℕ → TcpFlags → Letter
set_letter c f =
    if c == b'F'
    then sets (record f { fin = true })
    else if c == b'S'
    then sets (record f { syn = true })
    else if c == b'R'
    then sets (record f { rst = true })
    else if c == b'P'
    then sets (record f { psh = true })
    else if c == b'A'
    then sets (record f { ack = true })
    else if c == b'U'
    then sets (record f { urg = true })
    else if c == b'E'
    then sets (record f { ece = true })
    else if c == b'C'
    then sets (record f { cwr = true })
    else if c == b'N'
    then sets (record f { ns = true })
    else unknown

abbrev pub or_same : TcpFlags → Letter → TcpFlags
or_same f (sets g) = g
or_same f unknown = f

-- The loop of parseFlagStr: a letter that is no flag is passed over.
pub parse_letters : TcpFlags → List ℕ → TcpFlags
parse_letters f [] = f
parse_letters f (c ∷ s) = parse_letters (or_same f (set_letter c f)) s

unfoldable pub parse_flag_str : List ℕ → List TcpFlags
unfolding parse_letters set_letter
parse_flag_str s = parse_letters no_flags s ∷ []

-- strTCPF returns (f, error); the error names the letter.
pub record StrResult : Type 0 where
  pub flags : TcpFlags
  pub invalid : List ℕ

-- An error stops the loop; `invalid` holds the letter that is none, or nothing.
unfoldable pub str_letters : TcpFlags → List ℕ → StrResult
str_letters f [] = record { flags = f; invalid = [] }
str_letters f (c ∷ s) = elim (set_letter c f) [
  | sets g ↦ str_letters g s
  | unknown ↦ record { flags = f; invalid = c ∷ [] }
]

unfoldable pub str_tcpf : List ℕ → StrResult
unfolding str_letters set_letter
str_tcpf s = str_letters no_flags s

abbrev pub letter : Bool → ℕ → List ℕ
letter true c = c ∷ []
letter false c = []

pub flag_letters : TcpFlags → List ℕ
flag_letters f =
    letter f.fin b'F'
    ++ (letter f.syn b'S'
        ++ (letter f.rst b'R'
            ++ (letter f.psh b'P'
                ++ (letter f.ack b'A'
                    ++ (letter f.urg b'U'
                        ++ (letter f.ece b'E' ++ (letter f.cwr b'C' ++ letter f.ns b'N')))))))

unfoldable pub tcpf_to_str : List TcpFlags → List ℕ
unfolding flag_letters
tcpf_to_str [] = b'P' ∷ b'A' ∷ []
tcpf_to_str (f ∷ _) = flag_letters f

abbrev or_bit : Bool → ℕ → ℕ → ℕ
or_bit true bit v = bit_or v bit
or_bit false bit v = v

-- `v |= 1 << k` for each flag, in order.
unfoldable pub to_word : TcpFlags → ℕ
to_word f = or_bit f.ns 0x100 (
    or_bit f.cwr 0x80 (
      or_bit f.ece 0x40 (
        or_bit f.urg 0x20 (
          or_bit f.ack 0x10
            (or_bit f.psh 0x8 (or_bit f.rst 0x4 (or_bit f.syn 0x2 (or_bit f.fin 0x1 0))))))))

abbrev has_bit : ℕ → ℕ → Bool
has_bit v bit = not (bit_and v bit == 0)

unfoldable pub from_word : ℕ → TcpFlags
from_word v = record {
  fin = has_bit v 0x1;
  syn = has_bit v 0x2;
  rst = has_bit v 0x4;
  psh = has_bit v 0x8;
  ack = has_bit v 0x10;
  urg = has_bit v 0x20;
  ece = has_bit v 0x40;
  cwr = has_bit v 0x80;
  ns = has_bit v 0x100;
}
