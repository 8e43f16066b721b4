-- ===== src/Probe/Parse.antt =====
-- parseTCPF of the command and strTCPF of the configuration (internal/conf/tcp.go).
use paqet.Prelude.{
  ℕ, ◌≡◌, refl, ◌∙◌, ap, List, [], ◌∷◌, Option, none, some, Option-cases, inl, inr, arith,
}
use paqet.Flags.{
  TcpFlags, no_flags, Letter, sets, unknown, set_letter, StrResult, str_letters, str_tcpf,
}
use paqet.Probe.{set_flag, set_flags, parse_tcpf}

abbrev letter_of : Option TcpFlags → Letter
letter_of none = unknown
letter_of (some f) = sets f

abbrev pub result_of : TcpFlags × Option ℕ → StrResult
result_of (f, none) = record { flags = f; invalid = [] }
result_of (f, some ch) = record { flags = f; invalid = ch ∷ [] }

set_letter_same : (c : ℕ) (f : TcpFlags) → set_letter c f ≡ letter_of (set_flag c f)
unfolding set_letter set_flag
set_letter_same c f = ground arith

str_letters_same : (s : List ℕ) (f : TcpFlags) → str_letters f s ≡ result_of (set_flags f s)
unfolding str_letters set_flags
str_letters_same [] f = refl
str_letters_same (c ∷ s) f = elim (Option-cases (set_flag c f)) [
  | inl e ↦ rw (set_letter_same c f ∙ ap letter_of e, str_letters, e, set_flags) refl
  | inr (g, e) ↦
      rw (set_letter_same c f ∙ ap letter_of e, str_letters, e, set_flags) (str_letters_same s g)
]

pub parse_tcpf-str_tcpf : (s : List ℕ) → str_tcpf s ≡ result_of (parse_tcpf s)
unfolding str_tcpf parse_tcpf
parse_tcpf-str_tcpf s = str_letters_same s no_flags
