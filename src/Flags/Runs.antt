-- ===== src/Flags/Runs.antt =====
-- Flag sets at concrete texts and words.
use paqet.Prelude.{◌≡◌, refl, true, [], ◌∷◌}
use paqet.Prelude.Text.{codes}
use paqet.Flags.{TcpFlags, no_flags, parse_flag_str, tcpf_to_str, flag_letters}
use paqet.Flags.Text.{parse_flag_str-tcpf_to_str}

abbrev push_ack : TcpFlags
push_ack = record no_flags { psh = true; ack = true }

printed : tcpf_to_str (push_ack ∷ []) ≡ codes "PA"
unfolding tcpf_to_str flag_letters
printed = refl

parse_flag_str-tcpf_to_str_example :
    parse_flag_str (tcpf_to_str (push_ack ∷ no_flags ∷ [])) ≡ push_ack ∷ []
parse_flag_str-tcpf_to_str_example = parse_flag_str-tcpf_to_str push_ack (no_flags ∷ [])
