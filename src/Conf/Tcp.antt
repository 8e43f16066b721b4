-- ===== src/Conf/Tcp.antt =====
-- internal/conf/tcp.go: the flags and the timings of the TCP section. strTCPF is in Flags.
use paqet.Prelude.{Bool, true, false, not, ◌||◌, List, [], ◌∷◌, ◌++◌, if◌then◌else◌}
use paqet.Prelude.Int.{ℤ, pos, ltb_ℤ}
use paqet.Prelude.Text.{Text, codes}
use paqet.Flags.{TcpFlags, str_tcpf}
use paqet.Conf.{
  Error, invalid_flag, no_flag_combination, max_failures_small, probe_timeout_small, Checked, check,
  or_default, seconds,
}

pub record Tcp : Type 0 where
  pub lf_ : List Text
  pub rf_ : List Text
  pub lf : List TcpFlags
  pub rf : List TcpFlags
  pub explicit_flags : Bool
  pub max_failures : ℤ
  pub health_interval_ : ℤ
  pub health_interval : ℤ
  pub probe_timeout_ : ℤ
  pub probe_timeout : ℤ

abbrev pub is_nil {ℓ} : {A : Type ℓ} → List A → Bool
is_nil [] = true
is_nil (x ∷ xs) = false

abbrev pub or_pa : List Text → List Text
or_pa ss = if is_nil ss then codes "PA" ∷ [] else ss

unfoldable pub tcp_set_defaults : Tcp → Tcp
tcp_set_defaults t = record t {
  explicit_flags = not (is_nil t.lf_) || not (is_nil t.rf_);
  lf_ = or_pa t.lf_;
  rf_ = or_pa t.rf_;
  max_failures = or_default t.max_failures 3;
  health_interval_ = or_default t.health_interval_ 30;
  probe_timeout_ = or_default t.probe_timeout_ 8;
}

-- The loop over a list of combinations: on an error the flags before the letter are stored.
unfoldable pub parse_all : List Text → List TcpFlags
unfolding str_tcpf
parse_all [] = []
parse_all (s ∷ ss) = (str_tcpf s).flags ∷ parse_all ss

unfoldable pub parse_errors : List Text → List Error
unfolding str_tcpf
parse_errors [] = []
parse_errors (s ∷ ss) = check (not (is_nil (str_tcpf s).invalid)) invalid_flag ++ parse_errors ss

-- `if len(t.LF_) != 0 { t.LF = ... }`
abbrev pub parsed : List Text → List TcpFlags → List TcpFlags
parsed ss old = if is_nil ss then old else parse_all ss

unfoldable pub tcp_validate : Tcp → Checked Tcp
unfolding parse_all parse_errors seconds
tcp_validate t =
    let lf = parsed t.lf_ t.lf in
    let rf = parsed t.rf_ t.rf in
    record {
      value = record t {
        lf = lf;
        rf = rf;
        health_interval =
            if ltb_ℤ (pos 0) t.health_interval_
            then seconds t.health_interval_
            else t.health_interval;
        probe_timeout = seconds t.probe_timeout_;
      };
      errors =
          parse_errors t.lf_
          ++ (parse_errors t.rf_
              ++ (check (is_nil lf || is_nil rf) no_flag_combination
                  ++ (check (ltb_ℤ t.max_failures (pos 1)) max_failures_small
                      ++ check (ltb_ℤ t.probe_timeout_ (pos 2)) probe_timeout_small)));
    }
