-- ===== src/Conf/Runs.antt =====
-- A client's configuration, loaded with its defaults.
use paqet.Prelude.{◌≡◌, refl, [], none, some}
use paqet.Conf.{Env, validate_addr, Checked}
use paqet.Conf.Sample.{env, given}
use paqet.Conf.Whole.{Conf, set_defaults, validate}
use paqet.Conf.Ready.{IsSoundConf, validate-IsSoundConf, validate_panics}

defaulted : (c : Conf) × (set_defaults env none given ≡ some c)
unfolding set_defaults
defaulted = (_, refl)

validated : (r : Checked Conf) × (validate env defaulted.0 ≡ some r) × (r.errors ≡ [])
unfolding validate defaulted
validated = (_, refl, refl)

validate-IsSoundConf_example : IsSoundConf defaulted.0.role validated.0.value
validate-IsSoundConf_example =
    validate-IsSoundConf env defaulted.0 validated.0 validated.1 validated.2

-- The same client, where the server's name is not resolved.
abbrev lost : Env
lost = record env { resolve = λ t. none }

validate_panics_example : validate lost defaulted.0 ≡ none
unfolding defaulted validate_addr
validate_panics_example = validate_panics lost defaulted.0 refl refl
