-- ===== src/Command/Runs.antt =====
-- A client with two forwards, of which the second has no protocol that exists.
use paqet.Prelude.{◌≡◌, refl, true, false, [], ◌∷◌, none, some}
use paqet.Prelude.Int.{pos}
use paqet.Prelude.Text.{codes}
use paqet.Conf.{Env, Forward}
use paqet.Conf.Sample.{env, given}
use paqet.Conf.Whole.{Conf, set_defaults, validate, load, loaded}
use paqet.Command.{
  Outside, tcp, unsupported, forward_start, start_forwards, start_client, client, run,
}

abbrev parses : Env
parses = record env {
  split_host_port = λ t. some (codes "10.0.0.9", codes "22");
  atoi = λ t. some (pos 22);
}

abbrev forward : Forward
forward = record {
  listen_ = codes "127.0.0.1:22";
  target_ = codes "10.0.0.9:22";
  protocol = codes "tcp";
  listen = none;
  target = none;
}

abbrev forwards : Conf
forwards = record given { forward = forward ∷ record forward { protocol = codes "tpc" } ∷ [] }

loads : (c : Conf) × (load parses none forwards ≡ loaded c)
unfolding load set_defaults validate
loads = (_, refl)

abbrev fine : Outside
fine = record { server_fails = false; creates = λ i. true }

half_started : run fine (loaded loads.0) ≡ client (tcp ∷ unsupported ∷ []) 1
unfolding loads load set_defaults validate run start_client start_forwards forward_start
half_started = refl
