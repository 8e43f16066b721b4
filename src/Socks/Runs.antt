-- ===== src/Socks/Runs.antt =====
-- The reply on an IPv4 address mapped into IPv6.
use paqet.Prelude.{ℕ, ◌≡◌, refl, true, false, List, [], ◌∷◌, ◌++◌, none, some, arith}
use paqet.Prelude.Int.{pos}
use paqet.Prelude.Text.{codes}
use paqet.Conf.{Env}
use paqet.Client.{handshake_fails}
use paqet.Client.Reconnect.{Live}
use paqet.Client.Streams.{Client, Turn}
use paqet.Socks.{TcpAddr, tcp_handle, udp_associate, connect}
use paqet.Socks.Wait.{Associate, associate, Run, here, next, cancel, copied, force, drain, returned}
use paqet.Socks.Reply.{decode, expected, decode-tcp_handle}

abbrev live : Live
live = record {
  cycler = record { combos = []; idx = 0; failures = 0; max_failures = pos 2 };
  current = 0;
  made = 1;
  closed = λ i. false;
  pending = λ i. false;
}

abbrev client : Client
client = record { iter = record { items = 0 ∷ []; index = 0 }; conns = λ i. live }

abbrev turns : ℕ → Turn
turns i = record { probe = record { dial = handshake_fails; verified = false }; opens = true }

abbrev env : Env
env = record {
  resolve = λ t. none;
  interface_by_name = λ t. none;
  is_windows = false;
  parse_mac = λ t. none;
  split_host_port = λ t. none;
  atoi = λ t. none;
  print_addr = λ ip port. [];
  print_mac = λ mac. [];
  pbkdf2 = λ key. [];
  builds = λ c key. true;
}

abbrev laddr : TcpAddr
laddr = record {
  ip = 0 ∷ 0 ∷ 0 ∷ 0 ∷ 0 ∷ 0 ∷ 0 ∷ 0 ∷ 0 ∷ 0 ∷ 255 ∷ 255 ∷ 127 ∷ 0 ∷ 0 ∷ 1 ∷ [];
  port = 1080;
}

abbrev tail : List ℕ
tail = 1 ∷ 2 ∷ []

decode-tcp_handle_example :
    (decode ((tcp_handle (λ ip. codes "::") env turns true true client connect laddr []).0 ++ tail)
      ≡ some (expected (λ ip. codes "::") laddr.ip, laddr.port, tail))
    × (decode (
          (tcp_handle (λ ip. codes "::") env turns true true client udp_associate laddr []).0
          ++ tail)
        ≡ some (expected (λ ip. codes "::") laddr.ip, laddr.port, tail))
decode-tcp_handle_example =
    decode-tcp_handle (λ ip. codes "::") env turns true client laddr [] tail (omega arith)
      (omega arith)

-- A shutdown while the connection is open.
stopped : (a : Associate) × Run (associate false) 4 a
unfolding associate
stopped = (
  _,
  next (next (next (next here (cancel refl)) (force refl refl)) (copied refl)) (drain refl refl),
)

is_stopped : (stopped.0.phase ≡ returned) × (stopped.0.conn_open ≡ false)
unfolding stopped associate
is_stopped = (refl, refl)
