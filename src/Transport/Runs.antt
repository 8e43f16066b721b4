-- ===== src/Transport/Runs.antt =====
-- A ping of a fresh server.
use paqet.Prelude.{◌≡◌, ◌↔◌, true, [], ◌∷◌}
use paqet.Protocol.{p_pong}
use paqet.Send.{SendHandle}
use paqet.Address.{other}
use paqet.Transport.{Strm, alive, ping}
use paqet.Transport.Pings.{IsReply, answer, ping_lem}
use paqet.Prelude.{none, refl, false, replicate}
use paqet.Prelude.Int.{pos}
use paqet.Prelude.Text.{codes}
use paqet.Conf.{Env}
use paqet.Conf.Kcp.{Kcp, kcp_validate, new_block}

abbrev handle : SendHandle
handle = record {
  src_ipv4 = 10 ∷ 0 ∷ 0 ∷ 1 ∷ [];
  src_ipv4_rhwa = [];
  src_ipv6 = [];
  src_ipv6_rhwa = [];
  src_mac = [];
  src_port = 443;
  start_ms = 0;
  ts_counter = 0;
  tcp_f = record { items = []; index = 0 };
  client_tcpf = [];
  conn_states = [];
}

abbrev strm : Strm
strm = record { opens = true; writes = true; reply = p_pong ∷ 9 ∷ [] }

ping_lem_example :
    (((ping true strm).1 ≡ alive)
      ↔ ((strm.opens ≡ true) × (strm.writes ≡ true) × IsReply strm.reply))
    × ((ping true (answer handle other)).1 ≡ alive)
ping_lem_example = ping_lem strm handle other

abbrev env : Env
env = record {
  resolve = λ t. none;
  interface_by_name = λ t. none;
  is_windows = false;
  parse_mac = λ t. none;
  split_host_port = λ t. none;
  atoi = λ t. none;
  print_addr = λ ip port. [];
  print_mac = λ mac. [];
  pbkdf2 = λ key. replicate 32 7;
  builds = λ c key. true;
}

abbrev kcp : Kcp
kcp = record {
  mode = codes "fast3";
  no_delay = pos 0;
  interval = pos 0;
  resend = pos 0;
  no_congestion = pos 0;
  w_delay = false;
  ack_no_delay = false;
  mtu = pos 1350;
  rcvwnd = pos 512;
  sndwnd = pos 512;
  dshard = pos 0;
  pshard = pos 0;
  block_ = codes "aes";
  key = codes "secret";
  smuxbuf = pos 4194304;
  streambuf = pos 2097152;
  smuxkalive_ = pos 2;
  smuxktimeout_ = pos 8;
  smuxkalive = pos 0;
  smuxktimeout = pos 0;
  block = none;
}

validates : (kcp_validate env kcp).errors ≡ []
unfolding kcp_validate new_block
validates = refl
