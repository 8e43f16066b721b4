-- ===== src/Conf/Sample.antt =====
-- A client's configuration, for the tests of internal/conf and cmd/run.
use paqet.Prelude.{true, false, [], ◌∷◌, none, some, replicate}
use paqet.Prelude.Int.{pos}
use paqet.Prelude.Text.{codes}
use paqet.Conf.{Env}
use paqet.Conf.Kcp.{Kcp}
use paqet.Conf.Tcp.{Tcp}
use paqet.Conf.Network.{Network, Interface}
use paqet.Conf.Whole.{Conf}

abbrev pub env : Env
env = record {
  resolve = λ t. some (record { ip = 10 ∷ 0 ∷ 0 ∷ 1 ∷ []; port = pos 9999 });
  interface_by_name = λ t. some 2;
  is_windows = false;
  parse_mac = λ t. some (1 ∷ 2 ∷ 3 ∷ 4 ∷ 5 ∷ 6 ∷ []);
  split_host_port = λ t. none;
  atoi = λ t. none;
  print_addr = λ ip port. codes "10.0.0.2:0";
  print_mac = λ mac. codes "01:02:03:04:05:06";
  pbkdf2 = λ key. replicate 32 7;
  builds = λ c key. true;
}

-- Nothing is set but the key.
abbrev pub kcp : Kcp
kcp = record {
  mode = [];
  no_delay = pos 0;
  interval = pos 0;
  resend = pos 0;
  no_congestion = pos 0;
  w_delay = false;
  ack_no_delay = false;
  mtu = pos 0;
  rcvwnd = pos 0;
  sndwnd = pos 0;
  dshard = pos 0;
  pshard = pos 0;
  block_ = [];
  key = codes "secret";
  smuxbuf = pos 0;
  streambuf = pos 0;
  smuxkalive_ = pos 0;
  smuxktimeout_ = pos 0;
  smuxkalive = pos 0;
  smuxktimeout = pos 0;
  block = none;
}

abbrev pub tcp : Tcp
tcp = record {
  lf_ = [];
  rf_ = codes "SA" ∷ [];
  lf = [];
  rf = [];
  explicit_flags = false;
  max_failures = pos 0;
  health_interval_ = pos 0;
  health_interval = pos 0;
  probe_timeout_ = pos 0;
  probe_timeout = pos 0;
}

abbrev pub no_interface : Interface
no_interface = record { addr_ = []; router_mac_ = []; addr = none; router = none }

abbrev pub network : Network
network = record {
  interface_ = codes "eth0";
  guid = [];
  ipv4 = record no_interface {
    addr_ = codes "10.0.0.2:0";
    router_mac_ = codes "01:02:03:04:05:06";
  };
  ipv6 = no_interface;
  pcap = record { sockbuf = pos 0 };
  tcp = tcp;
  interface = none;
  port = pos 0;
}

abbrev pub given : Conf
given = record {
  role = codes "client";
  log = record { level_ = []; level = pos 0 };
  listen = record { addr_ = []; addr = none };
  socks5 =
      record { listen_ = codes "127.0.0.1:1080"; username = []; password = []; listen = none } ∷ [];
  forward = [];
  network = network;
  server = record { addr_ = codes "10.0.0.1:9999"; addr = none };
  transport = record {
    protocol = codes "kcp";
    conn = pos 0;
    tcpbuf = pos 0;
    udpbuf = pos 0;
    kcp = some kcp;
  };
}
