-- ===== src/Client/Runs.antt =====
-- A client whose second combination works, its reconnects, and its UDP pairs.
use paqet.Prelude.{ℕ, zero, suc, ◌≤◌, ◌≡◌, refl, true, false, List, [], ◌∷◌, none, some, arith}
use paqet.Prelude.Int.{pos}
use paqet.Cycler.{FlagCycler, pair, pa, a, sa}
use paqet.Client.{Probe, handshake_fails, connects, World, mark, new_timed_conn}
use paqet.Client.Startup.{Startup, first_pass, new_timed_conn_lem}
use paqet.Client.Reconnect.{Live, Act, dies, reconnects, installs, act, acts}
use paqet.Cycler.{fail, succeed}
use paqet.Client.{create_conn, dial_kcp_only}
use paqet.Client.Reconnect.{reconnect, install, health_fails}
use paqet.Client.Reconnect.Health.{
  Event, cancels, stops, closes, ticks, no_pong, installs_conn, reconnects_with, start_health_check,
  step, failures,
}
use paqet.Client.UdpPool
use paqet.Client.UdpPool.{Pool, Udp, strm, written, udp, opens, gives_up, stores, deletes}
use paqet.Client.UdpPool.Strays.{HasNoStray, acts-HasNoStray}
use paqet.Client.Verify.{Attempt, attempt_dur}
use paqet.Prelude.Text.{codes}
use paqet.Prelude.{◌++◌}
use paqet.Prelude.Int.{u16_of_ℤ}
use paqet.Iterator.{next, slot}
use paqet.Protocol.{Addr}
use paqet.Conf.{Env, new_addr, ok}
use paqet.Address.{other}
use paqet.Send.{SendHandle}
use paqet.Server.{handle_strm, tcp}
use paqet.Client.Streams
use paqet.Client.Streams.{Client, Turn, Strm, new_strm}
use paqet.Client.Streams.Retry.{Gives, new_strm-Gives}
use paqet.Client.Streams.Header.{tcp-handle_strm}

abbrev three : FlagCycler
three = record {
  combos = pair pa pa ∷ pair a pa ∷ pair sa sa ∷ [];
  idx = 0;
  failures = 0;
  max_failures = pos 2;
}

abbrev works : Probe
works = record { dial = connects; verified = true }

-- The first handshake fails; the next combination is verified.
abbrev world : World
world zero flags = record { dial = handshake_fails; verified = false }
world (suc i) flags = works

second : first_pass world 0 three.combos ≡ some 1
unfolding first_pass
second = refl

new_timed_conn_lem_example :
    Startup three (pair pa pa) world (first_pass world 0 three.combos) (new_timed_conn three world)
new_timed_conn_lem_example = new_timed_conn_lem three (pair pa pa) world refl refl refl

-- Connection 0 is current and open.
abbrev live : Live
live = record { cycler = three; current = 0; made = 1; closed = λ i. false; pending = λ i. false }

-- Two goroutines race to reconnect.
abbrev race : List Act
race = dies 0 ∷ reconnects works ∷ reconnects works ∷ installs 2 ∷ installs 1 ∷ []

race_ends : ((acts live race).current ≡ 2) × ((acts live race).closed 1 ≡ true)
unfolding acts act reconnect install create_conn dial_kcp_only
race_ends = (refl, refl)

abbrev dead : Live
dead = record live { closed = mark live.closed 0 }

abbrev empty : Pool
empty = record { strms = λ k. none; opened = 0; closed = λ i. false; pending = λ i. false }

empty-HasNoStray : HasNoStray empty
empty-HasNoStray = record {
  held = λ i h c d. absurd (omega (arith, h));
  pooled_open = λ k i e. cc;
  pooled_done = λ k i e. cc;
  pooled_old = λ k i e. cc;
  one_key = λ j k i e f. cc;
  pending_old = λ i e. cc;
  pending_open = λ i e. cc;
  closed_old = λ i e. cc;
}

-- Another goroutine opens a stream for the same pair and stores it first.
abbrev others : List UdpPool.Act
others = opens ∷ stores 4 1 ∷ []

acts-HasNoStray_example :
    HasNoStray (UdpPool.acts empty (opens ∷ opens ∷ stores 4 1 ∷ stores 4 0 ∷ deletes 4 ∷ []))
acts-HasNoStray_example =
    acts-HasNoStray (opens ∷ opens ∷ stores 4 1 ∷ stores 4 0 ∷ deletes 4 ∷ []) empty
      empty-HasNoStray

-- The first ping is lost, the second answered.
abbrev pings : ℕ → Attempt
pings zero = record { to_until = 2; to_deadline = 3; takes = 9000000000; answers = false }
pings (suc i) = record { to_until = 0; to_deadline = 1; takes = 80000000; answers = true }

lost : (j : ℕ) → (pings j).answers ≡ false → attempt_dur ≤ (pings j).takes
lost zero e = omega arith
lost (suc j) e = cc

-- Of two timedConns, the first is dead and cannot reconnect.
abbrev client : Client
client = record {
  iter = record { items = 0 ∷ 1 ∷ []; index = 0 };
  conns = λ i. elim i [ zero ↦ record live { closed = λ i. true } | suc j ↦ live ];
}

abbrev turns : ℕ → Turn
turns i = record { probe = record { dial = handshake_fails; verified = false }; opens = true }

new_strm-Gives_example : Gives (new_strm turns client)
new_strm-Gives_example =
    new_strm-Gives turns client 1 1 (omega arith) (omega arith) (omega arith) (omega arith) refl
      refl refl

stream : (c : Client) × (new_strm turns client ≡ some (c, some (1, 0)))
unfolding new_strm next slot
stream = (_, refl)

abbrev env : Env
env = record {
  resolve = λ t. none;
  interface_by_name = λ t. none;
  is_windows = false;
  parse_mac = λ t. none;
  split_host_port = λ t. some (codes "example.org", codes "443");
  atoi = λ t. some (pos 443);
  print_addr = λ ip port. [];
  print_mac = λ mac. [];
  pbkdf2 = λ key. [];
  builds = λ c key. true;
}

abbrev target : Addr
target = record { host = codes "example.org"; port = pos 443 }

is_target : new_addr env (codes "example.org:443") ≡ ok target
unfolding new_addr
is_target = refl

abbrev handle : SendHandle
handle = record {
  src_ipv4 = [];
  src_ipv4_rhwa = [];
  src_ipv6 = [];
  src_ipv6_rhwa = [];
  src_mac = [];
  src_port = 443;
  start_ms = 0;
  ts_counter = 0;
  tcp_f = record { items = []; index = 0 };
  client_tcpf = [];
  conn_states = [];
}

tcp-handle_strm_example :
    (bs : List ℕ) × (Streams.tcp env turns (codes "example.org:443") true client
      ≡ some (stream.0, Streams.strm (1, 0) bs))
    × (handle_strm handle other (bs ++ (71 ∷ [])) ≡ record {
      send = handle;
      written = [];
      outcome = tcp (record { host = target.host; port = pos (u16_of_ℤ target.port) });
    })
tcp-handle_strm_example =
    tcp-handle_strm env turns (codes "example.org:443") target client stream.0 (1, 0) handle other
      (71 ∷ []) stream.1 is_target (omega arith)

-- The health check finds the connection dead twice, with a reconnect in between.
abbrev checked : List Event
checked =
    ticks
    ∷ no_pong
    ∷ ticks
    ∷ no_pong
    ∷ reconnects_with works
    ∷ installs_conn 1
    ∷ ticks
    ∷ no_pong
    ∷ cancels
    ∷ closes
    ∷ stops
    ∷ []

checked_failures : failures (start_health_check (pos 10) live) checked ≡ 0 ∷ 1 ∷ []
unfolding failures start_health_check step health_fails reconnect install create_conn fail succeed
    dial_kcp_only
checked_failures = refl
