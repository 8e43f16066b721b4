-- ===== src/Transport.antt =====
-- internal/tnet/kcp: a connection is a smux session on a KCP session on a packet connection. KCP
-- and smux are third-party: what their calls answer is an argument, and a session is here whether
-- it is open.
pub mod Pings
pub mod Tuned
mod Runs
use paqet.Prelude.{
  ℕ, Bool, true, false, not, ◌||◌, List, [], ◌∷◌, Option, none, some, ◌==◌, if◌then◌else◌,
}
use paqet.Prelude.Int.{ℤ, pos}
use paqet.Prelude.Text.{Text, codes, str_eq}
use paqet.Protocol.{Proto, zero_proto, Error, Result, ok, err, p_ping, p_pong, frame, read}
use paqet.Conf.Kcp.{Kcp}

-- What aplConf sets on a KCP session.
pub record Tuning : Type 0 where
  pub no_delay : ℤ
  pub interval : ℤ
  pub resend : ℤ
  pub no_congestion : ℤ
  pub write_delay : Bool
  pub ack_no_delay : Bool

abbrev pub fixed : ℕ → ℕ → Bool → Tuning
fixed no_delay interval slow = record {
  no_delay = pos no_delay;
  interval = pos interval;
  resend = pos 2;
  no_congestion = pos 1;
  write_delay = slow;
  ack_no_delay = not slow;
}

-- The variables as they are declared.
abbrev pub unset : Tuning
unset = record {
  no_delay = pos 0;
  interval = pos 0;
  resend = pos 0;
  no_congestion = pos 0;
  write_delay = false;
  ack_no_delay = false;
}

abbrev pub manual : Kcp → Tuning
manual k = record {
  no_delay = k.no_delay;
  interval = k.interval;
  resend = k.resend;
  no_congestion = k.no_congestion;
  write_delay = k.w_delay;
  ack_no_delay = k.ack_no_delay;
}

-- The switch over the mode.
unfoldable pub tuning_of : Kcp → Tuning
tuning_of k =
    if str_eq (codes "normal") k.mode
    then fixed 0 40 true
    else if str_eq (codes "fast") k.mode
    then fixed 0 30 true
    else if str_eq (codes "fast2") k.mode
    then fixed 1 20 false
    else if str_eq (codes "fast3") k.mode || str_eq (codes "auto") k.mode
    then fixed 1 10 false
    else if str_eq (codes "turbo") k.mode
    then fixed 1 10 false
    else if str_eq (codes "manual") k.mode
    then manual k
    else unset

pub record SessionConf : Type 0 where
  pub tuning : Tuning
  pub sndwnd : ℤ
  pub rcvwnd : ℤ
  pub mtu : ℤ
  pub dscp : ℤ

unfoldable pub apl_conf : Kcp → SessionConf
unfolding tuning_of
apl_conf k = record {
  tuning = tuning_of k;
  sndwnd = k.sndwnd;
  rcvwnd = k.rcvwnd;
  mtu = k.mtu;
  dscp = pos 46;
}

-- smux.Config, with the fields that smuxConf sets.
pub record SmuxConf : Type 0 where
  pub version : ℤ
  pub keep_alive_interval : ℤ
  pub keep_alive_timeout : ℤ
  pub max_frame_size : ℤ
  pub max_receive_buffer : ℤ
  pub max_stream_buffer : ℤ

unfoldable pub smux_conf : Kcp → SmuxConf
smux_conf k = record {
  version = pos 2;
  keep_alive_interval = k.smuxkalive;
  keep_alive_timeout = k.smuxktimeout;
  max_frame_size = pos 65535;
  max_receive_buffer = k.smuxbuf;
  max_stream_buffer = k.streambuf;
}

-- A stream of the session as Ping meets it: whether it opens, whether the write succeeds, and the
-- bytes that can be read until the deadline.
pub record Strm : Type 0 where
  pub opens : Bool
  pub writes : Bool
  pub reply : List ℕ

pub data PingResult : Type 0 where
  alive open_failed write_failed : PingResult
  encode_failed read_failed : Error → PingResult
  not_pong : ℕ → PingResult

abbrev check_pong : Proto × List ℕ × Option Error → PingResult
check_pong (p, r, some e) = read_failed e
check_pong (p, r, none) = if p.type == p_pong then alive else not_pong p.type

abbrev ping_message : Proto
ping_message = record zero_proto { type = p_ping }

abbrev ping_wait : Bool → List ℕ → Result (List ℕ) → List ℕ × PingResult
ping_wait writes reply (ok bs) =
    if writes then (bs, check_pong (read ping_message reply)) else ([], write_failed)
ping_wait writes reply (err e) = ([], encode_failed e)

-- Conn.Ping: what it writes, and what it returns.
unfoldable pub ping : Bool → Strm → List ℕ × PingResult
ping wait s =
    if s.opens
    then (if wait then ping_wait s.writes s.reply (frame ping_message) else ([], alive))
    else ([], open_failed)

-- What is open of a connection; a nil field of Conn is `none`.
pub record Conn : Type 0 where
  pub packet_conn : Option Bool
  pub udp_session : Option Bool
  pub session : Option Bool

abbrev closed_of : Option Bool → Option Bool
closed_of none = none
closed_of (some b) = some false

-- Conn.Close
unfoldable pub close : Conn → Conn
close c = record {
  packet_conn = closed_of c.packet_conn;
  udp_session = closed_of c.udp_session;
  session = closed_of c.session;
}

-- Dial on an open packet connection and Accept on a listener: whether kcp-go and smux give their
-- sessions. The result is what is open afterwards, and whether a Conn is returned.
unfoldable pub dial : Bool → Bool → Conn × Bool
dial kcp smux =
    if kcp
    then (if smux
        then (
          record { packet_conn = some true; udp_session = some true; session = some true },
          true,
        )
        else (record { packet_conn = some true; udp_session = some true; session = none }, false))
    else (record { packet_conn = some true; udp_session = none; session = none }, false)

unfoldable pub accept : Bool → Bool → Conn × Bool
accept kcp smux =
    if kcp
    then (if smux
        then (record { packet_conn = none; udp_session = some true; session = some true }, true)
        else (record { packet_conn = none; udp_session = some true; session = none }, false))
    else (record { packet_conn = none; udp_session = none; session = none }, false)
