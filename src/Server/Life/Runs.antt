-- ===== src/Server/Life/Runs.antt =====
-- A client connects and sends one stream that names a flag set; then the server is stopped.
use paqet.Prelude.{ℕ, ◌+◌, ◌≤◌, ◌≡◌, refl, length, true, false, List, [], ◌∷◌, none, All}
use paqet.Prelude.Int.{pos}
use paqet.Prelude.Assoc.{delete, insert}
use paqet.Flags.{no_flags}
use paqet.Protocol.{ok, p_tcpf, frame, read}
use paqet.Address.{UdpAddr, udp, ip_addr, to4, to16, big_endian}
use paqet.Send.{SendHandle, set_client_tcpf, clear_client_tcpf, observe_peer_syn}
use paqet.Server.{handle_strm}
use paqet.Server.Session.{SameAt}
use paqet.Server.Life.{
  ConnPhase, clearing, closing, Conn, StrmPhase, waiting, working, Strm, running, returned, World,
  start, Step, signal, look, accept, refuse, leave_failed, conn_look, conn_strm, conn_leave,
  conn_clear, conn_close, strm_handle, strm_close, return, Run, here, next, Traffic, quiet, steps,
  observes,
}
use paqet.Server.Life.Shutdown.{steps_left, shuts_down}
use paqet.Server.Life.Peers.{OtherConn, OtherAddr, Traffic-SameAt}

abbrev client : UdpAddr
client = record { ip = 10 ∷ 0 ∷ 0 ∷ 1 ∷ []; port = pos 443 }

abbrev handle : SendHandle
handle = record {
  src_ipv4 = 10 ∷ 0 ∷ 0 ∷ 2 ∷ [];
  src_ipv4_rhwa = 1 ∷ 2 ∷ 3 ∷ 4 ∷ 5 ∷ 6 ∷ [];
  src_ipv6 = [];
  src_ipv6_rhwa = [];
  src_mac = 6 ∷ 5 ∷ 4 ∷ 3 ∷ 2 ∷ 1 ∷ [];
  src_port = 9999;
  start_ms = 1000;
  ts_counter = 0;
  tcp_f = record { items = no_flags ∷ []; index = 0 };
  client_tcpf = [];
  conn_states = [];
}

framed :
    (bs : List ℕ) × (frame
        (record { type = p_tcpf; addr = none; tcpf = record no_flags { syn = true } ∷ [] })
      ≡ ok bs)
unfolding frame
framed = (_, refl)

abbrev conn : ConnPhase → Conn
conn p = record { remote = udp client; phase = p; cleared = false; closed = false }

abbrev cleared : Conn
cleared = record { remote = udp client; phase = closing; cleared = true; closed = false }

abbrev stream : StrmPhase → Strm
stream p = record {
  remote = udp client;
  bytes = framed.0;
  phase = p;
  handled = false;
  closed = false;
}

abbrev handled : Strm
handled = record {
  remote = udp client;
  bytes = framed.0;
  phase = working;
  handled = true;
  closed = false;
}

-- Up to the signal.
served : (w : World) × Run (start handle) 7 w
unfolding start handle_strm framed set_client_tcpf ip_addr to4 to16 big_endian frame read
served = (
  _,
  (next
      (next
        (next
          (next
            (next (next (next here refl (look refl refl)) refl (accept (udp client) refl)) refl
              (conn_look 0 (conn ConnPhase.looking) refl refl refl))
            refl (conn_strm 0 (conn ConnPhase.accepting) framed.0 refl refl))
          refl (strm_handle 0 (stream waiting) refl refl (λ e. cc)))
        refl (look refl refl))
      refl (signal refl)),
)

-- From there to the return.
stopped : (w : World) × Run (start handle) 14 w
unfolding served start handle_strm framed clear_client_tcpf set_client_tcpf ip_addr to4 to16
    big_endian frame read
stopped = (
  _,
  (next
      (next
        (next
          (next
            (next
              (next (next served.1 refl (conn_leave 0 (conn ConnPhase.looking) refl refl refl)) refl
                (refuse refl))
              refl (leave_failed refl refl))
            refl (conn_clear 0 (conn clearing) _ refl refl refl))
          refl (strm_close 0 handled refl refl))
        refl (conn_close 0 cleared refl refl))
      refl (return refl)),
)

is_cancelled : served.0.cancelled ≡ true
unfolding served start
is_cancelled = refl

refused : (w : World) × Run served.0 1 w
unfolding served start
refused = (_, next here refl (refuse refl))

shuts_down_example :
    (1 + steps_left refused.0 ≤ steps_left served.0)
    × (refused.0.status ≡ running → (v : World) × Step refused.0 v)
shuts_down_example = shuts_down handle 7 served.0 served.1 is_cancelled 1 refused.0 refused.1

-- A client connects, and a SYN from another address is observed.
abbrev scanner : UdpAddr
scanner = record { ip = 10 ∷ 0 ∷ 0 ∷ 9 ∷ []; port = pos 80 }

busy : (w : World) × Traffic (start handle) (scanner ∷ []) w
unfolding start observe_peer_syn ip_addr to4 to16 big_endian
busy = (
  _,
  observes scanner 41 1 2 _
      (steps (steps (steps quiet refl (look refl refl)) refl (accept (udp client) refl)) refl
        (conn_look 0 (conn ConnPhase.looking) refl refl refl))
      refl,
)

other_conns : All (OtherConn 5) busy.0.conns
unfolding busy start ip_addr to4 to16 big_endian
other_conns = ((client, 10995116343739, refl, refl, refl), tt)

other_addrs : All (OtherAddr 5) (scanner ∷ [])
unfolding ip_addr to4 to16 big_endian
other_addrs = ((scanner, _, refl, refl, refl), tt)

Traffic-SameAt_example : SameAt 5 handle busy.0.send
Traffic-SameAt_example =
    Traffic-SameAt 5 handle (scanner ∷ []) busy.0 busy.1 other_conns other_addrs

-- The same, where the stream is handled only when its connection has been cleared: what it names
-- is left when Start has returned.
late : (w : World) × Run (start handle) 14 w
unfolding start handle_strm framed clear_client_tcpf set_client_tcpf ip_addr to4 to16 big_endian
    frame read
late = (
  _,
  (next
      (next
        (next
          (next
            (next
              (next
                (next
                  (next
                    (next
                      (next
                        (next
                          (next
                            (next (next here refl (look refl refl)) refl (accept (udp client) refl))
                            refl (conn_look 0 (conn ConnPhase.looking) refl refl refl))
                          refl (conn_strm 0 (conn ConnPhase.accepting) framed.0 refl refl))
                        refl (look refl refl))
                      refl (signal refl))
                    refl (conn_leave 0 (conn ConnPhase.looking) refl refl refl))
                  refl (conn_clear 0 (conn clearing) _ refl refl refl))
                refl (conn_close 0 cleared refl refl))
              refl (strm_handle 0 (stream waiting) refl refl (λ e. cc)))
            refl (strm_close 0 handled refl refl))
          refl (refuse refl))
        refl (leave_failed refl refl))
      refl (return refl)),
)

late_entry : (late.0.status ≡ returned) × (length late.0.send.client_tcpf ≡ 1)
unfolding delete insert late start handle_strm framed clear_client_tcpf set_client_tcpf ip_addr to4
    to16 big_endian frame read
late_entry = (refl, refl)
