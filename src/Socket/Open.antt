-- ===== src/Socket/Open.antt =====
-- Opening and closing: New and Close (internal/socket/socket.go), newHandle (handle.go),
-- NewSendHandle (send_handle.go), NewRecvHandle and its filter (recv_handle.go). The calls of pcap
-- are recorded in order, and the world answers each; what a handle is good for stays outside.
pub mod Handles
use paqet.Prelude.{
  ℕ, ◌+◌, ◌-◌, ◌%◌, Bool, true, false, not, List, [], ◌∷◌, ◌++◌, Option, none, some, ◌==◌,
  if◌then◌else◌, length, u32,
}
use paqet.Prelude.Int.{ℤ, pos, u16_of_ℤ, is_ℕ}
use paqet.Prelude.Text.{Text, codes}
use paqet.Address.{UdpAddr}
use paqet.Send.{SendHandle}
use paqet.Conf.Network.{Interface, Network}

pub data Call : Type 0 where
  new_inactive_handle set_bpf_filter : Text → Call
  set_buffer_size : ℤ → Call
  set_snap_len set_timeout_ms : ℕ → Call
  set_promisc set_immediate_mode : Bool → Call
  activate set_direction_in set_direction_out : Call

-- `inactive`, `opened` and `closed` count handles.
pub record Pcap : Type 0 where
  pub calls : List Call
  pub inactive : ℕ
  pub opened : ℕ
  pub closed : ℕ

-- What is outside the configuration: the answer to call n, the system, the network interface, how
-- an IP is printed, the clock in milliseconds, and the random number of New.
pub record World : Type 0 where
  pub answers : ℕ → Bool
  pub is_windows : Bool
  pub name : Text
  pub hardware_addr : List ℕ
  pub ip_string : List ℕ → Text
  pub print : ℤ → Text
  pub now_ms : ℕ
  pub random : ℕ

-- Calls until one fails.
unfoldable pub run_calls : World → List Call → Pcap → Bool × Pcap
run_calls w [] p = (true, p)
run_calls w (c ∷ cs) p =
    let p' = record p { calls = p.calls ++ (c ∷ []) } in
    let rest = run_calls w cs p' in if w.answers (length p.calls) then rest else (false, p')

abbrev pub device : World → Network → Call
device w n = new_inactive_handle (if w.is_windows then n.guid else w.name)

abbrev pub settings : Network → List Call
settings n =
    set_buffer_size n.pcap.sockbuf
    ∷ set_snap_len 65536
    ∷ set_promisc false
    ∷ set_timeout_ms 1000
    ∷ set_immediate_mode true
    ∷ activate
    ∷ []

-- The deferred CleanUp, and the handle that Activate gave.
abbrev pub activated : Bool × Pcap → Bool × Pcap
activated (true, p) = (true, record p { inactive = p.inactive - 1; opened = p.opened + 1 })
activated (false, p) = (false, record p { inactive = p.inactive - 1 })

abbrev pub with_inactive : World → Network → Bool × Pcap → Bool × Pcap
with_inactive w n (true, p) =
    activated (run_calls w (settings n) (record p { inactive = p.inactive + 1 }))
with_inactive w n (false, p) = (false, p)

unfoldable pub new_handle : World → Network → Pcap → Bool × Pcap
unfolding run_calls
new_handle w n p = with_inactive w n (run_calls w (device w n ∷ []) p)

-- The calls on a new handle.
abbrev pub then_calls : World → List Call → Bool × Pcap → Bool × Pcap
then_calls w cs (true, p) = run_calls w cs p
then_calls w cs (false, p) = (false, p)

abbrev pub direction : World → Call → List Call
direction w c = if w.is_windows then [] else c ∷ []

abbrev ip_of : Interface → List ℕ
ip_of i = elim i.addr [ some a ↦ a.ip | none ↦ [] ]

abbrev router_of : Interface → List ℕ
router_of i = elim i.addr [ some a ↦ elim i.router [ some m ↦ m | none ↦ [] ] | none ↦ [] ]

-- The fields of a new SendHandle.
unfoldable pub send_handle_of : World → Network → SendHandle
send_handle_of w n = record {
  src_ipv4 = ip_of n.ipv4;
  src_ipv4_rhwa = router_of n.ipv4;
  src_ipv6 = ip_of n.ipv6;
  src_ipv6_rhwa = router_of n.ipv6;
  src_mac = w.hardware_addr;
  src_port = u16_of_ℤ n.port;
  start_ms = u32 w.now_ms;
  ts_counter = 0;
  tcp_f = record { items = n.tcp.lf; index = 0 };
  client_tcpf = [];
  conn_states = [];
}

unfoldable pub new_send_handle : World → Network → Pcap → Bool × Pcap
unfolding new_handle
new_send_handle w n p = then_calls w (direction w set_direction_out) (new_handle w n p)

abbrev host : World → Interface → List Text
host w i = elim i.addr [ some a ↦ (codes "dst host " ++ w.ip_string a.ip) ∷ [] | none ↦ [] ]

abbrev join_or : List Text → Text
join_or [] = []
join_or (h ∷ []) = h
join_or (h ∷ k ∷ hs) = h ++ (codes " or " ++ join_or (k ∷ hs))

abbrev with_hosts : Text → List Text → Text
with_hosts base [] = base
with_hosts base (h ∷ []) = base ++ (codes " and " ++ h)
with_hosts base (h ∷ k ∷ hs) = base ++ (codes " and (" ++ (join_or (h ∷ k ∷ hs) ++ codes ")"))

-- buildBPFFilter
unfoldable pub build_bpf_filter : World → Network → Text
build_bpf_filter w n =
    with_hosts (codes "tcp and dst port " ++ w.print n.port) (host w n.ipv4 ++ host w n.ipv6)

unfoldable pub new_recv_handle : World → Network → Pcap → Bool × Pcap
unfolding new_handle
new_recv_handle w n p =
    then_calls w (direction w set_direction_in ++ (set_bpf_filter (build_bpf_filter w n) ∷ []))
      (new_handle w n p)

-- A port of its own, where none is configured: rand.Intn(32768) is below 32768.
abbrev pub with_port : World → Network → Network
with_port w n = if is_ℕ n.port 0 then record n { port = pos (32768 + w.random % 32768) } else n

abbrev pub after_send : World → Network → Bool × Pcap → Option SendHandle × Pcap
after_send w n (true, p) =
    let (ok, p') = new_recv_handle w n p in (if ok then some (send_handle_of w n) else none, p')
after_send w n (false, p) = (none, p)

-- New: the configuration, whose port it may set, with the send handle of the PacketConn or an
-- error.
unfoldable pub new : World → Network → Pcap → Network × Option SendHandle × Pcap
unfolding new_send_handle new_recv_handle send_handle_of
new w n p =
    let n' = with_port w n in let (h, p') = after_send w n' (new_send_handle w n' p) in (n', h, p')

-- Close of a PacketConn, whose two handles are there.
unfoldable pub close : Pcap → Pcap
close p = record p { closed = p.closed + 2 }
