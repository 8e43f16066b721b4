-- ===== src/Socket/Open/Handles.antt =====
-- What New leaves open.
use paqet.Prelude.{
  ℕ, ◌+◌, ◌%◌, ◌^◌, ◌≤◌, ◌≡◌, Bool, true, false, List, [], ◌∷◌, ◌++◌, Option, none, some,
  if◌then◌else◌,
}
use paqet.Prelude.Text.{Text, codes}
use paqet.Address.{UdpAddr}
use paqet.Send.{SendHandle}
use paqet.Conf.Network.{Interface, Network}
use paqet.Prelude.Int.{u16_of_ℤ}
use paqet.Socket.Open.{
  Call, new_inactive_handle, set_buffer_size, set_snap_len, set_promisc, set_timeout_ms,
  set_immediate_mode, activate, set_bpf_filter, set_direction_in, set_direction_out, Pcap, World,
  close,
}

-- More calls, and more handles that Activate gave.
abbrev pub grown : Pcap → List Call → ℕ → Pcap
grown p cs k = record p { calls = p.calls ++ cs; opened = p.opened + k }

-- All of the calls were made and k handles opened; or it failed, with at most k handles opened.
abbrev pub Grown : Pcap → List Call → ℕ → Bool × Pcap → Type 0
Grown p cs k (true, p') = p' ≡ grown p cs k
Grown p cs k (false, p') = (ds : List Call) × (j : ℕ) × (j ≤ k) × (p' ≡ grown p ds j)

-- The calls that make and activate a handle.
abbrev pub handle_calls : World → Network → List Call
handle_calls w n =
    new_inactive_handle (if w.is_windows then n.guid else w.name)
    ∷ set_buffer_size n.pcap.sockbuf
    ∷ set_snap_len 65536
    ∷ set_promisc false
    ∷ set_timeout_ms 1000
    ∷ set_immediate_mode true
    ∷ activate
    ∷ []

-- The filter of a receiving handle with these addresses: TCP to the port and to one of them.
abbrev pub filter : World → Text → Option UdpAddr → Option UdpAddr → Text
filter w port none none = codes "tcp and dst port " ++ port
filter w port (some a) none =
    codes "tcp and dst port " ++ (port ++ (codes " and dst host " ++ w.ip_string a.ip))
filter w port none (some b) =
    codes "tcp and dst port " ++ (port ++ (codes " and dst host " ++ w.ip_string b.ip))
filter w port (some a) (some b) =
    codes "tcp and dst port "
    ++ (port
        ++ (codes " and (dst host "
            ++ (w.ip_string a.ip ++ (codes " or dst host " ++ (w.ip_string b.ip ++ codes ")")))))

abbrev pub send_calls : World → Network → List Call
send_calls w n = handle_calls w n ++ (if w.is_windows then [] else set_direction_out ∷ [])

abbrev pub recv_calls : World → Network → List Call
recv_calls w n =
    handle_calls w n
    ++ ((if w.is_windows then [] else set_direction_in ∷ [])
        ++ (set_bpf_filter (filter w (w.print n.port) n.ipv4.addr n.ipv6.addr) ∷ []))

-- An address and a MAC of a handle are those of the configuration's interface, where it has them.
abbrev pub Sends : Interface → List ℕ → List ℕ → Type 0
Sends i ip mac =
    (i.addr ≡ none → (ip ≡ []) × (mac ≡ []))
    × ((a : UdpAddr) → i.addr ≡ some a → ip ≡ a.ip)
    × ((a : UdpAddr) (m : List ℕ) → i.addr ≡ some a → i.router ≡ some m → mac ≡ m)

-- A new send handle of the configuration, with its two maps empty.
pub record IsNew (w : World) (n : Network) (h : SendHandle) : Type 0 where
  pub ipv4 : Sends n.ipv4 h.src_ipv4 h.src_ipv4_rhwa
  pub ipv6 : Sends n.ipv6 h.src_ipv6 h.src_ipv6_rhwa
  pub mac : h.src_mac ≡ w.hardware_addr
  pub port : h.src_port ≡ u16_of_ℤ n.port
  pub start : h.start_ms ≡ w.now_ms % 2 ^ 32
  pub counter : h.ts_counter ≡ 0
  pub flags : (h.tcp_f.items ≡ n.tcp.lf) × (h.tcp_f.index ≡ 0)
  pub maps : (h.client_tcpf ≡ []) × (h.conn_states ≡ [])

-- What New comes to with a configuration that has a port.
abbrev pub Opened : World → Network → Pcap → Option SendHandle → Pcap → Type 0
Opened w n p (some h) p' =
    IsNew w n h
    × (p' ≡ grown p (send_calls w n ++ recv_calls w n) 2)
    × (close p' ≡ record (grown p (send_calls w n ++ recv_calls w n) 2) { closed = p.closed + 2 })
Opened w n p none p' = (ds : List Call) × (j : ℕ) × (j ≤ 2) × (p' ≡ grown p ds j)
