-- ===== src/Socks.antt =====
-- internal/socks: the reply to a SOCKS5 request in handleTCPConnect (tcp_handle.go) and
-- handleUDPAssociate (udp_handle.go), and TCPHandle up to the relay (see Relay). What IP.String
-- prints is an argument.
pub mod Reply
pub mod Wait
mod Runs
use paqet.Prelude.{
  ℕ, zero, suc, ◌+◌, ◌-◌, ◌*◌, ◌/◌, ◌%◌, Bool, true, false, List, [], ◌∷◌, ◌++◌, Option, none, some,
  ◌==◌, if◌then◌else◌, length, u8,
}
use paqet.Prelude.Int.{ℤ, pos}
use paqet.Prelude.Text.{Text}
use paqet.Prelude.Maybe.{◌>>=◌}
use paqet.Address.{to4, to16}
use paqet.Conf.{Env}
use paqet.Client.Streams
use paqet.Client.Streams.{Client, Turn, Strm, Tcp}

-- net.TCPAddr, with a port that is not negative.
pub record TcpAddr : Type 0 where
  pub ip : List ℕ
  pub port : ℕ

abbrev pub atyp_ipv4 : ℕ
atyp_ipv4 = 1

abbrev pub atyp_domain : ℕ
atyp_domain = 3

abbrev pub atyp_ipv6 : ℕ
atyp_ipv6 = 4

abbrev address_16 : Option (List ℕ) → List ℕ → List ℕ
address_16 (some ip6) host = atyp_ipv6 ∷ ip6
address_16 none host = atyp_domain ∷ u8 (length host) ∷ host

abbrev address_of : Option (List ℕ) → Option (List ℕ) → List ℕ → List ℕ
address_of (some ip4) ip16 host = atyp_ipv4 ∷ ip4
address_of none ip16 host = address_16 ip16 host

-- The reply of handleTCPConnect and of handleUDPAssociate to a connection with that local address.
unfoldable pub reply : (List ℕ → List ℕ) → TcpAddr → List ℕ
reply ip_string laddr =
    5
    ∷ 0
    ∷ 0
    ∷ (address_of (to4 laddr.ip) (to16 laddr.ip) (ip_string laddr.ip)
        ++ (laddr.port / 256 % 256 ∷ laddr.port % 256 ∷ []))

-- Cmd
pub data Command : Type 0 where
  udp_associate connect : Command
  unsupported : ℕ → Command

-- How TCPHandle ends or goes on: nil, an error, the relay of a stream with its header, or the wait
-- for the end of the TCP connection.
pub data Handled : Type 0 where
  done write_error tunnel_error waits : Handled
  relays : Strm → List ℕ → Handled

abbrev tunnel : Option (Client × Tcp) → Option (Client × Handled)
tunnel none = none
tunnel (some (c, Streams.no_strm)) = some (c, tunnel_error)
tunnel (some (c, Streams.closed s)) = some (c, tunnel_error)
tunnel (some (c, Streams.strm s header)) = some (c, relays s header)

-- What is written to the connection, and the outcome; `none` is a panic of the client.
unfoldable pub tcp_handle :
    (List ℕ → List ℕ)
    → Env
    → (ℕ → Turn)
    → Bool
    → Bool
    → Client
    → Command
    → TcpAddr
    → Text
    → List ℕ × Option (Client × Handled)
unfolding reply
tcp_handle ip_string env w conn_writes strm_writes c (unsupported n) laddr target =
    ([], some (c, done))
tcp_handle ip_string env w conn_writes strm_writes c udp_associate laddr target =
    if conn_writes then (reply ip_string laddr, some (c, waits)) else ([], some (c, write_error))
tcp_handle ip_string env w conn_writes strm_writes c connect laddr target =
    if conn_writes
    then (reply ip_string laddr, tunnel (Streams.tcp env w target strm_writes c))
    else ([], some (c, write_error))
