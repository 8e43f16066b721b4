-- ===== src/Command.antt =====
-- The run command (cmd/run/run.go, client.go and server.go) and Forward.Start
-- (internal/forward/forward.go): what is started of a configuration that was read.
pub mod Loads
pub mod Kinds
pub mod Ping
mod Runs
use paqet.Prelude.{
  ℕ, zero, suc, Bool, true, ◌&&◌, List, [], ◌∷◌, Option, none, some, if◌then◌else◌, length,
}
use paqet.Prelude.Text.{Text, codes, str_eq}
use paqet.Prelude.Maybe.{◌>>=◌}
use paqet.Protocol.{Addr}
use paqet.Conf.{Forward}
use paqet.Conf.Whole.{Conf, Loaded, bad_role, panics, invalid, loaded}

-- The goroutine that Forward.Start starts, or its error.
pub data Forwarder : Type 0 where
  tcp udp unsupported : Forwarder

unfoldable pub forward_start : Text → Forwarder
forward_start protocol =
    if str_eq protocol (codes "tcp")
    then tcp
    else if str_eq protocol (codes "udp")
    then udp
    else unsupported

-- What the rest of the program answers: whether server.Start gives an error, and whether
-- NewClassicServer makes the server of SOCKS5 entry i.
pub record Outside : Type 0 where
  pub server_fails : Bool
  pub creates : ℕ → Bool

-- No SOCKS5 server of the first n fails.
abbrev pub creates_all : Outside → ℕ → Bool
creates_all o zero = true
creates_all o (suc n) = creates_all o n && o.creates n

-- What the command comes to: an exit, a panic, a server that has shut down, or a client with its
-- forwarders and with the number of its SOCKS5 servers.
pub data Run : Type 0 where
  fatal panic server : Run
  client : List Forwarder → ℕ → Run

-- One forwarder; the target's String of a nil pointer panics. An error of Start is only logged.
abbrev pub forward_one : Forward → Option Forwarder
forward_one f = f.target >>= λ (a : Addr). some (forward_start f.protocol)

unfoldable pub start_forwards : List Forward → Option (List Forwarder)
start_forwards [] = some []
start_forwards (f ∷ fs) =
    let rest = start_forwards fs in forward_one f >>= λ x. (rest >>= λ xs. some (x ∷ xs))

-- startClient; an error of client.Start is only logged, one of a SOCKS5 server's goroutine exits.
unfoldable pub start_client : Outside → Conf → Run
unfolding start_forwards
start_client o c = elim (start_forwards c.forward) [
  | none ↦ panic
  | some fs ↦ if creates_all o (length c.socks5) then client fs (length c.socks5) else fatal
]

abbrev pub run_server : Outside → Run
run_server o = if o.server_fails then fatal else server

unfoldable pub run : Outside → Loaded → Run
unfolding start_client
run o panics = panic
run o bad_role = fatal
run o (invalid c es) = fatal
run o (loaded c) =
    if str_eq (codes "client") c.role
    then start_client o c
    else if str_eq (codes "server") c.role
    then run_server o
    else fatal
