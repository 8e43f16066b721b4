-- ===== src/Command/Ping.antt =====
-- The ping command (cmd/ping/ping.go): one packet to the server of a client's configuration.
use paqet.Prelude.{
  Bool, ℕ, ◌≡◌, ◌∷◌, arith, refl, ap, ◌∙◌, true, false, List, [], Option, none, some, inl, inr,
  Bool-cases, Option-cases, if◌then◌else◌,
}
use mathlib.Core.Path.{subst}
use paqet.Prelude.Text.{Text, codes, str_eq}
use paqet.Prelude.Maybe.{>>=-eq-some, some_equal}
use paqet.Address.{UdpAddr, NetAddr, udp, nil_udp}
use paqet.Send.{SendHandle, Packet, write}
use paqet.Socket.Recv.{Write, wrote, write_to}
use paqet.Conf.{
  Error, Checked, Env, Server, server_validate, is_server, log_validate, socks5_validate,
  forward_validate,
}
use paqet.Conf.Network.{network_validate}
use paqet.Command.Loads.{load_inv, of_checked-Valid}
use paqet.Conf.Whole.{
  Conf, Info, validate_all, client_errors, client_validate, role_validate, transport_validate,
  validate, write_err, Loaded, bad_role, panics, invalid, loaded, of_checked, load,
}

-- `sent` has the packet that is handed to pcap.
pub data Ping : Type 0 where
  fatal panic : Ping
  sent : Packet → Ping

abbrev pub server_addr : Option UdpAddr → NetAddr
server_addr none = nil_udp
server_addr (some a) = udp a

-- `hands_over` says of a packet whether it is serialized and pcap takes it, without an error.
abbrev pub of_write : (Packet → Bool) → Option (Write × SendHandle) → Ping
of_write hands_over none = panic
of_write hands_over (some (wrote n p, h)) = if hands_over p then sent p else fatal
of_write hands_over (some _) = fatal

abbrev pub send_on : (Packet → Bool) → Conf → List ℕ → ℕ → ℕ → Option SendHandle → Ping
send_on hands_over c payload rs ra none = fatal
send_on hands_over c payload rs ra (some h) =
    of_write hands_over (write_to h false false true payload (server_addr c.server.addr) rs ra)

-- sendPacket, given what socket.New makes; a configuration without an error has been loaded.
unfoldable pub send_packet : (Packet → Bool) → Loaded → Option SendHandle → List ℕ → ℕ → ℕ → Ping
send_packet hands_over panics h payload rs ra = panic
send_packet hands_over bad_role h payload rs ra = fatal
send_packet hands_over (invalid c es) h payload rs ra = fatal
send_packet hands_over (loaded c) h payload rs ra =
    if str_eq (codes "client") c.role then send_on hands_over c payload rs ra h else fatal

-- The server's address is stored.
abbrev HasServer : Conf → Type 0
HasServer c = (a : UdpAddr) × (c.server.addr ≡ some a)

client_addr :
    (o : Option UdpAddr) (c : Conf) {es : List Error}
    → client_errors o c.network c.transport.conn ≡ some es
    → (a : UdpAddr) × (o ≡ some a)
unfolding client_errors
client_addr none c e = cc
client_addr (some a) c e = (a, refl)

role_validate-HasServer :
    (env : Env) (c : Conf) (r : Checked Conf)
    → is_server c.role ≡ false
    → role_validate env c ≡ some r
    → HasServer r.value
unfolding role_validate client_validate
role_validate-HasServer env c r n =
    let s : Checked Server = server_validate env c.server in
    rw n (λ e.
      let (es, q, q') = >>=-eq-some (client_errors s.value.addr c.network c.transport.conn) _ e in
      subst (λ (r : Checked Conf). HasServer r.value) (some_equal q')
        (client_addr s.value.addr c q))

validate-HasServer :
    (env : Env) (c : Conf) (r : Checked Conf)
    → is_server c.role ≡ false
    → validate env c ≡ some r
    → HasServer r.value
unfolding validate
validate-HasServer env c r n e =
    let (nw, _, e1) = >>=-eq-some (network_validate env c.network) _ e in
    let (t, _, e2) = >>=-eq-some (transport_validate env c.transport) _ e1 in
    let c' : Conf = record c {
      log = (log_validate c.log).value;
      socks5 = (validate_all (socks5_validate env) c.socks5).value;
      forward = (validate_all (forward_validate env) c.forward).value;
      network = nw.value;
      transport = t.value;
    } in
    let (d, ed, e3) = >>=-eq-some (role_validate env c') _ e2 in
    subst (λ (r : Checked Conf). HasServer r.value) (some_equal e3)
      (role_validate-HasServer env c' d n ed)

of_checked-HasServer :
    (env : Env) (c d : Conf)
    → is_server c.role ≡ false
    → of_checked (validate env c) ≡ loaded d
    → HasServer d
of_checked-HasServer env c d n = elim (Option-cases (validate env c)) [
  | inl e ↦ rw e (λ h. cc)
  | inr (r, e) ↦ rw e (elim (Bool-cases (write_err r.errors)) [
    | inl b ↦ rw b (λ h. cc)
    | inr b ↦
        rw b (λ h. let q : r.value ≡ d = cc in subst HasServer q (validate-HasServer env c r n e))
  ])
]

not_server : (r : Text) → str_eq (codes "client") r ≡ true → is_server r ≡ false
not_server [] h = refl
not_server (x ∷ r) h = ground (arith, h)

-- With the client's configuration of a program that loads, the ping command has a server address
-- and writes to it: it panics where the send handle does, and otherwise hands the packet that is
-- built to pcap, an error of which ends it.
send_packet-load :
    (hands_over : Packet → Bool) (env : Env) (info : Option Info) (c d : Conf) (h : SendHandle)
    (payload : List ℕ) (rs ra : ℕ)
    → str_eq (codes "client") c.role ≡ true
    → load env info c ≡ loaded d
    → (a : UdpAddr) × (d.server.addr ≡ some a)
      × (write h payload a rs ra ≡ none
          → send_packet hands_over (loaded d) (some h) payload rs ra ≡ panic)
      × ((p : Packet) (h' : SendHandle)
          → write h payload a rs ra ≡ some (p, h')
          → send_packet hands_over (loaded d) (some h) payload rs ra
            ≡ (if hands_over p then sent p else fatal))
unfolding send_packet write_to
send_packet-load hands_over env info c d h payload rs ra k e =
    let (c1, (sr, _, _), v, _) = load_inv env info c d e in
    let (pr, _, _) = of_checked-Valid env c1 d v in
    let n = ap is_server sr ∙ not_server c.role k in
    let (a, at) = of_checked-HasServer env c1 d n v in
    let is_client = ap (str_eq (codes "client")) (pr ∙ sr) ∙ k in
    (a, at, λ w. rw (is_client, at, w) refl, λ p h' w. rw (is_client, at, w) refl)
