-- ===== src/Conf/Ready.antt =====
-- What a configuration without errors promises to the rest of the program.
use paqet.Prelude.{
  zero, suc, ◌≡◌, ◌≢◌, refl, ◌∙◌, sym, Bool, true, false, not, ◌&&◌, ◌||◌, List, [], Option, none,
  some, if◌then◌else◌, inl, inr, Bool-cases, arith,
}
use paqet.Prelude.Int.{ℤ, pos, negsuc, ◌≤ℤ◌, ltb_ℤ, is_ℕ}
use paqet.Prelude.Maybe.{>>=-eq-some, >>=-eq-none, some_equal}
use paqet.Prelude.Text.{Text, is_empty}
use paqet.Address.{UdpAddr, to4}
use mathlib.Core.Path.{subst}
use paqet.Conf.{
  Server, Error, Checked, Env, ok, fails, stored, validate_addr, server_validate, log_validate,
  socks5_validate, forward_validate, is_server,
}
use paqet.Conf.Kcp.{is_outside}
use paqet.Conf.Network.{Network, network_validate, is_none}
use paqet.Conf.Whole.{
  transport_validate, Conf, validate, client_errors, role_validate, client_validate,
  listen_validate, validate_all,
}
use paqet.Conf.Sound.{
  append_nil, checked, check_nil, IsWithin, is_outside_lem, via, HasSoundTcp, IsSoundTransport,
  network_validate-IsSoundTcp, transport_validate-IsSoundTransport,
}

-- A client that comes through validation has a server address with a port, an interface of the
-- address's family, and one connection only if its own port is given.
abbrev pub IsReadyClient : Conf → Type 0
IsReadyClient c =
    (a : UdpAddr) × (c.server.addr ≡ some a)
    × IsWithin 1 65535 a.port
    × (to4 a.ip ≢ none → c.network.ipv4.addr ≢ none)
    × (to4 a.ip ≡ none → c.network.ipv6.addr ≢ none)
    × (c.network.port ≢ pos 0 → c.transport.conn ≤ℤ pos 1)

has_family :
    {A B : Type 0} (o : Option A) (p : Option B)
    → (not (is_none o) && is_none p) ≡ false
    → o ≢ none
    → p ≢ none
has_family none p h f = absurd (f refl)
has_family (some x) none h f = cc
has_family (some x) (some y) h f = λ e. cc

has_other :
    {A B : Type 0} (o : Option A) (p : Option B)
    → (is_none o && is_none p) ≡ false
    → o ≡ none
    → p ≢ none
has_other none none h f = cc
has_other none (some y) h f = λ e. cc
has_other (some x) p h f = cc

one_only :
    (conn port : ℤ)
    → (ltb_ℤ (pos 1) conn && not (is_ℕ port 0)) ≡ false
    → port ≢ pos 0
    → conn ≤ℤ pos 1
one_only conn (pos zero) h f = absurd (f refl)
one_only conn (pos (suc n)) h f = ground (arith, h)
one_only conn (negsuc n) h f = ground (arith, h)

port_lem :
    (u a : UdpAddr)
    → stored
        (if ltb_ℤ u.port (pos 1) || ltb_ℤ (pos 65535) u.port then fails Error.port_range else ok u)
      ≡ some a
    → IsWithin 1 65535 a.port
port_lem u a = elim (Bool-cases (is_outside u.port 1 65535)) [
  | inl b ↦ rw b (λ e. cc)
  | inr b ↦
      rw b
        (λ e. subst (λ a. IsWithin 1 65535 a.port) (some_equal e) (is_outside_lem u.port 1 65535 b))
]

resolved_lem :
    (o : Option UdpAddr) (a : UdpAddr)
    → stored (elim o [
      | none ↦ fails Error.invalid_address
      | some u ↦
          if ltb_ℤ u.port (pos 1) || ltb_ℤ (pos 65535) u.port then fails Error.port_range else ok u
    ])
      ≡ some a
    → IsWithin 1 65535 a.port
resolved_lem none a e = cc
resolved_lem (some u) a e = port_lem u a e

validate_addr_lem :
    (env : Env) (t : Text) (a : UdpAddr)
    → stored (validate_addr env t true) ≡ some a
    → IsWithin 1 65535 a.port
unfolding validate_addr
validate_addr_lem env t a = elim (Bool-cases (is_empty t)) [
  | inl b ↦ rw b (λ e. cc)
  | inr b ↦ rw b (λ e. resolved_lem (env.resolve t) a e)
]

client_errors_lem :
    (a : UdpAddr) (n : Network) (conn : ℤ) (es : List Error)
    → client_errors (some a) n conn ≡ some es
    → es ≡ []
    → (to4 a.ip ≢ none → n.ipv4.addr ≢ none)
      × (to4 a.ip ≡ none → n.ipv6.addr ≢ none)
      × (n.port ≢ pos 0 → conn ≤ℤ pos 1)
unfolding client_errors
client_errors_lem a n conn es e h =
    let (h1, t1) =
      checked (not (is_none (to4 a.ip)) && is_none n.ipv4.addr) Error.no_ipv4 _
        (some_equal e ∙ h) in
    let (h2, t2) = checked (is_none (to4 a.ip) && is_none n.ipv6.addr) Error.no_ipv6 _ t1 in
    let h3 = check_nil (ltb_ℤ (pos 1) conn && not (is_ℕ n.port 0)) Error.one_connection t2 in
    (
      has_family (to4 a.ip) n.ipv4.addr h1,
      has_other (to4 a.ip) n.ipv6.addr h2,
      one_only conn n.port h3,
    )

-- What a validated configuration promises, for each role.
abbrev pub IsSoundConf : Text → Conf → Type 0
IsSoundConf role c =
    IsSoundTransport c.transport
    × HasSoundTcp c.network
    × (is_server role ≡ false → IsReadyClient c)

server_lem :
    (env : Env) (s : Server) (a : UdpAddr)
    → (server_validate env s).value.addr ≡ some a
    → IsWithin 1 65535 a.port
unfolding server_validate
server_lem env s a = validate_addr_lem env s.addr_ a

client_errors-none : (n : Network) (conn : ℤ) → client_errors none n conn ≡ none
unfolding client_errors
client_errors-none n conn = refl

client_lem :
    (env : Env) (c : Conf) (o : Option UdpAddr) (es : List Error)
    → (server_validate env c.server).value.addr ≡ o
    → client_errors o c.network c.transport.conn ≡ some es
    → es ≡ []
    → IsReadyClient (record c { server = (server_validate env c.server).value })
client_lem env c none es o e h = cc (client_errors-none c.network c.transport.conn)
client_lem env c (some a) es o e h =
    let (h1, h2, h3) = client_errors_lem a c.network c.transport.conn es e h in
    (a, o, server_lem env c.server a o, h1, h2, h3)

-- What the last part keeps, and what it adds.
abbrev RolePart : Bool → Conf → Conf → Type 0
RolePart b c d =
    (d.network ≡ c.network) × (d.transport ≡ c.transport) × (b ≡ false → IsReadyClient d)

role_validate_lem :
    (env : Env) (c : Conf) (r : Checked Conf)
    → role_validate env c ≡ some r
    → r.errors ≡ []
    → RolePart (is_server c.role) c r.value
unfolding role_validate listen_validate client_validate
role_validate_lem env c r = elim (Bool-cases (is_server c.role)) [
  | inl b ↦ rw b (λ e. via (RolePart true c) e (λ h. (refl, refl, λ f. cc)))
  | inr b ↦ rw b (λ e.
      let s = (server_validate env c.server).value.addr in
      let (es, ec, er) = >>=-eq-some (client_errors s c.network c.transport.conn) _ e in
      via (RolePart false c) er (λ h.
        let (_, t) = append_nil (server_validate env c.server).errors _ h in
        (refl, refl, λ _. client_lem env c s es refl ec t)))
]

-- If the validation of a configuration ends without a panic and without an error, then its KCP
-- section is there with an MTU of 50 to 1500, windows of 1 to 32768, buffers of at least 1024, a
-- known mode and block, and a key unless the block is none; it has 1 to 256 connections; neither
-- list of TCP flags is empty, and the texts given for them name flags only; max_failures is at
-- least 1 and probe_timeout at least 2; and in another role than server the server's address has a
-- port of 1 to 65535 and an interface of its family, with at most one connection if a port is
-- given.
pub validate-IsSoundConf :
    (env : Env) (c : Conf) (r : Checked Conf)
    → validate env c ≡ some r
    → r.errors ≡ []
    → IsSoundConf c.role r.value
unfolding validate
validate-IsSoundConf env c r e =
    let l = log_validate c.log in
    let s = validate_all (socks5_validate env) c.socks5 in
    let f = validate_all (forward_validate env) c.forward in
    let (n, en, e1) = >>=-eq-some (network_validate env c.network) _ e in
    let (t, et, e2) = >>=-eq-some (transport_validate env c.transport) _ e1 in
    let c' : Conf = record c {
      log = l.value;
      socks5 = s.value;
      forward = f.value;
      network = n.value;
      transport = t.value;
    } in
    let (d, ed, e3) = >>=-eq-some (role_validate env c') _ e2 in
    via (IsSoundConf c.role) e3 (λ h.
      let (_, t1) = append_nil l.errors _ h in
      let (_, t2) = append_nil s.errors _ t1 in
      let (_, t3) = append_nil f.errors _ t2 in
      let (h4, t4) = append_nil n.errors _ t3 in
      let (h5, t5) = append_nil t.errors _ t4 in
      let (pn, pt, pc) = role_validate_lem env c' d ed t5 in
      (
        subst IsSoundTransport (sym pt)
            (transport_validate-IsSoundTransport env c.transport t et h5),
        subst HasSoundTcp (sym pn) (network_validate-IsSoundTcp env c.network n en h4),
        pc,
      ))

role_validate_panics :
    (env : Env) (c : Conf)
    → is_server c.role ≡ false
    → (server_validate env c.server).value.addr ≡ none
    → role_validate env c ≡ none
unfolding role_validate client_validate
role_validate_panics env c r h = rw (r, h) refl

-- A client whose server's address does not validate is never told so: whatever the rest of the
-- configuration is, the validation panics.
pub validate_panics :
    (env : Env) (c : Conf)
    → is_server c.role ≡ false
    → stored (validate_addr env c.server.addr_ true) ≡ none
    → validate env c ≡ none
unfolding validate server_validate
validate_panics env c r h = >>=-eq-none (network_validate env c.network) _ (λ n.
    >>=-eq-none (transport_validate env c.transport) _ (λ t.
      let c' : Conf = record c {
        log = (log_validate c.log).value;
        socks5 = (validate_all (socks5_validate env) c.socks5).value;
        forward = (validate_all (forward_validate env) c.forward).value;
        network = n.value;
        transport = t.value;
      } in
      rw (role_validate_panics env c' r h) refl))
