-- ===== src/Conf/Sound.antt =====
-- What the sections of a configuration promise if their validation lists no error.
use paqet.Prelude.{
  ℕ, ◌≡◌, refl, Bool, true, false, not, ◌&&◌, ◌||◌, List, [], ◌∷◌, ◌++◌, Option, none, some, inl,
  inr, Bool-cases, arith, All,
}
use paqet.Prelude.Int.{ℤ, pos, ◌≤ℤ◌, ltb_ℤ}
use paqet.Prelude.Maybe.{>>=-eq-some, some_equal}
use paqet.Prelude.Text.{Text, is_one_of, is_empty}
use paqet.Flags.{str_tcpf}
use mathlib.Core.Path.{subst}
use paqet.Conf.{pcap_validate, Error, Checked, check, Env, error_of}
use paqet.Conf.Kcp.{
  Kcp, kcp_validate, is_outside, valid_modes, null_blocks, valid_blocks, new_block,
}
use paqet.Conf.Tcp.{Tcp, tcp_validate, is_nil, parse_errors, parsed}
use paqet.Conf.Network.{
  Network, network_validate, families_validate, validate_if, compare_ports, interface_errors,
}
use paqet.Conf.Whole.{Transport, transport_validate, validate_kcp, is_kcp}

pub append_nil {ℓ} : {A : Type ℓ} (xs ys : List A) → xs ++ ys ≡ [] → (xs ≡ []) × (ys ≡ [])
append_nil [] ys h = (refl, h)
append_nil (x ∷ xs) ys h = cc

pub checked :
    (b : Bool) (e : Error) (rest : List Error) → check b e ++ rest ≡ [] → (b ≡ false) × (rest ≡ [])
checked true e rest h = cc
checked false e rest h = (refl, h)

pub check_nil : (b : Bool) (e : Error) → check b e ≡ [] → b ≡ false
check_nil true e h = cc
check_nil false e h = refl

not-false : (b : Bool) → not b ≡ false → b ≡ true
not-false true h = refl
not-false false h = cc

or_of_and : (a b : Bool) → (not a && b) ≡ false → (a || not b) ≡ true
or_of_and true b h = refl
or_of_and false true h = cc
or_of_and false false h = refl

-- From low to high.
abbrev pub IsWithin : ℕ → ℕ → ℤ → Type 0
IsWithin low high z = (pos low ≤ℤ z) × (z ≤ℤ pos high)

pub is_outside_lem : (z : ℤ) (low high : ℕ) → is_outside z low high ≡ false → IsWithin low high z
is_outside_lem z low high h = ground arith

ltb_ℤ_lem : (a b : ℤ) → ltb_ℤ a b ≡ false → b ≤ℤ a
ltb_ℤ_lem a b h = ground arith

-- The KCP section after its validation.
pub record IsSoundKcp (k : Kcp) : Type 0 where
  pub mode : is_one_of valid_modes k.mode ≡ true
  pub mtu : IsWithin 50 1500 k.mtu
  pub rcvwnd : IsWithin 1 32768 k.rcvwnd
  pub sndwnd : IsWithin 1 32768 k.sndwnd
  pub smuxbuf : pos 1024 ≤ℤ k.smuxbuf
  pub streambuf : pos 1024 ≤ℤ k.streambuf
  pub block_ : is_one_of valid_blocks k.block_ ≡ true
  pub key : (is_one_of null_blocks k.block_ || not (is_empty k.key)) ≡ true

pub kcp_validate-IsSoundKcp :
    (env : Env) (k : Kcp) → (kcp_validate env k).errors ≡ [] → IsSoundKcp (kcp_validate env k).value
unfolding kcp_validate
kcp_validate-IsSoundKcp env k h =
    let (h1, t1) = checked (not (is_one_of valid_modes k.mode)) Error.kcp_mode _ h in
    let (h2, t2) = checked (is_outside k.mtu 50 1500) Error.kcp_mtu _ t1 in
    let (h3, t3) = checked (is_outside k.rcvwnd 1 32768) Error.kcp_rcvwnd _ t2 in
    let (h4, t4) = checked (is_outside k.sndwnd 1 32768) Error.kcp_sndwnd _ t3 in
    let (h5, t5) = checked (not (is_one_of valid_blocks k.block_)) Error.kcp_block _ t4 in
    let (h6, t6) =
      checked (not (is_one_of null_blocks k.block_) && is_empty k.key) Error.kcp_key _ t5 in
    let (_, t7) = append_nil (error_of (new_block env k.block_ k.key)) _ t6 in
    let (h8, t8) = checked (ltb_ℤ k.smuxbuf (pos 1024)) Error.kcp_smuxbuf _ t7 in
    record {
      mode = not-false _ h1;
      mtu = is_outside_lem k.mtu 50 1500 h2;
      rcvwnd = is_outside_lem k.rcvwnd 1 32768 h3;
      sndwnd = is_outside_lem k.sndwnd 1 32768 h4;
      smuxbuf = ltb_ℤ_lem k.smuxbuf (pos 1024) h8;
      streambuf = ltb_ℤ_lem k.streambuf (pos 1024) (check_nil _ Error.kcp_streambuf t8);
      block_ = not-false _ h5;
      key = or_of_and _ _ h6;
    }

-- The TCP section after its validation: there is a combination of each kind, and the flags are what
-- the given texts name.
pub record IsSoundTcp (t : Tcp) : Type 0 where
  pub lf : is_nil t.lf ≡ false
  pub rf : is_nil t.rf ≡ false
  pub lf_valid : All (λ s. (str_tcpf s).invalid ≡ []) t.lf_
  pub rf_valid : All (λ s. (str_tcpf s).invalid ≡ []) t.rf_
  pub max_failures : pos 1 ≤ℤ t.max_failures
  pub probe_timeout : pos 2 ≤ℤ t.probe_timeout_

is_nil_eq : (xs : List ℕ) → not (is_nil xs) ≡ false → xs ≡ []
is_nil_eq [] h = refl
is_nil_eq (x ∷ xs) h = cc

parse_errors_lem : (ss : List Text) → parse_errors ss ≡ [] → All (λ s. (str_tcpf s).invalid ≡ []) ss
unfolding parse_errors
parse_errors_lem [] h = tt
parse_errors_lem (s ∷ ss) h =
    let (a, t) = checked (not (is_nil (str_tcpf s).invalid)) Error.invalid_flag _ h in
    (is_nil_eq _ a, parse_errors_lem ss t)

or_false : (a b : Bool) → (a || b) ≡ false → (a ≡ false) × (b ≡ false)
or_false false b h = (refl, h)
or_false true b h = cc

tcp_validate-IsSoundTcp :
    (t : Tcp) → (tcp_validate t).errors ≡ [] → IsSoundTcp (tcp_validate t).value
unfolding tcp_validate
tcp_validate-IsSoundTcp t h =
    let (h1, t1) = append_nil (parse_errors t.lf_) _ h in
    let (h2, t2) = append_nil (parse_errors t.rf_) _ t1 in
    let (h3, t3) =
      checked (is_nil (parsed t.lf_ t.lf) || is_nil (parsed t.rf_ t.rf)) Error.no_flag_combination _
        t2 in
    let (h4, t4) = checked (ltb_ℤ t.max_failures (pos 1)) Error.max_failures_small _ t3 in
    let (l, r) = or_false (is_nil (parsed t.lf_ t.lf)) (is_nil (parsed t.rf_ t.rf)) h3 in
    record {
      lf = l;
      rf = r;
      lf_valid = parse_errors_lem t.lf_ h1;
      rf_valid = parse_errors_lem t.rf_ h2;
      max_failures = ltb_ℤ_lem t.max_failures (pos 1) h4;
      probe_timeout = ltb_ℤ_lem t.probe_timeout_ (pos 2) (check_nil _ Error.probe_timeout_small t4);
    }

-- A property of what is stored, carried over the result.
pub via :
    {A : Type 0} (P : A → Type 0) {c r : Checked A}
    → some c ≡ some r
    → (c.errors ≡ [] → P c.value)
    → r.errors ≡ []
    → P r.value
via P e f = subst (λ r. r.errors ≡ [] → P r.value) (some_equal e) f

abbrev pub HasSoundTcp : Network → Type 0
HasSoundTcp n = IsSoundTcp n.tcp

families-IsSoundTcp :
    (env : Env) (n : Network) (r : Checked Network)
    → families_validate env n ≡ some r
    → r.errors ≡ []
    → HasSoundTcp r.value
unfolding families_validate
families-IsSoundTcp env n r e =
    let c4 = validate_if env (not (is_empty n.ipv4.addr_)) n.ipv4 in
    let c6 = validate_if env (not (is_empty n.ipv6.addr_)) n.ipv6 in
    let (differ, _, er) =
      >>=-eq-some
        (compare_ports (not (is_empty n.ipv4.addr_) && not (is_empty n.ipv6.addr_)) c4.value.addr
          c6.value.addr)
        _ e in
    via HasSoundTcp er (λ h.
      let (_, t1) = append_nil c4.errors _ h in
      let (_, t2) = append_nil c6.errors _ t1 in
      let (_, t3) = append_nil differ _ t2 in
      let (_, t4) = append_nil (pcap_validate n.pcap) _ t3 in tcp_validate-IsSoundTcp n.tcp t4)

pub network_validate-IsSoundTcp :
    (env : Env) (n : Network) (r : Checked Network)
    → network_validate env n ≡ some r
    → r.errors ≡ []
    → HasSoundTcp r.value
unfolding network_validate
network_validate-IsSoundTcp env n r =
    elim (Bool-cases (is_empty n.ipv4.addr_ && is_empty n.ipv6.addr_)) [
      | inl b ↦
          rw b (λ e.
            via HasSoundTcp e (λ h. let (_, t) = append_nil (interface_errors env n) _ h in cc))
      | inr b ↦ rw b (λ e.
          let n' : Network = record n { interface = env.interface_by_name n.interface_ } in
          let (c, ec, er) = >>=-eq-some (families_validate env n') _ e in
          via HasSoundTcp er (λ h.
            let (_, t) = append_nil (interface_errors env n) _ h in
            families-IsSoundTcp env n' c ec t))
    ]

-- A transport section after its validation.
pub record IsSoundTransport (t : Transport) : Type 0 where
  pub conn : IsWithin 1 256 t.conn
  pub kcp : (k : Kcp) × (t.kcp ≡ some k) × IsSoundKcp k

validate_kcp_lem :
    (env : Env) (o : Option Kcp) (r : Checked (Option Kcp))
    → validate_kcp env true o ≡ some r
    → r.errors ≡ []
    → (k : Kcp) × (r.value ≡ some k) × IsSoundKcp k
validate_kcp_lem env none r e = cc
validate_kcp_lem env (some k) r e =
    via (λ o. (k : Kcp) × (o ≡ some k) × IsSoundKcp k) e
      (λ h. ((kcp_validate env k).value, refl, kcp_validate-IsSoundKcp env k h))

pub transport_validate-IsSoundTransport :
    (env : Env) (t : Transport) (r : Checked Transport)
    → transport_validate env t ≡ some r
    → r.errors ≡ []
    → IsSoundTransport r.value
unfolding transport_validate
transport_validate-IsSoundTransport env t r e =
    let (k, ek, er) = >>=-eq-some (validate_kcp env (is_kcp t.protocol) t.kcp) _ e in
    via IsSoundTransport er (λ h.
      let (p, t1) = checked (not (is_kcp t.protocol)) Error.transport_protocol _ h in
      let (c, t2) = checked (is_outside t.conn 1 256) Error.transport_conn _ t1 in
      record {
        conn = is_outside_lem t.conn 1 256 c;
        kcp =
            validate_kcp_lem env t.kcp k
              (subst (λ b. validate_kcp env b t.kcp ≡ some k) (not-false _ p) ek) t2;
      })
