-- ===== src/Command/Loads.antt =====
-- What the run command starts of a configuration that loads.
use paqet.Prelude.{
  ℕ, ◌<◌, ◌≡◌, ◌⊎◌, refl, sym, ap, ◌∙◌, true, false, List, [], ◌∷◌, Option, some, map, inl, inr,
  Bool-cases, Option-cases, length, arith,
}
use mathlib.Core.Path.{subst}
use paqet.Prelude.Text.{Text, codes, is_one_of}
use paqet.Prelude.Maybe.{>>=-eq-some, some_equal}
use paqet.Conf.{
  Error, Checked, Env, Try, ok, fails, stored, error_of, socks5_validate, Forward, forward_validate,
  validate_addr, new_addr, log_validate, is_server, server_validate,
}
use paqet.Conf.Network.{network_validate}
use paqet.Conf.Sound.{append_nil}
use paqet.Conf.Whole.{
  Conf, Info, transport_set_defaults, set_defaults, validate_all, client_errors, listen_validate,
  client_validate, role_validate, transport_validate, validate, write_err, loaded, of_checked, load,
}
use paqet.Command.{Forwarder, forward_start, Outside, Run, fatal, server, client, start_forwards}
use paqet.Command.Kinds.{AreFor}

error_free : {A : Type 0} (t : Try A) → error_of t ≡ [] → (a : A) × (stored t ≡ some a)
error_free (ok a) h = (a, refl)
error_free (fails e) h = cc

abbrev protocol_of : Forward → Text
protocol_of f = f.protocol

-- Every forward of the list starts something: what its protocol says.
pub Starts : List Forward → List Forward → Type 0
Starts given fs = start_forwards fs ≡ some (map (λ (f : Forward). forward_start f.protocol) given)

forwards-Starts :
    (env : Env) (given : List Forward)
    → (validate_all (forward_validate env) given).errors ≡ []
    → Starts given (validate_all (forward_validate env) given).value
unfolding validate_all forward_validate start_forwards Starts
forwards-Starts env [] h = refl
forwards-Starts env (f ∷ fs) h =
    let (h1, h2) = append_nil (forward_validate env f).errors _ h in
    let (_, h3) = append_nil (error_of (validate_addr env f.listen_ true)) _ h1 in
    let (a, e) = error_free (new_addr env f.target_) h3 in
    let rest = forwards-Starts env fs h2 in rw (e, rest) refl

-- What is kept by the parts of the load that come after the forwards.
abbrev pub Same : Conf → Conf → Type 0
Same c d = (d.role ≡ c.role) × (d.forward ≡ c.forward) × (length d.socks5 ≡ length c.socks5)

via_equal : {c d : Conf} → c ≡ d → Same c d
via_equal {c} e = subst (Same c) e (refl, refl, refl)

set_defaults-Same :
    (env : Env) (info : Option Info) (c d : Conf) → set_defaults env info c ≡ some d → Same c d
unfolding set_defaults
set_defaults-Same env info c d e =
    let (t, _, q) = >>=-eq-some (transport_set_defaults c.role c.transport) _ e in
    subst (Same c) (some_equal q) (refl, refl, refl)

role_validate-Same :
    (env : Env) (c : Conf) (r : Checked Conf) → role_validate env c ≡ some r → Same c r.value
unfolding role_validate listen_validate client_validate
role_validate-Same env c r = elim (Bool-cases (is_server c.role)) [
  | inl b ↦
      rw b (λ e. subst (λ (r : Checked Conf). Same c r.value) (some_equal e) (refl, refl, refl))
  | inr b ↦ rw b (λ e.
      let (es, _, q) =
        >>=-eq-some
          (client_errors (server_validate env c.server).value.addr c.network c.transport.conn) _
          e in
      subst (λ (r : Checked Conf). Same c r.value) (some_equal q) (refl, refl, refl))
]

length-validate_all :
    {A : Type 0} (f : A → Checked A) (xs : List A) → length (validate_all f xs).value ≡ length xs
unfolding validate_all
length-validate_all f [] = refl
length-validate_all f (x ∷ xs) = omega (arith, length-validate_all f xs)

-- What a validation without errors leaves for the command.
abbrev pub Valid : Conf → Conf → Type 0
Valid c d = (d.role ≡ c.role) × Starts c.forward d.forward × (length d.socks5 ≡ length c.socks5)

validate-Valid :
    (env : Env) (c : Conf) (r : Checked Conf)
    → validate env c ≡ some r
    → r.errors ≡ []
    → Valid c r.value
unfolding validate
validate-Valid env c r e h =
    let l = log_validate c.log in
    let s = validate_all (socks5_validate env) c.socks5 in
    let f = validate_all (forward_validate env) c.forward in
    let (n, _, e1) = >>=-eq-some (network_validate env c.network) _ e in
    let (t, _, e2) = >>=-eq-some (transport_validate env c.transport) _ e1 in
    let c' : Conf = record c {
      log = l.value;
      socks5 = s.value;
      forward = f.value;
      network = n.value;
      transport = t.value;
    } in
    let (d, ed, e3) = >>=-eq-some (role_validate env c') _ e2 in
    let same = some_equal e3 in
    let none_all = ap (λ (x : Checked Conf). x.errors) same ∙ h in
    let (_, t1) = append_nil l.errors _ none_all in
    let (_, t2) = append_nil s.errors _ t1 in
    let (hf, _) = append_nil f.errors _ t2 in
    let (pr, pf, ps) = role_validate-Same env c' d ed in
    subst (λ (x : Checked Conf). Valid c x.value) same
      (
        pr,
        subst (Starts c.forward) (sym pf) (forwards-Starts env c.forward hf),
        ps ∙ length-validate_all (socks5_validate env) c.socks5,
      )

write_err_none : (es : List Error) → write_err es ≡ false → es ≡ []
write_err_none [] h = refl
write_err_none (e ∷ es) h = cc

pub of_checked-Valid : (env : Env) (c d : Conf) → of_checked (validate env c) ≡ loaded d → Valid c d
of_checked-Valid env c d = elim (Option-cases (validate env c)) [
  | inl e ↦ rw e (λ h. cc)
  | inr (r, e) ↦ rw e (elim (Bool-cases (write_err r.errors)) [
    | inl b ↦ rw b (λ h. cc)
    | inr b ↦ rw b (λ h.
        let q : r.value ≡ d = cc in
        subst (Valid c) q (validate-Valid env c r e (write_err_none r.errors b)))
  ])
]

-- What the run command comes to for a configuration.
abbrev pub IsRun : Outside → Conf → Run → Type 0
IsRun o c r =
    ((c.role ≡ codes "client")
      × ((((i : ℕ) → i < length c.socks5 → o.creates i ≡ true)
            → (fs : List Forwarder) × AreFor c.forward fs × (r ≡ client fs (length c.socks5)))
          × ((i : ℕ) → i < length c.socks5 → o.creates i ≡ false → r ≡ fatal)))
    ⊎ ((c.role ≡ codes "server")
        × (o.server_fails ≡ true → r ≡ fatal)
        × (o.server_fails ≡ false → r ≡ server))

-- How a configuration came to load.
pub load_inv :
    (env : Env) (info : Option Info) (c d : Conf)
    → load env info c ≡ loaded d
    → (c1 : Conf) × Same c c1
      × (of_checked (validate env c1) ≡ loaded d)
      × (is_one_of (codes "client" ∷ codes "server" ∷ []) c.role ≡ true)
unfolding load
load_inv env info c d =
    elim (Bool-cases (is_one_of (codes "client" ∷ codes "server" ∷ []) c.role)) [
      | inr b ↦ rw (b, load) (λ e. cc)
      | inl b ↦ elim (Option-cases (set_defaults env info c)) [
        | inl s ↦ rw (b, s, load) (λ e. cc)
        | inr (c1, s) ↦ rw (b, s, load) (λ e. (c1, set_defaults-Same env info c c1 s, e, refl))
      ]
    ]
