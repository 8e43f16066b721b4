-- ===== src/Transport/Pings.antt =====
-- When Ping of internal/tnet/kcp/conn.go succeeds, also against the server's handleStrm.
use paqet.Prelude.{
  ℕ, ◌≡◌, ◌≢◌, refl, ap, ◌∙◌, sym, Bool, true, false, List, [], ◌∷◌, Option, none, some, arith, ◌↔◌,
}
use paqet.Protocol.{Proto, Error, Result, ok, p_ping, p_pong, frame, read}
use paqet.Protocol.Kept.{read-type}
use paqet.Send.{SendHandle}
use paqet.Address.{NetAddr}
use mathlib.Core.Path.{subst}
use paqet.Server.{Handled, handle_strm}
use paqet.Server.Handshake.{handle_strm-ping}
use paqet.Transport.{Strm, alive, read_failed, check_pong, ping_message, ping}

abbrev pub IsReply : List ℕ → Type 0
IsReply reply = (rest : List ℕ) × (reply ≡ p_pong ∷ rest)

check_pong-alive :
    (p : Proto) (r : List ℕ) (o : Option Error) → check_pong (p, r, o) ≡ alive → p.type ≡ p_pong
check_pong-alive p r none e = ground (arith, e)
check_pong-alive p r (some x) e = cc

read_failed_alive : {x : Error} → read_failed x ≢ alive
read_failed_alive e = cc

alive-IsReply : (reply : List ℕ) → check_pong (read ping_message reply) ≡ alive → IsReply reply
unfolding read
alive-IsReply [] e = absurd (read_failed_alive e)
alive-IsReply (t ∷ r) e =
    let x = read ping_message (t ∷ r) in
    let s : t ≡ p_pong = sym (read-type ping_message t r) ∙ check_pong-alive x.0 x.1 x.2 e in
    (r, ap (λ t. t ∷ r) s)

reply_alive : (rest : List ℕ) → check_pong (read ping_message (p_pong ∷ rest)) ≡ alive
unfolding read
reply_alive rest = refl

-- The reply that the server gives to a ping.
abbrev pub answer : SendHandle → NetAddr → Strm
answer h remote = record {
  opens = true;
  writes = true;
  reply =
      (handle_strm h remote
        (ping true (record { opens = true; writes = true; reply = [] })).0).written;
}

ping-alive :
    (opens writes : Bool) (reply : List ℕ)
    → ((ping true (record { opens = opens; writes = writes; reply = reply })).1 ≡ alive)
      ↔ ((opens ≡ true) × (writes ≡ true) × IsReply reply)
unfolding ping frame
ping-alive true true reply = (
  λ e. (refl, refl, alive-IsReply reply e),
  λ (_, _, (rest, e)). ap (λ r. check_pong (read ping_message r)) e ∙ reply_alive rest,
)
ping-alive true false reply = (λ e. cc, λ e. cc)
ping-alive false writes reply = (λ e. cc, λ e. cc)

ok_injective : {a b : List ℕ} → ◌≡◌ {A = Result (List ℕ)} (ok a) (ok b) → a ≡ b
ok_injective e = cc

answer-IsReply : (h : SendHandle) (remote : NetAddr) → IsReply (answer h remote).reply
unfolding ping frame
answer-IsReply h remote =
    let (bs, reply, f, e, r) = handle_strm-ping h remote ping_message in
    let same : p_ping ∷ [] ≡ bs = ok_injective f in
    subst IsReply
      (sym (ap (λ b. (handle_strm h remote b).written) same ∙ ap (λ (x : Handled). x.written) e))
      (alive-IsReply reply (ap check_pong r))

-- A Ping that waits succeeds exactly if its stream opens, its message is written, and the first
-- byte that comes back by the deadline is PPONG. Against the server's handleStrm, in any state of
-- its send handle and for any remote address, it succeeds.
pub ping_lem :
    (s : Strm) (h : SendHandle) (remote : NetAddr)
    → (((ping true s).1 ≡ alive) ↔ ((s.opens ≡ true) × (s.writes ≡ true) × IsReply s.reply))
      × ((ping true (answer h remote)).1 ≡ alive)
ping_lem s h remote = (
  ping-alive s.opens s.writes s.reply,
  (ping-alive true true (answer h remote).reply).1 (refl, refl, answer-IsReply h remote),
)
