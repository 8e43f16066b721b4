-- ===== src/Send/Clients.antt =====
-- The flags that a server uses towards a client: set by its PTCPF message, cleared when it leaves.
use paqet.Prelude.{ℕ, ◌≡◌, refl, ◌∙◌, List, Option, none, some, ◌==◌, ==_iff, if◌then◌else◌}
use mathlib.Core.Path.{subst}
use paqet.Prelude.Maybe.{some_equal}
use paqet.Prelude.Assoc.{lookup, insert, delete, lookup-insert, lookup-delete}
use paqet.Flags.{TcpFlags}
use paqet.Iterator.{next}
use paqet.Address.{UdpAddr, udp, key}
use paqet.Send.{SendHandle, next_tcpf, set_client_tcpf, clear_client_tcpf}
use paqet.Send.Maps.{next_tcpf-shared}

set_is :
    (h : SendHandle) (a : UdpAddr) (k : ℕ) (f : List TcpFlags) {h' : SendHandle}
    → key a ≡ some k
    → set_client_tcpf h (udp a) f ≡ some h'
    → record h { client_tcpf = insert k (record { items = f; index = 0 }) h.client_tcpf } ≡ h'
unfolding set_client_tcpf
set_is h a k f {h'} e s =
    some_equal (subst (λ (m : Option SendHandle). m ≡ some h') (rw (e, set_client_tcpf) refl) s)

-- setClientTCPF changes the entry of its address alone, and starts it afresh.
pub set_client_tcpf_lem :
    (h : SendHandle) (a : UdpAddr) (j k : ℕ) (f : List TcpFlags) {h' : SendHandle}
    → key a ≡ some k
    → set_client_tcpf h (udp a) f ≡ some h'
    → (lookup j h'.client_tcpf
        ≡ (if k == j then some (record { items = f; index = 0 }) else lookup j h.client_tcpf))
      × (h'.conn_states ≡ h.conn_states)
set_client_tcpf_lem h a j k f {h'} e s =
    subst
      (λ (g : SendHandle).
        (lookup j g.client_tcpf
          ≡ (if k == j then some (record { items = f; index = 0 }) else lookup j h.client_tcpf))
        × (g.conn_states ≡ h.conn_states))
      (set_is h a k f e s) (lookup-insert j k _ h.client_tcpf, refl)

clear_is :
    (h : SendHandle) (a : UdpAddr) (k : ℕ) {h' : SendHandle}
    → key a ≡ some k
    → clear_client_tcpf h (udp a) ≡ some h'
    → record h { client_tcpf = delete k h.client_tcpf; conn_states = delete k h.conn_states } ≡ h'
unfolding clear_client_tcpf
clear_is h a k {h'} e s =
    some_equal (subst (λ (m : Option SendHandle). m ≡ some h') (rw (e, clear_client_tcpf) refl) s)

-- clearClientTCPF forgets the flags and the sequence state of its address and of no other; the next
-- packet to that address takes its flags from the configured ones.
pub clear_client_tcpf_lem :
    (h : SendHandle) (a : UdpAddr) (k : ℕ) (h' : SendHandle)
    → key a ≡ some k
    → clear_client_tcpf h (udp a) ≡ some h'
    → ((j : ℕ)
        → (lookup j h'.client_tcpf ≡ (if k == j then none else lookup j h.client_tcpf))
          × (lookup j h'.conn_states ≡ (if k == j then none else lookup j h.conn_states)))
      × ((next_tcpf h' k).0 ≡ (next h.tcp_f).0)
clear_client_tcpf_lem h a k h' e s =
    subst
      (λ (g : SendHandle).
        ((j : ℕ)
          → (lookup j g.client_tcpf ≡ (if k == j then none else lookup j h.client_tcpf))
            × (lookup j g.conn_states ≡ (if k == j then none else lookup j h.conn_states)))
        × ((next_tcpf g k).0 ≡ (next h.tcp_f).0))
      (clear_is h a k e s)
      (
        λ j. (lookup-delete j k h.client_tcpf, lookup-delete j k h.conn_states),
        next_tcpf-shared
            (record h {
              client_tcpf = delete k h.client_tcpf;
              conn_states = delete k h.conn_states;
            })
            k (lookup-delete k k h.client_tcpf ∙ rw ((==_iff k k).1 refl) refl),
      )
