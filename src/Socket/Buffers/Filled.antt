-- ===== src/Socket/Buffers/Filled.antt =====
-- A payload in a buffer of the pool, or in memory of its own.
use paqet.Prelude.Update.{put_self}
use paqet.Prelude.{
  All_weaken, All_both, ℕ, ◌<◌, ◌≡◌, ◌≢◌, refl, ap, ◌∙◌, sym, Bool, true, false, List, Option, some,
  inl, inr, Bool-cases, arith, leb, length, take, All, take-append,
}
use mathlib.Core.Path.{ap₂, subst}
use paqet.Prelude.Maybe.{some_equal}
use paqet.Address.{UdpAddr}
use paqet.Socket.{PacketConn, get_buf, copy_payload}
use paqet.Socket.Spec.{Message}
use paqet.Socket.Buffers.{buf_of, IsHeld, Distinct, IsOwned, view, messages_put, still-IsHeld}

-- A buffer taken from the pool, for recvLoop alone.
pub record Taken (c : PacketConn) (i : ℕ) : Type 0 where
  pub exists : i < c.made
  pub mine : c.free i ≡ false
  pub held : All (IsHeld c.made c.free) c.queue
  pub others : All (λ p. buf_of p ≢ some i) c.queue
  pub distinct : Distinct c.queue
  pub old : (j : ℕ) → c.free j ≡ true → j < c.made

-- The channel after recvLoop has a payload to send.
abbrev pub Filled : PacketConn → List ℕ → UdpAddr → PacketConn → Type 0
Filled c payload addr c' =
    IsOwned c'
    × (view c' ≡ record (view c) { pending = some (record { bytes = payload; addr = addr }) })

pub copy_payload-Filled :
    (c : PacketConn) (i : ℕ) (payload : List ℕ) (addr : UdpAddr)
    → Taken c i
    → Filled c payload addr (copy_payload (i, c) payload addr)
unfolding copy_payload
copy_payload-Filled c i payload addr t =
    elim (Bool-cases (leb (length payload) (length (c.bufs i)))) [
      | inl fits ↦ rw fits (
        record {
          held = t.held;
          held_pending = λ j e.
              subst (λ j. (j < c.made) × (c.free j ≡ false)) (some_equal e) (t.exists, t.mine);
          distinct = t.distinct;
          apart = All_weaken _ _ c.queue (λ p h j e f. h (e ∙ sym f)) t.others;
          old = t.old;
        },
        ap₂
            (λ (q : List Message) (b : List ℕ). record (view c) {
              queue = q;
              pending = some (record { bytes = b; addr = addr });
            })
            (messages_put c.bufs i _ c.queue t.others)
            (ap (take (length payload)) (put_self c.bufs i _) ∙ take-append payload _),
      )
      | inr big ↦ rw big (
        record {
          held = All_both _ _ _ c.queue (still-IsHeld c.made c.free i) t.held t.others;
          held_pending = λ j e. cc;
          distinct = t.distinct;
          apart = All_weaken _ _ c.queue (λ p h j e f. cc) t.others;
          old = λ j e. ground (arith, t.old j, t.exists);
        },
        refl,
      )
    ]

not_there : (free : ℕ → Bool) (n : ℕ) → ((i : ℕ) → free i ≡ true → i < n) → free n ≡ false
not_there free n h = elim (Bool-cases (free n)) [
  | inl e ↦ absurd (omega (arith, h n e))
  | inr e ↦ e
]

-- A buffer of the pool, or a new one, is recvLoop's alone.
pub get_buf-Taken :
    (c : PacketConn) (choice : ℕ)
    → IsOwned c
    → let (i, c') = get_buf c choice in
      Taken c' i
      × ((m : Option Message) → record (view c') { pending = m } ≡ record (view c) { pending = m })
unfolding get_buf
get_buf-Taken c choice v = elim (Bool-cases (c.free choice)) [
  | inl there ↦ rw there (
    record {
      exists = v.old choice there;
      mine = put_self c.free choice false;
      held = All_weaken _ _ c.queue (λ p h j e. ((h j e).0, ground (arith, h j e))) v.held;
      others = All_weaken _ _ c.queue (λ p h e. cc ((h choice e).1)) v.held;
      distinct = v.distinct;
      old = λ j e. ground (arith, v.old j);
    },
    λ m. refl,
  )
  | inr new ↦
      let others : All (λ p. buf_of p ≢ some c.made) c.queue =
        All_weaken _ _ c.queue (λ p h e. absurd (omega (arith, h c.made e))) v.held in
      rw new (
        record {
          exists = omega arith;
          mine = not_there c.free c.made v.old;
          held = All_weaken _ _ c.queue (λ p h j e. (omega (arith, h j e), (h j e).1)) v.held;
          others = others;
          distinct = v.distinct;
          old = λ j e. omega (arith, v.old j e);
        },
        λ m.
            ap (λ q. record (view c) { queue = q; pending = m })
              (messages_put c.bufs c.made _ c.queue others),
      )
]
