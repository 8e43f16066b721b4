-- ===== src/Socket/Buffers.antt =====
-- Who owns a buffer: the pool, or one packet on its way.
pub mod Filled
use paqet.Prelude.Update.{put, put_other, put_self}
use paqet.Prelude.{
  All_weaken, All_both, All-append, ℕ, ◌<◌, ◌≡◌, ◌≢◌, refl, ap, ◌∙◌, sym, Bool, true, false, List,
  [], ◌∷◌, ◌++◌, map, Option, none, some, inl, inr, Bool-cases, arith, leb, length, take, All,
  take-append,
}
use mathlib.Core.Path.{ap₂, subst}
use paqet.Prelude.Maybe.{some_equal}
use paqet.Address.{UdpAddr}
use paqet.Socket.{
  RecvPacket, pooled, oversized, PacketConn, get_buf, copy_payload, contents, source,
}
use paqet.Socket.Spec.{Message, Channel}

abbrev pub buf_of : RecvPacket → Option ℕ
buf_of (pooled addr i n) = some i
buf_of (oversized addr bytes) = none

-- Its buffer exists and is not in the pool.
abbrev pub IsHeld : ℕ → (ℕ → Bool) → RecvPacket → Type 0
IsHeld made free p = (i : ℕ) → buf_of p ≡ some i → (i < made) × (free i ≡ false)

abbrev pub Apart : RecvPacket → RecvPacket → Type 0
Apart p q = (i : ℕ) → buf_of p ≡ some i → buf_of q ≢ some i

abbrev pub Distinct : List RecvPacket → Type 0
Distinct [] = Unit {0}
Distinct (p ∷ ps) = All (Apart p) ps × Distinct ps

abbrev pub OnPending : (RecvPacket → Type 0) → Option RecvPacket → Type 0
OnPending P none = Unit {0}
OnPending P (some p) = P p

-- No buffer is in two places.
pub record Owned (made : ℕ) (free : ℕ → Bool) (queue : List RecvPacket)
    (pending : Option RecvPacket) : Type 0 where
  pub held : All (IsHeld made free) queue
  pub held_pending : OnPending (IsHeld made free) pending
  pub distinct : Distinct queue
  pub apart : OnPending (λ p. All (λ q. Apart q p) queue) pending
  pub old : (i : ℕ) → free i ≡ true → i < made

abbrev pub IsOwned : PacketConn → Type 0
IsOwned c = Owned c.made c.free c.queue c.pending

pub Distinct-snoc :
    (ps : List RecvPacket) (p : RecvPacket)
    → Distinct ps
    → All (λ q. Apart q p) ps
    → Distinct (ps ++ (p ∷ []))
Distinct-snoc [] p d h = (tt, tt)
Distinct-snoc (q ∷ ps) p d h = (All-append _ ps _ d.0 (h.0, tt), Distinct-snoc ps p d.1 h.1)

-- What a packet carries.
abbrev pub message : (ℕ → List ℕ) → RecvPacket → Message
message bufs p = record { bytes = contents bufs p; addr = source p }

abbrev pub pending_message : (ℕ → List ℕ) → Option RecvPacket → Option Message
pending_message bufs none = none
pending_message bufs (some p) = some (message bufs p)

-- The channel that a PacketConn is.
abbrev pub view : PacketConn → Channel
view c = record {
  queue = map (message c.bufs) c.queue;
  pending = pending_message c.bufs c.pending;
  closed = c.closed;
  cancelled = c.cancelled;
  deadline = c.deadline;
}

message-put :
    (bufs : ℕ → List ℕ) (i : ℕ) (bytes : List ℕ) (p : RecvPacket)
    → buf_of p ≢ some i
    → message (put bufs i bytes) p ≡ message bufs p
message-put bufs i bytes (pooled addr j n) h =
    ap (λ t. record { bytes = take n t; addr = addr })
      (put_other bufs i bytes j (λ e. h (ap some e)))
message-put bufs i bytes (oversized addr own) h = refl

pub messages_put :
    (bufs : ℕ → List ℕ) (i : ℕ) (bytes : List ℕ) (ps : List RecvPacket)
    → All (λ p. buf_of p ≢ some i) ps
    → map (message (put bufs i bytes)) ps ≡ map (message bufs) ps
messages_put bufs i bytes [] h = refl
messages_put bufs i bytes (p ∷ ps) h =
    ap₂ ◌∷◌ (message-put bufs i bytes p h.0) (messages_put bufs i bytes ps h.1)

-- Another buffer goes back to the pool.
pub still-IsHeld :
    (made : ℕ) (free : ℕ → Bool) (i : ℕ) (p : RecvPacket)
    → IsHeld made free p
    → buf_of p ≢ some i
    → IsHeld made (put free i true) p
still-IsHeld made free i p h k j e =
    ((h j e).0, put_other free i true j (λ x. k (e ∙ ap some x)) ∙ (h j e).1)

pub OnPending-both :
    (P Q R : RecvPacket → Type 0) (o : Option RecvPacket)
    → ((p : RecvPacket) → P p → Q p → R p)
    → OnPending P o
    → OnPending Q o
    → OnPending R o
OnPending-both P Q R none f h k = tt
OnPending-both P Q R (some p) f h k = f p h k

-- A buffer that no packet has goes back to the pool.
pub put_back-Owned :
    (made : ℕ) (free : ℕ → Bool) (queue : List RecvPacket) (pending : Option RecvPacket) (i : ℕ)
    → i < made
    → All (λ p. buf_of p ≢ some i) queue
    → OnPending (λ p. buf_of p ≢ some i) pending
    → Owned made free queue pending
    → Owned made (put free i true) queue pending
put_back-Owned made free queue pending i h a b v = record {
  held = All_both _ _ _ queue (still-IsHeld made free i) v.held a;
  held_pending = OnPending-both _ _ _ pending (still-IsHeld made free i) v.held_pending b;
  distinct = v.distinct;
  apart = v.apart;
  old = λ j e. ground (arith, v.old j);
}

-- The head of the queue is taken off.
pub tail-Owned :
    (made : ℕ) (free : ℕ → Bool) (p : RecvPacket) (ps : List RecvPacket)
    (pending : Option RecvPacket)
    → Owned made free (p ∷ ps) pending
    → Owned made free ps pending
tail-Owned made free p ps pending v = record {
  held = v.held.1;
  held_pending = v.held_pending;
  distinct = v.distinct.1;
  apart = OnPending-both _ _ _ pending (λ q h k. h.1) v.apart v.apart;
  old = v.old;
}

-- recvLoop no longer has a packet.
pub lost-Owned :
    (made : ℕ) (free : ℕ → Bool) (queue : List RecvPacket) (pending : Option RecvPacket)
    → Owned made free queue pending
    → Owned made free queue none
lost-Owned made free queue pending v = record {
  held = v.held;
  held_pending = tt;
  distinct = v.distinct;
  apart = tt;
  old = v.old;
}

-- The packet of recvLoop goes to the end of the queue.
pub sent-Owned :
    (made : ℕ) (free : ℕ → Bool) (queue : List RecvPacket) (p : RecvPacket)
    → Owned made free queue (some p)
    → Owned made free (queue ++ (p ∷ [])) none
sent-Owned made free queue p v = record {
  held = All-append _ queue _ v.held (v.held_pending, tt);
  held_pending = tt;
  distinct = Distinct-snoc queue p v.distinct v.apart;
  apart = tt;
  old = v.old;
}

-- The pool lets go of a buffer.
pub drop-Owned :
    (made : ℕ) (free : ℕ → Bool) (queue : List RecvPacket) (pending : Option RecvPacket) (i : ℕ)
    → Owned made free queue pending
    → Owned made (put free i false) queue pending
drop-Owned made free queue pending i v = record {
  held = All_weaken _ _ queue (λ p h j e. ((h j e).0, ground (arith, h j e))) v.held;
  held_pending =
      OnPending-both _ _ _ pending (λ p h k j e. ((h j e).0, ground (arith, h j e))) v.held_pending
        v.held_pending;
  distinct = v.distinct;
  apart = v.apart;
  old = λ j e. ground (arith, v.old j);
}
