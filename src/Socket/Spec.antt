-- ===== src/Socket/Spec.antt =====
-- What a PacketConn promises on its receiving side: a channel of messages with a place for one
-- more, without buffers.
use paqet.Prelude.{
  ℕ, Bool, true, false, List, [], ◌∷◌, ◌++◌, Option, none, some, if◌then◌else◌, ltb, length, take,
}
use paqet.Address.{UdpAddr}
use paqet.Socket.{
  Received, fatal, idle, packet, Way, from_channel, by_context, by_deadline, Read, got, eof,
  context_error, deadline_exceeded, blocked, Event, receives, hands_over, gives_up, cancels,
  reads_from, sets_deadline, drops, capacity,
}

pub record Message : Type 0 where
  pub bytes : List ℕ
  pub addr : UdpAddr

pub record Channel : Type 0 where
  pub queue : List Message
  pub pending : Option Message
  pub closed : Bool
  pub cancelled : Bool
  pub deadline : Bool

unfoldable pub accept : Channel → Received → Channel
accept c fatal = record c { closed = true }
accept c idle = if c.cancelled then record c { closed = true } else c
accept c (packet payload addr syn seq rs ra) = record c {
  pending = some (record { bytes = payload; addr = addr });
}

abbrev pub accept_if : Channel → Option Message → Bool → Received → Channel
accept_if c none false r = accept c r
accept_if c _ _ r = c

abbrev pub pass_on : Channel → Option Message → Channel
pass_on c none = c
pass_on c (some m) =
    if ltb (length c.queue) capacity
    then record c { queue = c.queue ++ (m ∷ []); pending = none }
    else c

abbrev pub lose : Channel → Option Message → Channel
lose c none = c
lose c (some m) = if c.cancelled then record c { pending = none; closed = true } else c

abbrev pub take_head : Channel → ℕ → List Message → Channel × Read
take_head c size [] = (c, if c.closed then eof else blocked)
take_head c size (m ∷ ms) = (record c { queue = ms }, got (take size m.bytes) m.addr)

abbrev pub read : Channel → ℕ → Way → Channel × Read
read c size from_channel = take_head c size c.queue
read c size by_context = (c, if c.cancelled then context_error else blocked)
read c size by_deadline = (c, if c.deadline then deadline_exceeded else blocked)

unfoldable pub step : Channel → Event → Channel × List Read
unfolding accept
step c (receives r choice) = (accept_if c c.pending c.closed r, [])
step c hands_over = (pass_on c c.pending, [])
step c gives_up = (lose c c.pending, [])
step c cancels = (record c { cancelled = true }, [])
step c (reads_from size way) = let (c', r) = read c size way in (c', r ∷ [])
step c (sets_deadline d) = (record c { deadline = d }, [])
step c (drops i) = (c, [])

unfoldable pub run : Channel → List Event → Channel × List Read
unfolding step
run c [] = (c, [])
run c (e ∷ es) = let (c', r) = step c e in let (c'', s) = run c' es in (c'', r ++ s)
