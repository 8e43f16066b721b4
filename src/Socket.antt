-- ===== src/Socket.antt =====
-- internal/socket/socket.go: the receiving half of a PacketConn. recvLoop copies each payload into
-- a pooled buffer and sends it on recvCh, ReadFrom takes it from there. A buffer is a number with
-- its contents in `bufs`. The goroutines' steps are Events, in every order; one that cannot happen
-- in a state changes nothing.
pub mod Spec
pub mod Buffers
pub mod Total
pub mod Refine
pub mod Recv
pub mod Open
pub mod Exchange
mod Runs
use paqet.Prelude.Update.{put, put_other, put_self}
use paqet.Prelude.{
  ℕ, ◌+◌, Bool, true, false, List, [], ◌∷◌, ◌++◌, Option, none, some, ◌==◌, if◌then◌else◌, ltb, leb,
  length, take, drop, replicate,
}
use paqet.Prelude.Maybe.{◌>>=◌}
use paqet.Address.{UdpAddr, NetAddr, udp}
use paqet.Send.{SendHandle, observe_peer_syn}

-- recvPacket: `data` is the first n bytes of a pooled buffer, or memory of its own where poolBuf is
-- nil.
pub data RecvPacket : Type 0 where
  pooled : UdpAddr → ℕ → ℕ → RecvPacket
  oversized : UdpAddr → List ℕ → RecvPacket

-- `pending` is the packet that recvLoop holds in its last select, `closed` says that it has
-- returned and closed recvCh, `deadline` that a read deadline is set.
pub record PacketConn : Type 0 where
  pub send : SendHandle
  pub bufs : ℕ → List ℕ
  pub made : ℕ
  pub free : ℕ → Bool
  pub queue : List RecvPacket
  pub pending : Option RecvPacket
  pub closed : Bool
  pub cancelled : Bool
  pub deadline : Bool

abbrev pub payload_pool_size : ℕ
payload_pool_size = 2048

-- The capacity of recvCh.
abbrev pub capacity : ℕ
capacity = 64

-- payloadPool.Get(): some pooled buffer, or a new one.
unfoldable pub get_buf : PacketConn → ℕ → ℕ × PacketConn
get_buf c choice =
    if c.free choice then (choice, record c { free = put c.free choice false }) else (
      c.made,
      record c { bufs = put c.bufs c.made (replicate payload_pool_size 0); made = c.made + 1 },
    )

-- The payload is copied to the front of buffer i, if it fits.
unfoldable pub copy_payload : ℕ × PacketConn → List ℕ → UdpAddr → PacketConn
copy_payload (i, c) payload addr =
    if leb (length payload) (length (c.bufs i))
    then record c {
      bufs = put c.bufs i (payload ++ drop (length payload) (c.bufs i));
      pending = some (pooled addr i (length payload));
    }
    else record c { free = put c.free i true; pending = some (oversized addr payload) }

-- What recvHandle.Read returns: an error, nothing, or a payload with its source; LastSYN and
-- LastSeq; and the random numbers of a new entry in ObservePeerSYN.
pub data Received : Type 0 where
  fatal idle : Received
  packet : List ℕ → UdpAddr → Bool → ℕ → ℕ → ℕ → Received

-- SYN correlation; `none` is a panic in the key of the address.
unfoldable pub correlate : SendHandle → UdpAddr → Bool → ℕ → ℕ → ℕ → Option SendHandle
correlate h addr false seq rs ra = some h
correlate h addr true seq rs ra = observe_peer_syn h (udp addr) seq rs ra

-- One round of recvLoop up to its last select.
unfoldable pub receive : PacketConn → Received → ℕ → Option PacketConn
unfolding correlate get_buf copy_payload
receive c fatal choice = some (record c { closed = true })
receive c idle choice = some (if c.cancelled then record c { closed = true } else c)
receive c (packet payload addr syn seq rs ra) choice = correlate c.send addr syn seq rs ra >>= λ h.
    some (copy_payload (get_buf (record c { send = h }) choice) payload addr)

-- payloadPool.Put, if there is a buffer to put back.
unfoldable pub put_back : PacketConn → RecvPacket → PacketConn
put_back c (pooled addr i n) = record c { free = put c.free i true }
put_back c (oversized addr bytes) = c

-- The two cases of the last select.
unfoldable pub hand_over : PacketConn → Option RecvPacket → PacketConn
hand_over c none = c
hand_over c (some p) =
    if ltb (length c.queue) capacity
    then record c { queue = c.queue ++ (p ∷ []); pending = none }
    else c

unfoldable pub give_up : PacketConn → Option RecvPacket → PacketConn
unfolding put_back
give_up c none = c
give_up c (some p) =
    if c.cancelled then put_back (record c { pending = none; closed = true }) p else c

abbrev pub contents : (ℕ → List ℕ) → RecvPacket → List ℕ
contents bufs (pooled addr i n) = take n (bufs i)
contents bufs (oversized addr bytes) = bytes

abbrev pub source : RecvPacket → UdpAddr
source (pooled addr i n) = addr
source (oversized addr bytes) = addr

-- Which case of ReadFrom's select is taken; and how it ends, where `blocked` means not yet.
pub data Way : Type 0 where
  from_channel by_context by_deadline : Way

pub data Read : Type 0 where
  got : List ℕ → UdpAddr → Read
  eof context_error deadline_exceeded blocked : Read

abbrev pub read_head : PacketConn → ℕ → List RecvPacket → PacketConn × Read
read_head c size [] = (c, if c.closed then eof else blocked)
read_head c size (p ∷ ps) =
    (put_back (record c { queue = ps }) p, got (take size (contents c.bufs p)) (source p))

-- ReadFrom into a slice of the given size.
unfoldable pub read_from : PacketConn → ℕ → Way → PacketConn × Read
unfolding put_back
read_from c size from_channel = read_head c size c.queue
read_from c size by_context = (c, if c.cancelled then context_error else blocked)
read_from c size by_deadline = (c, if c.deadline then deadline_exceeded else blocked)

pub data Event : Type 0 where
  receives : Received → ℕ → Event
  hands_over gives_up cancels : Event
  reads_from : ℕ → Way → Event
  sets_deadline : Bool → Event
  -- the pool lets go of a buffer
  drops : ℕ → Event

-- recvLoop goes on if it neither holds a packet nor has returned.
abbrev pub receive_if : PacketConn → Option RecvPacket → Bool → Received → ℕ → Option PacketConn
receive_if c none false r choice = receive c r choice
receive_if c _ _ r choice = some c

unfoldable pub step : PacketConn → Event → Option (PacketConn × List Read)
unfolding receive hand_over give_up read_from
step c (receives r choice) = receive_if c c.pending c.closed r choice >>= λ c'. some (c', [])
step c hands_over = some (hand_over c c.pending, [])
step c gives_up = some (give_up c c.pending, [])
step c cancels = some (record c { cancelled = true }, [])
step c (reads_from size way) = let (c', r) = read_from c size way in some (c', r ∷ [])
step c (sets_deadline d) = some (record c { deadline = d }, [])
step c (drops i) = some (record c { free = put c.free i false }, [])

-- What the calls of ReadFrom return; `none` is a panic.
unfoldable pub run : PacketConn → List Event → Option (PacketConn × List Read)
unfolding step
run c [] = some (c, [])
run c (e ∷ es) = step c e >>= λ (r : PacketConn × List Read).
    run r.0 es >>= λ (s : PacketConn × List Read). some (s.0, r.1 ++ s.1)
