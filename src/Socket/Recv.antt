-- ===== src/Socket/Recv.antt =====
-- internal/socket/recv_handle.go: what RecvHandle.Read makes of a captured frame, and WriteTo of
-- socket.go, from which such frames come. The parser of gopacket is an argument: it says whether
-- DecodeLayers succeeds, and what it leaves in the layers.
use paqet.Prelude.{
  ℕ, Bool, true, false, ◌||◌, not, List, [], ◌∷◌, Option, none, some, ◌==◌, if◌then◌else◌, length,
}
use paqet.Prelude.Int.{ℤ, pos}
use paqet.Prelude.Maybe.{◌>>=◌}
use paqet.Address.{UdpAddr, NetAddr, udp, nil_udp, other}
use paqet.Send.{SendHandle, Packet, write}

pub data LayerType : Type 0 where
  layer_ethernet layer_ipv4 layer_ipv6 layer_tcp : LayerType

-- The RecvHandle: the layers of the last frame.
pub record RecvHandle : Type 0 where
  pub decoded : List LayerType
  pub ip4_src : List ℕ
  pub ip6_src : List ℕ
  pub src_port : ℕ
  pub seq : ℕ
  pub syn : Bool
  pub payload : List ℕ

-- What ZeroCopyReadPacketData returns.
pub data Capture : Type 0 where
  timeout capture_error : Capture
  frame : List ℕ → Capture

-- What Read returns: an error, (nil, nil, nil), or a payload with its sender.
pub data Heard : Type 0 where
  failed nothing : Heard
  heard : List ℕ → UdpAddr → Heard

-- The variables of Read's loop over the decoded layers.
pub record Scan : Type 0 where
  pub src_ip : List ℕ
  pub src_port : ℤ
  pub has_ip : Bool
  pub has_tcp : Bool

abbrev pub scan : RecvHandle → Scan → List LayerType → Scan
scan h s [] = s
scan h s (layer_ethernet ∷ ts) = scan h s ts
scan h s (layer_ipv4 ∷ ts) = scan h (record s { src_ip = h.ip4_src; has_ip = true }) ts
scan h s (layer_ipv6 ∷ ts) = scan h (record s { src_ip = h.ip6_src; has_ip = true }) ts
scan h s (layer_tcp ∷ ts) = scan h (record s { src_port = pos h.src_port; has_tcp = true }) ts

abbrev pub no_scan : Scan
no_scan = record { src_ip = []; src_port = pos 0; has_ip = false; has_tcp = false }

-- Read after the decoding.
abbrev pub heard_of : RecvHandle → Heard
heard_of h =
    let s = scan h no_scan h.decoded in
    if not s.has_ip || (not s.has_tcp || length h.payload == 0)
    then nothing
    else heard h.payload (record { ip = s.src_ip; port = s.src_port })

-- RecvHandle.Read. The parser gets the layers with `decoded` emptied.
unfoldable pub read :
    (RecvHandle → List ℕ → Bool × RecvHandle) → RecvHandle → Capture → Heard × RecvHandle
read parser h timeout = (nothing, h)
read parser h capture_error = (failed, h)
read parser h (frame bytes) =
    let (ok, h') = parser (record h { decoded = [] }) bytes in
    (if ok then heard_of h' else nothing, h')

-- How WriteTo ends: `wrote` carries the packet for SerializeLayers and WritePacketData.
pub data Write : Type 0 where
  context_error deadline_exceeded invalid_address : Write
  wrote : ℕ → Packet → Write

-- WriteTo. A select takes one of its ready cases: `deadline_first` chooses if both are ready.
-- `none` is a panic.
unfoldable pub write_to :
    SendHandle → Bool → Bool → Bool → List ℕ → NetAddr → ℕ → ℕ → Option (Write × SendHandle)
write_to h cancelled expired deadline_first bytes addr rs ra =
    if cancelled
    then some (
      (if expired
          then (if deadline_first then deadline_exceeded else context_error)
          else context_error),
      h,
    )
    else if expired
    then some (deadline_exceeded, h)
    else elim addr [
      | udp a ↦ write h bytes a rs ra >>= λ (r : Packet × SendHandle).
          some (wrote (length bytes) r.0, r.1)
      | nil_udp ↦ none
      | other ↦ some (invalid_address, h)
    ]
