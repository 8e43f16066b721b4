-- ===== src/Send/Header.antt =====
-- The TCP header: options of the right sizes that carry the timestamps.
use paqet.Prelude.{
  ℕ, ◌+◌, ◌*◌, ◌/◌, ◌%◌, ◌^◌, ◌≤◌, ◌<◌, ◌≡◌, Bool, true, false, ◌&&◌, not, List, [], ◌∷◌, Option,
  none, some, ◌==◌, if◌then◌else◌, length, All, arith,
}
use paqet.Flags.{TcpFlags}
use paqet.Send.{SendHandle, TcpOption, build_tcp_header}

-- An option of one byte (end of list, NOP), or one whose length field counts kind, length and
-- content.
pub is_sized : TcpOption → Bool
is_sized o = if o.kind == 1 then length o.content == 0 else o.len == length o.content + 2

abbrev pub IsSized : TcpOption → Type 0
IsSized o = is_sized o ≡ true

abbrev pub wire_length : List TcpOption → ℕ
wire_length [] = 0
wire_length (o ∷ os) = (if o.kind == 1 then 1 else length o.content + 2) + wire_length os

-- The options fill whole words of the header and fit in the 40 bytes that it has for them.
pub build_tcp_header_options :
    (h : SendHandle) (port : ℕ) (f : TcpFlags) (seq ack val ecr : ℕ)
    → let os = (build_tcp_header h port f seq ack val ecr).options in
      All IsSized os × (wire_length os % 4 ≡ 0) × (wire_length os ≤ 40)
unfolding build_tcp_header is_sized
build_tcp_header_options h port f seq ack val ecr = ground arith

-- The value and the echo reply of the first timestamps option, as a receiver reads them.
pub timestamps_of : List TcpOption → Option (ℕ × ℕ)
timestamps_of [] = none
timestamps_of (o ∷ os) = elim (o.kind == 8) [
  | true ↦ read_pair o.content
  | false ↦ timestamps_of os
]
  where
    read_pair : List ℕ → Option (ℕ × ℕ)
    read_pair (a ∷ b ∷ c ∷ d ∷ e ∷ f ∷ g ∷ h ∷ []) =
        some (((a * 256 + b) * 256 + c) * 256 + d, ((e * 256 + f) * 256 + g) * 256 + h)
    read_pair _ = none

word_back :
    (v : ℕ)
    → v < 2 ^ 32
    → ((v / 2 ^ 24 % 256 * 256 + v / 2 ^ 16 % 256) * 256 + v / 256 % 256) * 256 + v % 256 ≡ v
word_back v h = omega arith

-- A SYN without ACK carries neither an acknowledgement nor an echo; any other header carries both
-- as given, and each carries the timestamp, readable from its options.
pub build_tcp_header_lem :
    (h : SendHandle) (port : ℕ) (f : TcpFlags) (seq ack val ecr : ℕ)
    → val < 2 ^ 32
    → ecr < 2 ^ 32
    → let tcp = build_tcp_header h port f seq ack val ecr in
      let bare = f.syn && not f.ack in
      (tcp.seq ≡ seq)
      × (tcp.ack ≡ (if bare then 0 else ack))
      × (timestamps_of tcp.options ≡ some (val, if bare then 0 else ecr))
unfolding build_tcp_header timestamps_of
build_tcp_header_lem h port f seq ack val ecr hv he =
    ground (arith, word_back val hv, word_back ecr he)
