-- ===== src/Protocol/Runs.antt =====
-- Messages at concrete flags and addresses.
use paqet.Prelude.{
  ℕ, ◌≡◌, refl, true, List, [], ◌∷◌, ◌++◌, none, some, inl, arith, length, take, drop, u8,
}
use paqet.Prelude.Int.{pos, u16_of_ℤ}
use paqet.Prelude.Text.{codes}
use paqet.Flags.{TcpFlags, no_flags}
use paqet.Protocol.{Addr, zero_proto, ok, p_tcpf, p_tcp, frame, read, words}
use paqet.Protocol.RoundTrip.{read-frame_tcpf, read-frame_addr}

abbrev two : List TcpFlags
two = record no_flags { psh = true; ack = true } ∷ record no_flags { syn = true } ∷ []

abbrev target : Addr
target = record { host = codes "example.org"; port = pos 443 }

read-frame_tcpf_example :
    (bs : List ℕ) × (frame (record { type = p_tcpf; addr = none; tcpf = two }) ≡ ok bs)
    × (read zero_proto (bs ++ (9 ∷ [])) ≡ (
      record zero_proto { type = p_tcpf; tcpf = take (u8 (length two)) two },
      words (drop (u8 (length two)) two) ++ (9 ∷ []),
      none,
    ))
read-frame_tcpf_example = read-frame_tcpf none two zero_proto (9 ∷ [])

read-frame_addr_example :
    (bs : List ℕ) × (frame (record { type = p_tcp; addr = some target; tcpf = two }) ≡ ok bs)
    × (read zero_proto (bs ++ []) ≡ (
      record zero_proto {
        type = p_tcp;
        addr = some (record { host = target.host; port = pos (u16_of_ℤ target.port) });
      },
      [],
      none,
    ))
read-frame_addr_example = read-frame_addr p_tcp target two zero_proto [] (inl refl) (omega arith)
