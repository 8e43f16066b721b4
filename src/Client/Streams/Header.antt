-- ===== src/Client/Streams/Header.antt =====
-- The header that TCP (internal/client/tcp.go) writes, in the hands of the server's handleStrm
-- (internal/server/handle.go).
use paqet.Prelude.{ℕ, ◌≤◌, ◌≡◌, refl, true, List, [], ◌++◌, some, inl, length}
use paqet.Prelude.Text.{Text}
use paqet.Prelude.Int.{pos, u16_of_ℤ}
use paqet.Protocol.{Addr, zero_proto, p_tcp}
use paqet.Protocol.RoundTrip.{read-frame_addr}
use paqet.Address.{NetAddr}
use paqet.Send.{SendHandle}
use paqet.Server.{tcp, handle_strm}
use paqet.Server.Handshake.{handle_strm-tcp}
use paqet.Conf.{Env, ok, new_addr}
use paqet.Client.Streams
use paqet.Client.Streams.{Client, Turn, Strm, strm, new_strm}

-- Where newStrm gives a stream that can be written, and the target parses to an address whose host
-- has at most 255 bytes, TCP returns the stream with a header on it. The server that reads the
-- header, in any state and whatever follows it, goes on to dial that host at that port (modulo 2 ^
-- 16) and has written nothing back.
pub tcp-handle_strm :
    (env : Env) (w : ℕ → Turn) (target : Text) (a : Addr) (c c' : Client) (s : Strm)
    (h : SendHandle) (remote : NetAddr) (rest : List ℕ)
    → new_strm w c ≡ some (c', some s)
    → new_addr env target ≡ ok a
    → length a.host ≤ 255
    → (bs : List ℕ) × (Streams.tcp env w target true c ≡ some (c', strm s bs))
      × (handle_strm h remote (bs ++ rest) ≡ record {
        send = h;
        written = [];
        outcome = tcp (record { host = a.host; port = pos (u16_of_ℤ a.port) });
      })
unfolding Streams.tcp
tcp-handle_strm env w target a c c' s h remote rest n e l =
    let (bs, f, r) = read-frame_addr p_tcp a [] zero_proto rest (inl refl) l in
    (bs, rw (n, e, f) refl, handle_strm-tcp h remote (bs ++ rest) rest _ r)
