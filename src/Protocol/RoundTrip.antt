-- ===== src/Protocol/RoundTrip.antt =====
-- Read after Write.
use paqet.Prelude.{
  ℕ, ◌*◌, ◌%◌, ◌≤◌, ◌<◌, ◌≡◌, refl, sym, ap, ◌∙◌, ◌/◌, ◌⊎◌, inl, inr, List, [], ◌∷◌, ◌++◌, none,
  some, Option, u8, arith, length, take-append-drop, length-take, take-of_length_le,
  drop-of_length_le, take, drop,
}
use mathlib.Core.List.{append_assoc}
use mathlib.Core.Path.{ap₂}
use paqet.Prelude.Int.{ℤ, pos, negsuc, u16_of_ℤ}
use paqet.Flags.{TcpFlags, to_word, from_word}
use paqet.Flags.Word.{to_word-lt, from_word-to_word}
use paqet.Protocol.{
  Addr, p_tcpf, p_tcp, p_udp, Proto, ok, read_full, put_uint16, uint16, read_words, words, read,
  frame, read_host, read_flags,
}

pub read_full-append : (bs r : List ℕ) → read_full (length bs) (bs ++ r) ≡ ok (bs, r)
unfolding read_full
read_full-append [] r = refl
read_full-append (b ∷ bs) r = rw (read_full-append bs r)

length-words : (fs : List TcpFlags) → length (words fs) ≡ length fs * 2
unfolding words
length-words [] = refl
length-words (f ∷ fs) = omega (arith, length-words fs)

join : (w : ℕ) → w < 512 → uint16 (w / 256 % 256) (w % 256) ≡ w
join w h = omega arith

read_words-words : (fs : List TcpFlags) → read_words (words fs) ≡ fs
unfolding read_words words
read_words-words [] = refl
read_words-words (f ∷ fs) =
    ap₂ ◌∷◌ (ap from_word (join (to_word f) (to_word-lt f)) ∙ from_word-to_word f)
      (read_words-words fs)

words-append : (fs gs : List TcpFlags) → words (fs ++ gs) ≡ words fs ++ words gs
unfolding words
words-append [] gs = refl
words-append (f ∷ fs) gs = ap (λ (w : List ℕ). put_uint16 (to_word f) ++ w) (words-append fs gs)

u16_of_ℤ-lt : (z : ℤ) → u16_of_ℤ z < 65536
u16_of_ℤ-lt (pos n) = omega arith
u16_of_ℤ-lt (negsuc n) = omega arith

join_port : (w : ℕ) → w < 65536 → uint16 (w / 256 % 256) (w % 256) ≡ w
join_port w h = omega arith

small_u8 : (n : ℕ) → n ≤ 255 → u8 n ≡ n
small_u8 n h = omega arith

read_host_lem :
    (p : Proto) (port : ℕ) (host r : List ℕ)
    → port < 65536
    → length host ≤ 255
    → read_host p (uint16 (port / 256 % 256) (port % 256)) (u8 (length host)) (host ++ r)
      ≡ (record p { addr = some (record { host = host; port = pos port }) }, r, none)
unfolding read_host
read_host_lem p port host r hp hh =
    rw (join_port port hp, small_u8 (length host) hh) (rw (read_full-append host r, read_host))

-- Read gives back the host, if it has at most 255 bytes, and, modulo 2 ^ 16, the port of a PTCP or
-- PUDP message that Write wrote, and leaves what follows it.
pub read-frame_addr :
    (t : ℕ) (a : Addr) (fs : List TcpFlags) (q : Proto) (r : List ℕ)
    → (t ≡ p_tcp) ⊎ (t ≡ p_udp)
    → length a.host ≤ 255
    → (bs : List ℕ) × (frame (record { type = t; addr = some a; tcpf = fs }) ≡ ok bs)
      × (read q (bs ++ r) ≡ (
        record q { type = t; addr = some (record { host = a.host; port = pos (u16_of_ℤ a.port) }) },
        r,
        none,
      ))
unfolding frame read
read-frame_addr t a fs q r (inl h) l = (
  t ∷ (put_uint16 (u16_of_ℤ a.port) ++ (u8 (length a.host) ∷ a.host)),
  ground arith,
  rw h (read_host_lem _ (u16_of_ℤ a.port) a.host r (u16_of_ℤ-lt a.port) l),
)
read-frame_addr t a fs q r (inr h) l = (
  t ∷ (put_uint16 (u16_of_ℤ a.port) ++ (u8 (length a.host) ∷ a.host)),
  ground arith,
  rw h (read_host_lem _ (u16_of_ℤ a.port) a.host r (u16_of_ℤ-lt a.port) l),
)

-- The words of the first k flag sets are the first 2 * k bytes.
read_full-words :
    (k : ℕ) (fs : List TcpFlags) (r : List ℕ)
    → k ≤ length fs
    → read_full (k * 2) (words fs ++ r) ≡ ok (words (take k fs), words (drop k fs) ++ r)
read_full-words k fs r h =
    rw (split, append_assoc, ← count)
      (read_full-append (words (take k fs)) (words (drop k fs) ++ r))
  where
    count : length (words (take k fs)) ≡ k * 2
    count = omega (arith, length-words (take k fs), length-take k fs)

    split : words fs ≡ words (take k fs) ++ words (drop k fs)
    split = ap words (sym (take-append-drop k fs)) ∙ words-append (take k fs) (drop k fs)

read_flags-words :
    (p : Proto) (k : ℕ) (fs : List TcpFlags) (r : List ℕ)
    → k ≤ length fs
    → read_flags p k (words fs ++ r) ≡ (record p { tcpf = take k fs }, words (drop k fs) ++ r, none)
unfolding read_flags
read_flags-words p k fs r h =
    rw (read_full-words k fs r h, read_flags)
      (ap (λ (gs : List TcpFlags). (record p { tcpf = gs }, words (drop k fs) ++ r, none))
        (read_words-words (take k fs)))

-- The count of a PTCPF message is one byte: Read gives back the first n modulo 256 of the n flag
-- sets that Write wrote, so all of them if they are at most 255, and takes the words of the others
-- for what follows the message.
pub read-frame_tcpf :
    (a : Option Addr) (fs : List TcpFlags) (q : Proto) (r : List ℕ)
    → (bs : List ℕ) × (frame (record { type = p_tcpf; addr = a; tcpf = fs }) ≡ ok bs)
      × (read q (bs ++ r) ≡ (
        record q { type = p_tcpf; tcpf = take (u8 (length fs)) fs },
        words (drop (u8 (length fs)) fs) ++ r,
        none,
      ))
unfolding frame read
read-frame_tcpf a fs q r = (
  p_tcpf ∷ u8 (length fs) ∷ words fs,
  refl,
  read_flags-words (record q { type = p_tcpf }) (u8 (length fs)) fs r (omega arith),
)

-- Up to 255 flag sets are read back whole.
pub read-frame_tcpf_all :
    (a : Option Addr) (fs : List TcpFlags) (q : Proto) (r : List ℕ)
    → length fs ≤ 255
    → (bs : List ℕ) × (frame (record { type = p_tcpf; addr = a; tcpf = fs }) ≡ ok bs)
      × (read q (bs ++ r) ≡ (record q { type = p_tcpf; tcpf = fs }, r, none))
unfolding words
read-frame_tcpf_all a fs q r h =
    let (bs, e, k) = read-frame_tcpf a fs q r in
    (
      bs,
      e,
      rw
          (
            small_u8 (length fs) h,
            take-of_length_le (length fs) fs (omega arith),
            drop-of_length_le (length fs) fs (omega arith),
          )
          at k,
    )
