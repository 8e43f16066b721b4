-- ===== src/Address/Runs.antt =====
-- Keys of concrete addresses.
use paqet.Prelude.{ℕ, ◌≡◌, refl, List, [], ◌∷◌, some, arith}
use paqet.Address.{ip_addr, to4, to16, big_endian}
use paqet.Address.Key.{ip_addr-injective}

abbrev low : List ℕ
low = 0x20 ∷ 1 ∷ 0xd ∷ 0xb8 ∷ 0 ∷ 0 ∷ 0 ∷ 0 ∷ []

abbrev high : List ℕ
high = 0 ∷ 0 ∷ 0 ∷ 0 ∷ 0 ∷ 0 ∷ 0 ∷ 1 ∷ []

abbrev host : List ℕ
host = 10 ∷ 0 ∷ 0 ∷ 1 ∷ []

abbrev https : ℕ
https = 443

host_key : ip_addr host https ≡ some 10995116343739
unfolding ip_addr to4 to16 big_endian
host_key = refl

ip_addr-injective_example : (host ≡ host) × (https ≡ https)
ip_addr-injective_example =
    ip_addr-injective host host https https refl refl (omega arith) (omega arith) (omega arith)
      (omega arith) host_key host_key
