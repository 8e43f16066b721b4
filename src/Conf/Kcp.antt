-- ===== src/Conf/Kcp.antt =====
-- internal/conf/kcp.go and kcp_block.go.
use paqet.Prelude.{
  ℕ, ◌*◌, Bool, not, ◌&&◌, ◌||◌, List, [], ◌∷◌, ◌++◌, Option, none, some, if◌then◌else◌, ltb, leb,
  length, take,
}
use paqet.Prelude.Int.{ℤ, pos, ltb_ℤ}
use paqet.Prelude.Text.{Text, codes, str_eq, is_one_of, is_empty}
use paqet.Conf.{
  kcp_mode, kcp_mtu, kcp_rcvwnd, kcp_sndwnd, kcp_block, kcp_key, kcp_new_block, kcp_smuxbuf,
  kcp_streambuf, Checked, check, Cipher, aes, aes_gcm, salsa20, blowfish, twofish, cast5,
  triple_des, tea, xtea, simple_xor, sm4, none_cipher, Env, Try, ok, fails, error_of, or_default,
  or_text, seconds, is_server,
}

-- What a cipher of kcp-go was made from.
pub record Block : Type 0 where
  pub cipher : Cipher
  pub key : List ℕ

pub record Kcp : Type 0 where
  pub mode : Text
  pub no_delay : ℤ
  pub interval : ℤ
  pub resend : ℤ
  pub no_congestion : ℤ
  pub w_delay : Bool
  pub ack_no_delay : Bool
  pub mtu : ℤ
  pub rcvwnd : ℤ
  pub sndwnd : ℤ
  pub dshard : ℤ
  pub pshard : ℤ
  pub block_ : Text
  pub key : Text
  pub smuxbuf : ℤ
  pub streambuf : ℤ
  pub smuxkalive_ : ℤ
  pub smuxktimeout_ : ℤ
  pub smuxkalive : ℤ
  pub smuxktimeout : ℤ
  pub block : Option Block

abbrev pub is_turbo : Text → Bool
is_turbo mode = str_eq mode (codes "turbo")

unfoldable pub kcp_set_defaults : Text → Kcp → Kcp
kcp_set_defaults role k =
    let mode = or_text k.mode (codes "fast") in
    let window = if is_server role then 1024 else 512 in
    record k {
      mode = mode;
      mtu = or_default k.mtu 1350;
      rcvwnd = or_default k.rcvwnd window;
      sndwnd = or_default k.sndwnd window;
      dshard = if is_turbo mode then or_default k.dshard 10 else k.dshard;
      pshard = if is_turbo mode then or_default k.pshard 3 else k.pshard;
      block_ = or_text k.block_ (codes "aes");
      smuxbuf = or_default k.smuxbuf (4 * 1024 * 1024);
      streambuf = or_default k.streambuf (2 * 1024 * 1024);
      smuxkalive_ = or_default k.smuxkalive_ 2;
      smuxktimeout_ = or_default k.smuxktimeout_ 8;
    }

abbrev pub valid_modes : List Text
valid_modes =
    codes "normal"
    ∷ codes "fast"
    ∷ codes "fast2"
    ∷ codes "fast3"
    ∷ codes "auto"
    ∷ codes "turbo"
    ∷ codes "manual"
    ∷ []

abbrev pub null_blocks : List Text
null_blocks = codes "none" ∷ codes "null" ∷ []

-- Its 15 names.
abbrev pub valid_blocks : List Text
valid_blocks =
    codes "aes"
    ∷ codes "aes-128"
    ∷ codes "aes-128-gcm"
    ∷ codes "aes-192"
    ∷ codes "salsa20"
    ∷ codes "blowfish"
    ∷ codes "twofish"
    ∷ codes "cast5"
    ∷ codes "3des"
    ∷ codes "tea"
    ∷ codes "xtea"
    ∷ codes "xor"
    ∷ codes "sm4"
    ∷ null_blocks

-- An entry of blockCrypts; the entry "null" makes nil.
pub record BlockCrypt : Type 0 where
  pub name : Text
  pub key_size : ℕ
  pub build : Option Cipher

abbrev entry : Text → ℕ → Cipher → BlockCrypt
entry n s c = record { name = n; key_size = s; build = some c }

unfoldable pub block_crypts : List BlockCrypt
block_crypts =
    entry (codes "aes") 0 aes
    ∷ entry (codes "aes-128") 16 aes
    ∷ entry (codes "aes-128-gcm") 16 aes_gcm
    ∷ entry (codes "aes-192") 24 aes
    ∷ entry (codes "salsa20") 0 salsa20
    ∷ entry (codes "blowfish") 0 blowfish
    ∷ entry (codes "twofish") 0 twofish
    ∷ entry (codes "cast5") 16 cast5
    ∷ entry (codes "3des") 24 triple_des
    ∷ entry (codes "tea") 16 tea
    ∷ entry (codes "xtea") 16 xtea
    ∷ entry (codes "xor") 0 simple_xor
    ∷ entry (codes "sm4") 16 sm4
    ∷ entry (codes "none") 0 none_cipher
    ∷ record { name = codes "null"; key_size = 0; build = none }
    ∷ []

pub find_block : List BlockCrypt → Text → Option BlockCrypt
find_block [] t = none
find_block (b ∷ bs) t = if str_eq b.name t then some b else find_block bs t

-- `if b.keySize > 0 && len(bkey) >= b.keySize { bkey = bkey[:b.keySize] }`
abbrev pub cut_key : ℕ → List ℕ → List ℕ
cut_key size key = if ltb 0 size && leb size (length key) then take size key else key

abbrev pub run_build : Env → Option Cipher → List ℕ → Try (Option Block)
run_build env none key = ok none
run_build env (some c) key =
    if env.builds c key then ok (some (record { cipher = c; key = key })) else fails kcp_new_block

unfoldable pub new_block : Env → Text → Text → Try (Option Block)
unfolding block_crypts find_block
new_block env block key = elim (find_block block_crypts block) [
  | none ↦ fails kcp_new_block
  | some b ↦ run_build env b.build (cut_key b.key_size (env.pbkdf2 key))
]

-- The first result of newBlock: nil with an error.
abbrev pub block_of : Try (Option Block) → Option Block
block_of (ok b) = b
block_of (fails e) = none

abbrev pub is_outside : ℤ → ℕ → ℕ → Bool
is_outside z low high = ltb_ℤ z (pos low) || ltb_ℤ (pos high) z

unfoldable pub kcp_validate : Env → Kcp → Checked Kcp
unfolding new_block seconds
kcp_validate env k =
    let b = new_block env k.block_ k.key in
    record {
      value = record k {
        block = block_of b;
        smuxkalive = seconds k.smuxkalive_;
        smuxktimeout = seconds k.smuxktimeout_;
      };
      errors =
          check (not (is_one_of valid_modes k.mode)) kcp_mode
          ++ (check (is_outside k.mtu 50 1500) kcp_mtu
              ++ (check (is_outside k.rcvwnd 1 32768) kcp_rcvwnd
                  ++ (check (is_outside k.sndwnd 1 32768) kcp_sndwnd
                      ++ (check (not (is_one_of valid_blocks k.block_)) kcp_block
                          ++ (check (not (is_one_of null_blocks k.block_) && is_empty k.key) kcp_key
                              ++ (error_of b
                                  ++ (check (ltb_ℤ k.smuxbuf (pos 1024)) kcp_smuxbuf
                                      ++ check (ltb_ℤ k.streambuf (pos 1024)) kcp_streambuf)))))));
    }
