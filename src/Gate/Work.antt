-- ===== src/Gate/Work.antt =====
-- src/gate.rs: what the proof of work is computed over, and what counts as work.
pub mod Binding
pub mod Bits
use aamio_rust.Base.{
  ℕ, ◌+◌, ◌-◌, Bool, ◌&&◌, ◌||◌, [], ◌∷◌, leb, ◌==◌, if◌then◌else◌, length, Bytes, concat, codes,
  all,
}
use aamio_rust.Base.Ascii.{is_ascii_alphanumeric}
use aamio_rust.Extern.Hashing.{Hashing}
use aamio_rust.Codec.{sha256}
use aamio_rust.Address.{in_range}

abbrev pub require_max_bits : ℕ
require_max_bits = 32

abbrev pub estimate_from_bits : ℕ
estimate_from_bits = 17

abbrev pub advise_max_bits : ℕ
advise_max_bits = 18

unfoldable pub pow_input : Bytes → Bytes → Bytes → Bytes → Bytes
pow_input w key body_sha256 nonce = concat (
    codes "aamio-pow-v1\n"
    ∷ w
    ∷ codes "\n"
    ∷ key
    ∷ codes "\n"
    ∷ body_sha256
    ∷ codes "\n"
    ∷ nonce
    ∷ [])

unfoldable pub board_pow_input : Bytes → Bytes → Bytes → Bytes
board_pow_input key body_sha256 nonce =
    concat (codes "aamio-board-pow-v1\n" ∷ key ∷ codes "\n" ∷ body_sha256 ∷ codes "\n" ∷ nonce ∷ [])

module _ ⦃h : Hashing⦄ where
  unfoldable pub pow_digest : Bytes → Bytes → Bytes → Bytes → Bytes
  pow_digest w key body_sha256 nonce = sha256 (pow_input w key body_sha256 nonce)

  unfoldable pub board_pow_digest : Bytes → Bytes → Bytes → Bytes
  board_pow_digest key body_sha256 nonce = sha256 (board_pow_input key body_sha256 nonce)

-- `u8::leading_zeros`
unfoldable pub leading_zeros : ℕ → ℕ
leading_zeros byte =
    if leb 128 byte
    then 0
    else if leb 64 byte
    then 1
    else if leb 32 byte
    then 2
    else if leb 16 byte
    then 3
    else if leb 8 byte
    then 4
    else if leb 4 byte
    then 5
    else if leb 2 byte
    then 6
    else if leb 1 byte
    then 7
    else 8

-- The loop over the bytes, which goes on only while they are zero.
unfoldable pub count_bits : Bytes → ℕ → ℕ
unfolding leading_zeros
count_bits [] bits = bits
count_bits (byte ∷ digest) bits =
    let rest = count_bits digest (bits + 8) in if byte == 0 then rest else bits + leading_zeros byte

unfoldable pub zero_bits : Bytes → ℕ
unfolding count_bits
zero_bits digest = count_bits digest 0

unfoldable pub is_nonce_byte : ℕ → Bool
is_nonce_byte b = is_ascii_alphanumeric b || b == b'_' || b == b'-'

unfoldable pub is_nonce : Bytes → Bool
is_nonce s = in_range 1 64 (length s) && all is_nonce_byte s
