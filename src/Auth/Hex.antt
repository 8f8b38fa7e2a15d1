-- ===== src/Auth/Hex.antt =====
-- src/auth.rs: a tag written in hexadecimal is read back.
use dockdoe.Prelude.{
  ℕ, ◌/◌, ◌%◌, ◌≤◌, ◌<◌, ◌≡◌, refl, ap, arith, false, some, List, [], ◌∷◌, nat_eq, ◌==◌, utf8_len,
  byte_len, is_digit, All,
}
use dockdoe.Auth.{encode_hex, hex_digit, to_digit, from_str_radix, decode_pairs, decode_hex, ok}

-- Bytes.
abbrev pub Bytes : List ℕ → Type 0
Bytes bs = All (λ b. b < 256) bs

to_digit-hex_digit : (n : ℕ) → n < 16 → to_digit (hex_digit n) ≡ some n
unfolding to_digit is_digit
to_digit-hex_digit n h = ground arith

pub hex_digit-ascii : (n : ℕ) → n < 16 → (0x30 ≤ hex_digit n) × (hex_digit n < 0x7b)
hex_digit-ascii n h = ground arith

utf8_len-ascii : (c : ℕ) → c < 0x80 → utf8_len c ≡ 1
utf8_len-ascii c h = ground arith

from_str_radix-pair :
    (b : ℕ) → b < 256 → from_str_radix (hex_digit (b / 16)) (hex_digit (b % 16)) ≡ some b
unfolding from_str_radix
from_str_radix-pair b h =
    let hi = hex_digit-ascii (b / 16) (omega arith) in
    let no_sign : (hex_digit (b / 16) == b'+') ≡ false = ground (arith, hi) in
    rw
      (
        no_sign,
        to_digit-hex_digit (b / 16) (omega arith),
        to_digit-hex_digit (b % 16) (omega arith),
      )
      (ap some (omega arith))

decode_pairs-encode_hex : (bs : List ℕ) → Bytes bs → decode_pairs (encode_hex bs) ≡ ok bs
unfolding decode_pairs encode_hex
decode_pairs-encode_hex [] h = refl
decode_pairs-encode_hex (b ∷ bs) (l, h) =
    let hi = hex_digit-ascii (b / 16) (omega arith) in
    let lo = hex_digit-ascii (b % 16) (omega arith) in
    let one_hi : utf8_len (hex_digit (b / 16)) ≡ 1 =
      utf8_len-ascii (hex_digit (b / 16)) (omega (arith, hi)) in
    let one_lo : utf8_len (hex_digit (b % 16)) ≡ 1 =
      utf8_len-ascii (hex_digit (b % 16)) (omega (arith, lo)) in
    rw (one_hi, one_lo, from_str_radix-pair b l, decode_pairs-encode_hex bs h) refl

byte_len-encode_hex : (bs : List ℕ) → Bytes bs → byte_len (encode_hex bs) % 2 ≡ 0
unfolding encode_hex
byte_len-encode_hex [] h = refl
byte_len-encode_hex (b ∷ bs) (l, h) =
    let hi = hex_digit-ascii (b / 16) (omega arith) in
    let lo = hex_digit-ascii (b % 16) (omega arith) in
    let one_hi = utf8_len-ascii (hex_digit (b / 16)) (omega (arith, hi)) in
    let one_lo = utf8_len-ascii (hex_digit (b % 16)) (omega (arith, lo)) in
    omega (arith, one_hi, one_lo, byte_len-encode_hex bs h)

-- Every list of bytes survives the way through hexadecimal.
pub decode_hex-encode_hex : (bs : List ℕ) → Bytes bs → decode_hex (encode_hex bs) ≡ ok bs
unfolding decode_hex
decode_hex-encode_hex bs h = rw (byte_len-encode_hex bs h) (decode_pairs-encode_hex bs h)
