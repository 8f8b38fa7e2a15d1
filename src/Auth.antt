-- ===== src/Auth.antt =====
-- src/auth.rs: the login credentials, the signed session cookie and the token of machine clients.
-- The MAC (HMAC-SHA256 of the `hmac` and `sha2` crates) is a parameter, from key and message to tag.
use dockdoe.Prelude.{
  ℕ, zero, suc, ◌+◌, ◌-◌, ◌*◌, ◌/◌, ◌%◌, Bool, true, false, ◌&&◌, Option, none, some, List, [], ◌∷◌,
  ◌++◌, map, if◌then◌else◌, ltb, leb, nat_eq, ◌==◌, u64_max, Text, text, text_eq, utf8_len,
  byte_len, split, split_once, trim, is_digit, to_string, parse_unsigned,
}
pub mod Hex
pub mod Session
pub mod Credentials
mod Tests

abbrev pub session_ttl : ℕ
session_ttl = 30 * 24 * 3600

abbrev pub cookie_name : Text
cookie_name = text "dockdoe_session"

abbrev pub hex_digit : ℕ → ℕ
hex_digit n = if ltb n 10 then b'0' + n else b'a' + n - 10

unfoldable pub encode_hex : List ℕ → Text
encode_hex [] = []
encode_hex (b ∷ bytes) = hex_digit (b / 16) ∷ hex_digit (b % 16) ∷ encode_hex bytes

-- `char::to_digit(16)`.
unfoldable pub to_digit : ℕ → Option ℕ
unfolding is_digit
to_digit c =
    if is_digit c
    then some (c - b'0')
    else if leb b'a' c && leb c b'f'
    then some (c - b'a' + 10)
    else if leb b'A' c && leb c b'F'
    then some (c - b'A' + 10)
    else none

abbrev pub two_digits : Option ℕ → Option ℕ → Option ℕ
two_digits (some a) (some b) = some (a * 16 + b)
two_digits (some a) none = none
two_digits none b = none

-- `u8::from_str_radix` of two characters: a plus sign may stand in front of a digit.
unfoldable pub from_str_radix : ℕ → ℕ → Option ℕ
unfolding to_digit
from_str_radix c d = if c == b'+' then to_digit d else two_digits (to_digit c) (to_digit d)

-- A result, an error, or the panic of a slice that cuts a character in two.
pub data Decoded : Type 0 where
  ok : List ℕ → Decoded
  bad panics : Decoded

abbrev pub cons_byte : ℕ → Decoded → Decoded
cons_byte b (ok bytes) = ok (b ∷ bytes)
cons_byte b bad = bad
cons_byte b panics = panics

abbrev pub cons_digit : Option ℕ → Decoded → Decoded
cons_digit none rest = bad
cons_digit (some b) rest = cons_byte b rest

-- The slices of two bytes, from the left, up to the first error.
unfoldable pub decode_pairs : Text → Decoded
unfolding from_str_radix
decode_pairs [] = ok []
decode_pairs (c ∷ []) = if utf8_len c == 2 then bad else panics
decode_pairs (c ∷ d ∷ s) =
    let rest = decode_pairs s in
    if utf8_len c == 1
    then if utf8_len d == 1 then cons_digit (from_str_radix c d) rest else panics
    else if utf8_len c == 2
    then bad
    else panics

unfoldable pub decode_hex : Text → Decoded
unfolding decode_pairs
decode_hex s = if byte_len s % 2 == 0 then decode_pairs s else bad

pub record Auth : Type 0 where
  pub user : List ℕ
  pub password : List ℕ
  pub secret : List ℕ
  pub secure_cookie : Bool

-- The bytes that `feed_credentials` gives to the MAC.
abbrev pub feed_credentials : List ℕ → List ℕ → List ℕ
feed_credentials user password = user ++ 0 ∷ password

unfoldable pub cookie : Auth → Text → ℕ → Text
unfolding to_string
cookie auth token max_age =
    cookie_name
    ++ (text "="
        ++ (token
            ++ (text "; HttpOnly; SameSite=Lax; Path=/; Max-Age="
                ++ (to_string max_age ++ (if auth.secure_cookie then text "; Secure" else [])))))

-- `find_map`: the first value of a pair with that name.
unfoldable pub first_value : Text → List Text → Option Text
unfolding trim split_once
first_value name [] = none
first_value name (kv ∷ kvs) =
    let rest = first_value name kvs in
    elim (split_once b'=' (trim kv)) [
      | none ↦ rest
      | some (k, v) ↦ if k == name then some v else rest
    ]

unfoldable pub cookie_value : Text → Text → Option Text
unfolding first_value split
cookie_value header name = first_value name (split b';' header)

unfoldable pub clear_cookie : Auth → Text
unfolding cookie
clear_cookie auth = cookie auth [] 0

module _ (mac : List ℕ → List ℕ → List ℕ) where
  -- `verify_slice` compares with the whole tag.
  unfoldable pub credentials_valid : Auth → List ℕ → List ℕ → Bool
  credentials_valid auth user password =
      mac auth.secret (feed_credentials user password)
      == mac auth.secret (feed_credentials auth.user auth.password)

  unfoldable pub sign : Auth → ℕ → Text
  unfolding to_string encode_hex
  sign auth expiry =
      let expiry_str = to_string expiry in
      expiry_str ++ b'.' ∷ encode_hex (mac auth.secret expiry_str)

  unfoldable pub issue_cookie : Auth → ℕ → Text
  unfolding sign cookie
  issue_cookie auth now_unix = cookie auth (sign auth (now_unix + session_ttl)) session_ttl

  -- Whether the signature fits; `none` is a panic.
  abbrev pub verify : Auth → Text → Decoded → Option Bool
  verify auth expiry_str (ok sig_bytes) = some (sig_bytes == mac auth.secret expiry_str)
  verify auth expiry_str bad = some false
  verify auth expiry_str panics = none

  abbrev pub check_expiry : Auth → ℕ → Text → Text → Option ℕ → Option Bool
  check_expiry auth now_unix expiry_str sig none = some false
  check_expiry auth now_unix expiry_str sig (some expiry) =
      if leb expiry now_unix then some false else verify auth expiry_str (decode_hex sig)

  -- A text that parses as a number is ASCII, so its bytes are its characters.
  abbrev pub check_parts : Auth → ℕ → Option (Text × Text) → Option Bool
  check_parts auth now_unix none = some false
  check_parts auth now_unix (some (expiry_str, sig)) =
      check_expiry auth now_unix expiry_str sig (parse_unsigned u64_max expiry_str)

  unfoldable pub token_valid : Auth → Text → ℕ → Option Bool
  unfolding split_once parse_unsigned decode_hex
  token_valid auth token now_unix = check_parts auth now_unix (split_once b'.' token)

  -- `ApiToken::matches`; the token is its own key.
  unfoldable pub token_matches : List ℕ → List ℕ → Bool
  token_matches token presented = mac token presented == mac token token
