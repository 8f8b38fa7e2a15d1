-- ===== src/Auth/Tests.antt =====
-- Sessions under a small MAC, and the theorems on them.
use dockdoe.Prelude.{
  ℕ, ◌+◌, ◌*◌, ◌%◌, ◌<◌, ◌≡◌, refl, arith, true, u64_max, some, List, [], ◌∷◌, ◌++◌, Text, text,
  split_once, parse_unsigned,
}
use dockdoe.Auth.{
  Auth, encode_hex, decode_hex, ok, bad, panics, cookie_name, cookie_value, token_valid,
}
use dockdoe.Auth.Hex.{Bytes}
use dockdoe.Auth.Session.{token_valid_sound}

-- A sum of the key and the message, modulo 256, twice.
abbrev sum_mod : ℕ → List ℕ → ℕ
sum_mod n [] = n % 256
sum_mod n (b ∷ bs) = sum_mod (n * 31 + b) bs

abbrev mac : List ℕ → List ℕ → List ℕ
mac key message = sum_mod 1 (key ++ message) ∷ sum_mod 7 (message ++ key) ∷ []

sum_mod-byte : (n : ℕ) (bs : List ℕ) → sum_mod n bs < 256
sum_mod-byte n [] = omega arith
sum_mod-byte n (b ∷ bs) = sum_mod-byte (n * 31 + b) bs

mac-Bytes : (key message : List ℕ) → Bytes (mac key message)
mac-Bytes key message = (sum_mod-byte 1 (key ++ message), (sum_mod-byte 7 (message ++ key), tt))

abbrev auth : Auth
auth = record { user = text "u"; password = text "p"; secret = 1 ∷ 2 ∷ []; secure_cookie = true }

decode_odd : decode_hex (text "abc") ≡ bad
unfolding decode_hex
decode_odd = refl

decode_plus : decode_hex (text "+fA0") ≡ ok (15 ∷ 160 ∷ [])
unfolding decode_hex
decode_plus = refl

decode_cut : decode_hex (text "a€") ≡ panics
unfolding decode_hex
decode_cut = refl

second_cookie : cookie_value (text "a=1; dockdoe_session=x.y ; b") cookie_name ≡ some (text "x.y")
unfolding cookie_value
second_cookie = refl

hex_zero : encode_hex (0 ∷ 255 ∷ []) ≡ text "00ff"
unfolding encode_hex
hex_zero = refl

abbrev token : Text
token = text "5000." ++ encode_hex (mac (1 ∷ 2 ∷ []) (text "5000"))

token_valid_sound_example :
    (expiry_str sig : Text) × (expiry : ℕ) × (split_once b'.' token ≡ some (expiry_str, sig))
    × (parse_unsigned u64_max expiry_str ≡ some expiry)
    × (2000 < expiry)
    × (decode_hex sig ≡ ok (mac auth.secret expiry_str))
unfolding token_valid encode_hex
token_valid_sound_example = token_valid_sound mac auth token 2000 refl
