-- ===== src/Web/Logs.antt =====
-- src/web.rs: the lines of the logs panel, with the timestamps of the daemon. The markup is left out.
use dockdoe.Prelude.{
  ℕ, zero, suc, ◌+◌, ◌-◌, ◌/◌, ◌%◌, Bool, true, false, not, ◌&&◌, ◌||◌, Option, none, some, List,
  [], ◌∷◌, ◌++◌, if◌then◌else◌, ◌==◌, nat_eq, ltb, leb, take, Text, text, byte_len, utf8_len,
  is_digit, split_once,
}
pub mod Prefix
pub mod Lines
mod Tests

-- The first byte of a character and those after it, as UTF-8 has them.
abbrev pub utf8 : ℕ → List ℕ
utf8 c =
    if ltb c 0x80
    then c ∷ []
    else if ltb c 0x800
    then (0xc0 + c / 64) ∷ (0x80 + c % 64) ∷ []
    else if ltb c 0x10000
    then (0xe0 + c / 4096) ∷ (0x80 + c / 64 % 64) ∷ (0x80 + c % 64) ∷ []
    else (0xf0 + c / 262144) ∷ (0x80 + c / 4096 % 64) ∷ (0x80 + c / 64 % 64) ∷ (0x80 + c % 64) ∷ []

-- `as_bytes`.
unfoldable pub as_bytes : Text → List ℕ
as_bytes [] = []
as_bytes (c ∷ s) = utf8 c ++ as_bytes s

unfoldable pub ends_with_char : ℕ → Text → Bool
ends_with_char z [] = false
ends_with_char z (c ∷ []) = c == z
ends_with_char z (c ∷ d ∷ s) = ends_with_char z (d ∷ s)

abbrev pub cons_slice : ℕ → ℕ → Option Text → Option Text
cons_slice c n none = none
cons_slice c n (some t) = if leb (utf8_len c) n then some (c ∷ t) else none

-- `&s[..n]`; `none` is its panic, past the end or inside a character.
unfoldable pub slice_to : Text → ℕ → Option Text
slice_to s zero = some []
slice_to [] (suc n) = none
slice_to (c ∷ s) (suc n) = cons_slice c (suc n) (slice_to s (suc n - utf8_len c))

-- `replacen(from, to, 1)` of one character by one.
unfoldable pub replace_first : ℕ → ℕ → Text → Text
replace_first from to [] = []
replace_first from to (c ∷ s) =
    let rest = replace_first from to s in if c == from then to ∷ s else c ∷ rest

-- The `match` on a position and its byte.
abbrev pub byte_ok : ℕ → ℕ → Bool
byte_ok i c =
    if i == 4 || i == 7
    then c == b'-'
    else if i == 10
    then c == b'T'
    else if i == 13 || i == 16
    then c == b':'
    else is_digit c

-- `enumerate` and `all`, from a position on.
unfoldable pub pattern_ok : ℕ → List ℕ → Bool
unfolding is_digit
pattern_ok i [] = true
pattern_ok i (c ∷ bytes) = byte_ok i c && pattern_ok (suc i) bytes

abbrev pub cons_byte : ℕ → Option (List ℕ) → Option (List ℕ)
cons_byte b none = none
cons_byte b (some bytes) = some (b ∷ bytes)

-- `&b[..n]`; `none` is its panic, past the end.
abbrev pub slice_bytes : ℕ → List ℕ → Option (List ℕ)
slice_bytes zero bytes = some []
slice_bytes (suc n) [] = none
slice_bytes (suc n) (b ∷ bytes) = cons_byte b (slice_bytes n bytes)

-- The test of the sliced bytes, where the slice did not panic.
abbrev pub matched : Option (List ℕ) → Text × Text → Option (Option (Text × Text))
unfolding pattern_ok
matched none parts = none
matched (some bytes) parts = if pattern_ok 0 bytes then some (some parts) else some none

-- The outer `none` is a panic.
unfoldable pub stamp_of : Option (Text × Text) → Option (Option (Text × Text))
unfolding as_bytes ends_with_char matched
stamp_of none = some none
stamp_of (some (ts, msg)) =
    if ltb (byte_len ts) 20 || not (ends_with_char b'Z' ts)
    then some none
    else matched (slice_bytes 19 (as_bytes ts)) (ts, msg)

unfoldable pub split_log_timestamp : Text → Option (Option (Text × Text))
unfolding split_once stamp_of
split_log_timestamp line = stamp_of (split_once b' ' line)

-- What a line is rendered to: its `data-ts`, the text shown for it and the message.
pub data LogLine : Type 0 where
  plain : Text → LogLine
  stamped : (data_ts shown msg : Text) → LogLine
  panics : LogLine

abbrev pub with_stamp : Option Text → Text → LogLine
unfolding replace_first
with_stamp none msg = panics
with_stamp (some ts) msg = stamped (ts ++ text "Z") (replace_first b'T' b' ' ts) msg

abbrev pub line_for : Text → Option (Option (Text × Text)) → LogLine
unfolding slice_to with_stamp
line_for line none = panics
line_for line (some none) = plain line
line_for line (some (some (ts, msg))) = with_stamp (slice_to ts 19) msg

-- One round of `render_log_lines`.
unfoldable pub render_log_line : Text → LogLine
unfolding split_log_timestamp line_for
render_log_line line = line_for line (split_log_timestamp line)
