-- ===== src/Federation/Utf8.antt =====
-- `String::from_utf8_lossy`: each maximal part of an invalid sequence becomes U+FFFD.
use dockdoe.Prelude.{
  sym, ◌∙◌, append_assoc, text, ℕ, zero, suc, ◌+◌, ◌*◌, ◌%◌, ◌≤◌, ◌<◌, ◌≡◌, refl, Option, none,
  some, List, [], ◌∷◌, ◌++◌, ◌&&◌, if◌then◌else◌, leb, ltb, ◌==◌, nat_eq, Text, arith, ap,
}

-- A sequence that has begun: the bytes still to come, the range of the next, and the bits so far.
pub record Partial : Type 0 where
  pub more : ℕ
  pub low : ℕ
  pub high : ℕ
  pub bits : ℕ

abbrev pub replacement : ℕ
replacement = 0xfffd

abbrev begin : ℕ → ℕ → ℕ → ℕ → Text × Option Partial
begin more low high bits = ([], some (record { more = more; low = low; high = high; bits = bits }))

-- A byte where no sequence is open: the characters that it completes, and the sequence it opens.
unfoldable pub lead : ℕ → Text × Option Partial
lead b =
    if ltb b 0x80
    then (b ∷ [], none)
    else if ltb b 0xc2
    then (replacement ∷ [], none)
    else if ltb b 0xe0
    then begin 0 0x80 0xbf (b % 32)
    else if b == 0xe0
    then begin 1 0xa0 0xbf 0
    else if b == 0xed
    then begin 1 0x80 0x9f (b % 16)
    else if ltb b 0xf0
    then begin 1 0x80 0xbf (b % 16)
    else if b == 0xf0
    then begin 2 0x90 0xbf 0
    else if ltb b 0xf4
    then begin 2 0x80 0xbf (b % 8)
    else if b == 0xf4
    then begin 2 0x80 0x8f 4
    else (replacement ∷ [], none)

-- A byte inside a sequence; `more` counts the bytes that follow it.
abbrev continue_with : ℕ → ℕ → Text × Option Partial
continue_with zero bits = (bits ∷ [], none)
continue_with (suc more) bits = begin more 0x80 0xbf bits

abbrev after_replacement : Text × Option Partial → Text × Option Partial
after_replacement (s, p) = (replacement ∷ s, p)

unfoldable pub next_byte : Option Partial → ℕ → Text × Option Partial
unfolding lead
next_byte none b = lead b
next_byte (some p) b =
    if leb p.low b && leb b p.high
    then continue_with p.more (p.bits * 64 + b % 64)
    else after_replacement (lead b)

abbrev pub flush : Option Partial → Text
flush none = []
flush (some p) = replacement ∷ []

unfoldable pub decode_from : Option Partial → List ℕ → Text
unfolding next_byte
decode_from p [] = flush p
decode_from p (b ∷ bs) = let (s, q) = next_byte p b in s ++ decode_from q bs

unfoldable pub from_utf8_lossy : List ℕ → Text
unfolding decode_from
from_utf8_lossy bytes = decode_from none bytes

-- The open sequence after some bytes; none if they end with a whole character.
unfoldable pub open_after : Option Partial → List ℕ → Option Partial
unfolding next_byte
open_after p [] = p
open_after p (b ∷ bs) = open_after (next_byte p b).1 bs

decode_from-append :
    (p : Option Partial) (a b : List ℕ)
    → open_after p a ≡ none
    → decode_from p (a ++ b) ≡ decode_from p a ++ decode_from none b
unfolding decode_from open_after
decode_from-append p [] b h = rw h
decode_from-append p (c ∷ a) b h =
    ap (λ t. (next_byte p c).0 ++ t) (decode_from-append (next_byte p c).1 a b h)
    ∙ sym (append_assoc (next_byte p c).0 (decode_from (next_byte p c).1 a) (decode_from none b))

-- Decoding in two parts is decoding at once, if the first part ends with a whole character.
pub from_utf8_lossy-append :
    (a b : List ℕ)
    → open_after none a ≡ none
    → from_utf8_lossy (a ++ b) ≡ from_utf8_lossy a ++ from_utf8_lossy b
unfolding from_utf8_lossy
from_utf8_lossy-append a b h = decode_from-append none a b h

-- A character of two bytes decodes to itself, and each of its bytes alone to a replacement.
pub two_bytes :
    (lo hi : ℕ)
    → 2 ≤ hi
    → hi < 32
    → lo < 64
    → (from_utf8_lossy ((0xc0 + hi) ∷ (0x80 + lo) ∷ []) ≡ (hi * 64 + lo) ∷ [])
      × (from_utf8_lossy ((0xc0 + hi) ∷ []) ≡ replacement ∷ [])
      × (from_utf8_lossy ((0x80 + lo) ∷ []) ≡ replacement ∷ [])
unfolding from_utf8_lossy
two_bytes lo hi h k l = (ground arith, ground arith, ground arith)

whole :
    from_utf8_lossy (0xc3 ∷ 0xa9 ∷ 0x21 ∷ 0xe2 ∷ 0x82 ∷ 0xac ∷ 0xf0 ∷ 0x9f ∷ 0x98 ∷ 0x80 ∷ [])
    ≡ text "é!€😀"
unfolding from_utf8_lossy
whole = refl

broken :
    from_utf8_lossy (0xe2 ∷ 0x82 ∷ 0x21 ∷ 0xff ∷ 0xc3 ∷ [])
    ≡ replacement ∷ 0x21 ∷ replacement ∷ replacement ∷ []
unfolding from_utf8_lossy
broken = refl
