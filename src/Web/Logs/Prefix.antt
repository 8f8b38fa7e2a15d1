-- ===== src/Web/Logs/Prefix.antt =====
-- src/web.rs: the checked bytes of a timestamp are characters.
use dockdoe.Prelude.{
  ℕ, zero, suc, ◌+◌, ◌-◌, ◌/◌, ◌%◌, ◌≤◌, ◌<◌, ◌≡◌, refl, ap, ◌∙◌, arith, true, false, ◌&&◌,
  Bool-cases, inl, inr, and-eq-true, none, some, List, [], ◌∷◌, ◌++◌, if◌then◌else◌, ltb, leb,
  le→leb, length, take, Text, byte_len, utf8_len, is_digit,
}
use dockdoe.Web.Logs.{utf8, as_bytes, cons_slice, slice_to, byte_ok, pattern_ok}

byte_ok-ascii : (i b : ℕ) → byte_ok i b ≡ true → b < 0x80
unfolding is_digit
byte_ok-ascii i b h = ground arith

utf8-one : (c : ℕ) → c < 0x80 → utf8 c ≡ c ∷ []
utf8-one c h = let e : ltb c 0x80 ≡ true = ground arith in rw e refl

-- The first byte of any other character is not ASCII.
utf8-more : (c : ℕ) → 0x80 ≤ c → (b : ℕ) × (bytes : List ℕ) × (utf8 c ≡ b ∷ bytes) × (0x80 ≤ b)
utf8-more c h =
    let e : ltb c 0x80 ≡ false = ground arith in
    elim (Bool-cases (ltb c 0x800)) [
      | inl f ↦ (0xc0 + c / 64, (0x80 + c % 64) ∷ [], rw (e, f) refl, omega arith)
      | inr f ↦ elim (Bool-cases (ltb c 0x10000)) [
        | inl g ↦ (
          0xe0 + c / 4096,
          (0x80 + c / 64 % 64) ∷ (0x80 + c % 64) ∷ [],
          rw (e, f, g) refl,
          omega arith,
        )
        | inr g ↦ (
          0xf0 + c / 262144,
          (0x80 + c / 4096 % 64) ∷ (0x80 + c / 64 % 64) ∷ (0x80 + c % 64) ∷ [],
          rw (e, f, g) refl,
          omega arith,
        )
      ]
    ]

-- The characters that the first `n` bytes are.
abbrev pub IsPrefix : ℕ → ℕ → Text → Text → Type 0
IsPrefix i n s pre =
    (rest : Text) × (s ≡ pre ++ rest)
    × (length pre ≡ n)
    × (pattern_ok i pre ≡ true)
    × (slice_to s n ≡ some pre)

slice_to-cons :
    (c n : ℕ) (s pre : Text)
    → utf8_len c ≡ 1
    → slice_to s n ≡ some pre
    → slice_to (c ∷ s) (suc n) ≡ some (c ∷ pre)
unfolding slice_to
slice_to-cons c n s pre width cut =
    let left : suc n - utf8_len c ≡ n = omega arith in
    let step : slice_to s (suc n - utf8_len c) ≡ some pre = ap (slice_to s) left ∙ cut in
    let inside : leb (utf8_len c) (suc n) ≡ true = le→leb (utf8_len c) (suc n) (omega arith) in
    ap (cons_slice c (suc n)) step ∙ ap (λ b. if b then some (c ∷ pre) else none) inside

-- Where the first `n` bytes fit the pattern, they are the first `n` characters, so that the slice there
-- does not panic.
pub pattern_ok-IsPrefix :
    (i n : ℕ) (s : Text)
    → n ≤ byte_len s
    → pattern_ok i (take n (as_bytes s)) ≡ true
    → (pre : Text) × IsPrefix i n s pre
unfolding pattern_ok as_bytes slice_to
pattern_ok-IsPrefix i zero [] l h = ([], ([], refl, refl, refl, refl))
pattern_ok-IsPrefix i zero (c ∷ s) l h = ([], (c ∷ s, refl, refl, refl, refl))
pattern_ok-IsPrefix i (suc n) [] l h = absurd (omega arith)
pattern_ok-IsPrefix i (suc n) (c ∷ s) l h = elim (Bool-cases (ltb c 0x80)) [
  | inl e ↦
      let one : utf8 c ≡ c ∷ [] = rw e refl in
      let width : utf8_len c ≡ 1 = rw e refl in
      let fewer : n ≤ byte_len s = ground (arith, width) in
      let fits : (byte_ok i c && pattern_ok (suc i) (take n (as_bytes s))) ≡ true = rw one at h in
      let (first, later) =
        and-eq-true (byte_ok i c) (pattern_ok (suc i) (take n (as_bytes s))) fits in
      let (pre, (rest, q, len, ok, cut)) = pattern_ok-IsPrefix (suc i) n s fewer later in
      (
        c ∷ pre,
        (
          rest,
          ap (λ t. c ∷ t) q,
          ap suc len,
          rw (first, ok) refl,
          slice_to-cons c n s pre width cut,
        ),
      )
  | inr e ↦
      let (b, bytes, q, high) = utf8-more c (ground arith) in
      let fits : (byte_ok i b && pattern_ok (suc i) (take n (bytes ++ as_bytes s))) ≡ true =
        rw q at h in
      let low =
        byte_ok-ascii i b
          (and-eq-true (byte_ok i b) (pattern_ok (suc i) (take n (bytes ++ as_bytes s))) fits).0 in
      absurd (omega arith)
]
