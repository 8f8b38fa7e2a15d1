-- ===== src/Config/Size.antt =====
-- src/config.rs: `parse_size` never wraps round, and rejects a size only if it does not fit.
use dockdoe.Prelude.{
  ℕ, zero, suc, ◌+◌, ◌-◌, ◌*◌, ◌/◌, ◌%◌, ◌≤◌, ◌<◌, ◌≡◌, refl, sym, ap, ◌∙◌, arith, Bool, true,
  false, ◌||◌, Option, none, some, inl, inr, if◌then◌else◌, ltb, leb, nat_eq, ◌==◌, u64_max, Text,
  text, text_eq, parse_unsigned, parse_digits-le, leb→le, Bool-cases, Option-cases, [], ◌∷◌,
}
use dockdoe.Config.{
  Result, ok, err, SizeError, invalid_size, invalid_suffix, overflows, pow2, bit_length,
  leading_zeros, shift_of, shifted, size_digits, size_unit, parse_size,
}

pow2-positive : (k : ℕ) → 1 ≤ pow2 k
pow2-positive zero = omega arith
pow2-positive (suc k) = omega (arith, pow2-positive k)

-- The number of bits is above `k` exactly from 2 to the power `k` on.
bit_length-above : (fuel k v : ℕ) → v < pow2 fuel → ltb k (bit_length fuel v) ≡ leb (pow2 k) v
unfolding bit_length
bit_length-above zero zero v h = ground arith
bit_length-above zero (suc k) v h = ground (arith, pow2-positive k)
bit_length-above (suc fuel) zero v h = ground arith
bit_length-above (suc fuel) (suc k) v h =
    let ih = bit_length-above fuel k (v / 2) (omega arith) in
    let p = pow2-positive k in ground arith

-- The largest shift is 40.
choice-le :
    (b : Bool) (k : ℕ) (rest : Option ℕ) (shift : ℕ)
    → k ≤ 40
    → (rest ≡ some shift → shift ≤ 40)
    → (if b then some k else rest) ≡ some shift
    → shift ≤ 40
choice-le true k rest shift l f h = ground arith
choice-le false k rest shift l f h = f h

shift_of-le : (unit : Text) (shift : ℕ) → shift_of unit ≡ some shift → shift ≤ 40
unfolding shift_of
shift_of-le unit shift h =
    choice-le (unit == [] || unit == text "B") 0 _ shift (omega arith)
      (choice-le (unit == text "K" || (unit == text "KB" || unit == text "KIB")) 10 _ shift
        (omega arith)
        (choice-le (unit == text "M" || (unit == text "MB" || unit == text "MIB")) 20 _ shift
          (omega arith)
          (choice-le (unit == text "G" || (unit == text "GB" || unit == text "GIB")) 30 _ shift
            (omega arith)
            (choice-le (unit == text "T" || (unit == text "TB" || unit == text "TIB")) 40 none shift
              (omega arith) (λ e. absurd (ground arith))))))
      h

pow2-add : (a b : ℕ) → pow2 (a + b) ≡ pow2 a * pow2 b
pow2-add zero b = let e : 0 + b ≡ b = omega arith in ap pow2 e ∙ omega arith
pow2-add (suc a) b =
    let e : suc a + b ≡ suc (a + b) = omega arith in
    ap pow2 e ∙ ap (λ n. 2 * n) (pow2-add a b) ∙ grind arith

-- The test on the leading zeros is the test for a result of more than 64 bits.
abbrev pub exact : ℕ → ℕ → Result SizeError ℕ
exact value shift =
    let size = value * pow2 shift in if leb size u64_max then ok size else err overflows

bit_length-le : (v : ℕ) → v ≤ u64_max → bit_length 64 v ≤ 64
bit_length-le v h = let above = bit_length-above 64 64 v (omega arith) in ground (arith, above)

mul-le : (a b p : ℕ) → a ≤ b → a * p ≤ b * p
mul-le a b p h = grind arith

mul-lt : (a b p : ℕ) → a < b → 1 ≤ p → a * p < b * p
mul-lt a b p h l = grind arith

subtract-test :
    (len shift : ℕ) → len ≤ 64 → shift ≤ 40 → ltb (64 - len) shift ≡ ltb (64 - shift) len
subtract-test len shift h l = ground arith

leading_zeros-below :
    (value shift : ℕ)
    → value ≤ u64_max
    → shift ≤ 40
    → ltb (leading_zeros value) shift ≡ leb (pow2 (64 - shift)) value
unfolding leading_zeros
leading_zeros-below value shift h l =
    let len = bit_length-le value h in
    let swap : ltb (64 - bit_length 64 value) shift ≡ ltb (64 - shift) (bit_length 64 value) =
      subtract-test (bit_length 64 value) shift len l in
    swap ∙ bit_length-above 64 (64 - shift) value (omega arith)

pow2-whole : (shift : ℕ) → shift ≤ 40 → pow2 (64 - shift) * pow2 shift ≡ 18446744073709551616
pow2-whole shift l =
    let e : 64 - shift + shift ≡ 64 = omega arith in sym (pow2-add (64 - shift) shift) ∙ ap pow2 e

fits-exact :
    (value p q : ℕ)
    → q * p ≡ 18446744073709551616
    → 1 ≤ p
    → leb q value ≡ leb 18446744073709551616 (value * p)
fits-exact value p q whole l = elim (Bool-cases (leb q value)) [
  | inl e ↦ let large = mul-le q value p (ground arith) in ground arith
  | inr e ↦ let small = mul-lt value q p (ground arith) l in ground arith
]

wrap-exact :
    (size : ℕ)
    → (if leb 18446744073709551616 size then err overflows else ok (size % 18446744073709551616))
      ≡ (if leb size u64_max then ok size else err overflows)
wrap-exact size = elim (Bool-cases (leb size u64_max)) [
  | inl e ↦
      let small : leb 18446744073709551616 size ≡ false = ground arith in
      let same : size % 18446744073709551616 ≡ size = omega (arith, leb→le size u64_max e) in
      rw (e, small) (ap ok same)
  | inr e ↦ let large : leb 18446744073709551616 size ≡ true = ground arith in rw (e, large) refl
]

shifted-exact :
    (value shift : ℕ) → value ≤ u64_max → shift ≤ 40 → shifted value shift ≡ exact value shift
unfolding shifted
shifted-exact value shift h l =
    let test =
      leading_zeros-below value shift h l
      ∙ fits-exact value (pow2 shift) (pow2 (64 - shift)) (pow2-whole shift l)
          (pow2-positive shift) in
    ap (λ (b : Bool). if b then err overflows else ok ((value * pow2 shift) % 18446744073709551616))
      test
    ∙ wrap-exact (value * pow2 shift)

parse_unsigned-le :
    (largest : ℕ) (s : Text) (v : ℕ) → parse_unsigned largest s ≡ some v → v ≤ largest
unfolding parse_unsigned
parse_unsigned-le largest [] v h = cc
parse_unsigned-le largest (c ∷ []) v h = parse_digits-le largest 0 (c ∷ []) v (omega arith) h
parse_unsigned-le largest (c ∷ d ∷ s) v h = elim (Bool-cases (c == b'+')) [
  | inl e ↦ parse_digits-le largest 0 (d ∷ s) v (omega arith) (rw e at h)
  | inr e ↦ parse_digits-le largest 0 (c ∷ d ∷ s) v (omega arith) (rw e at h)
]

-- The bytes of a unit.
unfoldable pub unit_bytes : Text → Option ℕ
unit_bytes unit =
    if unit == [] || unit == text "B"
    then some 1
    else if unit == text "K" || (unit == text "KB" || unit == text "KIB")
    then some 1024
    else if unit == text "M" || (unit == text "MB" || unit == text "MIB")
    then some 1048576
    else if unit == text "G" || (unit == text "GB" || unit == text "GIB")
    then some 1073741824
    else if unit == text "T" || (unit == text "TB" || unit == text "TIB")
    then some 1099511627776
    else none

-- The size that a number and the bytes of its unit stand for, over the unbounded numbers.
unfoldable pub size_of : Option ℕ → Option ℕ → Result SizeError ℕ
size_of none bytes = err invalid_size
size_of (some value) none = err invalid_suffix
size_of (some value) (some bytes) =
    let size = value * bytes in if leb size u64_max then ok size else err overflows

abbrev power_of : Option ℕ → Option ℕ
power_of none = none
power_of (some shift) = some (pow2 shift)

power_of-if :
    (b : Bool) (k : ℕ) (rest : Option ℕ)
    → power_of (if b then some k else rest) ≡ (if b then some (pow2 k) else power_of rest)
power_of-if true k rest = refl
power_of-if false k rest = refl

else_same :
    (b : Bool) (k : ℕ) (o p : Option ℕ)
    → o ≡ p
    → (if b then some k else o) ≡ (if b then some k else p)
else_same b k o p e = ap (λ (r : Option ℕ). if b then some k else r) e

unit_bytes-shift_of : (unit : Text) → power_of (shift_of unit) ≡ unit_bytes unit
unfolding shift_of unit_bytes
unit_bytes-shift_of unit =
    power_of-if (unit == [] || unit == text "B") 0 _
    ∙ else_same (unit == [] || unit == text "B") 1 _ _ (
        power_of-if (unit == text "K" || (unit == text "KB" || unit == text "KIB")) 10 _
        ∙ else_same (unit == text "K" || (unit == text "KB" || unit == text "KIB")) 1024 _ _ (
            power_of-if (unit == text "M" || (unit == text "MB" || unit == text "MIB")) 20 _
            ∙ else_same (unit == text "M" || (unit == text "MB" || unit == text "MIB")) 1048576 _ _
                (power_of-if (unit == text "G" || (unit == text "GB" || unit == text "GIB")) 30 _
                  ∙ else_same (unit == text "G" || (unit == text "GB" || unit == text "GIB"))
                      1073741824 _ _
                      (power_of-if (unit == text "T" || (unit == text "TB" || unit == text "TIB"))
                        40 none))))

-- A text whose digits are no 64-bit number is an invalid size, and one whose unit is not known has an
-- invalid suffix. Otherwise the size is the number times the bytes of the unit, 1, 1024 and so on up
-- to 1024 to the fourth power, and an overflow is reported exactly when that product is no 64-bit
-- number; the bit test and the shift of the code never disagree with it.
pub parse_size-exact :
    (s : Text)
    → parse_size s ≡ size_of (parse_unsigned u64_max (size_digits s)) (unit_bytes (size_unit s))
unfolding parse_size size_of
parse_size-exact s = elim (Option-cases (parse_unsigned u64_max (size_digits s))) [
  | inl e ↦ rw e refl
  | inr (value, e) ↦ elim (Option-cases (shift_of (size_unit s))) [
    | inl f ↦
        let unit : none ≡ unit_bytes (size_unit s) =
          sym (ap power_of f) ∙ unit_bytes-shift_of (size_unit s) in
        rw (e, f) (ap (size_of (some value)) unit)
    | inr (shift, f) ↦
        let unit : some (pow2 shift) ≡ unit_bytes (size_unit s) =
          sym (ap power_of f) ∙ unit_bytes-shift_of (size_unit s) in
        rw (e, f)
          (shifted-exact value shift (parse_unsigned-le u64_max (size_digits s) value e)
              (shift_of-le (size_unit s) shift f)
            ∙ ap (size_of (some value)) unit)
  ]
]
