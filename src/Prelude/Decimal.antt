-- ===== src/Prelude/Decimal.antt =====
-- Rust's `u64::to_string` and `str::parse` of unsigned numbers, in decimal.
use Prim.Native.Nat.{ℕ, zero, suc, ◌+◌, ◌-◌, ◌*◌, ◌/◌, ◌%◌, ◌≤◌, ◌<◌}
use mathlib.Core.Path.{◌≡◌, refl, ap, ◌∙◌}
use mathlib.Core.Logic.{◌≢◌, inl, inr}
use mathlib.Core.Option.{Option, none, some}
use mathlib.Core.List.{[], ◌∷◌}
use native.Mathlib.Omega.{arith}
use dockdoe.Prelude.Tests.{nat_eq, ◌==◌, if◌then◌else◌, ltb, leb, Bool-cases}
use dockdoe.Prelude.Texts.{Text, is_digit}

-- The digits of `n` in front of `rest`; the fuel bounds their number.
unfoldable pub show_before : ℕ → ℕ → Text → Text
show_before zero n rest = rest
show_before (suc fuel) n rest =
    let more = show_before fuel (n / 10) ((b'0' + n % 10) ∷ rest) in
    if ltb n 10 then (b'0' + n) ∷ rest else more

unfoldable pub to_string : ℕ → Text
unfolding show_before
to_string n = show_before (suc n) n []

-- Reads digits on with every step checked against the largest number.
unfoldable pub parse_digits : ℕ → ℕ → Text → Option ℕ
parse_digits largest n [] = some n
parse_digits largest n (c ∷ s) =
    let next = n * 10 + (c - b'0') in
    let rest = parse_digits largest next s in
    if is_digit c then (if leb next largest then rest else none) else none

-- A sign may stand in front of a digit.
unfoldable pub parse_unsigned : ℕ → Text → Option ℕ
unfolding parse_digits
parse_unsigned largest [] = none
parse_unsigned largest (c ∷ []) = parse_digits largest 0 (c ∷ [])
parse_unsigned largest (c ∷ d ∷ s) =
    if c == b'+' then parse_digits largest 0 (d ∷ s) else parse_digits largest 0 (c ∷ d ∷ s)

parse_digits-digit :
    (largest n k : ℕ) (s : Text)
    → k < 10
    → n * 10 + k ≤ largest
    → parse_digits largest n ((b'0' + k) ∷ s) ≡ parse_digits largest (n * 10 + k) s
unfolding parse_digits is_digit
parse_digits-digit largest n k s h l =
    let e : b'0' + k - b'0' ≡ k = omega arith in rw e (ground arith)

pub parse_digits-show :
    (largest fuel n : ℕ) (rest : Text)
    → n < fuel
    → n ≤ largest
    → parse_digits largest 0 (show_before fuel n rest) ≡ parse_digits largest n rest
unfolding show_before
parse_digits-show largest zero n rest h l = absurd (omega arith)
parse_digits-show largest (suc fuel) n rest h l = elim (Bool-cases (ltb n 10)) [
  | inl e ↦ rw e (
      parse_digits-digit largest 0 n rest (ground arith) (omega arith)
      ∙ ap (λ m. parse_digits largest m rest) (omega arith))
  | inr e ↦
      let tenth : 10 ≤ n = ground arith in
      let whole : (n / 10) * 10 + n % 10 ≡ n = omega arith in
      rw e (
        parse_digits-show largest fuel (n / 10) ((b'0' + n % 10) ∷ rest) (omega arith) (omega arith)
        ∙ parse_digits-digit largest (n / 10) (n % 10) rest (omega arith) (omega arith)
        ∙ ap (λ m. parse_digits largest m rest) whole)
]

-- What is read is at most the largest number.
pub parse_digits-le :
    (largest n : ℕ) (s : Text) (v : ℕ)
    → n ≤ largest
    → parse_digits largest n s ≡ some v
    → v ≤ largest
unfolding parse_digits
parse_digits-le largest n [] v h e = ground arith
parse_digits-le largest n (c ∷ s) v h e = elim (Bool-cases (is_digit c)) [
  | inr f ↦ absurd (ground arith)
  | inl f ↦ elim (Bool-cases (leb (n * 10 + (c - b'0')) largest)) [
    | inr g ↦ absurd (ground arith)
    | inl g ↦ parse_digits-le largest (n * 10 + (c - b'0')) s v (ground arith) (rw (f, g) at e)
  ]
]

-- A text of decimal digits.
abbrev pub Digits : Text → Type 0
Digits [] = Unit
Digits (c ∷ s) = (b'0' ≤ c) × (c ≤ b'9') × Digits s

Digits-show_before : (fuel n : ℕ) (rest : Text) → Digits rest → Digits (show_before fuel n rest)
unfolding show_before
Digits-show_before zero n rest h = h
Digits-show_before (suc fuel) n rest h = elim (Bool-cases (ltb n 10)) [
  | inl e ↦ rw e (omega arith, ground arith, h)
  | inr e ↦
      rw e (Digits-show_before fuel (n / 10) ((b'0' + n % 10) ∷ rest) (omega arith, omega arith, h))
]

pub Digits-to_string : (n : ℕ) → Digits (to_string n)
unfolding to_string
Digits-to_string n = Digits-show_before (suc n) n [] tt

pub parse_unsigned-Digits :
    (largest : ℕ) (s : Text)
    → Digits s
    → s ≢ []
    → parse_unsigned largest s ≡ parse_digits largest 0 s
unfolding parse_unsigned
parse_unsigned-Digits largest [] h k = absurd (k refl)
parse_unsigned-Digits largest (c ∷ []) h k = refl
parse_unsigned-Digits largest (c ∷ d ∷ s) (lo, hi, h) k = ground arith

show_before-nonempty : (fuel n c : ℕ) (rest : Text) → show_before fuel n (c ∷ rest) ≢ []
unfolding show_before
show_before-nonempty zero n c rest = λ e. cc
show_before-nonempty (suc fuel) n c rest = elim (Bool-cases (ltb n 10)) [
  | inl f ↦ rw f (λ e. cc)
  | inr f ↦ rw f (show_before-nonempty fuel (n / 10) (b'0' + n % 10) (c ∷ rest))
]

to_string-nonempty : (n : ℕ) → to_string n ≢ []
unfolding to_string show_before
to_string-nonempty n = elim (Bool-cases (ltb n 10)) [
  | inl f ↦ rw f (λ e. cc)
  | inr f ↦ rw f (show_before-nonempty n (n / 10) (b'0' + n % 10) [])
]

-- Printing and reading again.
pub parse_unsigned-to_string :
    (largest n : ℕ) → n ≤ largest → parse_unsigned largest (to_string n) ≡ some n
unfolding to_string parse_digits
parse_unsigned-to_string largest n h =
    parse_unsigned-Digits largest (to_string n) (Digits-to_string n) (to_string-nonempty n)
    ∙ parse_digits-show largest (suc n) n [] (omega arith) h
