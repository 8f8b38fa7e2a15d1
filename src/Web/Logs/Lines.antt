-- ===== src/Web/Logs/Lines.antt =====
-- src/web.rs: what a line of the log is rendered to.
use dockdoe.Prelude.{
  ℕ, zero, suc, ◌+◌, ◌≤◌, ◌≡◌, ◌≢◌, ◌⊎◌, refl, ap, subst, eq_of_==, ==_refl, ◌∙◌, arith, true,
  false, not, ◌&&◌, ◌||◌, Bool-cases, inl, inr, and-eq-true, Option, none, some, [], ◌∷◌, ◌++◌,
  if◌then◌else◌, ◌==◌, nat_eq, ltb, length, length-append, take, All, split_at, Text, text,
  byte_len, utf8_len, List, is_digit, split_once, cons_first,
}
use dockdoe.Web.Logs.{
  utf8, cons_byte, slice_bytes, as_bytes, ends_with_char, slice_to, replace_first, byte_ok,
  pattern_ok, stamp_of, split_log_timestamp, LogLine, plain, stamped, with_stamp, line_for,
  render_log_line,
}
use dockdoe.Web.Logs.Prefix.{pattern_ok-IsPrefix}

split_once_sound :
    (sep : ℕ) (s : Text) (a b : Text) → split_once sep s ≡ some (a, b) → s ≡ a ++ sep ∷ b
unfolding split_once
split_once_sound sep [] a b h = cc
split_once_sound sep (c ∷ s) a b h = elim (Bool-cases (c == sep)) [
  | inl e ↦
      let found : some ([], s) ≡ some (a, b) = rw e at h in
      pair_parts ([], s) (a, b) found (ap (λ x. x ∷ s) (eq_of_== c sep e))
  | inr e ↦ by_rest (split_once sep s) (split_once_sound sep s) (rw e at h)
]
  where
    pair_parts :
        (p q : Text × Text) → some p ≡ some q → c ∷ s ≡ p.0 ++ sep ∷ p.1 → c ∷ s ≡ q.0 ++ sep ∷ q.1
    pair_parts p q h k = let same : p ≡ q = cc in subst (λ r. c ∷ s ≡ r.0 ++ sep ∷ r.1) same k

    by_rest :
        (o : Option (Text × Text))
        → ((x y : Text) → o ≡ some (x, y) → s ≡ x ++ sep ∷ y)
        → cons_first c o ≡ some (a, b)
        → c ∷ s ≡ a ++ sep ∷ b
    by_rest none rest h = cc
    by_rest (some (x, y)) rest h = pair_parts (c ∷ x, y) (a, b) h (ap (λ t. c ∷ t) (rest x y refl))

-- A prefix of a timestamp of `n` characters is a date, a `T` and a time of `n - 11` characters.
pattern_ok-no_t :
    (i : ℕ) (s : Text) → i + length s ≤ 10 → pattern_ok i s ≡ true → All (λ c. c ≢ b'T') s
unfolding pattern_ok is_digit
pattern_ok-no_t i [] l h = tt
pattern_ok-no_t i (c ∷ s) l h =
    let (first, later) = and-eq-true (byte_ok i c) (pattern_ok (suc i) s) h in
    ((λ e. ground arith), pattern_ok-no_t (suc i) s (omega arith) later)

start_here : (i : ℕ) → i ≡ i + 0
start_here i = omega arith

step_on : (i n : ℕ) → suc i + n ≡ i + suc n
step_on i n = omega arith

pattern_ok-append :
    (i : ℕ) (s t : Text)
    → pattern_ok i (s ++ t) ≡ true
    → (pattern_ok i s ≡ true) × (pattern_ok (i + length s) t ≡ true)
unfolding pattern_ok
pattern_ok-append i [] t h = (refl, subst (λ k. pattern_ok k t ≡ true) (start_here i) h)
pattern_ok-append i (c ∷ s) t h =
    let (first, later) = and-eq-true (byte_ok i c) (pattern_ok (suc i) (s ++ t)) h in
    let (a, b) = pattern_ok-append (suc i) s t later in
    (rw (first, a) refl, subst (λ k. pattern_ok k t ≡ true) (step_on i (length s)) b)

replace_first-append :
    (from to : ℕ) (s t : Text)
    → All (λ c. c ≢ from) s
    → replace_first from to (s ++ from ∷ t) ≡ s ++ to ∷ t
unfolding replace_first
replace_first-append from to [] t h =
    ap (λ b. if b then to ∷ t else from ∷ replace_first from to t) (==_refl from)
replace_first-append from to (c ∷ s) t h =
    let e : (c == from) ≡ false = ground arith in rw (e, replace_first-append from to s t h.1) refl

-- What an accepted timestamp is.
abbrev pub IsStamp : Option (Text × Text) → Text × Text → Type 0
unfolding as_bytes
IsStamp parts found =
    (parts ≡ some found)
    × (19 ≤ byte_len found.0)
    × (pattern_ok 0 (take 19 (as_bytes found.0)) ≡ true)

-- The slice of the bytes is within them.
slice_bytes-take :
    (n : ℕ) (bytes : List ℕ) → n ≤ length bytes → slice_bytes n bytes ≡ some (take n bytes)
slice_bytes-take zero bytes h = refl
slice_bytes-take (suc n) [] h = absurd (omega (arith, h))
slice_bytes-take (suc n) (b ∷ bytes) h =
    ap (cons_byte b) (slice_bytes-take n bytes (omega (arith, h)))

length-utf8 : (c : ℕ) → length (utf8 c) ≡ utf8_len c
length-utf8 c = elim (Bool-cases (ltb c 0x80)) [
  | inl e ↦ rw e refl
  | inr e ↦ elim (Bool-cases (ltb c 0x800)) [
    | inl f ↦ rw (e, f) refl
    | inr f ↦ elim (Bool-cases (ltb c 0x10000)) [
      | inl g ↦ rw (e, f, g) refl
      | inr g ↦ rw (e, f, g) refl
    ]
  ]
]

length-as_bytes : (s : Text) → length (as_bytes s) ≡ byte_len s
unfolding as_bytes
length-as_bytes [] = refl
length-as_bytes (c ∷ s) =
    length-append (utf8 c) (as_bytes s) ∙ omega (arith, length-utf8 c, length-as_bytes s)

-- A line whose prefix is no timestamp, or one whose prefix is.
abbrev IsSplit : Option (Text × Text) → Option (Option (Text × Text)) → Type 0
IsSplit parts none = ⊥
IsSplit parts (some none) = Unit
IsSplit parts (some (some found)) = IsStamp parts found

stamp_of_sound : (parts : Option (Text × Text)) → IsSplit parts (stamp_of parts)
unfolding stamp_of
stamp_of_sound none = tt
stamp_of_sound (some (ts, msg)) =
    elim (Bool-cases (ltb (byte_len ts) 20 || not (ends_with_char b'Z' ts))) [
      | inl e ↦ rw e tt
      | inr e ↦
          let long : 19 ≤ byte_len ts = ground arith in
          let inside =
            slice_bytes-take 19 (as_bytes ts) (omega (arith, length-as_bytes ts, long)) in
          elim (Bool-cases (pattern_ok 0 (take 19 (as_bytes ts)))) [
            | inl f ↦ rw (e, inside) (rw f (refl, long, f))
            | inr f ↦ rw (e, inside) (rw f tt)
          ]
    ]

-- A line of the logs panel: the line itself, or its parts around a timestamp.
abbrev pub IsRendered : Text → LogLine → Type 0
IsRendered line shown =
    (shown ≡ plain line)
    ⊎ ((date time fraction msg : Text) × (line ≡ ((date ++ b'T' ∷ time) ++ fraction) ++ b' ' ∷ msg)
        × (length date ≡ 10)
        × (length time ≡ 8)
        × (shown ≡ stamped ((date ++ b'T' ∷ time) ++ text "Z") (date ++ b' ' ∷ time) msg))

-- The date and the time of a prefix of 19 characters that fits the pattern.
date_and_time :
    (pre : Text)
    → length pre ≡ 19
    → pattern_ok 0 pre ≡ true
    → (date time : Text) × (pre ≡ date ++ b'T' ∷ time)
      × (length date ≡ 10)
      × (length time ≡ 8)
      × All (λ c. c ≢ b'T') date
unfolding pattern_ok
date_and_time pre len ok =
    let (l, x, r, e, g, n) = split_at 10 pre (omega arith) in
    let (a, b) = pattern_ok-append 0 l (x ∷ r) (subst (λ p. pattern_ok 0 p ≡ true) e ok) in
    let ten : 0 + length l ≡ 10 = omega arith in
    let at : (byte_ok 10 x && pattern_ok 11 r) ≡ true =
      subst (λ k. pattern_ok k (x ∷ r) ≡ true) ten b in
    let is_t : x ≡ b'T' = eq_of_== x b'T' (and-eq-true (byte_ok 10 x) (pattern_ok 11 r) at).0 in
    let whole : pre ≡ l ++ b'T' ∷ r = subst (λ y. pre ≡ l ++ y ∷ r) is_t e in
    let sum : length pre ≡ length l + suc (length r) = ap length e ∙ length-append l (x ∷ r) in
    (l, r, whole, n, omega arith, pattern_ok-no_t 0 l (omega arith) a)

-- Rendering a line of the log never panics. A line is shown as it is, or it consists of a date of ten
-- characters, a `T`, a time of eight, the rest of a timestamp, a space and a message: then the
-- timestamp for the browser is date and time with the `T` and a `Z`, cut off where the fraction begins,
-- the text shown has a space for the `T`, and the message is kept whole.
pub render_log_line-IsRendered : (line : Text) → IsRendered line (render_log_line line)
unfolding render_log_line split_log_timestamp
render_log_line-IsRendered line =
    by_found (split_log_timestamp line) (stamp_of_sound (split_once b' ' line))
  where
    by_found :
        (o : Option (Option (Text × Text)))
        → IsSplit (split_once b' ' line) o
        → IsRendered line (line_for line o)
    by_found none sound = absurd sound
    by_found (some none) sound = inl refl
    by_found (some (some (ts, msg))) sound =
        let (parts, long, fits) = sound in
        let (pre, (rest, q, len, ok, cut)) = pattern_ok-IsPrefix 0 19 ts long fits in
        let (date, time, whole, n, k, no_t) = date_and_time pre len ok in
        let shown : with_stamp (slice_to ts 19) msg ≡ with_stamp (some (date ++ b'T' ∷ time)) msg =
          ap (λ o. with_stamp o msg) (cut ∙ ap some whole) in
        inr (
          date,
          time,
          rest,
          msg,
          split_once_sound b' ' line ts msg parts
              ∙ ap (λ t. t ++ b' ' ∷ msg) (q ∙ ap (λ p. p ++ rest) whole),
          n,
          k,
          shown
              ∙ ap (λ t. stamped ((date ++ b'T' ∷ time) ++ text "Z") t msg)
                  (replace_first-append b'T' b' ' date time no_t),
        )
