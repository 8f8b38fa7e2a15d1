-- ===== src/Auth/Session.antt =====
-- src/auth.rs: the life of a session, from the cookie that the login sets to its expiry.
use dockdoe.Prelude.{
  ℕ, ◌+◌, ◌/◌, ◌%◌, ◌≤◌, ◌<◌, ◌≡◌, ◌≢◌, refl, sym, ap, ◌∙◌, arith, true, false, some, List, [], ◌∷◌,
  ◌++◌, if◌then◌else◌, ltb, leb, nat_eq, ◌==◌, text_eq, Bool, u64_max, Text, text, split,
  split_once, trim, trim_start, trim_end, trim_end_matches, is_whitespace, to_string,
  parse_unsigned, Digits, Digits-to_string, parse_unsigned-to_string, All, All-append, All-map_imp,
  Bool-cases, Option-cases, inl, inr, ==_refl,
}
use dockdoe.Auth.{
  Auth, encode_hex, hex_digit, decode_hex, Decoded, ok, bad, panics, cookie, cookie_name,
  cookie_value, first_value, session_ttl, sign, issue_cookie, token_valid, check_parts,
  check_expiry, verify,
}
use dockdoe.Auth.Hex.{Bytes, decode_hex-encode_hex}

-- A character that a cookie's value may hold: visible, and no semicolon.
abbrev pub IsPlain : ℕ → Type 0
IsPlain c = (0x21 ≤ c) × (c < 0x7f) × (c ≢ b';')

IsPlain-no_space : (c : ℕ) → IsPlain c → is_whitespace c ≡ false
unfolding is_whitespace
IsPlain-no_space c (lo, hi, _) = ground arith

split-IsPlain : (s : Text) → All IsPlain s → split b';' s ≡ s ∷ []
unfolding split
split-IsPlain [] h = refl
split-IsPlain (c ∷ s) ((lo, hi, n), h) =
    let e : (c == b';') ≡ false = ground arith in rw (e, split-IsPlain s h) refl

trim_end-IsPlain : (s : Text) → All IsPlain s → trim_end_matches is_whitespace s ≡ s
unfolding trim_end_matches
trim_end-IsPlain [] h = refl
trim_end-IsPlain (c ∷ s) (p, h) = rw (IsPlain-no_space c p, trim_end-IsPlain s h) refl

trim_start-IsPlain : (s : Text) → All IsPlain s → trim_start s ≡ s
unfolding trim_start
trim_start-IsPlain [] h = refl
trim_start-IsPlain (c ∷ s) (p, h) = rw (IsPlain-no_space c p) refl

trim-IsPlain : (s : Text) → All IsPlain s → trim s ≡ s
unfolding trim trim_end
trim-IsPlain s h = rw (trim_start-IsPlain s h) (trim_end-IsPlain s h)

-- A separator that the first part does not hold parts the text there.
split_once-append :
    (sep : ℕ) (a b : Text) → All (λ c. c ≢ sep) a → split_once sep (a ++ sep ∷ b) ≡ some (a, b)
unfolding split_once
split_once-append sep [] b h = rw (==_refl sep) refl
split_once-append sep (c ∷ a) b (n, h) =
    let e : (c == sep) ≡ false = ground arith in rw (e, split_once-append sep a b h) refl

Digits-All :
    (P : ℕ → Type 0) → ((c : ℕ) → b'0' ≤ c → c ≤ b'9' → P c) → (s : Text) → Digits s → All P s
Digits-All P f [] h = tt
Digits-All P f (c ∷ s) (lo, hi, h) = (f c lo hi, Digits-All P f s h)

IsPlain-hex_digit : (n : ℕ) → n < 16 → IsPlain (hex_digit n)
IsPlain-hex_digit n h = ground arith

encode_hex-IsPlain : (bs : List ℕ) → Bytes bs → All IsPlain (encode_hex bs)
unfolding encode_hex
encode_hex-IsPlain [] h = tt
encode_hex-IsPlain (b ∷ bs) (l, h) = (
  IsPlain-hex_digit (b / 16) (omega arith),
  (IsPlain-hex_digit (b % 16) (omega arith), encode_hex-IsPlain bs h),
)

pair-no_semicolon :
    (token : Text) → All IsPlain token → All (λ c. c ≢ b';') (cookie_name ++ b'=' ∷ token)
pair-no_semicolon token h =
    All-append (λ c. c ≢ b';') cookie_name (b'=' ∷ token) (ground arith)
      (omega arith, All-map_imp IsPlain (λ c. c ≢ b';') (λ c p. p.2) token h)

secure-visible :
    (secure : Bool) → All (λ c. (0x20 ≤ c) × (c < 0x7f)) (if secure then text "; Secure" else [])
secure-visible true = ground arith
secure-visible false = tt

module _ (mac : List ℕ → List ℕ → List ℕ)
    (mac-Bytes : (key message : List ℕ) → Bytes (mac key message)) where
  sign-IsPlain : (auth : Auth) (expiry : ℕ) → All IsPlain (sign mac auth expiry)
  unfolding sign
  sign-IsPlain auth expiry =
      let digits = to_string expiry in
      All-append IsPlain digits (b'.' ∷ encode_hex (mac auth.secret digits))
        (Digits-All IsPlain (λ c lo hi. (omega arith, omega arith, omega arith)) digits
          (Digits-to_string expiry))
        (
          (omega arith, omega arith, omega arith),
          encode_hex-IsPlain (mac auth.secret digits) (mac-Bytes auth.secret digits),
        )

  check_expiry-now :
      (auth : Auth) (now_unix expiry : ℕ) (digits : Text)
      → check_expiry mac auth now_unix digits (encode_hex (mac auth.secret digits)) (some expiry)
        ≡ some (ltb now_unix expiry)
  check_expiry-now auth now_unix expiry digits = elim (Bool-cases (leb expiry now_unix)) [
    | inl e ↦ let late : ltb now_unix expiry ≡ false = ground arith in rw (e, late) refl
    | inr e ↦
        let early : ltb now_unix expiry ≡ true = ground arith in
        rw (e, early)
          (ap (verify mac auth digits)
              (decode_hex-encode_hex (mac auth.secret digits) (mac-Bytes auth.secret digits))
            ∙ ap some (==_refl (mac auth.secret digits)))
  ]

  -- A signed token is valid exactly until its expiry.
  pub token_valid-sign :
      (auth : Auth) (expiry now_unix : ℕ)
      → expiry ≤ u64_max
      → token_valid mac auth (sign mac auth expiry) now_unix ≡ some (ltb now_unix expiry)
  unfolding token_valid sign
  token_valid-sign auth expiry now_unix h =
      let digits = to_string expiry in
      let sig = encode_hex (mac auth.secret digits) in
      let no_dot =
        Digits-All (λ c. c ≢ b'.') (λ c lo hi. omega arith) digits (Digits-to_string expiry) in
      ap (check_parts mac auth now_unix) (split_once-append b'.' digits sig no_dot)
      ∙ ap (check_expiry mac auth now_unix digits sig) (parse_unsigned-to_string u64_max expiry h)
      ∙ check_expiry-now auth now_unix expiry digits

  cookie_value-pair :
      (token : Text)
      → All IsPlain token
      → cookie_value (cookie_name ++ b'=' ∷ token) cookie_name ≡ some token
  unfolding cookie_value first_value split_once
  cookie_value-pair token h =
      let pair = cookie_name ++ b'=' ∷ token in
      let plain : All IsPlain pair =
        All-append IsPlain cookie_name (b'=' ∷ token) (ground arith)
          ((omega arith, omega arith, omega arith), h) in
      ap (first_value cookie_name) (split-IsPlain pair plain) ∙ ap some (trim_end-IsPlain token h)

  pub issue_cookie-visible :
      (auth : Auth) (now_unix : ℕ)
      → All (λ c. (0x20 ≤ c) × (c < 0x7f)) (issue_cookie mac auth now_unix)
  unfolding issue_cookie cookie
  issue_cookie-visible auth now_unix =
      let V = λ (c : ℕ). (0x20 ≤ c) × (c < 0x7f) in
      let token = sign mac auth (now_unix + session_ttl) in
      let tail = if auth.secure_cookie then text "; Secure" else [] in
      All-append V cookie_name
        (text "="
          ++ (token
              ++ (text "; HttpOnly; SameSite=Lax; Path=/; Max-Age="
                  ++ (to_string session_ttl ++ tail))))
        (ground arith)
        (All-append V (text "=")
          (token
            ++ (text "; HttpOnly; SameSite=Lax; Path=/; Max-Age="
                ++ (to_string session_ttl ++ tail)))
          (ground arith)
          (All-append V token
            (text "; HttpOnly; SameSite=Lax; Path=/; Max-Age=" ++ (to_string session_ttl ++ tail))
            (All-map_imp IsPlain V (λ c p. (ground arith, p.1)) token
              (sign-IsPlain auth (now_unix + session_ttl)))
            (All-append V (text "; HttpOnly; SameSite=Lax; Path=/; Max-Age=")
              (to_string session_ttl ++ tail) (ground arith)
              (All-append V (to_string session_ttl) tail
                (Digits-All V (λ c lo hi. (omega arith, omega arith)) (to_string session_ttl)
                  (Digits-to_string session_ttl))
                (secure-visible auth.secure_cookie)))))

  -- The cookie of a login holds a token: the browser keeps what stands before the first semicolon,
  -- the server finds the token in it, and accepts it exactly for `session_ttl` seconds.
  pub session_cookie :
      (auth : Auth) (issued now_unix : ℕ)
      → issued + session_ttl ≤ u64_max
      → (token pair attributes : Text) × (split_once b';' (issue_cookie mac auth issued)
          ≡ some (pair, attributes))
        × (cookie_value pair cookie_name ≡ some token)
        × (token_valid mac auth token now_unix ≡ some (ltb now_unix (issued + session_ttl)))
  unfolding issue_cookie cookie
  session_cookie auth issued now_unix h =
      let token = sign mac auth (issued + session_ttl) in
      let plain = sign-IsPlain auth (issued + session_ttl) in
      let attributes =
        text " HttpOnly; SameSite=Lax; Path=/; Max-Age="
        ++ (to_string session_ttl ++ (if auth.secure_cookie then text "; Secure" else [])) in
      (
        token,
        cookie_name ++ b'=' ∷ token,
        attributes,
        split_once-append b';' (cookie_name ++ b'=' ∷ token) attributes
            (pair-no_semicolon token plain),
        cookie_value-pair token plain,
        token_valid-sign auth (issued + session_ttl) now_unix h,
      )

-- The conditions on which a signature is accepted.
verify_sound :
    (mac : List ℕ → List ℕ → List ℕ) (auth : Auth) (expiry_str : Text) (d : Decoded)
    → verify mac auth expiry_str d ≡ some true
    → d ≡ ok (mac auth.secret expiry_str)
verify_sound mac auth expiry_str (ok sig) h =
    ap ok ((text_eq.test_iff sig (mac auth.secret expiry_str)).0 (ground arith))
verify_sound mac auth expiry_str bad h = cc
verify_sound mac auth expiry_str panics h = cc

check_expiry_sound :
    (mac : List ℕ → List ℕ → List ℕ) (auth : Auth) (now_unix expiry : ℕ) (expiry_str sig : Text)
    → check_expiry mac auth now_unix expiry_str sig (some expiry) ≡ some true
    → (now_unix < expiry) × (decode_hex sig ≡ ok (mac auth.secret expiry_str))
check_expiry_sound mac auth now_unix expiry expiry_str sig h =
    elim (Bool-cases (leb expiry now_unix)) [
      | inl e ↦ absurd (ground arith)
      | inr e ↦ (ground arith, verify_sound mac auth expiry_str (decode_hex sig) (rw e at h))
    ]

-- A token that is accepted has not expired, and its second part is the MAC of the first.
pub token_valid_sound :
    (mac : List ℕ → List ℕ → List ℕ) (auth : Auth) (token : Text) (now_unix : ℕ)
    → token_valid mac auth token now_unix ≡ some true
    → (expiry_str sig : Text) × (expiry : ℕ) × (split_once b'.' token ≡ some (expiry_str, sig))
      × (parse_unsigned u64_max expiry_str ≡ some expiry)
      × (now_unix < expiry)
      × (decode_hex sig ≡ ok (mac auth.secret expiry_str))
unfolding token_valid
token_valid_sound mac auth token now_unix h = elim (Option-cases (split_once b'.' token)) [
  | inl e ↦ cc
  | inr ((expiry_str, sig), e) ↦
      let checked = sym (ap (check_parts mac auth now_unix) e) ∙ h in
      elim (Option-cases (parse_unsigned u64_max expiry_str)) [
        | inl f ↦ absurd (ground arith)
        | inr (expiry, f) ↦
            let (early, fits) =
              check_expiry_sound mac auth now_unix expiry expiry_str sig
                (sym (ap (check_expiry mac auth now_unix expiry_str sig) f) ∙ checked) in
            (expiry_str, sig, expiry, e, f, early, fits)
      ]
]
