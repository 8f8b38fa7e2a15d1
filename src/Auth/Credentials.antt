-- ===== src/Auth/Credentials.antt =====
-- src/auth.rs: which credentials are accepted.
use dockdoe.Prelude.{
  ℕ, ◌≡◌, ◌≢◌, ◌⊎◌, inl, inr, refl, ap, Bool, true, false, Bool-cases, List, [], ◌∷◌, All, ◌==◌,
  text_eq, ==_refl,
}
use dockdoe.Auth.{Auth, feed_credentials, credentials_valid}

-- The zero byte parts a user that holds none from the password.
feed_credentials_injective :
    (user user' password password' : List ℕ)
    → All (λ b. b ≢ 0) user
    → All (λ b. b ≢ 0) user'
    → feed_credentials user password ≡ feed_credentials user' password'
    → (user ≡ user') × (password ≡ password')
feed_credentials_injective [] [] p q h k e = (refl, cc)
feed_credentials_injective [] (c ∷ v) p q h (n, k) e = absurd (n cc)
feed_credentials_injective (b ∷ u) [] p q (n, h) k e = absurd (n cc)
feed_credentials_injective (b ∷ u) (c ∷ v) p q (_, h) (_, k) e =
    let head : b ≡ c = cc in
    let tail : feed_credentials u p ≡ feed_credentials v q = cc in
    let (us, ps) = feed_credentials_injective u v p q h k tail in (cc, ps)

-- The configured pair is accepted. Any other pair that is accepted, of users without a zero byte, shows
-- two different messages to which the MAC gives the same tag.
pub credentials_valid_sound :
    (mac : List ℕ → List ℕ → List ℕ) (auth : Auth) (user password : List ℕ)
    → All (λ b. b ≢ 0) auth.user
    → All (λ b. b ≢ 0) user
    → credentials_valid mac auth user password ≡ true
    → ((user ≡ auth.user) × (password ≡ auth.password))
      ⊎ ((m n : List ℕ) × (m ≢ n) × (mac auth.secret m ≡ mac auth.secret n))
unfolding credentials_valid
credentials_valid_sound mac auth user password h k e =
    let m = feed_credentials user password in
    let n = feed_credentials auth.user auth.password in
    elim (Bool-cases (m == n)) [
      | inl same ↦ inl (
          feed_credentials_injective user auth.user password auth.password k h
            ((text_eq.test_iff m n).0 same))
      | inr differ ↦ inr (
        m,
        n,
        λ s. absurd (true-false (ap (λ t. t == n) s) (==_refl n) differ),
        (text_eq.test_iff (mac auth.secret m) (mac auth.secret n)).0 e,
      )
    ]
  where
    true-false : {a b : Bool} → a ≡ b → b ≡ true → a ≡ false → ⊥
    true-false p q r = cc
