-- ===== src/Startup/Restart.antt =====
-- src/main.rs, src/store.rs, src/auth.rs: sessions outlive a restart.
use dockdoe.Prelude.{
  ℕ, ◌+◌, ◌≤◌, ◌≡◌, refl, sym, ap, subst, ◌∙◌, Option, none, some, List, Bool, ltb, u64_max, Text,
  text_eq, lookup, lookup-insert, insert, if◌then◌else◌, ==_refl, ◌==◌, leb, false, parse_unsigned,
  split_once, nat_eq,
}
use dockdoe.Auth.{
  Decoded, ok, bad, panics, verify, check_expiry, check_parts, decode_hex, Auth, session_ttl,
  cookie_name, cookie_value, issue_cookie, token_valid,
}
use dockdoe.Auth.Hex.{Bytes}
use dockdoe.Auth.Session.{session_cookie}
use dockdoe.Config.Load.{AppConfig}
use dockdoe.Store.Secret.{secret_key, stored_secret, session_secret}
use dockdoe.Startup.{Meta, AuthSetup, refused, ready, auth_for, build_auth}

-- What was answered once is answered from then on, and nothing more is written.
stored_secret-again :
    (generated later : List ℕ) (meta : Meta) (o : Option (List ℕ))
    → lookup secret_key meta ≡ o
    → session_secret later (stored_secret generated meta o).1
      ≡ ((stored_secret generated meta o).0, (stored_secret generated meta o).1)
unfolding session_secret
stored_secret-again generated later meta (some secret) e = ap (stored_secret later meta) e
stored_secret-again generated later meta none e =
    ap (stored_secret later (insert secret_key generated meta)) (
      lookup-insert secret_key secret_key generated meta
      ∙ ap (λ (b : Bool). if b then some generated else lookup secret_key meta)
          (==_refl secret_key))

session_secret-again :
    (generated later : List ℕ) (meta : Meta)
    → session_secret later (session_secret generated meta).1 ≡ session_secret generated meta
unfolding session_secret
session_secret-again generated later meta =
    stored_secret-again generated later meta (lookup secret_key meta) refl

module _ (mac : List ℕ → List ℕ → List ℕ)
    (mac-Bytes : (key message : List ℕ) → Bytes (mac key message)) (as_bytes : Text → List ℕ) where
  verify-secret :
      (a b : Auth) (expiry_str : Text) (d : Decoded)
      → a.secret ≡ b.secret
      → verify mac a expiry_str d ≡ verify mac b expiry_str d
  verify-secret a b expiry_str (ok sig) e = ap (λ s. some (sig == mac s expiry_str)) e
  verify-secret a b expiry_str bad e = refl
  verify-secret a b expiry_str panics e = refl

  check_expiry-secret :
      (a b : Auth) (now_unix : ℕ) (expiry_str sig : Text) (o : Option ℕ)
      → a.secret ≡ b.secret
      → check_expiry mac a now_unix expiry_str sig o ≡ check_expiry mac b now_unix expiry_str sig o
  check_expiry-secret a b now_unix expiry_str sig none e = refl
  check_expiry-secret a b now_unix expiry_str sig (some expiry) e =
      ap (λ v. if leb expiry now_unix then some false else v)
        (verify-secret a b expiry_str (decode_hex sig) e)

  -- A token is checked with nothing of the configuration but the secret.
  check_parts-secret :
      (a b : Auth) (now_unix : ℕ) (o : Option (Text × Text))
      → a.secret ≡ b.secret
      → check_parts mac a now_unix o ≡ check_parts mac b now_unix o
  check_parts-secret a b now_unix none e = refl
  check_parts-secret a b now_unix (some (expiry_str, sig)) e =
      check_expiry-secret a b now_unix expiry_str sig (parse_unsigned u64_max expiry_str) e

  token_valid-secret :
      (a b : Auth) (token : Text) (now_unix : ℕ)
      → a.secret ≡ b.secret
      → token_valid mac a token now_unix ≡ token_valid mac b token now_unix
  unfolding token_valid
  token_valid-secret a b token now_unix e =
      check_parts-secret a b now_unix (split_once b'.' token) e

  -- The parts of a login that a start sets up.
  abbrev IsFrom : List ℕ × Meta → AuthSetup → Type 0
  IsFrom (secret, meta) refused = Unit
  IsFrom (secret, meta) (ready none after) = Unit
  IsFrom (secret, meta) (ready (some auth) after) = (auth.secret ≡ secret) × (after ≡ meta)

  auth_for-IsFrom :
      (user password : Option Text) (cfg : AppConfig) (generated : List ℕ) (meta : Meta)
      → IsFrom (session_secret generated meta) (auth_for as_bytes user password cfg generated meta)
  auth_for-IsFrom none none cfg generated meta = tt
  auth_for-IsFrom none (some password) cfg generated meta = tt
  auth_for-IsFrom (some user) none cfg generated meta = tt
  auth_for-IsFrom (some user) (some password) cfg generated meta = (refl, refl)

  build_auth-secret :
      (cfg : AppConfig) (generated : List ℕ) (meta after : Meta) (auth : Auth)
      → build_auth as_bytes cfg generated meta ≡ ready (some auth) after
      → (auth.secret ≡ (session_secret generated meta).0)
        × (after ≡ (session_secret generated meta).1)
  unfolding build_auth
  build_auth-secret cfg generated meta after auth h =
      subst (IsFrom (session_secret generated meta)) h
        (auth_for-IsFrom cfg.auth_user cfg.auth_password cfg generated meta)

  -- After a restart, under whatever configuration has a login still and whatever secret would have
  -- been generated, the table is as it was, and the cookie of a login before the restart is accepted
  -- for the rest of its life, and no longer.
  pub build_auth-restart :
      (before later : AppConfig) (generated other : List ℕ) (meta stored again : Meta) (a b : Auth)
      (issued now_unix : ℕ)
      → build_auth as_bytes before generated meta ≡ ready (some a) stored
      → build_auth as_bytes later other stored ≡ ready (some b) again
      → issued + session_ttl ≤ u64_max
      → (again ≡ stored)
        × (token : Text) × (pair : Text) × (attributes : Text) × (split_once b';'
              (issue_cookie mac a issued)
            ≡ some (pair, attributes))
        × (cookie_value pair cookie_name ≡ some token)
        × (token_valid mac b token now_unix ≡ some (ltb now_unix (issued + session_ttl)))
  build_auth-restart before later generated other meta stored again a b issued now_unix f g l =
      let (first, kept) = build_auth-secret before generated meta stored a f in
      let (second, after) = build_auth-secret later other stored again b g in
      let found = ap (session_secret other) kept ∙ session_secret-again generated other meta in
      let same : b.secret ≡ a.secret = second ∙ ap (λ (r : List ℕ × Meta). r.0) found ∙ sym first in
      let (token, pair, attributes, e, c, v) = session_cookie mac mac-Bytes a issued now_unix l in
      (
        after ∙ ap (λ (r : List ℕ × Meta). r.1) found ∙ sym kept,
        token,
        pair,
        attributes,
        e,
        c,
        token_valid-secret b a token now_unix same ∙ v,
      )
