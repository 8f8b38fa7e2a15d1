-- ===== src/Web/Gate/Access.antt =====
-- src/web.rs: who gets through the session check, and to a route that changes state.
use dockdoe.Prelude.{
  ℕ, ◌≡◌, ◌⊎◌, ◌<◌, inl, inr, refl, sym, ap, ◌∙◌, arith, Bool, true, false, Option, none, some,
  List, Text, ◌==◌, text_eq, Bool-cases, Option-cases, and-eq-true, split_once, parse_unsigned,
  u64_max,
}
use dockdoe.Auth.{Auth, cookie_name, cookie_value, token_matches, decode_hex, ok}
use dockdoe.Auth.Session.{token_valid_sound}
use dockdoe.Web.Gate.{
  Request, Gate, pass, unauthorized, htmx_redirect, login_redirect, panics, bearer_token,
  valid_token, session_token, request_is_authenticated, is_public, by_session, check_session,
  check_bearer, require_auth, htmx_allows, host_allowed, reaches_action,
}

module _ (mac : List ℕ → List ℕ → List ℕ) where
  -- The request presents the configured API token.
  abbrev pub HasToken : Option (List ℕ) → Request → Type 0
  HasToken api_token req =
      (expected presented : Text) × (api_token ≡ some expected)
      × (bearer_token req.authorization ≡ some presented)
      × (mac expected presented ≡ mac expected expected)

  -- Its session cookie holds an expiry in the future, signed with the secret.
  abbrev pub HasSession : Auth → ℕ → Request → Type 0
  HasSession auth now_unix req =
      (cookies token expiry_str sig : Text) × (expiry : ℕ) × (req.cookie ≡ some cookies)
      × (cookie_value cookies cookie_name ≡ some token)
      × (split_once b'.' token ≡ some (expiry_str, sig))
      × (parse_unsigned u64_max expiry_str ≡ some expiry)
      × (now_unix < expiry)
      × (decode_hex sig ≡ ok (mac auth.secret expiry_str))

  request-HasSession :
      (auth : Auth) (now_unix : ℕ) (req : Request)
      → request_is_authenticated mac auth now_unix req ≡ some true
      → HasSession auth now_unix req
  unfolding request_is_authenticated
  request-HasSession auth now_unix req h = elim (Option-cases req.cookie) [
    | inl e ↦ absurd (ground arith)
    | inr (cookies, e) ↦ elim (Option-cases (cookie_value cookies cookie_name)) [
      | inl f ↦ absurd (ground arith)
      | inr (token, f) ↦
          let valid =
            sym (
              ap (λ c. valid_token mac auth now_unix (session_token mac c)) e
              ∙ ap (valid_token mac auth now_unix) f)
            ∙ h in
          let (expiry_str, sig, expiry, s, p, l, d) =
            token_valid_sound mac auth token now_unix valid in
          (cookies, token, expiry_str, sig, expiry, e, f, s, p, l, d)
    ]
  ]

  by_session-pass :
      (htmx b : Bool) (o : Option Bool)
      → by_session mac htmx o ≡ pass b
      → (o ≡ some true) × (b ≡ false)
  by_session-pass htmx b none h = cc
  by_session-pass htmx b (some true) h = (refl, cc)
  by_session-pass true b (some false) h = cc
  by_session-pass false b (some false) h = cc

  check_session-pass :
      (auth : Auth) (now_unix : ℕ) (req : Request) (b : Bool)
      → check_session mac (some auth) now_unix req ≡ pass b
      → (b ≡ false) × ((is_public mac req.path ≡ true) ⊎ HasSession auth now_unix req)
  unfolding check_session
  check_session-pass auth now_unix req b h = elim (Bool-cases (is_public mac req.path)) [
    | inl e ↦ (pass-false (rw e at h), inl e)
    | inr e ↦
        let (authentic, f) =
          by_session-pass req.htmx b (request_is_authenticated mac auth now_unix req) (rw e at h) in
        (f, inr (request-HasSession auth now_unix req authentic))
  ]
    where
      pass-false : {b : Bool} → pass false ≡ pass b → b ≡ false
      pass-false h = cc

  pass-true : {b : Bool} → pass true ≡ pass b → b ≡ true
  pass-true h = cc

  check_bearer-pass :
      (api_token : Option (List ℕ)) (req : Request) (otherwise : Gate) (b : Bool)
      → check_bearer mac api_token (bearer_token req.authorization) otherwise ≡ pass b
      → ((b ≡ true) × HasToken api_token req) ⊎ (otherwise ≡ pass b)
  unfolding check_bearer token_matches
  check_bearer-pass none req otherwise b h = inr h
  check_bearer-pass (some expected) req otherwise b h =
      elim (Option-cases (bearer_token req.authorization)) [
        | inl e ↦ inr (rw e at h)
        | inr (presented, e) ↦ elim (Bool-cases (mac expected presented == mac expected expected)) [
          | inl f ↦ inl (
            pass-true (rw (e, f) at h),
            (
              expected,
              presented,
              refl,
              e,
              (text_eq.test_iff (mac expected presented) (mac expected expected)).0 f,
            ),
          )
          | inr f ↦ absurd (ground arith)
        ]
      ]

  -- With a login configured, a request that is let through presents the API token, or asks for the
  -- login page or an asset, or carries an unexpired session signed with the secret.
  pub require_auth_sound :
      (api_token : Option (List ℕ)) (auth : Auth) (now_unix : ℕ) (req : Request) (bearer : Bool)
      → require_auth mac api_token (some auth) now_unix req ≡ pass bearer
      → ((bearer ≡ true) × HasToken api_token req)
        ⊎ ((bearer ≡ false) × ((is_public mac req.path ≡ true) ⊎ HasSession auth now_unix req))
  unfolding require_auth
  require_auth_sound api_token auth now_unix req bearer h =
      elim (check_bearer-pass api_token req (check_session mac (some auth) now_unix req) bearer h) [
        | inl token ↦ inl token
        | inr session ↦ inr (check_session-pass auth now_unix req bearer session)
      ]

  htmx_allows-pass :
      (g : Gate) (htmx : Bool)
      → htmx_allows mac g htmx ≡ true
      → (bearer : Bool) × (g ≡ pass bearer) × ((bearer ≡ true) ⊎ (htmx ≡ true))
  htmx_allows-pass (pass true) htmx h = (true, refl, inl refl)
  htmx_allows-pass (pass false) htmx h = (false, refl, inr h)
  htmx_allows-pass unauthorized htmx h = cc
  htmx_allows-pass htmx_redirect htmx h = cc
  htmx_allows-pass login_redirect htmx h = cc
  htmx_allows-pass panics htmx h = cc

  -- With a login configured, a request for anything but the public paths reaches an action only from an
  -- allowed host, and with the API token or with both a session and the header of htmx.
  pub reaches_action_sound :
      (allowed_hosts : List Text) (api_token : Option (List ℕ)) (auth : Auth) (now_unix : ℕ)
      (req : Request)
      → is_public mac req.path ≡ false
      → reaches_action mac allowed_hosts api_token (some auth) now_unix req ≡ true
      → (host_allowed req.host allowed_hosts ≡ true)
        × (HasToken api_token req ⊎ (HasSession auth now_unix req × (req.htmx ≡ true)))
  unfolding reaches_action
  reaches_action_sound allowed_hosts api_token auth now_unix req private h =
      let (host, gate) = and-eq-true _ _ h in
      let (bearer, passed, guard) =
        htmx_allows-pass (require_auth mac api_token (some auth) now_unix req) req.htmx gate in
      (
        host,
        elim (require_auth_sound api_token auth now_unix req bearer passed) [
          | inl (_, token) ↦ inl token
          | inr (b, inl shown) ↦ absurd (ground arith)
          | inr (b, inr session) ↦ elim guard [
            | inl t ↦ absurd (ground arith)
            | inr htmx ↦ inr (session, htmx)
          ]
        ],
      )
