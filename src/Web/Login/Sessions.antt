-- ===== src/Web/Login/Sessions.antt =====
-- src/web.rs: a session from the login to its end.
use dockdoe.Prelude.{
  ℕ, ◌+◌, ◌≤◌, ◌<◌, ◌≡◌, refl, ap, ◌∙◌, Bool, true, false, Option, none, some, List, text_eq,
  if◌then◌else◌, ltb, u64_max, Text, text, split_once, All, ==_refl,
}
use dockdoe.Auth.{Auth, credentials_valid, issue_cookie, session_ttl, feed_credentials}
use dockdoe.Auth.Hex.{Bytes}
use dockdoe.Auth.Session.{session_cookie, issue_cookie-visible}
use dockdoe.Web.Gate.{
  Request, Gate, by_session, valid_token, is_public, request_is_authenticated, require_auth,
}
use dockdoe.Web.Login.{redirect, form, if_accepted, page_for, login_page, login_submit}

-- Visible ASCII and spaces.
abbrev pub IsHeaderText : Text → Type 0
IsHeaderText s = All (λ c. (0x20 ≤ c) × (c < 0x7f)) s

module _ (mac : List ℕ → List ℕ → List ℕ)
    (mac-Bytes : (key message : List ℕ) → Bytes (mac key message)) (accepts_header : Text → Bool)
    (accepts-IsHeaderText : (s : Text) → IsHeaderText s → accepts_header s ≡ true) where
  -- A request of a browser that keeps the cookie `pair`.
  abbrev pub with_cookie : Text → Request → Request
  with_cookie pair req = record req { cookie = some pair; authorization = none }

  -- The login with the configured credentials sets a cookie, if the end of its lifetime fits 64
  -- bits, the MAC's tags are bytes, and visible ASCII is accepted as a header. Until its lifetime
  -- of 30 days is over, a request with that cookie and without a bearer token passes on every
  -- path, and the login page sends it home; from then on it passes on public paths only, and the
  -- login page shows the form.
  pub login_submit-passes :
      (api_token : Option (List ℕ)) (auth : Auth) (issued now_unix : ℕ) (req : Request)
      → issued + session_ttl ≤ u64_max
      → (cookie pair attributes : Text) × (login_submit mac accepts_header
            (some auth)
            issued
            (record { username = auth.user; password = auth.password })
          ≡ redirect (text "/") (some cookie))
        × (split_once b';' cookie ≡ some (pair, attributes))
        × (require_auth mac api_token (some auth) now_unix (with_cookie pair req) ≡ (
            if is_public mac req.path
            then Gate.pass false
            else by_session mac req.htmx (some (ltb now_unix (issued + session_ttl)))))
        × (login_page mac (some auth) now_unix (with_cookie pair req)
            ≡ page_for mac (some (ltb now_unix (issued + session_ttl))))
  unfolding login_submit login_page require_auth credentials_valid request_is_authenticated
  login_submit-passes api_token auth issued now_unix req h =
      let (token, pair, attributes, parts, found, valid) =
        session_cookie mac mac-Bytes auth issued now_unix h in
      let correct : credentials_valid mac auth auth.user auth.password ≡ true =
        ==_refl (mac auth.secret (feed_credentials auth.user auth.password)) in
      let kept : accepts_header (issue_cookie mac auth issued) ≡ true =
        accepts-IsHeaderText (issue_cookie mac auth issued)
          (issue_cookie-visible mac mac-Bytes auth issued) in
      let known : request_is_authenticated mac auth now_unix (with_cookie pair req)
          ≡ some (ltb now_unix (issued + session_ttl)) =
        ap (valid_token mac auth now_unix) found ∙ valid in
      (
        issue_cookie mac auth issued,
        pair,
        attributes,
        ap
              (λ b.
                if b
                then redirect (text "/") (if_accepted accepts_header (issue_cookie mac auth issued))
                else form 401 true)
              correct
            ∙ ap
                (λ b. redirect (text "/") (if b then some (issue_cookie mac auth issued) else none))
                kept,
        parts,
        by_token api_token
            ∙ ap
                (λ o. if is_public mac req.path then Gate.pass false else by_session mac req.htmx o)
                known,
        ap (page_for mac) known,
      )
    where
      by_token :
          (t : Option (List ℕ))
          → require_auth mac t
              (some auth)
              now_unix
              (with_cookie (session_cookie mac mac-Bytes auth issued now_unix h).1 req)
            ≡ (if is_public mac req.path
                then Gate.pass false
                else by_session mac req.htmx (
                    request_is_authenticated mac auth now_unix
                      (with_cookie (session_cookie mac mac-Bytes auth issued now_unix h).1 req)))
      by_token none = refl
      by_token (some t) = refl
