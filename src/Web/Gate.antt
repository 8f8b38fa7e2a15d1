-- ===== src/Web/Gate.antt =====
-- src/web.rs: the checks in front of every handler. A header is the text that `to_str` gives, which is
-- visible ASCII, and `none` where it is missing or no such text; the clock is an argument.
use dockdoe.Prelude.{
  ℕ, ◌≡◌, ◌≢◌, refl, Bool, true, false, not, ◌&&◌, ◌||◌, Option, none, some, List, [], ◌∷◌, ◌++◌,
  map, if◌then◌else◌, ◌==◌, Text, text, text_eq, select, contains, trim, split, starts_with,
  strip_prefix, is_empty, to_ascii_lowercase, cons_first, nat_eq, eq_ignore_ascii_case,
}
use dockdoe.Auth.{
  Auth, cookie_name, cookie_value, token_valid, token_matches, credentials_valid, issue_cookie,
}
pub mod Access
pub mod Names

pub record Request : Type 0 where
  pub path : Text
  pub host : Option Text
  pub authorization : Option Text
  pub cookie : Option Text
  pub htmx : Bool

-- `rsplit_once(':')`, the part in front.
unfoldable pub before_last_colon : Text → Option Text
before_last_colon [] = none
before_last_colon (c ∷ s) = elim (before_last_colon s) [
  | some t ↦ some (c ∷ t)
  | none ↦ if c == b':' then some [] else none
]

abbrev pub first_piece : List Text → Text
first_piece [] = []
first_piece (s ∷ ss) = s

abbrev pub or_whole : Text → Option Text → Text
or_whole s none = s
or_whole s (some t) = t

unfoldable pub host_without_port : Text → Text
unfolding before_last_colon split
host_without_port host = elim (strip_prefix (text "[") host) [
  | some rest ↦ first_piece (split b']' rest)
  | none ↦ or_whole host (before_last_colon host)
]

unfoldable pub normalize : Text → Text
unfolding host_without_port trim to_ascii_lowercase
normalize h = to_ascii_lowercase (host_without_port (trim h))

unfoldable pub normalize_allowed_hosts : List Text → List Text
unfolding normalize
normalize_allowed_hosts hosts = select (λ h. not (is_empty h)) (map normalize hosts)

abbrev pub is_local_name : Text → Bool
is_local_name h = h == text "localhost" || (h == text "127.0.0.1" || h == text "::1")

unfoldable pub host_allowed : Option Text → List Text → Bool
unfolding normalize
host_allowed host [] = true
host_allowed none (_ ∷ _) = false
host_allowed (some host) (a ∷ allowed) =
    is_local_name (normalize host) || contains (a ∷ allowed) (normalize host)

unfoldable pub bearer_token : Option Text → Option Text
bearer_token none = none
bearer_token (some value) = strip_prefix (text "Bearer ") value

-- What a request meets; `panics` is a panic in the token check.
pub data Gate : Type 0 where
  pass : (bearer : Bool) → Gate
  unauthorized htmx_redirect login_redirect : Gate
  panics : Gate

module _ (mac : List ℕ → List ℕ → List ℕ) where
  abbrev pub valid_token : Auth → ℕ → Option Text → Option Bool
  valid_token auth now_unix none = some false
  valid_token auth now_unix (some token) = token_valid mac auth token now_unix

  abbrev pub session_token : Option Text → Option Text
  session_token none = none
  session_token (some cookies) = cookie_value cookies cookie_name

  unfoldable pub request_is_authenticated : Auth → ℕ → Request → Option Bool
  unfolding token_valid cookie_value
  request_is_authenticated auth now_unix req = valid_token auth now_unix (session_token req.cookie)

  abbrev pub is_public : Text → Bool
  is_public path = path == text "/login" || starts_with (text "/assets/") path

  abbrev pub by_session : Bool → Option Bool → Gate
  by_session htmx none = panics
  by_session htmx (some true) = pass false
  by_session htmx (some false) = if htmx then htmx_redirect else login_redirect

  unfoldable pub check_session : Option Auth → ℕ → Request → Gate
  unfolding request_is_authenticated
  check_session none now_unix req = pass false
  check_session (some auth) now_unix req =
      let decided = by_session req.htmx (request_is_authenticated auth now_unix req) in
      if is_public req.path then pass false else decided

  unfoldable pub check_bearer : Option (List ℕ) → Option Text → Gate → Gate
  unfolding token_matches
  check_bearer none presented otherwise = otherwise
  check_bearer (some expected) none otherwise = otherwise
  check_bearer (some expected) (some presented) otherwise =
      if token_matches mac expected presented then pass true else unauthorized

  unfoldable pub require_auth : Option (List ℕ) → Option Auth → ℕ → Request → Gate
  unfolding check_bearer check_session bearer_token
  require_auth api_token auth now_unix req =
      check_bearer api_token (bearer_token req.authorization) (check_session auth now_unix req)

  -- `require_htmx`, on the routes that change state.
  abbrev pub htmx_allows : Gate → Bool → Bool
  htmx_allows (pass bearer) htmx = bearer || htmx
  htmx_allows unauthorized htmx = false
  htmx_allows htmx_redirect htmx = false
  htmx_allows login_redirect htmx = false
  htmx_allows panics htmx = false

  -- The layers of the router in front of an action: host, session, htmx.
  unfoldable pub reaches_action : List Text → Option (List ℕ) → Option Auth → ℕ → Request → Bool
  unfolding host_allowed require_auth
  reaches_action allowed_hosts api_token auth now_unix req =
      host_allowed req.host allowed_hosts
      && htmx_allows (require_auth api_token auth now_unix req) req.htmx
