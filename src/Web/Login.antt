-- ===== src/Web/Login.antt =====
-- src/web.rs: logging in and out. `accepts_header` says whether `HeaderValue` can be parsed from a
-- text. The delay after a failed login is left out.
use dockdoe.Prelude.{ℕ, Bool, true, false, Option, none, some, List, if◌then◌else◌, Text, text}
use dockdoe.Auth.{Auth, credentials_valid, issue_cookie, clear_cookie}
use dockdoe.Web.Gate.{Request, request_is_authenticated}
pub mod Sessions
mod Tests

-- A redirect with the cookie that it sets, the form with its status and whether it shows an error, or
-- a panic in the token check.
pub data Response : Type 0 where
  redirect : (location : Text) (set_cookie : Option Text) → Response
  form : (status : ℕ) (error : Bool) → Response
  panics : Response

-- The bytes of the two fields.
pub record LoginForm : Type 0 where
  pub username : List ℕ
  pub password : List ℕ

abbrev pub if_accepted : (Text → Bool) → Text → Option Text
if_accepted accepts_header value = if accepts_header value then some value else none

unfoldable pub logout : (Text → Bool) → Option Auth → Response
unfolding clear_cookie
logout accepts_header none = redirect (text "/login") none
logout accepts_header (some auth) =
    redirect (text "/login") (if_accepted accepts_header (clear_cookie auth))

module _ (mac : List ℕ → List ℕ → List ℕ) where
  abbrev pub page_for : Option Bool → Response
  page_for none = panics
  page_for (some true) = redirect (text "/") none
  page_for (some false) = form 200 false

  unfoldable pub login_page : Option Auth → ℕ → Request → Response
  unfolding request_is_authenticated
  login_page none now_unix req = redirect (text "/") none
  login_page (some auth) now_unix req = page_for (request_is_authenticated mac auth now_unix req)

  unfoldable pub login_submit : (Text → Bool) → Option Auth → ℕ → LoginForm → Response
  unfolding credentials_valid issue_cookie
  login_submit accepts_header none now_unix f = redirect (text "/") none
  login_submit accepts_header (some auth) now_unix f =
      if credentials_valid mac auth f.username f.password
      then redirect (text "/") (if_accepted accepts_header (issue_cookie mac auth now_unix))
      else form 401 true
