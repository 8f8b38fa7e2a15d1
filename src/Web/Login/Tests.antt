-- ===== src/Web/Login/Tests.antt =====
-- src/web.rs: a login under a small MAC.
use dockdoe.Prelude.{
  ℕ, ◌+◌, ◌%◌, ◌≡◌, refl, arith, Bool, true, false, ◌&&◌, none, some, List, [], ◌∷◌, ◌++◌,
  if◌then◌else◌, ltb, leb, length, all, Text, text, split_once,
}
use dockdoe.Auth.{Auth, session_ttl}
use dockdoe.Auth.Hex.{Bytes}
use dockdoe.Web.Gate.{Request, Gate, by_session, is_public, require_auth}
use dockdoe.Web.Login.{redirect, form, page_for, login_page, login_submit}
use dockdoe.Web.Login.Sessions.{IsHeaderText, with_cookie, login_submit-passes}

abbrev mac : List ℕ → List ℕ → List ℕ
mac key message = length (key ++ message) % 256 ∷ []

mac-Bytes : (key message : List ℕ) → Bytes (mac key message)
mac-Bytes key message = (omega arith, tt)

abbrev visible : Text → Bool
visible s = all (λ c. leb 0x20 c && ltb c 0x7f) s

visible-IsHeaderText : (s : Text) → IsHeaderText s → visible s ≡ true
visible-IsHeaderText [] h = refl
visible-IsHeaderText (c ∷ s) h = ground (arith, visible-IsHeaderText s h.1)

abbrev auth : Auth
auth = record { user = text "u"; password = text "p"; secret = 1 ∷ []; secure_cookie = false }

abbrev index_request : Request
index_request = record {
  path = text "/host/local";
  host = none;
  authorization = none;
  cookie = none;
  htmx = false;
}

-- No cookie for a wrong password.
wrong_password :
    login_submit mac visible (some auth) 1000 (record { username = text "u"; password = text "pp" })
    ≡ form 401 true
unfolding login_submit
wrong_password = refl

login_submit-passes_example :
    (cookie pair attributes : Text) × (login_submit mac visible
        (some auth)
        1000
        (record { username = auth.user; password = auth.password })
      ≡ redirect (text "/") (some cookie))
    × (split_once b';' cookie ≡ some (pair, attributes))
    × (require_auth mac none
          (some auth)
          2000
          (with_cookie mac mac-Bytes visible visible-IsHeaderText pair index_request)
        ≡ (if is_public mac index_request.path
            then Gate.pass false
            else by_session mac index_request.htmx (some (ltb 2000 (1000 + session_ttl)))))
    × (login_page mac
          (some auth)
          2000
          (with_cookie mac mac-Bytes visible visible-IsHeaderText pair index_request)
        ≡ page_for mac (some (ltb 2000 (1000 + session_ttl))))
login_submit-passes_example =
    login_submit-passes mac mac-Bytes visible visible-IsHeaderText none auth 1000 2000 index_request
      (omega arith)
