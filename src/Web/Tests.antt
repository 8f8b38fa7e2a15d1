-- ===== src/Web/Tests.antt =====
-- The gate, the windows and the actions on small requests.
use dockdoe.Prelude.{
  ℕ, nat_eq, ◌+◌, ◌*◌, ◌%◌, ◌≡◌, ◌⊎◌, refl, true, false, ◌||◌, none, some, List, [], ◌∷◌, ◌++◌,
  text,
}
use dockdoe.Auth.{Auth, encode_hex}
use dockdoe.Web.Gate.{
  Request, normalize_allowed_hosts, host_allowed, host_without_port, reaches_action,
}
use dockdoe.Web.Gate.Access.{HasToken, HasSession, reaches_action_sound}
use dockdoe.Web.History.{HistoryQuery, HistoryWindow, group_for_window}
use dockdoe.Web.Actions.{
  is_error, Action, Upstream, buttons, docker, node, answered, forbidden, applied, parse,
  host_action, refused_by, host_action-latch,
}
use dockdoe.Web.Ansi.{escape, strip_ansi}

abbrev mac : List ℕ → List ℕ → List ℕ
mac key message = (contains_sum key * 7 + contains_sum message) % 256 ∷ []
  where
    contains_sum : List ℕ → ℕ
    contains_sum [] = 0
    contains_sum (b ∷ bs) = b + contains_sum bs

strips : strip_ansi (escape ∷ text "[31mred" ++ escape ∷ text "[0m!") ≡ text "red!"
unfolding strip_ansi
strips = refl

groups : group_for_window 86400000 ≡ 60000
unfolding group_for_window
groups = refl

abbrev last_hour : HistoryQuery
last_hour = record { range = some (text "1h"); since_ms = none; until_ms = none }

abbrev hour_window : HistoryWindow
hour_window = record { since = 6400000; until = 10000000; group_ms = 60000; raw = true }

abbrev refuse_restart : Action → Upstream
refuse_restart Action.restart = docker forbidden
refuse_restart Action.start = docker applied
refuse_restart Action.stop = node (answered 204)

host_action-latch_example :
    ((host_action false (text "restart") refuse_restart).0
      ≡ (false || refused_by (parse (text "restart")) refuse_restart))
    × (((host_action false (text "restart") refuse_restart).1
          ≡ buttons (host_action false (text "restart") refuse_restart).0)
        ⊎ (is_error (host_action false (text "restart") refuse_restart).1 ≡ true))
host_action-latch_example = host_action-latch false (text "restart") refuse_restart

ports_and_brackets : host_without_port (text "[::1]:8080") ≡ text "::1"
unfolding host_without_port
ports_and_brackets = refl

-- An IPv6 address without brackets loses its last group.
bare_ipv6 : normalize_allowed_hosts (text "fd00::5" ∷ []) ≡ text "fd00:" ∷ []
unfolding normalize_allowed_hosts
bare_ipv6 = refl

abbrev auth : Auth
auth = record { user = text "u"; password = text "p"; secret = 3 ∷ []; secure_cookie = false }

abbrev request : Request
request = record {
  path = text "/host/a/api/container/x/stop";
  host = some (text "localhost:8080");
  authorization = none;
  cookie = some (text "a=b; dockdoe_session=5000." ++ encode_hex (mac (3 ∷ []) (text "5000")));
  htmx = true;
}

reaches_action_sound_example :
    (host_allowed request.host (text "x" ∷ []) ≡ true)
    × (HasToken mac none request ⊎ (HasSession mac auth 4999 request × (request.htmx ≡ true)))
unfolding reaches_action encode_hex
reaches_action_sound_example =
    reaches_action_sound mac (text "x" ∷ []) none auth 4999 request refl refl
