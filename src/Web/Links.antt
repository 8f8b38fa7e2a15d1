-- ===== src/Web/Links.antt =====
-- src/web.rs: where the pills of published ports link to.
use dockdoe.Prelude.{
  ℕ, ◌||◌, Bool, Option, none, some, List, [], ◌∷◌, ◌++◌, if◌then◌else◌, ◌==◌, Text, text, text_eq,
  nat_eq, trim, is_empty, eq_ignore_ascii_case, strip_prefix, split, to_string,
}
mod Tests

pub data PortLinks : Type 0 where
  browser off : PortLinks
  host : Text → PortLinks

-- The first character and what follows it, up to the first of two separators.
unfoldable pub before_either : ℕ → ℕ → Text → Text
before_either a b [] = []
before_either a b (c ∷ s) =
    let rest = before_either a b s in if c == a || c == b then [] else c ∷ rest

abbrev pub first_of : List Text → Option Text
first_of [] = none
first_of (s ∷ ss) = some s

abbrev pub unless_empty : Text → Option Text
unless_empty s = if is_empty s then none else some s

-- `find_map` over the schemes.
abbrev pub without_scheme : List Text → Text → Option Text
without_scheme [] url = none
without_scheme (scheme ∷ schemes) url = elim (strip_prefix scheme url) [
  | some rest ↦ some rest
  | none ↦ without_scheme schemes url
]

abbrev pub host_in : Text → Option Text
unfolding before_either split
host_in rest = elim (strip_prefix (text "[") rest) [
  | some after ↦ first_of (split b']' after)
  | none ↦ unless_empty (before_either b'/' b':' rest)
]

unfoldable pub endpoint_host : Text → Option Text
unfolding host_in
endpoint_host url =
    elim (without_scheme (text "tcp://" ∷ text "http://" ∷ text "https://" ∷ []) url) [
      | none ↦ none
      | some rest ↦ host_in rest
    ]

abbrev pub browser_or : Option Text → PortLinks
browser_or none = browser
browser_or (some h) = host h

-- The trimmed `public_host`, where there is one and it is not empty.
abbrev pub given_host : Option Text → Option Text
unfolding trim
given_host none = none
given_host (some s) = unless_empty (trim s)

unfoldable pub from_config : Option Text → Text → PortLinks
unfolding endpoint_host given_host eq_ignore_ascii_case
from_config public_host docker_url = elim (given_host public_host) [
  | none ↦ browser_or (endpoint_host docker_url)
  | some s ↦
      if eq_ignore_ascii_case s (text "off")
        || (eq_ignore_ascii_case s (text "none") || s == text "-")
      then off
      else host s
]

-- The `href` of `port_link` for a published port.
unfoldable pub port_href : PortLinks → ℕ → Option Text
unfolding to_string
port_href off public = none
port_href (host h) public = some (text "http://" ++ (h ++ (text ":" ++ to_string public)))
port_href browser public = some (text "http://localhost:" ++ to_string public)
