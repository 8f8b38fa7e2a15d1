-- ===== src/Config/Hosts.antt =====
-- src/config.rs: which lists of hosts `validate_hosts` lets pass.
use dockdoe.Prelude.{
  ℕ, ◌≡◌, ◌≢◌, ◌⊎◌, ◌↔◌, inl, inr, refl, arith, Bool, true, false, not, ◌&&◌, ◌||◌, Option, none,
  some, List, [], ◌∷◌, if◌then◌else◌, nat_eq, Text, text_eq, contains, All, is_empty, trim,
  Bool-cases,
}
use dockdoe.Config.{
  ConfigError, HostConfig, or_else, is_some, is_blank, is_zero, is_http_url, is_valid_slug,
  endpoint_error, host_error, hosts_error, validate_hosts, endpoint_url,
}

-- Exactly one endpoint, and one that can be used.
unfoldable pub HasEndpoint : HostConfig → Type 0
HasEndpoint h =
    ((d : Text) × (h.docker ≡ some d)
      × (h.dockdoe ≡ none)
      × (trim d ≢ [])
      × (h.token ≡ none)
      × (h.node_host ≡ none))
    ⊎ ((n : Text) × (h.docker ≡ none) × (h.dockdoe ≡ some n) × (is_http_url (trim n) ≡ true))

unfoldable pub IsValid : HostConfig → Type 0
unfolding HasEndpoint
IsValid h =
    (is_valid_slug h.name ≡ true)
    × HasEndpoint h
    × ((t : Text) → h.token ≡ some t → trim t ≢ [])
    × (h.interval_secs ≢ some 0)

-- No name is one of the names seen, or stands twice.
unfoldable pub AreFresh : List Text → List HostConfig → Type 0
AreFresh seen [] = Unit
AreFresh seen (h ∷ hs) = (contains seen h.name ≡ false) × AreFresh (h.name ∷ seen) hs

or_else-none : {A : Type 0} (a b : Option A) → or_else a b ≡ none → (a ≡ none) × (b ≡ none)
or_else-none none b h = (refl, h)
or_else-none (some a) b h = cc

if_error :
    (b : Bool) (e : ConfigError) (o : Option ConfigError)
    → (if b then some e else o) ≡ none
    → (b ≡ false) × (o ≡ none)
if_error true e o h = cc
if_error false e o h = (refl, h)

is_empty-false : (s : Text) → is_empty s ≡ false → s ≢ []
is_empty-false [] h = cc
is_empty-false (c ∷ s) h = λ e. cc

pub is_blank-false : (o : Option Text) → is_blank o ≡ false → (t : Text) → o ≡ some t → trim t ≢ []
is_blank-false none h t e = cc
is_blank-false (some u) h t e = is_empty-false (trim t) (ground arith)

is_zero-false : (o : Option ℕ) → is_zero o ≡ false → o ≢ some 0
is_zero-false none h = λ e. cc
is_zero-false (some n) h = λ e. ground arith

endpoint_sound :
    (name : Text) (docker dockdoe token node_host : Option Text)
    → endpoint_error name docker dockdoe ≡ none
    → (not (is_some dockdoe) && (is_some token || is_some node_host)) ≡ false
    → ((d : Text) × (docker ≡ some d)
        × (dockdoe ≡ none)
        × (trim d ≢ [])
        × (token ≡ none)
        × (node_host ≡ none))
      ⊎ ((n : Text) × (docker ≡ none) × (dockdoe ≡ some n) × (is_http_url (trim n) ≡ true))
unfolding endpoint_error
endpoint_sound name (some d) none none none e f =
    inl
      (d, refl, refl, is_empty-false (trim d) (if_error (is_empty (trim d)) _ none e).0, refl, refl)
endpoint_sound name (some d) none (some t) n e f = cc
endpoint_sound name (some d) none none (some t) e f = cc
endpoint_sound name none (some n) token node_host e f = elim (Bool-cases (is_http_url (trim n))) [
  | inl g ↦ inr (n, refl, refl, g)
  | inr g ↦ absurd (ground arith)
]
endpoint_sound name (some _) (some _) token node_host e f = cc
endpoint_sound name none none token node_host e f = cc

host_error_sound :
    (seen : List Text) (h : HostConfig)
    → host_error seen h ≡ none
    → IsValid h × (contains seen h.name ≡ false)
unfolding host_error IsValid HasEndpoint
host_error_sound seen h e =
    let (slug, e1) = if_error (not (is_valid_slug h.name)) _ _ e in
    let (fresh, e2) = if_error (contains seen h.name) _ _ e1 in
    let (endpoint, e3) = or_else-none (endpoint_error h.name h.docker h.dockdoe) _ e2 in
    let (nodes, e4) =
      if_error (not (is_some h.dockdoe) && (is_some h.token || is_some h.node_host)) _ _ e3 in
    let (token, e5) = if_error (is_blank h.token) _ _ e4 in
    let (interval, _) = if_error (is_zero h.interval_secs) _ _ e5 in
    (
      (
        ground arith,
        endpoint_sound h.name h.docker h.dockdoe h.token h.node_host endpoint nodes,
        is_blank-false h.token token,
        is_zero-false h.interval_secs interval,
      ),
      fresh,
    )

hosts_error_sound :
    (seen : List Text) (hs : List HostConfig)
    → hosts_error seen hs ≡ none
    → All IsValid hs × AreFresh seen hs
unfolding hosts_error AreFresh
hosts_error_sound seen [] e = (tt, tt)
hosts_error_sound seen (h ∷ hs) e =
    let (e1, e2) = or_else-none (host_error seen h) _ e in
    let (valid, fresh) = host_error_sound seen h e1 in
    let (valids, freshs) = hosts_error_sound (h.name ∷ seen) hs e2 in
    ((valid, valids), (fresh, freshs))

-- The other way.
is_empty-nonempty : (s : Text) → s ≢ [] → is_empty s ≡ false
is_empty-nonempty [] n = absurd (n refl)
is_empty-nonempty (c ∷ s) n = refl

is_blank-none : (o : Option Text) → ((t : Text) → o ≡ some t → trim t ≢ []) → is_blank o ≡ false
is_blank-none none h = refl
is_blank-none (some t) h = is_empty-nonempty (trim t) (h t refl)

is_zero-none : (o : Option ℕ) → o ≢ some 0 → is_zero o ≡ false
is_zero-none none h = refl
is_zero-none (some n) h = ground arith

host_error_complete :
    (seen : List Text) (h : HostConfig)
    → IsValid h
    → contains seen h.name ≡ false
    → host_error seen h ≡ none
unfolding host_error IsValid HasEndpoint endpoint_error
host_error_complete seen h (slug, inl (d, docker, dockdoe, blank, token, node), tokens, interval)
      fresh =
    rw
      (
        slug,
        fresh,
        docker,
        dockdoe,
        is_empty-nonempty (trim d) blank,
        token,
        node,
        is_zero-none h.interval_secs interval,
      )
      refl
host_error_complete seen h (slug, inr (n, docker, dockdoe, url), tokens, interval) fresh =
    rw
      (
        slug,
        fresh,
        docker,
        dockdoe,
        url,
        is_blank-none h.token tokens,
        is_zero-none h.interval_secs interval,
      )
      refl

hosts_error_complete :
    (seen : List Text) (hs : List HostConfig)
    → All IsValid hs
    → AreFresh seen hs
    → hosts_error seen hs ≡ none
unfolding hosts_error AreFresh
hosts_error_complete seen [] v f = refl
hosts_error_complete seen (h ∷ hs) (v, vs) (f, fs) =
    rw (host_error_complete seen h v f) (hosts_error_complete (h.name ∷ seen) hs vs fs)

-- A list of hosts passes exactly if it is not empty, every host in it is well-formed (a name of slug
-- characters, exactly one endpoint that can be used, the options of a node only on a node, no blank
-- token, no interval of zero seconds), and no two hosts share a name.
pub validate_hosts_iff :
    (hosts : List HostConfig)
    → (validate_hosts hosts ≡ none) ↔ ((hosts ≢ []) × All IsValid hosts × AreFresh [] hosts)
unfolding validate_hosts
validate_hosts_iff [] = (λ e. cc, λ (n, _, _). absurd (n refl))
validate_hosts_iff (h ∷ hs) = (
  λ e. let (v, f) = hosts_error_sound [] (h ∷ hs) e in (λ n. cc, v, f),
  λ (_, v, f). hosts_error_complete [] (h ∷ hs) v f,
)

-- On a host that passed, the `expect` of `endpoint_url` does not panic.
pub endpoint_url-IsValid : (h : HostConfig) → IsValid h → (url : Text) × (endpoint_url h ≡ some url)
unfolding IsValid HasEndpoint endpoint_url
endpoint_url-IsValid h (_, inl (d, docker, _, _, _, _), _, _) = (d, rw docker refl)
endpoint_url-IsValid h (_, inr (n, docker, dockdoe, _), _, _) = (n, rw (docker, dockdoe) refl)
