-- ===== src/Web/Actions.antt =====
-- src/web.rs: the handlers of container and stack actions, and the read-only latch of a host.
-- What Docker or the node answers to the action is an input. The handlers share the latch with the
-- federation loop, which overwrites it with that of each snapshot of a node, and with the terminals; its
-- value before a call is an input as well.
use dockdoe.Prelude.{
  ℕ, ◌≡◌, ◌⊎◌, inl, inr, refl, Bool-cases, Bool, true, false, ◌&&◌, ◌||◌, Option, none, some,
  if◌then◌else◌, leb, ltb, ◌==◌, nat_eq, Text, text, text_eq, arith,
}

pub data Action : Type 0 where
  start stop restart : Action

-- `Action::parse` of src/docker.rs.
unfoldable pub parse : Text → Option Action
parse s =
    if s == text "start"
    then some start
    else if s == text "stop"
    then some stop
    else if s == text "restart"
    then some restart
    else none

pub data Reply : Type 0 where
  applied forbidden failed : Reply

pub data NodeReply : Type 0 where
  unreachable : NodeReply
  answered : (status : ℕ) → NodeReply

pub data Upstream : Type 0 where
  docker : Reply → Upstream
  node : NodeReply → Upstream

-- The buttons come back enabled or disabled.
pub data Response : Type 0 where
  not_found bad_request bad_gateway : Response
  buttons : (read_only : Bool) → Response

-- The new value of the latch, and the response.
unfoldable pub after_node : Bool → NodeReply → Bool × Response
after_node read_only unreachable = (read_only, bad_gateway)
after_node read_only (answered status) =
    if leb 200 status && ltb status 300
    then (read_only, buttons read_only)
    else if status == 401 || status == 403
    then (true, buttons true)
    else (read_only, bad_gateway)

unfoldable pub after_docker : Bool → Reply → Bool × Response
after_docker read_only applied = (read_only, buttons read_only)
after_docker read_only forbidden = (true, buttons true)
after_docker read_only failed = (read_only, bad_gateway)

abbrev pub after_upstream : Bool → Upstream → Bool × Response
unfolding after_docker after_node
after_upstream read_only (docker reply) = after_docker read_only reply
after_upstream read_only (node reply) = after_node read_only reply

abbrev pub if_parsed : Bool → Option Action → (Action → Upstream) → Bool × Response
if_parsed read_only none call = (read_only, bad_request)
if_parsed read_only (some action) call = after_upstream read_only (call action)

-- `container_action` and `stack_action` on a host that is configured; `call` applies the action.
unfoldable pub host_action : Bool → Text → (Action → Upstream) → Bool × Response
unfolding parse after_docker after_node
host_action read_only action call = if_parsed read_only (parse action) call

-- The latches of the hosts by name.
unfoldable pub action_on : Option Bool → Text → (Action → Upstream) → Option Bool × Response
unfolding host_action
action_on none action call = (none, not_found)
action_on (some read_only) action call =
    let (latch, response) = host_action read_only action call in (some latch, response)

-- Whether the upstream refused for lack of rights.
abbrev pub refuses : Upstream → Bool
refuses (docker forbidden) = true
refuses (docker applied) = false
refuses (docker failed) = false
refuses (node unreachable) = false
refuses (node (answered status)) = status == 401 || status == 403

abbrev pub refused_by : Option Action → (Action → Upstream) → Bool
refused_by none call = false
refused_by (some action) call = refuses (call action)

abbrev pub is_error : Response → Bool
is_error (buttons _) = false
is_error not_found = true
is_error bad_request = true
is_error bad_gateway = true

-- The latch behind an action, and the buttons that show it or an error.
abbrev pub Latches : Bool → Bool → Bool × Response → Type 0
Latches read_only refused (latch, response) =
    (latch ≡ (read_only || refused)) × ((response ≡ buttons latch) ⊎ (is_error response ≡ true))

after_node-latch :
    (read_only : Bool) (status : ℕ)
    → Latches read_only (status == 401 || status == 403) (after_node read_only (answered status))
unfolding after_node
after_node-latch read_only status = elim (Bool-cases (leb 200 status && ltb status 300)) [
  | inl e ↦
      let no_refusal : (status == 401 || status == 403) ≡ false = ground arith in
      rw (e, no_refusal) (ground arith, inl refl)
  | inr e ↦ elim (Bool-cases (status == 401 || status == 403)) [
    | inl f ↦ rw (e, f) (ground arith, inl refl)
    | inr f ↦ rw (e, f) (ground arith, inr refl)
  ]
]

after_upstream-latch :
    (read_only : Bool) (u : Upstream) → Latches read_only (refuses u) (after_upstream read_only u)
unfolding after_docker after_node
after_upstream-latch read_only (docker applied) = (ground arith, inl refl)
after_upstream-latch read_only (docker forbidden) = (ground arith, inl refl)
after_upstream-latch read_only (docker failed) = (ground arith, inr refl)
after_upstream-latch read_only (node unreachable) = (ground arith, inr refl)
after_upstream-latch read_only (node (answered status)) = after_node-latch read_only status

-- One call of an action's handler leaves the latch of the host set if it was set before or the upstream
-- refused the action, and unset otherwise; and it answers with an error, or with buttons that are
-- disabled exactly if the latch is then set.
pub host_action-latch :
    (read_only : Bool) (action : Text) (call : Action → Upstream)
    → ((host_action read_only action call).0 ≡ (read_only || refused_by (parse action) call))
      × (((host_action read_only action call).1 ≡ buttons (host_action read_only action call).0)
          ⊎ (is_error (host_action read_only action call).1 ≡ true))
unfolding host_action
host_action-latch read_only action call = by_parsed (parse action)
  where
    by_parsed :
        (parsed : Option Action)
        → Latches read_only (refused_by parsed call) (if_parsed read_only parsed call)
    by_parsed none = (ground arith, inr refl)
    by_parsed (some a) = after_upstream-latch read_only (call a)
