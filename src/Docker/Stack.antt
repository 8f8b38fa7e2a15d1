-- ===== src/Docker/Stack.antt =====
-- src/docker.rs: starting and stopping a compose stack. The engine and the clock are an interface over
-- a state of the world; each request returns the world after it. Durations are in nanoseconds. The
-- exit code of a container is left out, the code only logs it.
use dockdoe.Prelude.{
  ℕ, zero, suc, ◌+◌, ◌-◌, ◌*◌, Bool, true, false, ◌||◌, Option, none, some, List, [], ◌∷◌, ◌++◌,
  if◌then◌else◌, ◌==◌, nat_eq, leb, not, length, Text, text_eq, lookup, insert,
}
use dockdoe.Docker.Members.{
  DepCondition, started, healthy, completed_successfully, Dep, Member, Listed, HostModes,
  stack_members,
}
use dockdoe.Docker.Order.{topo_order}
use dockdoe.Web.Actions.{Action}
use dockdoe.Docker.Stack.Api.{HealthStatus, InspectState, Engine, StackOutcome}
pub mod Api
pub mod Waits
pub mod Passes
pub mod Stops
pub mod Outcome
mod Tests

abbrev pub dep_wait : ℕ
dep_wait = 120 * 1000000000

abbrev pub dep_poll : ℕ
dep_poll = 1000000000

abbrev pub stack_start_timeout : ℕ
stack_start_timeout = 120 * 1000000000

-- More rounds than a wait can take.
abbrev pub wait_rounds : ℕ
wait_rounds = 121

abbrev pub running_of : Option InspectState → Option Bool
running_of none = none
running_of (some s) = elim s.running [ none ↦ some false | some b ↦ some b ]

abbrev pub health_of : Option InspectState → Option HealthStatus
health_of none = none
health_of (some s) = elim s.health [ none ↦ none | some h ↦ h ]

-- Healthy, or without a healthcheck.
abbrev pub is_health_settled : Option HealthStatus → Bool
is_health_settled none = true
is_health_settled (some HealthStatus.healthy) = true
is_health_settled (some HealthStatus.none) = true
is_health_settled (some HealthStatus.empty) = true
is_health_settled (some HealthStatus.starting) = false
is_health_settled (some HealthStatus.unhealthy) = false

-- Exited, or not to be read.
abbrev pub is_completed : Option Bool → Bool
is_completed none = true
is_completed (some b) = not b

abbrev pub is_some_true : Option Bool → Bool
is_some_true none = false
is_some_true (some b) = b

abbrev pub services_to_ids : List Member → List (Text × Text) → List (Text × Text)
services_to_ids [] acc = acc
services_to_ids (m ∷ ms) acc = services_to_ids ms (insert m.service m.id acc)

abbrev pub id_by_service : List Member → List (Text × Text)
id_by_service members = services_to_ids members []

module _ (E : Engine) where
  unfoldable pub health_status : Text → E.World → E.World × Option HealthStatus
  health_status id w = ((E.inspect id w).0, health_of (E.inspect id w).1)

  unfoldable pub run_state : Text → E.World → E.World × Option Bool
  run_state id w = ((E.inspect id w).0, running_of (E.inspect id w).1)

  unfoldable pub is_running : Text → E.World → E.World × Bool
  unfolding run_state
  is_running id w = ((run_state id w).0, is_some_true (run_state id w).1)

  -- The loop of a wait: `poll` asks, and says whether to return; `none` when the rounds run out.
  unfoldable pub wait_until : (E.World → E.World × Bool) → ℕ → ℕ → E.World → Option E.World
  wait_until poll zero since w = none
  wait_until poll (suc fuel) since w =
      let asked = poll w in
      let rest = wait_until poll fuel since (E.sleep dep_poll asked.0) in
      if asked.1
      then some asked.0
      else if leb dep_wait (E.now asked.0 - since)
      then some asked.0
      else rest

  abbrev pub poll_health : Text → E.World → E.World × Bool
  unfolding health_status
  poll_health id w = ((health_status id w).0, is_health_settled (health_status id w).1)

  abbrev pub poll_completed : Text → E.World → E.World × Bool
  unfolding run_state
  poll_completed id w = ((run_state id w).0, is_completed (run_state id w).1)

  unfoldable pub wait_healthy : Text → E.World → Option E.World
  unfolding wait_until poll_health
  wait_healthy id w = wait_until (poll_health id) wait_rounds (E.now w) w

  unfoldable pub wait_completed : Text → E.World → Option E.World
  unfolding wait_until poll_completed
  wait_completed id w = wait_until (poll_completed id) wait_rounds (E.now w) w

  abbrev pub wait_condition : DepCondition → Text → E.World → Option E.World
  unfolding wait_healthy wait_completed
  wait_condition healthy id w = wait_healthy id w
  wait_condition completed_successfully id w = wait_completed id w
  wait_condition started id w = some w

  unfoldable pub wait_dep : List (Text × Text) → Dep → E.World → Option E.World
  unfolding wait_condition
  wait_dep ids d w = elim (lookup d.service ids) [
    | none ↦ some w
    | some id ↦ wait_condition d.condition id w
  ]

  unfoldable pub wait_deps : List (Text × Text) → List Dep → E.World → Option E.World
  unfolding wait_dep
  wait_deps ids [] w = some w
  wait_deps ids (d ∷ ds) w = elim (wait_dep ids d w) [ none ↦ none | some v ↦ wait_deps ids ds v ]

  -- The variables of one pass.
  pub record Pass : Type 0 where
    pub world : E.World
    pub failed : ℕ
    pub progressed : Bool

  abbrev pub counted : Pass → E.World × Bool → Pass
  counted p (w, true) = record { world = w; failed = p.failed; progressed = true }
  counted p (w, false) = record { world = w; failed = p.failed + 1; progressed = p.progressed }

  unfoldable pub start_member : List (Text × Text) → Member → Pass → Option Pass
  unfolding is_running wait_deps
  start_member ids m p =
      let asked = is_running m.id p.world in
      let waited = wait_deps ids m.deps asked.0 in
      if asked.1 then some (record p { world = asked.0 }) else elim waited [
        | none ↦ none
        | some w ↦ some (counted (record p { world = w }) (E.apply m.id Action.start w))
      ]

  unfoldable pub start_pass : List (Text × Text) → List Member → Pass → Option Pass
  unfolding start_member
  start_pass ids [] p = some p
  start_pass ids (m ∷ ms) p = elim (start_member ids m p) [
    | none ↦ none
    | some q ↦ start_pass ids ms q
  ]

  abbrev pub outcome : ℕ → Pass → E.World × StackOutcome
  outcome total p = (p.world, record { total = total; failed = p.failed })

  -- The passes, at most `fuel` of them.
  unfoldable pub start_passes :
      ℕ → List (Text × Text) → ℕ → ℕ → List Member → E.World → Option (E.World × StackOutcome)
  unfolding start_pass
  start_passes zero ids total deadline ordered w = none
  start_passes (suc fuel) ids total deadline ordered w =
      elim (start_pass ids ordered (record { world = w; failed = 0; progressed = false })) [
        | none ↦ none
        | some p ↦
            let again = start_passes fuel ids total deadline ordered in
            let rest = again (if p.progressed then p.world else E.sleep dep_poll p.world) in
            if p.failed == 0 || leb deadline (E.now p.world) then some (outcome total p) else rest
      ]

  unfoldable pub start_in_order : ℕ → List Member → E.World → Option (E.World × StackOutcome)
  unfolding start_passes topo_order
  start_in_order fuel members w = elim (topo_order members) [
    | none ↦ none
    | some ordered ↦
        start_passes fuel (id_by_service members) (length members) (E.now w + stack_start_timeout)
          ordered w
  ]

  abbrev pub count_failed : ℕ → E.World × Bool → E.World × ℕ
  count_failed failed (w, true) = (w, failed)
  count_failed failed (w, false) = (w, failed + 1)

  unfoldable pub stop_all : List Member → E.World × ℕ → E.World × ℕ
  stop_all [] r = r
  stop_all (m ∷ ms) (w, failed) = stop_all ms (count_failed failed (E.apply m.id Action.stop w))

  abbrev pub reverse : List Member → List Member
  reverse [] = []
  reverse (m ∷ ms) = reverse ms ++ m ∷ []

  unfoldable pub stop_in_order : List Member → E.World → Option (E.World × StackOutcome)
  unfolding stop_all topo_order
  stop_in_order members w = elim (topo_order members) [
    | none ↦ none
    | some ordered ↦
        let r = stop_all (reverse ordered) (w, 0) in
        some (r.0, record { total = length members; failed = r.1 })
  ]

  -- The `match` on the action.
  unfoldable pub act : ℕ → List Member → Action → E.World → Option (E.World × StackOutcome)
  unfolding start_in_order stop_in_order
  act fuel members Action.start w = start_in_order fuel members w
  act fuel members Action.stop w = stop_in_order members w
  act fuel members Action.restart w = elim (stop_in_order members w) [
    | none ↦ none
    | some (v, stopped) ↦ elim (start_in_order fuel members v) [
      | none ↦ none
      | some (u, start) ↦ some (u, record stopped { failed = start.failed })
    ]
  ]

  abbrev pub reported : Option (E.World × StackOutcome) → Option (E.World × Option StackOutcome)
  reported none = none
  reported (some (w, out)) = some (w, some out)

  -- `listing` and `modes` are what `stack_members` reads; the inner `none` is its error.
  unfoldable pub stack_action :
      ℕ
      → (Text → Option HostModes)
      → Text
      → Option (List Listed)
      → Action
      → E.World
      → Option (E.World × Option StackOutcome)
  unfolding act stack_members
  stack_action fuel modes project none action w = some (w, none)
  stack_action fuel modes project (some containers) action w =
      reported (act fuel (stack_members modes project containers) action w)
