-- ===== src/Docker/Stack/Tests.antt =====
-- src/docker.rs: stack actions on an engine that keeps a log.
use dockdoe.Prelude.{
  ℕ, suc, ◌+◌, ◌≤◌, ◌<◌, ◌≡◌, ◌⊎◌, refl, sym, subst, not, split, trim, arith, Bool, true, false,
  Bool-cases, inl, inr, Option, none, some, List, [], ◌∷◌, if◌then◌else◌, ◌==◌, text_eq, Text, text,
  lookup, In, here, there, eq_of_==,
}
use dockdoe.Web.Actions.{Action}
use dockdoe.Docker.Members.{DepCondition, Listed, HostModes, parse_depends_on}
use dockdoe.Docker.Stack.Api.{Engine, StackOutcome}
use dockdoe.Docker.Stack.{
  is_running, run_state, is_some_true, running_of, stack_start_timeout, stack_action,
  wait_condition,
}
use dockdoe.Docker.Stack.Waits.{
  ClockLaws, IsKept, HasWaited, wait_condition-HasWaited, after-IsKept,
}
use dockdoe.Docker.Stack.Passes.{History}
use dockdoe.Docker.Stack.Stops.{StopHistory}
use dockdoe.Docker.Stack.Outcome.{IsAnswer, stack_action-IsAnswer}

-- The acknowledged starts (`true`) and stops, the last one first.
record LogWorld : Type 0 where
  clock : ℕ
  log : List (Text × Bool)

-- A start of `bad` fails.
abbrev log_apply : Text → Action → LogWorld → LogWorld × Bool
log_apply id Action.start w = (
  record { clock = suc w.clock; log = if id == text "bad" then w.log else (id, true) ∷ w.log },
  not (id == text "bad"),
)
log_apply id Action.stop w = (record { clock = suc w.clock; log = (id, false) ∷ w.log }, true)
log_apply id Action.restart w = (record { clock = suc w.clock; log = w.log }, true)

abbrev log_engine : Engine
log_engine = record {
  World = LogWorld;
  now = λ w. w.clock;
  sleep = λ d w. record { clock = w.clock + d; log = w.log };
  inspect = λ id w. (
    record { clock = suc w.clock; log = w.log },
    some (record { running = lookup id w.log; health = none }),
  );
  apply = log_apply;
}

apply-clock : (id : Text) (a : Action) (w : LogWorld) → w.clock < (log_apply id a w).0.clock
apply-clock id Action.start w = ground arith
apply-clock id Action.stop w = ground arith
apply-clock id Action.restart w = ground arith

log_clock : ClockLaws log_engine
log_clock = record {
  inspect_forward = λ id w. ground arith;
  apply_forward = apply-clock;
  sleep_forward = λ d w. ground arith;
}

In-lookup :
    (id : Text) (log : List (Text × Bool))
    → is_some_true (running_of (some (record { running = lookup id log; health = none }))) ≡ true
    → In (id, true) log
In-lookup id [] h = cc
In-lookup id ((j, b) ∷ log) h = by_key (Bool-cases (j == id)) h (In-lookup id log)
  where
    by_key :
        (j == id) ≡ true ⊎ (j == id) ≡ false
        → is_some_true (
            running_of (
              some (record { running = if j == id then some b else lookup id log; health = none })))
          ≡ true
        → (is_some_true (running_of (some (record { running = lookup id log; health = none })))
              ≡ true
            → In (id, true) log)
        → In (id, true) ((j, b) ∷ log)
    by_key (inl e) h rest =
        let same : (j, b) ≡ (id, true) = ground (arith, eq_of_== j id e) in
        subst (λ p. In (id, true) (p ∷ log)) (sym same) here
    by_key (inr e) h rest = there (rest (rw e at h))

log-IsKept : (p : Text × Bool) → IsKept log_engine (λ w. In p w.log)
log-IsKept p = record {
  inspect_keeps = λ id w h. h;
  apply_keeps = by_action;
  sleep_keeps = λ d w h. h;
}
  where
    by_action : (id : Text) (a : Action) (w : LogWorld) → In p w.log → In p (log_apply id a w).0.log
    by_action id Action.start w h = elim (Bool-cases (id == text "bad")) [
      | inl e ↦ rw e h
      | inr e ↦ rw e (there h)
    ]
    by_action id Action.stop w h = there h
    by_action id Action.restart w h = h

log_starts : History log_engine (λ id w. In (id, true) w.log)
unfolding is_running run_state
log_starts = record {
  found = λ id w h. In-lookup id w.log h;
  acknowledged = λ id w h. elim (Bool-cases (id == text "bad")) [ inl e ↦ cc | inr e ↦ rw e here ];
  for_good = λ id. log-IsKept (id, true);
}

log_stops : StopHistory log_engine (λ id w. In (id, false) w.log)
log_stops = record { acknowledged = λ id w h. here; for_good = λ id. log-IsKept (id, false) }

abbrev member : Text → Text → Text → Listed
member id service depends_on = record {
  id = some id;
  labels = some (
      (text "com.docker.compose.project", text "shop")
      ∷ (text "com.docker.compose.service", service)
      ∷ (text "com.docker.compose.depends_on", depends_on)
      ∷ []);
}

abbrev shop : List Listed
shop =
    member (text "w1") (text "web") (text "db:service_healthy:false")
    ∷ member (text "d1") (text "db") []
    ∷ []

abbrev idle : LogWorld
idle = record { clock = 0; log = [] }

abbrev no_modes : Text → Option HostModes
no_modes id = none

-- The database is started first, and stopped last.
shop_started :
    stack_action log_engine 1 no_modes (text "shop") (some shop) Action.start idle
    ≡ some (
      record { clock = 5; log = (text "w1", true) ∷ (text "d1", true) ∷ [] },
      some (record { total = 2; failed = 0 }),
    )
unfolding stack_action parse_depends_on split trim
shop_started = refl

shop_stopped :
    stack_action log_engine 1 no_modes (text "shop") (some shop) Action.stop idle
    ≡ some (
      record { clock = 2; log = (text "d1", false) ∷ (text "w1", false) ∷ [] },
      some (record { total = 2; failed = 0 }),
    )
unfolding stack_action parse_depends_on split trim
shop_stopped = refl

stack_action-IsAnswer_example :
    (r : LogWorld × Option StackOutcome) × (stack_action log_engine
        (suc stack_start_timeout)
        no_modes
        (text "shop")
        (some shop)
        Action.restart
        idle
      ≡ some r)
    × IsAnswer log_engine log_clock
        (λ id w. In (id, true) w.log)
        log_starts
        (λ id w. In (id, false) w.log)
        log_stops
        no_modes
        (text "shop")
        (some shop)
        Action.restart
        idle
        r
stack_action-IsAnswer_example =
    stack_action-IsAnswer log_engine log_clock (λ id w. In (id, true) w.log) log_starts
      (λ id w. In (id, false) w.log) log_stops stack_start_timeout no_modes (text "shop")
      (some shop) Action.restart idle (ground arith)

wait_condition-HasWaited_example :
    (v : LogWorld) × (wait_condition log_engine DepCondition.healthy (text "d1") idle ≡ some v)
    × (0 ≤ v.clock)
    × HasWaited log_engine DepCondition.healthy (text "d1") idle v
wait_condition-HasWaited_example =
    wait_condition-HasWaited log_engine log_clock (λ w. 0 ≤ w.clock)
      (after-IsKept log_engine log_clock 0) DepCondition.healthy (text "d1") idle (ground arith)
