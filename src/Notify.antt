-- ===== src/Notify.antt =====
-- src/notify.rs: the incubation state machine that decides which container changes are reported.
-- `Tracker.evaluate` is modelled whole; sending the notifications over HTTP is not.
use dockdoe.Prelude.{
  ℕ, ◌-◌, Bool, true, false, Option, none, some, List, [], ◌∷◌, ◌++◌, ◌&&◌, if◌then◌else◌, leb,
  Text, text, text_eq, lookup, insert, retain, contains,
}
use dockdoe.Model.{ContainerState, HealthState, ContainerMetrics}
pub mod Timeline
pub mod Alerts
pub mod Snapshots
mod Tests

pub data Status : Type 0 where
  up unhealthy down : Status

abbrev pub status_eq : Status → Status → Bool
status_eq up up = true
status_eq unhealthy unhealthy = true
status_eq down down = true
status_eq _ _ = false

unfoldable pub status_by : ContainerState → HealthState → Status
status_by ContainerState.running HealthState.unhealthy = unhealthy
status_by ContainerState.running _ = up
status_by _ _ = down

pub record Notification : Type 0 where
  pub kind : Text
  pub body : Text

pub record Tracked : Type 0 where
  pub notified : Status
  pub pending : Option (Status × ℕ)

pub record Tracker : Type 0 where
  pub host : Text
  pub delay_ms : ℕ
  pub states : List (Text × Tracked)

-- The target already waited for, with the time it was first seen; else the wait starts now.
abbrev pub since_of : Status → ℕ → Option (Status × ℕ) → ℕ
since_of cur ts_ms none = ts_ms
since_of cur ts_ms (some (p, since)) = if status_eq p cur then since else ts_ms

abbrev pub pending_of : Status → ℕ → Option (Status × ℕ) → Option (Status × ℕ)
pending_of cur ts_ms none = some (cur, ts_ms)
pending_of cur ts_ms (some (p, since)) =
    if status_eq p cur then some (p, since) else some (cur, ts_ms)

-- The `Entry::Occupied` branch: the new entry, and whether the change is due.
unfoldable pub follow : ℕ → ℕ → Status → Tracked → Tracked × Bool
follow delay_ms ts_ms cur t =
    if status_eq cur t.notified
    then (record t { pending = none }, false)
    else let since = since_of cur ts_ms t.pending in
      let waiting = record t { pending = pending_of cur ts_ms t.pending } in
      if leb delay_ms (ts_ms - since)
      then (record { notified = cur; pending = none }, true)
      else (waiting, false)

-- The match on `Entry`: a first sighting adopts the status silently.
unfoldable pub advance : ℕ → ℕ → Status → Option Tracked → Tracked × Bool
unfolding follow
advance delay_ms ts_ms cur none = (record { notified = cur; pending = none }, false)
advance delay_ms ts_ms cur (some t) = follow delay_ms ts_ms cur t

module _ {F : Type 0} where
  unfoldable pub status_of : ContainerMetrics F → Status
  unfolding status_by
  status_of c = status_by c.state c.health

  abbrev pub who : ContainerMetrics F → Text → Text
  who c host = elim c.stack [
    | some stack ↦
        text "Container '"
        ++ (c.name ++ (text "' (stack " ++ (stack ++ (text ") on host '" ++ (host ++ text "'")))))
    | none ↦ text "Container '" ++ (c.name ++ (text "' on host '" ++ (host ++ text "'")))
  ]

  unfoldable pub notification_for : ContainerMetrics F → Status → Text → Notification
  notification_for c down host = record {
    kind = text "failure";
    body = who c host ++ (text " is down — " ++ c.status);
  }
  notification_for c unhealthy host = record {
    kind = text "warning";
    body = who c host ++ (text " is unhealthy — " ++ c.status);
  }
  notification_for c up host = record {
    kind = text "success";
    body = who c host ++ (text " recovered — " ++ c.status);
  }

  -- One round of the loop of `evaluate`: the map of states, and the notifications due so far.
  unfoldable pub visit :
      Tracker
      → ℕ
      → ContainerMetrics F
      → List (Text × Tracked) × List Notification
      → List (Text × Tracked) × List Notification
  unfolding advance
  visit tr ts_ms c (states, out) =
      let (t, due) = advance tr.delay_ms ts_ms (status_of c) (lookup c.id states) in
      (
        insert c.id t states,
        if due then out ++ notification_for c (status_of c) tr.host ∷ [] else out,
      )

  unfoldable pub visit_all :
      Tracker
      → ℕ
      → List (ContainerMetrics F)
      → List (Text × Tracked) × List Notification
      → List (Text × Tracked) × List Notification
  visit_all tr ts_ms [] acc = acc
  visit_all tr ts_ms (c ∷ cs) acc = visit_all tr ts_ms cs (visit tr ts_ms c acc)

  abbrev pub ids : List (ContainerMetrics F) → List Text
  ids [] = []
  ids (c ∷ cs) = c.id ∷ ids cs

  -- `seen` holds the ids of the whole snapshot when `retain` runs.
  unfoldable pub evaluate : Tracker → ℕ → List (ContainerMetrics F) → Tracker × List Notification
  unfolding visit_all visit
  evaluate tr ts_ms containers =
      let (states, out) = visit_all tr ts_ms containers (tr.states, []) in
      (record tr { states = retain (λ id. contains (ids containers) id) states }, out)
