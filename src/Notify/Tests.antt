-- ===== src/Notify/Tests.antt =====
-- The tracker on small snapshots, and the theorems at inputs that meet their hypotheses.
use dockdoe.Prelude.{
  ℕ, ◌-◌, ◌≤◌, ◌≡◌, ◌≢◌, refl, none, some, [], ◌∷◌, arith, Text, text, text_eq, lookup,
}
use dockdoe.Model.{ContainerMetrics, ContainerState, HealthState}
use dockdoe.Notify.{
  unhealthy, up, down, Tracked, Tracker, advance, status_of, evaluate, notification_for,
}
use dockdoe.Notify.Timeline.{HeldSince, entry_after, watch}
use dockdoe.Notify.Alerts.{alert_incubated, change_alerted_once}
use dockdoe.Notify.Snapshots.{evaluate-entries, evaluate-notes}

abbrev container : Text → ContainerState → HealthState → ContainerMetrics ℕ
container id state health = record {
  id = id;
  name = id;
  image = text "img";
  state = state;
  status = text "status";
  health = health;
  stack = none;
  cpu_percent = none;
  mem_used = none;
  mem_limit = none;
  net_rx_bps = none;
  net_tx_bps = none;
  disk_read_bps = none;
  disk_write_bps = none;
  ports = [];
}

abbrev up_a : ContainerMetrics ℕ
up_a = container (text "a") ContainerState.running HealthState.none

abbrev down_a : ContainerMetrics ℕ
down_a = container (text "a") ContainerState.exited HealthState.none

abbrev unhealthy_b : ContainerMetrics ℕ
unhealthy_b = container (text "b") ContainerState.running HealthState.unhealthy

abbrev tracker : Tracker
tracker = record { host = text "h1"; delay_ms = 30; states = [] }

abbrev seen_up : Tracker
seen_up = record {
  host = text "h1";
  delay_ms = 0;
  states = (text "a", record { notified = up; pending = none }) ∷ [];
}

first_sighting_is_silent : (evaluate tracker 1000 (down_a ∷ unhealthy_b ∷ [])).1 ≡ []
unfolding evaluate status_of
first_sighting_is_silent = refl

down_is_reported :
    (evaluate seen_up 5 (down_a ∷ [])).1 ≡ notification_for down_a down (text "h1") ∷ []
unfolding evaluate status_of
down_is_reported = refl

flap_then_down :
    (watch 30
      (record { notified = up; pending = none })
      ((1, down) ∷ (2, up) ∷ (40, up) ∷ (50, down) ∷ []))
    ≡ (record { notified = up; pending = some (down, 50) }, 0)
unfolding watch
flap_then_down = refl

alert_incubated_example :
    (t : Tracked) × (entry_after 30 ((1, down) ∷ (0, up) ∷ []) ≡ some t)
    × (down ≢ t.notified)
    × ((since : ℕ) × HeldSince down since ((31, down) ∷ (1, down) ∷ (0, up) ∷ [])
        × (30 ≤ 31 - since))
unfolding entry_after
alert_incubated_example = alert_incubated 30 31 down ((1, down) ∷ (0, up) ∷ []) refl

change_alerted_once_example :
    ((watch 30
        (record { notified = up; pending = some (unhealthy, 0) })
        ((1, down) ∷ (20, down) ∷ (31, down) ∷ [])).0.notified
      ≡ down)
    × ((watch 30
          (record { notified = up; pending = some (unhealthy, 0) })
          ((1, down) ∷ (20, down) ∷ (31, down) ∷ [])).1
        ≡ 1)
change_alerted_once_example =
    change_alerted_once 30 1 31 down (record { notified = up; pending = some (unhealthy, 0) })
      ((20, down) ∷ []) (ground arith) (λ e. cc) (omega arith) (refl, tt)

evaluate-entries_example :
    lookup (text "a") (evaluate seen_up 5 (down_a ∷ unhealthy_b ∷ [])).0.states
    ≡ some (record { notified = down; pending = none })
unfolding advance status_of
evaluate-entries_example =
    evaluate-entries seen_up 5 (down_a ∷ unhealthy_b ∷ []) (text "a") (refl, (refl, tt))

evaluate-notes_example :
    (evaluate seen_up 5 (down_a ∷ unhealthy_b ∷ [])).1
    ≡ notification_for down_a down (text "h1") ∷ []
unfolding advance status_of
evaluate-notes_example = evaluate-notes seen_up 5 (down_a ∷ unhealthy_b ∷ []) (refl, (refl, tt))
