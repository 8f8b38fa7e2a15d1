-- ===== src/Collector.antt =====
-- src/collector.rs: the loop that samples one Docker host, as steps over what each tick collects.
-- The clock and `docker.collect()` are inputs; what the loop hands to the notifier and to the
-- persistence task are outputs. The cycle counter is a `u64`, which no run brings to its end.
use dockdoe.Prelude.{
  ℕ, zero, suc, ◌+◌, ◌-◌, ◌*◌, ◌/◌, ◌%◌, min, max, Bool, true, false, Option, none, some, List, [],
  ◌∷◌, ◌++◌, if◌then◌else◌, ◌==◌, nat_eq, u64_max, Text,
}
use dockdoe.Float.{Float}
use dockdoe.Model.{ContainerMetrics, Dashboard}
use dockdoe.Notify.{Tracker, Notification, evaluate}
use dockdoe.Store.Metrics.{ContainerTrend}
use dockdoe.Trend.Bucketer.{Bucketer, new, push}
pub mod Runs
pub mod Persist
mod Tests

-- All durations in seconds.
pub record Settings : Type 0 where
  pub interval : ℕ
  pub raw_retention : ℕ
  pub trend_bucket_secs : ℕ
  pub trend_retention : ℕ
  pub prune_interval : ℕ

-- In milliseconds, at most the largest `u64`.
unfoldable pub duration_ms : ℕ → ℕ
duration_ms secs = min (secs * 1000) u64_max

unfoldable pub prune_cadence : ℕ → ℕ → ℕ
prune_cadence prune_interval interval = max (prune_interval / max interval 1) 1

-- What `persist` gets: samples, closed trend buckets, and the cutoffs of a prune.
pub record Job (F : Type 0) : Type 0 where
  pub ts_ms : ℕ
  pub dashboard : Dashboard F
  pub flushed : List (ContainerTrend F)
  pub prune_cutoffs : Option (ℕ × ℕ)

pub record Collector (F : Type 0) : Type 0 where
  pub bucketer : Bucketer F
  pub notifier : Option Tracker
  pub shared : Option (Dashboard F)
  pub cycle : ℕ
  pub primed : Bool

-- The collected containers with the time behind the collection, or an error.
abbrev pub Tick : Type 0 → Type 0
Tick F = Option (ℕ × List (ContainerMetrics F))

pub record Output (F : Type 0) : Type 0 where
  pub notes : List Notification
  pub job : Job F

unfoldable pub prune_cutoffs_at : Settings → ℕ → ℕ → Option (ℕ × ℕ)
unfolding duration_ms prune_cadence
prune_cutoffs_at s cycle ts_ms =
    if cycle % prune_cadence s.prune_interval s.interval == 0
    then some (ts_ms - duration_ms s.raw_retention, ts_ms - duration_ms s.trend_retention)
    else none

module _ (M : Float) where
  unfoldable pub start : Settings → Text → Option Tracker → Collector M.F
  unfolding new
  start s host notifier = record {
    bucketer = new s.trend_bucket_secs host;
    notifier = notifier;
    shared = none;
    cycle = 0;
    primed = false;
  }

  unfoldable pub observe :
      Option Tracker → ℕ → List (ContainerMetrics M.F) → Option Tracker × List Notification
  unfolding evaluate
  observe none ts_ms containers = (none, [])
  observe (some tracker) ts_ms containers =
      let (tracker', notes) = evaluate tracker ts_ms containers in (some tracker', notes)

  -- A cycle behind the priming one.
  unfoldable pub publish_cycle :
      Settings → ℕ → Collector M.F → ℕ → List (ContainerMetrics M.F) → Collector M.F × Output M.F
  unfolding observe push prune_cutoffs_at
  publish_cycle s cpu_count c ts_ms containers =
      let (notifier, notes) = observe c.notifier ts_ms containers in
      let (bucketer, flushed) = push M c.bucketer ts_ms containers in
      let dashboard : Dashboard M.F = record {
        generated_at_unix_ms = ts_ms;
        cpu_count = cpu_count;
        containers = containers;
      } in
      (
        record {
          bucketer = bucketer;
          notifier = notifier;
          shared = some dashboard;
          cycle = c.cycle + 1;
          primed = true;
        },
        record {
          notes = notes;
          job = record {
            ts_ms = ts_ms;
            dashboard = dashboard;
            flushed = flushed;
            prune_cutoffs = prune_cutoffs_at s c.cycle ts_ms;
          };
        },
      )

  abbrev pub with_output : Collector M.F × Output M.F → Collector M.F × List (Output M.F)
  with_output (c, out) = (c, out ∷ [])

  -- One turn of the loop.
  unfoldable pub turn : Settings → ℕ → Collector M.F → Tick M.F → Collector M.F × List (Output M.F)
  unfolding publish_cycle
  turn s cpu_count c none = (c, [])
  turn s cpu_count c (some (ts_ms, containers)) =
      if c.primed
      then with_output (publish_cycle s cpu_count c ts_ms containers)
      else (record c { primed = true }, [])

  unfoldable pub run :
      Settings → ℕ → Collector M.F → List (Tick M.F) → Collector M.F × List (Output M.F)
  unfolding turn
  run s cpu_count c [] = (c, [])
  run s cpu_count c (t ∷ ts) =
      let (c', out) = turn s cpu_count c t in
      let (last, more) = run s cpu_count c' ts in (last, out ++ more)
