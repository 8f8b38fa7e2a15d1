-- ===== src/Web/Events.antt =====
-- src/web.rs: the live streams of the pages, as lists of events. What is rendered as HTML or JSON stands
-- in an event as the data that it is rendered from.
use dockdoe.Prelude.{ℕ, Option, none, some, List, [], ◌∷◌, ◌++◌, ◌==◌, text_eq, Text, find_first}
use dockdoe.Float.{Float}
use dockdoe.Model.{ContainerMetrics, Dashboard}
use dockdoe.Store.Tables.{MetricPoint}
use dockdoe.Web.StackPoint.{StackPoint, members_of, stack_point, or_zero}
use dockdoe.Web.Stream.{dashboard_stream}
pub mod Backfill

pub data Event (F : Type 0) : Type 0 where
  header : Dashboard F → Event F
  containers : Dashboard F → Event F
  overview : Dashboard F → Event F
  detail : ContainerMetrics F → Event F
  members : List (ContainerMetrics F) → Event F
  metrics : MetricPoint F → Event F

module _ (M : Float) where
  abbrev pub live_point : ℕ → ContainerMetrics M.F → MetricPoint M.F
  live_point ts_ms c = record {
    ts_ms = ts_ms;
    cpu_percent = or_zero M c.cpu_percent;
    mem_used = c.mem_used;
    net_rx = c.net_rx_bps;
    net_tx = c.net_tx_bps;
    disk_read = c.disk_read_bps;
    disk_write = c.disk_write_bps;
  }

  abbrev pub found_events : ℕ → Option (ContainerMetrics M.F) → List (Event M.F)
  found_events ts_ms none = []
  found_events ts_ms (some c) = detail c ∷ metrics (live_point ts_ms c) ∷ []

  abbrev pub find_container : Text → Dashboard M.F → Option (ContainerMetrics M.F)
  find_container id dash = find_first (λ (c : ContainerMetrics M.F). c.id == id) dash.containers

  unfoldable pub container_events : Text → Dashboard M.F → List (Event M.F)
  container_events id dash =
      header dash ∷ found_events dash.generated_at_unix_ms (find_container id dash)

  unfoldable pub dashboard_events : Dashboard M.F → List (Event M.F)
  dashboard_events dash = header dash ∷ containers dash ∷ overview dash ∷ []

  abbrev pub summed_point : ℕ → StackPoint M.F → MetricPoint M.F
  summed_point ts_ms p = record {
    ts_ms = ts_ms;
    cpu_percent = p.cpu_percent;
    mem_used = some p.mem_used;
    net_rx = p.io.net_rx;
    net_tx = p.io.net_tx;
    disk_read = p.io.disk_read;
    disk_write = p.io.disk_write;
  }

  unfoldable pub stack_events : Text → Dashboard M.F → List (Event M.F)
  unfolding stack_point
  stack_events name dash =
      header dash
      ∷ members (members_of M name dash.containers)
      ∷ metrics (summed_point dash.generated_at_unix_ms (stack_point M name dash.containers))
      ∷ []

  -- `flat_map`, over the snapshots that the stream yields.
  abbrev pub flat_events :
      (Dashboard M.F → List (Event M.F)) → List (Dashboard M.F) → List (Event M.F)
  flat_events events [] = []
  flat_events events (dash ∷ dashes) = events dash ++ flat_events events dashes

  unfoldable pub events_container : Text → List (Option (Dashboard M.F)) → List (Event M.F)
  unfolding container_events dashboard_stream
  events_container id reads = flat_events (container_events id) (dashboard_stream reads)

  unfoldable pub events_dashboard : List (Option (Dashboard M.F)) → List (Event M.F)
  unfolding dashboard_events dashboard_stream
  events_dashboard reads = flat_events dashboard_events (dashboard_stream reads)

  unfoldable pub events_stack : Text → List (Option (Dashboard M.F)) → List (Event M.F)
  unfolding stack_events dashboard_stream
  events_stack name reads = flat_events (stack_events name) (dashboard_stream reads)
