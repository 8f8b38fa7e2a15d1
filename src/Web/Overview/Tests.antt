-- ===== src/Web/Overview/Tests.antt =====
-- src/web.rs: the overview of a few containers.
use dockdoe.Prelude.{ℕ, ◌≡◌, refl, Option, none, some, [], ◌∷◌, map, Text, text}
use dockdoe.Model.{ContainerMetrics, ContainerState, HealthState, Dashboard}
use dockdoe.Web.Overview.{entry_of, overview_payload, container_section, container_counts}
use dockdoe.Web.Overview.Groups.{rows, IsGrouped}
use dockdoe.Web.Overview.Rows.{overview_payload-rows}

abbrev container : Text → Option Text → ContainerState → ContainerMetrics ℕ
container name stack state = record {
  id = name;
  name = name;
  image = [];
  state = state;
  status = [];
  health = HealthState.none;
  stack = stack;
  cpu_percent = none;
  mem_used = none;
  mem_limit = none;
  net_rx_bps = none;
  net_tx_bps = none;
  disk_read_bps = none;
  disk_write_bps = none;
  ports = [];
}

abbrev few : Dashboard ℕ
few = record {
  generated_at_unix_ms = 1000;
  cpu_count = 4;
  containers =
      container (text "proxy") none ContainerState.running
      ∷ container (text "web") (some (text "shop")) ContainerState.exited
      ∷ container (text "notes") (some (text "apps")) ContainerState.paused
      ∷ container (text "db") (some (text "shop")) ContainerState.running
      ∷ [];
}

few_rows :
    map (λ (c : ContainerMetrics ℕ). c.name) (rows (container_section few.containers))
    ≡ text "notes" ∷ text "db" ∷ text "web" ∷ text "proxy" ∷ []
unfolding container_section
few_rows = refl

few_counts :
    container_counts few.containers
    ≡ record { total = 4; running = 2; exited = 1; other = 1; unhealthy = 0 }
unfolding container_counts
few_counts = refl

overview_payload-rows_example :
    IsGrouped (container_section few.containers)
    × ((overview_payload few).1 ≡ map entry_of (rows (container_section few.containers)))
overview_payload-rows_example = overview_payload-rows few
