-- ===== src/Docker/Collect/Tests.antt =====
-- src/docker.rs: two cycles of `collect` for one container.
use dockdoe.Prelude.{ℕ, ◌*◌, ◌≡◌, refl, Option, none, some, List, [], ◌∷◌, map, text}
use dockdoe.Model.{ContainerMetrics}
use dockdoe.Float.Naturals.{nat_float}
use dockdoe.Docker.Counters.{StatsSample}
use dockdoe.Docker.Summary.{SummaryState, ContainerSummary}
use dockdoe.Docker.Collect.{Cycle, collect}
use dockdoe.Docker.Collect.Cycles.{collect-history, own_metrics, own_run, run, fresh}

abbrev db : ContainerSummary
db = record {
  id = some (text "db");
  names = some (text "/db" ∷ []);
  image = some (text "postgres");
  state = some SummaryState.running;
  status = some (text "Up 2 hours");
  labels = none;
  ports = none;
}

abbrev sample : ℕ → ℕ → ℕ → StatsSample
sample usage system bytes = record {
  cpu_stats = some (record {
    cpu_usage = some (record { total_usage = some usage; percpu_usage = none });
    system_cpu_usage = some system;
    online_cpus = some 2;
  });
  memory_stats = none;
  networks = some (record { rx_bytes = some bytes; tx_bytes = none } ∷ []);
  blkio_stats = none;
}

abbrev cycle_at : ℕ → StatsSample → Cycle
cycle_at seconds s = record {
  listing = some (db ∷ []);
  fetch = λ _. some s;
  now = seconds * 1000000000;
}

abbrev first_cycle : Cycle
first_cycle = cycle_at 10 (sample 100 1000 500)

-- A listing that fails.
abbrev failed_cycle : Cycle
failed_cycle = record { listing = none; fetch = λ _. none; now = 12000000000 }

abbrev second_cycle : Cycle
second_cycle = cycle_at 15 (sample 300 1200 1500)

abbrev rates : Option (List (ContainerMetrics ℕ)) → Option (List (Option ℕ × Option ℕ))
rates none = none
rates (some ms) = some (map (λ (m : ContainerMetrics ℕ). (m.cpu_percent, m.net_rx_bps)) ms)

-- Both CPUs' worth of one busy core for the whole time, and 1000 bytes in five seconds.
second_rates :
    rates (collect nat_float second_cycle (run nat_float (first_cycle ∷ failed_cycle ∷ []) fresh)).1
    ≡ some ((some 200, some 200) ∷ [])
unfolding collect run
second_rates = refl

collect-history_example :
    (collect nat_float second_cycle (run nat_float (first_cycle ∷ failed_cycle ∷ []) fresh)).1
    ≡ own_metrics nat_float second_cycle
        (λ id. own_run (first_cycle ∷ failed_cycle ∷ []) id (none, none))
collect-history_example =
    collect-history nat_float (first_cycle ∷ failed_cycle ∷ []) second_cycle ((refl, tt), (tt, tt))
      (refl, tt)
