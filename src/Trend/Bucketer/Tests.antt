-- ===== src/Trend/Bucketer/Tests.antt =====
-- Rollups of small buckets, and the theorems at inputs that meet their hypotheses.
use dockdoe.Prelude.{
  ℕ, ◌≡◌, refl, Option, none, some, List, [], ◌∷◌, arith, text, text_eq, lookup, pair_eq,
}
use dockdoe.Model.{ContainerMetrics, ContainerState, HealthState}
use dockdoe.Float.Naturals.{nat_float, nat_laws}
use dockdoe.Store.Metrics.{cpu, metric_eq}
use dockdoe.Trend.Stats.{Stats, stats_from}
use dockdoe.Trend.Stats.Median.{IsSummary, stats_from-IsSummary}
use dockdoe.Trend.Bucketer.{Bucketer, new, push, push_value}
use dockdoe.Trend.Bucketer.Samples.{values_of}
use dockdoe.Trend.Bucketer.Rollup.{fill, rows_of, Cycle}
use dockdoe.Trend.Bucketer.Flush.{Rollup, flush-Rollup}

abbrev container : Option ℕ → ContainerMetrics ℕ
container percent = record {
  id = text "x";
  name = text "c-x";
  image = text "img";
  state = ContainerState.running;
  status = text "Up";
  health = HealthState.none;
  stack = some (text "stack");
  cpu_percent = percent;
  mem_used = some 100;
  mem_limit = some 200;
  net_rx_bps = none;
  net_tx_bps = none;
  disk_read_bps = none;
  disk_write_bps = none;
  ports = [];
}

abbrev opened : Bucketer ℕ
opened = record {
  bucket_ms = 60000;
  host = text "local";
  current_start = some 60000;
  containers = [];
}

abbrev cycles : List (Cycle nat_float)
cycles =
    (60000, container (some 2) ∷ [])
    ∷ (90000, container none ∷ [])
    ∷ (95000, container (some 8) ∷ [])
    ∷ []

opened_by_first_push : (push nat_float (new 60 (text "local")) 60010 []).0 ≡ opened
unfolding push new
opened_by_first_push = refl

flushed_cpu_row :
    rows_of nat_float (text "x", cpu) (push nat_float (fill nat_float opened cycles) 125000 []).1
    ≡ record {
      bucket_start_ms = 60000;
      bucket_secs = 60;
      host = text "local";
      id = text "x";
      name = text "c-x";
      stack = some (text "stack");
      metric = text "cpu";
      min = 2;
      max = 8;
      median = 5;
      samples = 2;
    }
      ∷ []
unfolding fill push push_value stats_from
flushed_cpu_row = refl

spike :
    stats_from nat_float (1 ∷ 1 ∷ 1000 ∷ 1 ∷ 1 ∷ [])
    ≡ some (record { min = 1; max = 1000; median = 1; count = 5 })
unfolding stats_from
spike = refl

stats_from-IsSummary_example :
    (s : Stats ℕ) × (stats_from nat_float (3 ∷ 1 ∷ 2 ∷ []) ≡ some s)
    × IsSummary nat_float (3 ∷ 1 ∷ 2 ∷ []) s
stats_from-IsSummary_example =
    stats_from-IsSummary nat_float nat_laws 3 (1 ∷ 2 ∷ []) (tt, (tt, (tt, tt)))

flush-Rollup_example :
    Rollup nat_float opened 60000
      (text "x", cpu)
      (2 ∷ 8 ∷ [])
      (rows_of nat_float
        (text "x", cpu)
        (push nat_float (fill nat_float opened cycles) 125000 (container (some 5) ∷ [])).1)
    × (values_of nat_float (
          lookup
            (text "x", cpu)
            (push nat_float
              (fill nat_float opened cycles)
              125000
              (container (some 5) ∷ [])).0.containers)
        ≡ 5 ∷ [])
flush-Rollup_example =
    flush-Rollup nat_float opened 60000 cycles 125000 (container (some 5) ∷ []) (text "x") cpu refl
      tt (omega arith) (omega arith)
