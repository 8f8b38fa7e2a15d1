-- ===== src/Store/Tests.antt =====
-- A small database, and the theorems on the store at it.
use dockdoe.Prelude.{
  ◌&&◌, ◌==◌, leb, ℕ, ◌≡◌, refl, arith, none, some, Option, List, [], ◌∷◌, map, select, Text, text,
  lookup, pair_eq, text_eq, nat_eq, here, there, i64_max,
}
use dockdoe.Model.{ContainerMetrics, running, HealthState}
use dockdoe.Float.Naturals.{nat_float}
use dockdoe.Store.Metrics.{cpu, ContainerTrend}
use dockdoe.Store.Rows.{RowKey}
use dockdoe.Store.Tables.{Trends, TrendRow, SampleRow}
use dockdoe.Store.Naturals.{nat_engine, nat_extremes}
use dockdoe.Store.Raw.{recent_container_samples}
use dockdoe.Store.Raw.Seeds.{Cycle, insert_cycles, recent_container_samples-unread}
use dockdoe.Store.History.{history_container_raw, history_container}
use dockdoe.Store.History.Points.{IsHistory, ShowsSamples, ShowsTrends, history_container-IsHistory}
use dockdoe.Store.Upsert.Extremes.{
  insert_batches, combined, is_for, joined, column_of, insert_batches-extremes,
}
use dockdoe.Store.Migration.{migrate_trend_layout, long, done, out_of_fuel}
use dockdoe.Store.Migration.Chunks.{grouped_row}
use dockdoe.Store.Migration.Walk.{migrate_trend_layout-groups, migrate_trend_layout-unending}

abbrev container : Text → Option ℕ → ContainerMetrics ℕ
container id cpu_percent = record {
  id = id;
  name = text "web";
  image = text "nginx";
  state = running;
  status = text "Up";
  health = HealthState.none;
  stack = none;
  cpu_percent = cpu_percent;
  mem_used = some 7;
  mem_limit = none;
  net_rx_bps = none;
  net_tx_bps = none;
  disk_read_bps = none;
  disk_write_bps = none;
  ports = [];
}

abbrev fresh : Cycle ℕ
fresh = record { host = text "h"; ts_ms = 2000; containers = container (text "a") none ∷ [] }

abbrev cycles : List (Cycle ℕ)
cycles =
    record { host = text "h"; ts_ms = 1000; containers = container (text "a") (some 5) ∷ [] }
    ∷ fresh
    ∷ []

recent_container_samples-unread_example :
    recent_container_samples (text "h") (text "a") 500 (insert_cycles [] cycles) ≡ none
recent_container_samples-unread_example =
    recent_container_samples-unread 500 cycles fresh (container (text "a") none) (omega arith)
      (omega arith) (there here) here (omega arith) refl

abbrev rollup : Text → ℕ → ℕ → ContainerTrend ℕ
rollup id bucket value = record {
  bucket_start_ms = bucket;
  bucket_secs = 60;
  host = text "h";
  id = id;
  name = text "web";
  stack = none;
  metric = text "cpu";
  min = value;
  max = value;
  median = value;
  samples = 2;
}

abbrev web_row : RowKey
web_row = (text "h", (text "web", 60000))

abbrev batches : List (List (ContainerTrend ℕ))
batches =
    (rollup (text "1") 60000 10 ∷ [])
    ∷ (rollup (text "2") 60000 30 ∷ rollup (text "2") 120000 1 ∷ [])
    ∷ []

insert_batches-extremes_example :
    (column_of (λ c. c.min) cpu (lookup web_row (insert_batches nat_float nat_engine batches []))
      ≡ combined nat_float.min none (
          map
            (λ (t : ContainerTrend ℕ). t.min)
            (select (is_for nat_float web_row cpu) (joined batches))))
    × (column_of (λ c. c.max) cpu (lookup web_row (insert_batches nat_float nat_engine batches []))
        ≡ combined nat_float.max none (
            map
              (λ (t : ContainerTrend ℕ). t.max)
              (select (is_for nat_float web_row cpu) (joined batches))))
insert_batches-extremes_example =
    insert_batches-extremes nat_float nat_engine nat_extremes web_row cpu batches (omega arith)

widest :
    combined nat_float.max none (
      map
        (λ (t : ContainerTrend ℕ). t.max)
        (select (is_for nat_float web_row cpu) (joined batches)))
    ≡ some 30
widest = refl

abbrev first_row : ContainerTrend ℕ
first_row = rollup (text "1") 60000 10

abbrev more_rows : List (ContainerTrend ℕ)
more_rows = rollup (text "2") 60000 30 ∷ rollup (text "2") 7260000 1 ∷ []

migrate_trend_layout-groups_example :
    (table : Trends ℕ) × (migrate_trend_layout nat_float nat_engine 4 (long (first_row ∷ more_rows))
      ≡ done table)
    × ((k : RowKey) → lookup k table ≡ grouped_row nat_float nat_engine k (first_row ∷ more_rows))
migrate_trend_layout-groups_example =
    migrate_trend_layout-groups nat_float nat_engine 3 first_row more_rows (omega arith)
      (omega arith)

migrate_trend_layout-unending_example :
    migrate_trend_layout nat_float nat_engine 50
      (long (first_row ∷ rollup (text "2") i64_max 1 ∷ []))
    ≡ out_of_fuel
migrate_trend_layout-unending_example =
    migrate_trend_layout-unending nat_float nat_engine 50 first_row
      (rollup (text "2") i64_max 1 ∷ []) refl

history_container-IsHistory_example :
    IsHistory
      (ShowsSamples nat_float nat_engine)
      (λ (r : SampleRow ℕ). r.ts_ms)
      1500
      (select
        (λ (r : SampleRow ℕ).
          r.host == text "h" && r.id == text "a" && (leb 0 r.ts_ms && leb r.ts_ms 9000))
        (insert_cycles [] cycles))
      (history_container_raw nat_float nat_engine
        (text "h")
        (text "a")
        0
        9000
        1500
        (insert_cycles [] cycles))
    × IsHistory
        (ShowsTrends nat_float nat_engine)
        (λ (r : RowKey × TrendRow ℕ). r.0.1.1)
        1500
        (select
          (λ (r : RowKey × TrendRow ℕ).
            r.0.0 == text "h" && r.0.1.0 == text "a" && (leb 0 r.0.1.1 && leb r.0.1.1 9000))
          (insert_batches nat_float nat_engine batches []))
        (history_container nat_float nat_engine
          (text "h")
          (text "a")
          0
          9000
          1500
          (insert_batches nat_float nat_engine batches []))
history_container-IsHistory_example =
    history_container-IsHistory nat_float nat_engine (text "h") (text "a") 0 9000 1500
      (insert_cycles [] cycles) (insert_batches nat_float nat_engine batches [])
