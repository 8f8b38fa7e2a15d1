-- ===== src/Store/History.antt =====
-- src/store.rs: the queries behind the charts, over the tables as lists.
-- What SQLite computes over a column's values, and what `f64` rounds, are parameters; that aggregates
-- leave NULL out and answer NULL for no value at all is written out. `ORDER BY` has no ties here.
use dockdoe.Prelude.{
  ℕ, ◌*◌, ◌/◌, max, Bool, ◌&&◌, Option, none, some, List, [], ◌∷◌, map, select, leb, ◌==◌, text_eq,
  nat_eq, option_eq, Text, find_first,
}
use dockdoe.Float.{Float}
use dockdoe.Store.Metrics.{Metric, cpu, mem, net_rx, net_tx, disk_read, disk_write}
use dockdoe.Store.Rows.{RowKey}
use dockdoe.Store.Tables.{to_db, SampleRow, Columns, TrendRow, MetricPoint, HistoryPoint, Trends}
use dockdoe.Store.Groups.{grouped}
pub mod Points

-- The aggregate functions of SQL on the values of a column, its scalar functions and arithmetic, and
-- `m.round().max(0.0) as u64`.
pub record Engine (F : Type 0) : Type 0 where
  pub sum_of : List F → F
  pub avg_of : List F → F
  pub min_of : List F → F
  pub max_of : List F → F
  pub avg_of_int : List ℕ → F
  pub min_of_int : List ℕ → ℕ
  pub max_of_int : List ℕ → ℕ
  pub max_of_text : List Text → Text
  pub scalar_min : F → F → F
  pub scalar_max : F → F → F
  pub rounded : F → ℕ

-- The values of a column that are not NULL.
abbrev pub known {ℓ} : {A : Type ℓ} → List (Option A) → List A
known [] = []
known (none ∷ os) = known os
known (some a ∷ os) = a ∷ known os

module _ {ℓ κ} {A : Type ℓ} {B : Type κ} where
  abbrev pub over_known : (List A → B) → List A → Option B
  over_known f [] = none
  over_known f (a ∷ more) = some (f (a ∷ more))

  abbrev pub aggregate : (List A → B) → List (Option A) → Option B
  aggregate f column = over_known f (known column)

module _ (M : Float) (E : Engine M.F) where
  abbrev pub real_columns : List (Option M.F) → Columns M.F
  real_columns column = record {
    min = aggregate E.min_of column;
    med = aggregate E.avg_of column;
    max = aggregate E.max_of column;
  }

  -- Integers are read as `f64`.
  abbrev pub int_columns : List (Option ℕ) → Columns M.F
  int_columns column = record {
    min = aggregate (λ ns. M.of_u64 (E.min_of_int ns)) column;
    med = aggregate E.avg_of_int column;
    max = aggregate (λ ns. M.of_u64 (E.max_of_int ns)) column;
  }

  abbrev pub raw_columns : List (SampleRow M.F) → Metric → Columns M.F
  raw_columns rows cpu = real_columns (map (λ (r : SampleRow M.F). r.cpu_percent) rows)
  raw_columns rows mem = int_columns (map (λ (r : SampleRow M.F). r.mem_used) rows)
  raw_columns rows net_rx = real_columns (map (λ (r : SampleRow M.F). r.net_rx) rows)
  raw_columns rows net_tx = real_columns (map (λ (r : SampleRow M.F). r.net_tx) rows)
  raw_columns rows disk_read = real_columns (map (λ (r : SampleRow M.F). r.disk_read) rows)
  raw_columns rows disk_write = real_columns (map (λ (r : SampleRow M.F). r.disk_write) rows)

  -- The envelope over wide rows: the extremes of the extremes, and the mean of the medians.
  abbrev pub envelope_columns : List (Metric → Columns M.F) → Metric → Columns M.F
  envelope_columns rows m = record {
    min = aggregate E.min_of (map (λ (r : Metric → Columns M.F). (r m).min) rows);
    med = aggregate E.avg_of (map (λ (r : Metric → Columns M.F). (r m).med) rows);
    max = aggregate E.max_of (map (λ (r : Metric → Columns M.F). (r m).max) rows);
  }

  abbrev pub sum_columns : List (Metric → Columns M.F) → Metric → Columns M.F
  sum_columns rows m = record {
    min = aggregate E.sum_of (map (λ (r : Metric → Columns M.F). (r m).min) rows);
    med = aggregate E.sum_of (map (λ (r : Metric → Columns M.F). (r m).med) rows);
    max = aggregate E.sum_of (map (λ (r : Metric → Columns M.F). (r m).max) rows);
  }

-- `to_db(group_ms.max(1))`.
abbrev pub group_width : ℕ → ℕ
group_width group_ms = to_db (max group_ms 1)

-- The start of the window that a time lies in.
abbrev pub bucket_of : ℕ → ℕ → ℕ
bucket_of width t = t / width * width

module _ {F R : Type 0} where
  abbrev pub history_point : (List R → Metric → Columns F) → ℕ × List R → HistoryPoint F
  history_point columns_of (bucket, rows) = record { ts_ms = bucket; columns = columns_of rows }

  -- `GROUP BY (t / width) * width`, a point for each group.
  abbrev pub downsample :
      (List R → Metric → Columns F) → (R → ℕ) → ℕ → List R → List (HistoryPoint F)
  downsample columns_of time width rows =
      map (history_point columns_of) (grouped (λ r. bucket_of width (time r)) rows)

abbrev pub in_window : ℕ → ℕ → ℕ → Bool
in_window since_ms until_ms t = leb (to_db since_ms) t && leb t (to_db until_ms)

module _ {F : Type 0} where
  abbrev pub raw_rows : Text → Text → ℕ → ℕ → List (SampleRow F) → List (SampleRow F)
  raw_rows host id since_ms until_ms rows =
      select (λ r. r.host == host && r.id == id && in_window since_ms until_ms r.ts_ms) rows

  abbrev pub bucket_start : RowKey × TrendRow F → ℕ
  bucket_start (key, row) = key.1.1

  abbrev pub row_columns : RowKey × TrendRow F → Metric → Columns F
  row_columns (key, row) = row.columns

  abbrev pub name_rows : Text → Text → ℕ → ℕ → Trends F → Trends F
  name_rows host name since_ms until_ms rows =
      select (λ r. r.0.0 == host && r.0.1.0 == name && in_window since_ms until_ms (bucket_start r))
        rows

  abbrev pub stack_rows : Text → Text → ℕ → ℕ → Trends F → Trends F
  stack_rows host stack since_ms until_ms rows =
      select
        (λ r.
          r.0.0 == host && r.1.stack == some stack && in_window since_ms until_ms (bucket_start r))
        rows

  abbrev pub name_of : Option (RowKey × TrendRow F) → Option Text
  name_of none = none
  name_of (some (key, row)) = some key.1.0

  -- The query has `LIMIT 1` and no order: which of several rows answers is up to SQLite.
  unfoldable pub container_name : Text → Text → Trends F → Option Text
  container_name host id rows =
      name_of (find_first (λ (r : RowKey × TrendRow F). r.0.0 == host && r.1.id == id) rows)

module _ (M : Float) (E : Engine M.F) where
  unfoldable pub history_container_raw :
      Text → Text → ℕ → ℕ → ℕ → List (SampleRow M.F) → List (HistoryPoint M.F)
  history_container_raw host id since_ms until_ms group_ms rows =
      downsample (raw_columns M E) (λ r. r.ts_ms) (group_width group_ms)
        (raw_rows host id since_ms until_ms rows)

  unfoldable pub history_container : Text → Text → ℕ → ℕ → ℕ → Trends M.F → List (HistoryPoint M.F)
  history_container host name since_ms until_ms group_ms rows =
      downsample (λ group. envelope_columns M E (map row_columns group)) bucket_start
        (group_width group_ms) (name_rows host name since_ms until_ms rows)

  abbrev pub per_bucket : Trends M.F → List (ℕ × Trends M.F)
  per_bucket rows = grouped bucket_start rows

  abbrev pub summed : ℕ × Trends M.F → Metric → Columns M.F
  summed (b, members) = sum_columns M E (map row_columns members)

  -- The members are summed in each bucket first.
  unfoldable pub history_stack : Text → Text → ℕ → ℕ → ℕ → Trends M.F → List (HistoryPoint M.F)
  history_stack host stack since_ms until_ms group_ms rows =
      downsample (λ group. envelope_columns M E (map summed group)) (λ (b : ℕ × Trends M.F). b.0)
        (group_width group_ms) (per_bucket (stack_rows host stack since_ms until_ms rows))

  abbrev pub or_zero : Option M.F → M.F
  or_zero none = M.zero
  or_zero (some v) = v

  abbrev pub trend_point : ℕ × Trends M.F → MetricPoint M.F
  trend_point (b, members) =
      let sums = summed (b, members) in
      record {
        ts_ms = b;
        cpu_percent = or_zero (sums cpu).med;
        mem_used = some (E.rounded (or_zero (sums mem).med));
        net_rx = (sums net_rx).med;
        net_tx = (sums net_tx).med;
        disk_read = (sums disk_read).med;
        disk_write = (sums disk_write).med;
      }

  abbrev pub recent_rows : Text → Text → ℕ → Trends M.F → Trends M.F
  recent_rows host stack since_ms rows =
      select
        (λ r. r.0.0 == host && r.1.stack == some stack && leb (to_db since_ms) (bucket_start r))
        rows

  unfoldable pub recent_stack_trends : Text → Text → ℕ → Trends M.F → List (MetricPoint M.F)
  recent_stack_trends host stack since_ms rows =
      map trend_point (per_bucket (recent_rows host stack since_ms rows))
