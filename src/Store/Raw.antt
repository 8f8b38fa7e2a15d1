-- ===== src/Store/Raw.antt =====
-- src/store.rs: the table of raw samples: writing a cycle, retention, and the points that seed a chart.
-- The failures of SQLite itself are left out; a row that the mapper cannot read is an error, `none`.
use dockdoe.Prelude.{
  ℕ, Option, none, some, Bool, not, ◌&&◌, List, [], ◌∷◌, ◌++◌, map, length, select, ltb, leb, ◌==◌,
  text_eq, Text, sort_by,
}
use dockdoe.Model.{ContainerMetrics}
use dockdoe.Store.Tables.{to_db, SampleRow, MetricPoint}
pub mod Seeds

abbrev pub to_db_opt : Option ℕ → Option ℕ
to_db_opt none = none
to_db_opt (some v) = some (to_db v)

module _ {F : Type 0} where
  unfoldable pub sample_row : Text → ℕ → ContainerMetrics F → SampleRow F
  sample_row host ts_ms c = record {
    ts_ms = to_db ts_ms;
    host = host;
    id = c.id;
    name = c.name;
    cpu_percent = c.cpu_percent;
    mem_used = to_db_opt c.mem_used;
    mem_limit = to_db_opt c.mem_limit;
    net_rx = c.net_rx_bps;
    net_tx = c.net_tx_bps;
    disk_read = c.disk_read_bps;
    disk_write = c.disk_write_bps;
  }

  -- One transaction: all of the rows or, where SQLite fails, none.
  unfoldable pub insert_samples :
      Text → ℕ → List (ContainerMetrics F) → List (SampleRow F) → List (SampleRow F)
  unfolding sample_row
  insert_samples host ts_ms containers rows = rows ++ map (sample_row host ts_ms) containers

  abbrev pub aged_out : ℕ → SampleRow F → Bool
  aged_out before_ms row = ltb row.ts_ms (to_db before_ms)

  -- The rows that stay, and the number of those removed.
  unfoldable pub prune_raw : ℕ → List (SampleRow F) → List (SampleRow F) × ℕ
  prune_raw before_ms rows =
      (select (λ row. not (aged_out before_ms row)) rows, length (select (aged_out before_ms) rows))

  abbrev pub seeds : Text → Text → ℕ → SampleRow F → Bool
  seeds host id since_ms row = row.host == host && row.id == id && leb (to_db since_ms) row.ts_ms

  abbrev pub later : SampleRow F → SampleRow F → Bool
  later a b = ltb b.ts_ms a.ts_ms

  abbrev pub point_at : SampleRow F → F → MetricPoint F
  point_at row cpu_percent = record {
    ts_ms = row.ts_ms;
    cpu_percent = cpu_percent;
    mem_used = row.mem_used;
    net_rx = row.net_rx;
    net_tx = row.net_tx;
    disk_read = row.disk_read;
    disk_write = row.disk_write;
  }

  abbrev pub point_of : SampleRow F → Option F → Option (MetricPoint F)
  point_of row none = none
  point_of row (some cpu_percent) = some (point_at row cpu_percent)

  -- The CPU column is read as an `f64`, which refuses NULL.
  unfoldable pub row_to_point : SampleRow F → Option (MetricPoint F)
  row_to_point row = point_of row row.cpu_percent

  -- `collect` into a `Result`: the first error is the whole answer.
  abbrev pub cons_opt :
      Option (MetricPoint F) → Option (List (MetricPoint F)) → Option (List (MetricPoint F))
  cons_opt (some p) (some ps) = some (p ∷ ps)
  cons_opt none _ = none
  cons_opt (some p) none = none

  unfoldable pub collect_points : List (SampleRow F) → Option (List (MetricPoint F))
  unfolding row_to_point
  collect_points [] = some []
  collect_points (row ∷ rows) = cons_opt (row_to_point row) (collect_points rows)

  unfoldable pub recent_container_samples :
      Text → Text → ℕ → List (SampleRow F) → Option (List (MetricPoint F))
  unfolding collect_points
  recent_container_samples host id since_ms rows =
      collect_points (sort_by later (select (seeds host id since_ms) rows))
