-- ===== src/Store/Tables.antt =====
-- src/store.rs: the rows of the tables, and the points that the queries answer with.
-- A table is the list of its rows; a column that may be NULL is an option. An `INTEGER` column holds an
-- `i64`, of which the program writes only values from 0 on. A `REAL` column holds what is written: NaN,
-- which SQLite stores as NULL, is left out.
use dockdoe.Prelude.{ℕ, ◌≤◌, min, ◌≡◌, arith, i64_max, Option, List, Text}
use dockdoe.Store.Metrics.{Metric}
use dockdoe.Store.Rows.{RowKey}

-- The conversions at the boundary: `i64::try_from` saturates, and the way back is exact from 0 on.
abbrev pub to_db : ℕ → ℕ
to_db v = min v i64_max

pub to_db-exact : (v : ℕ) → v ≤ i64_max → to_db v ≡ v
to_db-exact v h = omega arith

module _ (F : Type 0) where
  pub record SampleRow : Type 0 where
    pub ts_ms : ℕ
    pub host : Text
    pub id : Text
    pub name : Text
    pub cpu_percent : Option F
    pub mem_used : Option ℕ
    pub mem_limit : Option ℕ
    pub net_rx : Option F
    pub net_tx : Option F
    pub disk_read : Option F
    pub disk_write : Option F

  -- A metric's three columns of the wide table, and of a history point.
  pub record Columns : Type 0 where
    pub min : Option F
    pub med : Option F
    pub max : Option F

  -- A row of the wide table without its primary key.
  pub record TrendRow : Type 0 where
    pub bucket_secs : ℕ
    pub id : Text
    pub stack : Option Text
    pub samples : ℕ
    pub columns : Metric → Columns

  pub record MetricPoint : Type 0 where
    pub ts_ms : ℕ
    pub cpu_percent : F
    pub mem_used : Option ℕ
    pub net_rx : Option F
    pub net_tx : Option F
    pub disk_read : Option F
    pub disk_write : Option F

  pub record HistoryPoint : Type 0 where
    pub ts_ms : ℕ
    pub columns : Metric → Columns

  -- The wide table, by its primary key.
  abbrev pub Trends : Type 0
  Trends = List (RowKey × TrendRow)

  pub record Db : Type 0 where
    pub samples : List SampleRow
    pub trends : Trends
    pub meta : List (Text × List ℕ)
