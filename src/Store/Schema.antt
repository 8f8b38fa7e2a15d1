-- ===== src/Store/Schema.antt =====
-- src/store.rs: `from_connection`, which brings a database of an earlier build to the current schema.
-- A table is the list of its columns' names, `none` where it does not exist; their declarations and the
-- journal mode are left out. The steps run in the order of the source; `none` is an error of SQLite, or a
-- migration without end. Of the rows only the last bucket of the trend table is kept.
use dockdoe.Prelude.{
  Bool, true, false, ◌&&◌, Option, none, some, List, [], ◌∷◌, ◌++◌, map, if◌then◌else◌, all,
  contains, text_eq, Text, text, ℕ, ltb, i64_max,
}
pub mod Upgrade
mod Tests

abbrev pub Names : Type 0
Names = List Text

pub record Schema : Type 0 where
  pub sample : Option Names
  pub trend : Option Names
  pub last_bucket : Option ℕ

abbrev pub sample_columns : Names
sample_columns =
    text "ts_ms"
    ∷ text "host"
    ∷ text "id"
    ∷ text "name"
    ∷ text "cpu_percent"
    ∷ text "mem_used"
    ∷ text "mem_limit"
    ∷ text "net_rx"
    ∷ text "net_tx"
    ∷ text "disk_read"
    ∷ text "disk_write"
    ∷ []

abbrev pub trend_columns : Names
trend_columns =
    text "host"
    ∷ text "name"
    ∷ text "bucket_start_ms"
    ∷ text "bucket_secs"
    ∷ text "id"
    ∷ text "stack"
    ∷ text "samples"
    ∷ text "cpu_min"
    ∷ text "cpu_med"
    ∷ text "cpu_max"
    ∷ text "mem_min"
    ∷ text "mem_med"
    ∷ text "mem_max"
    ∷ text "net_rx_min"
    ∷ text "net_rx_med"
    ∷ text "net_rx_max"
    ∷ text "net_tx_min"
    ∷ text "net_tx_med"
    ∷ text "net_tx_max"
    ∷ text "disk_read_min"
    ∷ text "disk_read_med"
    ∷ text "disk_read_max"
    ∷ text "disk_write_min"
    ∷ text "disk_write_med"
    ∷ text "disk_write_max"
    ∷ []

-- `CREATE TABLE IF NOT EXISTS`.
abbrev pub create_table : Names → Option Names → Names
create_table columns none = columns
create_table columns (some existing) = existing

unfoldable pub add_column_if_missing : Text → Names → Names
add_column_if_missing column columns =
    if contains columns column then columns else columns ++ column ∷ []

unfoldable pub add_columns : Names → Names → Names
unfolding add_column_if_missing
add_columns [] columns = columns
add_columns (c ∷ cs) columns = add_columns cs (add_column_if_missing c columns)

abbrev pub later_columns : Names
later_columns =
    text "host" ∷ text "net_rx" ∷ text "net_tx" ∷ text "disk_read" ∷ text "disk_write" ∷ []

-- The columns that the pivot of the long layout reads, but the host.
abbrev pub long_columns : Names
long_columns =
    text "name"
    ∷ text "bucket_start_ms"
    ∷ text "bucket_secs"
    ∷ text "id"
    ∷ text "stack"
    ∷ text "samples"
    ∷ text "metric"
    ∷ text "min"
    ∷ text "median"
    ∷ text "max"
    ∷ []

-- Whether the pivot succeeds on a long table with that last bucket: an empty table is only asked for
-- its first and last bucket, and the loop does not end at the largest `i64`.
abbrev pub can_pivot : Option ℕ → Names → Bool
can_pivot none columns = contains columns (text "bucket_start_ms")
can_pivot (some last) columns =
    all (contains columns) (text "host" ∷ long_columns) && ltb last i64_max

-- What `migrate_trend_layout` makes of the table's columns.
abbrev pub migrated_columns : Option ℕ → Names → Option Names
migrated_columns last columns =
    if contains columns (text "metric")
    then if can_pivot last columns then some trend_columns else none
    else some columns

abbrev pub index_columns : List (List Text)
index_columns = (text "host" ∷ text "id" ∷ text "ts_ms" ∷ []) ∷ (text "ts_ms" ∷ []) ∷ []

abbrev pub trend_index_columns : List (List Text)
trend_index_columns =
    (text "host" ∷ text "stack" ∷ text "bucket_start_ms" ∷ []) ∷ (text "bucket_start_ms" ∷ []) ∷ []

-- `CREATE INDEX` fails on a column that is not there.
abbrev pub indexable : List (List Text) → Names → Bool
indexable indexes columns = all (λ (i : List Text). all (contains columns) i) indexes

abbrev pub with_indexes : Option ℕ → Names → Option Names → Option Schema
with_indexes last sample none = none
with_indexes last sample (some trend) =
    if indexable index_columns sample && indexable trend_index_columns trend
    then some (record { sample = some sample; trend = some trend; last_bucket = last })
    else none

unfoldable pub from_connection : Schema → Option Schema
unfolding add_columns
from_connection s =
    with_indexes s.last_bucket (add_columns later_columns (create_table sample_columns s.sample)) (
      migrated_columns s.last_bucket
        (add_columns (text "host" ∷ []) (create_table trend_columns s.trend)))
