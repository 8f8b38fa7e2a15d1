-- ===== src/Store/Upsert.antt =====
-- src/store.rs: writing trend rows: a new primary key is inserted, a known one merged.
-- The arithmetic on columns is that of `f64`; a division by zero is NULL in SQLite. A column of NULL
-- makes the scalar functions NULL.
use dockdoe.Prelude.{
  ℕ, ◌+◌, max, Bool, not, Option, none, some, List, [], ◌∷◌, map, length, select, if◌then◌else◌,
  ltb, ◌==◌, nat_eq, text_eq, pair_eq, Text, lookup, insert,
}
use dockdoe.Float.{Float}
use dockdoe.Store.Metrics.{Metric, metric_eq, ContainerTrend}
use dockdoe.Store.Rows.{Envelope, WideTrend, RowKey, pivot_trends}
use dockdoe.Store.Tables.{to_db, Columns, TrendRow, Trends}
use dockdoe.Store.History.{Engine, bucket_start}
pub mod Keys
pub mod Extremes

abbrev pub coalesce {ℓ} : {A : Type ℓ} → Option A → Option A → Option A
coalesce none b = b
coalesce (some a) b = some a

abbrev pub scalar {ℓ} : {A : Type ℓ} → (A → A → A) → Option A → Option A → Option A
scalar f none b = none
scalar f (some a) none = none
scalar f (some a) (some b) = some (f a b)

abbrev pub key_values : RowKey → RowKey
key_values (host, (name, bucket_start_ms)) = (host, (name, to_db bucket_start_ms))

module _ {F : Type 0} where
  -- The three columns that an envelope is written to.
  abbrev pub envelope_values : Option (Envelope F) → Columns F
  envelope_values none = record { min = none; med = none; max = none }
  envelope_values (some e) = record { min = some e.min; med = some e.median; max = some e.max }

  abbrev pub row_values : WideTrend F → TrendRow F
  row_values row = record {
    bucket_secs = to_db row.bucket_secs;
    id = row.id;
    stack = row.stack;
    samples = row.samples;
    columns = λ m. envelope_values (lookup m row.metrics);
  }

  unfoldable pub into_values : RowKey × WideTrend F → RowKey × TrendRow F
  into_values (key, row) = (key_values key, row_values row)

  -- `DELETE FROM container_trend`: the rows that stay, and the number of those removed.
  abbrev pub trend_aged_out : ℕ → RowKey × TrendRow F → Bool
  trend_aged_out before_ms row = ltb (bucket_start row) (to_db before_ms)

  unfoldable pub prune_trends : ℕ → Trends F → Trends F × ℕ
  prune_trends before_ms rows = (
    select (λ row. not (trend_aged_out before_ms row)) rows,
    length (select (trend_aged_out before_ms) rows),
  )

module _ (M : Float) (E : Engine M.F) where
  abbrev pub weighted_med : M.F → ℕ → M.F → ℕ → Option M.F
  weighted_med med samples other others =
      if samples + others == 0
      then none
      else some (
          M.div (M.add (M.mul med (M.of_u64 samples)) (M.mul other (M.of_u64 others)))
            (M.of_u64 (samples + others)))

  abbrev pub merged_med : Option M.F → ℕ → Option M.F → ℕ → Option M.F
  merged_med none samples excluded others = excluded
  merged_med (some med) samples none others = some med
  merged_med (some med) samples (some other) others = weighted_med med samples other others

  -- A metric's columns under `DO UPDATE SET`, with the row's sample counts on both sides.
  abbrev pub merge_columns : Columns M.F → ℕ → Columns M.F → ℕ → Columns M.F
  merge_columns stored samples excluded others = record {
    min = scalar E.scalar_min (coalesce stored.min excluded.min) (coalesce excluded.min stored.min);
    med = merged_med stored.med samples excluded.med others;
    max = scalar E.scalar_max (coalesce stored.max excluded.max) (coalesce excluded.max stored.max);
  }

  unfoldable pub merge_rows : TrendRow M.F → TrendRow M.F → TrendRow M.F
  merge_rows stored excluded = record {
    bucket_secs = excluded.bucket_secs;
    id = excluded.id;
    stack = coalesce excluded.stack stored.stack;
    samples = stored.samples + excluded.samples;
    columns =
        λ m. merge_columns (stored.columns m) stored.samples (excluded.columns m) excluded.samples;
  }

  abbrev pub upserted : Option (TrendRow M.F) → TrendRow M.F → TrendRow M.F
  upserted none row = row
  upserted (some stored) row = merge_rows stored row

  -- The statement on one row, and on a batch.
  abbrev pub upsert : RowKey → TrendRow M.F → Trends M.F → Trends M.F
  upsert key row table = insert key (upserted (lookup key table) row) table

  unfoldable pub insert_rows : Trends M.F → Trends M.F → Trends M.F
  unfolding merge_rows
  insert_rows [] table = table
  insert_rows ((key, row) ∷ rows) table = insert_rows rows (upsert key row table)

  -- One transaction. The rows come in the order of their keys in the code.
  unfoldable pub insert_container_trends : List (ContainerTrend M.F) → Trends M.F → Trends M.F
  unfolding insert_rows into_values pivot_trends
  insert_container_trends [] table = table
  insert_container_trends (t ∷ ts) table =
      insert_rows (map into_values (pivot_trends M (t ∷ ts))) table
