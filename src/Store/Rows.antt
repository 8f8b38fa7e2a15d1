-- ===== src/Store/Rows.antt =====
-- src/store.rs: the bucketer's rollups as wide rows, one for each container and bucket.
-- The map is ordered in the code; the model keeps the order of insertion.
use dockdoe.Prelude.{
  ℕ, ◌+◌, ◌%◌, ◌^◌, max, Option, none, some, List, [], ◌∷◌, if◌then◌else◌, ◌==◌, nat_eq, text_eq,
  pair_eq, Text, lookup, insert, find_first,
}
use dockdoe.Float.{Float}
use dockdoe.Store.Metrics.{Metric, metric_eq, all_metrics, as_str, ContainerTrend}
pub mod Samples
mod Tests

pub record Envelope (F : Type 0) : Type 0 where
  pub min : F
  pub median : F
  pub max : F
  pub samples : ℕ

-- A slot of the array is an entry of the list.
pub record WideTrend (F : Type 0) : Type 0 where
  pub bucket_secs : ℕ
  pub id : Text
  pub stack : Option Text
  pub samples : ℕ
  pub metrics : List (Metric × Envelope F)

abbrev pub RowKey : Type 0
RowKey = Text × (Text × ℕ)

abbrev pub first_some : Option Text → Option Text → Option Text
first_some none o = o
first_some (some s) o = some s

module _ (M : Float) where
  -- The sum of the samples is a `u32`, which wraps in a release build.
  unfoldable pub merge : Envelope M.F → Envelope M.F → Envelope M.F
  merge a b =
      let samples = (a.samples + b.samples) % 2 ^ 32 in
      let weight = λ (e : Envelope M.F). M.mul e.median (M.of_u64 e.samples) in
      record {
        min = M.min a.min b.min;
        median =
            if samples == 0
            then a.median
            else M.div (M.add (weight a) (weight b)) (M.of_u64 samples);
        max = M.max a.max b.max;
        samples = samples;
      }

  abbrev pub envelope_of : ContainerTrend M.F → Envelope M.F
  envelope_of t = record { min = t.min; median = t.median; max = t.max; samples = t.samples }

  abbrev pub merged_with : Envelope M.F → Option (Envelope M.F) → Envelope M.F
  merged_with e none = e
  merged_with e (some existing) = merge existing e

  abbrev pub empty_row : WideTrend M.F
  empty_row = record { bucket_secs = 0; id = []; stack = none; samples = 0; metrics = [] }

  abbrev pub row_or : Option (WideTrend M.F) → WideTrend M.F
  row_or none = empty_row
  row_or (some row) = row

  unfoldable pub add_trend : Metric → ContainerTrend M.F → WideTrend M.F → WideTrend M.F
  unfolding merge
  add_trend m t row =
      let merged = merged_with (envelope_of t) (lookup m row.metrics) in
      record {
        bucket_secs = t.bucket_secs;
        id = t.id;
        stack = first_some row.stack t.stack;
        samples = max row.samples merged.samples;
        metrics = insert m merged row.metrics;
      }

  abbrev pub metric_of : ContainerTrend M.F → Option Metric
  metric_of t = find_first (λ (m : Metric). as_str m == t.metric) all_metrics

  abbrev pub key_of : ContainerTrend M.F → RowKey
  key_of t = (t.host, (t.name, t.bucket_start_ms))

  abbrev pub pivot_known :
      Option Metric
      → ContainerTrend M.F
      → List (RowKey × WideTrend M.F)
      → List (RowKey × WideTrend M.F)
  pivot_known none t rows = rows
  pivot_known (some m) t rows =
      insert (key_of t) (add_trend m t (row_or (lookup (key_of t) rows))) rows

  unfoldable pub pivot_onto :
      List (RowKey × WideTrend M.F) → List (ContainerTrend M.F) → List (RowKey × WideTrend M.F)
  unfolding add_trend
  pivot_onto rows [] = rows
  pivot_onto rows (t ∷ ts) = pivot_onto (pivot_known (metric_of t) t rows) ts

  unfoldable pub pivot_trends : List (ContainerTrend M.F) → List (RowKey × WideTrend M.F)
  unfolding pivot_onto
  pivot_trends trends = pivot_onto [] trends
