-- ===== src/Store/Migration.antt =====
-- src/store.rs: `migrate_trend_layout`, from the long trend table to the wide one, an hour at a time.
-- The loop runs on fuel. The transaction is one: where a statement fails, the long table stays.
use dockdoe.Prelude.{
  ℕ, true, false, zero, suc, ◌+◌, min, max, Bool, not, ◌&&◌, Option, none, some, List, [], ◌∷◌, map,
  select, contains, if◌then◌else◌, ltb, leb, ◌==◌, nat_eq, text_eq, pair_eq, i64_max, Text, lookup,
}
use dockdoe.Float.{Float}
use dockdoe.Store.Metrics.{Metric, as_str, ContainerTrend}
use dockdoe.Store.Rows.{RowKey, key_of}
use dockdoe.Store.Tables.{Columns, TrendRow, Trends}
use dockdoe.Store.History.{Engine, aggregate, over_known}
pub mod Chunks
pub mod Walk

abbrev pub migration_chunk_ms : ℕ
migration_chunk_ms = 3600000

-- The trend table in one of its layouts: a long row is what the bucketer emits.
pub data Layout (F : Type 0) : Type 0 where
  long : List (ContainerTrend F) → Layout F
  wide : Trends F → Layout F

pub data Migrated (F : Type 0) : Type 0 where
  done : Trends F → Migrated F
  conflict : Migrated F
  out_of_fuel : Migrated F

abbrev pub sum_of_int : List ℕ → ℕ
sum_of_int [] = 0
sum_of_int (n ∷ ns) = n + sum_of_int ns

-- The keys of the groups, each once.
abbrev pub distinct : List RowKey → List RowKey
distinct [] = []
distinct (k ∷ ks) = if contains ks k then distinct ks else k ∷ distinct ks

module _ (M : Float) (E : Engine M.F) where
  -- `SUM(median * samples) / SUM(samples)`, which is NULL for no row and for no sample.
  abbrev pub weighted : List (ContainerTrend M.F) → Option M.F
  weighted [] = none
  weighted (t ∷ ts) =
      let samples = sum_of_int (map (λ (r : ContainerTrend M.F). r.samples) (t ∷ ts)) in
      if samples == 0
      then none
      else some (
          M.div
            (E.sum_of
              (map (λ (r : ContainerTrend M.F). M.mul r.median (M.of_u64 r.samples)) (t ∷ ts)))
            (M.of_u64 samples))

  abbrev pub pivot_columns : List (ContainerTrend M.F) → Metric → Columns M.F
  pivot_columns rows m =
      let mine = select (λ r. r.metric == as_str m) rows in
      record {
        min = over_known E.min_of (map (λ (r : ContainerTrend M.F). r.min) mine);
        med = weighted mine;
        max = over_known E.max_of (map (λ (r : ContainerTrend M.F). r.max) mine);
      }

  -- What `LEGACY_PIVOT_SQL` selects for a group.
  unfoldable pub pivot_row : List (ContainerTrend M.F) → TrendRow M.F
  pivot_row rows = record {
    bucket_secs = E.max_of_int (map (λ (r : ContainerTrend M.F). r.bucket_secs) rows);
    id = E.max_of_text (map (λ (r : ContainerTrend M.F). r.id) rows);
    stack = aggregate E.max_of_text (map (λ (r : ContainerTrend M.F). r.stack) rows);
    samples = E.max_of_int (map (λ (r : ContainerTrend M.F). r.samples) rows);
    columns = pivot_columns rows;
  }

  abbrev pub has_key : RowKey → ContainerTrend M.F → Bool
  has_key k t = key_of M t == k

  abbrev pub keys_of : List (ContainerTrend M.F) → List RowKey
  keys_of rows = map (key_of M) rows

  abbrev pub pivoted : List (ContainerTrend M.F) → RowKey → RowKey × TrendRow M.F
  pivoted rows k = (k, pivot_row (select (has_key k) rows))

  -- `GROUP BY host, name, bucket_start_ms`.
  abbrev pub groups : List (ContainerTrend M.F) → Trends M.F
  groups rows = map (pivoted rows) (distinct (keys_of rows))

  -- `INSERT` fails at a primary key that is taken.
  abbrev pub insert_new : Trends M.F → Trends M.F → Option (Trends M.F)
  insert_new [] table = some table
  insert_new ((k, row) ∷ rest) table = elim (lookup k table) [
    | some taken ↦ none
    | none ↦ insert_new rest ((k, row) ∷ table)
  ]

  abbrev pub in_chunk : ℕ → ℕ → ContainerTrend M.F → Bool
  in_chunk from to t = leb from t.bucket_start_ms && ltb t.bucket_start_ms to

  unfoldable pub pivot_chunk : ℕ → ℕ → List (ContainerTrend M.F) → Trends M.F → Option (Trends M.F)
  unfolding pivot_row
  pivot_chunk from to rows table = insert_new (groups (select (in_chunk from to) rows)) table

  -- `from.saturating_add(MIGRATION_CHUNK_MS)`.
  abbrev pub chunk_end : ℕ → ℕ
  chunk_end from = min (from + migration_chunk_ms) i64_max

  unfoldable pub walk : ℕ → ℕ → ℕ → List (ContainerTrend M.F) → Trends M.F → Migrated M.F
  unfolding pivot_chunk
  walk zero from last rows table = out_of_fuel
  walk (suc fuel) from last rows table = elim (leb from last) [
    | false ↦ done table
    | true ↦ elim (pivot_chunk from (chunk_end from) rows table) [
      | none ↦ conflict
      | some next ↦ walk fuel (chunk_end from) last rows next
    ]
  ]

  -- `MIN(bucket_start_ms)` and `MAX(bucket_start_ms)` of a first row and the others.
  abbrev pub first_bucket : ContainerTrend M.F → List (ContainerTrend M.F) → ℕ
  first_bucket t [] = t.bucket_start_ms
  first_bucket t (u ∷ us) = min t.bucket_start_ms (first_bucket u us)

  abbrev pub last_bucket : ContainerTrend M.F → List (ContainerTrend M.F) → ℕ
  last_bucket t [] = t.bucket_start_ms
  last_bucket t (u ∷ us) = max t.bucket_start_ms (last_bucket u us)

  unfoldable pub migrate_trend_layout : ℕ → Layout M.F → Migrated M.F
  unfolding walk
  migrate_trend_layout fuel (wide table) = done table
  migrate_trend_layout fuel (long []) = done []
  migrate_trend_layout fuel (long (t ∷ ts)) =
      walk fuel (first_bucket t ts) (last_bucket t ts) (t ∷ ts) []
