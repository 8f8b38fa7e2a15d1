-- ===== src/Store/Migration/Walk.antt =====
-- src/store.rs: the loop over the hours ends, and then every long row has gone into its wide one.
use dockdoe.Prelude.{
  ℕ, zero, suc, ◌+◌, ◌*◌, ◌≤◌, ◌<◌, ◌≡◌, ◌≢◌, refl, sym, ap, subst, ◌∙◌, arith, Bool, true, false,
  Bool-cases, inl, inr, Option, none, some, List, [], ◌∷◌, contains, if◌then◌else◌, ltb, leb, ◌||◌,
  ◌==◌, nat_eq, text_eq, pair_eq, i64_max, lookup, All, All-map_imp,
}
use dockdoe.Float.{Float}
use dockdoe.Store.Metrics.{ContainerTrend}
use dockdoe.Store.Rows.{RowKey, key_of}
use dockdoe.Store.Tables.{Trends}
use dockdoe.Store.History.{Engine}
use dockdoe.Store.Migration.{
  migration_chunk_ms, long, Migrated, done, conflict, out_of_fuel, keys_of, pivot_chunk, chunk_end,
  walk, first_bucket, last_bucket, migrate_trend_layout,
}
use dockdoe.Store.Migration.Chunks.{grouped_row, Covers, pivot_chunk-Covers}

module _ (M : Float) (E : Engine M.F) where
  -- The loop has ended with the keys up to that time.
  abbrev Ends : ℕ → List (ContainerTrend M.F) → Migrated M.F → Type 0
  Ends last rows m =
      (table : Trends M.F) × (m ≡ done table) × (end : ℕ) × (last < end) × Covers M E end rows table

  abbrev after_chunk : ℕ → ℕ → ℕ → List (ContainerTrend M.F) → Option (Trends M.F) → Migrated M.F
  after_chunk fuel from last rows none = conflict
  after_chunk fuel from last rows (some next) = walk M E fuel (chunk_end M E from) last rows next

  walk-chunk :
      (fuel from last : ℕ) (rows : List (ContainerTrend M.F)) (table : Trends M.F)
      → from ≤ last
      → walk M E (suc fuel) from last rows table
        ≡ after_chunk fuel from last rows (pivot_chunk M E from (chunk_end M E from) rows table)
  unfolding walk
  walk-chunk fuel from last rows table l =
      let t : leb from last ≡ true = ground arith in
      ap
        (λ (b : Bool). elim b as (λ _. Migrated M.F) [
          | false ↦ done table
          | true ↦
              elim (pivot_chunk M E from (chunk_end M E from) rows table) as (λ _. Migrated M.F) [
                | none ↦ conflict
                | some found ↦ walk M E fuel (chunk_end M E from) last rows found
              ]
        ])
        t
      ∙ opened (pivot_chunk M E from (chunk_end M E from) rows table)
    where
      opened :
          (o : Option (Trends M.F))
          → (elim o as (λ _. Migrated M.F) [
            | none ↦ conflict
            | some found ↦ walk M E fuel (chunk_end M E from) last rows found
          ])
            ≡ after_chunk fuel from last rows o
      opened none = refl
      opened (some found) = refl

  walk-step :
      (fuel from last : ℕ) (rows : List (ContainerTrend M.F)) (table next : Trends M.F)
      → from ≤ last
      → pivot_chunk M E from (chunk_end M E from) rows table ≡ some next
      → walk M E (suc fuel) from last rows table ≡ walk M E fuel (chunk_end M E from) last rows next
  walk-step fuel from last rows table next l e =
      walk-chunk fuel from last rows table l ∙ ap (after_chunk fuel from last rows) e

  walk-stop :
      (fuel from last : ℕ) (rows : List (ContainerTrend M.F)) (table : Trends M.F)
      → last < from
      → walk M E (suc fuel) from last rows table ≡ done table
  unfolding walk
  walk-stop fuel from last rows table l =
      let t : leb from last ≡ false = ground arith in
      ap
        (λ (b : Bool). elim b as (λ _. Migrated M.F) [
          | false ↦ done table
          | true ↦
              elim (pivot_chunk M E from (chunk_end M E from) rows table) as (λ _. Migrated M.F) [
                | none ↦ conflict
                | some found ↦ walk M E fuel (chunk_end M E from) last rows found
              ]
        ])
        t

  walk-Ends :
      (fuel from last : ℕ) (rows : List (ContainerTrend M.F)) (table : Trends M.F)
      → last < i64_max
      → last < from + fuel * migration_chunk_ms
      → Covers M E from rows table
      → Ends last rows (walk M E (suc fuel) from last rows table)
  walk-Ends zero from last rows table s f c =
      let l : last < from = omega (arith, f) in
      (table, walk-stop zero from last rows table l, from, l, c)
  walk-Ends (suc fuel) from last rows table s f c = elim (Bool-cases (leb from last)) [
    | inl t ↦
        let l : from ≤ last = ground arith in
        let to = chunk_end M E from in
        let (next, e, d) = pivot_chunk-Covers M E from to rows table (omega (arith, l, s)) c in
        let (ended, g, end, over, covered) =
          walk-Ends fuel to last rows next s (omega (arith, s, f)) d in
        (ended, walk-step (suc fuel) from last rows table next l e ∙ g, end, over, covered)
    | inr t ↦
        let l : last < from = ground arith in
        (table, walk-stop (suc fuel) from last rows table l, from, l, c)
  ]

  absent_key :
      (k : RowKey) (rows : List (ContainerTrend M.F))
      → All (λ (t : ContainerTrend M.F). t.bucket_start_ms ≢ k.1.1) rows
      → contains (keys_of M E rows) k ≡ false
  absent_key k [] h = refl
  absent_key k (t ∷ rows) h = elim (Bool-cases (key_of M t == k)) [
    | inl b ↦ absurd (h.0 (ap (λ (j : RowKey). j.1.1) ((pair_eq.test_iff (key_of M t) k).0 b)))
    | inr b ↦ rw b (absent_key k rows h.1)
  ]

  abbrev Spans : ℕ → ℕ → List (ContainerTrend M.F) → Type 0
  Spans first last rows =
      All (λ (t : ContainerTrend M.F). (first ≤ t.bucket_start_ms) × (t.bucket_start_ms ≤ last))
        rows

  outside-absent :
      (first last : ℕ) (k : RowKey) (rows : List (ContainerTrend M.F))
      → Spans first last rows
      → (ltb k.1.1 first || ltb last k.1.1) ≡ true
      → grouped_row M E k rows ≡ none
  outside-absent first last k rows h l =
      let gone = absent_key k rows (
        All-map_imp
          (λ (t : ContainerTrend M.F). (first ≤ t.bucket_start_ms) × (t.bucket_start_ms ≤ last))
          (λ (t : ContainerTrend M.F). t.bucket_start_ms ≢ k.1.1)
          (λ t b e. other first last t.bucket_start_ms k.1.1 l b.0 b.1 e) rows h) in
      rw gone refl
    where
      other :
          (first last b c : ℕ) → (ltb c first || ltb last c) ≡ true → first ≤ b → b ≤ last → b ≢ c
      other first last b c l p q = λ e. ground (arith, l, p, q, e)

  bucket_span :
      (t : ContainerTrend M.F) (ts : List (ContainerTrend M.F))
      → Spans (first_bucket M E t ts) (last_bucket M E t ts) (t ∷ ts)
  bucket_span t [] = ((omega arith, omega arith), tt)
  bucket_span t (u ∷ us) =
      let wider =
        All-map_imp
          (λ (r : ContainerTrend M.F).
            (first_bucket M E u us ≤ r.bucket_start_ms)
            × (r.bucket_start_ms ≤ last_bucket M E u us))
          (λ (r : ContainerTrend M.F).
            (first_bucket M E t (u ∷ us) ≤ r.bucket_start_ms)
            × (r.bucket_start_ms ≤ last_bucket M E t (u ∷ us)))
          (λ r b. (omega (arith, b.0), omega (arith, b.1))) (u ∷ us) (bucket_span u us) in
      ((omega arith, omega arith), wider)

  empty-Covers :
      (first last : ℕ) (k : RowKey) (rows : List (ContainerTrend M.F))
      → Spans first last rows
      → none ≡ (if ltb k.1.1 first then grouped_row M E k rows else none)
  empty-Covers first last k rows h = elim (Bool-cases (ltb k.1.1 first)) [
    | inl b ↦ let gone = outside-absent first last k rows h (ground (arith, b)) in rw (b, gone) refl
    | inr b ↦ rw b refl
  ]

  -- The migration of a long table whose last bucket is not the largest `i64` ends, when it has a
  -- round for each hour from the first bucket to the last one and one more; no insert meets a taken key; and
  -- the wide table has under each key the one row that is pivoted from all the long rows with the key,
  -- and no row where there are none: the hours split no group, and lose and repeat no row.
  pub migrate_trend_layout-groups :
      (fuel : ℕ) (t : ContainerTrend M.F) (ts : List (ContainerTrend M.F))
      → last_bucket M E t ts < i64_max
      → last_bucket M E t ts < first_bucket M E t ts + fuel * migration_chunk_ms
      → (table : Trends M.F) × (migrate_trend_layout M E (suc fuel) (long (t ∷ ts)) ≡ done table)
        × ((k : RowKey) → lookup k table ≡ grouped_row M E k (t ∷ ts))
  unfolding migrate_trend_layout
  migrate_trend_layout-groups fuel t ts s f =
      let first = first_bucket M E t ts in
      let last = last_bucket M E t ts in
      let span = bucket_span t ts in
      let (table, e, end, over, covered) =
        walk-Ends fuel first last (t ∷ ts) [] s f (λ k. empty-Covers first last k (t ∷ ts) span) in
      (table, e, λ k. covered k ∙ all_covered first last end k (t ∷ ts) span over)
    where
      all_covered :
          (first last end : ℕ) (k : RowKey) (rows : List (ContainerTrend M.F))
          → Spans first last rows
          → last < end
          → (if ltb k.1.1 end then grouped_row M E k rows else none) ≡ grouped_row M E k rows
      all_covered first last end k rows h l = elim (Bool-cases (ltb k.1.1 end)) [
        | inl b ↦ rw b refl
        | inr b ↦
            let gone = outside-absent first last k rows h (ground (arith, b, l)) in
            rw (b, gone) refl
      ]

  walk-unending :
      (fuel from : ℕ) (rows : List (ContainerTrend M.F)) (table : Trends M.F)
      → from ≤ i64_max
      → Covers M E from rows table
      → walk M E fuel from i64_max rows table ≡ out_of_fuel
  unfolding walk
  walk-unending zero from rows table l c = refl
  walk-unending (suc fuel) from rows table l c =
      let to = chunk_end M E from in
      let (next, e, d) = pivot_chunk-Covers M E from to rows table (omega (arith, l)) c in
      walk-step fuel from i64_max rows table next l e
      ∙ walk-unending fuel to rows next (omega arith) d

  -- A long table with a row at the largest `i64`, as `to_db` makes it of any later time, is never
  -- migrated: whatever number of rounds the loop is given, it has made them all without a conflict and
  -- has not ended.
  pub migrate_trend_layout-unending :
      (fuel : ℕ) (t : ContainerTrend M.F) (ts : List (ContainerTrend M.F))
      → last_bucket M E t ts ≡ i64_max
      → migrate_trend_layout M E fuel (long (t ∷ ts)) ≡ out_of_fuel
  unfolding migrate_trend_layout
  migrate_trend_layout-unending fuel t ts e =
      let span = bucket_span t ts in
      let first = first_bucket M E t ts in
      subst (λ last. walk M E fuel first last (t ∷ ts) [] ≡ out_of_fuel) (sym e)
        (walk-unending fuel first (t ∷ ts) [] (omega (arith, span.0, e))
          (λ k. empty-Covers first (last_bucket M E t ts) k (t ∷ ts) span))
