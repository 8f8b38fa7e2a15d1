-- ===== src/Store/Upsert/Keys.antt =====
-- src/store.rs: the primary key of the trend table, and what a batch leaves under a key.
use dockdoe.Prelude.{
  ℕ, ◌≤◌, ◌≡◌, refl, sym, ap, subst, ◌∙◌, Bool, Bool-cases, inl, inr, Option, none, some, List, [],
  ◌∷◌, map, All, i64_max, if◌then◌else◌, ◌==◌, nat_eq, text_eq, pair_eq, lookup, insert,
  lookup-insert, IsUnique, insert-IsUnique, select-IsUnique,
}
use dockdoe.Float.{Float}
use dockdoe.Store.Metrics.{Metric, ContainerTrend}
use dockdoe.Store.Rows.{
  WideTrend, RowKey, pivot_trends, pivot_onto, pivot_known, metric_of, key_of, row_or, add_trend,
}
use dockdoe.Store.Tables.{to_db-exact, TrendRow, Trends}
use dockdoe.Store.History.{Engine}
use dockdoe.Store.Upsert.{
  key_values, row_values, into_values, upserted, upsert, insert_rows, insert_container_trends,
  prune_trends,
}

module _ (M : Float) (E : Engine M.F) where
  -- A batch's part of a key, put onto what is stored under it.
  abbrev pub stored_or : Option (TrendRow M.F) → Option (TrendRow M.F) → Option (TrendRow M.F)
  stored_or stored none = stored
  stored_or stored (some row) = some (upserted M E stored row)

  insert_rows-IsUnique :
      (rows table : Trends M.F) → IsUnique table → IsUnique (insert_rows M E rows table)
  unfolding insert_rows
  insert_rows-IsUnique [] table h = h
  insert_rows-IsUnique ((key, row) ∷ rows) table h =
      insert_rows-IsUnique rows (upsert M E key row table)
        (insert-IsUnique key (upserted M E (lookup key table) row) table h)

  insert_rows-lookup :
      (k : RowKey) (rows table : Trends M.F)
      → IsUnique rows
      → lookup k (insert_rows M E rows table) ≡ stored_or (lookup k table) (lookup k rows)
  unfolding insert_rows
  insert_rows-lookup k [] table u = refl
  insert_rows-lookup k ((j, row) ∷ rows) table u =
      let new = upserted M E (lookup j table) row in
      let step = insert_rows-lookup k rows (upsert M E j row table) u.1 in
      let found = lookup-insert j k new table in
      elim (Bool-cases (j == k)) [
        | inl b ↦
            let same : j ≡ k = (pair_eq.test_iff j k).0 b in
            let rest : lookup k rows ≡ none = subst (λ i. lookup i rows ≡ none) same u.0 in
            let now = ap (λ (c : Bool). if c then some new else lookup k table) b in
            step
            ∙ ap (stored_or (lookup k (upsert M E j row table))) rest
            ∙ found
            ∙ now
            ∙ ap (λ i. some (upserted M E (lookup i table) row)) same
            ∙ rw b refl
        | inr b ↦
            let now = ap (λ (c : Bool). if c then some new else lookup k table) b in
            step ∙ ap (λ o. stored_or o (lookup k rows)) (found ∙ now) ∙ rw b refl
      ]

  pivot_onto-IsUnique :
      (rows : List (RowKey × WideTrend M.F)) (ts : List (ContainerTrend M.F))
      → IsUnique rows
      → IsUnique (pivot_onto M rows ts)
  unfolding pivot_onto
  pivot_onto-IsUnique rows [] u = u
  pivot_onto-IsUnique rows (t ∷ ts) u =
      pivot_onto-IsUnique (pivot_known M (metric_of M t) t rows) ts
        (known-IsUnique (metric_of M t) t rows u)
    where
      known-IsUnique :
          (o : Option Metric) (t : ContainerTrend M.F) (rows : List (RowKey × WideTrend M.F))
          → IsUnique rows
          → IsUnique (pivot_known M o t rows)
      known-IsUnique none t rows u = u
      known-IsUnique (some m) t rows u =
          insert-IsUnique (key_of M t) (add_trend M m t (row_or M (lookup (key_of M t) rows))) rows
            u

  -- All buckets fit an `i64`, which holds for any clock before the year 292 million.
  abbrev pub Fitting : List (ContainerTrend M.F) → Type 0
  Fitting ts = All (λ (t : ContainerTrend M.F). t.bucket_start_ms ≤ i64_max) ts

  abbrev FittingRows : List (RowKey × WideTrend M.F) → Type 0
  FittingRows rows = All (λ (r : RowKey × WideTrend M.F). r.0.1.1 ≤ i64_max) rows

  insert-FittingRows :
      (k : RowKey) (v : WideTrend M.F) (rows : List (RowKey × WideTrend M.F))
      → k.1.1 ≤ i64_max
      → FittingRows rows
      → FittingRows (insert k v rows)
  insert-FittingRows k v [] l h = (l, tt)
  insert-FittingRows k v ((j, w) ∷ rows) l h = elim (Bool-cases (j == k)) [
    | inl b ↦ rw b (l, h.1)
    | inr b ↦ rw b (h.0, insert-FittingRows k v rows l h.1)
  ]

  pivot_onto-FittingRows :
      (rows : List (RowKey × WideTrend M.F)) (ts : List (ContainerTrend M.F))
      → Fitting ts
      → FittingRows rows
      → FittingRows (pivot_onto M rows ts)
  unfolding pivot_onto
  pivot_onto-FittingRows rows [] h u = u
  pivot_onto-FittingRows rows (t ∷ ts) h u =
      pivot_onto-FittingRows (pivot_known M (metric_of M t) t rows) ts h.1
        (known-FittingRows (metric_of M t) t rows h.0 u)
    where
      known-FittingRows :
          (o : Option Metric) (t : ContainerTrend M.F) (rows : List (RowKey × WideTrend M.F))
          → t.bucket_start_ms ≤ i64_max
          → FittingRows rows
          → FittingRows (pivot_known M o t rows)
      known-FittingRows none t rows l u = u
      known-FittingRows (some m) t rows l u =
          insert-FittingRows (key_of M t) (add_trend M m t (row_or M (lookup (key_of M t) rows)))
            rows l u

  abbrev pub stored_row : Option (WideTrend M.F) → Option (TrendRow M.F)
  stored_row none = none
  stored_row (some row) = some (row_values row)

  key_values-exact : (k : RowKey) → k.1.1 ≤ i64_max → key_values k ≡ k
  key_values-exact (host, (name, b)) l = ap (λ c. (host, (name, c))) (to_db-exact b l)

  into_values-lookup :
      (k : RowKey) (rows : List (RowKey × WideTrend M.F))
      → FittingRows rows
      → lookup k (map into_values rows) ≡ stored_row (lookup k rows)
  unfolding into_values
  into_values-lookup k [] h = refl
  into_values-lookup k ((j, row) ∷ rows) h =
      let same = key_values-exact j h.0 in
      let rest = into_values-lookup k rows h.1 in
      subst
        (λ i.
          lookup k ((i, row_values row) ∷ map into_values rows)
          ≡ stored_row (if j == k then some row else lookup k rows))
        (sym same) (elim (Bool-cases (j == k)) [ inl b ↦ rw b refl | inr b ↦ rw b rest ])

  into_values-IsUnique :
      (rows : List (RowKey × WideTrend M.F))
      → FittingRows rows
      → IsUnique rows
      → IsUnique (map into_values rows)
  unfolding into_values
  into_values-IsUnique [] h u = tt
  into_values-IsUnique ((j, row) ∷ rows) h u =
      let same = key_values-exact j h.0 in
      let absent = into_values-lookup j rows h.1 ∙ ap stored_row u.0 in
      (
        subst (λ i. lookup i (map into_values rows) ≡ none) (sym same) absent,
        into_values-IsUnique rows h.1 u.1,
      )

  -- What a batch leaves under a key: the stored row, with the batch's row for the key merged into it.
  pub insert_container_trends-lookup :
      (k : RowKey) (ts : List (ContainerTrend M.F)) (table : Trends M.F)
      → Fitting ts
      → lookup k (insert_container_trends M E ts table)
        ≡ stored_or (lookup k table) (stored_row (lookup k (pivot_trends M ts)))
  unfolding insert_container_trends pivot_trends pivot_onto
  insert_container_trends-lookup k [] table h = refl
  insert_container_trends-lookup k (t ∷ ts) table h =
      let fits = pivot_onto-FittingRows [] (t ∷ ts) h tt in
      let unique = pivot_onto-IsUnique [] (t ∷ ts) tt in
      insert_rows-lookup k (map into_values (pivot_trends M (t ∷ ts))) table
        (into_values-IsUnique (pivot_trends M (t ∷ ts)) fits unique)
      ∙ ap (stored_or (lookup k table)) (into_values-lookup k (pivot_trends M (t ∷ ts)) fits)

  pub insert_container_trends-IsUnique :
      (ts : List (ContainerTrend M.F)) (table : Trends M.F)
      → IsUnique table
      → IsUnique (insert_container_trends M E ts table)
  unfolding insert_container_trends
  insert_container_trends-IsUnique [] table u = u
  insert_container_trends-IsUnique (t ∷ ts) table u =
      insert_rows-IsUnique (map into_values (pivot_trends M (t ∷ ts))) table u

  pub prune_trends-IsUnique :
      (before_ms : ℕ) (table : Trends M.F)
      → IsUnique table
      → IsUnique (prune_trends before_ms table).0
  unfolding prune_trends
  prune_trends-IsUnique before_ms table u = select-IsUnique _ table u
