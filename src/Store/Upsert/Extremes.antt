-- ===== src/Store/Upsert/Extremes.antt =====
-- src/store.rs: the extremes that a trend row keeps, through the pivot of every batch and the upserts.
use dockdoe.Prelude.{
  ℕ, ◌≡◌, refl, sym, ap, ◌∙◌, arith, Bool, ◌&&◌, Bool-cases, inl, inr, Option, none, some, List, [],
  ◌∷◌, ◌++◌, map, select, select-append, map-append, All, if◌then◌else◌, ◌==◌, nat_eq, text_eq,
  pair_eq, option_eq, lookup, lookup-insert,
}
use dockdoe.Float.{Float}
use dockdoe.Store.Metrics.{Metric, metric_eq, ContainerTrend}
use dockdoe.Store.Rows.{
  Envelope, WideTrend, RowKey, merge, envelope_of, merged_with, row_or, add_trend, metric_of,
  key_of, pivot_known, pivot_onto, pivot_trends,
}
use dockdoe.Store.Tables.{Columns, TrendRow, Trends}
use dockdoe.Store.History.{Engine}
use dockdoe.Store.Upsert.{
  envelope_values, coalesce, scalar, merge_columns, merge_rows, insert_container_trends,
}
use dockdoe.Store.Upsert.Keys.{Fitting, stored_or, stored_row, insert_container_trends-lookup}

module _ {F : Type 0} (op : F → F → F) where
  abbrev pub with_value : Option F → F → Option F
  with_value none v = some v
  with_value (some a) v = some (op a v)

  abbrev pub both : Option F → Option F → Option F
  both o none = o
  both o (some v) = with_value o v

  -- The values taken together, one after the other.
  abbrev pub combined : Option F → List F → Option F
  combined o [] = o
  combined o (v ∷ vs) = combined (with_value o v) vs

  pub combined-append :
      (o : Option F) (vs ws : List F) → combined o (vs ++ ws) ≡ combined (combined o vs) ws
  combined-append o [] ws = refl
  combined-append o (v ∷ vs) ws = combined-append (with_value o v) vs ws

  module _ (assoc : (a b c : F) → op (op a b) c ≡ op a (op b c)) where
    both-with_value : (o p : Option F) (v : F) → both o (with_value p v) ≡ with_value (both o p) v
    both-with_value none none v = refl
    both-with_value (some a) none v = refl
    both-with_value none (some b) v = refl
    both-with_value (some a) (some b) v = ap some (sym (assoc a b v))

    pub both-combined :
        (o p : Option F) (vs : List F) → both o (combined p vs) ≡ combined (both o p) vs
    both-combined o p [] = refl
    both-combined o p (v ∷ vs) =
        both-combined o (with_value p v) vs ∙ ap (λ q. combined q vs) (both-with_value o p v)

-- The batches of the flushes, one after the other.
unfoldable pub insert_batches :
    (M : Float) (E : Engine M.F) → List (List (ContainerTrend M.F)) → Trends M.F → Trends M.F
insert_batches M E [] table = table
insert_batches M E (b ∷ bs) table = insert_batches M E bs (insert_container_trends M E b table)

abbrev pub joined {ℓ} : {A : Type ℓ} → List (List A) → List A
joined [] = []
joined (l ∷ ls) = l ++ joined ls

-- The rollups of a metric of a container in a bucket.
abbrev pub is_for : (M : Float) → RowKey → Metric → ContainerTrend M.F → Bool
is_for M k m t = key_of M t == k && metric_of M t == some m

module _ (M : Float) (pick : Envelope M.F → M.F) where
  abbrev pub picked : Option (Envelope M.F) → Option M.F
  picked none = none
  picked (some e) = some (pick e)

  abbrev pub of_row : Metric → Option (WideTrend M.F) → Option M.F
  of_row m none = none
  of_row m (some row) = picked (lookup m row.metrics)

  of_row-or :
      (m : Metric) (o : Option (WideTrend M.F))
      → picked (lookup m (row_or M o).metrics) ≡ of_row m o
  of_row-or m none = refl
  of_row-or m (some row) = refl

  abbrev pub values_for : RowKey → Metric → List (ContainerTrend M.F) → List M.F
  values_for k m ts = map (λ t. pick (envelope_of M t)) (select (is_for M k m) ts)

module _ (M : Float) (op : M.F → M.F → M.F) (pick : Envelope M.F → M.F)
    (picks_merge : (a b : Envelope M.F) → pick (merge M a b) ≡ op (pick a) (pick b)) where
  merged_with-picked :
      (e : Envelope M.F) (o : Option (Envelope M.F))
      → some (pick (merged_with M e o)) ≡ with_value op (picked M pick o) (pick e)
  merged_with-picked e none = refl
  merged_with-picked e (some existing) = ap some (picks_merge existing e)

  add_trend-of_row :
      (n m : Metric) (t : ContainerTrend M.F) (o : Option (WideTrend M.F))
      → of_row M pick m (some (add_trend M n t (row_or M o))) ≡ (
          if n == m
          then with_value op (of_row M pick m o) (pick (envelope_of M t))
          else of_row M pick m o)
  unfolding add_trend
  add_trend-of_row n m t o =
      let row = row_or M o in
      let merged = merged_with M (envelope_of M t) (lookup n row.metrics) in
      let found = ap (picked M pick) (lookup-insert n m merged row.metrics) in
      elim (Bool-cases (n == m)) [
        | inl b ↦
            let same : n ≡ m = (metric_eq.test_iff n m).0 b in
            found
            ∙ rw b (
                merged_with-picked (envelope_of M t) (lookup n row.metrics)
                ∙ ap (λ v. with_value op v (pick (envelope_of M t)))
                    (ap (λ j. picked M pick (lookup j row.metrics)) same ∙ of_row-or M pick m o))
        | inr b ↦ found ∙ rw b (of_row-or M pick m o)
      ]

  pivot_known-of_row :
      (k : RowKey) (m : Metric) (t : ContainerTrend M.F) (o : Option Metric)
      (rows : List (RowKey × WideTrend M.F))
      → of_row M pick m (lookup k (pivot_known M o t rows)) ≡ (
          if key_of M t == k && o == some m
          then with_value op (of_row M pick m (lookup k rows)) (pick (envelope_of M t))
          else of_row M pick m (lookup k rows))
  pivot_known-of_row k m t none rows = ground arith
  pivot_known-of_row k m t (some n) rows =
      let old = lookup (key_of M t) rows in
      let new = add_trend M n t (row_or M old) in
      let found = ap (of_row M pick m) (lookup-insert (key_of M t) k new rows) in
      elim (Bool-cases (key_of M t == k)) [
        | inl b ↦
            let same : key_of M t ≡ k = (pair_eq.test_iff (key_of M t) k).0 b in
            found
            ∙ rw b (
                add_trend-of_row n m t old
                ∙ ap
                    (λ (j : RowKey).
                      if n == m
                      then with_value op (of_row M pick m (lookup j rows)) (pick (envelope_of M t))
                      else of_row M pick m (lookup j rows))
                    same)
        | inr b ↦ found ∙ rw b refl
      ]

  pub pivot_onto-of_row :
      (k : RowKey) (m : Metric) (rows : List (RowKey × WideTrend M.F))
      (ts : List (ContainerTrend M.F))
      → of_row M pick m (lookup k (pivot_onto M rows ts))
        ≡ combined op (of_row M pick m (lookup k rows)) (values_for M pick k m ts)
  unfolding pivot_onto
  pivot_onto-of_row k m rows [] = refl
  pivot_onto-of_row k m rows (t ∷ ts) =
      let step = pivot_known-of_row k m t (metric_of M t) rows in
      let ih = pivot_onto-of_row k m (pivot_known M (metric_of M t) t rows) ts in
      ih
      ∙ ap (λ o. combined op o (values_for M pick k m ts)) step
      ∙ elim (Bool-cases (is_for M k m t)) [ inl b ↦ rw b refl | inr b ↦ rw b refl ]

-- A column of a stored row, NULL where there is no row.
abbrev pub column_of :
    {F : Type 0} → (Columns F → Option F) → Metric → Option (TrendRow F) → Option F
column_of column m none = none
column_of column m (some row) = column (row.columns m)

module _ (M : Float) (E : Engine M.F) (op : M.F → M.F → M.F) (pick : Envelope M.F → M.F)
    (column : Columns M.F → Option M.F)
    (picks_merge : (a b : Envelope M.F) → pick (merge M a b) ≡ op (pick a) (pick b))
    (picks_values : (o : Option (Envelope M.F)) → column (envelope_values o) ≡ picked M pick o)
    (picks_upsert : (s x : Columns M.F) (n l : ℕ)
      → column (merge_columns M E s n x l) ≡ both op (column s) (column x))
    (assoc : (a b c : M.F) → op (op a b) c ≡ op a (op b c)) where
  stored_or-column_of :
      (m : Metric) (o : Option (TrendRow M.F)) (p : Option (WideTrend M.F))
      → column_of column m (stored_or M E o (stored_row M E p))
        ≡ both op (column_of column m o) (of_row M pick m p)
  unfolding merge_rows
  stored_or-column_of m o none = refl
  stored_or-column_of m none (some row) =
      picks_values (lookup m row.metrics) ∙ sym (none-both (picked M pick (lookup m row.metrics)))
    where
      none-both : (p : Option M.F) → both op none p ≡ p
      none-both none = refl
      none-both (some v) = refl
  stored_or-column_of m (some stored) (some row) =
      picks_upsert (stored.columns m) (envelope_values (lookup m row.metrics)) stored.samples
        row.samples
      ∙ ap (both op (column (stored.columns m))) (picks_values (lookup m row.metrics))

  insert_container_trends-column_of :
      (k : RowKey) (m : Metric) (ts : List (ContainerTrend M.F)) (table : Trends M.F)
      → Fitting M E ts
      → column_of column m (lookup k (insert_container_trends M E ts table))
        ≡ combined op (column_of column m (lookup k table)) (values_for M pick k m ts)
  unfolding pivot_trends
  insert_container_trends-column_of k m ts table h =
      ap (column_of column m) (insert_container_trends-lookup M E k ts table h)
      ∙ stored_or-column_of m (lookup k table) (lookup k (pivot_trends M ts))
      ∙ ap (both op (column_of column m (lookup k table)))
          (pivot_onto-of_row M op pick picks_merge k m [] ts)
      ∙ both-combined op assoc (column_of column m (lookup k table)) none (values_for M pick k m ts)

  insert_batches-column_of :
      (k : RowKey) (m : Metric) (bs : List (List (ContainerTrend M.F))) (table : Trends M.F)
      → All (Fitting M E) bs
      → column_of column m (lookup k (insert_batches M E bs table))
        ≡ combined op (column_of column m (lookup k table)) (values_for M pick k m (joined bs))
  unfolding insert_batches
  insert_batches-column_of k m [] table h = refl
  insert_batches-column_of k m (b ∷ bs) table h =
      let vs = values_for M pick k m b in
      let ws = values_for M pick k m (joined bs) in
      insert_batches-column_of k m bs (insert_container_trends M E b table) h.1
      ∙ ap (λ o. combined op o ws) (insert_container_trends-column_of k m b table h.0)
      ∙ sym (combined-append op (column_of column m (lookup k table)) vs ws)
      ∙ ap (combined op (column_of column m (lookup k table))) (
          sym (
            ap (map (λ t. pick (envelope_of M t))) (select-append (is_for M k m) b (joined bs))
            ∙ map-append (λ t. pick (envelope_of M t)) (select (is_for M k m) b)
                (select (is_for M k m) (joined bs))))

-- What IEEE 754 promises of the extremes of numbers, the sign of a zero aside, and that SQLite takes
-- the same ones.
pub record ExtremeLaws (M : Float) (E : Engine M.F) : Type 0 where
  pub min_same : (a b : M.F) → E.scalar_min a b ≡ M.min a b
  pub min_idem : (a : M.F) → M.min a a ≡ a
  pub min_assoc : (a b c : M.F) → M.min (M.min a b) c ≡ M.min a (M.min b c)
  pub max_same : (a b : M.F) → E.scalar_max a b ≡ M.max a b
  pub max_idem : (a : M.F) → M.max a a ≡ a
  pub max_assoc : (a b c : M.F) → M.max (M.max a b) c ≡ M.max a (M.max b c)

scalar-both :
    {F : Type 0} (f op : F → F → F)
    → ((a b : F) → f a b ≡ op a b)
    → ((a : F) → op a a ≡ a)
    → (o p : Option F) → scalar f (coalesce o p) (coalesce p o) ≡ both op o p
scalar-both f op same idem none none = refl
scalar-both f op same idem (some a) none = ap some (same a a ∙ idem a)
scalar-both f op same idem none (some b) = ap some (same b b ∙ idem b)
scalar-both f op same idem (some a) (some b) = ap some (same a b)

module _ (M : Float) (E : Engine M.F) (laws : ExtremeLaws M E) where
  values_min : (o : Option (Envelope M.F)) → (envelope_values o).min ≡ picked M (λ e. e.min) o
  values_min none = refl
  values_min (some e) = refl

  values_max : (o : Option (Envelope M.F)) → (envelope_values o).max ≡ picked M (λ e. e.max) o
  values_max none = refl
  values_max (some e) = refl

  merge_min : (a b : Envelope M.F) → (merge M a b).min ≡ M.min a.min b.min
  unfolding merge
  merge_min a b = refl

  merge_max : (a b : Envelope M.F) → (merge M a b).max ≡ M.max a.max b.max
  unfolding merge
  merge_max a b = refl

  -- After any batches of rollups whose buckets start at most at the largest `i64`, as a later one is
  -- stored at that, the trend table holds for each container, bucket and metric the
  -- least of the minima and the greatest of the maxima of all its rollups, and NULL if there are none:
  -- how the rollups were spread over the batches, and merged on the way, makes no difference.
  pub insert_batches-extremes :
      (k : RowKey) (m : Metric) (batches : List (List (ContainerTrend M.F)))
      → All (Fitting M E) batches
      → (column_of (λ c. c.min) m (lookup k (insert_batches M E batches []))
          ≡ combined M.min none
              (map (λ (t : ContainerTrend M.F). t.min) (select (is_for M k m) (joined batches))))
        × (column_of (λ c. c.max) m (lookup k (insert_batches M E batches []))
            ≡ combined M.max none
                (map (λ (t : ContainerTrend M.F). t.max) (select (is_for M k m) (joined batches))))
  insert_batches-extremes k m batches h =
      let mins =
        insert_batches-column_of M E M.min (λ e. e.min) (λ c. c.min) merge_min values_min
          (λ s x n l. scalar-both E.scalar_min M.min laws.min_same laws.min_idem s.min x.min)
          laws.min_assoc k m batches [] h in
      let maxs =
        insert_batches-column_of M E M.max (λ e. e.max) (λ c. c.max) merge_max values_max
          (λ s x n l. scalar-both E.scalar_max M.max laws.max_same laws.max_idem s.max x.max)
          laws.max_assoc k m batches [] h in
      (mins, maxs)
