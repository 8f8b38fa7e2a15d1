-- ===== src/Store/Rows/Samples.antt =====
-- src/store.rs: no sample is lost or counted twice on the way into the wide rows.
use dockdoe.Prelude.{
  ℕ, ◌+◌, ◌%◌, ◌^◌, ◌<◌, ◌≡◌, refl, sym, ap, ◌∙◌, arith, Bool, true, false, ◌&&◌, Bool-cases, inl,
  inr, Option, none, some, List, [], ◌∷◌, if◌then◌else◌, ◌==◌, nat_eq, text_eq, pair_eq, lookup,
  lookup-insert, All,
}
use dockdoe.Float.{Float}
use dockdoe.Store.Metrics.{Metric, metric_eq, ContainerTrend}
use dockdoe.Store.Rows.{
  Envelope, WideTrend, RowKey, merge, envelope_of, merged_with, row_or, add_trend, metric_of,
  key_of, pivot_known, pivot_onto, pivot_trends,
}

module _ (M : Float) where
  abbrev pub counted : Option (Envelope M.F) → ℕ
  counted none = 0
  counted (some e) = e.samples

  abbrev pub row_samples : Metric → Option (WideTrend M.F) → ℕ
  row_samples m none = 0
  row_samples m (some row) = counted (lookup m row.metrics)

  -- The samples that the rows hold of a metric of a container in a bucket.
  abbrev pub samples_in : RowKey → Metric → List (RowKey × WideTrend M.F) → ℕ
  samples_in k m rows = row_samples m (lookup k rows)

  abbrev pub share : RowKey → Metric → ContainerTrend M.F → Option Metric → ℕ
  share k m t none = 0
  share k m t (some n) = if key_of M t == k && n == m then t.samples else 0

  -- The samples behind the rollups of that metric, container and bucket.
  abbrev pub total : RowKey → Metric → List (ContainerTrend M.F) → ℕ
  total k m [] = 0
  total k m (t ∷ ts) = share k m t (metric_of M t) + total k m ts

  merged_with-samples :
      (t : ContainerTrend M.F) (o : Option (Envelope M.F))
      → t.samples < 2 ^ 32
      → (merged_with M (envelope_of M t) o).samples ≡ (counted o + t.samples) % 2 ^ 32
  unfolding merge
  merged_with-samples t none h = omega arith
  merged_with-samples t (some e) h = refl

  row_samples-or :
      (m : Metric) (o : Option (WideTrend M.F))
      → counted (lookup m (row_or M o).metrics) ≡ row_samples m o
  row_samples-or m none = refl
  row_samples-or m (some row) = refl

  add_trend-same :
      (m : Metric) (t : ContainerTrend M.F) (o : Option (WideTrend M.F))
      → t.samples < 2 ^ 32
      → row_samples m (some (add_trend M m t (row_or M o))) ≡ (row_samples m o + t.samples) % 2 ^ 32
  unfolding add_trend
  add_trend-same m t o h =
      let row = row_or M o in
      let merged = merged_with M (envelope_of M t) (lookup m row.metrics) in
      let same : (m == m) ≡ true = ground arith in
      ap counted (
        lookup-insert m m merged row.metrics
        ∙ ap (λ (b : Bool). if b then some merged else lookup m row.metrics) same)
      ∙ merged_with-samples t (lookup m row.metrics) h
      ∙ ap (λ n. (n + t.samples) % 2 ^ 32) (row_samples-or m o)

  add_trend-other :
      (n m : Metric) (t : ContainerTrend M.F) (o : Option (WideTrend M.F))
      → (n == m) ≡ false
      → row_samples m (some (add_trend M n t (row_or M o))) ≡ row_samples m o
  unfolding add_trend
  add_trend-other n m t o e =
      let row = row_or M o in
      let merged = merged_with M (envelope_of M t) (lookup n row.metrics) in
      ap counted (
        lookup-insert n m merged row.metrics
        ∙ ap (λ (b : Bool). if b then some merged else lookup m row.metrics) e)
      ∙ row_samples-or m o

  pivot_known-samples :
      (k : RowKey) (m : Metric) (t : ContainerTrend M.F) (n : Option Metric)
      (rows : List (RowKey × WideTrend M.F))
      → t.samples < 2 ^ 32
      → samples_in k m rows < 2 ^ 32
      → samples_in k m (pivot_known M n t rows) ≡ (samples_in k m rows + share k m t n) % 2 ^ 32
  pivot_known-samples k m t none rows h l = omega arith
  pivot_known-samples k m t (some n) rows h l =
      let v = add_trend M n t (row_or M (lookup (key_of M t) rows)) in
      let found = lookup-insert (key_of M t) k v rows in
      elim (Bool-cases (key_of M t == k)) [
        | inr e ↦
            ap (row_samples m) (found ∙ ap (λ (b : Bool). if b then some v else lookup k rows) e)
            ∙ rw e (omega arith)
        | inl e ↦
            let stored =
              ap (row_samples m)
                (found ∙ ap (λ (b : Bool). if b then some v else lookup k rows) e) in
            let same : key_of M t ≡ k = (pair_eq.test_iff (key_of M t) k).0 e in
            elim (Bool-cases (n == m)) [
              | inl f ↦
                  let metric : n ≡ m = (metric_eq.test_iff n m).0 f in
                  let shared : share k m t (some n) ≡ t.samples = rw (e, f) refl in
                  stored
                  ∙ ap
                      (λ j.
                        row_samples m
                          (some (add_trend M j t (row_or M (lookup (key_of M t) rows)))))
                      metric
                  ∙ add_trend-same m t (lookup (key_of M t) rows) h
                  ∙ ap (λ (j : RowKey). (row_samples m (lookup j rows) + t.samples) % 2 ^ 32) same
                  ∙ ap (λ x. (samples_in k m rows + x) % 2 ^ 32) (sym shared)
              | inr f ↦
                  let shared : share k m t (some n) ≡ 0 = rw (e, f) refl in
                  stored
                  ∙ add_trend-other n m t (lookup (key_of M t) rows) f
                  ∙ ap (λ (j : RowKey). row_samples m (lookup j rows)) same
                  ∙ omega (arith, shared, l)
            ]
      ]

  pivot_onto-samples :
      (k : RowKey) (m : Metric) (rows : List (RowKey × WideTrend M.F))
      (ts : List (ContainerTrend M.F))
      → All (λ (t : ContainerTrend M.F). t.samples < 2 ^ 32) ts
      → samples_in k m rows < 2 ^ 32
      → samples_in k m (pivot_onto M rows ts) ≡ (samples_in k m rows + total k m ts) % 2 ^ 32
  unfolding pivot_onto
  pivot_onto-samples k m rows [] h l = omega arith
  pivot_onto-samples k m rows (t ∷ ts) (h, hs) l =
      let step = pivot_known-samples k m t (metric_of M t) rows h l in
      let next = pivot_known M (metric_of M t) t rows in
      let ih = pivot_onto-samples k m next ts hs (omega (arith, step)) in omega (arith, ih, step)

  -- For each container, bucket and metric the wide rows hold as many samples as the rollups of it do
  -- together, modulo the size of a `u32`: merging loses none and counts none twice.
  pub pivot_trends-samples :
      (k : RowKey) (m : Metric) (ts : List (ContainerTrend M.F))
      → All (λ (t : ContainerTrend M.F). t.samples < 2 ^ 32) ts
      → samples_in k m (pivot_trends M ts) ≡ total k m ts % 2 ^ 32
  unfolding pivot_trends
  pivot_trends-samples k m ts h =
      let onto = pivot_onto-samples k m [] ts h (omega arith) in omega (arith, onto)
