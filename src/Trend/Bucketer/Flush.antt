-- ===== src/Trend/Bucketer/Flush.antt =====
-- The bucketer through whole buckets: its invariant, and the rollup that closing a bucket emits.
use dockdoe.Prelude.{
  ℕ, ◌-◌, ◌%◌, ◌<◌, ◌≡◌, refl, ap, ◌∙◌, Option, none, some, List, [], ◌++◌, Text, text_eq, pair_eq,
  lookup, arith, Option-cases, inl, inr, Bool-cases, ltb, subst,
}
use dockdoe.Model.{ContainerMetrics}
use dockdoe.Float.{Float}
use dockdoe.Store.Metrics.{Metric, metric_eq, ContainerTrend}
use dockdoe.Trend.Stats.{stats_from}
use dockdoe.Trend.Bucketer.{Key, Bucketer, Acc, push, turn, close, cons_row}
use dockdoe.Trend.Bucketer.Samples.{values_of, samples, push_containers-values}
use dockdoe.Trend.Bucketer.Rollup.{
  DistinctKeys, push_containers-DistinctKeys, rows_of, rows_of-close, rows_of-close_absent, Cycle,
  fill, Within, fed, feed, fill-feed, feed-DistinctKeys, feed-values, push_across,
}

mod_le : (t k : ℕ) → 0 < k → (t - t % k) % k ≡ 0
mod_le t k h = grind arith

module _ (M : Float) where
  abbrev pub AlignedTo : ℕ → Option ℕ → Type 0
  AlignedTo k none = Unit
  AlignedTo k (some start) = start % k ≡ 0

  -- The open bucket starts at a multiple of the bucket's width, and every key has one accumulator.
  pub record IsWellFormed (b : Bucketer M.F) : Type 0 where
    pub width : 0 < b.bucket_ms
    pub aligned : AlignedTo b.bucket_ms b.current_start
    pub distinct : DistinctKeys M b.containers

  turn-IsWellFormed :
      (b : Bucketer M.F) (ts_ms : ℕ) (open_start : Option ℕ)
      → b.current_start ≡ open_start
      → IsWellFormed b
      → IsWellFormed (turn M b (ts_ms - ts_ms % b.bucket_ms) open_start).0
  unfolding turn
  turn-IsWellFormed b ts_ms none e w = record {
    width = w.width;
    aligned = mod_le ts_ms b.bucket_ms w.width;
    distinct = w.distinct;
  }
  turn-IsWellFormed b ts_ms (some cur) e w =
      elim (Bool-cases (ltb cur (ts_ms - ts_ms % b.bucket_ms))) [
        | inl late ↦
            rw late (record {
              width = w.width;
              aligned = mod_le ts_ms b.bucket_ms w.width;
              distinct = tt;
            })
        | inr same ↦ rw same w
      ]

  -- Every push keeps the bucketer well formed.
  pub push-IsWellFormed :
      (b : Bucketer M.F) (ts_ms : ℕ) (cs : List (ContainerMetrics M.F))
      → IsWellFormed b
      → IsWellFormed (push M b ts_ms cs).0
  unfolding push
  push-IsWellFormed b ts_ms cs w =
      let b' = (turn M b (ts_ms - ts_ms % b.bucket_ms) b.current_start).0 in
      let w' = turn-IsWellFormed b ts_ms b.current_start refl w in
      record {
        width = w'.width;
        aligned = w'.aligned;
        distinct = push_containers-DistinctKeys M cs b'.containers w'.distinct;
      }

  abbrev pub Rollup : Bucketer M.F → ℕ → Key → List M.F → List (ContainerTrend M.F) → Type 0
  Rollup b cur key values rows =
      (acc : Acc M) × (acc.values ≡ values)
      × (rows ≡ cons_row M b cur key acc (stats_from M acc.values) [])

  Rollup-of_close :
      (b : Bucketer M.F) (cur : ℕ) (key : Key) (accs : List (Key × Acc M))
      → DistinctKeys M accs
      → Rollup b cur key (values_of M (lookup key accs)) (rows_of M key (close M b cur accs))
  unfolding stats_from
  Rollup-of_close b cur key accs d = elim (Option-cases (lookup key accs)) [
    | inl e ↦ (
      record { name = []; stack = none; values = [] },
      rw e refl,
      rows_of-close_absent M b cur key accs e,
    )
    | inr (a, e) ↦ (a, rw e refl, rows_of-close M b cur key accs a d e)
  ]

  -- Cycles that fall into the open bucket, or before it, and then one of a later bucket: for each
  -- container and metric the flush of that push holds one row, the rollup of exactly the values fed
  -- to the bucket, or no row if `Stats::from` gives none; and the new bucket holds what the last
  -- cycle reports and nothing else.
  pub flush-Rollup :
      (b : Bucketer M.F) (cur : ℕ) (cycles : List (Cycle M)) (ts_ms : ℕ)
      (cs : List (ContainerMetrics M.F)) (id : Text) (m : Metric)
      → b.current_start ≡ some cur
      → DistinctKeys M b.containers
      → Within M b.bucket_ms cur cycles
      → cur < ts_ms - ts_ms % b.bucket_ms
      → Rollup b cur
          (id, m)
          (values_of M (lookup (id, m) b.containers) ++ fed M (id, m) cycles)
          (rows_of M (id, m) (push M (fill M b cycles) ts_ms cs).1)
        × (values_of M (lookup (id, m) (push M (fill M b cycles) ts_ms cs).0.containers)
            ≡ samples M (id, m) cs)
  flush-Rollup b cur cycles ts_ms cs id m h d w lt =
      let full = record b { containers = feed M cycles b.containers } in
      let e : push M (fill M b cycles) ts_ms cs ≡ push M full ts_ms cs =
        ap (λ s. push M s ts_ms cs) (fill-feed M b cur cycles h w) in
      let across = e ∙ push_across M full cur ts_ms cs h lt in
      rw across (
        subst (λ vs. Rollup b cur (id, m) vs (rows_of M (id, m) (close M full cur full.containers)))
            (feed-values M cycles id m b.containers)
            (Rollup-of_close full cur (id, m) full.containers
              (feed-DistinctKeys M cycles b.containers d)),
        push_containers-values M cs id m [],
      )
