-- ===== src/Store/Retention.antt =====
-- src/store.rs: a prune takes what is older than its cutoff, and nothing that a later request reads.
use dockdoe.Prelude.{
  ℕ, ◌+◌, ◌≤◌, ◌≡◌, ap, arith, Bool, true, not, ◌&&◌, List, map, length, length-partition,
  select-select, All, All-select, All-map_imp, ltb, leb, ◌==◌, text_eq, option_eq, some, Text,
  sort_by,
}
use dockdoe.Float.{Float}
use dockdoe.Store.Tables.{to_db, SampleRow, TrendRow, Trends}
use dockdoe.Store.Rows.{RowKey}
use dockdoe.Store.Raw.{aged_out, prune_raw, recent_container_samples, collect_points, later, seeds}
use dockdoe.Store.History.{
  Engine, raw_columns, envelope_columns, row_columns, group_width, downsample, bucket_start,
  in_window, history_container_raw, history_container, history_stack, recent_stack_trends,
  per_bucket, summed, trend_point,
}
use dockdoe.Store.Upsert.{trend_aged_out, prune_trends}

late-stays :
    (a b : Bool) (before since t : ℕ)
    → before ≤ since
    → (a && b && leb (to_db since) t) ≡ true
    → not (ltb t (to_db before)) ≡ true
late-stays a b before since t l h = ground (arith, l, h)

in_window-stays :
    (a b : Bool) (before since until t : ℕ)
    → before ≤ since
    → (a && b && in_window since until t) ≡ true
    → not (ltb t (to_db before)) ≡ true
in_window-stays a b before since until t l h = ground (arith, l, h)

pub prune_raw-recent :
    {F : Type 0} (host id : Text) (before since : ℕ)
    → before ≤ since
    → (rows : List (SampleRow F))
    → recent_container_samples host id since (prune_raw before rows).0
      ≡ recent_container_samples host id since rows
unfolding prune_raw recent_container_samples
prune_raw-recent host id before since l rows =
    ap (λ s. collect_points (sort_by later s))
      (select-select (seeds host id since) (λ r. not (aged_out before r)) rows
        (λ r h. late-stays (r.host == host) (r.id == id) before since r.ts_ms l h))

module _ (M : Float) (E : Engine M.F) (host name : Text) (before since until group : ℕ)
    (l : before ≤ since) where
  pub prune_raw-history :
      (rows : List (SampleRow M.F))
      → history_container_raw M E host name since until group (prune_raw before rows).0
        ≡ history_container_raw M E host name since until group rows
  unfolding prune_raw history_container_raw
  prune_raw-history rows = ap (downsample (raw_columns M E) (λ r. r.ts_ms) (group_width group)) (
      select-select (λ r. r.host == host && r.id == name && in_window since until r.ts_ms)
        (λ (r : SampleRow M.F). not (aged_out before r)) rows
        (λ r h. in_window-stays (r.host == host) (r.id == name) before since until r.ts_ms l h))

  pub prune_trends-reads :
      (rows : Trends M.F)
      → (history_container M E host name since until group (prune_trends before rows).0
          ≡ history_container M E host name since until group rows)
        × (history_stack M E host name since until group (prune_trends before rows).0
            ≡ history_stack M E host name since until group rows)
        × (recent_stack_trends M E host name since (prune_trends before rows).0
            ≡ recent_stack_trends M E host name since rows)
  unfolding prune_trends history_container history_stack recent_stack_trends
  prune_trends-reads rows =
      let stays = λ (r : RowKey × TrendRow M.F). not (trend_aged_out before r) in
      (
        ap
            (downsample (λ g. envelope_columns M E (map row_columns g)) bucket_start
              (group_width group))
            (select-select
              (λ (r : RowKey × TrendRow M.F).
                r.0.0 == host && r.0.1.0 == name && in_window since until (bucket_start r))
              stays rows
              (λ r h.
                in_window-stays (r.0.0 == host) (r.0.1.0 == name) before since until
                  (bucket_start r) l h)),
        ap
            (λ s.
              downsample (λ g. envelope_columns M E (map (summed M E) g))
                (λ (b : ℕ × Trends M.F). b.0) (group_width group) (per_bucket M E s))
            (select-select
              (λ (r : RowKey × TrendRow M.F).
                r.0.0 == host && r.1.stack == some name && in_window since until (bucket_start r))
              stays rows
              (λ r h.
                in_window-stays (r.0.0 == host) (r.1.stack == some name) before since until
                  (bucket_start r) l h)),
        ap (λ s. map (trend_point M E) (per_bucket M E s))
            (select-select
              (λ (r : RowKey × TrendRow M.F).
                r.0.0 == host && r.1.stack == some name && leb (to_db since) (bucket_start r))
              stays rows
              (λ r h.
                late-stays (r.0.0 == host) (r.1.stack == some name) before since (bucket_start r) l
                  h)),
      )

module _ {F : Type 0} where
  -- The rows that a prune leaves are those from the cutoff on, and it counts the others.
  pub prune_raw-rows :
      (before : ℕ) (rows : List (SampleRow F))
      → All (λ (r : SampleRow F). to_db before ≤ r.ts_ms) (prune_raw before rows).0
        × ((prune_raw before rows).1 + length (prune_raw before rows).0 ≡ length rows)
  unfolding prune_raw
  prune_raw-rows before rows = (
    All-map_imp (λ (r : SampleRow F). not (aged_out before r) ≡ true) (λ r. to_db before ≤ r.ts_ms)
        (λ r h. ground (arith, h)) _ (All-select (λ r. not (aged_out before r)) rows),
    length-partition (aged_out before) rows,
  )
