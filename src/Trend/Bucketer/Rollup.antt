-- ===== src/Trend/Bucketer/Rollup.antt =====
-- What a flush emits: the rollup of each container and metric over the whole bucket.
use dockdoe.Prelude.{
  ℕ, ◌-◌, ◌%◌, ◌<◌, ◌≤◌, ◌≡◌, refl, sym, ap, ◌∙◌, Bool, Option, none, some, List, [], ◌∷◌, ◌++◌,
  if◌then◌else◌, ◌==◌, ◌&&◌, Text, text_eq, pair_eq, pair_beq_iff, lookup, insert, lookup-insert,
  arith, append-nil, append_assoc, All, select, Bool-cases, inl, inr, subst,
}
use dockdoe.Model.{ContainerMetrics}
use dockdoe.Float.{Float}
use dockdoe.Store.Metrics.{
  Metric, cpu, mem, net_rx, net_tx, disk_read, disk_write, metric_eq, as_str, as_str_beq,
  ContainerTrend,
}
use dockdoe.Trend.Stats.{stats_from, Stats}
use dockdoe.Trend.Bucketer.{
  Key, Bucketer, Acc, as_f64, push_value, push_reading, push_container, push_containers, push,
  close, cons_row,
}
use dockdoe.Trend.Bucketer.Samples.{values_of, samples, push_containers-values}

module _ (M : Float) where
  abbrev pub DistinctKeys : List (Key × Acc M) → Type 0
  DistinctKeys [] = Unit
  DistinctKeys ((k, a) ∷ accs) = (lookup k accs ≡ none) × DistinctKeys accs

  insert-DistinctKeys :
      (k : Key) (a : Acc M) (accs : List (Key × Acc M))
      → DistinctKeys accs
      → DistinctKeys (insert k a accs)
  insert-DistinctKeys k a [] h = (refl, tt)
  insert-DistinctKeys k a ((j, w) ∷ accs) h = elim (Bool-cases (j == k)) [
    | inl e ↦ rw e (subst (λ i. lookup i accs ≡ none) ((pair_beq_iff j k).0 e) h.0, h.1)
    | inr e ↦ rw e (
      lookup-insert k j a accs ∙ ground (arith, pair_beq_iff j k, pair_beq_iff k j),
      insert-DistinctKeys k a accs h.1,
    )
  ]

  push_reading-DistinctKeys :
      (c : ContainerMetrics M.F) (m : Metric) (r : Option M.F) (accs : List (Key × Acc M))
      → DistinctKeys accs
      → DistinctKeys (push_reading M c m r accs)
  unfolding push_value
  push_reading-DistinctKeys c m none accs h = h
  push_reading-DistinctKeys c m (some v) accs h = insert-DistinctKeys (c.id, m) _ accs h

  push_container-DistinctKeys :
      (c : ContainerMetrics M.F) (accs : List (Key × Acc M))
      → DistinctKeys accs
      → DistinctKeys (push_container M c accs)
  unfolding push_container
  push_container-DistinctKeys c accs h =
      let a1 = push_reading M c cpu c.cpu_percent accs in
      let a2 = push_reading M c mem (as_f64 M c.mem_used) a1 in
      let a3 = push_reading M c net_rx c.net_rx_bps a2 in
      let a4 = push_reading M c net_tx c.net_tx_bps a3 in
      let a5 = push_reading M c disk_read c.disk_read_bps a4 in
      let h1 = push_reading-DistinctKeys c cpu c.cpu_percent accs h in
      let h2 = push_reading-DistinctKeys c mem (as_f64 M c.mem_used) a1 h1 in
      let h3 = push_reading-DistinctKeys c net_rx c.net_rx_bps a2 h2 in
      let h4 = push_reading-DistinctKeys c net_tx c.net_tx_bps a3 h3 in
      let h5 = push_reading-DistinctKeys c disk_read c.disk_read_bps a4 h4 in
      push_reading-DistinctKeys c disk_write c.disk_write_bps a5 h5

  pub push_containers-DistinctKeys :
      (cs : List (ContainerMetrics M.F)) (accs : List (Key × Acc M))
      → DistinctKeys accs
      → DistinctKeys (push_containers M cs accs)
  unfolding push_containers
  push_containers-DistinctKeys [] accs h = h
  push_containers-DistinctKeys (c ∷ cs) accs h =
      push_containers-DistinctKeys cs (push_container M c accs)
        (push_container-DistinctKeys c accs h)

  -- The rows of a flush that belong to one container and metric.
  abbrev pub is_row_of : Key → ContainerTrend M.F → Bool
  is_row_of key r = r.id == key.0 && r.metric == as_str key.1

  abbrev pub rows_of : Key → List (ContainerTrend M.F) → List (ContainerTrend M.F)
  rows_of key rows = select (is_row_of key) rows

  rows_of-cons_row :
      (b : Bucketer M.F) (start : ℕ) (key j : Key) (a : Acc M) (s : Option (Stats M.F))
      (rows : List (ContainerTrend M.F))
      → rows_of key (cons_row M b start j a s rows)
        ≡ (if j == key then cons_row M b start j a s (rows_of key rows) else rows_of key rows)
  rows_of-cons_row b start key j a none rows = ground arith
  rows_of-cons_row b start key j a (some s) rows = ground (arith, as_str_beq j.1 key.1)

  pub rows_of-close_absent :
      (b : Bucketer M.F) (start : ℕ) (key : Key) (accs : List (Key × Acc M))
      → lookup key accs ≡ none
      → rows_of key (close M b start accs) ≡ []
  unfolding close
  rows_of-close_absent b start key [] h = refl
  rows_of-close_absent b start key ((j, a) ∷ accs) h = ground (
    arith,
    rows_of-cons_row b start key j a (stats_from M a.values) (close M b start accs),
    rows_of-close_absent b start key accs,
  )

  pub rows_of-close :
      (b : Bucketer M.F) (start : ℕ) (key : Key) (accs : List (Key × Acc M)) (a : Acc M)
      → DistinctKeys accs
      → lookup key accs ≡ some a
      → rows_of key (close M b start accs) ≡ cons_row M b start key a (stats_from M a.values) []
  unfolding close
  rows_of-close b start key [] a d h = cc
  rows_of-close b start key ((j, w) ∷ accs) a d h = elim (Bool-cases (j == key)) [
    | inl e ↦
        let same = (pair_beq_iff j key).0 e in
        let none_left = rows_of-close_absent b start key accs (rw (← same) d.0) in
        ground (
          arith,
          rows_of-cons_row b start key j w (stats_from M w.values) (close M b start accs),
          none_left,
        )
    | inr e ↦
        rows_of-cons_row b start key j w (stats_from M w.values) (close M b start accs)
        ∙ rw (e, if◌then◌else◌) (rows_of-close b start key accs a d.1 (ground arith))
  ]

  -- The pushes of one bucket, in order: times and snapshots.
  abbrev pub Cycle : Type 0
  Cycle = ℕ × List (ContainerMetrics M.F)

  unfoldable pub fill : Bucketer M.F → List Cycle → Bucketer M.F
  unfolding push
  fill b [] = b
  fill b ((ts_ms, cs) ∷ cycles) = fill (push M b ts_ms cs).0 cycles

  -- No cycle starts a bucket later than `cur`.
  abbrev pub Within : ℕ → ℕ → List Cycle → Type 0
  Within bucket_ms cur cycles = All (λ (c : Cycle). c.0 - c.0 % bucket_ms ≤ cur) cycles

  -- All values fed for a key, in order.
  abbrev pub fed : Key → List Cycle → List M.F
  fed key [] = []
  fed key ((ts_ms, cs) ∷ cycles) = samples M key cs ++ fed key cycles

  abbrev pub feed : List Cycle → List (Key × Acc M) → List (Key × Acc M)
  feed [] accs = accs
  feed ((ts_ms, cs) ∷ cycles) accs = feed cycles (push_containers M cs accs)

  push_within :
      (b : Bucketer M.F) (cur ts_ms : ℕ) (cs : List (ContainerMetrics M.F))
      → b.current_start ≡ some cur
      → ts_ms - ts_ms % b.bucket_ms ≤ cur
      → push M b ts_ms cs ≡ (record b { containers = push_containers M cs b.containers }, [])
  unfolding push
  push_within b cur ts_ms cs h le = ground arith

  pub fill-feed :
      (b : Bucketer M.F) (cur : ℕ) (cycles : List Cycle)
      → b.current_start ≡ some cur
      → Within b.bucket_ms cur cycles
      → fill b cycles ≡ record b { containers = feed cycles b.containers }
  unfolding fill
  fill-feed b cur [] h w = refl
  fill-feed b cur ((ts_ms, cs) ∷ cycles) h w =
      ap (λ (r : Bucketer M.F × List (ContainerTrend M.F)). fill r.0 cycles)
        (push_within b cur ts_ms cs h w.0)
      ∙ fill-feed (record b { containers = push_containers M cs b.containers }) cur cycles h w.1

  pub feed-DistinctKeys :
      (cycles : List Cycle) (accs : List (Key × Acc M))
      → DistinctKeys accs
      → DistinctKeys (feed cycles accs)
  feed-DistinctKeys [] accs d = d
  feed-DistinctKeys ((ts_ms, cs) ∷ cycles) accs d =
      feed-DistinctKeys cycles (push_containers M cs accs) (push_containers-DistinctKeys cs accs d)

  pub feed-values :
      (cycles : List Cycle) (id : Text) (m : Metric) (accs : List (Key × Acc M))
      → values_of M (lookup (id, m) (feed cycles accs))
        ≡ values_of M (lookup (id, m) accs) ++ fed (id, m) cycles
  feed-values [] id m accs = sym (append-nil _)
  feed-values ((ts_ms, cs) ∷ cycles) id m accs =
      feed-values cycles id m (push_containers M cs accs)
      ∙ ap (λ l. l ++ fed (id, m) cycles) (push_containers-values M cs id m accs)
      ∙ append_assoc (values_of M (lookup (id, m) accs)) (samples M (id, m) cs) (fed (id, m) cycles)

  pub push_across :
      (b : Bucketer M.F) (cur ts_ms : ℕ) (cs : List (ContainerMetrics M.F))
      → b.current_start ≡ some cur
      → cur < ts_ms - ts_ms % b.bucket_ms
      → push M b ts_ms cs ≡ (
        record b {
          current_start = some (ts_ms - ts_ms % b.bucket_ms);
          containers = push_containers M cs [];
        },
        close M b cur b.containers,
      )
  unfolding push
  push_across b cur ts_ms cs h lt = ground arith
