-- ===== src/Trend/Bucketer/Samples.antt =====
-- What the accumulators hold: for each container and metric the values fed since the last flush.
use dockdoe.Prelude.{
  ◌≡◌, refl, sym, ap, ◌∙◌, Bool, true, false, Option, none, some, List, [], ◌∷◌, ◌++◌,
  if◌then◌else◌, ◌==◌, Text, text_eq, pair_eq, pair_beq_iff, lookup, lookup-insert, arith,
  append-nil, append_assoc,
}
use dockdoe.Model.{ContainerMetrics}
use dockdoe.Float.{Float}
use dockdoe.Store.Metrics.{Metric, cpu, mem, net_rx, net_tx, disk_read, disk_write, metric_eq}
use dockdoe.Trend.Bucketer.{
  acc_or, Key, Acc, as_f64, push_value, push_reading, push_container, push_containers,
}

module _ (M : Float) where
  -- What a container of the snapshot reports for a metric.
  abbrev pub reading : ContainerMetrics M.F → Metric → Option M.F
  reading c cpu = c.cpu_percent
  reading c mem = as_f64 M c.mem_used
  reading c net_rx = c.net_rx_bps
  reading c net_tx = c.net_tx_bps
  reading c disk_read = c.disk_read_bps
  reading c disk_write = c.disk_write_bps

  abbrev pub one : Option M.F → List M.F
  one none = []
  one (some v) = v ∷ []

  -- The values of a snapshot for one key, in order.
  abbrev pub samples : Key → List (ContainerMetrics M.F) → List M.F
  samples key [] = []
  samples key (c ∷ cs) =
      if c.id == key.0 then one (reading c key.1) ++ samples key cs else samples key cs

  abbrev pub values_of : Option (Acc M) → List M.F
  values_of none = []
  values_of (some a) = a.values

  push_reading-values :
      (c : ContainerMetrics M.F) (m : Metric) (r : Option M.F) (key : Key)
      (accs : List (Key × Acc M))
      → values_of (lookup key (push_reading M c m r accs)) ≡ (
          if (c.id, m) == key
          then values_of (lookup key accs) ++ one r
          else values_of (lookup key accs))
  unfolding push_value
  push_reading-values c m none key accs = ground (arith, append-nil (values_of (lookup key accs)))
  push_reading-values c m (some v) key accs =
      let a = acc_or M c (lookup (c.id, m) accs) in
      ground (
        arith,
        pair_beq_iff (c.id, m) key,
        lookup-insert (c.id, m) key (record a { values = a.values ++ v ∷ [] }) accs,
      )

  -- One reading of a container, at the key `(id, m)`.
  reading_step :
      (c : ContainerMetrics M.F) (k : Metric) (r : Option M.F) (id : Text) (m : Metric)
      (accs : List (Key × Acc M))
      → values_of (lookup (id, m) (push_reading M c k r accs))
        ≡ values_of (lookup (id, m) accs)
          ++ (if c.id == id then (if k == m then one r else []) else [])
  reading_step c k r id m accs =
      ground (
        arith,
        push_reading-values c k r (id, m) accs,
        append-nil (values_of (lookup (id, m) accs)),
      )

  push_container-values :
      (c : ContainerMetrics M.F) (id : Text) (m : Metric) (accs : List (Key × Acc M))
      → values_of (lookup (id, m) (push_container M c accs))
        ≡ values_of (lookup (id, m) accs) ++ (if c.id == id then one (reading c m) else [])
  unfolding push_container
  push_container-values c id m accs =
      let a1 = push_reading M c cpu c.cpu_percent accs in
      let a2 = push_reading M c mem (as_f64 M c.mem_used) a1 in
      let a3 = push_reading M c net_rx c.net_rx_bps a2 in
      let a4 = push_reading M c net_tx c.net_tx_bps a3 in
      let a5 = push_reading M c disk_read c.disk_read_bps a4 in
      rw
        (
          reading_step c disk_write c.disk_write_bps id m a5,
          reading_step c disk_read c.disk_read_bps id m a4,
          reading_step c net_tx c.net_tx_bps id m a3,
          reading_step c net_rx c.net_rx_bps id m a2,
          reading_step c mem (as_f64 M c.mem_used) id m a1,
          reading_step c cpu c.cpu_percent id m accs,
        )
        (collapse (c.id == id) m)
    where
      collapse :
          (b : Bool) (m : Metric)
          → (((((values_of (lookup (id, m) accs)
                        ++ (if b then (if cpu == m then one c.cpu_percent else []) else []))
                      ++ (if b then (if mem == m then one (as_f64 M c.mem_used) else []) else []))
                    ++ (if b then (if net_rx == m then one c.net_rx_bps else []) else []))
                  ++ (if b then (if net_tx == m then one c.net_tx_bps else []) else []))
                ++ (if b then (if disk_read == m then one c.disk_read_bps else []) else []))
              ++ (if b then (if disk_write == m then one c.disk_write_bps else []) else [])
            ≡ values_of (lookup (id, m) accs) ++ (if b then one (reading c m) else [])
      collapse true cpu = simp append-nil
      collapse true mem = simp append-nil
      collapse true net_rx = simp append-nil
      collapse true net_tx = simp append-nil
      collapse true disk_read = simp append-nil
      collapse true disk_write = simp append-nil
      collapse false m = simp append-nil

  -- Feeding a snapshot appends, at each key, that container's readings of that metric in order.
  pub push_containers-values :
      (cs : List (ContainerMetrics M.F)) (id : Text) (m : Metric) (accs : List (Key × Acc M))
      → values_of (lookup (id, m) (push_containers M cs accs))
        ≡ values_of (lookup (id, m) accs) ++ samples (id, m) cs
  unfolding push_containers
  push_containers-values [] id m accs = sym (append-nil _)
  push_containers-values (c ∷ cs) id m accs =
      push_containers-values cs id m (push_container M c accs)
      ∙ ap (λ l. l ++ samples (id, m) cs) (push_container-values c id m accs)
      ∙ append_assoc (values_of (lookup (id, m) accs)) _ (samples (id, m) cs)
      ∙ ap (λ l. values_of (lookup (id, m) accs) ++ l) (merge (c.id == id))
    where
      merge :
          (b : Bool)
          → (if b then one (reading c m) else []) ++ samples (id, m) cs
            ≡ (if b then one (reading c m) ++ samples (id, m) cs else samples (id, m) cs)
      merge true = refl
      merge false = refl
