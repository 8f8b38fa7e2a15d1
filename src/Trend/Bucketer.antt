-- ===== src/Trend/Bucketer.antt =====
-- src/trend.rs: the bucketer of one host.
use dockdoe.Prelude.{
  ℕ, zero, suc, ◌+◌, ◌-◌, ◌*◌, ◌/◌, ◌%◌, ◌^◌, ◌≤◌, ◌<◌, max, ◌≡◌, refl, Bool, true, false, Option,
  none, some, List, [], ◌∷◌, ◌++◌, if◌then◌else◌, length, ◌==◌, nat_eq, ltb, Text, text_eq, pair_eq,
  lookup, insert,
}
use dockdoe.Model.{ContainerMetrics}
use dockdoe.Float.{Float}
use dockdoe.Store.Metrics.{
  Metric, cpu, mem, net_rx, net_tx, disk_read, disk_write, metric_eq, as_str, ContainerTrend,
}
use dockdoe.Trend.Stats.{Stats, stats_from}
pub mod Samples
pub mod Rollup
pub mod Flush
mod Tests

pub record ContainerAcc (F : Type 0) : Type 0 where
  pub name : Text
  pub stack : Option Text
  pub values : List F

abbrev pub Key : Type 0
Key = Text × Metric

pub record Bucketer (F : Type 0) : Type 0 where
  pub bucket_ms : ℕ
  pub host : Text
  pub current_start : Option ℕ
  pub containers : List (Key × ContainerAcc F)

-- The product is a `u64`, which wraps in a release build.
unfoldable pub new : {F : Type 0} → ℕ → Text → Bucketer F
new bucket_secs host = record {
  bucket_ms = max bucket_secs 1 * 1000 % 2 ^ 64;
  host = host;
  current_start = none;
  containers = [];
}

module _ (M : Float) where
  abbrev pub Acc : Type 0
  Acc = ContainerAcc M.F

  abbrev pub fresh_acc : ContainerMetrics M.F → Acc
  fresh_acc c = record { name = c.name; stack = c.stack; values = [] }

  abbrev pub acc_or : ContainerMetrics M.F → Option Acc → Acc
  acc_or c none = fresh_acc c
  acc_or c (some a) = a

  -- `self.acc(c, metric).push(v)`.
  unfoldable pub push_value :
      ContainerMetrics M.F → Metric → M.F → List (Key × Acc) → List (Key × Acc)
  push_value c m v accs =
      let a = acc_or c (lookup (c.id, m) accs) in
      insert (c.id, m) (record a { values = a.values ++ v ∷ [] }) accs

  abbrev pub push_reading :
      ContainerMetrics M.F → Metric → Option M.F → List (Key × Acc) → List (Key × Acc)
  push_reading c m none accs = accs
  push_reading c m (some v) accs = push_value c m v accs

  -- `v as f64`.
  abbrev pub as_f64 : Option ℕ → Option M.F
  as_f64 none = none
  as_f64 (some v) = some (M.of_u64 v)

  unfoldable pub push_container : ContainerMetrics M.F → List (Key × Acc) → List (Key × Acc)
  push_container c accs =
      let a1 = push_reading c cpu c.cpu_percent accs in
      let a2 = push_reading c mem (as_f64 c.mem_used) a1 in
      let a3 = push_reading c net_rx c.net_rx_bps a2 in
      let a4 = push_reading c net_tx c.net_tx_bps a3 in
      let a5 = push_reading c disk_read c.disk_read_bps a4 in
      push_reading c disk_write c.disk_write_bps a5

  unfoldable pub push_containers : List (ContainerMetrics M.F) → List (Key × Acc) → List (Key × Acc)
  unfolding push_container
  push_containers [] accs = accs
  push_containers (c ∷ cs) accs = push_containers cs (push_container c accs)

  abbrev pub trend_row : Bucketer M.F → ℕ → Key → Acc → Stats M.F → ContainerTrend M.F
  trend_row b start (id, metric) acc stats = record {
    bucket_start_ms = start;
    bucket_secs = b.bucket_ms / 1000;
    host = b.host;
    id = id;
    name = acc.name;
    stack = acc.stack;
    metric = as_str metric;
    min = stats.min;
    max = stats.max;
    median = stats.median;
    samples = stats.count;
  }

  abbrev pub cons_row :
      Bucketer M.F
      → ℕ
      → Key
      → Acc
      → Option (Stats M.F)
      → List (ContainerTrend M.F)
      → List (ContainerTrend M.F)
  cons_row b start key acc none rows = rows
  cons_row b start key acc (some stats) rows = trend_row b start key acc stats ∷ rows

  -- The rows of `close`; the accumulators are drained by its caller `push`.
  unfoldable pub close : Bucketer M.F → ℕ → List (Key × Acc) → List (ContainerTrend M.F)
  close b start [] = []
  close b start ((key, acc) ∷ accs) =
      cons_row b start key acc (stats_from M acc.values) (close b start accs)

  -- The match on `current_start`: the bucketer before the samples are fed, and the flushed rows.
  unfoldable pub turn : Bucketer M.F → ℕ → Option ℕ → Bucketer M.F × List (ContainerTrend M.F)
  unfolding close
  turn b start none = (record b { current_start = some start }, [])
  turn b start (some cur) =
      if ltb cur start
      then (record b { current_start = some start; containers = [] }, close b cur b.containers)
      else (b, [])

  unfoldable pub push :
      Bucketer M.F → ℕ → List (ContainerMetrics M.F) → Bucketer M.F × List (ContainerTrend M.F)
  unfolding turn push_containers
  push b ts_ms cs =
      let start = ts_ms - ts_ms % b.bucket_ms in
      let (b', flushed) = turn b start b.current_start in
      (record b' { containers = push_containers cs b'.containers }, flushed)
