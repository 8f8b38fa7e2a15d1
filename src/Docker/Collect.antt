-- ===== src/Docker/Collect.antt =====
-- src/docker.rs: one cycle of `collect`: the readings remembered for each container, and the metrics.
-- The two hash maps are association lists. The engine's answers are the cycle's input; the requests
-- have no effect on the client's state, so the order in which they run is left out.
use dockdoe.Prelude.{
  ℕ, ◌-◌, Bool, true, false, Option, none, some, List, [], ◌∷◌, if◌then◌else◌, ◌==◌, contains, Text,
  text_eq, lookup, insert, retain,
}
use dockdoe.Float.{Float, Order}
use dockdoe.Model.{ContainerMetrics}
use dockdoe.Docker.Counters.{
  CpuUsage, CpuStats, StatsSample, PrevCpu, PrevIo, IoRates, memory, network_totals, blkio_totals,
  as_secs_f64, rate, cpu_percent_from_deltas, online_cpus,
}
use dockdoe.Docker.Summary.{
  ContainerSummary, or_empty, id_of, is_running, display_name, compose_project, map_state,
  parse_health, ports,
}
pub mod Baselines
pub mod Cycles
mod Tests

-- `DockerClient` without the connection.
pub record DockerClient : Type 0 where
  pub prev_cpu : List (Text × PrevCpu)
  pub prev_io : List (Text × PrevIo)

abbrev pub usage_of : CpuStats → Option CpuUsage → Option ℕ → Option (CpuStats × PrevCpu)
usage_of stats none system = none
usage_of stats (some usage) none = none
usage_of stats (some usage) (some system) = elim usage.total_usage [
  | none ↦ none
  | some total ↦ some (stats, record { total_usage = total; system_usage = system })
]

-- The three `?` at the head of `cpu_percent`.
abbrev pub cpu_reading : Option CpuStats → Option (CpuStats × PrevCpu)
cpu_reading none = none
cpu_reading (some stats) = usage_of stats stats.cpu_usage stats.system_cpu_usage

unfoldable pub io_reading : StatsSample → ℕ → PrevIo
unfolding network_totals blkio_totals
io_reading stats now = record {
  net_rx = (network_totals stats).0;
  net_tx = (network_totals stats).1;
  disk_read = (blkio_totals stats).0;
  disk_write = (blkio_totals stats).1;
  at = now;
}

abbrev pub cons_some : Option Text → List Text → List Text
cons_some none ids = ids
cons_some (some id) ids = id ∷ ids

abbrev pub live_ids : List ContainerSummary → List Text
live_ids [] = []
live_ids (s ∷ ss) = cons_some s.id (live_ids ss)

unfoldable pub reap : List ContainerSummary → DockerClient → DockerClient
reap summaries c = record {
  prev_cpu = retain (λ id. contains (live_ids summaries) id) c.prev_cpu;
  prev_io = retain (λ id. contains (live_ids summaries) id) c.prev_io;
}

-- The map of the samples: `fetch` answers for a container, and only running ones are asked. `none` is
-- an error or an empty stream.
abbrev pub sampled_in :
    (Text → Option StatsSample) → List ContainerSummary → Text → Option StatsSample
sampled_in fetch [] id = none
sampled_in fetch (s ∷ ss) id =
    if is_running s
    then (if id_of s == id then fetch id else sampled_in fetch ss id)
    else sampled_in fetch ss id

-- What the engine answers in a cycle: the listing, `none` for an error, a sample for an id, and the
-- clock in nanoseconds.
pub record Cycle : Type 0 where
  pub listing : Option (List ContainerSummary)
  pub fetch : Text → Option StatsSample
  pub now : ℕ

abbrev pub is_less_or_equal : Option Order → Bool
is_less_or_equal (some Order.less) = true
is_less_or_equal (some Order.equal) = true
is_less_or_equal _ = false

module _ (M : Float) where
  -- `<=`.
  abbrev pub at_most : M.F → M.F → Bool
  at_most a b = is_less_or_equal (M.partial_cmp a b)

  abbrev pub no_rates : IoRates M.F
  no_rates = record { net_rx = none; net_tx = none; disk_read = none; disk_write = none }

  -- What follows the insertions, from the reading that they return.
  unfoldable pub cpu_between : Option PrevCpu → CpuStats × PrevCpu → Option M.F
  unfolding cpu_percent_from_deltas online_cpus
  cpu_between none reading = none
  cpu_between (some prev) (stats, now) =
      some (cpu_percent_from_deltas M prev now.total_usage now.system_usage (online_cpus M stats))

  unfoldable pub rates_between : Option PrevIo → PrevIo → IoRates M.F
  unfolding as_secs_f64
  rates_between none now = no_rates
  rates_between (some prev) now =
      let secs = as_secs_f64 M (now.at - prev.at) in
      if at_most secs M.zero then no_rates else record {
        net_rx = rate M now.net_rx prev.net_rx secs;
        net_tx = rate M now.net_tx prev.net_tx secs;
        disk_read = rate M now.disk_read prev.disk_read secs;
        disk_write = rate M now.disk_write prev.disk_write secs;
      }

  unfoldable pub cpu_percent :
      Text → StatsSample → List (Text × PrevCpu) → List (Text × PrevCpu) × Option M.F
  unfolding cpu_between
  cpu_percent id stats prev_cpu = elim (cpu_reading stats.cpu_stats) [
    | none ↦ (prev_cpu, none)
    | some reading ↦ (insert id reading.1 prev_cpu, cpu_between (lookup id prev_cpu) reading)
  ]

  unfoldable pub io_rates :
      Text → StatsSample → ℕ → List (Text × PrevIo) → List (Text × PrevIo) × IoRates M.F
  unfolding io_reading rates_between
  io_rates id stats now prev_io =
      let reading = io_reading stats now in
      (insert id reading prev_io, rates_between (lookup id prev_io) reading)

  unfoldable pub metrics_with :
      ContainerSummary → Option M.F → Option ℕ × Option ℕ → IoRates M.F → ContainerMetrics M.F
  unfolding display_name map_state parse_health compose_project ports
  metrics_with summary cpu_percent memory io = record {
    id = id_of summary;
    name = display_name summary;
    image = or_empty summary.image;
    state = map_state summary.state;
    health = parse_health (or_empty summary.status);
    stack = compose_project summary;
    status = or_empty summary.status;
    cpu_percent = cpu_percent;
    mem_used = memory.0;
    mem_limit = memory.1;
    net_rx_bps = io.net_rx;
    net_tx_bps = io.net_tx;
    disk_read_bps = io.disk_read;
    disk_write_bps = io.disk_write;
    ports = ports summary;
  }

  unfoldable pub build_metrics :
      ContainerSummary → Option StatsSample → ℕ → DockerClient → DockerClient × ContainerMetrics M.F
  unfolding cpu_percent io_rates metrics_with memory
  build_metrics summary none now c = (c, metrics_with summary none (none, none) no_rates)
  build_metrics summary (some sample) now c =
      let cpu = cpu_percent (id_of summary) sample c.prev_cpu in
      let io = io_rates (id_of summary) sample now c.prev_io in
      (record { prev_cpu = cpu.0; prev_io = io.0 }, metrics_with summary cpu.1 (memory sample) io.1)

  -- The last loop of `collect`; `sample` is the map of the samples.
  unfoldable pub build_all :
      (Text → Option StatsSample)
      → ℕ
      → List ContainerSummary
      → DockerClient
      → DockerClient × List (ContainerMetrics M.F)
  unfolding build_metrics
  build_all sample now [] c = (c, [])
  build_all sample now (s ∷ ss) c =
      let built = build_metrics s (sample (id_of s)) now c in
      let rest = build_all sample now ss built.0 in (rest.0, built.1 ∷ rest.1)

  abbrev pub collected :
      DockerClient × List (ContainerMetrics M.F)
      → DockerClient × Option (List (ContainerMetrics M.F))
  collected (c, out) = (c, some out)

  unfoldable pub collect :
      Cycle → DockerClient → DockerClient × Option (List (ContainerMetrics M.F))
  unfolding reap build_all
  collect cycle c = elim cycle.listing [
    | none ↦ (c, none)
    | some summaries ↦
        collected
          (build_all (sampled_in cycle.fetch summaries) cycle.now summaries (reap summaries c))
  ]
