-- ===== src/Docker/Counters.antt =====
-- src/docker.rs: the cumulative counters of a stats sample, and the rates between two readings. A
-- sample holds what the code reads of the `bollard` types; a map of which only the values are read is
-- the list of its values. `u32` and `u64` values are natural numbers, sums of them saturate.
use dockdoe.Prelude.{
  ℕ, ◌+◌, ◌-◌, ◌/◌, ◌%◌, min, Bool, true, false, ◌||◌, Option, none, some, List, [], ◌∷◌,
  if◌then◌else◌, ◌==◌, nat_eq, u64_max, length, Text, text, text_eq, eq_ignore_ascii_case, lookup,
}
use dockdoe.Float.{Float, gt}
pub mod Totals
mod Tests

pub record CpuUsage : Type 0 where
  pub total_usage : Option ℕ
  pub percpu_usage : Option (List ℕ)

pub record CpuStats : Type 0 where
  pub cpu_usage : Option CpuUsage
  pub system_cpu_usage : Option ℕ
  pub online_cpus : Option ℕ

pub record MemoryStats : Type 0 where
  pub usage : Option ℕ
  pub limit : Option ℕ
  pub stats : Option (List (Text × ℕ))

pub record NetworkStats : Type 0 where
  pub rx_bytes : Option ℕ
  pub tx_bytes : Option ℕ

pub record BlkioEntry : Type 0 where
  pub op : Option Text
  pub value : Option ℕ

pub record BlkioStats : Type 0 where
  pub io_service_bytes_recursive : Option (List BlkioEntry)

pub record StatsSample : Type 0 where
  pub cpu_stats : Option CpuStats
  pub memory_stats : Option MemoryStats
  pub networks : Option (List NetworkStats)
  pub blkio_stats : Option BlkioStats

pub record PrevCpu : Type 0 where
  pub total_usage : ℕ
  pub system_usage : ℕ

-- `at` is in nanoseconds.
pub record PrevIo : Type 0 where
  pub net_rx : Option ℕ
  pub net_tx : Option ℕ
  pub disk_read : Option ℕ
  pub disk_write : Option ℕ
  pub at : ℕ

pub record IoRates (F : Type 0) : Type 0 where
  pub net_rx : Option F
  pub net_tx : Option F
  pub disk_read : Option F
  pub disk_write : Option F

abbrev pub or_zero : Option ℕ → ℕ
or_zero none = 0
or_zero (some n) = n

unfoldable pub saturating_add : ℕ → ℕ → ℕ
saturating_add a b = min (a + b) u64_max

-- `Option::or_else`.
abbrev pub or_else {ℓ} : {A : Type ℓ} → Option A → Option A → Option A
or_else none o = o
or_else (some a) o = some a

unfoldable pub cache_of : Option (List (Text × ℕ)) → ℕ
cache_of none = 0
cache_of (some stats) =
    or_zero
      (or_else (lookup (text "inactive_file") stats) (lookup (text "total_inactive_file") stats))

abbrev pub minus_cache : Option ℕ → ℕ → Option ℕ
minus_cache none cache = none
minus_cache (some usage) cache = some (usage - cache)

unfoldable pub memory_of : Option MemoryStats → Option ℕ × Option ℕ
unfolding cache_of
memory_of none = (none, none)
memory_of (some mem) = (minus_cache mem.usage (cache_of mem.stats), mem.limit)

unfoldable pub memory : StatsSample → Option ℕ × Option ℕ
unfolding memory_of
memory stats = memory_of stats.memory_stats

-- The `for` loop of `network_totals`.
unfoldable pub add_networks : ℕ × ℕ → List NetworkStats → ℕ × ℕ
unfolding saturating_add
add_networks totals [] = totals
add_networks (rx, tx) (net ∷ nets) =
    add_networks
      (saturating_add rx (or_zero net.rx_bytes), saturating_add tx (or_zero net.tx_bytes)) nets

abbrev pub both_some : ℕ × ℕ → Option ℕ × Option ℕ
both_some (a, b) = (some a, some b)

abbrev pub network_totals_of : Option (List NetworkStats) → Option ℕ × Option ℕ
unfolding add_networks
network_totals_of none = (none, none)
network_totals_of (some nets) = both_some (add_networks (0, 0) nets)

unfoldable pub network_totals : StatsSample → Option ℕ × Option ℕ
unfolding add_networks
network_totals stats = network_totals_of stats.networks

-- One round of the loop of `blkio_totals`.
unfoldable pub add_entry : ℕ × ℕ → Option Text → ℕ → ℕ × ℕ
unfolding saturating_add eq_ignore_ascii_case
add_entry totals none value = totals
add_entry (read, write) (some op) value =
    if eq_ignore_ascii_case op (text "read")
    then (saturating_add read value, write)
    else if eq_ignore_ascii_case op (text "write")
    then (read, saturating_add write value)
    else (read, write)

unfoldable pub add_entries : ℕ × ℕ → List BlkioEntry → ℕ × ℕ
unfolding add_entry
add_entries totals [] = totals
add_entries totals (e ∷ es) = add_entries (add_entry totals e.op (or_zero e.value)) es

abbrev pub entries_of : Option BlkioStats → Option (List BlkioEntry)
entries_of none = none
entries_of (some b) = b.io_service_bytes_recursive

abbrev pub blkio_totals_of : Option (List BlkioEntry) → Option ℕ × Option ℕ
unfolding add_entries
blkio_totals_of none = (none, none)
blkio_totals_of (some entries) = both_some (add_entries (0, 0) entries)

unfoldable pub blkio_totals : StatsSample → Option ℕ × Option ℕ
unfolding add_entries
blkio_totals stats = blkio_totals_of (entries_of stats.blkio_stats)

module _ (M : Float) where
  -- `Duration::as_secs_f64`.
  unfoldable pub as_secs_f64 : ℕ → M.F
  as_secs_f64 nanos =
      M.add (M.of_u64 (nanos / 1000000000))
        (M.div (M.of_u64 (nanos % 1000000000)) (M.of_u64 1000000000))

  abbrev pub rate : Option ℕ → Option ℕ → M.F → Option M.F
  rate (some now) (some prev) secs = some (M.div (M.of_u64 (now - prev)) secs)
  rate (some now) none secs = none
  rate none prev secs = none

  unfoldable pub cpu_percent_from_deltas : PrevCpu → ℕ → ℕ → M.F → M.F
  cpu_percent_from_deltas prev total_usage system_usage online =
      let cpu_delta = total_usage - prev.total_usage in
      let system_delta = system_usage - prev.system_usage in
      if cpu_delta == 0 || system_delta == 0
      then M.zero
      else M.mul (M.mul (M.div (M.of_u64 cpu_delta) (M.of_u64 system_delta)) online) (M.of_u64 100)

  abbrev pub cores_of : Option CpuUsage → Option M.F
  cores_of none = none
  cores_of (some u) = elim u.percpu_usage [ none ↦ none | some v ↦ some (M.of_u64 (length v)) ]

  abbrev pub counted_of : Option ℕ → Option M.F
  counted_of none = none
  counted_of (some n) = some (M.of_u64 n)

  -- `filter(n > 0.0)` and `unwrap_or(1.0)`.
  abbrev pub positive_or_one : Option M.F → M.F
  positive_or_one none = M.of_u64 1
  positive_or_one (some n) = if gt M n M.zero then n else M.of_u64 1

  unfoldable pub online_cpus : CpuStats → M.F
  online_cpus cpu_stats =
      positive_or_one (or_else (counted_of cpu_stats.online_cpus) (cores_of cpu_stats.cpu_usage))
