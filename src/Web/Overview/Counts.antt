-- ===== src/Web/Overview/Counts.antt =====
-- src/web.rs: the counts in the header are those of the containers in each state.
use dockdoe.Prelude.{
  ℕ, ◌+◌, ◌≡◌, arith, Bool, true, false, List, [], ◌∷◌, length, select, if◌then◌else◌,
}
use dockdoe.Model.{ContainerMetrics, ContainerState, HealthState}
use dockdoe.Web.Overview.{ContainerCounts, count_state, count_health, count_all, container_counts}

abbrev pub is_running : ContainerState → Bool
is_running ContainerState.running = true
is_running _ = false

abbrev pub is_exited : ContainerState → Bool
is_exited ContainerState.exited = true
is_exited _ = false

abbrev pub is_unhealthy : HealthState → Bool
is_unhealthy HealthState.unhealthy = true
is_unhealthy _ = false

abbrev pub one_if : Bool → ℕ
one_if b = if b then 1 else 0

abbrev pub AddsState : ContainerState → ContainerCounts → ContainerCounts → Type 0
AddsState s m n =
    (n.total ≡ m.total)
    × (n.running ≡ m.running + one_if (is_running s))
    × (n.exited ≡ m.exited + one_if (is_exited s))
    × (n.running + n.exited + n.other ≡ m.running + m.exited + m.other + 1)
    × (n.unhealthy ≡ m.unhealthy)

count_state-AddsState : (s : ContainerState) (m : ContainerCounts) → AddsState s m (count_state s m)
count_state-AddsState ContainerState.created m = ground arith
count_state-AddsState ContainerState.running m = ground arith
count_state-AddsState ContainerState.paused m = ground arith
count_state-AddsState ContainerState.restarting m = ground arith
count_state-AddsState ContainerState.exited m = ground arith
count_state-AddsState ContainerState.removing m = ground arith
count_state-AddsState ContainerState.dead m = ground arith
count_state-AddsState ContainerState.stopping m = ground arith
count_state-AddsState ContainerState.unknown m = ground arith

abbrev pub AddsHealth : HealthState → ContainerCounts → ContainerCounts → Type 0
AddsHealth h m n =
    (n.total ≡ m.total)
    × (n.running ≡ m.running)
    × (n.exited ≡ m.exited)
    × (n.other ≡ m.other)
    × (n.unhealthy ≡ m.unhealthy + one_if (is_unhealthy h))

count_health-AddsHealth :
    (h : HealthState) (m : ContainerCounts) → AddsHealth h m (count_health h m)
count_health-AddsHealth HealthState.healthy m = ground arith
count_health-AddsHealth HealthState.unhealthy m = ground arith
count_health-AddsHealth HealthState.starting m = ground arith
count_health-AddsHealth HealthState.none m = ground arith

module _ {F : Type 0} where
  number-cons :
      (p : ContainerMetrics F → Bool) (c : ContainerMetrics F) (cs : List (ContainerMetrics F))
      → length (select p (c ∷ cs)) ≡ one_if (p c) + length (select p cs)
  number-cons p c cs = ground arith

  abbrev pub number : (ContainerMetrics F → Bool) → List (ContainerMetrics F) → ℕ
  number p cs = length (select p cs)

  -- `n` counts `cs` on top of `m`.
  abbrev pub Counts : List (ContainerMetrics F) → ContainerCounts → ContainerCounts → Type 0
  Counts cs m n =
      (n.total ≡ m.total)
      × (n.running ≡ m.running + number (λ c. is_running c.state) cs)
      × (n.exited ≡ m.exited + number (λ c. is_exited c.state) cs)
      × (n.running + n.exited + n.other ≡ m.running + m.exited + m.other + length cs)
      × (n.unhealthy ≡ m.unhealthy + number (λ c. is_unhealthy c.health) cs)

  count_all-Counts :
      (cs : List (ContainerMetrics F)) (m : ContainerCounts) → Counts cs m (count_all cs m)
  unfolding count_all
  count_all-Counts [] m = ground arith
  count_all-Counts (c ∷ cs) m =
      let (t, r, e, s, u) = count_all-Counts cs (count_health c.health (count_state c.state m)) in
      let next = count_state c.state m in
      let (ht, hr, he, ho, hu) = count_health-AddsHealth c.health next in
      let (st, sr, se, ss, su) = count_state-AddsState c.state m in
      let nr = number-cons (λ d. is_running d.state) c cs in
      let ne = number-cons (λ d. is_exited d.state) c cs in
      let nu = number-cons (λ d. is_unhealthy d.health) c cs in
      (omega arith, omega arith, omega arith, omega arith, omega arith)

  -- The counts in the header: the containers that run, the ones that have exited and the unhealthy ones,
  -- and every container under exactly one of running, exited and other.
  pub container_counts-Counts :
      (containers : List (ContainerMetrics F))
      → ((container_counts containers).total ≡ length containers)
        × ((container_counts containers).running ≡ number (λ c. is_running c.state) containers)
        × ((container_counts containers).exited ≡ number (λ c. is_exited c.state) containers)
        × ((container_counts containers).unhealthy ≡ number (λ c. is_unhealthy c.health) containers)
        × ((container_counts containers).running
              + (container_counts containers).exited
              + (container_counts containers).other
            ≡ (container_counts containers).total)
  unfolding container_counts
  container_counts-Counts containers =
      let zero_counts : ContainerCounts = record {
        total = length containers;
        running = 0;
        exited = 0;
        other = 0;
        unhealthy = 0;
      } in
      let (t, r, e, s, u) = count_all-Counts containers zero_counts in
      (t, omega arith, omega arith, omega arith, omega arith)
