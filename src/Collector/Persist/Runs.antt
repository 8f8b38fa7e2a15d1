-- ===== src/Collector/Persist/Runs.antt =====
-- src/collector.rs, src/store.rs, src/web.rs: from the ticks of a collector to the chart of a container.
use dockdoe.Prelude.{
  ℕ, ◌+◌, ◌≤◌, i64_max, ◌≡◌, refl, sym, ap, subst, ◌∙◌, Option, none, List, [], ◌∷◌, map, drop,
  lookup, text_eq, Text, All,
}
use dockdoe.Float.{Float}
use dockdoe.Model.{ContainerMetrics, Dashboard}
use dockdoe.Notify.{Tracker}
use dockdoe.Store.History.{Engine}
use dockdoe.Store.Raw.Seeds.{Cycle, InOrder, history}
use dockdoe.Collector.{Settings, Job, Output, Tick, start, run, prune_cutoffs_at}
use dockdoe.Collector.Runs.{collected, persisted, numbered, run-numbered}
use dockdoe.Collector.Persist.{issued, persist_all, empty_db}
use dockdoe.Collector.Persist.Served.{cycle_of, IsJob, metrics_container-issued}
use dockdoe.Web.History.{clamp_since}
use dockdoe.Web.History.Queries.{HostRuntime, points, fetch_points, at_source, metrics_container}

module _ (M : Float) where
  abbrev pub job_of : Text → Output M.F → Text × Job M.F
  job_of host out = (host, out.job)

  -- The cycle of a collection.
  abbrev pub sample_cycle : Text → ℕ × List (ContainerMetrics M.F) → Cycle M.F
  sample_cycle host sample = record { host = host; ts_ms = sample.0; containers = sample.1 }

  -- The jobs are of the collections, with the cutoffs of their cycles.
  abbrev Matches :
      Settings → ℕ → Text → List (Output M.F) → List (ℕ × List (ContainerMetrics M.F)) → Type 0
  Matches s now host outs samples =
      All (IsJob s.raw_retention now) (map (job_of host) outs)
      × (map cycle_of (map (job_of host) outs) ≡ map (sample_cycle host) samples)

  numbered-Matches :
      (s : Settings) (cpu_count now n : ℕ) (host : Text) (outs : List (Output M.F))
      (samples : List (ℕ × List (ContainerMetrics M.F)))
      → All (λ (p : ℕ × List (ContainerMetrics M.F)). p.0 ≤ now) samples
      → map (persisted M) outs ≡ numbered M s cpu_count n samples
      → Matches s now host outs samples
  numbered-Matches s cpu_count now n host [] [] b e = (tt, refl)
  numbered-Matches s cpu_count now n host [] (p ∷ samples) b e = cc
  numbered-Matches s cpu_count now n host (out ∷ outs) [] b e = cc
  numbered-Matches s cpu_count now n host (out ∷ outs) (p ∷ samples) b e =
      let (first, rest) = cons-injective e in
      let ts : out.job.ts_ms ≡ p.0 = ap (λ (r : ℕ × Dashboard M.F × Option (ℕ × ℕ)). r.0) first in
      let cs : out.job.dashboard.containers ≡ p.1 =
        ap (λ (r : ℕ × Dashboard M.F × Option (ℕ × ℕ)). r.1.containers) first in
      let cut : out.job.prune_cutoffs ≡ prune_cutoffs_at s n p.0 =
        ap (λ (r : ℕ × Dashboard M.F × Option (ℕ × ℕ)). r.2) first in
      let (jobs, cycles) = numbered-Matches s cpu_count now (n + 1) host outs samples b.1 rest in
      (
        (
          (s, refl, n, cut ∙ ap (prune_cutoffs_at s n) (sym ts), subst (λ t. t ≤ now) (sym ts) b.0),
          jobs,
        ),
        ap
              (λ t.
                record { host = host; ts_ms = t; containers = out.job.dashboard.containers }
                ∷ map cycle_of (map (job_of host) outs))
              ts
            ∙ ap
                (λ c.
                  record { host = host; ts_ms = p.0; containers = c }
                  ∷ map cycle_of (map (job_of host) outs))
                cs
            ∙ ap (λ l. sample_cycle host p ∷ l) cycles,
      )
    where
      cons-injective :
          {A : Type 0} {a b : A} {as_rest bs_rest : List A}
          → ◌≡◌ {A = List A} (a ∷ as_rest) (b ∷ bs_rest)
          → (a ≡ b) × (as_rest ≡ bs_rest)
      cons-injective h = (cc, cc)

  -- From the ticks of a collector to the chart of a container: after any ticks whose collections are
  -- in the order of time, the jobs of the run persisted, a later request for the points of the chart
  -- is answered with the container's history in all the collections that succeeded but the first,
  -- within the given time and the raw retention; or with none if a CPU share is missing there.
  pub metrics_container-run :
      {A : Type 0} (E : Engine M.F) (s : Settings) (cpu_count now since_ms : ℕ) (host id : Text)
      (notifier : Option Tracker) (ticks : List (Tick M.F))
      (hosts : List (Text × HostRuntime A M.F))
      → now ≤ i64_max
      → since_ms ≤ i64_max
      → at_source (lookup host hosts) ≡ none
      → All (λ (p : ℕ × List (ContainerMetrics M.F)). p.0 ≤ now) (drop 1 (collected M ticks))
      → InOrder (map (sample_cycle host) (drop 1 (collected M ticks)))
      → metrics_container M E now s.raw_retention hosts host id since_ms (
          persist_all M E
            (issued (map (job_of host) (run M s cpu_count (start M s host notifier) ticks).1))
            empty_db)
        ≡ points (
            fetch_points (
              history host id
                (clamp_since now since_ms s.raw_retention)
                (map (sample_cycle host) (drop 1 (collected M ticks)))))
  metrics_container-run E s cpu_count now since_ms host id notifier ticks hosts n f local b o =
      let outs = (run M s cpu_count (start M s host notifier) ticks).1 in
      let samples = drop 1 (collected M ticks) in
      let (jobs, cycles) =
        numbered-Matches s cpu_count now 0 host outs samples b
          (run-numbered M s cpu_count host notifier ticks).0 in
      metrics_container-issued M E s.raw_retention now since_ms host id hosts
        (map (job_of host) outs) n f local (subst InOrder (sym cycles) o) jobs
      ∙ ap
          (λ cs.
            points (fetch_points (history host id (clamp_since now since_ms s.raw_retention) cs)))
          cycles
