-- ===== src/Docker/Collect/Baselines.antt =====
-- src/docker.rs: the metrics and the remembered counters that the last loop of `collect` leaves.
use dockdoe.Prelude.{
  ℕ, ◌≡◌, refl, ap, subst, eq_of_==, All, ◌∙◌, arith, Bool, true, false, Bool-cases, inl, inr,
  Option, none, some, List, [], ◌∷◌, map, if◌then◌else◌, ◌==◌, contains, Text, text_eq,
  text_beq_iff, lookup, insert, lookup-insert,
}
use dockdoe.Float.{Float}
use dockdoe.Model.{ContainerMetrics}
use dockdoe.Docker.Counters.{CpuStats, StatsSample, PrevCpu, PrevIo, memory, or_else}
use dockdoe.Docker.Summary.{ContainerSummary, id_of}
use dockdoe.Docker.Collect.{
  DockerClient, cpu_reading, io_reading, no_rates, cpu_between, rates_between, cpu_percent,
  io_rates, metrics_with, build_metrics, build_all,
}

abbrev pub DistinctIds : List ContainerSummary → Type 0
DistinctIds [] = Unit
DistinctIds (s ∷ ss) = (contains (map id_of ss) (id_of s) ≡ false) × DistinctIds ss

-- The new baseline of a container, from its sample.
abbrev pub cpu_baseline : Option (CpuStats × PrevCpu) → Option PrevCpu
cpu_baseline none = none
cpu_baseline (some reading) = some reading.1

abbrev pub cpu_next : Option StatsSample → Option PrevCpu
cpu_next none = none
cpu_next (some sample) = cpu_baseline (cpu_reading sample.cpu_stats)

abbrev pub io_next : Option StatsSample → ℕ → Option PrevIo
io_next none now = none
io_next (some sample) now = some (io_reading sample now)

-- A client's entries of one container.
abbrev pub entry_of : Text → DockerClient → Option PrevCpu × Option PrevIo
entry_of id c = (lookup id c.prev_cpu, lookup id c.prev_io)

abbrev pub entry_step :
    Option StatsSample → ℕ → Option PrevCpu × Option PrevIo → Option PrevCpu × Option PrevIo
entry_step sample now (cpu, io) = (or_else (cpu_next sample) cpu, or_else (io_next sample now) io)

module _ (M : Float) where
  abbrev pub cpu_from : Option PrevCpu → Option (CpuStats × PrevCpu) → Option M.F
  cpu_from before none = none
  cpu_from before (some reading) = cpu_between M before reading

  -- The metrics of a container, from its own entries before.
  abbrev pub metrics_from :
      ContainerSummary
      → Option StatsSample
      → ℕ
      → Option PrevCpu × Option PrevIo
      → ContainerMetrics M.F
  metrics_from s none now entry = metrics_with M s none (none, none) (no_rates M)
  metrics_from s (some sample) now entry =
      metrics_with M s (cpu_from entry.0 (cpu_reading sample.cpu_stats)) (memory sample)
        (rates_between M entry.1 (io_reading sample now))

  lookup-cpu_percent :
      (j id : Text) (stats : StatsSample) (prev : List (Text × PrevCpu))
      → lookup j (cpu_percent M id stats prev).0
        ≡ (if id == j then or_else (cpu_next (some stats)) (lookup j prev) else lookup j prev)
  unfolding cpu_percent
  lookup-cpu_percent j id stats prev = by_reading (cpu_reading stats.cpu_stats)
    where
      by_reading :
          (r : Option (CpuStats × PrevCpu))
          → lookup j
              (elim r as (λ _. List (Text × PrevCpu) × Option M.F) [
                | none ↦ (prev, none)
                | some reading ↦ (insert id reading.1 prev, cpu_between M (lookup id prev) reading)
              ]).0
            ≡ (if id == j then or_else (cpu_baseline r) (lookup j prev) else lookup j prev)
      by_reading none = ground arith
      by_reading (some r) = lookup-insert id j r.1 prev

  entry_of-build_metrics :
      (j : Text) (s : ContainerSummary) (o : Option StatsSample) (now : ℕ) (c : DockerClient)
      → entry_of j (build_metrics M s o now c).0
        ≡ (if id_of s == j then entry_step o now (entry_of j c) else entry_of j c)
  unfolding build_metrics io_rates
  entry_of-build_metrics j s none now c = ground arith
  entry_of-build_metrics j s (some sample) now c =
      rw
        (
          lookup-cpu_percent j (id_of s) sample c.prev_cpu,
          lookup-insert (id_of s) j (io_reading sample now) c.prev_io,
        )
        (pair_if (id_of s == j))
    where
      pair_if :
          (b : Bool)
          → (
            (if b
                then or_else (cpu_next (some sample)) (lookup j c.prev_cpu)
                else lookup j c.prev_cpu),
            (if b then some (io_reading sample now) else lookup j c.prev_io),
          )
            ≡ (if b then entry_step (some sample) now (entry_of j c) else entry_of j c)
      pair_if true = refl
      pair_if false = refl

  build_metrics-output :
      (s : ContainerSummary) (o : Option StatsSample) (now : ℕ) (c : DockerClient)
      → (build_metrics M s o now c).1 ≡ metrics_from s o now (entry_of (id_of s) c)
  unfolding build_metrics cpu_percent io_rates
  build_metrics-output s none now c = refl
  build_metrics-output s (some sample) now c = by_reading (cpu_reading sample.cpu_stats)
    where
      by_reading :
          (r : Option (CpuStats × PrevCpu))
          → metrics_with M s
              (elim r as (λ _. List (Text × PrevCpu) × Option M.F) [
                | none ↦ (c.prev_cpu, none)
                | some reading ↦ (
                  insert (id_of s) reading.1 c.prev_cpu,
                  cpu_between M (lookup (id_of s) c.prev_cpu) reading,
                )
              ]).1
              (memory sample)
              (rates_between M (lookup (id_of s) c.prev_io) (io_reading sample now))
            ≡ metrics_with M s
                (cpu_from (lookup (id_of s) c.prev_cpu) r)
                (memory sample)
                (rates_between M (lookup (id_of s) c.prev_io) (io_reading sample now))
      by_reading none = refl
      by_reading (some r) = refl

  pub entry_of-build_all :
      (j : Text) (sample : Text → Option StatsSample) (now : ℕ) (ss : List ContainerSummary)
      (c : DockerClient)
      → DistinctIds ss
      → entry_of j (build_all M sample now ss c).0 ≡ (
          if contains (map id_of ss) j
          then entry_step (sample j) now (entry_of j c)
          else entry_of j c)
  unfolding build_all
  entry_of-build_all j sample now [] c d = refl
  entry_of-build_all j sample now (s ∷ ss) c d =
      let built = (build_metrics M s (sample (id_of s)) now c).0 in
      elim (Bool-cases (id_of s == j)) [
        | inl e ↦
            let same : id_of s ≡ j = eq_of_== (id_of s) j e in
            let once : contains (map id_of ss) j ≡ false =
              subst (λ k. contains (map id_of ss) k ≡ false) same d.0 in
            entry_of-build_all j sample now ss built d.1
            ∙ ap (λ b. if b then entry_step (sample j) now (entry_of j built) else entry_of j built)
                once
            ∙ entry_of-build_metrics j s (sample (id_of s)) now c
            ∙ rw (e, same) refl
        | inr e ↦
            let other : entry_of j built ≡ entry_of j c =
              entry_of-build_metrics j s (sample (id_of s)) now c
              ∙ ap
                  (λ b.
                    if b then entry_step (sample (id_of s)) now (entry_of j c) else entry_of j c)
                  e in
            entry_of-build_all j sample now ss built d.1
            ∙ ap (λ x. if contains (map id_of ss) j then entry_step (sample j) now x else x) other
            ∙ rw e refl
      ]

  keep_entries :
      (entry : Text → Option PrevCpu × Option PrevIo) (s : ContainerSummary)
      (o : Option StatsSample) (now : ℕ) (c : DockerClient) (ss : List ContainerSummary)
      → contains (map id_of ss) (id_of s) ≡ false
      → All (λ t. entry_of (id_of t) c ≡ entry (id_of t)) ss
      → All (λ t. entry_of (id_of t) (build_metrics M s o now c).0 ≡ entry (id_of t)) ss
  keep_entries entry s o now c [] h k = tt
  keep_entries entry s o now c (t ∷ ts) h k =
      let away : (id_of s == id_of t) ≡ false =
        ground (arith, text_beq_iff (id_of s) (id_of t), text_beq_iff (id_of t) (id_of s)) in
      (
        entry_of-build_metrics (id_of t) s o now c
            ∙ ap (λ b. if b then entry_step o now (entry_of (id_of t) c) else entry_of (id_of t) c)
                away
            ∙ k.0,
        keep_entries entry s o now c ts (ground arith) k.1,
      )

  pub build_all-outputs :
      (entry : Text → Option PrevCpu × Option PrevIo) (sample : Text → Option StatsSample) (now : ℕ)
      (ss : List ContainerSummary) (c : DockerClient)
      → DistinctIds ss
      → All (λ t. entry_of (id_of t) c ≡ entry (id_of t)) ss
      → (build_all M sample now ss c).1
        ≡ map (λ t. metrics_from t (sample (id_of t)) now (entry (id_of t))) ss
  unfolding build_all
  build_all-outputs entry sample now [] c d k = refl
  build_all-outputs entry sample now (s ∷ ss) c d k =
      rw
        (
          build_metrics-output s (sample (id_of s)) now c,
          k.0,
          build_all-outputs entry sample now ss (build_metrics M s (sample (id_of s)) now c).0 d.1
              (keep_entries entry s (sample (id_of s)) now c ss d.0 k.1),
        )
        refl
