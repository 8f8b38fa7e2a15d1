-- ===== src/Docker/Collect/Cycles.antt =====
-- src/docker.rs: in `collect` every container is followed on its own, over any cycles.
use dockdoe.Prelude.{
  ◌≡◌, refl, ap, All, ◌∙◌, arith, Bool, true, false, Bool-cases, inl, inr, Option, none, some, List,
  [], ◌∷◌, map, if◌then◌else◌, ◌==◌, contains, Text, ◌||◌, text_eq, lookup, lookup-retain,
}
use dockdoe.Float.{Float}
use dockdoe.Model.{ContainerMetrics}
use dockdoe.Docker.Counters.{PrevCpu, PrevIo}
use dockdoe.Docker.Summary.{ContainerSummary, id_of, or_empty}
use dockdoe.Docker.Collect.{DockerClient, Cycle, cons_some, live_ids, reap, sampled_in, collect}
use dockdoe.Docker.Collect.Baselines.{
  DistinctIds, entry_of, entry_step, metrics_from, entry_of-build_all, build_all-outputs,
}

-- What is left of a container's entry when a listing has been read.
abbrev pub kept :
    List ContainerSummary → Text → Option PrevCpu × Option PrevIo → Option PrevCpu × Option PrevIo
kept ss id entry = if contains (live_ids ss) id then entry else (none, none)

entry_of-reap :
    (j : Text) (ss : List ContainerSummary) (c : DockerClient)
    → entry_of j (reap ss c) ≡ kept ss j (entry_of j c)
unfolding reap
entry_of-reap j ss c =
    rw
      (
        lookup-retain (λ id. contains (live_ids ss) id) j c.prev_cpu,
        lookup-retain (λ id. contains (live_ids ss) id) j c.prev_io,
      )
      (by_live (contains (live_ids ss) j))
  where
    by_live :
        (b : Bool)
        → ((if b then lookup j c.prev_cpu else none), (if b then lookup j c.prev_io else none))
          ≡ (if b then entry_of j c else (none, none))
    by_live true = refl
    by_live false = refl

live_ids-absent :
    (j : Text) (ss : List ContainerSummary)
    → contains (map id_of ss) j ≡ false
    → contains (live_ids ss) j ≡ false
live_ids-absent j [] h = refl
live_ids-absent j (s ∷ ss) h = by_id s.id (live_ids-absent j ss) h
  where
    by_id :
        (o : Option Text)
        → (contains (map id_of ss) j ≡ false → contains (live_ids ss) j ≡ false)
        → ((or_empty o == j) || contains (map id_of ss) j) ≡ false
        → contains (cons_some o (live_ids ss)) j ≡ false
    by_id none rest h = rest (ground arith)
    by_id (some id) rest h = ground (arith, rest)

-- One cycle for one container, from its own entry: a listing that fails changes nothing, a listing
-- without it drops the entry, and a sample replaces it.
abbrev pub own_step : Cycle → Text → Option PrevCpu × Option PrevIo → Option PrevCpu × Option PrevIo
own_step cycle id entry = elim cycle.listing [
  | none ↦ entry
  | some ss ↦
      if contains (map id_of ss) id
      then entry_step (sampled_in cycle.fetch ss id) cycle.now (kept ss id entry)
      else (none, none)
]

abbrev pub AreDistinct : Option (List ContainerSummary) → Type 0
AreDistinct none = Unit
AreDistinct (some ss) = DistinctIds ss

All-each :
    {P : ContainerSummary → Type 0}
    → ((s : ContainerSummary) → P s)
    → (ss : List ContainerSummary) → All P ss
All-each f [] = tt
All-each f (s ∷ ss) = (f s, All-each f ss)

abbrev pub fresh : DockerClient
fresh = record { prev_cpu = []; prev_io = [] }

abbrev pub own_run :
    List Cycle → Text → Option PrevCpu × Option PrevIo → Option PrevCpu × Option PrevIo
own_run [] id entry = entry
own_run (cycle ∷ cycles) id entry = own_run cycles id (own_step cycle id entry)

module _ (M : Float) where
  -- In a cycle whose listing has distinct ids every container's remembered counters change by its own
  -- step only: they stay when the listing fails, are dropped when it is not listed, and are replaced by
  -- those of its own sample.
  pub collect-entries :
      (cycle : Cycle) (c : DockerClient) (id : Text)
      → AreDistinct cycle.listing
      → entry_of id (collect M cycle c).0 ≡ own_step cycle id (entry_of id c)
  unfolding collect
  collect-entries cycle c id = by_listing cycle.listing
    where
      by_listing :
          (l : Option (List ContainerSummary))
          → AreDistinct l
          → entry_of id (collect M (record cycle { listing = l }) c).0
            ≡ own_step (record cycle { listing = l }) id (entry_of id c)
      by_listing none d = refl
      by_listing (some ss) d =
          entry_of-build_all M id (sampled_in cycle.fetch ss) cycle.now ss (reap ss c) d
          ∙ (elim (Bool-cases (contains (map id_of ss) id)) [
            | inl e ↦
                rw e
                  (ap (entry_step (sampled_in cycle.fetch ss id) cycle.now) (entry_of-reap id ss c))
            | inr e ↦ rw e (
                entry_of-reap id ss c
                ∙ ap (λ b. if b then entry_of id c else (none, none)) (live_ids-absent id ss e))
          ])

  -- The metrics of a cycle, each from its own container's entry.
  abbrev pub own_metrics :
      Cycle → (Text → Option PrevCpu × Option PrevIo) → Option (List (ContainerMetrics M.F))
  own_metrics cycle entry = elim cycle.listing [
    | none ↦ none
    | some ss ↦ some (
        map
          (λ t.
            metrics_from M t (sampled_in cycle.fetch ss (id_of t)) cycle.now
              (kept ss (id_of t) (entry (id_of t))))
          ss)
  ]

  collect-metrics :
      (cycle : Cycle) (c : DockerClient)
      → AreDistinct cycle.listing
      → (collect M cycle c).1 ≡ own_metrics cycle (λ id. entry_of id c)
  unfolding collect
  collect-metrics cycle c = by_listing cycle.listing
    where
      by_listing :
          (l : Option (List ContainerSummary))
          → AreDistinct l
          → (collect M (record cycle { listing = l }) c).1
            ≡ own_metrics (record cycle { listing = l }) (λ id. entry_of id c)
      by_listing none d = refl
      by_listing (some ss) d = ap some (
          build_all-outputs M (λ id. kept ss id (entry_of id c)) (sampled_in cycle.fetch ss)
            cycle.now ss (reap ss c) d (All-each (λ t. entry_of-reap (id_of t) ss c) ss))

  unfoldable pub run : List Cycle → DockerClient → DockerClient
  run [] c = c
  run (cycle ∷ cycles) c = run cycles (collect M cycle c).0

  run-entries :
      (cycles : List Cycle) (c : DockerClient) (id : Text)
      → All (λ (cycle : Cycle). AreDistinct cycle.listing) cycles
      → entry_of id (run cycles c) ≡ own_run cycles id (entry_of id c)
  unfolding run
  run-entries [] c id d = refl
  run-entries (cycle ∷ cycles) c id d =
      run-entries cycles (collect M cycle c).0 id d.1
      ∙ ap (own_run cycles id) (collect-entries cycle c id d.0)

  map_cong :
      {A B : Type 0} {f g : A → B} → ((a : A) → f a ≡ g a) → (xs : List A) → map f xs ≡ map g xs
  map_cong h [] = refl
  map_cong h (x ∷ xs) = rw (h x, map_cong h xs) refl

  own_metrics_cong :
      (cycle : Cycle) (f g : Text → Option PrevCpu × Option PrevIo)
      → ((id : Text) → f id ≡ g id)
      → own_metrics cycle f ≡ own_metrics cycle g
  own_metrics_cong cycle f g h = by_listing cycle.listing
    where
      by_listing :
          (l : Option (List ContainerSummary))
          → own_metrics (record cycle { listing = l }) f
            ≡ own_metrics (record cycle { listing = l }) g
      by_listing none = refl
      by_listing (some ss) = ap some (
          map_cong
            (λ t.
              ap
                (λ e.
                  metrics_from M t (sampled_in cycle.fetch ss (id_of t)) cycle.now
                    (kept ss (id_of t) e))
                (h (id_of t)))
            ss)

  -- After any cycles from a fresh client, all with distinct ids, the metrics of the next cycle are
  -- missing exactly when its listing fails. Otherwise each container's are computed from its
  -- sample in this cycle and the readings of its own last samples, which `own_run` follows through
  -- the cycles before: a failed listing keeps them, a listing without the container drops them.
  pub collect-history :
      (cycles : List Cycle) (cycle : Cycle)
      → All (λ (k : Cycle). AreDistinct k.listing) cycles
      → AreDistinct cycle.listing
      → (collect M cycle (run cycles fresh)).1
        ≡ own_metrics cycle (λ id. own_run cycles id (none, none))
  collect-history cycles cycle ds d =
      collect-metrics cycle (run cycles fresh) d
      ∙ own_metrics_cong cycle (λ id. entry_of id (run cycles fresh))
          (λ id. own_run cycles id (none, none)) (λ id. run-entries cycles fresh id ds)
