-- ===== src/Collector/Persist/Served.antt =====
-- src/collector.rs, src/store.rs, src/web.rs: what a chart is seeded with is what the collectors published.
use dockdoe.Prelude.{
  ℕ, ◌≤◌, ◌%◌, ◌==◌, nat_eq, Bool-cases, inl, inr, subst, lookup, sort_by, i64_max, ◌≡◌, refl, sym,
  ap, ◌∙◌, arith, Option, none, some, List, [], ◌∷◌, map, Text, text_eq, All, All-map_imp,
  All-select_of, All-append, All-In, All-In_self, In, ◌++◌, not,
}
use dockdoe.Float.{Float}
use dockdoe.Store.Tables.{Db, SampleRow}
use dockdoe.Store.Raw.{insert_samples, prune_raw, aged_out, recent_container_samples}
use dockdoe.Store.Raw.Seeds.{
  Cycle, history, cycle_history, InOrder, Before, join, join_assoc, join-none_more, join-some_nil,
  recent-insert_samples, Before-insert_samples, All-Before_nil,
}
use dockdoe.Store.Retention.{prune_raw-recent}
use dockdoe.Store.History.{Engine}
use dockdoe.Store.Upsert.{insert_container_trends, prune_trends}
use dockdoe.Collector.{Job, Settings, prune_cutoffs_at, prune_cadence}
use dockdoe.Collector
use dockdoe.Web.History
use dockdoe.Collector.Persist.{
  Statement, write_samples, write_trends, cut_samples, cut_trends, pruned, persist, issued, execute,
  persist_all, empty_db,
}
use dockdoe.Web.History.{clamp_since}
use dockdoe.Web.History.Queries.{
  points, HostRuntime, fetch_points, metrics_container, at_source, proxied_or,
}

-- A prune of samples at most up to that time.
abbrev pub CutsUpTo : {F : Type 0} → ℕ → Statement F → Type 0
CutsUpTo since (write_samples host ts_ms containers) = Unit
CutsUpTo since (write_trends flushed) = Unit
CutsUpTo since (cut_samples before_ms) = before_ms ≤ since
CutsUpTo since (cut_trends before_ms) = Unit

module _ {F : Type 0} where
  -- What a job writes.
  abbrev pub cycle_of : Text × Job F → Cycle F
  cycle_of (host, job) = record {
    host = host;
    ts_ms = job.ts_ms;
    containers = job.dashboard.containers;
  }

  -- What was written, in order.
  abbrev pub cycles_of : List (Statement F) → List (Cycle F)
  cycles_of [] = []
  cycles_of (write_samples host ts_ms containers ∷ rest) =
      record { host = host; ts_ms = ts_ms; containers = containers } ∷ cycles_of rest
  cycles_of (write_trends flushed ∷ rest) = cycles_of rest
  cycles_of (cut_samples before_ms ∷ rest) = cycles_of rest
  cycles_of (cut_trends before_ms ∷ rest) = cycles_of rest

  cycles_of-pruned :
      (o : Option (ℕ × ℕ)) (rest : List (Statement F))
      → cycles_of (pruned o ++ rest) ≡ cycles_of rest
  cycles_of-pruned none rest = refl
  cycles_of-pruned (some (raw, trend)) rest = refl

  cycles_of-issued : (jobs : List (Text × Job F)) → cycles_of (issued jobs) ≡ map cycle_of jobs
  cycles_of-issued [] = refl
  cycles_of-issued ((host, job) ∷ jobs) =
      ap (λ l. cycle_of (host, job) ∷ l)
        (cycles_of-pruned job.prune_cutoffs (issued jobs) ∙ cycles_of-issued jobs)

  Before-prune_raw :
      (last before : ℕ) (rows : List (SampleRow F))
      → Before last rows
      → Before last (prune_raw before rows).0
  unfolding prune_raw
  Before-prune_raw last before rows h =
      All-select_of (λ (r : SampleRow F). r.ts_ms ≤ last) (λ r. not (aged_out before r)) rows h

module _ (M : Float) (E : Engine M.F) (host id : Text) (since : ℕ) (fits : since ≤ i64_max) where
  persist_all-recent :
      (calls : List (Statement M.F)) (db : Db M.F)
      → InOrder (cycles_of calls)
      → All (CutsUpTo since) calls
      → All (λ (c : Cycle M.F). Before c.ts_ms db.samples) (cycles_of calls)
      → recent_container_samples host id since (persist_all M E calls db).samples
        ≡ join
            (recent_container_samples host id since db.samples)
            (history host id since (cycles_of calls))
  unfolding persist_all execute
  persist_all-recent [] db o c b = sym (join-none_more _)
  persist_all-recent (write_samples h ts_ms containers ∷ calls) db o c b =
      let rows = insert_samples h ts_ms containers db.samples in
      persist_all-recent calls (record db { samples = rows }) o.2 c.1
        (All-map_imp (λ (d : Cycle M.F). ts_ms ≤ d.ts_ms) (λ (d : Cycle M.F). Before d.ts_ms rows)
          (λ d l. Before-insert_samples h ts_ms d.ts_ms containers db.samples o.0 l b.0)
          (cycles_of calls) o.1)
      ∙ ap (λ l. join l (history host id since (cycles_of calls)))
          (recent-insert_samples host id h since ts_ms containers db.samples o.0 fits b.0)
      ∙ join_assoc (recent_container_samples host id since db.samples)
          (cycle_history host id since
            (record { host = h; ts_ms = ts_ms; containers = containers }))
          (history host id since (cycles_of calls))
  persist_all-recent (write_trends flushed ∷ calls) db o c b =
      persist_all-recent calls
        (record db { trends = insert_container_trends M E flushed db.trends }) o c.1 b
  persist_all-recent (cut_samples before_ms ∷ calls) db o c b =
      let rows = (prune_raw before_ms db.samples).0 in
      persist_all-recent calls (record db { samples = rows }) o c.1
        (All-map_imp (λ (d : Cycle M.F). Before d.ts_ms db.samples)
          (λ (d : Cycle M.F). Before d.ts_ms rows)
          (λ d l. Before-prune_raw d.ts_ms before_ms db.samples l) (cycles_of calls) b)
      ∙ ap (λ l. join l (history host id since (cycles_of calls)))
          (prune_raw-recent host id before_ms since c.0 db.samples)
  persist_all-recent (cut_trends before_ms ∷ calls) db o c b =
      persist_all-recent calls (record db { trends = (prune_trends before_ms db.trends).0 }) o c.1 b

-- The cutoffs that a collector sends, against the earliest time that the web server reads from.
pruned-CutsUpTo :
    (F : Type 0) (s : Settings) (cycle ts_ms now since_ms : ℕ)
    → ts_ms ≤ now
    → All
        (CutsUpTo {F = F} (clamp_since now since_ms s.raw_retention))
        (pruned (prune_cutoffs_at s cycle ts_ms))
unfolding prune_cutoffs_at clamp_since Collector.duration_ms History.duration_ms prune_cadence
pruned-CutsUpTo F s cycle ts_ms now since_ms l =
    elim (Bool-cases (cycle % prune_cadence s.prune_interval s.interval == 0)) [
      | inl e ↦ rw e (omega (arith, l), (tt, tt))
      | inr e ↦ rw e tt
    ]

-- A job of a collector with that retention of raw samples, with the cutoffs of one of its cycles.
abbrev pub IsJob : {F : Type 0} → ℕ → ℕ → Text × Job F → Type 0
IsJob raw_retention now (host, job) =
    (s : Settings) × (s.raw_retention ≡ raw_retention)
    × (cycle : ℕ) × (job.prune_cutoffs ≡ prune_cutoffs_at s cycle job.ts_ms)
    × (job.ts_ms ≤ now)

-- A call that such a job makes.
abbrev pub IsCall : {F : Type 0} → ℕ → ℕ → Statement F → Type 0
IsCall {F} raw_retention now call =
    (j : Text × Job F) × In call (persist j.0 j.1) × IsJob raw_retention now j

module _ {F : Type 0} (raw_retention now : ℕ) where
  persist-CutsUpTo :
      (since_ms : ℕ) (j : Text × Job F)
      → IsJob raw_retention now j
      → All (CutsUpTo (clamp_since now since_ms raw_retention)) (persist j.0 j.1)
  persist-CutsUpTo since_ms (host, job) (s, r, cycle, e, l) = (
    tt,
    (
      tt,
      subst (λ o. All (CutsUpTo {F = F} (clamp_since now since_ms raw_retention)) (pruned o))
          (sym e)
          (subst
            (λ raw.
              All (CutsUpTo {F = F} (clamp_since now since_ms raw))
                (pruned (prune_cutoffs_at s cycle job.ts_ms)))
            r (pruned-CutsUpTo F s cycle job.ts_ms now since_ms l)),
    ),
  )

  IsCall-CutsUpTo :
      (since_ms : ℕ) (calls : List (Statement F))
      → All (IsCall raw_retention now) calls
      → All (CutsUpTo (clamp_since now since_ms raw_retention)) calls
  IsCall-CutsUpTo since_ms calls h =
      All-map_imp (IsCall raw_retention now) (CutsUpTo (clamp_since now since_ms raw_retention))
        (λ call k.
          let (j, m, i) = k in
          All-In (CutsUpTo (clamp_since now since_ms raw_retention)) (persist j.0 j.1)
            (persist-CutsUpTo since_ms j i) m)
        calls h

  IsCall-issued :
      (jobs : List (Text × Job F))
      → All (IsJob raw_retention now) jobs
      → All (IsCall raw_retention now) (issued jobs)
  IsCall-issued [] h = tt
  IsCall-issued ((host, job) ∷ jobs) h =
      All-append (IsCall raw_retention now) (persist host job) (issued jobs)
        (All-map_imp (λ call. In call (persist host job)) (IsCall raw_retention now)
          (λ call m. ((host, job), m, h.0)) (persist host job) (All-In_self (persist host job)))
        (IsCall-issued jobs h.1)

module _ (M : Float) (E : Engine M.F) (raw_retention now since_ms : ℕ) where
  -- Calls in which the times of all samples are in order.
  pub metrics_container-calls :
      {A : Type 0} (host id : Text) (hosts : List (Text × HostRuntime A M.F))
      (calls : List (Statement M.F))
      → now ≤ i64_max
      → since_ms ≤ i64_max
      → at_source (lookup host hosts) ≡ none
      → InOrder (cycles_of calls)
      → All (IsCall raw_retention now) calls
      → metrics_container M E now raw_retention hosts host id since_ms
          (persist_all M E calls empty_db)
        ≡ points (
            fetch_points
              (history host id (clamp_since now since_ms raw_retention) (cycles_of calls)))
  unfolding metrics_container recent_container_samples sort_by clamp_since
  metrics_container-calls host id hosts calls n f local o cs =
      let since = clamp_since now since_ms raw_retention in
      let fits : since ≤ i64_max = omega (arith, n, f) in
      let stored =
        persist_all-recent M E host id since fits calls empty_db o
          (IsCall-CutsUpTo raw_retention now since_ms calls cs)
          (All-Before_nil (cycles_of calls)) in
      ap
        (λ o. proxied_or o (
          points (
            fetch_points
              (recent_container_samples host id since (persist_all M E calls empty_db).samples))))
        local
      ∙ ap (λ h. points (fetch_points h))
          (stored ∙ join-some_nil (history host id since (cycles_of calls)))

  -- The same for jobs that run one after the other.
  pub metrics_container-issued :
      {A : Type 0} (host id : Text) (hosts : List (Text × HostRuntime A M.F))
      (jobs : List (Text × Job M.F))
      → now ≤ i64_max
      → since_ms ≤ i64_max
      → at_source (lookup host hosts) ≡ none
      → InOrder (map cycle_of jobs)
      → All (IsJob raw_retention now) jobs
      → metrics_container M E now raw_retention hosts host id since_ms
          (persist_all M E (issued jobs) empty_db)
        ≡ points (
            fetch_points
              (history host id (clamp_since now since_ms raw_retention) (map cycle_of jobs)))
  metrics_container-issued host id hosts jobs n f local o js =
      let written = cycles_of-issued jobs in
      metrics_container-calls host id hosts (issued jobs) n f local (subst InOrder (sym written) o)
        (IsCall-issued raw_retention now jobs js)
      ∙ ap
          (λ cs.
            points (fetch_points (history host id (clamp_since now since_ms raw_retention) cs)))
          written
