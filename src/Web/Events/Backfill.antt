-- ===== src/Web/Events/Backfill.antt =====
-- src/web.rs, src/store.rs: the live stream of a container and the backfill of its chart show the same
-- points.
use dockdoe.Prelude.{
  ℕ, ◌≤◌, i64_max, ◌≡◌, refl, sym, ap, ◌∙◌, Bool-cases, inl, inr, Option, none, some, List, [], ◌∷◌,
  ◌++◌, map, if◌then◌else◌, ◌==◌, ==_refl, leb, text_eq, Text, find_first, All, select, ◌≢◌,
}
use dockdoe.Float.{Float}
use dockdoe.Model.{ContainerMetrics, Dashboard}
use dockdoe.Store.Tables.{to_db-exact, MetricPoint}
use dockdoe.Store.Raw.{to_db_opt}
use dockdoe.Store.Raw.Seeds.{Cycle, reading_of, readings, history}
use dockdoe.Collector.{Job}
use dockdoe.Web.StackPoint.{or_zero}
use dockdoe.Web.Events.{
  Event, header, containers, overview, detail, members, metrics, live_point, found_events,
  find_container, container_events, flat_events,
}

-- A memory size that fits the database.
abbrev pub MemFits : Option ℕ → Type 0
MemFits none = Unit
MemFits (some n) = n ≤ i64_max

module _ {F : Type 0} where
  -- The points that a page draws of a stream.
  abbrev pub drawn : List (Event F) → List (MetricPoint F)
  drawn [] = []
  drawn (metrics p ∷ events) = p ∷ drawn events
  drawn (header d ∷ events) = drawn events
  drawn (containers d ∷ events) = drawn events
  drawn (overview d ∷ events) = drawn events
  drawn (detail c ∷ events) = drawn events
  drawn (members cs ∷ events) = drawn events

  drawn-append : (a b : List (Event F)) → drawn (a ++ b) ≡ drawn a ++ drawn b
  drawn-append [] b = refl
  drawn-append (metrics p ∷ a) b = ap (λ l. p ∷ l) (drawn-append a b)
  drawn-append (header d ∷ a) b = drawn-append a b
  drawn-append (containers d ∷ a) b = drawn-append a b
  drawn-append (overview d ∷ a) b = drawn-append a b
  drawn-append (detail c ∷ a) b = drawn-append a b
  drawn-append (members cs ∷ a) b = drawn-append a b

  abbrev pub HasCpu : Option F → Type 0
  HasCpu none = ⊥
  HasCpu (some cpu) = Unit

  -- The container is in the list at most once, and then with a CPU share.
  abbrev pub Readable : Text → List (ContainerMetrics F) → Type 0
  Readable id [] = Unit
  Readable id (c ∷ cs) =
      if c.id == id
      then (HasCpu c.cpu_percent
          × MemFits c.mem_used
          × (find_first (λ (d : ContainerMetrics F). d.id == id) cs ≡ none))
      else Readable id cs

module _ (M : Float) where
  to_db_opt-fits : (o : Option ℕ) → MemFits o → to_db_opt o ≡ o
  to_db_opt-fits none h = refl
  to_db_opt-fits (some n) h = ap some (to_db-exact n h)

  reading_of-live :
      (ts_ms : ℕ) (c : ContainerMetrics M.F) (o : Option M.F)
      → HasCpu o
      → MemFits c.mem_used
      → reading_of ts_ms c o
        ≡ some (record {
          ts_ms = ts_ms;
          cpu_percent = or_zero M o;
          mem_used = c.mem_used;
          net_rx = c.net_rx_bps;
          net_tx = c.net_tx_bps;
          disk_read = c.disk_read_bps;
          disk_write = c.disk_write_bps;
        })
  reading_of-live ts_ms c none h k = absurd h
  reading_of-live ts_ms c (some cpu) h k =
      ap
        (λ m. some (record {
          ts_ms = ts_ms;
          cpu_percent = cpu;
          mem_used = m;
          net_rx = c.net_rx_bps;
          net_tx = c.net_tx_bps;
          disk_read = c.disk_read_bps;
          disk_write = c.disk_write_bps;
        }))
        (to_db_opt-fits c.mem_used k)

  abbrev points_found : ℕ → Option (ContainerMetrics M.F) → List (MetricPoint M.F)
  points_found ts_ms none = []
  points_found ts_ms (some c) = live_point M ts_ms c ∷ []

  readings-absent :
      (id : Text) (ts_ms : ℕ) (cs : List (ContainerMetrics M.F))
      → find_first (λ (c : ContainerMetrics M.F). c.id == id) cs ≡ none
      → readings id ts_ms cs ≡ some []
  readings-absent id ts_ms [] h = refl
  readings-absent id ts_ms (c ∷ cs) h = elim (Bool-cases (c.id == id)) [
    | inl e ↦ absurd (some-none (rw e at h))
    | inr e ↦ rw e (readings-absent id ts_ms cs (rw e at h))
  ]
    where
      some-none : {c : ContainerMetrics M.F} → ◌≢◌ {A = Option (ContainerMetrics M.F)} (some c) none
      some-none = λ q. cc

  readings-live :
      (id : Text) (ts_ms : ℕ) (cs : List (ContainerMetrics M.F))
      → Readable id cs
      → readings id ts_ms cs
        ≡ some (points_found ts_ms (find_first (λ (c : ContainerMetrics M.F). c.id == id) cs))
  readings-live id ts_ms [] h = refl
  readings-live id ts_ms (c ∷ cs) h = elim (Bool-cases (c.id == id)) [
    | inl e ↦
        let k = rw e at h in
        let point = reading_of-live ts_ms c c.cpu_percent k.0 k.1 in
        let rest = readings-absent id ts_ms cs k.2 in rw e (rw (point, rest) refl)
    | inr e ↦ rw e (readings-live id ts_ms cs (rw e at h))
  ]

  drawn-container :
      (id : Text) (dash : Dashboard M.F)
      → drawn (container_events M id dash)
        ≡ points_found dash.generated_at_unix_ms (find_container M id dash)
  unfolding container_events
  drawn-container id dash = drawn-found dash.generated_at_unix_ms (find_container M id dash)
    where
      drawn-found :
          (ts_ms : ℕ) (o : Option (ContainerMetrics M.F))
          → drawn (found_events M ts_ms o) ≡ points_found ts_ms o
      drawn-found ts_ms none = refl
      drawn-found ts_ms (some c) = refl

  abbrev pub since_then : ℕ → List (Dashboard M.F) → List (Dashboard M.F)
  since_then since_ms dashes =
      select (λ (d : Dashboard M.F). leb since_ms d.generated_at_unix_ms) dashes

  abbrev pub written : Text → Dashboard M.F → Cycle M.F
  written host d = record { host = host; ts_ms = d.generated_at_unix_ms; containers = d.containers }

  -- The history of a container in the snapshots of its host is what the live stream draws of them.
  pub history-drawn :
      (host id : Text) (since_ms : ℕ) (dashes : List (Dashboard M.F))
      → All (λ (d : Dashboard M.F). Readable id d.containers) dashes
      → history host id since_ms (map (written host) dashes)
        ≡ some (drawn (flat_events M (container_events M id) (since_then since_ms dashes)))
  history-drawn host id since_ms [] h = refl
  history-drawn host id since_ms (d ∷ dashes) h =
      let ih = history-drawn host id since_ms dashes h.1 in
      let ts_ms = d.generated_at_unix_ms in
      let same = ==_refl host in
      elim (Bool-cases (leb since_ms ts_ms)) [
        | inl e ↦
            let now = readings-live id ts_ms d.containers h.0 in
            let shown =
              drawn-append (container_events M id d)
                (flat_events M (container_events M id) (since_then since_ms dashes)) in
            rw (ih, same, e)
              (rw now (
                ap some (
                  sym (
                    shown
                    ∙ ap
                        (λ l.
                          l
                          ++ drawn
                              (flat_events M (container_events M id) (since_then since_ms dashes)))
                        (drawn-container id d)))))
        | inr e ↦ rw (ih, same, e) (ap some refl)
      ]

  -- The dashboard of a job bears its time, and its containers can be read.
  abbrev pub IsStamped : Text → Job M.F → Type 0
  IsStamped id job =
      (job.dashboard.generated_at_unix_ms ≡ job.ts_ms) × Readable id job.dashboard.containers
