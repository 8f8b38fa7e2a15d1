-- ===== src/Store/Raw/Seeds.antt =====
-- src/store.rs: the seed of a chart is the history of the container, as the cycles wrote it.
use dockdoe.Prelude.{
  ℕ, ◌≤◌, ◌≡◌, refl, sym, ap, ◌∙◌, arith, Bool, true, false, ◌&&◌, Bool-cases, inl, inr, Option,
  none, some, List, [], ◌∷◌, ◌++◌, map, select, select-append, All, All-select_of, All-append,
  All-map_imp, In, here, there, i64_max, if◌then◌else◌, leb, ◌==◌, ==_refl, text_eq, nat_eq, Text,
  sort_by, IsSorted, sort_by-append_last, append_assoc, append-nil,
}
use dockdoe.Model.{ContainerMetrics}
use dockdoe.Store.Tables.{to_db-exact, SampleRow, MetricPoint}
use dockdoe.Store.Raw.{
  to_db_opt, sample_row, insert_samples, seeds, later, cons_opt, row_to_point, point_of,
  collect_points, recent_container_samples,
}

-- What a cycle wrote.
pub record Cycle (F : Type 0) : Type 0 where
  pub host : Text
  pub ts_ms : ℕ
  pub containers : List (ContainerMetrics F)

abbrev pub wants : Text → Text → ℕ → ℕ → Bool
wants wanted host since_ms ts_ms = host == wanted && leb since_ms ts_ms

module _ {F : Type 0} where
  unfoldable pub insert_cycles : List (SampleRow F) → List (Cycle F) → List (SampleRow F)
  insert_cycles rows [] = rows
  insert_cycles rows (c ∷ cs) = insert_cycles (insert_samples c.host c.ts_ms c.containers rows) cs

  abbrev pub reading_of : ℕ → ContainerMetrics F → Option F → Option (MetricPoint F)
  reading_of ts_ms c none = none
  reading_of ts_ms c (some cpu_percent) = some (record {
    ts_ms = ts_ms;
    cpu_percent = cpu_percent;
    mem_used = to_db_opt c.mem_used;
    net_rx = c.net_rx_bps;
    net_tx = c.net_tx_bps;
    disk_read = c.disk_read_bps;
    disk_write = c.disk_write_bps;
  })

  -- The point of a collected container, if its CPU share was known.
  abbrev pub reading : ℕ → ContainerMetrics F → Option (MetricPoint F)
  reading ts_ms c = reading_of ts_ms c c.cpu_percent

  -- The points of the containers with that id, if all are known.
  abbrev pub readings : Text → ℕ → List (ContainerMetrics F) → Option (List (MetricPoint F))
  readings id ts_ms [] = some []
  readings id ts_ms (c ∷ cs) =
      if c.id == id then cons_opt (reading ts_ms c) (readings id ts_ms cs) else readings id ts_ms cs

  abbrev pub join :
      Option (List (MetricPoint F)) → Option (List (MetricPoint F)) → Option (List (MetricPoint F))
  join (some ps) (some qs) = some (ps ++ qs)
  join (some ps) none = none
  join none _ = none

  abbrev pub cycle_history : Text → Text → ℕ → Cycle F → Option (List (MetricPoint F))
  cycle_history host id since_ms c =
      if wants host c.host since_ms c.ts_ms then readings id c.ts_ms c.containers else some []

  -- The points of the container from that time on, in the order of the cycles.
  abbrev pub history : Text → Text → ℕ → List (Cycle F) → Option (List (MetricPoint F))
  history host id since_ms [] = some []
  history host id since_ms (c ∷ cs) =
      join (cycle_history host id since_ms c) (history host id since_ms cs)

  -- No cycle is earlier than one before it, and all times fit the database.
  abbrev pub InOrder : List (Cycle F) → Type 0
  InOrder [] = Unit
  InOrder (c ∷ cs) = (c.ts_ms ≤ i64_max) × All (λ (d : Cycle F). c.ts_ms ≤ d.ts_ms) cs × InOrder cs

  join-cons :
      (p : Option (MetricPoint F)) (o q : Option (List (MetricPoint F)))
      → cons_opt p (join o q) ≡ join (cons_opt p o) q
  join-cons none o q = refl
  join-cons (some p) none q = refl
  join-cons (some p) (some o) none = refl
  join-cons (some p) (some o) (some q) = refl

  pub join-some_nil : (o : Option (List (MetricPoint F))) → join (some []) o ≡ o
  join-some_nil none = refl
  join-some_nil (some ps) = refl

  pub join-none_more : (o : Option (List (MetricPoint F))) → join o (some []) ≡ o
  join-none_more none = refl
  join-none_more (some ps) = ap some (append-nil ps)

  join-none : (o : Option (List (MetricPoint F))) → join o none ≡ none
  join-none none = refl
  join-none (some ps) = refl

  cons_opt-none : (p : Option (MetricPoint F)) → cons_opt p none ≡ none
  cons_opt-none none = refl
  cons_opt-none (some p) = refl

  pub join_assoc : (o p q : Option (List (MetricPoint F))) → join (join o p) q ≡ join o (join p q)
  join_assoc none p q = refl
  join_assoc (some o) none q = refl
  join_assoc (some o) (some p) none = refl
  join_assoc (some o) (some p) (some q) = ap some (append_assoc o p q)

  pub collect_points-append :
      (rows more : List (SampleRow F))
      → collect_points (rows ++ more) ≡ join (collect_points rows) (collect_points more)
  unfolding collect_points
  collect_points-append [] more = sym (join-some_nil (collect_points more))
  collect_points-append (r ∷ rows) more =
      ap (cons_opt (row_to_point r)) (collect_points-append rows more)
      ∙ join-cons (row_to_point r) (collect_points rows) (collect_points more)

  point_of-reading :
      (host : Text) (ts_ms : ℕ) (c : ContainerMetrics F) (o : Option F)
      → ts_ms ≤ i64_max
      → point_of (sample_row host ts_ms c) o ≡ reading_of ts_ms c o
  unfolding sample_row
  point_of-reading host ts_ms c none h = refl
  point_of-reading host ts_ms c (some cpu) h =
      ap
        (λ t. some (record {
          ts_ms = t;
          cpu_percent = cpu;
          mem_used = to_db_opt c.mem_used;
          net_rx = c.net_rx_bps;
          net_tx = c.net_tx_bps;
          disk_read = c.disk_read_bps;
          disk_write = c.disk_write_bps;
        }))
        (to_db-exact ts_ms h)

  seeds-wants :
      (host id wanted : Text) (ts_ms since_ms : ℕ) (c : ContainerMetrics F)
      → ts_ms ≤ i64_max
      → since_ms ≤ i64_max
      → seeds wanted id since_ms (sample_row host ts_ms c)
        ≡ (wants wanted host since_ms ts_ms && c.id == id)
  unfolding sample_row
  seeds-wants host id wanted ts_ms since_ms c h k =
      let e = to_db-exact ts_ms h in let f = to_db-exact since_ms k in rw (e, f) (ground arith)

  collect_points-cycle :
      (host id wanted : Text) (ts_ms since_ms : ℕ) (cs : List (ContainerMetrics F))
      → ts_ms ≤ i64_max
      → since_ms ≤ i64_max
      → collect_points (select (seeds wanted id since_ms) (map (sample_row host ts_ms) cs))
        ≡ (if wants wanted host since_ms ts_ms then readings id ts_ms cs else some [])
  unfolding collect_points row_to_point sample_row
  collect_points-cycle host id wanted ts_ms since_ms [] h k = ground arith
  collect_points-cycle host id wanted ts_ms since_ms (c ∷ cs) h k =
      let ih = collect_points-cycle host id wanted ts_ms since_ms cs h k in
      let p = point_of-reading host ts_ms c c.cpu_percent h in
      ground (arith, ih, p, seeds-wants host id wanted ts_ms since_ms c h k)

  -- Rows that are all at most that late.
  abbrev pub Before : ℕ → List (SampleRow F) → Type 0
  Before ts_ms rows = All (λ (r : SampleRow F). r.ts_ms ≤ ts_ms) rows

  Before-sample_rows :
      (host : Text) (ts_ms : ℕ) (cs : List (ContainerMetrics F))
      → ts_ms ≤ i64_max
      → All (λ (r : SampleRow F). r.ts_ms ≡ ts_ms) (map (sample_row host ts_ms) cs)
  unfolding sample_row
  Before-sample_rows host ts_ms [] h = tt
  Before-sample_rows host ts_ms (c ∷ cs) h =
      (to_db-exact ts_ms h, Before-sample_rows host ts_ms cs h)

  later_trans : (x y z : SampleRow F) → later x y ≡ true → later y z ≡ true → later x z ≡ true
  later_trans x y z h k = ground arith

  later_le : (x y z : SampleRow F) → later x y ≡ false → later y z ≡ false → later x z ≡ false
  later_le x y z h k = ground arith

  same_time-IsSorted :
      (ts_ms : ℕ) (rows : List (SampleRow F))
      → All (λ (r : SampleRow F). r.ts_ms ≡ ts_ms) rows
      → IsSorted later rows
  same_time-IsSorted ts_ms [] h = tt
  same_time-IsSorted ts_ms (r ∷ rows) h = (
    All-map_imp (λ (q : SampleRow F). q.ts_ms ≡ ts_ms) (λ q. later r q ≡ false)
        (λ q e. let f = h.0 in ground (arith, e, f)) rows h.1,
    same_time-IsSorted ts_ms rows h.1,
  )

  pub recent-insert_samples :
      (wanted id host : Text) (since_ms ts_ms : ℕ) (cs : List (ContainerMetrics F))
      (rows : List (SampleRow F))
      → ts_ms ≤ i64_max
      → since_ms ≤ i64_max
      → Before ts_ms rows
      → recent_container_samples wanted id since_ms (insert_samples host ts_ms cs rows)
        ≡ join
            (recent_container_samples wanted id since_ms rows)
            (if wants wanted host since_ms ts_ms then readings id ts_ms cs else some [])
  unfolding recent_container_samples insert_samples
  recent-insert_samples wanted id host since_ms ts_ms cs rows h k b =
      let p = seeds wanted id since_ms in
      let new = map (sample_row host ts_ms) cs in
      let now = λ (r : SampleRow F). r.ts_ms ≡ ts_ms in
      let times = All-select_of now p new (Before-sample_rows host ts_ms cs h) in
      let old = All-select_of (λ (r : SampleRow F). r.ts_ms ≤ ts_ms) p rows b in
      let behind =
        All-map_imp now (λ c. All (λ r. later r c ≡ false) (select p rows))
          (λ c e.
            All-map_imp (λ (r : SampleRow F). r.ts_ms ≤ ts_ms) (λ r. later r c ≡ false)
              (λ r l. ground (arith, e, l)) (select p rows) old)
          (select p new) times in
      ap (λ l. collect_points (sort_by later l)) (select-append p rows new)
      ∙ ap collect_points (
          sort_by-append_last later later_trans later_le (select p rows) (select p new) behind
            (same_time-IsSorted ts_ms (select p new) times))
      ∙ collect_points-append (sort_by later (select p rows)) (select p new)
      ∙ ap (join (recent_container_samples wanted id since_ms rows))
          (collect_points-cycle host id wanted ts_ms since_ms cs h k)

  pub Before-insert_samples :
      (host : Text) (ts_ms last : ℕ) (cs : List (ContainerMetrics F)) (rows : List (SampleRow F))
      → ts_ms ≤ i64_max
      → ts_ms ≤ last
      → Before ts_ms rows
      → Before last (insert_samples host ts_ms cs rows)
  unfolding insert_samples
  Before-insert_samples host ts_ms last cs rows h l b =
      All-append (λ (r : SampleRow F). r.ts_ms ≤ last) rows (map (sample_row host ts_ms) cs)
        (All-map_imp (λ (r : SampleRow F). r.ts_ms ≤ ts_ms) (λ r. r.ts_ms ≤ last)
          (λ r e. omega (arith, e, l)) rows b)
        (All-map_imp (λ (r : SampleRow F). r.ts_ms ≡ ts_ms) (λ r. r.ts_ms ≤ last)
          (λ r e. omega (arith, e, l)) (map (sample_row host ts_ms) cs)
          (Before-sample_rows host ts_ms cs h))

  insert_cycles-recent :
      (wanted id : Text) (since_ms : ℕ) (rows : List (SampleRow F)) (cycles : List (Cycle F))
      → InOrder cycles
      → since_ms ≤ i64_max
      → All (λ (c : Cycle F). Before c.ts_ms rows) cycles
      → recent_container_samples wanted id since_ms (insert_cycles rows cycles)
        ≡ join
            (recent_container_samples wanted id since_ms rows)
            (history wanted id since_ms cycles)
  unfolding insert_cycles
  insert_cycles-recent wanted id since_ms rows [] o k b = sym (join-none_more _)
  insert_cycles-recent wanted id since_ms rows (c ∷ cs) o k b =
      insert_cycles-recent wanted id since_ms (insert_samples c.host c.ts_ms c.containers rows) cs
        o.2 k
        (All-map_imp (λ (d : Cycle F). c.ts_ms ≤ d.ts_ms)
          (λ (d : Cycle F). Before d.ts_ms (insert_samples c.host c.ts_ms c.containers rows))
          (λ d l. Before-insert_samples c.host c.ts_ms d.ts_ms c.containers rows o.0 l b.0) cs o.1)
      ∙ ap (λ l. join l (history wanted id since_ms cs))
          (recent-insert_samples wanted id c.host since_ms c.ts_ms c.containers rows o.0 k b.0)
      ∙ join_assoc (recent_container_samples wanted id since_ms rows)
          (cycle_history wanted id since_ms c) (history wanted id since_ms cs)

  pub All-Before_nil : (cs : List (Cycle F)) → All (λ (c : Cycle F). Before c.ts_ms []) cs
  All-Before_nil [] = tt
  All-Before_nil (c ∷ cs) = (tt, All-Before_nil cs)

  -- After any cycles in the order of time, the seed of a container's chart is the history of the
  -- container from the given time on: the points of every cycle of its host that collected it, in
  -- order, or an error if one of them has no CPU share.
  pub recent_container_samples-history :
      (host id : Text) (since_ms : ℕ) (cycles : List (Cycle F))
      → InOrder cycles
      → since_ms ≤ i64_max
      → recent_container_samples host id since_ms (insert_cycles [] cycles)
        ≡ history host id since_ms cycles
  unfolding recent_container_samples sort_by
  recent_container_samples-history host id since_ms cycles o k =
      insert_cycles-recent host id since_ms [] cycles o k (All-Before_nil cycles)
      ∙ join-some_nil (history host id since_ms cycles)

  readings-unread :
      (ts_ms : ℕ) {c : ContainerMetrics F} {cs : List (ContainerMetrics F)}
      → In c cs
      → c.cpu_percent ≡ none
      → readings c.id ts_ms cs ≡ none
  readings-unread ts_ms {c} (here {xs = cs}) e =
      let same = ==_refl c.id in
      let missing : reading ts_ms c ≡ none = ap (reading_of ts_ms c) e in rw (same, missing) refl
  readings-unread ts_ms {c} (there {x = x} {xs = cs} m) e =
      let ih = readings-unread ts_ms m e in
      elim (Bool-cases (x.id == c.id)) [
        | inl f ↦ rw (f, ih) (cons_opt-none (reading ts_ms x))
        | inr f ↦ rw f ih
      ]

  history-unread :
      (since_ms : ℕ) {d : Cycle F} {cycles : List (Cycle F)} {c : ContainerMetrics F}
      → In d cycles
      → In c d.containers
      → since_ms ≤ d.ts_ms
      → c.cpu_percent ≡ none
      → history d.host c.id since_ms cycles ≡ none
  history-unread since_ms {d} {c = c} (here {xs = cycles}) n l e =
      let known = readings-unread d.ts_ms n e in
      let wanted : wants d.host d.host since_ms d.ts_ms ≡ true =
        ground (arith, l, ==_refl d.host) in
      rw (wanted, known) refl
  history-unread since_ms {d} {c = c} (there {x = x} {xs = cycles} m) n l e =
      let ih = history-unread since_ms m n l e in
      rw ih (join-none (cycle_history d.host c.id since_ms x))

  -- After cycles in the order of time, with times that fit the database, written to an empty table of
  -- which nothing was pruned: a single cycle that collected the container without a CPU share, as one
  -- has that is new or does not run, makes every request of its seed fail whose window reaches back to
  -- that cycle.
  pub recent_container_samples-unread :
      (since_ms : ℕ) (cycles : List (Cycle F)) (d : Cycle F) (c : ContainerMetrics F)
      → InOrder cycles
      → since_ms ≤ i64_max
      → In d cycles
      → In c d.containers
      → since_ms ≤ d.ts_ms
      → c.cpu_percent ≡ none
      → recent_container_samples d.host c.id since_ms (insert_cycles [] cycles) ≡ none
  recent_container_samples-unread since_ms cycles d c o k m n l e =
      recent_container_samples-history d.host c.id since_ms cycles o k
      ∙ history-unread since_ms m n l e
