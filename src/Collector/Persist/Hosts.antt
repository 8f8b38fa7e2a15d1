-- ===== src/Collector/Persist/Hosts.antt =====
-- src/collector.rs, src/store.rs, src/web.rs: of the calls of several hosts, a chart shows its own host's.
use dockdoe.Prelude.{
  ℕ, ◌≤◌, ◌==◌, Bool-cases, Bool, true, false, inl, inr, lookup, sort_by, i64_max, ◌≡◌, refl, sym,
  ap, ◌∙◌, arith, none, some, List, [], ◌∷◌, ◌++◌, map, select, select-append, select-select,
  append-nil, if◌then◌else◌, Text, text_eq, All, All-select_of, not, subst,
}
use dockdoe.Float.{Float}
use dockdoe.Model.{ContainerMetrics}
use dockdoe.Store.Tables.{Db, SampleRow}
use dockdoe.Store.Raw.{
  sample_row, insert_samples, prune_raw, aged_out, seeds, later, collect_points,
  recent_container_samples,
}
use dockdoe.Store.Raw.Seeds.{Cycle, history, cycle_history, InOrder, join, join-some_nil}
use dockdoe.Store.History.{Engine}
use dockdoe.Store.Upsert.{insert_container_trends, prune_trends}
use dockdoe.Collector.Persist.{
  Statement, write_samples, write_trends, cut_samples, cut_trends, execute, persist_all, empty_db,
}
use dockdoe.Collector.Persist.Served.{cycles_of, IsCall, metrics_container-calls}
use dockdoe.Web.History.{clamp_since}
use dockdoe.Web.History.Queries.{
  points, HostRuntime, fetch_points, metrics_container, at_source, proxied_or,
}

select-swap :
    {A : Type 0} (p q : A → Bool) (xs : List A) → select p (select q xs) ≡ select q (select p xs)
select-swap p q [] = refl
select-swap p q (x ∷ xs) = ground (arith, select-swap p q xs)

module _ {F : Type 0} (host : Text) where
  abbrev own_row : SampleRow F → Bool
  own_row r = r.host == host

  abbrev own_cycle : Cycle F → Bool
  own_cycle c = c.host == host

  -- The calls of other hosts write no sample of this one.
  abbrev own_call : Statement F → Bool
  own_call (write_samples h ts_ms containers) = h == host
  own_call (write_trends flushed) = true
  own_call (cut_samples before_ms) = true
  own_call (cut_trends before_ms) = true

  own-sample_rows :
      (h : Text) (ts_ms : ℕ) (cs : List (ContainerMetrics F))
      → (h == host) ≡ true
      → select own_row (map (sample_row h ts_ms) cs) ≡ map (sample_row h ts_ms) cs
  unfolding sample_row
  own-sample_rows h ts_ms [] e = refl
  own-sample_rows h ts_ms (c ∷ cs) e =
      rw e (ap (λ l. sample_row h ts_ms c ∷ l) (own-sample_rows h ts_ms cs e))

  other-sample_rows :
      (h : Text) (ts_ms : ℕ) (cs : List (ContainerMetrics F))
      → (h == host) ≡ false
      → select own_row (map (sample_row h ts_ms) cs) ≡ []
  unfolding sample_row
  other-sample_rows h ts_ms [] e = refl
  other-sample_rows h ts_ms (c ∷ cs) e = rw e (other-sample_rows h ts_ms cs e)

  own_row-recent :
      (id : Text) (since : ℕ) (rows : List (SampleRow F))
      → recent_container_samples host id since (select own_row rows)
        ≡ recent_container_samples host id since rows
  unfolding recent_container_samples
  own_row-recent id since rows =
      ap (λ l. collect_points (sort_by later l))
        (select-select (seeds host id since) own_row rows (λ r h. ground (arith, h)))

  own_cycle-history :
      (id : Text) (since : ℕ) (cycles : List (Cycle F))
      → history host id since (select own_cycle cycles) ≡ history host id since cycles
  own_cycle-history id since [] = refl
  own_cycle-history id since (c ∷ cycles) =
      let ih = own_cycle-history id since cycles in
      let kept = select own_cycle cycles in
      elim (Bool-cases (c.host == host)) [
        | inl e ↦
            ap (λ (b : Bool). history host id since (if b then c ∷ kept else kept)) e
            ∙ ap (join (cycle_history host id since c)) ih
        | inr e ↦
            let nothing : cycle_history host id since c ≡ some [] = rw e refl in
            ap (λ (b : Bool). history host id since (if b then c ∷ kept else kept)) e
            ∙ ih
            ∙ sym (
                ap (λ o. join o (history host id since cycles)) nothing
                ∙ join-some_nil (history host id since cycles))
      ]

  cycles_of-own :
      (calls : List (Statement F))
      → cycles_of (select own_call calls) ≡ select own_cycle (cycles_of calls)
  cycles_of-own [] = refl
  cycles_of-own (write_samples h ts_ms containers ∷ calls) =
      let ih = cycles_of-own calls in
      elim (Bool-cases (h == host)) [
        | inl e ↦
            rw e (ap (λ l. record { host = h; ts_ms = ts_ms; containers = containers } ∷ l) ih)
        | inr e ↦ rw e ih
      ]
  cycles_of-own (write_trends flushed ∷ calls) = cycles_of-own calls
  cycles_of-own (cut_samples before_ms ∷ calls) = cycles_of-own calls
  cycles_of-own (cut_trends before_ms ∷ calls) = cycles_of-own calls

module _ (M : Float) (E : Engine M.F) (host : Text) where
  -- Without the samples of other hosts, the table has the rows of this one.
  persist_all-own :
      (calls : List (Statement M.F)) (db own : Db M.F)
      → own.samples ≡ select (own_row host) db.samples
      → (persist_all M E (select (own_call host) calls) own).samples
        ≡ select (own_row host) (persist_all M E calls db).samples
  unfolding persist_all execute insert_samples prune_raw
  persist_all-own [] db own e = e
  persist_all-own (write_samples h ts_ms containers ∷ calls) db own e =
      let new = map (sample_row h ts_ms) containers in
      let next : Db M.F = record db { samples = db.samples ++ new } in
      let joined = select-append (own_row host) db.samples new in
      elim (Bool-cases (h == host)) [
        | inl b ↦
            let rows =
              ap (λ l. l ++ new) e
              ∙ ap (λ l. select (own_row host) db.samples ++ l)
                  (sym (own-sample_rows host h ts_ms containers b))
              ∙ sym joined in
            rw b (persist_all-own calls next (record own { samples = own.samples ++ new }) rows)
        | inr b ↦
            let rows =
              e
              ∙ sym (append-nil (select (own_row host) db.samples))
              ∙ ap (λ l. select (own_row host) db.samples ++ l)
                  (sym (other-sample_rows host h ts_ms containers b))
              ∙ sym joined in
            rw b (persist_all-own calls next own rows)
      ]
  persist_all-own (write_trends flushed ∷ calls) db own e =
      persist_all-own calls (record db { trends = insert_container_trends M E flushed db.trends })
        (record own { trends = insert_container_trends M E flushed own.trends }) e
  persist_all-own (cut_samples before_ms ∷ calls) db own e =
      let live = λ (r : SampleRow M.F). not (aged_out before_ms r) in
      persist_all-own calls (record db { samples = select live db.samples })
        (record own { samples = select live own.samples })
        (ap (λ rows. select live rows) e ∙ select-swap live (own_row host) db.samples)
  persist_all-own (cut_trends before_ms ∷ calls) db own e =
      persist_all-own calls (record db { trends = (prune_trends before_ms db.trends).0 })
        (record own { trends = (prune_trends before_ms own.trends).0 }) e

module _ (M : Float) (E : Engine M.F) (raw_retention now since_ms : ℕ) where
  -- Whatever calls the jobs of the collectors of all hosts made, interleaved in any way, where the
  -- collectors have one retention of raw samples and may otherwise differ in their settings: if the
  -- times of a local host's own samples never decrease and fit the database, a request for the points
  -- of a container's chart, at a time that fits the database and is not before that of any job, is
  -- answered with the history of the container in the samples written, from the given time on or from
  -- the beginning of the raw retention: every point once and in order, none lost to a prune; or with
  -- none, if one of the points has no CPU share.
  pub metrics_container-history :
      {A : Type 0} (host id : Text) (hosts : List (Text × HostRuntime A M.F))
      (calls : List (Statement M.F))
      → now ≤ i64_max
      → since_ms ≤ i64_max
      → at_source (lookup host hosts) ≡ none
      → InOrder (select (λ (c : Cycle M.F). c.host == host) (cycles_of calls))
      → All (IsCall raw_retention now) calls
      → metrics_container M E now raw_retention hosts host id since_ms
          (persist_all M E calls empty_db)
        ≡ points (
            fetch_points
              (history host id (clamp_since now since_ms raw_retention) (cycles_of calls)))
  unfolding metrics_container
  metrics_container-history host id hosts calls n f local o cs =
      let since = clamp_since now since_ms raw_retention in
      let own = select (own_call host) calls in
      let same =
        sym (own_row-recent host id since (persist_all M E calls empty_db).samples)
        ∙ ap (recent_container_samples host id since)
            (sym (persist_all-own M E host calls empty_db empty_db refl)) in
      ap (λ h. proxied_or (at_source (lookup host hosts)) (points (fetch_points h))) same
      ∙ metrics_container-calls M E raw_retention now since_ms host id hosts own n f local
          (subst InOrder (sym (cycles_of-own host calls)) o)
          (All-select_of (IsCall raw_retention now) (own_call host) calls cs)
      ∙ ap (λ h. points (fetch_points h))
          (ap (history host id since) (cycles_of-own host calls)
            ∙ own_cycle-history host id since (cycles_of calls))
