-- ===== src/Collector/Persist.antt =====
-- src/collector.rs: the persistence task, which writes a cycle and prunes on the way.
-- The tasks of all hosts share one store, which takes one call at a time: the calls of a job are a list,
-- and those of several hosts come in any interleaving. A call that fails is left out.
use dockdoe.Prelude.{ℕ, Option, none, some, List, [], ◌∷◌, ◌++◌, Text}
use dockdoe.Float.{Float}
use dockdoe.Model.{ContainerMetrics}
use dockdoe.Store.Metrics.{ContainerTrend}
use dockdoe.Store.Tables.{Db}
use dockdoe.Store.Raw.{insert_samples, prune_raw}
use dockdoe.Store.History.{Engine}
use dockdoe.Store.Upsert.{insert_container_trends, prune_trends}
use dockdoe.Collector.{Job}
pub mod Served
pub mod Runs
pub mod Hosts
mod Tests

pub data Statement (F : Type 0) : Type 0 where
  write_samples : (host : Text) (ts_ms : ℕ) (samples : List (ContainerMetrics F)) → Statement F
  write_trends : List (ContainerTrend F) → Statement F
  cut_samples : (before_ms : ℕ) → Statement F
  cut_trends : (before_ms : ℕ) → Statement F

abbrev pub pruned : {F : Type 0} → Option (ℕ × ℕ) → List (Statement F)
pruned none = []
pruned (some (raw_cutoff_ms, trend_cutoff_ms)) =
    cut_samples raw_cutoff_ms ∷ cut_trends trend_cutoff_ms ∷ []

-- The calls of the store that a job makes, one after the other.
abbrev pub persist : {F : Type 0} → Text → Job F → List (Statement F)
persist host job =
    write_samples host job.ts_ms job.dashboard.containers
    ∷ write_trends job.flushed
    ∷ pruned job.prune_cutoffs

-- The calls of jobs that run one after the other, as those of one host do.
abbrev pub issued : {F : Type 0} → List (Text × Job F) → List (Statement F)
issued [] = []
issued ((host, job) ∷ jobs) = persist host job ++ issued jobs

module _ (M : Float) (E : Engine M.F) where
  unfoldable pub execute : Statement M.F → Db M.F → Db M.F
  unfolding insert_samples insert_container_trends prune_raw prune_trends
  execute (write_samples host ts_ms containers) db = record db {
    samples = insert_samples host ts_ms containers db.samples;
  }
  execute (write_trends flushed) db = record db {
    trends = insert_container_trends M E flushed db.trends;
  }
  execute (cut_samples before_ms) db = record db { samples = (prune_raw before_ms db.samples).0 }
  execute (cut_trends before_ms) db = record db { trends = (prune_trends before_ms db.trends).0 }

  -- The calls in the order in which the store takes them.
  unfoldable pub persist_all : List (Statement M.F) → Db M.F → Db M.F
  unfolding execute
  persist_all [] db = db
  persist_all (statement ∷ statements) db = persist_all statements (execute statement db)

abbrev pub empty_db : {F : Type 0} → Db F
empty_db = record { samples = []; trends = []; meta = [] }
