-- ===== src/Collector/Persist/Tests.antt =====
-- Two jobs of a collector, the second with a prune, and what a chart shows after them.
use dockdoe.Prelude.{
  ℕ, ◌≡◌, refl, arith, Option, none, some, All, here, there, List, [], ◌∷◌, map, Text, text, drop,
}
use dockdoe.Float.Naturals.{nat_float}
use dockdoe.Model.{ContainerMetrics, Dashboard, running, HealthState}
use dockdoe.Collector.{Settings, Job, Tick, start, run, prune_cutoffs_at}
use dockdoe.Collector.Persist.{
  Statement, write_samples, write_trends, cut_samples, cut_trends, issued, persist_all, empty_db,
}
use dockdoe.Collector.Persist.Served.{cycles_of, IsJob, IsCall}
use dockdoe.Collector.Persist.Hosts.{metrics_container-history}
use dockdoe.Store.Tables.{MetricPoint}
use dockdoe.Store.Naturals.{nat_engine}
use dockdoe.Store.Raw.Seeds.{history}
use dockdoe.Web.History.{clamp_since}
use dockdoe.Web.History.Queries.{Response, points, fetch_points, metrics_container}
use dockdoe.Collector.Runs.{collected}
use dockdoe.Collector.Persist.Runs.{job_of, sample_cycle, metrics_container-run}

abbrev settings : Settings
settings = record {
  interval = 3;
  raw_retention = 4;
  trend_bucket_secs = 60;
  trend_retention = 100;
  prune_interval = 3;
}

abbrev container : ContainerMetrics ℕ
container = record {
  id = text "a";
  name = text "web";
  image = text "nginx";
  state = running;
  status = text "Up";
  health = HealthState.none;
  stack = none;
  cpu_percent = some 5;
  mem_used = some 7;
  mem_limit = none;
  net_rx_bps = none;
  net_tx_bps = none;
  disk_read_bps = none;
  disk_write_bps = none;
  ports = [];
}

abbrev job : ℕ → ℕ → Job ℕ
job ts_ms cutoff = record {
  ts_ms = ts_ms;
  dashboard = record { generated_at_unix_ms = ts_ms; cpu_count = 2; containers = container ∷ [] };
  flushed = [];
  prune_cutoffs = some (cutoff, 0);
}

abbrev first_job : Text × Job ℕ
first_job = (text "h", job 4000 0)

abbrev second_job : Text × Job ℕ
second_job = (text "h", job 9000 5000)

abbrev jobs : List (Text × Job ℕ)
jobs = first_job ∷ second_job ∷ []

first_job-IsJob : IsJob 4 9500 first_job
unfolding prune_cutoffs_at
first_job-IsJob = (settings, refl, 0, refl, omega arith)

second_job-IsJob : IsJob 4 9500 second_job
unfolding prune_cutoffs_at
second_job-IsJob = (settings, refl, 1, refl, omega arith)

-- A host with another interval.
abbrev slow_job : Text × Job ℕ
slow_job = (text "g", job 3000 0)

slow_job-IsJob : IsJob 4 9500 slow_job
unfolding prune_cutoffs_at
slow_job-IsJob = (record settings { interval = 10 }, refl, 3, refl, omega arith)

-- The prunes of the slow host's job come within the second job of the other host.
abbrev calls : List (Statement ℕ)
calls =
    write_samples (text "h") 4000 (container ∷ [])
    ∷ write_samples (text "g") 3000 (container ∷ [])
    ∷ write_trends []
    ∷ write_samples (text "h") 9000 (container ∷ [])
    ∷ cut_samples 0
    ∷ write_trends []
    ∷ cut_samples 5000
    ∷ cut_trends 0
    ∷ []

calls-IsCall : All (IsCall 4 9500) calls
calls-IsCall = (
  (first_job, here, first_job-IsJob),
  (
    (slow_job, here, slow_job-IsJob),
    (
      (first_job, there here, first_job-IsJob),
      (
        (second_job, here, second_job-IsJob),
        (
          (slow_job, there (there here), slow_job-IsJob),
          (
            (second_job, there here, second_job-IsJob),
            (
              (second_job, there (there here), second_job-IsJob),
              ((second_job, there (there (there here)), second_job-IsJob), tt),
            ),
          ),
        ),
      ),
    ),
  ),
)

metrics_container-history_example :
    ◌≡◌ {A = Response Text (MetricPoint ℕ)}
      (metrics_container nat_float nat_engine 9500 4 []
        (text "h")
        (text "a")
        0
        (persist_all nat_float nat_engine calls empty_db))
      (points
        (fetch_points (history (text "h") (text "a") (clamp_since 9500 0 4) (cycles_of calls))))
metrics_container-history_example =
    metrics_container-history nat_float nat_engine 4 9500 0 (text "h") (text "a") [] calls
      (omega arith) (omega arith) refl (omega arith) calls-IsCall

abbrev own_jobs : List (Job ℕ)
own_jobs = job 4000 0 ∷ job 9000 5000 ∷ []

-- The stream reads the second snapshot twice, and nothing before it.
abbrev reads : List (Option (Dashboard ℕ))
reads = none ∷ some (job 9000 5000).dashboard ∷ some (job 9000 5000).dashboard ∷ []

abbrev ticks : List (Tick ℕ)
ticks =
    none
    ∷ some (1000, container ∷ [])
    ∷ some (4000, container ∷ [])
    ∷ none
    ∷ some (9000, container ∷ [])
    ∷ []

metrics_container-run_example :
    ◌≡◌ {A = Response Text (MetricPoint ℕ)}
      (metrics_container nat_float nat_engine 9500 4 [] (text "h") (text "a") 0 (
        persist_all nat_float nat_engine
          (issued (
            map
              (job_of nat_float (text "h"))
              (run nat_float settings 2 (start nat_float settings (text "h") none) ticks).1))
          empty_db))
      (points (
        fetch_points (
          history
            (text "h")
            (text "a")
            (clamp_since 9500 0 4)
            (map (sample_cycle nat_float (text "h")) (drop 1 (collected nat_float ticks))))))
metrics_container-run_example =
    metrics_container-run nat_float nat_engine settings 2 9500 0 (text "h") (text "a") none ticks []
      (omega arith) (omega arith) refl (omega arith) (omega arith)
