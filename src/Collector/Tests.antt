-- ===== src/Collector/Tests.antt =====
-- A short run of the loop, and the theorems at it.
use dockdoe.Prelude.{ℕ, ◌≡◌, refl, none, some, List, [], ◌∷◌, map, drop, text}
use dockdoe.Model.{Dashboard}
use dockdoe.Float.Naturals.{nat_float}
use dockdoe.Collector.{Settings, Tick, start, run}
use dockdoe.Collector.Runs.{persisted, paced, last_or, collected, run-start}

abbrev settings : Settings
settings = record {
  interval = 3;
  raw_retention = 1;
  trend_bucket_secs = 60;
  trend_retention = 2;
  prune_interval = 7;
}

abbrev ticks : List (Tick ℕ)
ticks = none ∷ some (1000, []) ∷ some (4000, []) ∷ none ∷ some (7000, []) ∷ some (10000, []) ∷ []

abbrev at : ℕ → Dashboard ℕ
at ts_ms = record { generated_at_unix_ms = ts_ms; cpu_count = 2; containers = [] }

prunes_every_second :
    paced nat_float settings 2 0 (drop 1 (collected nat_float ticks))
    ≡ (4000, at 4000, some (3000, 2000))
      ∷ (7000, at 7000, none)
      ∷ (10000, at 10000, some (9000, 8000))
      ∷ []
prunes_every_second = refl

run-start_example :
    (map
        (persisted nat_float)
        (run nat_float settings 2 (start nat_float settings (text "h") none) ticks).1
      ≡ paced nat_float settings 2 0 (drop 1 (collected nat_float ticks)))
    × ((run nat_float settings 2 (start nat_float settings (text "h") none) ticks).0.shared
        ≡ last_or nat_float none 2 (drop 1 (collected nat_float ticks)))
run-start_example = run-start nat_float settings 2 (text "h") none ticks
