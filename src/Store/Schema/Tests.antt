-- ===== src/Store/Schema/Tests.antt =====
-- The database of an early build, and its upgrade.
use dockdoe.Prelude.{◌≡◌, refl, true, none, some, [], ◌∷◌, All, contains, text_eq, text}
use dockdoe.Store.Schema.{
  Names, Schema, sample_columns, create_table, long_columns, from_connection,
}
use dockdoe.Store.Schema.Upgrade.{IsWide, from_connection-upgrade}

abbrev early_sample : Names
early_sample = text "ts_ms" ∷ text "id" ∷ text "name" ∷ text "cpu_percent" ∷ []

-- Without hosts, and with the trends in the long layout.
abbrev early : Schema
early = record { sample = some early_sample; trend = some long_columns; last_bucket = some 7200000 }

from_connection-upgrade_example :
    (sample : Names) × (trend : Names) × (from_connection early
      ≡ some (record { sample = some sample; trend = some trend; last_bucket = some 7200000 }))
    × (from_connection
          (record { sample = some sample; trend = some trend; last_bucket = some 7200000 })
        ≡ some (record { sample = some sample; trend = some trend; last_bucket = some 7200000 }))
    × All (λ c. contains sample c ≡ true) (create_table sample_columns early.sample)
    × IsWide trend
from_connection-upgrade_example = from_connection-upgrade early (refl, refl, refl)

-- A long table with rows that lacks a column of the pivot cannot be opened.
without_median :
    from_connection (record early {
      trend = some (text "bucket_start_ms" ∷ text "name" ∷ text "stack" ∷ text "metric" ∷ []);
    })
    ≡ none
unfolding from_connection
without_median = refl
