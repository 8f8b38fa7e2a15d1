-- ===== src/Store/Rows/Tests.antt =====
-- Two lives of a container in one bucket, and the theorem at them.
use dockdoe.Prelude.{ℕ, ◌%◌, ◌^◌, ◌≡◌, refl, arith, none, List, [], ◌∷◌, Text, text}
use dockdoe.Float.Naturals.{nat_float}
use dockdoe.Store.Metrics.{cpu, ContainerTrend}
use dockdoe.Store.Rows.{RowKey, pivot_trends}
use dockdoe.Store.Rows.Samples.{samples_in, total, pivot_trends-samples}

abbrev rollup : Text → Text → ℕ → ℕ → ContainerTrend ℕ
rollup id metric value samples = record {
  bucket_start_ms = 60000;
  bucket_secs = 60;
  host = text "h";
  id = id;
  name = text "web";
  stack = none;
  metric = metric;
  min = value;
  max = value;
  median = value;
  samples = samples;
}

abbrev rollups : List (ContainerTrend ℕ)
rollups =
    rollup (text "1") (text "cpu") 10 3
    ∷ rollup (text "2") (text "cpu") 20 1
    ∷ rollup (text "2") (text "gpu") 5 9
    ∷ []

abbrev web_row : RowKey
web_row = (text "h", (text "web", 60000))

counts_both : total nat_float web_row cpu rollups ≡ 4
counts_both = refl

pivot_trends-samples_example :
    samples_in nat_float web_row cpu (pivot_trends nat_float rollups)
    ≡ total nat_float web_row cpu rollups % 2 ^ 32
pivot_trends-samples_example =
    pivot_trends-samples nat_float web_row cpu rollups
      (omega arith, (omega arith, (omega arith, tt)))
