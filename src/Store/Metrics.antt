-- ===== src/Store/Metrics.antt =====
-- src/store.rs: the metrics that a trend row describes, and the rows in the long format.
use dockdoe.Prelude.{
  ℕ, ◌≡◌, ◌↔◌, Bool, true, Option, List, [], ◌∷◌, Text, text, Equality, ◌==◌, nat_eq, arith,
  text_eq,
}

pub data Metric : Type 0 where
  cpu mem net_rx net_tx disk_read disk_write : Metric

-- The position in `Metric::ALL`.
abbrev pub slot : Metric → ℕ
slot cpu = 0
slot mem = 1
slot net_rx = 2
slot net_tx = 3
slot disk_read = 4
slot disk_write = 5

abbrev pub metric_beq : Metric → Metric → Bool
metric_beq a b = slot a == slot b

pub metric_beq_iff : (a b : Metric) → (metric_beq a b ≡ true) ↔ (a ≡ b)
metric_beq_iff cpu b = ground arith
metric_beq_iff mem b = ground arith
metric_beq_iff net_rx b = ground arith
metric_beq_iff net_tx b = ground arith
metric_beq_iff disk_read b = ground arith
metric_beq_iff disk_write b = ground arith

instance abbrev pub metric_eq : Equality Metric
metric_eq = record { test = metric_beq; test_iff = metric_beq_iff }

abbrev pub all_metrics : List Metric
all_metrics = cpu ∷ mem ∷ net_rx ∷ net_tx ∷ disk_read ∷ disk_write ∷ []

abbrev pub as_str : Metric → Text
as_str cpu = text "cpu"
as_str mem = text "mem"
as_str net_rx = text "net_rx"
as_str net_tx = text "net_tx"
as_str disk_read = text "disk_read"
as_str disk_write = text "disk_write"

-- Two metrics have the same name in the database only if they are the same.
pub as_str_beq : (a b : Metric) → (as_str a == as_str b) ≡ (a == b)
as_str_beq cpu b = ground arith
as_str_beq mem b = ground arith
as_str_beq net_rx b = ground arith
as_str_beq net_tx b = ground arith
as_str_beq disk_read b = ground arith
as_str_beq disk_write b = ground arith

pub record ContainerTrend (F : Type 0) : Type 0 where
  pub bucket_start_ms : ℕ
  pub bucket_secs : ℕ
  pub host : Text
  pub id : Text
  pub name : Text
  pub stack : Option Text
  pub metric : Text
  pub min : F
  pub max : F
  pub median : F
  pub samples : ℕ
