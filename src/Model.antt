-- ===== src/Model.antt =====
-- src/model.rs: the data that the collector produces and the other parts read. `F` stands for `f64`.
-- `u64`, `u16` and `usize` values are natural numbers; each use writes out its own range.
use Prim.Native.Nat.{ℕ}
use mathlib.Core.Option.{Option}
use mathlib.Core.List.{List}
use mathlib.Core.Bool.{Bool}
use dockdoe.Prelude.{Text}

pub data ContainerState : Type 0 where
  created running paused restarting exited removing dead stopping unknown : ContainerState

pub data HealthState : Type 0 where
  healthy unhealthy starting none : HealthState

pub record Port : Type 0 where
  pub private : ℕ
  pub public : Option ℕ
  pub proto : Text

module _ (F : Type 0) where
  pub record ContainerMetrics : Type 0 where
    pub id : Text
    pub name : Text
    pub image : Text
    pub state : ContainerState
    pub status : Text
    pub health : HealthState
    pub stack : Option Text
    pub cpu_percent : Option F
    pub mem_used : Option ℕ
    pub mem_limit : Option ℕ
    pub net_rx_bps : Option F
    pub net_tx_bps : Option F
    pub disk_read_bps : Option F
    pub disk_write_bps : Option F
    pub ports : List Port

  pub record Dashboard : Type 0 where
    pub generated_at_unix_ms : ℕ
    pub cpu_count : ℕ
    pub containers : List ContainerMetrics

  pub record Snapshot : Type 0 where
    pub version : Text
    pub read_only : Bool
    pub dashboard : Dashboard

pub record HostEntry : Type 0 where
  pub name : Text
  pub version : Text
