-- ===== src/Docker/Stack/Api.antt =====
-- src/docker.rs: what the stack actions use of the engine and the clock.
use Prim.Native.Nat.{ℕ}
use mathlib.Core.Bool.{Bool}
use mathlib.Core.Option.{Option}
use dockdoe.Prelude.{Text}
use dockdoe.Web.Actions.{Action}

-- `HealthStatusEnum`.
pub data HealthStatus : Type 0 where
  empty none starting healthy unhealthy : HealthStatus

-- The part of an inspected container's state that the code reads.
pub record InspectState : Type 0 where
  pub running : Option Bool
  pub health : Option (Option HealthStatus)

pub record Engine : Type 1 where
  pub World : Type 0
  pub now : World → ℕ
  pub sleep : ℕ → World → World
  -- `inspect_container`, `none` for an error or a missing state.
  pub inspect : Text → World → World × Option InspectState
  -- `DockerHandle::apply`, `true` for `Ok`.
  pub apply : Text → Action → World → World × Bool

pub record StackOutcome : Type 0 where
  pub total : ℕ
  pub failed : ℕ
