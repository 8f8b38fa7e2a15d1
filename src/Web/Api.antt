-- ===== src/Web/Api.antt =====
-- src/web.rs: what a node serves to a hub. A response is a status with its body, as the hub decodes it.
use dockdoe.Prelude.{Bool, Option, none, some, List, [], ◌∷◌, map, lookup, text_eq, Text}
use dockdoe.Model.{Dashboard, Snapshot, HostEntry}
use dockdoe.Federation.Node.{Answer, replied}
pub mod Hub
mod Tests

-- A host's shared snapshot and its read-only flag.
pub record Runtime (F : Type 0) : Type 0 where
  pub shared : Option (Dashboard F)
  pub read_only : Bool

unfoldable pub api_hosts : Text → List Text → List HostEntry
api_hosts version host_order = map (λ name. record { name = name; version = version }) host_order

module _ {F : Type 0} where
  abbrev pub current_response : Text → Bool → Option (Dashboard F) → Answer (Snapshot F)
  current_response version read_only none = replied 503 none
  current_response version read_only (some dashboard) =
      replied 200
        (some (record { version = version; read_only = read_only; dashboard = dashboard }))

  abbrev pub runtime_response : Text → Option (Runtime F) → Answer (Snapshot F)
  runtime_response version none = replied 404 none
  runtime_response version (some rt) = current_response version rt.read_only rt.shared

  unfoldable pub api_snapshot : Text → List (Text × Runtime F) → Text → Answer (Snapshot F)
  api_snapshot version hosts host = runtime_response version (lookup host hosts)
