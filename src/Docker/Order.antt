-- ===== src/Docker/Order.antt =====
-- src/docker.rs: `topo_order`, the order in which the members of a stack are started.
use dockdoe.Prelude.{
  ℕ, zero, suc, Bool, true, false, Option, none, some, List, [], ◌∷◌, ◌++◌, ◌||◌, not, ◌==◌, Text,
  text_eq, contains, all, select, length,
}
use dockdoe.Docker.Members.{Dep, Member, services}
pub mod Sound
pub mod Acyclic
mod Tests

-- Every dependency of the member is outside the stack or has been placed.
unfoldable pub is_ready : List Text → List Text → Member → Bool
is_ready in_stack placed m =
    all (λ (d : Dep). not (contains in_stack d.service) || contains placed d.service) m.deps

-- The `while` loop, with the rounds that are left; `none` when they run out.
unfoldable pub rounds : ℕ → List Text → List Text → List Member → List Member → Option (List Member)
unfolding is_ready
rounds fuel in_stack placed result [] = some result
rounds zero in_stack placed result (m ∷ ms) = none
rounds (suc fuel) in_stack placed result (m ∷ ms) =
    elim (select (is_ready in_stack placed) (m ∷ ms)) [
      | [] ↦ some (result ++ select (λ k. not (is_ready in_stack placed k)) (m ∷ ms))
      | r ∷ rs ↦
          rounds fuel in_stack (placed ++ services (r ∷ rs)) (result ++ r ∷ rs)
            (select (λ k. not (is_ready in_stack placed k)) (m ∷ ms))
    ]

unfoldable pub topo_order : List Member → Option (List Member)
unfolding rounds
topo_order members = rounds (length members) (services members) [] [] members
