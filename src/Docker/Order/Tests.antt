-- ===== src/Docker/Order/Tests.antt =====
-- Orders of small stacks, and the theorem at an acyclic one.
use mathlib.Core.List.{Perm}
use dockdoe.Prelude.{
  ◌≡◌, refl, none, some, List, [], ◌∷◌, arith, Text, text, text_eq, ◌==◌, if◌then◌else◌,
}
use dockdoe.Docker.Members.{namespace_deps, Dep, Member, started, services}
use dockdoe.Docker.Order.{topo_order}
use dockdoe.Docker.Order.Sound.{DepsBefore, IsOrdering, topo_order-IsOrdering}
use dockdoe.Docker.Order.Acyclic.{topo_order-DepsBefore}

abbrev on : Text → Dep
on s = record { service = s; condition = started }

abbrev member : Text → List Dep → Member
member s ds = record { id = s; service = s; deps = ds }

abbrev web : Member
web = member (text "web") (on (text "db") ∷ on (text "outside") ∷ [])

abbrev db : Member
db = member (text "db") []

dependencies_first : topo_order (web ∷ db ∷ []) ≡ some (db ∷ web ∷ [])
unfolding topo_order
dependencies_first = refl

abbrev a_on_b : Member
a_on_b = member (text "a") (on (text "b") ∷ [])

abbrev b_on_a : Member
b_on_a = member (text "b") (on (text "a") ∷ [])

cycle_keeps_listing_order :
    topo_order (a_on_b ∷ b_on_a ∷ db ∷ []) ≡ some (db ∷ a_on_b ∷ b_on_a ∷ [])
unfolding topo_order
cycle_keeps_listing_order = refl

topo_order-DepsBefore_example :
    (order : List Member) × (topo_order (web ∷ db ∷ []) ≡ some order)
    × Perm order (web ∷ db ∷ [])
    × DepsBefore (services (web ∷ db ∷ [])) [] order
topo_order-DepsBefore_example =
    topo_order-DepsBefore (web ∷ db ∷ []) (λ s. if s == text "web" then 1 else 0)
      (((λ _. omega arith), ((λ h. ground arith), tt)), (tt, tt))

topo_order-IsOrdering_example :
    (order : List Member) × (topo_order (a_on_b ∷ b_on_a ∷ db ∷ []) ≡ some order)
    × IsOrdering
        (services (a_on_b ∷ b_on_a ∷ db ∷ []))
        (a_on_b ∷ b_on_a ∷ db ∷ [])
        (a_on_b ∷ b_on_a ∷ db ∷ [])
        order
topo_order-IsOrdering_example = topo_order-IsOrdering (a_on_b ∷ b_on_a ∷ db ∷ [])

-- Only a mode of the form `container:<id>` names a container.
joined :
    namespace_deps (
      some (record {
        network_mode = some (text "container:db");
        ipc_mode = some (text "host");
        pid_mode = none;
      }))
    ≡ text "db" ∷ []
unfolding namespace_deps
joined = refl
