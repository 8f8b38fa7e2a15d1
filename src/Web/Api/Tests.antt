-- ===== src/Web/Api/Tests.antt =====
-- A node with two hosts, and a hub that mirrors the second.
use dockdoe.Prelude.{
  ◌≡◌, refl, false, true, none, some, List, [], ◌∷◌, In, lookup, text_eq, Text, text, ℕ,
}
use dockdoe.Model.{HostEntry}
use dockdoe.Federation.Node.{ok, replied, resolve_node_host, snapshot_answer}
use dockdoe.Web.Api.{Runtime, api_hosts, api_snapshot}
use dockdoe.Web.Api.Hub.{latest_of, resolve_node_host-serves}

abbrev order : List Text
order = text "local" ∷ text "nas" ∷ []

abbrev hosts : List (Text × Runtime ℕ)
hosts =
    (text "local", record { shared = none; read_only = false })
    ∷ (
      text "nas",
      record {
        shared = some (record { generated_at_unix_ms = 7; cpu_count = 2; containers = [] });
        read_only = true;
      },
    )
    ∷ []

abbrev nas : HostEntry
nas = record { name = text "nas"; version = text "1.0" }

resolves_nas :
    resolve_node_host (replied 200 (some (api_hosts (text "1.0") order))) (some (text "nas"))
    ≡ ok nas
unfolding resolve_node_host api_hosts
resolves_nas = refl

resolve_node_host-serves_example :
    In nas.name order
    × (snapshot_answer (api_snapshot (text "1.0") hosts nas.name)
        ≡ ok (latest_of (text "1.0") (lookup nas.name hosts)))
resolve_node_host-serves_example =
    resolve_node_host-serves (text "1.0") order hosts (some (text "nas")) nas
      ((λ h. cc), ((λ h. cc), tt)) resolves_nas
