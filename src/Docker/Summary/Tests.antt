-- ===== src/Docker/Summary/Tests.antt =====
-- src/docker.rs: runs of the functions on a listing's entry.
use dockdoe.Prelude.{◌≡◌, refl, none, some, [], ◌∷◌, map, contains, text}
use dockdoe.Model.{HealthState, Port}
use dockdoe.Docker.Summary.{
  PortType, SummaryState, ContainerSummary, display_name, parse_health, ports, port_of,
  listed_ports, port_eq,
}
use dockdoe.Docker.Summary.Ports.{ports-canonical, AreDistinct, AreOrdered}

abbrev web : ContainerSummary
web = record {
  id = some (text "0123456789abcdef");
  names = some (text "/web" ∷ []);
  image = none;
  state = some SummaryState.running;
  status = some (text "Up 2 hours (healthy)");
  labels = none;
  ports = some (
      record { private_port = 53; public_port = none; typ = some PortType.udp }
      ∷ record { private_port = 443; public_port = some 8443; typ = some PortType.tcp }
      ∷ record { private_port = 80; public_port = some 8080; typ = none }
      ∷ record { private_port = 443; public_port = some 8443; typ = some PortType.tcp }
      ∷ []);
}

web_ports : map (λ (p : Port). p.private) (ports web) ≡ 80 ∷ 443 ∷ 53 ∷ []
unfolding ports
web_ports = refl

web_name : display_name web ≡ text "web"
unfolding display_name
web_name = refl

short_id : display_name (record web { names = none }) ≡ text "0123456789ab"
unfolding display_name
short_id = refl

web_health : parse_health (text "Up 2 hours (healthy)") ≡ HealthState.healthy
unfolding parse_health
web_health = refl

ports-canonical_example :
    AreOrdered (ports web)
    × AreDistinct (ports web)
    × ((q : Port) → contains (ports web) q ≡ contains (map port_of (listed_ports web.ports)) q)
ports-canonical_example = ports-canonical web
