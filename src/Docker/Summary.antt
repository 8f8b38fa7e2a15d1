-- ===== src/Docker/Summary.antt =====
-- src/docker.rs: what a container's entry in the listing gives without a stats sample.
use dockdoe.Prelude.{
  ℕ, ◌≡◌, ◌↔◌, arith, Bool, true, false, ◌&&◌, Option, none, some, List, [], ◌∷◌, if◌then◌else◌,
  ltb, ◌==◌, Equality, nat_eq, text_eq, text_beq_iff, option_eq, option_beq_iff, nat_beq_iff,
  contains, take, Text, text, has_substring, trim_start_matches, lookup, sort_by,
}
use dockdoe.Model.{ContainerState, HealthState, Port}
pub mod Ports
mod Tests

pub data PortType : Type 0 where
  empty tcp udp sctp : PortType

pub record PortSummary : Type 0 where
  pub private_port : ℕ
  pub public_port : Option ℕ
  pub typ : Option PortType

-- `ContainerSummaryStateEnum`.
pub data SummaryState : Type 0 where
  empty created running paused restarting exited removing dead stopping : SummaryState

pub record ContainerSummary : Type 0 where
  pub id : Option Text
  pub names : Option (List Text)
  pub image : Option Text
  pub state : Option SummaryState
  pub status : Option Text
  pub labels : Option (List (Text × Text))
  pub ports : Option (List PortSummary)

abbrev pub or_empty : Option Text → Text
or_empty none = []
or_empty (some s) = s

abbrev pub id_of : ContainerSummary → Text
id_of s = or_empty s.id

abbrev pub is_running_state : Option SummaryState → Bool
is_running_state (some SummaryState.running) = true
is_running_state _ = false

abbrev pub is_running : ContainerSummary → Bool
is_running s = is_running_state s.state

abbrev pub first_name : Option (List Text) → Option Text
first_name none = none
first_name (some []) = none
first_name (some (n ∷ ns)) = some n

abbrev pub name_or : Text → Option Text → Text
unfolding trim_start_matches
name_or id none = take 12 id
name_or id (some n) = trim_start_matches (λ c. c == b'/') n

unfoldable pub display_name : ContainerSummary → Text
unfolding trim_start_matches
display_name s = name_or (id_of s) (first_name s.names)

abbrev pub project_of : Option (List (Text × Text)) → Option Text
project_of none = none
project_of (some labels) = lookup (text "com.docker.compose.project") labels

unfoldable pub compose_project : ContainerSummary → Option Text
compose_project s = project_of s.labels

unfoldable pub map_state : Option SummaryState → ContainerState
map_state none = ContainerState.unknown
map_state (some SummaryState.empty) = ContainerState.unknown
map_state (some SummaryState.created) = ContainerState.created
map_state (some SummaryState.running) = ContainerState.running
map_state (some SummaryState.paused) = ContainerState.paused
map_state (some SummaryState.restarting) = ContainerState.restarting
map_state (some SummaryState.exited) = ContainerState.exited
map_state (some SummaryState.removing) = ContainerState.removing
map_state (some SummaryState.dead) = ContainerState.dead
map_state (some SummaryState.stopping) = ContainerState.stopping

unfoldable pub parse_health : Text → HealthState
unfolding has_substring
parse_health status =
    if has_substring (text "(healthy)") status
    then HealthState.healthy
    else if has_substring (text "(unhealthy)") status
    then HealthState.unhealthy
    else if has_substring (text "(health: starting)") status
    then HealthState.starting
    else HealthState.none

abbrev pub port_beq : Port → Port → Bool
port_beq p q = p.private == q.private && (p.public == q.public && p.proto == q.proto)

pub port_beq_iff : (p q : Port) → (port_beq p q ≡ true) ↔ (p ≡ q)
port_beq_iff p q = ground (arith, option_beq_iff p.public q.public, text_beq_iff p.proto q.proto)

instance abbrev pub port_eq : Equality Port
port_eq = record { test = port_beq; test_iff = port_beq_iff }

abbrev pub proto_of : Option PortType → Text
proto_of (some PortType.udp) = text "udp"
proto_of (some PortType.sctp) = text "sctp"
proto_of (some PortType.tcp) = text "tcp"
proto_of (some PortType.empty) = text "tcp"
proto_of none = text "tcp"

abbrev pub port_of : PortSummary → Port
port_of p = record { private = p.private_port; public = p.public_port; proto = proto_of p.typ }

-- The `filter_map` with the set of the entries seen.
unfoldable pub first_seen : List Port → List PortSummary → List Port
first_seen seen [] = []
first_seen seen (p ∷ ps) =
    let again = first_seen seen ps in
    let fresh = first_seen (port_of p ∷ seen) ps in
    if contains seen (port_of p) then again else port_of p ∷ fresh

abbrev pub listed_ports : Option (List PortSummary) → List PortSummary
listed_ports none = []
listed_ports (some ps) = ps

-- Whether the comparison answers `Greater`.
abbrev pub port_greater : Option ℕ → Option ℕ → ℕ → ℕ → Bool
port_greater (some x) (some y) a b = ltb y x
port_greater (some x) none a b = false
port_greater none (some y) a b = true
port_greater none none a b = ltb b a

abbrev pub port_gt : Port → Port → Bool
port_gt a b = port_greater a.public b.public a.private b.private

unfoldable pub ports : ContainerSummary → List Port
unfolding first_seen sort_by
ports s = sort_by port_gt (first_seen [] (listed_ports s.ports))
