-- ===== src/Docker/Members.antt =====
-- src/docker.rs: the members of a compose stack and the dependency edges that their labels record.
use dockdoe.Prelude.{
  Bool, false, Option, none, some, List, [], ◌∷◌, ◌++◌, ◌&&◌, ◌||◌, not, if◌then◌else◌, ◌==◌, Text,
  text, text_eq, split, trim, is_empty, lookup, insert, starts_with, strip_prefix, find_first, any,
  get_elem?,
}

pub data DepCondition : Type 0 where
  started healthy completed_successfully : DepCondition

pub record Dep : Type 0 where
  pub service : Text
  pub condition : DepCondition

pub record Member : Type 0 where
  pub id : Text
  pub service : Text
  pub deps : List Dep

abbrev pub services : List Member → List Text
services [] = []
services (m ∷ ms) = m.service ∷ services ms

unfoldable pub condition_of : Option Text → DepCondition
condition_of none = started
condition_of (some s) =
    if s == text "service_healthy"
    then healthy
    else if s == text "service_completed_successfully"
    then completed_successfully
    else started

-- The first two parts of `splitn(3, ':')` are those of `split(':')`.
unfoldable pub parse_parts : List Text → Option Dep
unfolding condition_of
parse_parts [] = none
parse_parts (first ∷ rest) =
    let service = trim first in
    if is_empty service
    then none
    else some (record { service = service; condition = condition_of (get_elem? rest 0) })

abbrev pub cons_some {ℓ} : {A : Type ℓ} → Option A → List A → List A
cons_some none xs = xs
cons_some (some x) xs = x ∷ xs

unfoldable pub parse_entries : List Text → List Dep
unfolding parse_parts
parse_entries [] = []
parse_entries (entry ∷ entries) =
    cons_some (parse_parts (split b':' (trim entry))) (parse_entries entries)

unfoldable pub parse_depends_on : Text → List Dep
unfolding parse_entries
parse_depends_on label = parse_entries (split b',' label)

-- `service_by_id` is a hash map: among several prefix matches the code takes any, the model the first.
unfoldable pub resolve_service : List (Text × Text) → Text → Option Text
resolve_service service_by_id target_id = elim (lookup target_id service_by_id) [
  | some service ↦ some service
  | none ↦
      elim (find_first (λ (p : Text × Text). starts_with target_id p.0 || starts_with p.0 target_id)
        service_by_id) [ some (id, service) ↦ some service | none ↦ none ]
]

unfoldable pub service_map : List Member → List (Text × Text) → List (Text × Text)
service_map [] acc = acc
service_map (m ∷ ms) acc = service_map ms (insert m.id m.service acc)

-- One namespace target of a member: a start-order edge, unless it is there already.
unfoldable pub add_namespace_dep : List (Text × Text) → Member → Text → Member
unfolding resolve_service
add_namespace_dep service_by_id m target_id = elim (resolve_service service_by_id target_id) [
  | none ↦ m
  | some service ↦
      if not (service == m.service) && not (any (λ (d : Dep). d.service == service) m.deps)
      then record m { deps = m.deps ++ record { service = service; condition = started } ∷ [] }
      else m
]

unfoldable pub add_namespace_deps : List (Text × Text) → Member → List Text → Member
unfolding add_namespace_dep
add_namespace_deps service_by_id m [] = m
add_namespace_deps service_by_id m (t ∷ ts) =
    add_namespace_deps service_by_id (add_namespace_dep service_by_id m t) ts

-- The part of a container listing that `stack_members` reads.
pub record Listed : Type 0 where
  pub id : Option Text
  pub labels : Option (List (Text × Text))

abbrev pub or_default : Option Text → Text
or_default none = []
or_default (some s) = s

abbrev pub deps_of : Option Text → List Dep
deps_of none = []
deps_of (some label) = parse_depends_on label

abbrev pub has_project : Text → List (Text × Text) → Bool
has_project project labels = elim (lookup (text "com.docker.compose.project") labels) [
  | some p ↦ p == project
  | none ↦ false
]

unfoldable pub member_of : Text → Listed → Option Member
member_of project c = elim c.labels [
  | none ↦ none
  | some labels ↦
      if has_project project labels
      then elim c.id [
        | none ↦ none
        | some id ↦ some (record {
          id = id;
          service = or_default (lookup (text "com.docker.compose.service") labels);
          deps = deps_of (lookup (text "com.docker.compose.depends_on") labels);
        })
      ]
      else none
]

unfoldable pub listed_members : Text → List Listed → List Member
unfolding member_of
listed_members project [] = []
listed_members project (c ∷ cs) = cons_some (member_of project c) (listed_members project cs)

-- The part of `host_config` that `namespace_deps` reads.
pub record HostModes : Type 0 where
  pub network_mode : Option Text
  pub ipc_mode : Option Text
  pub pid_mode : Option Text

abbrev pub shared_with : Option Text → Option Text
shared_with none = none
shared_with (some mode) = strip_prefix (text "container:") mode

-- Of what the inspection answers, `none` for an error or a missing `host_config`: the ids of the
-- containers that a namespace is shared with.
unfoldable pub namespace_deps : Option HostModes → List Text
namespace_deps none = []
namespace_deps (some host) =
    cons_some (shared_with host.network_mode)
      (cons_some (shared_with host.ipc_mode) (cons_some (shared_with host.pid_mode) []))

-- `inspect` is what `inspect_container` answers for an id.
unfoldable pub with_namespaces :
    (Text → Option HostModes) → List (Text × Text) → List Member → List Member
unfolding add_namespace_deps namespace_deps
with_namespaces inspect service_by_id [] = []
with_namespaces inspect service_by_id (m ∷ ms) =
    add_namespace_deps service_by_id m (namespace_deps (inspect m.id))
    ∷ with_namespaces inspect service_by_id ms

unfoldable pub stack_members : (Text → Option HostModes) → Text → List Listed → List Member
unfolding with_namespaces listed_members service_map
stack_members inspect project containers =
    let members = listed_members project containers in
    with_namespaces inspect (service_map members []) members
