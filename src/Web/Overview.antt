-- ===== src/Web/Overview.antt =====
-- src/web.rs: the order of the containers in the overview and in the table, and their counts. A
-- `BTreeMap` is the list of its entries in the order of the keys. The markup is left out; the rows of
-- the table are its containers.
use dockdoe.Prelude.{
  ℕ, ◌+◌, ◌≡◌, ◌↔◌, refl, Bool, true, false, ◌&&◌, ◌||◌, Option, none, some, List, [], ◌∷◌, ◌++◌,
  map, if◌then◌else◌, ◌==◌, Equality, length, arith, Text, text_eq, text_ltb, text_beq_iff,
  pair_ltb, sort_by,
}
use dockdoe.Model.{ContainerMetrics, ContainerState, HealthState, Dashboard}
pub mod Keys
pub mod Groups
pub mod Rows
pub mod Counts
mod Tests

pub data StackKey : Type 0 where
  named : Text → StackKey
  standalone : StackKey

abbrev pub key_beq : StackKey → StackKey → Bool
key_beq (named s) (named t) = s == t
key_beq (named s) standalone = false
key_beq standalone (named t) = false
key_beq standalone standalone = true

pub key_beq_iff : (j k : StackKey) → (key_beq j k ≡ true) ↔ (j ≡ k)
key_beq_iff (named s) (named t) = ground (arith, text_beq_iff s t)
key_beq_iff (named s) standalone = (λ h. cc, λ h. cc)
key_beq_iff standalone (named t) = (λ h. cc, λ h. cc)
key_beq_iff standalone standalone = (λ h. refl, λ h. refl)

instance abbrev pub key_eq : Equality StackKey
key_eq = record { test = key_beq; test_iff = key_beq_iff }

-- The derived order: the variants in their order, then their fields.
abbrev pub key_ltb : StackKey → StackKey → Bool
key_ltb (named s) (named t) = text_ltb s t
key_ltb (named s) standalone = true
key_ltb standalone k = false

abbrev pub key_of : Option Text → StackKey
key_of none = standalone
key_of (some name) = named name

abbrev pub is_down : ContainerState → Bool
is_down ContainerState.exited = true
is_down ContainerState.dead = true
is_down _ = false

pub record OverviewEntry (F : Type 0) : Type 0 where
  pub id : Text
  pub name : Text
  pub stack : Option Text
  pub cpu : Option F
  pub mem : Option ℕ
  pub down : Bool

pub record ContainerCounts : Type 0 where
  pub total : ℕ
  pub running : ℕ
  pub exited : ℕ
  pub other : ℕ
  pub unhealthy : ℕ

abbrev pub count_state : ContainerState → ContainerCounts → ContainerCounts
count_state ContainerState.running n = record n { running = n.running + 1 }
count_state ContainerState.exited n = record n { exited = n.exited + 1 }
count_state _ n = record n { other = n.other + 1 }

abbrev pub count_health : HealthState → ContainerCounts → ContainerCounts
count_health HealthState.unhealthy n = record n { unhealthy = n.unhealthy + 1 }
count_health _ n = n

abbrev pub Grouping : Type 0 → Type 0
Grouping F = List (StackKey × List (ContainerMetrics F))

module _ {F : Type 0} where
  abbrev pub stack_key : ContainerMetrics F → StackKey
  stack_key c = key_of c.stack

  abbrev pub name_gt : ContainerMetrics F → ContainerMetrics F → Bool
  name_gt a b = text_ltb b.name a.name

  -- The comparison of the overview answers `Greater`.
  abbrev pub overview_gt : ContainerMetrics F → ContainerMetrics F → Bool
  overview_gt a b = pair_ltb key_ltb text_ltb (stack_key b, b.name) (stack_key a, a.name)

  abbrev pub entry_of : ContainerMetrics F → OverviewEntry F
  entry_of c = record {
    id = c.id;
    name = c.name;
    stack = c.stack;
    cpu = c.cpu_percent;
    mem = c.mem_used;
    down = is_down c.state;
  }

  -- The payload before serde writes it.
  unfoldable pub overview_payload : Dashboard F → ℕ × List (OverviewEntry F)
  unfolding sort_by
  overview_payload dash =
      (dash.generated_at_unix_ms, map entry_of (sort_by overview_gt dash.containers))

  -- `entry(key).or_default().push(c)`.
  unfoldable pub push_group : StackKey → ContainerMetrics F → Grouping F → Grouping F
  push_group k c [] = (k, c ∷ []) ∷ []
  push_group k c ((j, members) ∷ groups) =
      if j == k
      then (j, members ++ c ∷ []) ∷ groups
      else if key_ltb k j
      then (k, c ∷ []) ∷ (j, members) ∷ groups
      else (j, members) ∷ push_group k c groups

  unfoldable pub push_groups : List (ContainerMetrics F) → Grouping F → Grouping F
  unfolding push_group
  push_groups [] groups = groups
  push_groups (c ∷ cs) groups = push_groups cs (push_group (stack_key c) c groups)

  unfoldable pub sort_groups : Grouping F → Grouping F
  unfolding sort_by
  sort_groups [] = []
  sort_groups ((k, members) ∷ groups) = (k, sort_by name_gt members) ∷ sort_groups groups

  -- The sections of the table, in their order.
  unfoldable pub container_section : List (ContainerMetrics F) → Grouping F
  unfolding push_groups sort_groups
  container_section containers = sort_groups (push_groups containers [])

  unfoldable pub count_all : List (ContainerMetrics F) → ContainerCounts → ContainerCounts
  count_all [] n = n
  count_all (c ∷ cs) n = count_all cs (count_health c.health (count_state c.state n))

  -- `ContainerCounts::of`.
  unfoldable pub container_counts : List (ContainerMetrics F) → ContainerCounts
  unfolding count_all
  container_counts containers =
      count_all containers
        (record { total = length containers; running = 0; exited = 0; other = 0; unhealthy = 0 })
