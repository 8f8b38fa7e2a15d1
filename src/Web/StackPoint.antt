-- ===== src/Web/StackPoint.antt =====
-- src/web.rs: the metrics of a stack, summed over its members.
use dockdoe.Prelude.{
  ℕ, ◌+◌, ◌≡◌, refl, Option, none, some, List, [], ◌∷◌, ◌==◌, Text, text_eq, option_eq, select, All,
}
use dockdoe.Float.{Float}
use dockdoe.Model.{ContainerMetrics}

pub record StackIo (F : Type 0) : Type 0 where
  pub net_rx : Option F
  pub net_tx : Option F
  pub disk_read : Option F
  pub disk_write : Option F

pub record StackPoint (F : Type 0) : Type 0 where
  pub cpu_percent : F
  pub mem_used : ℕ
  pub io : StackIo F

module _ (M : Float) where
  abbrev pub or_zero : Option M.F → M.F
  or_zero none = M.zero
  or_zero (some v) = v

  abbrev pub add_opt : Option M.F → Option M.F → Option M.F
  add_opt acc none = acc
  add_opt acc (some v) = some (M.add (or_zero acc) v)

  abbrev pub add_io : StackIo M.F → ContainerMetrics M.F → StackIo M.F
  add_io io c = record {
    net_rx = add_opt io.net_rx c.net_rx_bps;
    net_tx = add_opt io.net_tx c.net_tx_bps;
    disk_read = add_opt io.disk_read c.disk_read_bps;
    disk_write = add_opt io.disk_write c.disk_write_bps;
  }

  abbrev pub mem_or_zero : Option ℕ → ℕ
  mem_or_zero none = 0
  mem_or_zero (some n) = n

  -- The loop over the members. The sum of the memory is that of the natural numbers: the code's
  -- addition panics or wraps above 64 bits.
  unfoldable pub add_members : StackPoint M.F → List (ContainerMetrics M.F) → StackPoint M.F
  add_members p [] = p
  add_members p (c ∷ cs) =
      add_members
        (record {
          cpu_percent = M.add p.cpu_percent (or_zero c.cpu_percent);
          mem_used = p.mem_used + mem_or_zero c.mem_used;
          io = add_io p.io c;
        })
        cs

  abbrev pub members_of : Text → List (ContainerMetrics M.F) → List (ContainerMetrics M.F)
  members_of name containers = select (λ c. c.stack == some name) containers

  -- The point of `events_stack`.
  unfoldable pub stack_point : Text → List (ContainerMetrics M.F) → StackPoint M.F
  unfolding add_members
  stack_point name containers =
      add_members
        (record {
          cpu_percent = M.zero;
          mem_used = 0;
          io = record { net_rx = none; net_tx = none; disk_read = none; disk_write = none };
        })
        (members_of name containers)

  add_opt-none : (a v : Option M.F) → add_opt a v ≡ none → (a ≡ none) × (v ≡ none)
  add_opt-none a none h = (h, refl)
  add_opt-none a (some v) h = cc

  add_members-net_rx :
      (p : StackPoint M.F) (cs : List (ContainerMetrics M.F))
      → (add_members p cs).io.net_rx ≡ none
      → (p.io.net_rx ≡ none) × All (λ c. c.net_rx_bps ≡ none) cs
  unfolding add_members
  add_members-net_rx p [] h = (h, tt)
  add_members-net_rx p (c ∷ cs) h =
      let next : StackPoint M.F = record {
        cpu_percent = M.add p.cpu_percent (or_zero c.cpu_percent);
        mem_used = p.mem_used + mem_or_zero c.mem_used;
        io = add_io p.io c;
      } in
      let (first, later) = add_members-net_rx next cs h in
      let (a, v) = add_opt-none p.io.net_rx c.net_rx_bps first in (a, (v, later))

  -- A stack's received bytes are missing only where each of its members lacks them.
  pub stack_point-net_rx :
      (name : Text) (containers : List (ContainerMetrics M.F))
      → (stack_point name containers).io.net_rx ≡ none
      → All (λ c. c.net_rx_bps ≡ none) (members_of name containers)
  unfolding stack_point
  stack_point-net_rx name containers h =
      let start : StackPoint M.F = record {
        cpu_percent = M.zero;
        mem_used = 0;
        io = record { net_rx = none; net_tx = none; disk_read = none; disk_write = none };
      } in
      (add_members-net_rx start (members_of name containers) h).1
