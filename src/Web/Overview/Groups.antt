-- ===== src/Web/Overview/Groups.antt =====
-- src/web.rs: the groups of the table of containers.
use dockdoe.Prelude.{
  ◌≡◌, refl, sym, true, Bool-cases, inl, inr, List, [], ◌∷◌, ◌++◌, ◌==◌, eq_of_==, All, All-append,
  All-map_imp, text_eq, sort_by-All,
}
use dockdoe.Model.{ContainerMetrics}
use dockdoe.Web.Overview.{
  StackKey, key_eq, key_ltb, stack_key, name_gt, Grouping, push_group, push_groups, sort_groups,
}
use dockdoe.Web.Overview.Keys.{key_ltb_trans, key_lt}

module _ {F : Type 0} where
  -- The containers of all groups, in order.
  abbrev pub rows : Grouping F → List (ContainerMetrics F)
  rows [] = []
  rows ((k, members) ∷ groups) = members ++ rows groups

  abbrev pub IsUnder : StackKey → List (ContainerMetrics F) → Type 0
  IsUnder k members = All (λ c. stack_key c ≡ k) members

  abbrev pub IsBelow : StackKey → Grouping F → Type 0
  IsBelow k groups = All (λ (g : StackKey × List (ContainerMetrics F)). key_ltb k g.0 ≡ true) groups

  -- The keys ascend, and each group holds members of its own stack only.
  abbrev pub IsGrouped : Grouping F → Type 0
  IsGrouped [] = Unit
  IsGrouped ((k, members) ∷ groups) = IsUnder k members × IsBelow k groups × IsGrouped groups

  push_group-IsBelow :
      (j k : StackKey) (c : ContainerMetrics F) (groups : Grouping F)
      → key_ltb j k ≡ true
      → IsBelow j groups
      → IsBelow j (push_group k c groups)
  unfolding push_group
  push_group-IsBelow j k c [] h b = (h, tt)
  push_group-IsBelow j k c ((i, ms) ∷ groups) h b = elim (Bool-cases (i == k)) [
    | inl e ↦ rw e b
    | inr e ↦ elim (Bool-cases (key_ltb k i)) [
      | inl f ↦ rw (e, f) (h, b)
      | inr f ↦ rw (e, f) (b.0, push_group-IsBelow j k c groups h b.1)
    ]
  ]

  pub IsBelow-trans :
      (j k : StackKey) (groups : Grouping F)
      → key_ltb j k ≡ true
      → IsBelow k groups
      → IsBelow j groups
  IsBelow-trans j k groups h b =
      All-map_imp (λ (g : StackKey × List (ContainerMetrics F)). key_ltb k g.0 ≡ true)
        (λ (g : StackKey × List (ContainerMetrics F)). key_ltb j g.0 ≡ true)
        (λ g l. key_ltb_trans j k g.0 h l) groups b

  pub push_group-IsGrouped :
      (c : ContainerMetrics F) (groups : Grouping F)
      → IsGrouped groups
      → IsGrouped (push_group (stack_key c) c groups)
  unfolding push_group
  push_group-IsGrouped c [] h = ((refl, tt), tt, tt)
  push_group-IsGrouped c ((j, ms) ∷ groups) (u, b, g) = elim (Bool-cases (j == stack_key c)) [
    | inl e ↦ rw e (
      All-append (λ d. stack_key d ≡ j) ms (c ∷ []) u (sym (eq_of_== j (stack_key c) e), tt),
      b,
      g,
    )
    | inr e ↦ elim (Bool-cases (key_ltb (stack_key c) j)) [
      | inl f ↦ rw (e, f) ((refl, tt), (f, IsBelow-trans (stack_key c) j groups f b), (u, b, g))
      | inr f ↦
          rw (e, f)
            (
              u,
              push_group-IsBelow j (stack_key c) c groups (key_lt j (stack_key c) e f) b,
              push_group-IsGrouped c groups g,
            )
    ]
  ]

  pub push_groups-IsGrouped :
      (cs : List (ContainerMetrics F)) (groups : Grouping F)
      → IsGrouped groups
      → IsGrouped (push_groups cs groups)
  unfolding push_groups
  push_groups-IsGrouped [] groups h = h
  push_groups-IsGrouped (c ∷ cs) groups h =
      push_groups-IsGrouped cs (push_group (stack_key c) c groups) (push_group-IsGrouped c groups h)

  pub sort_groups-IsBelow :
      (k : StackKey) (groups : Grouping F) → IsBelow k groups → IsBelow k (sort_groups groups)
  unfolding sort_groups
  sort_groups-IsBelow k [] h = tt
  sort_groups-IsBelow k ((j, ms) ∷ groups) h = (h.0, sort_groups-IsBelow k groups h.1)

  pub sort_groups-IsGrouped :
      (groups : Grouping F) → IsGrouped groups → IsGrouped (sort_groups groups)
  unfolding sort_groups
  sort_groups-IsGrouped [] h = tt
  sort_groups-IsGrouped ((k, ms) ∷ groups) (u, b, g) = (
    sort_by-All name_gt (λ d. stack_key d ≡ k) ms u,
    sort_groups-IsBelow k groups b,
    sort_groups-IsGrouped groups g,
  )
