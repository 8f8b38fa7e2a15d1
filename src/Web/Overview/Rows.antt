-- ===== src/Web/Overview/Rows.antt =====
-- src/web.rs: the table of containers and the overview have one order.
use dockdoe.Prelude.{
  ◌≡◌, refl, sym, ap, subst, ◌∙◌, true, false, Bool-cases, inl, inr, List, [], ◌∷◌, ◌++◌, map, ◌==◌,
  ==_refl, eq_of_==, All, All-append, All-map_imp, text_ltb, text_eq, text_order, pair_ltb, lt_asym,
  le_trans, sort_by, sort_by-All, insert_last, insert_all, insert_last-append, insert_last-first,
  sort_by-append, sort_by-insert_all,
}
use dockdoe.Model.{ContainerMetrics, Dashboard}
use dockdoe.Web.Overview.{
  key_eq, key_ltb, stack_key, name_gt, overview_gt, entry_of, overview_payload, Grouping,
  push_group, push_groups, sort_groups, container_section,
}
use dockdoe.Web.Overview.Keys.{key_ltb_irrefl, key_lt, row_order}
use dockdoe.Web.Overview.Groups.{
  rows, IsUnder, IsBelow, IsGrouped, IsBelow-trans, push_group-IsGrouped, push_groups-IsGrouped,
  sort_groups-IsBelow, sort_groups-IsGrouped,
}

module _ {F : Type 0} where
  -- A container of a later stack is greater, one of an earlier stack is not, and in one stack the names
  -- decide.
  gt_later :
      (c d : ContainerMetrics F)
      → key_ltb (stack_key c) (stack_key d) ≡ true
      → overview_gt d c ≡ true
  gt_later c d h = rw h refl

  gt_earlier :
      (c d : ContainerMetrics F)
      → key_ltb (stack_key d) (stack_key c) ≡ true
      → overview_gt d c ≡ false
  gt_earlier c d h =
      lt_asym (pair_ltb key_ltb text_ltb) row_order (stack_key d, d.name) (stack_key c, c.name)
        (gt_later d c h)

  gt_same : (c d : ContainerMetrics F) → stack_key d ≡ stack_key c → overview_gt d c ≡ name_gt d c
  gt_same c d h = rw h (rw (key_ltb_irrefl (stack_key c), ==_refl (stack_key c)) refl)

  rows-above :
      (c : ContainerMetrics F) (groups : Grouping F)
      → IsBelow (stack_key c) groups
      → IsGrouped groups
      → All (λ d. overview_gt d c ≡ true) (rows groups)
  rows-above c [] b g = tt
  rows-above c ((k, ms) ∷ groups) b (u, l, g) =
      All-append (λ d. overview_gt d c ≡ true) ms (rows groups)
        (All-map_imp (λ d. stack_key d ≡ k) (λ d. overview_gt d c ≡ true)
          (λ d e. gt_later c d (subst (λ j. key_ltb (stack_key c) j ≡ true) (sym e) b.0)) ms u)
        (rows-above c groups b.1 g)

  -- Within its own stack the container is put by its name.
  insert_last-group :
      (c : ContainerMetrics F) (ms later : List (ContainerMetrics F))
      → IsUnder (stack_key c) ms
      → All (λ d. overview_gt d c ≡ true) later
      → insert_last overview_gt c (ms ++ later) ≡ insert_last name_gt c ms ++ later
  unfolding insert_last
  insert_last-group c [] later u h = insert_last-first overview_gt c later h
  insert_last-group c (d ∷ ms) later u h = elim (Bool-cases (name_gt d c)) [
    | inl e ↦ rw (gt_same c d u.0, e) refl
    | inr e ↦ rw (gt_same c d u.0, e) (ap (λ t. d ∷ t) (insert_last-group c ms later u.1 h))
  ]

  sort_by-name :
      (ms : List (ContainerMetrics F)) (c : ContainerMetrics F)
      → sort_by name_gt (ms ++ c ∷ []) ≡ insert_last name_gt c (sort_by name_gt ms)
  sort_by-name ms c =
      sort_by-append name_gt (λ x y z h k. text_order.trans z.name y.name x.name k h)
        (λ x y z h k. le_trans text_ltb text_order x.name y.name z.name h k) ms c

  rows-push_group :
      (c : ContainerMetrics F) (groups : Grouping F)
      → IsGrouped groups
      → rows (sort_groups (push_group (stack_key c) c groups))
        ≡ insert_last overview_gt c (rows (sort_groups groups))
  unfolding push_group sort_groups
  rows-push_group c [] g = sym (insert_last-first overview_gt c [] tt)
  rows-push_group c ((j, ms) ∷ groups) (u, b, g) =
      let sorted = sort_by name_gt ms in
      let later = rows (sort_groups groups) in
      let under : IsUnder j sorted = sort_by-All name_gt (λ d. stack_key d ≡ j) ms u in
      elim (Bool-cases (j == stack_key c)) [
        | inl e ↦
            let same : j ≡ stack_key c = eq_of_== j (stack_key c) e in
            rw e (
              ap (λ l. l ++ later) (sort_by-name ms c)
              ∙ sym (
                  insert_last-group c sorted later (subst (λ k. IsUnder k sorted) same under) (
                    rows-above c (sort_groups groups)
                      (sort_groups-IsBelow (stack_key c) groups
                        (subst (λ k. IsBelow k groups) same b))
                      (sort_groups-IsGrouped groups g))))
        | inr e ↦ elim (Bool-cases (key_ltb (stack_key c) j)) [
          | inl f ↦
              rw (e, f)
                (sym (
                  insert_last-first overview_gt c (sorted ++ later) (
                    rows-above c ((j, sorted) ∷ sort_groups groups)
                      (
                        f,
                        IsBelow-trans (stack_key c) j (sort_groups groups) f
                            (sort_groups-IsBelow j groups b),
                      )
                      (under, sort_groups-IsBelow j groups b, sort_groups-IsGrouped groups g))))
          | inr f ↦
              rw (e, f)
                (ap (λ l. sorted ++ l) (rows-push_group c groups g)
                  ∙ sym (
                      insert_last-append overview_gt c sorted later (
                        All-map_imp (λ d. stack_key d ≡ j) (λ d. overview_gt d c ≡ false)
                          (λ d q. gt_earlier c d (
                            subst (λ k. key_ltb k (stack_key c) ≡ true) (sym q)
                              (key_lt j (stack_key c) e f)))
                          sorted under)))
        ]
      ]

  rows-push_groups :
      (cs : List (ContainerMetrics F)) (groups : Grouping F)
      → IsGrouped groups
      → rows (sort_groups (push_groups cs groups))
        ≡ insert_all overview_gt cs (rows (sort_groups groups))
  unfolding push_groups insert_all
  rows-push_groups [] groups g = refl
  rows-push_groups (c ∷ cs) groups g =
      rows-push_groups cs (push_group (stack_key c) c groups) (push_group-IsGrouped c groups g)
      ∙ ap (insert_all overview_gt cs) (rows-push_group c groups g)

  -- The sections of the table have their stacks in ascending order, the standalone containers last, each
  -- with containers of its own stack only; and the overview lists exactly the rows of the table, in the
  -- same order.
  pub overview_payload-rows :
      (dash : Dashboard F)
      → IsGrouped (container_section dash.containers)
        × ((overview_payload dash).1 ≡ map entry_of (rows (container_section dash.containers)))
  unfolding container_section overview_payload sort_groups
  overview_payload-rows dash =
      let cs = dash.containers in
      (
        sort_groups-IsGrouped (push_groups cs []) (push_groups-IsGrouped cs [] tt),
        ap (map entry_of) (
            sym (
              rows-push_groups cs [] tt
              ∙ sort_by-insert_all overview_gt
                  (λ x y z h k.
                    row_order.trans (stack_key z, z.name) (stack_key y, y.name)
                      (stack_key x, x.name) k h)
                  (λ x y z h k.
                    le_trans (pair_ltb key_ltb text_ltb) row_order (stack_key x, x.name)
                      (stack_key y, y.name) (stack_key z, z.name) h k)
                  cs)),
      )
