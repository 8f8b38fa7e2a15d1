-- ===== src/Notify/Snapshots.antt =====
-- A whole snapshot: `Notify.evaluate` steps each container by `Notify.advance`, on its own.
use dockdoe.Prelude.{
  ℕ, ◌≡◌, refl, sym, ap, ◌∙◌, true, false, Option, none, some, List, [], ◌∷◌, ◌++◌, arith,
  if◌then◌else◌, Text, text_eq, text_beq_iff, ◌==◌, lookup, insert, contains, lookup-insert,
  lookup-retain, append-nil, append_assoc,
}
use dockdoe.Model.{ContainerMetrics}
use dockdoe.Notify.{
  Tracked, Tracker, Notification, advance, status_of, notification_for, visit, visit_all, ids,
  evaluate,
}

module _ {F : Type 0} where
  abbrev pub DistinctIds : List (ContainerMetrics F) → Type 0
  DistinctIds [] = Unit
  DistinctIds (c ∷ cs) = (contains (ids cs) c.id ≡ false) × DistinctIds cs

  -- The entry of `id` after a snapshot, from its entry before.
  abbrev pub entry_next :
      Tracker → ℕ → List (ContainerMetrics F) → Text → Option Tracked → Option Tracked
  entry_next tr ts_ms [] id before = none
  entry_next tr ts_ms (c ∷ cs) id before =
      if c.id == id
      then some (advance tr.delay_ms ts_ms (status_of c) before).0
      else entry_next tr ts_ms cs id before

  -- The notifications of a snapshot, from the entries before it.
  abbrev pub notes_due :
      Tracker → ℕ → List (Text × Tracked) → List (ContainerMetrics F) → List Notification
  notes_due tr ts_ms states [] = []
  notes_due tr ts_ms states (c ∷ cs) =
      if (advance tr.delay_ms ts_ms (status_of c) (lookup c.id states)).1
      then notification_for c (status_of c) tr.host ∷ notes_due tr ts_ms states cs
      else notes_due tr ts_ms states cs

  -- Where the snapshot does not name `id`, its entry stays as it is until `retain`.
  lookup-visit_all_absent :
      (tr : Tracker) (ts_ms : ℕ) (cs : List (ContainerMetrics F)) (id : Text)
      (states : List (Text × Tracked)) (out : List Notification)
      → contains (ids cs) id ≡ false
      → lookup id (visit_all tr ts_ms cs (states, out)).0 ≡ lookup id states
  unfolding visit_all visit
  lookup-visit_all_absent tr ts_ms [] id states out h = refl
  lookup-visit_all_absent tr ts_ms (c ∷ cs) id states out h =
      let next = advance tr.delay_ms ts_ms (status_of c) (lookup c.id states) in
      let out' = if next.1 then out ++ notification_for c (status_of c) tr.host ∷ [] else out in
      ground (
        arith,
        lookup-visit_all_absent tr ts_ms cs id (insert c.id next.0 states) out',
        lookup-insert c.id id next.0 states,
      )

  lookup-visit_all :
      (tr : Tracker) (ts_ms : ℕ) (cs : List (ContainerMetrics F)) (id : Text)
      (states : List (Text × Tracked)) (out : List Notification)
      → DistinctIds cs
      → contains (ids cs) id ≡ true
      → lookup id (visit_all tr ts_ms cs (states, out)).0
        ≡ entry_next tr ts_ms cs id (lookup id states)
  unfolding visit_all visit
  lookup-visit_all tr ts_ms [] id states out d h = cc
  lookup-visit_all tr ts_ms (c ∷ cs) id states out d h =
      let next = advance tr.delay_ms ts_ms (status_of c) (lookup c.id states) in
      let out' = if next.1 then out ++ notification_for c (status_of c) tr.host ∷ [] else out in
      ground (
        arith,
        text_beq_iff c.id id,
        lookup-visit_all_absent tr ts_ms cs id (insert c.id next.0 states) out',
        lookup-visit_all tr ts_ms cs id (insert c.id next.0 states) out' d.1,
        lookup-insert c.id id next.0 states,
      )

  notes_due-insert :
      (tr : Tracker) (ts_ms : ℕ) (k : Text) (v : Tracked) (states : List (Text × Tracked))
      (cs : List (ContainerMetrics F))
      → contains (ids cs) k ≡ false
      → notes_due tr ts_ms (insert k v states) cs ≡ notes_due tr ts_ms states cs
  notes_due-insert tr ts_ms k v states [] h = refl
  notes_due-insert tr ts_ms k v states (c ∷ cs) h =
      let away : (k == c.id) ≡ false = ground (arith, text_beq_iff k c.id, text_beq_iff c.id k) in
      let same : lookup c.id (insert k v states) ≡ lookup c.id states =
        lookup-insert k c.id v states ∙ ap (λ b. if b then some v else lookup c.id states) away in
      rw (same, notes_due-insert tr ts_ms k v states cs (ground arith)) refl

  visit_all-notes :
      (tr : Tracker) (ts_ms : ℕ) (cs : List (ContainerMetrics F)) (states : List (Text × Tracked))
      (out : List Notification)
      → DistinctIds cs
      → (visit_all tr ts_ms cs (states, out)).1 ≡ out ++ notes_due tr ts_ms states cs
  unfolding visit_all visit
  visit_all-notes tr ts_ms [] states out h = sym (append-nil out)
  visit_all-notes tr ts_ms (c ∷ cs) states out h =
      let next = advance tr.delay_ms ts_ms (status_of c) (lookup c.id states) in
      let out' = if next.1 then out ++ notification_for c (status_of c) tr.host ∷ [] else out in
      let rest = notes_due tr ts_ms states cs in
      ground (
        arith,
        visit_all-notes tr ts_ms cs (insert c.id next.0 states) out' h.1,
        notes_due-insert tr ts_ms c.id next.0 states cs,
        append_assoc out (notification_for c (status_of c) tr.host ∷ []) rest,
      )

  -- In a snapshot with distinct ids every container is followed on its own: after `evaluate` the
  -- entry of an id that the snapshot names is the step of its entry before, and an id that the
  -- snapshot does not name has no entry.
  pub evaluate-entries :
      (tr : Tracker) (ts_ms : ℕ) (cs : List (ContainerMetrics F)) (id : Text)
      → DistinctIds cs
      → lookup id (evaluate tr ts_ms cs).0.states
        ≡ (if contains (ids cs) id then entry_next tr ts_ms cs id (lookup id tr.states) else none)
  unfolding evaluate
  evaluate-entries tr ts_ms cs id d =
      let states = (visit_all tr ts_ms cs (tr.states, [])).0 in
      ground (
        arith,
        lookup-retain (λ j. contains (ids cs) j) id states,
        lookup-visit_all tr ts_ms cs id tr.states [] d,
      )

  -- The notifications of a snapshot with distinct ids are, in the snapshot's order, exactly those of
  -- the containers whose own step is due, each with the container's current status.
  pub evaluate-notes :
      (tr : Tracker) (ts_ms : ℕ) (cs : List (ContainerMetrics F))
      → DistinctIds cs
      → (evaluate tr ts_ms cs).1 ≡ notes_due tr ts_ms tr.states cs
  unfolding evaluate
  evaluate-notes tr ts_ms cs d = visit_all-notes tr ts_ms cs tr.states [] d
