-- ===== src/Docker/Stack/Outcome.antt =====
-- src/docker.rs: what the outcome of a stack action says.
use mathlib.Core.List.{Perm}
use dockdoe.Prelude.{
  ℕ, zero, suc, ◌+◌, ◌≤◌, ◌<◌, ◌≡◌, refl, ap, ◌⊎◌, arith, true, false, Bool-cases, ◌||◌, ◌==◌,
  nat_eq, leb, le→leb, leb→le, inl, inr, Option, none, some, List, if◌then◌else◌, length, Text,
}
use dockdoe.Web.Actions.{Action}
use dockdoe.Docker.Members.{Member, Listed, HostModes, stack_members}
use dockdoe.Docker.Order.Sound.{topo_order-IsOrdering}
use dockdoe.Docker.Stack.Api.{Engine, StackOutcome}
use dockdoe.Docker.Stack.{
  dep_poll, stack_start_timeout, id_by_service, start_passes, outcome, start_in_order, act,
  reported, stack_action,
}
use dockdoe.Docker.Stack.Waits.{ClockLaws, after-IsKept}
use dockdoe.Docker.Stack.Stops.{StopHistory, IsStopped, stop_in_order-IsStopped}
use dockdoe.Docker.Stack.Passes.{History, AllSeen, start_pass-ends}

module _ (E : Engine) (C : ClockLaws E) (Seen : Text → E.World → Type 0) (H : History E Seen) where
  -- What the result of a start says: no failure and each member seen, or failures and the time is up.
  abbrev pub IsStarted : ℕ → ℕ → List Member → E.World × StackOutcome → Type 0
  IsStarted total deadline ordered (v, out) =
      (out.total ≡ total)
      × (out.failed ≤ length ordered)
      × (((out.failed ≡ 0) × AllSeen E C Seen H ordered v)
          ⊎ ((1 ≤ out.failed) × (deadline ≤ E.now v)))

  start_passes-ends :
      (n : ℕ) (ids : List (Text × Text)) (total deadline : ℕ) (ordered : List Member) (w : E.World)
      → deadline ≤ E.now w + n
      → (r : E.World × StackOutcome) × (start_passes E (suc n) ids total deadline ordered w
          ≡ some r)
        × IsStarted total deadline ordered r
  unfolding start_passes
  start_passes-ends zero ids total deadline ordered w h =
      let (q, r, hq, f, s) =
        start_pass-ends E C Seen H (λ u. E.now w ≤ E.now u) (after-IsKept E C (E.now w)) ids ordered
          (record { world = w; failed = 0; progressed = false }) (ground arith) in
      let late : leb deadline (E.now q.world) ≡ true =
        le→leb deadline (E.now q.world) (ground arith) in
      let stop : (q.failed == 0 || leb deadline (E.now q.world)) ≡ true = ground arith in
      elim (Bool-cases (q.failed == 0)) [
        | inl e ↦ (
          outcome E total q,
          rw (r, start_passes, stop) refl,
          (refl, ground arith, inl (ground arith, s (ground arith))),
        )
        | inr e ↦ (
          outcome E total q,
          rw (r, start_passes, stop) refl,
          (refl, ground arith, inr (ground arith, ground arith)),
        )
      ]
  start_passes-ends (suc k) ids total deadline ordered w h =
      let (q, r, hq, f, s) =
        start_pass-ends E C Seen H (λ u. E.now w ≤ E.now u) (after-IsKept E C (E.now w)) ids ordered
          (record { world = w; failed = 0; progressed = false }) (ground arith) in
      elim (Bool-cases (q.failed == 0)) [
        | inl e ↦
            let stop : (q.failed == 0 || leb deadline (E.now q.world)) ≡ true = ground arith in
            (
              outcome E total q,
              rw (r, start_passes, stop) refl,
              (refl, ground arith, inl (ground arith, s (ground arith))),
            )
        | inr e ↦ elim (Bool-cases (leb deadline (E.now q.world))) [
          | inl g ↦
              let stop : (q.failed == 0 || leb deadline (E.now q.world)) ≡ true = ground arith in
              (
                outcome E total q,
                rw (r, start_passes, stop) refl,
                (refl, ground arith, inr (ground arith, leb→le deadline (E.now q.world) g)),
              )
          | inr g ↦
              let go : (q.failed == 0 || leb deadline (E.now q.world)) ≡ false = ground arith in
              let next = if q.progressed then q.world else E.sleep dep_poll q.world in
              let passed : E.now w < E.now next =
                ground (arith, C.sleep_forward dep_poll q.world) in
              let (o, t, i) = start_passes-ends k ids total deadline ordered next (ground arith) in
              (o, rw (r, start_passes, go) t, i)
        ]
      ]

  pub start_in_order-IsStarted :
      (n : ℕ) (members : List Member) (w : E.World)
      → stack_start_timeout ≤ n
      → (r : E.World × StackOutcome) × (start_in_order E (suc n) members w ≡ some r)
        × ((ordered : List Member) × Perm ordered members
            × IsStarted (length members) (E.now w + stack_start_timeout) ordered r)
  unfolding start_in_order
  start_in_order-IsStarted n members w h =
      let (ordered, e, o) = topo_order-IsOrdering members in
      let (r, s, i) =
        start_passes-ends n (id_by_service members) (length members) (E.now w + stack_start_timeout)
          ordered w (ground arith) in
      (r, rw (e, start_in_order) s, (ordered, o.perm, i))

  module _ (Stopped : Text → E.World → Type 0) (G : StopHistory E Stopped) where
    abbrev pub IsStartOf : List Member → E.World → E.World × StackOutcome → Type 0
    IsStartOf members w r =
        (ordered : List Member) × Perm ordered members
        × IsStarted (length members) (E.now w + stack_start_timeout) ordered r

    abbrev pub IsStopOf : List Member → E.World × StackOutcome → Type 0
    IsStopOf members r =
        (ordered : List Member) × Perm ordered members
        × IsStopped E Stopped G (length members) ordered r

    -- What the result of an action on the members says: that of a start, of a stop, or of a start that
    -- follows a stop.
    abbrev pub IsDone : Action → List Member → E.World → E.World × StackOutcome → Type 0
    IsDone Action.start members w r = IsStartOf members w r
    IsDone Action.stop members w r = IsStopOf members r
    IsDone Action.restart members w r =
        (between : E.World × StackOutcome) × IsStopOf members between
        × IsStartOf members between.0 r

    act-IsDone :
        (n : ℕ) (members : List Member) (action : Action) (w : E.World)
        → stack_start_timeout ≤ n
        → (r : E.World × StackOutcome) × (act E (suc n) members action w ≡ some r)
          × IsDone action members w r
    unfolding act
    act-IsDone n members Action.start w h = start_in_order-IsStarted n members w h
    act-IsDone n members Action.stop w h = stop_in_order-IsStopped E Stopped G members w
    act-IsDone n members Action.restart w h =
        let (between, e, (ordered, p, i)) = stop_in_order-IsStopped E Stopped G members w in
        let (r, f, (starts, q, j)) = start_in_order-IsStarted n members between.0 h in
        (
          (r.0, record between.1 { failed = r.1.failed }),
          rw (e, act, f) refl,
          (between, (ordered, p, i), (starts, q, (i.0, j.1, j.2))),
        )

    abbrev pub IsAnswer :
        (Text → Option HostModes)
        → Text
        → Option (List Listed)
        → Action
        → E.World
        → E.World × Option StackOutcome
        → Type 0
    IsAnswer modes project none action w (v, out) = (v ≡ w) × (out ≡ none)
    IsAnswer modes project (some containers) action w (v, none) = ⊥
    IsAnswer modes project (some containers) action w (v, some out) =
        IsDone action (stack_members modes project containers) w (v, out)

    -- A stack action ends, if the clock does not go back, requests take time, a sleep lasts as
    -- long as it says, and the number of passes that it may make is above the nanoseconds of two
    -- minutes. If the listing fails it changes nothing and reports an error. Otherwise it reports
    -- the number of members, and at most that many failures. A start without a failure has found
    -- each member running or had its start acknowledged, and one with failures has lasted two
    -- minutes. A stop without a failure had the stop of every member acknowledged. A restart is a
    -- stop followed by a start, whatever the stop's failures, and reports the failures of the
    -- start.
    pub stack_action-IsAnswer :
        (n : ℕ) (modes : Text → Option HostModes) (project : Text) (listing : Option (List Listed))
        (action : Action) (w : E.World)
        → stack_start_timeout ≤ n
        → (r : E.World × Option StackOutcome) × (stack_action E
              (suc n)
              modes
              project
              listing
              action
              w
            ≡ some r)
          × IsAnswer modes project listing action w r
    unfolding stack_action
    stack_action-IsAnswer n modes project none action w h = ((w, none), refl, (refl, refl))
    stack_action-IsAnswer n modes project (some containers) action w h =
        let (r, e, d) = act-IsDone n (stack_members modes project containers) action w h in
        ((r.0, some r.1), ap (reported E) e, d)
