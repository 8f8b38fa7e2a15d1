-- ===== src/Docker/Stack/Waits.antt =====
-- src/docker.rs: the waits for a dependency end in time.
use dockdoe.Prelude.{
  ℕ, zero, suc, ◌+◌, ◌-◌, ◌*◌, ◌≤◌, ◌<◌, ◌≡◌, refl, ◌⊎◌, inl, inr, arith, Bool, true, Bool-cases,
  leb→le, le→leb, Option, none, some, List, [], ◌∷◌, leb, Text, text_eq, lookup,
}
use dockdoe.Web.Actions.{Action}
use dockdoe.Docker.Members.{DepCondition, started, healthy, completed_successfully, Dep}
use dockdoe.Docker.Stack.Api.{Engine}
use dockdoe.Docker.Stack.{
  dep_wait, dep_poll, poll_health, poll_completed, wait_until, wait_healthy, wait_completed,
  health_status, run_state, wait_condition, wait_dep, wait_deps,
}

-- The clock does not go back, a request takes time, and a sleep lasts as long as it says.
pub record ClockLaws (E : Engine) : Type 0 where
  pub inspect_forward : (id : Text) (w : E.World) → E.now w ≤ E.now (E.inspect id w).0
  pub apply_forward : (id : Text) (a : Action) (w : E.World) → E.now w < E.now (E.apply id a w).0
  pub sleep_forward : (d : ℕ) (w : E.World) → E.now w + d ≤ E.now (E.sleep d w)

-- What holds on after any request and any sleep.
pub record IsKept (E : Engine) (P : E.World → Type 0) : Type 0 where
  pub inspect_keeps : (id : Text) (w : E.World) → P w → P (E.inspect id w).0
  pub apply_keeps : (id : Text) (a : Action) (w : E.World) → P w → P (E.apply id a w).0
  pub sleep_keeps : (d : ℕ) (w : E.World) → P w → P (E.sleep d w)

module _ (E : Engine) (C : ClockLaws E) where
  open C use {inspect_forward, apply_forward, sleep_forward}

  -- The time has come.
  pub after-IsKept : (t : ℕ) → IsKept E (λ w. t ≤ E.now w)
  after-IsKept t = record {
    inspect_keeps = λ id w h. ground (arith, inspect_forward id w);
    apply_keeps = λ id a w h. ground (arith, apply_forward id a w);
    sleep_keeps = λ d w h. ground (arith, sleep_forward d w);
  }

  module _ (poll : E.World → E.World × Bool) (P : E.World → Type 0)
      (poll_forward : (w : E.World) → E.now w ≤ E.now (poll w).0)
      (poll_keeps : (w : E.World) → P w → P (poll w).0)
      (sleep_keeps : (d : ℕ) (w : E.World) → P w → P (E.sleep d w)) where
    -- The last answer settles it, or the time is up.
    abbrev pub HasEnded : ℕ → E.World → Type 0
    HasEnded since v =
        ((u : E.World) × (v ≡ (poll u).0) × ((poll u).1 ≡ true)) ⊎ (since + dep_wait ≤ E.now v)

    pub wait_until-HasEnded :
        (n since : ℕ) (w : E.World)
        → dep_wait + since ≤ E.now w + n * dep_poll
        → P w
        → (v : E.World) × (wait_until E poll (suc n) since w ≡ some v) × P v × HasEnded since v
    unfolding wait_until
    wait_until-HasEnded zero since w h p = elim (Bool-cases (poll w).1) [
      | inl e ↦ ((poll w).0, rw e refl, poll_keeps w p, inl (w, refl, e))
      | inr e ↦
          let late : leb dep_wait (E.now (poll w).0 - since) ≡ true =
            le→leb dep_wait (E.now (poll w).0 - since) (ground (arith, poll_forward w)) in
          ((poll w).0, rw (e, late) refl, poll_keeps w p, inr (ground (arith, poll_forward w)))
    ]
    wait_until-HasEnded (suc k) since w h p = elim (Bool-cases (poll w).1) [
      | inl e ↦ ((poll w).0, rw e refl, poll_keeps w p, inl (w, refl, e))
      | inr e ↦ elim (Bool-cases (leb dep_wait (E.now (poll w).0 - since))) [
        | inl f ↦
            let late : dep_wait ≤ E.now (poll w).0 - since =
              leb→le dep_wait (E.now (poll w).0 - since) f in
            ((poll w).0, rw (e, f) refl, poll_keeps w p, inr (ground arith))
        | inr f ↦
            let next = E.sleep dep_poll (poll w).0 in
            let (v, r, q, k) =
              wait_until-HasEnded k since next
                (ground (arith, poll_forward w, sleep_forward dep_poll (poll w).0))
                (sleep_keeps dep_poll (poll w).0 (poll_keeps w p)) in
            (v, rw (e, f) r, q, k)
      ]
    ]

-- What a wait for a condition has seen when it ends.
abbrev pub HasWaited : (E : Engine) → DepCondition → Text → E.World → E.World → Type 0
unfolding poll_health poll_completed
HasWaited E started id w v = v ≡ w
HasWaited E healthy id w v =
    ((u : E.World) × (v ≡ (poll_health E id u).0) × ((poll_health E id u).1 ≡ true))
    ⊎ (E.now w + dep_wait ≤ E.now v)
HasWaited E completed_successfully id w v =
    ((u : E.World) × (v ≡ (poll_completed E id u).0) × ((poll_completed E id u).1 ≡ true))
    ⊎ (E.now w + dep_wait ≤ E.now v)

module _ (E : Engine) (C : ClockLaws E) (P : E.World → Type 0) (K : IsKept E P) where
  open C use {inspect_forward}
  open K use {inspect_keeps, sleep_keeps}

  -- The wait for a dependency's condition returns within the rounds that it has here, if the clock
  -- does not go back and a sleep lasts as long as it says, and not before either its last
  -- inspection of the dependency settled the condition or two minutes have passed. What every
  -- request and sleep keeps still holds then. Where the dependency only has to be started there is
  -- no wait.
  pub wait_condition-HasWaited :
      (condition : DepCondition) (id : Text) (w : E.World)
      → P w
      → (v : E.World) × (wait_condition E condition id w ≡ some v)
        × P v
        × HasWaited E condition id w v
  unfolding wait_condition wait_healthy wait_completed health_status run_state
  wait_condition-HasWaited started id w p = (w, refl, p, refl)
  wait_condition-HasWaited healthy id w p =
      wait_until-HasEnded E C (poll_health E id) P (λ u. inspect_forward id u)
        (λ u. inspect_keeps id u) sleep_keeps 120 (E.now w) w (ground arith) p
  wait_condition-HasWaited completed_successfully id w p =
      wait_until-HasEnded E C (poll_completed E id) P (λ u. inspect_forward id u)
        (λ u. inspect_keeps id u) sleep_keeps 120 (E.now w) w (ground arith) p

  wait_dep-ends :
      (ids : List (Text × Text)) (d : Dep) (w : E.World)
      → P w
      → (v : E.World) × (wait_dep E ids d w ≡ some v) × P v
  unfolding wait_dep
  wait_dep-ends ids d w p = by_id (lookup d.service ids)
    where
      by_id :
          (o : Option Text)
          → (v : E.World) × ((elim o as (λ _. Option E.World) [
            | none ↦ some w
            | some id ↦ wait_condition E d.condition id w
          ])
              ≡ some v)
            × P v
      by_id none = (w, refl, p)
      by_id (some id) = let (v, r, q, h) = wait_condition-HasWaited d.condition id w p in (v, r, q)

  pub wait_deps-ends :
      (ids : List (Text × Text)) (ds : List Dep) (w : E.World)
      → P w
      → (v : E.World) × (wait_deps E ids ds w ≡ some v) × P v
  unfolding wait_deps
  wait_deps-ends ids [] w p = (w, refl, p)
  wait_deps-ends ids (d ∷ ds) w p =
      let (v, r, q) = wait_dep-ends ids d w p in
      let (u, s, t) = wait_deps-ends ids ds v q in (u, rw (r, wait_deps) s, t)
