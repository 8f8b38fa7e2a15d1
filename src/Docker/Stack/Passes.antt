-- ===== src/Docker/Stack/Passes.antt =====
-- src/docker.rs: what a pass over the members of a stack has done.
use dockdoe.Prelude.{
  ℕ, ◌+◌, ◌≤◌, ◌<◌, ◌≡◌, refl, arith, true, Bool-cases, inl, inr, Option, some, List, [], ◌∷◌,
  length, All, Text,
}
use dockdoe.Web.Actions.{Action}
use dockdoe.Docker.Members.{Member}
use dockdoe.Docker.Stack.Api.{Engine}
use dockdoe.Docker.Stack.{is_running, run_state, Pass, counted, start_member, start_pass}
use dockdoe.Docker.Stack.Waits.{ClockLaws, IsKept, wait_deps-ends}

-- A record of what the engine has said of each container: `Seen id w` once it was found running or its
-- start was acknowledged, for good.
pub record History (E : Engine) (Seen : Text → E.World → Type 0) : Type 0 where
  pub found :
      (id : Text) (w : E.World) → (is_running E id w).1 ≡ true → Seen id (is_running E id w).0
  pub acknowledged :
      (id : Text) (w : E.World)
      → (E.apply id Action.start w).1 ≡ true
      → Seen id (E.apply id Action.start w).0
  pub for_good : (id : Text) → IsKept E (Seen id)

module _ (E : Engine) (C : ClockLaws E) (Seen : Text → E.World → Type 0) (H : History E Seen) where
  open H use {found, acknowledged, for_good}

  abbrev pub AllSeen : List Member → E.World → Type 0
  AllSeen ms w = All (λ (m : Member). Seen m.id w) ms

  -- The pass `q` follows the pass `p` after `n` more members; a failed start has taken time.
  abbrev pub Follows : ℕ → Pass E → Pass E → Type 0
  Follows n p q =
      (p.failed ≤ q.failed)
      × (q.failed ≤ p.failed + n)
      × (E.now p.world ≤ E.now q.world)
      × (p.failed < q.failed → E.now p.world < E.now q.world)

  both : (P : E.World → Type 0) (t : ℕ) → IsKept E P → IsKept E (λ w. P w × (t ≤ E.now w))
  both P t K = record {
    inspect_keeps = λ id w h. (K.inspect_keeps id w h.0, ground (arith, C.inspect_forward id w));
    apply_keeps = λ id a w h. (K.apply_keeps id a w h.0, ground (arith, C.apply_forward id a w));
    sleep_keeps = λ d w h. (K.sleep_keeps d w h.0, ground (arith, C.sleep_forward d w));
  }

  module _ (P : E.World → Type 0) (K : IsKept E P) (ids : List (Text × Text)) where
    abbrev pub Step : ℕ → List Member → Option (Pass E) → Pass E → Type 0
    Step n ms result p =
        (q : Pass E) × (result ≡ some q)
        × P q.world
        × Follows n p q
        × (q.failed ≡ p.failed → AllSeen ms q.world)

    start_waited :
        (m : Member) (p : Pass E) (v : E.World)
        → P v
        → E.now p.world ≤ E.now v
        → Step 1
            (m ∷ [])
            (some (counted E (record p { world = v }) (E.apply m.id Action.start v)))
            p
    start_waited m p v h t = elim (Bool-cases (E.apply m.id Action.start v).1) [
      | inl f ↦ (
        record { world = (E.apply m.id Action.start v).0; failed = p.failed; progressed = true },
        rw f refl,
        K.apply_keeps m.id Action.start v h,
        (
          ground arith,
          ground arith,
          ground (arith, C.apply_forward m.id Action.start v),
          λ l. ground (arith, C.apply_forward m.id Action.start v),
        ),
        λ _. (acknowledged m.id v f, tt),
      )
      | inr f ↦ (
        record {
          world = (E.apply m.id Action.start v).0;
          failed = p.failed + 1;
          progressed = p.progressed;
        },
        rw f refl,
        K.apply_keeps m.id Action.start v h,
        (
          ground arith,
          ground arith,
          ground (arith, C.apply_forward m.id Action.start v),
          λ l. ground (arith, C.apply_forward m.id Action.start v),
        ),
        λ e. ground arith,
      )
    ]

    start_member-ends :
        (m : Member) (p : Pass E) → P p.world → Step 1 (m ∷ []) (start_member E ids m p) p
    unfolding start_member is_running run_state
    start_member-ends m p h = elim (Bool-cases (is_running E m.id p.world).1) [
      | inl e ↦ (
        record p { world = (E.inspect m.id p.world).0 },
        rw e refl,
        K.inspect_keeps m.id p.world h,
        (ground arith, ground arith, C.inspect_forward m.id p.world, λ l. ground arith),
        λ _. (found m.id p.world e, tt),
      )
      | inr e ↦
          let w = (E.inspect m.id p.world).0 in
          let (v, r, (h1, t)) =
            wait_deps-ends E C (λ u. P u × (E.now p.world ≤ E.now u)) (both P (E.now p.world) K) ids
              m.deps w (K.inspect_keeps m.id p.world h, C.inspect_forward m.id p.world) in
          let (q, s, a, b, c) = start_waited m p v h1 t in (q, rw (e, r) s, a, b, c)
    ]

  -- A pass over members ends, counts at most all of them as failed, and where it counts none, each of
  -- them has been found running or its start has been acknowledged.
  pub start_pass-ends :
      (P : E.World → Type 0) (K : IsKept E P) (ids : List (Text × Text)) (ms : List Member)
      (p : Pass E)
      → P p.world
      → Step P K ids (length ms) ms (start_pass E ids ms p) p
  unfolding start_pass
  start_pass-ends P K ids [] p h =
      (p, refl, h, (ground arith, ground arith, ground arith, λ l. ground arith), λ _. tt)
  start_pass-ends P K ids (m ∷ ms) p h =
      let (q, r, hq, f, s) = start_member-ends P K ids m p h in
      let Kept = λ (w : E.World). P w × (q.failed ≡ p.failed → Seen m.id w) in
      let K2 : IsKept E Kept = record {
        inspect_keeps =
            λ id w g. (K.inspect_keeps id w g.0, λ e. (for_good m.id).inspect_keeps id w (g.1 e));
        apply_keeps =
            λ id a w g. (K.apply_keeps id a w g.0, λ e. (for_good m.id).apply_keeps id a w (g.1 e));
        sleep_keeps =
            λ d w g. (K.sleep_keeps d w g.0, λ e. (for_good m.id).sleep_keeps d w (g.1 e));
      } in
      let (o, t, ho, g, l) = start_pass-ends Kept K2 ids ms q (hq, λ e. (s e).0) in
      (
        o,
        rw (r, start_pass) t,
        ho.0,
        (ground arith, ground arith, ground arith, λ u. ground arith),
        λ e. (ho.1 (ground arith), l (ground arith)),
      )
