-- ===== src/Docker/Stack/Stops.antt =====
-- src/docker.rs: what stopping the members of a stack has done.
use mathlib.Core.List.{Perm}
use mathlib.Core.List.Perm
use dockdoe.Prelude.{
  ℕ, ◌+◌, ◌≤◌, ◌≡◌, refl, arith, Bool, true, false, some, List, [], ◌∷◌, ◌++◌, length, All, Text,
}
use dockdoe.Web.Actions.{Action}
use dockdoe.Docker.Members.{Member}
use dockdoe.Docker.Order.Sound.{topo_order-IsOrdering}
use dockdoe.Docker.Stack.Api.{Engine, StackOutcome}
use dockdoe.Docker.Stack.{reverse, count_failed, stop_all, stop_in_order}
use dockdoe.Docker.Stack.Waits.{IsKept}

-- A record of the stops that the engine has acknowledged.
pub record StopHistory (E : Engine) (Stopped : Text → E.World → Type 0) : Type 0 where
  pub acknowledged :
      (id : Text) (w : E.World)
      → (E.apply id Action.stop w).1 ≡ true
      → Stopped id (E.apply id Action.stop w).0
  pub for_good : (id : Text) → IsKept E (Stopped id)

module _ (E : Engine) where
  snoc-perm : (m : Member) (ms : List Member) → Perm (ms ++ m ∷ []) (m ∷ ms)
  snoc-perm m [] = Perm.rfl
  snoc-perm m (n ∷ ms) = Perm.trans (Perm.cons n (snoc-perm m ms)) (Perm.swap m n ms)

  reverse-perm : (ms : List Member) → Perm (reverse E ms) ms
  reverse-perm [] = Perm.rfl
  reverse-perm (m ∷ ms) = Perm.trans (snoc-perm m (reverse E ms)) (Perm.cons m (reverse-perm ms))

  module _ (Stopped : Text → E.World → Type 0) (H : StopHistory E Stopped) where
    abbrev pub AllStopped : List Member → E.World → Type 0
    AllStopped ms w = All (λ (m : Member). Stopped m.id w) ms

    -- One stop: a failure is counted once, and without one the stop has been acknowledged.
    Counts : (P : E.World → Type 0) → Text → ℕ → E.World × ℕ → Type 0
    Counts P id failed r =
        (failed ≤ r.1) × (r.1 ≤ failed + 1) × P r.0 × (r.1 ≡ failed → Stopped id r.0)

    count_failed-Counts :
        (P : E.World → Type 0) (K : IsKept E P) (id : Text) (w : E.World) (failed : ℕ)
        → P w
        → Counts P id failed (count_failed E failed (E.apply id Action.stop w))
    unfolding Counts
    count_failed-Counts P K id w failed h =
        by_answer (E.apply id Action.stop w) (K.apply_keeps id Action.stop w h)
          (H.acknowledged id w)
      where
        by_answer :
            (r : E.World × Bool)
            → P r.0
            → (r.1 ≡ true → Stopped id r.0)
            → Counts P id failed (count_failed E failed r)
        by_answer (v, true) k a = (ground arith, ground arith, k, λ _. a refl)
        by_answer (v, false) k a = (ground arith, ground arith, k, λ e. ground arith)

    -- Stopping counts at most all members as failed, and where it counts none, the stop of each has been
    -- acknowledged.
    stop_all-counts :
        (P : E.World → Type 0) (K : IsKept E P) (ms : List Member) (r : E.World × ℕ)
        → P r.0
        → (r.1 ≤ (stop_all E ms r).1)
          × ((stop_all E ms r).1 ≤ r.1 + length ms)
          × P (stop_all E ms r).0
          × ((stop_all E ms r).1 ≡ r.1 → AllStopped ms (stop_all E ms r).0)
    unfolding stop_all Counts
    stop_all-counts P K [] r h = (ground arith, ground arith, h, λ _. tt)
    stop_all-counts P K (m ∷ ms) (w, failed) h =
        let next = count_failed E failed (E.apply m.id Action.stop w) in
        let (le, ge, p, s) = count_failed-Counts P K m.id w failed h in
        let G = H.for_good m.id in
        let K2 : IsKept E (λ u. P u × (next.1 ≡ failed → Stopped m.id u)) = record {
          inspect_keeps = λ id u g. (K.inspect_keeps id u g.0, λ e. G.inspect_keeps id u (g.1 e));
          apply_keeps = λ id a u g. (K.apply_keeps id a u g.0, λ e. G.apply_keeps id a u (g.1 e));
          sleep_keeps = λ d u g. (K.sleep_keeps d u g.0, λ e. G.sleep_keeps d u (g.1 e));
        } in
        let (le2, ge2, p2, s2) =
          stop_all-counts (λ u. P u × (next.1 ≡ failed → Stopped m.id u)) K2 ms next (p, s) in
        (ground arith, ground arith, p2.0, λ e. (p2.1 (ground arith), s2 (ground arith)))

    -- What the result of a stop says.
    abbrev pub IsStopped : ℕ → List Member → E.World × StackOutcome → Type 0
    IsStopped total ordered (v, out) =
        (out.total ≡ total)
        × (out.failed ≤ length ordered)
        × (out.failed ≡ 0 → AllStopped ordered v)

    pub stop_in_order-IsStopped :
        (members : List Member) (w : E.World)
        → (r : E.World × StackOutcome) × (stop_in_order E members w ≡ some r)
          × ((ordered : List Member) × Perm ordered members × IsStopped (length members) ordered r)
    unfolding stop_in_order
    stop_in_order-IsStopped members w =
        let (ordered, e, o) = topo_order-IsOrdering members in
        let r = stop_all E (reverse E ordered) (w, 0) in
        let (le, ge, p, s) =
          stop_all-counts (λ _. Unit)
            (record {
              inspect_keeps = λ _ _ _. tt;
              apply_keeps = λ _ _ _ _. tt;
              sleep_keeps = λ _ _ _. tt;
            })
            (reverse E ordered) (w, 0) tt in
        (
          (r.0, record { total = length members; failed = r.1 }),
          rw (e, stop_in_order) refl,
          (reverse E ordered, Perm.trans (reverse-perm ordered) o.perm, (refl, ground arith, s)),
        )
