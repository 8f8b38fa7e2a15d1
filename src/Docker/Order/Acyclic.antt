-- ===== src/Docker/Order/Acyclic.antt =====
-- Where the dependencies have no cycle, `topo_order` leaves nothing to the listing order.
use mathlib.Core.HLevel.{hedberg}
use mathlib.Core.Logic.{∥∥₁_elim}
use mathlib.Core.List.{Perm, Permᴰ}
use dockdoe.Prelude.{
  IsSubsequence, nil, keep, skip, ℕ, zero, suc, ◌<◌, ◌≡◌, refl, sym, ap, subst, ◌∙◌, inl, inr, Bool,
  true, false, some, List, [], ◌∷◌, ◌++◌, ◌||◌, not, Text, text_eq, contains, all, All, All-In, In,
  here, there, In-append, In-of_contains, contains_of_In, Bool-cases, arith, append-nil,
}
use dockdoe.Docker.Members.{Dep, Member, services}
use dockdoe.Docker.Order.{is_ready, topo_order}
use dockdoe.Docker.Order.Sound.{DepsBefore, IsOrdering, topo_order-IsOrdering, services-append}

-- A rank of the services that every dependency within the stack lowers: there is no cycle.
abbrev pub Ranks : List Text → (Text → ℕ) → List Member → Type 0
Ranks in_stack rank members =
    All
      (λ (m : Member).
        All (λ (d : Dep). contains in_stack d.service ≡ true → rank d.service < rank m.service)
          m.deps)
      members

-- A member that is not ready has a dependency in the stack that is not placed.
not-all_dep :
    (in_stack placed : List Text) (ds : List Dep)
    → all (λ (d : Dep). not (contains in_stack d.service) || contains placed d.service) ds ≡ false
    → (d : Dep) × In d ds
      × (contains in_stack d.service ≡ true)
      × (contains placed d.service ≡ false)
not-all_dep in_stack placed [] h = cc
not-all_dep in_stack placed (d ∷ ds) h = elim (Bool-cases (contains placed d.service)) [
  | inl e ↦ let (d', m, i, p) = not-all_dep in_stack placed ds (ground arith) in (d', there m, i, p)
  | inr e ↦ elim (Bool-cases (contains in_stack d.service)) [
    | inl i ↦ (d, here, i, e)
    | inr o ↦
        let (d', m, i, p) = not-all_dep in_stack placed ds (ground arith) in (d', there m, i, p)
  ]
]

In-services :
    (s : Text) (ms : List Member) → In s (services ms) → (m : Member) × In m ms × (m.service ≡ s)
In-services s [] i = elim i [ ]
In-services s (m ∷ ms) here = (m, here, refl)
In-services s (m ∷ ms) (there i) = let (k, j, e) = In-services s ms i in (k, there j, e)

services-In : (m : Member) (ms : List Member) → In m ms → In m.service (services ms)
services-In m [] i = elim i [ ]
services-In m (k ∷ ms) here = here
services-In m (k ∷ ms) (there i) = there (services-In m ms i)

contains-Permᴰ :
    (s : Text) {xs ys : List Member}
    → Permᴰ xs ys
    → contains (services xs) s ≡ contains (services ys) s
contains-Permᴰ s Permᴰ.nil = refl
contains-Permᴰ s (Permᴰ.cons {a = a} {b = b} {l₁ = xs} {l₂ = ys} e p) =
    ground (arith, contains-Permᴰ s p, ap (λ (m : Member). m.service) e)
contains-Permᴰ s (Permᴰ.swap {a = a} {b = b} {a' = a'} {b' = b'} {l = l} e f) =
    ground (arith, ap (λ (m : Member). m.service) e, ap (λ (m : Member). m.service) f)
contains-Permᴰ s (Permᴰ.trans p q) = contains-Permᴰ s p ∙ contains-Permᴰ s q

Bool-discrete : Discrete Bool
Bool-discrete = hlevel

contains-perm :
    (s : Text) {xs ys : List Member}
    → Perm xs ys
    → contains (services xs) s ≡ contains (services ys) s
contains-perm s p = ∥∥₁_elim p (hedberg Bool-discrete _ _) (λ d. contains-Permᴰ s d)

All-IsSubsequence :
    (P : Member → Type 0) {xs ys : List Member} → IsSubsequence xs ys → All P ys → All P xs
All-IsSubsequence P nil h = tt
All-IsSubsequence P (keep s) h = (h.0, All-IsSubsequence P s h.1)
All-IsSubsequence P (skip s) h = All-IsSubsequence P s h.1

module _ (members order : List Member) (rank : Text → ℕ)
    (ranked : Ranks (services members) rank members)
    (o : IsOrdering (services members) members members order) where
  stuck_dep :
      (m : Member) → In m o.stuck → (k : Member) × In k o.stuck × (rank k.service < rank m.service)
  unfolding is_ready
  stuck_dep m i =
      let lower =
        All-In
          (λ (m : Member).
            All
              (λ (d : Dep).
                contains (services members) d.service ≡ true → rank d.service < rank m.service)
              m.deps)
          o.stuck (All-IsSubsequence _ o.listing_order ranked) i in
      let (d, j, inside, waits) = not-all_dep (services members) (services o.done) m.deps (
        All-In (λ m. is_ready (services members) (services o.done) m ≡ false) o.stuck o.blocked
          i) in
      let somewhere : In d.service (services o.done ++ services o.stuck) =
        subst (λ l. In d.service l) (ap services o.parted ∙ services-append o.done o.stuck)
          (In-of_contains d.service (services order) (contains-perm d.service o.perm ∙ inside)) in
      let below = All-In _ m.deps lower j inside in
      elim (In-append (services o.done) (services o.stuck) somewhere) [
        | inl placed ↦ absurd (cc (contains_of_In d.service (services o.done) placed, waits))
        | inr later ↦
            let (k, at, same) = In-services d.service o.stuck later in
            (k, at, subst (λ s. rank s < rank m.service) (sym same) below)
      ]

  no_stuck : (bound : ℕ) (m : Member) → In m o.stuck → rank m.service < bound → ⊥
  no_stuck zero m i h = elim h [ ]
  no_stuck (suc bound) m i h =
      let (k, at, lower) = stuck_dep m i in no_stuck bound k at (omega arith)

  stuck-nil : (stuck : List Member) → o.stuck ≡ stuck → stuck ≡ []
  stuck-nil [] e = refl
  stuck-nil (m ∷ ms) e =
      absurd (no_stuck (suc (rank m.service)) m (subst (λ l. In m l) (sym e) here) (omega arith))

-- If the dependencies within the stack have no cycle, `topo_order` gives a permutation of the members
-- in which every member comes after the services of the stack that it depends on.
pub topo_order-DepsBefore :
    (members : List Member) (rank : Text → ℕ)
    → Ranks (services members) rank members
    → (order : List Member) × (topo_order members ≡ some order)
      × Perm order members
      × DepsBefore (services members) [] order
topo_order-DepsBefore members rank ranked =
    let (order, e, o) = topo_order-IsOrdering members in
    let all_done : order ≡ o.done =
      o.parted
      ∙ ap (λ l. o.done ++ l) (stuck-nil members order rank ranked o o.stuck refl)
      ∙ append-nil o.done in
    (order, e, o.perm, subst (DepsBefore (services members) []) (sym all_done) o.ordered)
