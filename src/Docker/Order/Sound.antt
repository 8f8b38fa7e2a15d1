-- ===== src/Docker/Order/Sound.antt =====
-- What `topo_order` gives for any members, cyclic or not.
use mathlib.Core.List.{Perm}
use mathlib.Core.List.Perm
use dockdoe.Prelude.{
  ℕ, zero, suc, ◌≤◌, ◌≡◌, refl, sym, ap, subst, ◌⊎◌, inl, inr, true, false, some, List, [], ◌∷◌,
  ◌++◌, ◌||◌, not, Text, text_eq, contains, all, select, length, All, All-map_imp, All-select,
  Bool-cases, arith, append-nil, append_assoc, select-partition-perm, length-partition,
  select-IsSubsequence, IsSubsequence, IsSubsequence-trans, IsSubsequence-refl,
}
use dockdoe.Docker.Members.{Dep, Member, services}
use dockdoe.Docker.Order.{is_ready, rounds, topo_order}

pub services-append : (xs ys : List Member) → services (xs ++ ys) ≡ services xs ++ services ys
services-append [] ys = refl
services-append (x ∷ xs) ys = ap (λ t. x.service ∷ t) (services-append xs ys)

-- A dependency is outside the stack or among the services placed earlier.
abbrev pub IsMet : List Text → List Text → Dep → Type 0
IsMet in_stack earlier d =
    (contains in_stack d.service ≡ false) ⊎ (contains earlier d.service ≡ true)

-- Every member comes after what it depends on.
abbrev pub DepsBefore : List Text → List Text → List Member → Type 0
DepsBefore in_stack earlier [] = Unit
DepsBefore in_stack earlier (m ∷ ms) =
    All (IsMet in_stack earlier) m.deps × DepsBefore in_stack (earlier ++ m.service ∷ []) ms

contains-append_left :
    (xs ys : List Text) (s : Text) → contains xs s ≡ true → contains (xs ++ ys) s ≡ true
contains-append_left [] ys s h = cc
contains-append_left (x ∷ xs) ys s h = ground (arith, contains-append_left xs ys s)

IsMet-append :
    (in_stack earlier more : List Text) (d : Dep)
    → IsMet in_stack earlier d
    → IsMet in_stack (earlier ++ more) d
IsMet-append in_stack earlier more d (inl h) = inl h
IsMet-append in_stack earlier more d (inr h) = inr (contains-append_left earlier more d.service h)

all-IsMet :
    (in_stack placed : List Text) (ds : List Dep)
    → all (λ (d : Dep). not (contains in_stack d.service) || contains placed d.service) ds ≡ true
    → All (IsMet in_stack placed) ds
all-IsMet in_stack placed [] h = tt
all-IsMet in_stack placed (d ∷ ds) h = (ground arith, all-IsMet in_stack placed ds (ground arith))

is_ready-IsMet :
    (in_stack placed : List Text) (m : Member)
    → is_ready in_stack placed m ≡ true
    → All (IsMet in_stack placed) m.deps
unfolding is_ready
is_ready-IsMet in_stack placed m h = all-IsMet in_stack placed m.deps h

batch-DepsBefore :
    (in_stack placed more : List Text) (ms : List Member)
    → All (λ m. is_ready in_stack placed m ≡ true) ms
    → DepsBefore in_stack (placed ++ more) ms
batch-DepsBefore in_stack placed more [] h = tt
batch-DepsBefore in_stack placed more (m ∷ ms) h = (
  All-map_imp (IsMet in_stack placed) (IsMet in_stack (placed ++ more))
      (λ d k. IsMet-append in_stack placed more d k) m.deps (is_ready-IsMet in_stack placed m h.0),
  subst (λ e. DepsBefore in_stack e ms) (sym (append_assoc placed more (m.service ∷ [])))
      (batch-DepsBefore in_stack placed (more ++ m.service ∷ []) ms h.1),
)

DepsBefore-append :
    (in_stack earlier : List Text) (xs ys : List Member)
    → DepsBefore in_stack earlier xs
    → DepsBefore in_stack (earlier ++ services xs) ys
    → DepsBefore in_stack earlier (xs ++ ys)
DepsBefore-append in_stack earlier [] ys h k =
    subst (λ e. DepsBefore in_stack e ys) (append-nil earlier) k
DepsBefore-append in_stack earlier (x ∷ xs) ys h k = (
  h.0,
  DepsBefore-append in_stack (earlier ++ x.service ∷ []) xs ys h.1 (
      subst (λ e. DepsBefore in_stack e ys)
        (sym (append_assoc earlier (x.service ∷ []) (services xs))) k),
)

-- An ordering of `members`: `done` respects the dependencies; each member of `stuck`, which keeps the
-- order of the listing, has a dependency in the stack that `done` does not place.
pub record IsOrdering (in_stack : List Text) (members remaining order : List Member) : Type 0 where
  pub done : List Member
  pub stuck : List Member
  pub parted : order ≡ done ++ stuck
  pub perm : Perm order members
  pub ordered : DepsBefore in_stack [] done
  pub blocked : All (λ m. is_ready in_stack (services done) m ≡ false) stuck
  pub listing_order : IsSubsequence stuck remaining

not_ready-All :
    (in_stack placed : List Text) (ms : List Member)
    → All
        (λ m. is_ready in_stack placed m ≡ false)
        (select (λ k. not (is_ready in_stack placed k)) ms)
not_ready-All in_stack placed [] = tt
not_ready-All in_stack placed (m ∷ ms) = elim (Bool-cases (is_ready in_stack placed m)) [
  | inl e ↦ rw e (not_ready-All in_stack placed ms)
  | inr e ↦ rw e (e, not_ready-All in_stack placed ms)
]

List-cases : (xs : List Member) → (xs ≡ []) ⊎ ((r : Member) × (rs : List Member) × (xs ≡ r ∷ rs))
List-cases [] = inl refl
List-cases (x ∷ xs) = inr (x, xs, refl)

-- The loop, with a round left for each remaining member, ends in an ordering.
rounds-IsOrdering :
    (fuel : ℕ) (in_stack : List Text) (members result remaining : List Member)
    → length remaining ≤ fuel
    → Perm (result ++ remaining) members
    → DepsBefore in_stack [] result
    → (order : List Member) × (rounds fuel in_stack (services result) result remaining ≡ some order)
      × IsOrdering in_stack members remaining order
unfolding rounds
rounds-IsOrdering fuel in_stack members result [] h p d = (
  result,
  refl,
  record {
    done = result;
    stuck = [];
    parted = sym (append-nil result);
    perm = subst (λ l. Perm l members) (append-nil result) p;
    ordered = d;
    blocked = tt;
    listing_order = IsSubsequence-refl [];
  },
)
rounds-IsOrdering zero in_stack members result (m ∷ ms) h p d = absurd (omega arith)
rounds-IsOrdering (suc fuel) in_stack members result (m ∷ ms) h p d =
    let test = is_ready in_stack (services result) in
    let ready = select test (m ∷ ms) in
    let rest = select (λ k. not (test k)) (m ∷ ms) in
    let parts : Perm (ready ++ rest) (m ∷ ms) = select-partition-perm test (m ∷ ms) in
    let sizes = length-partition test (m ∷ ms) in
    elim (List-cases ready) [
      | inl none_ready ↦ (
        result ++ rest,
        rw (none_ready, rounds) refl,
        record {
          done = result;
          stuck = rest;
          parted = refl;
          perm =
              Perm.trans
                (Perm.append_left result (subst (λ l. Perm (l ++ rest) (m ∷ ms)) none_ready parts))
                p;
          ordered = d;
          blocked = not_ready-All in_stack (services result) (m ∷ ms);
          listing_order = select-IsSubsequence (λ k. not (test k)) (m ∷ ms);
        },
      )
      | inr (r, rs, some_ready) ↦
          let batch = r ∷ rs in
          let ready_batch : All (λ k. test k ≡ true) batch =
            subst (All (λ k. test k ≡ true)) some_ready (All-select test (m ∷ ms)) in
          let shorter : length rest ≤ fuel =
            omega (arith, sizes, ap (λ (l : List Member). length l) some_ready) in
          let p' : Perm ((result ++ batch) ++ rest) members =
            subst (λ l. Perm l members) (sym (append_assoc result batch rest))
              (Perm.trans
                (Perm.append_left result (subst (λ l. Perm (l ++ rest) (m ∷ ms)) some_ready parts))
                p) in
          let d' : DepsBefore in_stack [] (result ++ batch) =
            DepsBefore-append in_stack [] result batch d (
              subst (λ e. DepsBefore in_stack e batch) (append-nil (services result))
                (batch-DepsBefore in_stack (services result) [] batch ready_batch)) in
          let (order, e, o) =
            rounds-IsOrdering fuel in_stack members (result ++ batch) rest shorter p' d' in
          (
            order,
            rw (some_ready, rounds) (rw (services-append result batch) at e),
            record {
              done = o.done;
              stuck = o.stuck;
              parted = o.parted;
              perm = o.perm;
              ordered = o.ordered;
              blocked = o.blocked;
              listing_order =
                  IsSubsequence-trans (select-IsSubsequence (λ k. not (test k)) (m ∷ ms))
                    o.listing_order;
            },
          )
    ]

-- `topo_order` ends within as many rounds as there are members. Its result is a permutation of the
-- members: first `done`, where every member comes after the dependencies that the stack has, then
-- `stuck`, in the order of the listing, each with a dependency in the stack that `done` lacks.
pub topo_order-IsOrdering :
    (members : List Member)
    → (order : List Member) × (topo_order members ≡ some order)
      × IsOrdering (services members) members members order
unfolding topo_order
topo_order-IsOrdering members =
    rounds-IsOrdering (length members) (services members) members [] members (omega arith) Perm.rfl
      tt
