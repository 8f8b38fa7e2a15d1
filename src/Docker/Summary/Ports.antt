-- ===== src/Docker/Summary/Ports.antt =====
-- src/docker.rs: the ports of a container, each once and in order.
use dockdoe.Prelude.{
  ℕ, ◌≤◌, ◌≡◌, refl, All, All-map_imp, ap, ◌∙◌, arith, Bool, true, false, ◌||◌, not, ◌&&◌,
  Bool-cases, inl, inr, Option, none, some, List, [], ◌∷◌, map, ◌==◌, contains, sort_by, insert_by,
  sort_by-IsSorted, IsSorted, eq_of_==, subst,
}
use dockdoe.Model.{Port}
use dockdoe.Docker.Summary.{
  PortSummary, ContainerSummary, port_of, port_eq, port_beq_iff, first_seen, listed_ports,
  port_greater, port_gt, ports,
}

-- Each port stands in the list once.
abbrev pub AreDistinct : List Port → Type 0
AreDistinct [] = Unit
AreDistinct (p ∷ ps) = (contains ps p ≡ false) × AreDistinct ps

==_comm : (p q : Port) → (p == q) ≡ (q == p)
==_comm p q = ground (arith, port_beq_iff p q, port_beq_iff q p)

skip_test : (a b c : Bool) → (a ≡ true → c ≡ true) → (b && not c) ≡ ((a || b) && not c)
skip_test true b c h = rw (h refl) (ground arith)
skip_test false b c h = refl

take_test :
    (a b c : Bool) → (a ≡ true → c ≡ false) → (a || (b && not (a || c))) ≡ ((a || b) && not c)
take_test true b c h = rw (h refl) refl
take_test false b c h = refl

contains-first_seen :
    (q : Port) (seen : List Port) (ps : List PortSummary)
    → contains (first_seen seen ps) q ≡ (contains (map port_of ps) q && not (contains seen q))
unfolding first_seen
contains-first_seen q seen [] = refl
contains-first_seen q seen (p ∷ ps) =
    let seen_as : (b : Bool)
        → contains seen (port_of p) ≡ b
        → (port_of p == q) ≡ true
        → contains seen q ≡ b =
      λ b e f. subst (λ r. contains seen r ≡ b) (eq_of_== (port_of p) q f) e in
    elim (Bool-cases (contains seen (port_of p))) [
      | inl e ↦
          rw (e, contains-first_seen q seen ps)
            (skip_test (port_of p == q) (contains (map port_of ps) q) (contains seen q)
              (seen_as true e))
      | inr e ↦
          rw (e, contains-first_seen q (port_of p ∷ seen) ps)
            (take_test (port_of p == q) (contains (map port_of ps) q) (contains seen q)
              (seen_as false e))
    ]

AreDistinct-first_seen :
    (seen : List Port) (ps : List PortSummary) → AreDistinct (first_seen seen ps)
unfolding first_seen
AreDistinct-first_seen seen [] = tt
AreDistinct-first_seen seen (p ∷ ps) = elim (Bool-cases (contains seen (port_of p))) [
  | inl e ↦ rw e (AreDistinct-first_seen seen ps)
  | inr e ↦ rw e (
    ground (
      arith,
      contains-first_seen (port_of p) (port_of p ∷ seen) ps,
      port_beq_iff (port_of p) (port_of p),
    ),
    AreDistinct-first_seen (port_of p ∷ seen) ps,
  )
]

contains-insert_by :
    (q p : Port) (ps : List Port)
    → contains (insert_by port_gt p ps) q ≡ ((p == q) || contains ps q)
unfolding insert_by
contains-insert_by q p [] = refl
contains-insert_by q p (r ∷ ps) = elim (Bool-cases (port_gt p r)) [
  | inl e ↦ rw (e, contains-insert_by q p ps) (ground arith)
  | inr e ↦ rw e refl
]

contains-sort_by : (q : Port) (ps : List Port) → contains (sort_by port_gt ps) q ≡ contains ps q
unfolding sort_by
contains-sort_by q [] = refl
contains-sort_by q (p ∷ ps) =
    contains-insert_by q p (sort_by port_gt ps) ∙ ap (λ b. (p == q) || b) (contains-sort_by q ps)

AreDistinct-insert_by :
    (p : Port) (ps : List Port)
    → contains ps p ≡ false
    → AreDistinct ps
    → AreDistinct (insert_by port_gt p ps)
unfolding insert_by
AreDistinct-insert_by p [] h d = (refl, tt)
AreDistinct-insert_by p (r ∷ ps) h d = elim (Bool-cases (port_gt p r)) [
  | inl e ↦ rw e (
    ground (arith, contains-insert_by r p ps, ==_comm p r),
    AreDistinct-insert_by p ps (ground arith) d.1,
  )
  | inr e ↦ rw e (h, d)
]

AreDistinct-sort_by : (ps : List Port) → AreDistinct ps → AreDistinct (sort_by port_gt ps)
unfolding sort_by
AreDistinct-sort_by [] d = tt
AreDistinct-sort_by (p ∷ ps) d =
    AreDistinct-insert_by p (sort_by port_gt ps) (contains-sort_by p ps ∙ d.0)
      (AreDistinct-sort_by ps d.1)

port_greater_asym :
    (a b : Option ℕ) (i j : ℕ) → port_greater a b i j ≡ true → port_greater b a j i ≡ false
port_greater_asym none none i j h = ground arith
port_greater_asym none (some b) i j h = refl
port_greater_asym (some a) none i j h = cc
port_greater_asym (some a) (some b) i j h = ground arith

port_greater_le_trans :
    (a b c : Option ℕ) (i j k : ℕ)
    → port_greater a b i j ≡ false
    → port_greater b c j k ≡ false
    → port_greater a c i k ≡ false
port_greater_le_trans none none none i j k g h = ground arith
port_greater_le_trans none none (some c) i j k g h = cc
port_greater_le_trans none (some b) c i j k g h = cc
port_greater_le_trans (some a) none none i j k g h = refl
port_greater_le_trans (some a) none (some c) i j k g h = cc
port_greater_le_trans (some a) (some b) none i j k g h = refl
port_greater_le_trans (some a) (some b) (some c) i j k g h = ground arith

-- The published ports by their public port, then the others by their private port.
abbrev pub InPortOrder : Option ℕ → Option ℕ → ℕ → ℕ → Type 0
InPortOrder (some x) (some y) a b = x ≤ y
InPortOrder (some x) none a b = Unit
InPortOrder none (some y) a b = ⊥
InPortOrder none none a b = a ≤ b

abbrev pub Precedes : Port → Port → Type 0
Precedes p q = InPortOrder p.public q.public p.private q.private

abbrev pub AreOrdered : List Port → Type 0
AreOrdered [] = Unit
AreOrdered (p ∷ ps) = All (Precedes p) ps × AreOrdered ps

port_greater-InPortOrder :
    (x y : Option ℕ) (a b : ℕ) → port_greater x y a b ≡ false → InPortOrder x y a b
port_greater-InPortOrder (some x) (some y) a b h = ground arith
port_greater-InPortOrder (some x) none a b h = tt
port_greater-InPortOrder none (some y) a b h = absurd (ground (arith, h))
port_greater-InPortOrder none none a b h = ground arith

IsSorted-AreOrdered : (ps : List Port) → IsSorted port_gt ps → AreOrdered ps
IsSorted-AreOrdered [] h = tt
IsSorted-AreOrdered (p ∷ ps) h = (
  All-map_imp (λ q. port_gt p q ≡ false) (Precedes p)
      (λ q e. port_greater-InPortOrder p.public q.public p.private q.private e) ps h.0,
  IsSorted-AreOrdered ps h.1,
)

-- The ports of a container are exactly those of its entry in the listing, each once. Of any two of
-- them the one before has the smaller or the same public port if both are published, is the published
-- one if one is, and otherwise has the smaller or the same private port.
pub ports-canonical :
    (s : ContainerSummary)
    → AreOrdered (ports s)
      × AreDistinct (ports s)
      × ((q : Port) → contains (ports s) q ≡ contains (map port_of (listed_ports s.ports)) q)
unfolding ports
ports-canonical s = (
  IsSorted-AreOrdered (sort_by port_gt kept) (
      sort_by-IsSorted port_gt (λ p q. port_greater_asym p.public q.public p.private q.private)
        (λ p q r. port_greater_le_trans p.public q.public r.public p.private q.private r.private)
        kept),
  AreDistinct-sort_by kept (AreDistinct-first_seen [] (listed_ports s.ports)),
  λ q. contains-sort_by q kept ∙ contains-first_seen q [] (listed_ports s.ports) ∙ ground arith,
)
  where
    kept : List Port
    kept = first_seen [] (listed_ports s.ports)
