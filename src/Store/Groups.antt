-- ===== src/Store/Groups.antt =====
-- src/store.rs: `GROUP BY` a number with `ORDER BY` it, as the chart queries group their rows.
use native.Mathlib.Nat.{mul-le-mul_right, lt_of_mul-lt-mul_right, suc-mul}
use dockdoe.Prelude.{
  ℕ, suc, ◌+◌, ◌*◌, ◌≤◌, ◌<◌, ◌≡◌, refl, sym, ap, arith, Bool-cases, inl, inr, List, [], ◌∷◌, map,
  length, select, All, All-map_imp, All-zip, length-map, In-map, All-of_map, All-In_self, subst, In,
  here, there, if◌then◌else◌, ltb, ◌==◌, nat_eq,
}

-- The keys of the groups: each once, from the smallest on.
abbrev pub insert_key : ℕ → List ℕ → List ℕ
insert_key k [] = k ∷ []
insert_key k (j ∷ js) =
    let rest = insert_key k js in
    if k == j then j ∷ js else if ltb k j then k ∷ j ∷ js else j ∷ rest

unfoldable pub group_keys : List ℕ → List ℕ
group_keys [] = []
group_keys (k ∷ ks) = insert_key k (group_keys ks)

abbrev pub IsAscending : List ℕ → Type 0
IsAscending [] = Unit
IsAscending (k ∷ ks) = All (λ j. k < j) ks × IsAscending ks

insert_key-All : (P : ℕ → Type 0) (k : ℕ) (ks : List ℕ) → P k → All P ks → All P (insert_key k ks)
insert_key-All P k [] p h = (p, tt)
insert_key-All P k (j ∷ js) p h = elim (Bool-cases (k == j)) [
  | inl e ↦ rw e h
  | inr e ↦ elim (Bool-cases (ltb k j)) [
    | inl f ↦ rw (e, f) (p, h)
    | inr f ↦ rw (e, f) (h.0, insert_key-All P k js p h.1)
  ]
]

insert_key-IsAscending : (k : ℕ) (ks : List ℕ) → IsAscending ks → IsAscending (insert_key k ks)
insert_key-IsAscending k [] h = (tt, tt)
insert_key-IsAscending k (j ∷ js) h = elim (Bool-cases (k == j)) [
  | inl e ↦ rw e h
  | inr e ↦ elim (Bool-cases (ltb k j)) [
    | inl f ↦
        let below : k < j = ground arith in
        rw (e, f)
          (
            (below, All-map_imp (λ i. j < i) (λ i. k < i) (λ i l. omega (arith, l, below)) js h.0),
            h,
          )
    | inr f ↦
        let above : j < k = ground (arith, e, f) in
        rw (e, f) (insert_key-All (λ i. j < i) k js above h.0, insert_key-IsAscending k js h.1)
  ]
]

pub group_keys-IsAscending : (ks : List ℕ) → IsAscending (group_keys ks)
unfolding group_keys
group_keys-IsAscending [] = tt
group_keys-IsAscending (k ∷ ks) =
    insert_key-IsAscending k (group_keys ks) (group_keys-IsAscending ks)

In-insert_key : (k : ℕ) (ks : List ℕ) → In k (insert_key k ks)
In-insert_key k [] = here
In-insert_key k (j ∷ js) = elim (Bool-cases (k == j)) [
  | inl e ↦ let same : k ≡ j = ground arith in rw e (rw same here)
  | inr e ↦ elim (Bool-cases (ltb k j)) [
    | inl f ↦ rw (e, f) here
    | inr f ↦ rw (e, f) (there (In-insert_key k js))
  ]
]

In-insert_key_of : (k : ℕ) {i : ℕ} (ks : List ℕ) → In i ks → In i (insert_key k ks)
In-insert_key_of k [] m = elim m [ ]
In-insert_key_of k (j ∷ js) here = elim (Bool-cases (k == j)) [
  | inl e ↦ rw e here
  | inr e ↦ elim (Bool-cases (ltb k j)) [ inl f ↦ rw (e, f) (there here) | inr f ↦ rw (e, f) here ]
]
In-insert_key_of k (j ∷ js) (there m) = elim (Bool-cases (k == j)) [
  | inl e ↦ rw e (there m)
  | inr e ↦ elim (Bool-cases (ltb k j)) [
    | inl f ↦ rw (e, f) (there (there m))
    | inr f ↦ rw (e, f) (there (In-insert_key_of k js m))
  ]
]

module _ {R : Type 0} (key : R → ℕ) where
  abbrev pub group_at : List R → ℕ → ℕ × List R
  group_at rows k = (k, select (λ r. key r == k) rows)

  unfoldable pub grouped : List R → List (ℕ × List R)
  unfolding group_keys
  grouped rows = map (group_at rows) (group_keys (map key rows))

  group_keys-All :
      (P : ℕ → Type 0) (rows : List R)
      → All (λ r. P (key r)) rows
      → All P (group_keys (map key rows))
  unfolding group_keys
  group_keys-All P [] h = tt
  group_keys-All P (r ∷ rows) h =
      insert_key-All P (key r) (group_keys (map key rows)) h.0 (group_keys-All P rows h.1)

  pub In-group_keys : {r : R} (rows : List R) → In r rows → In (key r) (group_keys (map key rows))
  unfolding group_keys
  In-group_keys [] m = elim m [ ]
  In-group_keys (r ∷ rows) here = In-insert_key (key r) (group_keys (map key rows))
  In-group_keys (r ∷ rows) (there m) =
      In-insert_key_of (key r) (group_keys (map key rows)) (In-group_keys rows m)

abbrev pub IsSpread : ℕ → List ℕ → Type 0
IsSpread width [] = Unit
IsSpread width (k ∷ ks) = All (λ j. k + width ≤ j) ks × IsSpread width ks

-- Numbers within bounds that lie a width apart are no more than fit.
spread-length :
    (width lo hi : ℕ) (ks : List ℕ)
    → All (λ k. (lo ≤ k) × (k ≤ hi)) ks
    → IsSpread width ks
    → lo ≤ hi + width
    → length ks * width + lo ≤ hi + width
spread-length width lo hi [] b s h = omega (arith, h)
spread-length width lo hi (k ∷ ks) b s h =
    let next =
      All-map_imp (λ j. ((lo ≤ j) × (j ≤ hi)) × (k + width ≤ j)) (λ j. (k + width ≤ j) × (j ≤ hi))
        (λ j p. (p.1, p.0.1)) ks (All-zip _ _ ks b.1 s.0) in
    let ih = spread-length width (k + width) hi ks next s.1 (omega (arith, b.0)) in
    ground (arith, ih, b.0)

multiple-gap : (width q p : ℕ) → q * width < p * width → q * width + width ≤ p * width
multiple-gap width q p h =
    let l : suc q * width ≤ p * width = mul-le-mul_right width (lt_of_mul-lt-mul_right width h) in
    omega (arith, l, suc-mul q width)

gap-of_multiples :
    (width k j : ℕ) → (q : ℕ) × (k ≡ q * width) → (p : ℕ) × (j ≡ p * width) → k < j → k + width ≤ j
gap-of_multiples width k j (q, e) (p, f) l =
    let h : q * width < p * width = omega (arith, e, f, l) in
    let g = multiple-gap width q p h in omega (arith, e, f, g)

ascending-IsSpread :
    (width : ℕ) (ks : List ℕ)
    → All (λ k. (q : ℕ) × (k ≡ q * width)) ks
    → IsAscending ks
    → IsSpread width ks
ascending-IsSpread width [] m a = tt
ascending-IsSpread width (k ∷ ks) m a = (
  All-map_imp (λ j. ((q : ℕ) × (j ≡ q * width)) × (k < j)) (λ j. k + width ≤ j)
      (λ j p. gap-of_multiples width k j m.0 p.0 p.1) ks (All-zip _ _ ks m.1 a.0),
  ascending-IsSpread width ks m.1 a.1,
)

module _ {R : Type 0} (key : R → ℕ) where
  -- How many groups there are, if the keys are multiples of a width within bounds.
  pub length-grouped :
      (width lo hi : ℕ) (rows : List R)
      → All (λ r. ((q : ℕ) × (key r ≡ q * width)) × (lo ≤ key r) × (key r ≤ hi)) rows
      → lo ≤ hi + width
      → length (grouped key rows) * width + lo ≤ hi + width
  unfolding grouped
  length-grouped width lo hi rows h l =
      let keys = group_keys (map key rows) in
      let within =
        group_keys-All key (λ k. ((q : ℕ) × (k ≡ q * width)) × (lo ≤ k) × (k ≤ hi)) rows h in
      let multiples = All-map_imp _ (λ k. (q : ℕ) × (k ≡ q * width)) (λ k p. p.0) keys within in
      let bounds = All-map_imp _ (λ k. (lo ≤ k) × (k ≤ hi)) (λ k p. (p.1, p.2)) keys within in
      let spread =
        ascending-IsSpread width keys multiples (group_keys-IsAscending (map key rows)) in
      rw (length-map (group_at key rows) keys) (spread-length width lo hi keys bounds spread l)

  -- Each row is in the group of its key, with all the rows of that key.
  pub In-grouped :
      {r : R} (rows : List R)
      → In r rows
      → In (key r, select (λ s. key s == key r) rows) (grouped key rows)
  unfolding grouped
  In-grouped {r} rows m = In-map (group_at key rows) (In-group_keys key rows m)

  -- Every group is that of the rows with its key, and there is such a row.
  abbrev pub IsGroup : List R → ℕ × List R → Type 0
  IsGroup rows g = ((r : R) × In r rows × (key r ≡ g.0)) × (g.1 ≡ select (λ s. key s == g.0) rows)

  pub grouped-IsGroup : (rows : List R) → All (IsGroup rows) (grouped key rows)
  unfolding grouped
  grouped-IsGroup rows = All-of_map (group_at key rows) (IsGroup rows) (group_keys (map key rows)) (
      All-map_imp _ (λ k. IsGroup rows (group_at key rows k)) (λ k m. (m, refl))
        (group_keys (map key rows))
        (group_keys-All key (λ k. (r : R) × In r rows × (key r ≡ k)) rows
          (All-map_imp _ (λ s. (r : R) × In r rows × (key r ≡ key s)) (λ s m. (s, m, refl)) rows
            (All-In_self rows))))

  pub grouped-IsAscending :
      (rows : List R) → IsAscending (map (λ (g : ℕ × List R). g.0) (grouped key rows))
  unfolding grouped
  grouped-IsAscending rows =
      subst IsAscending (sym (map-fst rows (group_keys (map key rows))))
        (group_keys-IsAscending (map key rows))
    where
      map-fst :
          (rows : List R) (ks : List ℕ)
          → map (λ (g : ℕ × List R). g.0) (map (group_at key rows) ks) ≡ ks
      map-fst rows [] = refl
      map-fst rows (k ∷ ks) = ap (λ l. k ∷ l) (map-fst rows ks)
