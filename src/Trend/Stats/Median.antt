-- ===== src/Trend/Stats/Median.antt =====
-- What `Stats::from` computes, told without its sort.
use mathlib.Core.List.{Perm}
use dockdoe.Prelude.{
  In-append_right, u32_max, get_elem?-append, All-In, suc, ◌+◌, ◌-◌, ◌/◌, ◌%◌, ◌<◌, min, ◌≡◌, refl,
  false, some, List, [], ◌∷◌, ◌++◌, length, All, arith, Bool-cases, ap, inl, inr, ◌∙◌, In, here,
  there, All-In_self, split_at, length-append, subst, get_elem?, ◌==◌, nat_eq,
}
use dockdoe.Float.{Float, gt, NumberLaws}
use dockdoe.Trend.Stats.{Stats, stats_from, sort, median_of_sorted}
use dockdoe.Trend.Stats.Sorted.{
  sort-perm, length-sort, IsSorted, sort-IsSorted, sort-All, sort-All_back,
}

module _ (M : Float) where
  -- The middle of the values: as many before it as after it, in order; for an even number of values
  -- the midpoint of the two in the middle.
  pub data IsMedian (vs : List M.F) (m : M.F) : Type 0 where
    odd :
        (l r : List M.F)
        → Perm (l ++ m ∷ r) vs
        → length l ≡ length r
        → All (λ x. gt M x m ≡ false) l
        → All (λ x. gt M m x ≡ false) r
        → IsMedian vs m
    even :
        (l r : List M.F) (a b : M.F)
        → Perm (l ++ a ∷ b ∷ r) vs
        → length l ≡ length r
        → All (λ x. gt M x a ≡ false) l
        → gt M a b ≡ false
        → All (λ x. gt M b x ≡ false) r
        → m ≡ M.midpoint a b
        → IsMedian vs m

  pub record IsSummary (vs : List M.F) (s : Stats M.F) : Type 0 where
    pub min_in : In s.min vs
    pub min_least : All (λ v. gt M s.min v ≡ false) vs
    pub max_in : In s.max vs
    pub max_greatest : All (λ v. gt M v s.max ≡ false) vs
    pub median : IsMedian vs s.median
    pub count : s.count ≡ min (length vs) u32_max

  IsSorted-middle :
      (l : List M.F) (x : M.F) (r : List M.F)
      → IsSorted M (l ++ x ∷ r)
      → All (λ y. gt M y x ≡ false) l × All (λ y. gt M x y ≡ false) r
  IsSorted-middle [] x r h = (tt, h.0)
  IsSorted-middle (y ∷ l) x r (h, k) =
      let (before, after) = IsSorted-middle l x r k in
      ((All-In (λ z. gt M y z ≡ false) (l ++ x ∷ r) h (In-append_right l here), before), after)

  IsSorted-drop : (l r : List M.F) → IsSorted M (l ++ r) → IsSorted M r
  IsSorted-drop [] r h = h
  IsSorted-drop (x ∷ l) r h = IsSorted-drop l r h.1

  odd-IsMedian :
      (xs vs : List M.F)
      → Perm xs vs
      → IsSorted M xs
      → length xs % 2 ≡ 1
      → (m : M.F) × (get_elem? xs (length xs / 2) ≡ some m) × IsMedian vs m
  odd-IsMedian xs vs p s h =
      let (l, x, r, parted, at, n) = split_at (length xs / 2) xs (omega arith) in
      let sizes : length xs ≡ length l + suc (length r) =
        ap length parted ∙ length-append l (x ∷ r) in
      let (before, after) = IsSorted-middle l x r (subst (IsSorted M) parted s) in
      (x, at, odd l r (subst (λ t. Perm t vs) parted p) (omega arith) before after)

  even-IsMedian :
      (xs vs l : List M.F) (a : M.F) (r0 : List M.F)
      → Perm xs vs
      → IsSorted M xs
      → length xs % 2 ≡ 0
      → 0 < length xs
      → xs ≡ l ++ a ∷ r0
      → length l ≡ length xs / 2 - 1
      → (b : M.F) × (get_elem? xs (length xs / 2) ≡ some b) × IsMedian vs (M.midpoint a b)
  even-IsMedian xs vs l a [] p s h pos parted n =
      absurd (omega (arith, ap length parted ∙ length-append l (a ∷ [])))
  even-IsMedian xs vs l a (b ∷ r) p s h pos parted n =
      let sizes : length xs ≡ length l + suc (suc (length r)) =
        ap length parted ∙ length-append l (a ∷ b ∷ r) in
      let sorted : IsSorted M (l ++ a ∷ b ∷ r) = subst (IsSorted M) parted s in
      let (before, later) = IsSorted-middle l a (b ∷ r) sorted in
      let (first, after) = IsSorted-middle (a ∷ []) b r (IsSorted-drop l (a ∷ b ∷ r) sorted) in
      let half : length xs / 2 ≡ length l + 1 = omega arith in
      let at : get_elem? xs (length xs / 2) ≡ some b =
        ap (λ i. get_elem? xs i) half
        ∙ ap (λ t. get_elem? t (length l + 1)) parted
        ∙ get_elem?-append l (a ∷ b ∷ r) 1 in
      (
        b,
        at,
        even l r a b (subst (λ t. Perm t vs) parted p) (omega arith) before later.0 after refl,
      )

  median_of_sorted-IsMedian :
      (xs vs : List M.F)
      → Perm xs vs
      → IsSorted M xs
      → 0 < length xs
      → (m : M.F) × (median_of_sorted M xs ≡ some m) × IsMedian vs m
  unfolding median_of_sorted
  median_of_sorted-IsMedian xs vs p s h = elim (Bool-cases (length xs % 2 == 1)) [
    | inl e ↦ rw e (odd-IsMedian xs vs p s (ground arith))
    | inr e ↦
        let (l, a, r0, parted, at, n) = split_at (length xs / 2 - 1) xs (omega arith) in
        let (b, at', median) = even-IsMedian xs vs l a r0 p s (ground arith) h parted n in
        rw e (rw (at, at') (M.midpoint a b, refl, median))
  ]

  last_greatest :
      (xs : List M.F)
      → ((x : M.F) → gt M x x ≡ false)
      → IsSorted M xs
      → 0 < length xs
      → (z : M.F) × (get_elem? xs (length xs - 1) ≡ some z)
        × In z xs
        × All (λ v. gt M v z ≡ false) xs
  last_greatest [] le s h = absurd (omega arith)
  last_greatest (x ∷ []) le s h = (x, refl, here, (le x, tt))
  last_greatest (x ∷ y ∷ ys) le s h =
      let (z, at, m, top) = last_greatest (y ∷ ys) le s.1 (omega arith) in
      let step : suc (suc (length ys)) - 1 ≡ suc (suc (length ys) - 1) = omega arith in
      (
        z,
        ap (get_elem? (x ∷ y ∷ ys)) step ∙ at,
        there m,
        (All-In (λ v. gt M x v ≡ false) (y ∷ ys) s.0 m, top),
      )

  first_least :
      (xs : List M.F)
      → ((x : M.F) → gt M x x ≡ false)
      → IsSorted M xs
      → 0 < length xs
      → (z : M.F) × (get_elem? xs 0 ≡ some z) × In z xs × All (λ v. gt M z v ≡ false) xs
  first_least [] le s h = absurd (omega arith)
  first_least (x ∷ xs) le s h = (x, refl, here, (le x, s.0))

  gt_irrefl : NumberLaws M → (x : M.F) → gt M x x ≡ false
  gt_irrefl L x = elim (Bool-cases (gt M x x)) [ inl e ↦ L.gt_asym x x e | inr e ↦ e ]

  -- Of a non-empty list of numbers `Stats::from` always gives a result, without a panic: its `min`
  -- and `max` are values of the list that no value is below, or above; its `median` is the middle of
  -- the values; its `count` is their number, capped at `u32::MAX`.
  pub stats_from-IsSummary :
      (L : NumberLaws M) (v : M.F) (vs : List M.F)
      → All L.IsNumber (v ∷ vs)
      → (s : Stats M.F) × (stats_from M (v ∷ vs) ≡ some s) × IsSummary (v ∷ vs) s
  unfolding stats_from
  stats_from-IsSummary L v vs numbers =
      let values = v ∷ vs in
      let xs = sort M values in
      let le = gt_irrefl L in
      let n : length xs ≡ length values = length-sort M values in
      let pos : 0 < length xs = omega arith in
      let sorted = sort-IsSorted M L values numbers in
      let among = sort-All M (λ x. In x values) values (All-In_self values) in
      let (lo, at_lo, in_lo, least) = first_least xs le sorted pos in
      let (hi, at_hi, in_hi, greatest) = last_greatest xs le sorted pos in
      let (mid, at_mid, median) =
        median_of_sorted-IsMedian xs values (sort-perm M values) sorted pos in
      (
        record { min = lo; max = hi; median = mid; count = min (length xs) u32_max },
        rw (at_lo, at_hi, at_mid) refl,
        record {
          min_in = All-In (λ x. In x values) xs among in_lo;
          min_least = sort-All_back M (λ x. gt M lo x ≡ false) values least;
          max_in = All-In (λ x. In x values) xs among in_hi;
          max_greatest = sort-All_back M (λ x. gt M x hi ≡ false) values greatest;
          median = median;
          count = ap (λ k. min k u32_max) n;
        },
      )
