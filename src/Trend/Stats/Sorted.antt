-- ===== src/Trend/Stats/Sorted.antt =====
-- The sort of `Stats::from` permutes the values, and orders them if they are numbers.
use mathlib.Core.List.{Perm}
use mathlib.Core.List.Perm
use dockdoe.Prelude.{
  suc, ◌≡◌, refl, false, List, [], ◌∷◌, if◌then◌else◌, length, All, arith, Bool-cases, ap, inl, inr,
  ◌∙◌,
}
use dockdoe.Float.{Float, gt, NumberLaws}
use dockdoe.Trend.Stats.{insert_sorted, sort}

module _ (M : Float) where
  insert_sorted-perm : (x : M.F) (ys : List M.F) → Perm (insert_sorted M x ys) (x ∷ ys)
  unfolding insert_sorted
  insert_sorted-perm x [] = Perm.rfl
  insert_sorted-perm x (y ∷ ys) = elim (Bool-cases (gt M x y)) [
    | inl e ↦ rw e (Perm.trans (Perm.cons y (insert_sorted-perm x ys)) (Perm.swap x y ys))
    | inr e ↦ rw e Perm.rfl
  ]

  -- Sorting permutes.
  pub sort-perm : (xs : List M.F) → Perm (sort M xs) xs
  unfolding sort
  sort-perm [] = Perm.rfl
  sort-perm (x ∷ xs) = Perm.trans (insert_sorted-perm x (sort M xs)) (Perm.cons x (sort-perm xs))

  length-insert_sorted : (x : M.F) (ys : List M.F) → length (insert_sorted M x ys) ≡ suc (length ys)
  unfolding insert_sorted
  length-insert_sorted x [] = refl
  length-insert_sorted x (y ∷ ys) = ground (arith, length-insert_sorted x ys)

  pub length-sort : (xs : List M.F) → length (sort M xs) ≡ length xs
  unfolding sort
  length-sort [] = refl
  length-sort (x ∷ xs) = length-insert_sorted x (sort M xs) ∙ ap suc (length-sort xs)

  -- Every element is at most all that come after it.
  abbrev pub IsSorted : List M.F → Type 0
  IsSorted [] = Unit
  IsSorted (x ∷ xs) = All (λ y. gt M x y ≡ false) xs × IsSorted xs

  insert_sorted-All :
      (P : M.F → Type 0) (x : M.F) (ys : List M.F) → P x → All P ys → All P (insert_sorted M x ys)
  unfolding insert_sorted
  insert_sorted-All P x [] h k = (h, tt)
  insert_sorted-All P x (y ∷ ys) h k = ground (arith, insert_sorted-All P x ys h k.1)

  pub sort-All : (P : M.F → Type 0) (xs : List M.F) → All P xs → All P (sort M xs)
  unfolding sort
  sort-All P [] h = tt
  sort-All P (x ∷ xs) h = insert_sorted-All P x (sort M xs) h.0 (sort-All P xs h.1)

  module _ (L : NumberLaws M) where
    open L use {IsNumber, gt_asym, le_trans}

    below-All :
        (x y : M.F) (ys : List M.F)
        → IsNumber x
        → IsNumber y
        → All IsNumber ys
        → gt M x y ≡ false
        → All (λ z. gt M y z ≡ false) ys
        → All (λ z. gt M x z ≡ false) ys
    below-All x y [] nx ny ns h k = tt
    below-All x y (z ∷ zs) nx ny ns h k =
        (le_trans x y z nx ny ns.0 h k.0, below-All x y zs nx ny ns.1 h k.1)

    insert_sorted-IsSorted :
        (x : M.F) (ys : List M.F)
        → IsNumber x
        → All IsNumber ys
        → IsSorted ys
        → IsSorted (insert_sorted M x ys)
    unfolding insert_sorted
    insert_sorted-IsSorted x [] nx ns h = (tt, tt)
    insert_sorted-IsSorted x (y ∷ ys) nx ns h = elim (Bool-cases (gt M x y)) [
      | inl e ↦ rw e (
        insert_sorted-All (λ z. gt M y z ≡ false) x ys (gt_asym x y e) h.0,
        insert_sorted-IsSorted x ys nx ns.1 h.1,
      )
      | inr e ↦ rw e ((e, below-All x y ys nx ns.0 ns.1 e h.0), h)
    ]

    -- Numbers are sorted.
    pub sort-IsSorted : (xs : List M.F) → All IsNumber xs → IsSorted (sort M xs)
    unfolding sort
    sort-IsSorted [] h = tt
    sort-IsSorted (x ∷ xs) h =
        insert_sorted-IsSorted x (sort M xs) h.0 (sort-All IsNumber xs h.1) (sort-IsSorted xs h.1)

  -- What holds of the sorted values holds of the values, and the sorted values are among them.
  insert_sorted-All_back :
      (P : M.F → Type 0) (x : M.F) (ys : List M.F) → All P (insert_sorted M x ys) → P x × All P ys
  unfolding insert_sorted
  insert_sorted-All_back P x [] h = h
  insert_sorted-All_back P x (y ∷ ys) h = elim (Bool-cases (gt M x y)) [
    | inl e ↦
        let (k, k') = rw (e, if◌then◌else◌) at h in
        let (p, q) = insert_sorted-All_back P x ys k' in (p, (k, q))
    | inr e ↦ let (k, k') = rw (e, if◌then◌else◌) at h in (k, k')
  ]

  pub sort-All_back : (P : M.F → Type 0) (xs : List M.F) → All P (sort M xs) → All P xs
  unfolding sort
  sort-All_back P [] h = tt
  sort-All_back P (x ∷ xs) h =
      let (p, q) = insert_sorted-All_back P x (sort M xs) h in (p, sort-All_back P xs q)
