-- ===== src/Trend/Stats.antt =====
-- src/trend.rs: `Stats::from` and `median_of_sorted`, over the floats of `dockdoe.Float`.
use dockdoe.Prelude.{
  u32_max, ℕ, zero, suc, ◌+◌, ◌-◌, ◌*◌, ◌/◌, ◌%◌, ◌^◌, ◌≤◌, ◌<◌, min, ◌≡◌, refl, Bool, true, false,
  Option, none, some, List, [], ◌∷◌, ◌++◌, if◌then◌else◌, length, get_elem?, ◌==◌, nat_eq,
}
use dockdoe.Float.{Float, gt}
pub mod Sorted
pub mod Median

pub record Stats (F : Type 0) : Type 0 where
  pub min : F
  pub max : F
  pub median : F
  pub count : ℕ

module _ (M : Float) where
  -- `sort_by` is a stable sort: an element is put before the first that is not smaller.
  unfoldable pub insert_sorted : M.F → List M.F → List M.F
  insert_sorted x [] = x ∷ []
  insert_sorted x (y ∷ ys) = if gt M x y then y ∷ insert_sorted x ys else x ∷ y ∷ ys

  unfoldable pub sort : List M.F → List M.F
  unfolding insert_sorted
  sort [] = []
  sort (x ∷ xs) = insert_sorted x (sort xs)

  -- Indexing a slice; `none` stands for the panic out of bounds.
  abbrev pub index : List M.F → ℕ → Option M.F
  index xs i = get_elem? xs i

  abbrev pub midpoint_of : Option M.F → Option M.F → Option M.F
  midpoint_of (some a) (some b) = some (M.midpoint a b)
  midpoint_of _ _ = none

  unfoldable pub median_of_sorted : List M.F → Option M.F
  median_of_sorted sorted =
      let n = length sorted in
      if n % 2 == 1
      then index sorted (n / 2)
      else midpoint_of (index sorted (n / 2 - 1)) (index sorted (n / 2))

  abbrev pub stats_of : Option M.F → Option M.F → Option M.F → ℕ → Option (Stats M.F)
  stats_of (some lo) (some hi) (some mid) n =
      some (record { min = lo; max = hi; median = mid; count = min n u32_max })
  stats_of _ _ _ _ = none

  -- `none` is both the result for no values and the panic, which `stats-some` excludes.
  unfoldable pub stats_from : List M.F → Option (Stats M.F)
  unfolding sort median_of_sorted
  stats_from [] = none
  stats_from (v ∷ vs) =
      let sorted = sort (v ∷ vs) in
      stats_of (index sorted 0) (index sorted (length sorted - 1)) (median_of_sorted sorted)
        (length sorted)
