-- ===== src/Float.antt =====
-- `f64` and the operations on it that the program calls, as an interface: the code relies on the
-- hardware for them. `NumberLaws` states what IEEE 754 promises of comparisons between numbers.
use Prim.Native.Nat.{ℕ}
pub mod Naturals
use dockdoe.Prelude.{◌≡◌, Bool, true, false, Option, none, some}

-- `std::cmp::Ordering`.
pub data Order : Type 0 where
  less equal greater : Order

pub record Float : Type 1 where
  pub F : Type 0
  pub partial_cmp : F → F → Option Order
  pub midpoint : F → F → F
  pub zero : F
  pub add : F → F → F
  pub mul : F → F → F
  pub div : F → F → F
  pub min : F → F → F
  pub max : F → F → F
  pub of_u64 : ℕ → F

abbrev pub is_greater : Option Order → Bool
is_greater (some greater) = true
is_greater _ = false

module _ (M : Float) where
  -- The comparison of `sort_by(|a, b| a.partial_cmp(b).unwrap_or(Equal))` answers `Greater`.
  abbrev pub gt : M.F → M.F → Bool
  gt a b = is_greater (M.partial_cmp a b)

  -- Numbers, as opposed to NaN, are ordered by `partial_cmp`.
  pub record NumberLaws : Type 1 where
    pub IsNumber : M.F → Type 0
    pub gt_asym : (a b : M.F) → gt a b ≡ true → gt b a ≡ false
    pub le_trans :
        (a b c : M.F)
        → IsNumber a
        → IsNumber b
        → IsNumber c
        → gt a b ≡ false
        → gt b c ≡ false
        → gt a c ≡ false
