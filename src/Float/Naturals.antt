-- ===== src/Float/Naturals.antt =====
-- Natural numbers in the place of floats: the assumptions on comparisons can be met, and tests run.
use dockdoe.Prelude.{
  ℕ, ◌+◌, ◌*◌, ◌/◌, min, max, ◌≡◌, true, false, Option, some, if◌then◌else◌, ltb, ◌==◌, nat_eq,
  arith,
}
use dockdoe.Float.{Float, Order, less, equal, greater, gt, NumberLaws}

abbrev pub compare_nat : ℕ → ℕ → Option Order
compare_nat a b = some (if ltb a b then less else if a == b then equal else greater)

abbrev pub nat_float : Float
nat_float = record {
  F = ℕ;
  partial_cmp = compare_nat;
  midpoint = λ a b. (a + b) / 2;
  zero = 0;
  add = λ a b. a + b;
  mul = λ a b. a * b;
  div = λ a b. a / b;
  min = λ a b. min a b;
  max = λ a b. max a b;
  of_u64 = λ n. n;
}

pub nat_gt_asym : (a b : ℕ) → gt nat_float a b ≡ true → gt nat_float b a ≡ false
nat_gt_asym a b h = ground arith

pub nat_le_trans :
    (a b c : ℕ) → gt nat_float a b ≡ false → gt nat_float b c ≡ false → gt nat_float a c ≡ false
nat_le_trans a b c h k = ground arith

abbrev pub nat_laws : NumberLaws nat_float
nat_laws = record {
  IsNumber = λ _. Unit;
  gt_asym = nat_gt_asym;
  le_trans = λ a b c _ _ _. nat_le_trans a b c;
}
