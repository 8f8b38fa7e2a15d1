-- ===== src/Prelude/Select.antt =====
-- The two halves of `partition`, and sublists that keep the order.
use mathlib.Core.List.{Perm, perm_middle}
use mathlib.Core.List.Perm
use Prim.Native.Nat.{◌+◌}
use mathlib.Core.Path.{◌≡◌, refl, ap}
use mathlib.Core.Logic.{inl, inr}
use mathlib.Core.Bool.{Bool, true, not}
use mathlib.Core.List.{List, [], ◌∷◌, ◌++◌}
use native.Mathlib.Omega.{arith}
use dockdoe.Prelude.Tests.{Bool-cases}
use dockdoe.Prelude.Lists.{length, select, All}

module _ {ℓ} {A : Type ℓ} where
  -- The first list is the second with elements left out.
  pub data IsSubsequence : List A → List A → Type ℓ where
    nil : IsSubsequence [] []
    keep : {x : A} {xs ys : List A} → IsSubsequence xs ys → IsSubsequence (x ∷ xs) (x ∷ ys)
    skip : {y : A} {xs ys : List A} → IsSubsequence xs ys → IsSubsequence xs (y ∷ ys)

  pub IsSubsequence-trans :
      {ys zs : List A}
      → IsSubsequence ys zs
      → {xs : List A} → IsSubsequence xs ys
      → IsSubsequence xs zs
  IsSubsequence-trans nil h = h
  IsSubsequence-trans (keep k) (keep h) = keep (IsSubsequence-trans k h)
  IsSubsequence-trans (keep k) (skip h) = skip (IsSubsequence-trans k h)
  IsSubsequence-trans (skip k) h = skip (IsSubsequence-trans k h)

  pub IsSubsequence-refl : (xs : List A) → IsSubsequence xs xs
  IsSubsequence-refl [] = nil
  IsSubsequence-refl (x ∷ xs) = keep (IsSubsequence-refl xs)

  pub select-IsSubsequence : (p : A → Bool) (xs : List A) → IsSubsequence (select p xs) xs
  select-IsSubsequence p [] = nil
  select-IsSubsequence p (x ∷ xs) = elim (Bool-cases (p x)) [
    | inl e ↦ rw e (keep (select-IsSubsequence p xs))
    | inr e ↦ rw e (skip (select-IsSubsequence p xs))
  ]

  pub select-partition-perm :
      (p : A → Bool) (xs : List A) → Perm (select p xs ++ select (λ x. not (p x)) xs) xs
  select-partition-perm p [] = Perm.rfl
  select-partition-perm p (x ∷ xs) = elim (Bool-cases (p x)) [
    | inl e ↦ rw e (Perm.cons x (select-partition-perm p xs))
    | inr e ↦
        rw e (Perm.trans (perm_middle (select p xs) _) (Perm.cons x (select-partition-perm p xs)))
  ]

  pub length-partition :
      (p : A → Bool) (xs : List A)
      → length (select p xs) + length (select (λ x. not (p x)) xs) ≡ length xs
  length-partition p [] = refl
  length-partition p (x ∷ xs) = ground (arith, length-partition p xs)

  pub All-select : (p : A → Bool) (xs : List A) → All (λ x. p x ≡ true) (select p xs)
  All-select p [] = tt
  All-select p (x ∷ xs) = elim (Bool-cases (p x)) [
    | inl e ↦ rw e (e, All-select p xs)
    | inr e ↦ rw e (All-select p xs)
  ]

  -- What a second test lets through anyway, it need not be asked about.
  pub select-select :
      (p q : A → Bool) (xs : List A)
      → ((x : A) → p x ≡ true → q x ≡ true)
      → select p (select q xs) ≡ select p xs
  select-select p q [] h = refl
  select-select p q (x ∷ xs) h = elim (Bool-cases (p x)) [
    | inl e ↦ rw (e, h x e) (rw e (ap (λ l. x ∷ l) (select-select p q xs h)))
    | inr e ↦ elim (Bool-cases (q x)) [
      | inl f ↦ rw (e, f) (rw e (select-select p q xs h))
      | inr f ↦ rw (e, f) (select-select p q xs h)
    ]
  ]
