-- ===== src/Prelude/Sort.antt =====
-- A stable sort by a test for "greater", as `sort_by` does it.
use mathlib.Core.Path.{◌≡◌, refl, sym, ap, ◌∙◌}
use mathlib.Core.Bool.{Bool, true, false}
use mathlib.Core.Logic.{inl, inr}
use mathlib.Core.List.{List, [], ◌∷◌, ◌++◌, Perm, append_assoc, append-nil}
use mathlib.Core.List.Perm
use dockdoe.Prelude.Tests.{if◌then◌else◌, Bool-cases}
use dockdoe.Prelude.Lists.{All, All-map_imp, All-append, All-zip}

module _ {ℓ} {A : Type ℓ} (gt : A → A → Bool) where
  -- An element is put before the first that is not smaller.
  unfoldable pub insert_by : A → List A → List A
  insert_by x [] = x ∷ []
  insert_by x (y ∷ ys) = if gt x y then y ∷ insert_by x ys else x ∷ y ∷ ys

  unfoldable pub sort_by : List A → List A
  unfolding insert_by
  sort_by [] = []
  sort_by (x ∷ xs) = insert_by x (sort_by xs)

  -- No element is greater than one that comes after it.
  abbrev pub IsSorted : List A → Type ℓ
  IsSorted [] = Unit
  IsSorted (x ∷ xs) = All (λ y. gt x y ≡ false) xs × IsSorted xs

  insert_by-perm : (x : A) (ys : List A) → Perm (insert_by x ys) (x ∷ ys)
  unfolding insert_by
  insert_by-perm x [] = Perm.rfl
  insert_by-perm x (y ∷ ys) = elim (Bool-cases (gt x y)) [
    | inl e ↦ rw e (Perm.trans (Perm.cons y (insert_by-perm x ys)) (Perm.swap x y ys))
    | inr e ↦ rw e Perm.rfl
  ]

  pub sort_by-perm : (xs : List A) → Perm (sort_by xs) xs
  unfolding sort_by
  sort_by-perm [] = Perm.rfl
  sort_by-perm (x ∷ xs) = Perm.trans (insert_by-perm x (sort_by xs)) (Perm.cons x (sort_by-perm xs))

  insert_by-All : (P : A → Type 0) (x : A) (ys : List A) → P x → All P ys → All P (insert_by x ys)
  unfolding insert_by
  insert_by-All P x [] h k = (h, tt)
  insert_by-All P x (y ∷ ys) h k = elim (Bool-cases (gt x y)) [
    | inl e ↦ rw e (k.0, insert_by-All P x ys h k.1)
    | inr e ↦ rw e (h, k)
  ]

  pub sort_by-All : (P : A → Type 0) (xs : List A) → All P xs → All P (sort_by xs)
  unfolding sort_by
  sort_by-All P [] h = tt
  sort_by-All P (x ∷ xs) h = insert_by-All P x (sort_by xs) h.0 (sort_by-All P xs h.1)

  module _ (asym : (x y : A) → gt x y ≡ true → gt y x ≡ false)
      (le_trans : (x y z : A) → gt x y ≡ false → gt y z ≡ false → gt x z ≡ false) where
    insert_by-IsSorted : (x : A) (ys : List A) → IsSorted ys → IsSorted (insert_by x ys)
    unfolding insert_by
    insert_by-IsSorted x [] h = (tt, tt)
    insert_by-IsSorted x (y ∷ ys) h = elim (Bool-cases (gt x y)) [
      | inl e ↦
          rw e
            (insert_by-All (λ z. gt y z ≡ false) x ys (asym x y e) h.0, insert_by-IsSorted x ys h.1)
      | inr e ↦ rw e (
        (
          e,
          All-map_imp (λ z. gt y z ≡ false) (λ z. gt x z ≡ false) (λ z k. le_trans x y z e k) ys
              h.0,
        ),
        h,
      )
    ]

    pub sort_by-IsSorted : (xs : List A) → IsSorted (sort_by xs)
    unfolding sort_by
    sort_by-IsSorted [] = tt
    sort_by-IsSorted (x ∷ xs) = insert_by-IsSorted x (sort_by xs) (sort_by-IsSorted xs)

  -- An element is put after the last that is not greater.
  unfoldable pub insert_last : A → List A → List A
  insert_last c [] = c ∷ []
  insert_last c (y ∷ ys) = if gt y c then c ∷ y ∷ ys else y ∷ insert_last c ys

  -- All of `cs` one after the other.
  unfoldable pub insert_all : List A → List A → List A
  unfolding insert_last
  insert_all [] ys = ys
  insert_all (c ∷ cs) ys = insert_all cs (insert_last c ys)

  -- What is at most `c` stays in front of it.
  pub insert_last-append :
      (c : A) (xs ys : List A)
      → All (λ x. gt x c ≡ false) xs
      → insert_last c (xs ++ ys) ≡ xs ++ insert_last c ys
  unfolding insert_last
  insert_last-append c [] ys h = refl
  insert_last-append c (x ∷ xs) ys h = rw (h.0, insert_last-append c xs ys h.1) refl

  pub insert_last-first :
      (c : A) (ys : List A) → All (λ y. gt y c ≡ true) ys → insert_last c ys ≡ c ∷ ys
  unfolding insert_last
  insert_last-first c [] h = refl
  insert_last-first c (y ∷ ys) h = rw h.0 refl

  module _ (gt_trans : (x y z : A) → gt x y ≡ true → gt y z ≡ true → gt x z ≡ true)
      (le_trans : (x y z : A) → gt x y ≡ false → gt y z ≡ false → gt x z ≡ false) where
    insert_by-insert_last :
        (x c : A) (ys : List A) → insert_by x (insert_last c ys) ≡ insert_last c (insert_by x ys)
    unfolding insert_by insert_last
    insert_by-insert_last x c [] = elim (Bool-cases (gt x c)) [
      | inl e ↦ rw e refl
      | inr e ↦ rw e refl
    ]
    insert_by-insert_last x c (y ∷ ys) = elim (Bool-cases (gt x y)) [
      | inl e ↦ elim (Bool-cases (gt y c)) [
        | inl f ↦ rw (e, f, gt_trans x y c e f) (rw e refl)
        | inr f ↦ rw (e, f) (rw e (ap (λ t. y ∷ t) (insert_by-insert_last x c ys)))
      ]
      | inr e ↦ elim (Bool-cases (gt y c)) [
        | inl f ↦ elim (Bool-cases (gt x c)) [
          | inl g ↦ rw (f, e, g) refl
          | inr g ↦ rw (f, e, g) (rw f refl)
        ]
        | inr f ↦ rw (f, e, le_trans x y c e f) (rw f refl)
      ]
    ]

    pub sort_by-append : (xs : List A) (c : A) → sort_by (xs ++ c ∷ []) ≡ insert_last c (sort_by xs)
    unfolding sort_by insert_by insert_last
    sort_by-append [] c = refl
    sort_by-append (x ∷ xs) c =
        ap (insert_by x) (sort_by-append xs c) ∙ insert_by-insert_last x c (sort_by xs)

    insert_all-sort_by : (xs cs : List A) → insert_all cs (sort_by xs) ≡ sort_by (xs ++ cs)
    unfolding insert_all
    insert_all-sort_by xs [] = ap sort_by (sym (append-nil xs))
    insert_all-sort_by xs (c ∷ cs) =
        ap (insert_all cs) (sym (sort_by-append xs c))
        ∙ insert_all-sort_by (xs ++ c ∷ []) cs
        ∙ ap sort_by (append_assoc xs (c ∷ []) cs)

    -- A stable sort takes the elements one after the other.
    pub sort_by-insert_all : (cs : List A) → insert_all cs [] ≡ sort_by cs
    unfolding sort_by
    sort_by-insert_all cs = insert_all-sort_by [] cs

    -- What is in order and not smaller than the rest is put behind it.
    pub sort_by-append_last :
        (xs cs : List A)
        → All (λ c. All (λ x. gt x c ≡ false) xs) cs
        → IsSorted cs
        → sort_by (xs ++ cs) ≡ sort_by xs ++ cs
    unfolding insert_last
    sort_by-append_last xs [] h s = ap sort_by (append-nil xs) ∙ sym (append-nil (sort_by xs))
    sort_by-append_last xs (c ∷ cs) h s =
        let larger = All-zip (λ d. All (λ x. gt x d ≡ false) xs) (λ d. gt c d ≡ false) cs h.1 s.0 in
        let both =
          All-map_imp (λ d. All (λ x. gt x d ≡ false) xs × (gt c d ≡ false))
            (λ d. All (λ x. gt x d ≡ false) (xs ++ c ∷ []))
            (λ d k. All-append (λ x. gt x d ≡ false) xs (c ∷ []) k.0 (k.1, tt)) cs larger in
        let one =
          ap (insert_last c) (sym (append-nil (sort_by xs)))
          ∙ insert_last-append c (sort_by xs) [] (sort_by-All (λ x. gt x c ≡ false) xs h.0) in
        ap sort_by (sym (append_assoc xs (c ∷ []) cs))
        ∙ sort_by-append_last (xs ++ c ∷ []) cs both s.1
        ∙ ap (λ l. l ++ cs) (sort_by-append xs c ∙ one)
        ∙ append_assoc (sort_by xs) (c ∷ []) cs
