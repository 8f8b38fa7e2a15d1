-- ===== src/Prelude/Assoc.antt =====
-- A hash map as an association list with one entry for each key. The order of the entries is that of
-- insertion; no property depends on it.
use mathlib.Core.Path.{◌≡◌, refl, ap, subst, ◌∙◌}
use mathlib.Core.Logic.{◌≢◌, inl, inr}
use mathlib.Core.Bool.{Bool, false}
use mathlib.Core.Option.{Option, none, some}
use mathlib.Core.List.{List, [], ◌∷◌, map}
use native.Mathlib.Omega.{arith}
use dockdoe.Prelude.Tests.{Equality, ◌==◌, if◌then◌else◌, Bool-cases}
use dockdoe.Prelude.Lists.{select}

module _ {ℓ κ} {K : Type ℓ} {V : Type κ} ⦃e : Equality K⦄ where
  abbrev pub lookup : K → List (K × V) → Option V
  lookup k [] = none
  lookup k ((j, v) ∷ m) = if j == k then some v else lookup k m

  abbrev pub insert : K → V → List (K × V) → List (K × V)
  insert k v [] = (k, v) ∷ []
  insert k v ((j, w) ∷ m) = if j == k then (k, v) ∷ m else (j, w) ∷ insert k v m

  -- `retain` by a test on the key.
  abbrev pub retain : (K → Bool) → List (K × V) → List (K × V)
  retain p [] = []
  retain p ((j, v) ∷ m) = if p j then (j, v) ∷ retain p m else retain p m

  abbrev pub keys : List (K × V) → List K
  keys m = map (λ (p : K × V). p.0) m

  pub lookup-insert :
      (k j : K) (v : V) (m : List (K × V))
      → lookup j (insert k v m) ≡ (if k == j then some v else lookup j m)
  lookup-insert k j v [] = refl
  lookup-insert k j v ((i, w) ∷ m) =
      ground (arith, e.test_iff k j, e.test_iff i k, e.test_iff i j, lookup-insert k j v m)

  pub lookup-retain :
      (p : K → Bool) (j : K) (m : List (K × V))
      → lookup j (retain p m) ≡ (if p j then lookup j m else none)
  lookup-retain p j [] = ground arith
  lookup-retain p j ((i, w) ∷ m) = ground (arith, e.test_iff i j, lookup-retain p j m)

  -- Each key has one entry.
  abbrev pub IsUnique : List (K × V) → Type κ
  IsUnique [] = Unit
  IsUnique ((j, v) ∷ m) = (lookup j m ≡ none) × IsUnique m

  pub insert-IsUnique : (k : K) (v : V) (m : List (K × V)) → IsUnique m → IsUnique (insert k v m)
  insert-IsUnique k v [] h = (refl, tt)
  insert-IsUnique k v ((j, w) ∷ m) h = elim (Bool-cases (j == k)) [
    | inl b ↦
        let same : j ≡ k = (e.test_iff j k).0 b in
        rw b (subst (λ i. lookup i m ≡ none) same h.0, h.1)
    | inr b ↦
        let other : (k == j) ≡ false = ground (arith, b, e.test_iff j k, e.test_iff k j) in
        let absent =
          lookup-insert k j v m ∙ ap (λ (c : Bool). if c then some v else lookup j m) other ∙ h.0 in
        rw b (absent, insert-IsUnique k v m h.1)
  ]

  pub lookup-select_none :
      (p : K × V → Bool) (j : K) (m : List (K × V))
      → lookup j m ≡ none
      → lookup j (select p m) ≡ none
  lookup-select_none p j [] h = refl
  lookup-select_none p j ((i, v) ∷ m) h = elim (Bool-cases (i == j)) [
    | inl b ↦ absurd (some-none (rw b at h))
    | inr b ↦
        let rest = lookup-select_none p j m (rw b at h) in
        elim (Bool-cases (p (i, v))) [ inl c ↦ rw c (rw b rest) | inr c ↦ rw c rest ]
  ]
    where
      some-none : {w : V} → ◌≢◌ {A = Option V} (some w) none
      some-none = λ q. cc

  pub select-IsUnique : (p : K × V → Bool) (m : List (K × V)) → IsUnique m → IsUnique (select p m)
  select-IsUnique p [] h = tt
  select-IsUnique p ((j, v) ∷ m) h = elim (Bool-cases (p (j, v))) [
    | inl c ↦ rw c (lookup-select_none p j m h.0, select-IsUnique p m h.1)
    | inr c ↦ rw c (select-IsUnique p m h.1)
  ]
