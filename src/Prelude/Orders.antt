-- ===== src/Prelude/Orders.antt =====
-- Strict total orders with a Boolean test, as `Ord` derives them.
use mathlib.Core.Path.{◌≡◌, refl, sym, ap, subst, ◌∙◌}
use mathlib.Core.Bool.{Bool, true, false, ◌&&◌, ◌||◌}
use mathlib.Core.Logic.{inl, inr}
use mathlib.Core.List.{[], ◌∷◌}
use native.Mathlib.Omega.{arith}
use dockdoe.Prelude.Tests.{Equality, ◌==◌, Bool-cases, nat_eq}
use dockdoe.Prelude.Texts.{Text, text_eq, text_ltb}

pub record StrictOrder {ℓ} {A : Type ℓ} (lt : A → A → Bool) : Type ℓ where
  pub irrefl : (x : A) → lt x x ≡ false
  pub trans : (x y z : A) → lt x y ≡ true → lt y z ≡ true → lt x z ≡ true
  pub connex : (x y : A) → lt x y ≡ false → lt y x ≡ false → x ≡ y

module _ {ℓ} {A : Type ℓ} (lt : A → A → Bool) (o : StrictOrder lt) where
  pub lt_asym : (x y : A) → lt x y ≡ true → lt y x ≡ false
  lt_asym x y h = elim (Bool-cases (lt y x)) [
    | inl e ↦ ground (arith, o.trans x y x h e, o.irrefl x)
    | inr e ↦ e
  ]

  -- Two steps that do not fall.
  pub le_trans : (x y z : A) → lt y x ≡ false → lt z y ≡ false → lt z x ≡ false
  le_trans x y z h k = elim (Bool-cases (lt z x)) [
    | inl e ↦ elim (Bool-cases (lt x y)) [
      | inl f ↦ ground (arith, o.trans z x y e f)
      | inr f ↦ subst (λ w. lt z w ≡ false) (sym (o.connex x y f h)) k
    ]
    | inr e ↦ e
  ]

-- By the first components, then by the second ones.
abbrev pub pair_ltb {ℓ κ} :
    {A : Type ℓ} {B : Type κ} ⦃e : Equality A⦄
    → (A → A → Bool)
    → (B → B → Bool)
    → A × B
    → A × B
    → Bool
pair_ltb lt below (a, b) (c, d) = lt a c || (a == c && below b d)

text_ltb_irrefl : (s : Text) → text_ltb s s ≡ false
text_ltb_irrefl [] = refl
text_ltb_irrefl (c ∷ s) = ground (arith, text_ltb_irrefl s)

text_ltb_trans : (s t u : Text) → text_ltb s t ≡ true → text_ltb t u ≡ true → text_ltb s u ≡ true
text_ltb_trans [] [] u h k = cc
text_ltb_trans [] (d ∷ t) [] h k = cc
text_ltb_trans [] (d ∷ t) (e ∷ u) h k = refl
text_ltb_trans (c ∷ s) [] u h k = cc
text_ltb_trans (c ∷ s) (d ∷ t) [] h k = cc
text_ltb_trans (c ∷ s) (d ∷ t) (e ∷ u) h k = ground (arith, text_ltb_trans s t u)

text_ltb_connex : (s t : Text) → text_ltb s t ≡ false → text_ltb t s ≡ false → s ≡ t
text_ltb_connex [] [] h k = refl
text_ltb_connex [] (d ∷ t) h k = cc
text_ltb_connex (c ∷ s) [] h k = cc
text_ltb_connex (c ∷ s) (d ∷ t) h k = ground (arith, text_ltb_connex s t)

pub text_order : StrictOrder text_ltb
text_order = record { irrefl = text_ltb_irrefl; trans = text_ltb_trans; connex = text_ltb_connex }

module _ {ℓ κ} {A : Type ℓ} {B : Type κ} ⦃e : Equality A⦄ (lt : A → A → Bool) (below : B → B → Bool)
    (o : StrictOrder lt) (p : StrictOrder below) where
  pair_ltb_connex :
      (x y : A × B) → pair_ltb lt below x y ≡ false → pair_ltb lt below y x ≡ false → x ≡ y
  pair_ltb_connex (a, b) (c, d) h k =
      let same : a ≡ c = o.connex a c (ground arith) (ground arith) in
      let hd : below b d ≡ false = ground (arith, e.test_iff a c) in
      let kd : below d b ≡ false = ground (arith, e.test_iff c a) in
      ap (λ w. (w, b)) same ∙ ap (λ w. (c, w)) (p.connex b d hd kd)

  pub pair_order : StrictOrder (pair_ltb lt below)
  pair_order = record {
    irrefl = λ x. ground (arith, o.irrefl x.0, p.irrefl x.1);
    trans = λ x y z h k. ground (
      arith,
      o.trans x.0 y.0 z.0,
      p.trans x.1 y.1 z.1,
      e.test_iff x.0 y.0,
      e.test_iff y.0 z.0,
      e.test_iff x.0 z.0,
    );
    connex = pair_ltb_connex;
  }
