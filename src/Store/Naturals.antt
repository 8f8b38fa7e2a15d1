-- ===== src/Store/Naturals.antt =====
-- An engine over natural numbers, at which the properties of the store's queries are applied.
use dockdoe.Prelude.{
  ℕ, ◌+◌, ◌/◌, min, max, ◌≡◌, refl, arith, List, [], ◌∷◌, Text, if◌then◌else◌, text_ltb, length,
}
use dockdoe.Float.Naturals.{nat_float}
use dockdoe.Store.History.{Engine}
use dockdoe.Store.Upsert.Extremes.{ExtremeLaws}

abbrev pub total : List ℕ → ℕ
total [] = 0
total (n ∷ ns) = n + total ns

abbrev pub mean : List ℕ → ℕ
mean ns = total ns / length ns

abbrev pub least : List ℕ → ℕ
least [] = 0
least (n ∷ []) = n
least (n ∷ m ∷ ns) = min n (least (m ∷ ns))

abbrev pub greatest : List ℕ → ℕ
greatest [] = 0
greatest (n ∷ ns) = max n (greatest ns)

abbrev pub last_text : List Text → Text
last_text [] = []
last_text (t ∷ ts) = let rest = last_text ts in if text_ltb t rest then rest else t

abbrev pub nat_engine : Engine ℕ
nat_engine = record {
  sum_of = total;
  avg_of = mean;
  min_of = least;
  max_of = greatest;
  avg_of_int = mean;
  min_of_int = least;
  max_of_int = greatest;
  max_of_text = last_text;
  scalar_min = λ a b. min a b;
  scalar_max = λ a b. max a b;
  rounded = λ n. n;
}

pub nat_min_assoc : (a b c : ℕ) → min (min a b) c ≡ min a (min b c)
nat_min_assoc a b c = omega arith

pub nat_max_assoc : (a b c : ℕ) → max (max a b) c ≡ max a (max b c)
nat_max_assoc a b c = omega arith

pub nat_min_idem : (a : ℕ) → min a a ≡ a
nat_min_idem a = omega arith

pub nat_max_idem : (a : ℕ) → max a a ≡ a
nat_max_idem a = omega arith

abbrev pub nat_extremes : ExtremeLaws nat_float nat_engine
nat_extremes = record {
  min_same = λ a b. refl;
  min_idem = nat_min_idem;
  min_assoc = nat_min_assoc;
  max_same = λ a b. refl;
  max_idem = nat_max_idem;
  max_assoc = nat_max_assoc;
}
