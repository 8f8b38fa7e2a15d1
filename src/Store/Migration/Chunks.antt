-- ===== src/Store/Migration/Chunks.antt =====
-- src/store.rs: the migration takes every group of long rows into one wide row.
use dockdoe.Prelude.{
  ℕ, ◌≤◌, ◌≡◌, ◌≢◌, refl, sym, ap, subst, ◌∙◌, arith, Bool, true, false, ◌&&◌, ◌||◌, Bool-cases,
  inl, inr, Option, none, some, List, [], ◌∷◌, map, select, select-select, contains, if◌then◌else◌,
  ltb, leb, ◌==◌, ==_false_sym, nat_eq, text_eq, pair_eq, lookup, IsUnique, All, All-map_imp,
  All-zip, All-of_map, All-select,
}
use dockdoe.Float.{Float}
use dockdoe.Store.Metrics.{ContainerTrend}
use dockdoe.Store.Rows.{RowKey, key_of}
use dockdoe.Store.Tables.{TrendRow, Trends}
use dockdoe.Store.History.{Engine}
use dockdoe.Store.Migration.{
  distinct, pivot_row, has_key, keys_of, pivoted, groups, insert_new, in_chunk, pivot_chunk,
}

contains-distinct : (k : RowKey) (ks : List RowKey) → contains (distinct ks) k ≡ contains ks k
contains-distinct k [] = refl
contains-distinct k (j ∷ js) =
    let ih = contains-distinct k js in
    elim (Bool-cases (contains js j)) [
      | inl e ↦ elim (Bool-cases (j == k)) [
        | inl f ↦
            let same : j ≡ k = (pair_eq.test_iff j k).0 f in
            rw e (rw f (ih ∙ subst (λ i. contains js i ≡ true) same e))
        | inr f ↦ rw e (rw f ih)
      ]
      | inr e ↦ rw e (ap (λ b. j == k || b) ih)
    ]

module _ {V : Type 0} (f : RowKey → V) where
  lookup-map :
      (k : RowKey) (ks : List RowKey)
      → lookup k (map (λ j. (j, f j)) ks) ≡ (if contains ks k then some (f k) else none)
  lookup-map k [] = refl
  lookup-map k (j ∷ js) = elim (Bool-cases (j == k)) [
    | inl b ↦ let same : j ≡ k = (pair_eq.test_iff j k).0 b in rw b (ap (λ i. some (f i)) same)
    | inr b ↦ rw b (lookup-map k js)
  ]

  distinct-IsUnique : (ks : List RowKey) → IsUnique (map (λ j. (j, f j)) (distinct ks))
  distinct-IsUnique [] = tt
  distinct-IsUnique (j ∷ js) = elim (Bool-cases (contains js j)) [
    | inl b ↦ rw b (distinct-IsUnique js)
    | inr b ↦
        let absent =
          lookup-map j (distinct js)
          ∙ ap (λ c. if c then some (f j) else none) (contains-distinct j js ∙ b) in
        rw b (absent, distinct-IsUnique js)
  ]

module _ {F : Type 0} where
  abbrev pub or_stored : Option (TrendRow F) → Option (TrendRow F) → Option (TrendRow F)
  or_stored (some row) stored = some row
  or_stored none stored = stored

  -- None of the keys is taken.
  abbrev Free : Trends F → Trends F → Type 0
  Free rows table = All (λ (r : RowKey × TrendRow F). lookup r.0 table ≡ none) rows

  absent-others :
      (k : RowKey) (rows : Trends F)
      → lookup k rows ≡ none
      → All (λ (r : RowKey × TrendRow F). (k == r.0) ≡ false) rows
  absent-others k [] h = tt
  absent-others k ((j, row) ∷ rows) h = elim (Bool-cases (j == k)) [
    | inl b ↦ absurd (some-none (rw b at h))
    | inr b ↦ (==_false_sym j k b, absent-others k rows (rw b at h))
  ]
    where
      some-none : {r : TrendRow F} → ◌≢◌ {A = Option (TrendRow F)} (some r) none
      some-none = λ q. cc

  Free-cons :
      (k : RowKey) (row : TrendRow F) (rows table : Trends F)
      → lookup k rows ≡ none
      → Free rows table
      → Free rows ((k, row) ∷ table)
  Free-cons k row rows table a h =
      All-map_imp (λ (r : RowKey × TrendRow F). (lookup r.0 table ≡ none) × ((k == r.0) ≡ false))
        (λ (r : RowKey × TrendRow F). lookup r.0 ((k, row) ∷ table) ≡ none) (λ r p. rw p.1 p.0) rows
        (All-zip _ _ rows h (absent-others k rows a))

module _ (M : Float) (E : Engine M.F) where
  -- A table that holds these rows and the ones before.
  abbrev Holds : Option (Trends M.F) → Trends M.F → Trends M.F → Type 0
  Holds o rows table =
      (next : Trends M.F) × (o ≡ some next)
      × ((k : RowKey) → lookup k next ≡ or_stored (lookup k rows) (lookup k table))

  insert_new-step :
      (k : RowKey) (row : TrendRow M.F) (rows table : Trends M.F)
      → lookup k table ≡ none
      → insert_new M E ((k, row) ∷ rows) table ≡ insert_new M E rows ((k, row) ∷ table)
  insert_new-step k row rows table h =
      ap
        (λ (o : Option (TrendRow M.F)). elim o as (λ _. Option (Trends M.F)) [
          | some taken ↦ none
          | none ↦ insert_new M E rows ((k, row) ∷ table)
        ])
        h

  insert_new-Holds :
      (rows table : Trends M.F)
      → IsUnique rows
      → Free rows table
      → Holds (insert_new M E rows table) rows table
  insert_new-Holds [] table u h = (table, refl, λ k. refl)
  insert_new-Holds ((k, row) ∷ rows) table u h =
      let (next, e, found) =
        insert_new-Holds rows ((k, row) ∷ table) u.1 (Free-cons k row rows table u.0 h.1) in
      (next, insert_new-step k row rows table h.0 ∙ e, λ i. found i ∙ moved i k row rows table u.0)
    where
      moved :
          (i k : RowKey) (row : TrendRow M.F) (rows table : Trends M.F)
          → lookup k rows ≡ none
          → or_stored (lookup i rows) (lookup i ((k, row) ∷ table))
            ≡ or_stored (lookup i ((k, row) ∷ rows)) (lookup i table)
      moved i k row rows table a = elim (Bool-cases (k == i)) [
        | inl b ↦
            let same : k ≡ i = (pair_eq.test_iff k i).0 b in
            let gone : lookup i rows ≡ none = subst (λ j. lookup j rows ≡ none) same a in
            rw (b, gone) refl
        | inr b ↦ rw b refl
      ]

module _ (M : Float) (E : Engine M.F) where
  -- The wide row of a key, if there are long rows with it.
  abbrev pub grouped_row : RowKey → List (ContainerTrend M.F) → Option (TrendRow M.F)
  grouped_row k rows =
      if contains (keys_of M E rows) k
      then some (pivot_row M E (select (has_key M E k) rows))
      else none

  abbrev pub inside : ℕ → ℕ → RowKey → Bool
  inside from to k = leb from k.1.1 && ltb k.1.1 to

  groups-lookup :
      (k : RowKey) (rows : List (ContainerTrend M.F))
      → lookup k (groups M E rows) ≡ grouped_row k rows
  groups-lookup k rows =
      let row = λ (j : RowKey). pivot_row M E (select (has_key M E j) rows) in
      lookup-map row k (distinct (keys_of M E rows))
      ∙ ap (λ b. if b then some (row k) else none) (contains-distinct k (keys_of M E rows))

  bucket-of_key :
      (k : RowKey) (t : ContainerTrend M.F) → has_key M E k t ≡ true → t.bucket_start_ms ≡ k.1.1
  bucket-of_key k t h = ap (λ (j : RowKey). j.1.1) ((pair_eq.test_iff (key_of M t) k).0 h)

  contains-chunk :
      (from to : ℕ) (k : RowKey) (rows : List (ContainerTrend M.F))
      → contains (keys_of M E (select (in_chunk M E from to) rows)) k
        ≡ (inside from to k && contains (keys_of M E rows) k)
  contains-chunk from to k [] = ground arith
  contains-chunk from to k (t ∷ rows) =
      let ih = contains-chunk from to k rows in
      elim (Bool-cases (has_key M E k t)) [
        | inl b ↦
            let e = bucket-of_key k t b in
            elim (Bool-cases (in_chunk M E from to t)) [
              | inl c ↦
                  let d : inside from to k ≡ true =
                    subst (λ n. (leb from n && ltb n to) ≡ true) e c in
                  rw c (rw (b, d) refl)
              | inr c ↦
                  let d : inside from to k ≡ false =
                    subst (λ n. (leb from n && ltb n to) ≡ false) e c in
                  rw c (ih ∙ rw d refl)
            ]
        | inr b ↦ elim (Bool-cases (in_chunk M E from to t)) [
          | inl c ↦ rw c (rw b ih)
          | inr c ↦ rw c (rw b ih)
        ]
      ]

  select-chunk :
      (from to : ℕ) (k : RowKey) (rows : List (ContainerTrend M.F))
      → inside from to k ≡ true
      → select (has_key M E k) (select (in_chunk M E from to) rows) ≡ select (has_key M E k) rows
  select-chunk from to k rows h =
      select-select (has_key M E k) (in_chunk M E from to) rows
        (λ t e. subst (λ n. (leb from n && ltb n to) ≡ true) (sym (bucket-of_key k t e)) h)

  groups-chunk :
      (from to : ℕ) (k : RowKey) (rows : List (ContainerTrend M.F))
      → lookup k (groups M E (select (in_chunk M E from to) rows))
        ≡ (if inside from to k then grouped_row k rows else none)
  groups-chunk from to k rows =
      groups-lookup k (select (in_chunk M E from to) rows) ∙ elim (Bool-cases (inside from to k)) [
        | inl d ↦
            let same : contains (keys_of M E (select (in_chunk M E from to) rows)) k
                ≡ contains (keys_of M E rows) k =
              contains-chunk from to k rows ∙ rw d refl in
            rw (d, same, select-chunk from to k rows d) refl
        | inr d ↦
            let gone : contains (keys_of M E (select (in_chunk M E from to) rows)) k ≡ false =
              contains-chunk from to k rows ∙ rw d refl in
            rw (d, gone) refl
      ]

  -- The table holds the wide rows of all the keys before that time, and no others.
  abbrev pub Covers : ℕ → List (ContainerTrend M.F) → Trends M.F → Type 0
  Covers from rows table =
      (k : RowKey) → lookup k table ≡ (if ltb k.1.1 from then grouped_row k rows else none)

  keys-chunk :
      (from to : ℕ) (rows : List (ContainerTrend M.F))
      → All (λ (k : RowKey). from ≤ k.1.1) (keys_of M E (select (in_chunk M E from to) rows))
  keys-chunk from to rows =
      All-of_map (key_of M) (λ (k : RowKey). from ≤ k.1.1) _
        (All-map_imp (λ t. in_chunk M E from to t ≡ true)
          (λ (t : ContainerTrend M.F). from ≤ t.bucket_start_ms) (λ t h. ground (arith, h)) _
          (All-select (in_chunk M E from to) rows))

  All-distinct : (P : RowKey → Type 0) (ks : List RowKey) → All P ks → All P (distinct ks)
  All-distinct P [] h = tt
  All-distinct P (k ∷ ks) h = elim (Bool-cases (contains ks k)) [
    | inl b ↦ rw b (All-distinct P ks h.1)
    | inr b ↦ rw b (h.0, All-distinct P ks h.1)
  ]

  chunk-Free :
      (from to : ℕ) (rows : List (ContainerTrend M.F)) (table : Trends M.F)
      → Covers from rows table
      → Free (groups M E (select (in_chunk M E from to) rows)) table
  chunk-Free from to rows table c =
      All-of_map (pivoted M E (select (in_chunk M E from to) rows)) (λ r. lookup r.0 table ≡ none) _
        (All-map_imp (λ (k : RowKey). from ≤ k.1.1) (λ (k : RowKey). lookup k table ≡ none)
          (λ k l. c k ∙ rw (not-lt k.1.1 from l) refl) _
          (All-distinct (λ (k : RowKey). from ≤ k.1.1) _ (keys-chunk from to rows)))
    where
      not-lt : (n from : ℕ) → from ≤ n → ltb n from ≡ false
      not-lt n from l = ground arith

  -- A chunk never meets a key that is taken, and adds the keys of its hour.
  pub pivot_chunk-Covers :
      (from to : ℕ) (rows : List (ContainerTrend M.F)) (table : Trends M.F)
      → from ≤ to
      → Covers from rows table
      → (next : Trends M.F) × (pivot_chunk M E from to rows table ≡ some next) × Covers to rows next
  unfolding pivot_chunk
  pivot_chunk-Covers from to rows table l c =
      let chunk = select (in_chunk M E from to) rows in
      let (next, e, found) =
        insert_new-Holds M E (groups M E chunk) table
          (distinct-IsUnique (λ k. pivot_row M E (select (has_key M E k) chunk))
            (keys_of M E chunk))
          (chunk-Free from to rows table c) in
      (
        next,
        e,
        λ k.
            found k
            ∙ ap (λ o. or_stored o (lookup k table)) (groups-chunk from to k rows)
            ∙ ap (or_stored (if inside from to k then grouped_row k rows else none)) (c k)
            ∙ settled k.1.1 from to (grouped_row k rows) l,
      )
    where
      settled :
          (b from to : ℕ) (o : Option (TrendRow M.F))
          → from ≤ to
          → or_stored (if leb from b && ltb b to then o else none) (if ltb b from then o else none)
            ≡ (if ltb b to then o else none)
      settled b from to none l = ground arith
      settled b from to (some row) l = ground arith
