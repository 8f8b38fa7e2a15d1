-- ===== src/Store/Schema/Upgrade.antt =====
-- src/store.rs: what `from_connection` makes of the tables that an earlier build left.
use dockdoe.Prelude.{
  ℕ, Option, none, ltb, i64_max, ◌≡◌, refl, ap, ◌∙◌, arith, Bool, true, false, ◌&&◌, ◌||◌,
  Bool-cases, inl, inr, some, [], ◌∷◌, ◌++◌, if◌then◌else◌, contains, ==_refl, eq_of_==, ◌==◌,
  text_eq, Text, text, subst, all, and-eq-true, All, All-map_imp, All-In_self, In, contains_of_In,
}
use dockdoe.Store.Schema.{
  Names, Schema, sample_columns, trend_columns, create_table, add_column_if_missing, add_columns,
  later_columns, long_columns, can_pivot, migrated_columns, index_columns, trend_index_columns,
  indexable, with_indexes, from_connection,
}

contains-append : (a b : Names) (c : Text) → contains (a ++ b) c ≡ (contains a c || contains b c)
contains-append [] b c = refl
contains-append (x ∷ a) b c = ground (arith, contains-append a b c)

add_column-keeps :
    (c d : Text) (columns : Names)
    → contains columns d ≡ true
    → contains (add_column_if_missing c columns) d ≡ true
unfolding add_column_if_missing
add_column-keeps c d columns h = elim (Bool-cases (contains columns c)) [
  | inl e ↦ rw e h
  | inr e ↦ rw e (contains-append columns (c ∷ []) d ∙ rw h refl)
]

add_column-adds : (c : Text) (columns : Names) → contains (add_column_if_missing c columns) c ≡ true
unfolding add_column_if_missing
add_column-adds c columns = elim (Bool-cases (contains columns c)) [
  | inl e ↦ rw e e
  | inr e ↦ rw e (contains-append columns (c ∷ []) c ∙ rw (e, ==_refl c) refl)
]

add_columns-keeps :
    (cs : Names) (d : Text) (columns : Names)
    → contains columns d ≡ true
    → contains (add_columns cs columns) d ≡ true
unfolding add_columns
add_columns-keeps [] d columns h = h
add_columns-keeps (c ∷ cs) d columns h =
    add_columns-keeps cs d (add_column_if_missing c columns) (add_column-keeps c d columns h)

add_columns-adds :
    (cs : Names) (d : Text) (columns : Names)
    → contains cs d ≡ true
    → contains (add_columns cs columns) d ≡ true
unfolding add_columns
add_columns-adds [] d columns h = cc
add_columns-adds (c ∷ cs) d columns h = elim (Bool-cases (c == d)) [
  | inl e ↦
      let same : c ≡ d = eq_of_== c d e in
      add_columns-keeps cs d (add_column_if_missing c columns) (
        subst (λ x. contains (add_column_if_missing c columns) x ≡ true) same
          (add_column-adds c columns))
  | inr e ↦ add_columns-adds cs d (add_column_if_missing c columns) (rw e at h)
]

-- Columns that are there already are not added.
add_columns-present :
    (cs columns : Names) → all (contains columns) cs ≡ true → add_columns cs columns ≡ columns
unfolding add_columns add_column_if_missing
add_columns-present [] columns h = refl
add_columns-present (c ∷ cs) columns h =
    let (now, rest) = and-eq-true (contains columns c) (all (contains columns) cs) h in
    rw now (add_columns-present cs columns rest)

abbrev pub fits : Option ℕ → Bool
fits none = true
fits (some last) = ltb last i64_max

abbrev pub IsEarlierTrend : Option ℕ → Names → Type 0
IsEarlierTrend last columns =
    (if contains columns (text "metric")
      then all (contains columns) long_columns && fits last
      else contains columns (text "stack") && contains columns (text "bucket_start_ms"))
    ≡ true

-- A table of raw samples has the columns of the first build. A trend table is in the long layout, with
-- its columns but perhaps the host, and no bucket at the largest `i64`; or in the wide one.
abbrev pub IsEarlier : Schema → Type 0
IsEarlier s =
    (contains (create_table sample_columns s.sample) (text "id") ≡ true)
    × (contains (create_table sample_columns s.sample) (text "ts_ms") ≡ true)
    × IsEarlierTrend s.last_bucket (create_table trend_columns s.trend)

sample_ready :
    (columns : Names)
    → contains columns (text "id") ≡ true
    → contains columns (text "ts_ms") ≡ true
    → (indexable index_columns (add_columns later_columns columns) ≡ true)
      × (all (contains (add_columns later_columns columns)) later_columns ≡ true)
sample_ready columns i t =
    let id = add_columns-keeps later_columns (text "id") columns i in
    let ts = add_columns-keeps later_columns (text "ts_ms") columns t in
    let host = add_columns-adds later_columns (text "host") columns refl in
    let rx = add_columns-adds later_columns (text "net_rx") columns refl in
    let tx = add_columns-adds later_columns (text "net_tx") columns refl in
    let read = add_columns-adds later_columns (text "disk_read") columns refl in
    let write = add_columns-adds later_columns (text "disk_write") columns refl in
    (rw (host, id, ts) refl, rw (host, rx, tx, read, write) refl)

-- What is asked of the trend table once its layout is the wide one.
abbrev pub IsWide : Names → Type 0
IsWide columns =
    (indexable trend_index_columns columns ≡ true)
    × (contains columns (text "host") ≡ true)
    × (contains columns (text "metric") ≡ false)

all-keeps :
    (cs columns : Names)
    → all (contains columns) cs ≡ true
    → all (contains (add_columns (text "host" ∷ []) columns)) cs ≡ true
all-keeps [] columns h = refl
all-keeps (c ∷ cs) columns h =
    let (now, rest) = and-eq-true (contains columns c) (all (contains columns) cs) h in
    rw (add_columns-keeps (text "host" ∷ []) c columns now) (all-keeps cs columns rest)

can_pivot-long :
    (last : Option ℕ) (columns : Names)
    → (all (contains columns) long_columns && fits last) ≡ true
    → can_pivot last (add_columns (text "host" ∷ []) columns) ≡ true
can_pivot-long last columns h =
    let (named, ended) = and-eq-true (all (contains columns) long_columns) (fits last) h in
    by_last last ended (all-keeps long_columns columns named)
      (add_columns-adds (text "host" ∷ []) (text "host") columns refl)
  where
    by_last :
        (o : Option ℕ)
        → fits o ≡ true
        → all (contains (add_columns (text "host" ∷ []) columns)) long_columns ≡ true
        → contains (add_columns (text "host" ∷ []) columns) (text "host") ≡ true
        → can_pivot o (add_columns (text "host" ∷ []) columns) ≡ true
    by_last none e a b = let (name, rest) = and-eq-true _ _ a in (and-eq-true _ _ rest).0
    by_last (some l) e a b = rw (b, a, e) refl

add_host-metric :
    (columns : Names)
    → contains (add_columns (text "host" ∷ []) columns) (text "metric")
      ≡ contains columns (text "metric")
unfolding add_columns add_column_if_missing
add_host-metric columns = elim (Bool-cases (contains columns (text "host"))) [
  | inl e ↦ rw e refl
  | inr e ↦ rw e (contains-append columns (text "host" ∷ []) (text "metric") ∙ ground arith)
]

then_true : (b x y : Bool) → b ≡ true → (if b then x else y) ≡ true → x ≡ true
then_true true x y e h = h
then_true false x y e h = cc

else_true : (b x y : Bool) → b ≡ false → (if b then x else y) ≡ true → y ≡ true
else_true true x y e h = cc
else_true false x y e h = h

-- The trend table is brought to the wide layout.
trend_ready :
    (last : Option ℕ) (columns : Names)
    → IsEarlierTrend last columns
    → (trend : Names) × (migrated_columns last (add_columns (text "host" ∷ []) columns)
        ≡ some trend)
      × IsWide trend
trend_ready last columns h =
    let added = add_columns (text "host" ∷ []) columns in
    let host = add_columns-adds (text "host" ∷ []) (text "host") columns refl in
    let metric = add_host-metric columns in
    elim (Bool-cases (contains columns (text "metric"))) [
      | inl e ↦
          let pivot = can_pivot-long last columns (then_true _ _ _ e h) in
          (trend_columns, rw (metric, e, pivot) refl, (refl, refl, refl))
      | inr e ↦
          let both = and-eq-true _ _ (else_true _ _ _ e h) in
          let stack = add_columns-keeps (text "host" ∷ []) (text "stack") columns both.0 in
          let bucket =
            add_columns-keeps (text "host" ∷ []) (text "bucket_start_ms") columns both.1 in
          (added, rw (metric, e) refl, (rw (host, stack, bucket) refl, host, metric ∙ e))
    ]

-- A database whose samples have the columns of the first build, and whose trends are in the wide
-- layout, or in the long one with its columns and no bucket at the largest `i64`, can be opened: each
-- index finds its columns, since those are added before; no column of the samples is lost; the trend
-- table is then in the wide layout; and to open the database again changes nothing.
pub from_connection-upgrade :
    (s : Schema)
    → IsEarlier s
    → (sample : Names) × (trend : Names) × (from_connection s
        ≡ some (record { sample = some sample; trend = some trend; last_bucket = s.last_bucket }))
      × (from_connection
            (record { sample = some sample; trend = some trend; last_bucket = s.last_bucket })
          ≡ some (record { sample = some sample; trend = some trend; last_bucket = s.last_bucket }))
      × All (λ c. contains sample c ≡ true) (create_table sample_columns s.sample)
      × IsWide trend
unfolding from_connection
from_connection-upgrade s (i, t, w) =
    let sample = add_columns later_columns (create_table sample_columns s.sample) in
    let (indexed, complete) = sample_ready (create_table sample_columns s.sample) i t in
    let (trend, migrated, (ready, host, no_metric)) =
      trend_ready s.last_bucket (create_table trend_columns s.trend) w in
    let opened : with_indexes s.last_bucket sample (some trend)
        ≡ some (record { sample = some sample; trend = some trend; last_bucket = s.last_bucket }) =
      rw (indexed, ready) refl in
    let same = add_columns-present later_columns sample complete in
    let host_present : all (contains trend) (text "host" ∷ []) ≡ true = rw host refl in
    let as_is = add_columns-present (text "host" ∷ []) trend host_present in
    let wide : migrated_columns s.last_bucket (add_columns (text "host" ∷ []) trend) ≡ some trend =
      ap (migrated_columns s.last_bucket) as_is ∙ rw no_metric refl in
    (
      sample,
      trend,
      ap (with_indexes s.last_bucket sample) migrated ∙ opened,
      ap
            (λ c.
              with_indexes s.last_bucket c
                (migrated_columns s.last_bucket (add_columns (text "host" ∷ []) trend)))
            same
          ∙ ap (with_indexes s.last_bucket sample) wide
          ∙ opened,
      All-map_imp (λ c. In c (create_table sample_columns s.sample)) (λ c. contains sample c ≡ true)
          (λ c m.
            add_columns-keeps later_columns c (create_table sample_columns s.sample)
              (contains_of_In c (create_table sample_columns s.sample) m))
          (create_table sample_columns s.sample)
          (All-In_self (create_table sample_columns s.sample)),
      (ready, host, no_metric),
    )
