-- ===== src/Store/History/Points.antt =====
-- src/store.rs: the points of a history query: which there are, what they show, and how many.
use native.Mathlib.Nat.{div-mul-le_self, lt-div-mul-add}
use dockdoe.Prelude.{
  ℕ, ◌+◌, ◌-◌, ◌*◌, ◌/◌, ◌≤◌, ◌<◌, ◌≡◌, refl, sym, ap, subst, arith, Bool, true, some, List, [],
  ◌∷◌, map, length, length-map, select, All, All-select, All-map_imp, All-of_map, All-In_self,
  All-In, In, In-map, ◌==◌, nat_eq, text_eq, option_eq, ◌&&◌, Text, max, leb, Option,
}
use dockdoe.Float.{Float}
use dockdoe.Store.Metrics.{Metric, cpu, mem, net_rx, net_tx, disk_read, disk_write}
use dockdoe.Store.Tables.{to_db, SampleRow, Columns, TrendRow, HistoryPoint, Trends}
use dockdoe.Store.Groups.{
  grouped, length-grouped, grouped-IsGroup, grouped-IsAscending, In-grouped, IsAscending, IsGroup,
}
use dockdoe.Store.Rows.{RowKey}
use dockdoe.Store.History.{
  Engine, aggregate, raw_columns, envelope_columns, row_columns, group_width, bucket_of,
  history_point, downsample, in_window, raw_rows, name_rows, stack_rows, bucket_start,
  history_container_raw, history_container, history_stack,
}

module _ {F R : Type 0} (Shows : List R → (Metric → Columns F) → Type 0) (time : R → ℕ)
    (width : ℕ) where
  -- A point shows exactly the rows of its window, and there are some.
  abbrev pub IsPointOf : List R → HistoryPoint F → Type 0
  IsPointOf rows p =
      ((r : R) × In r rows × (time r / width * width ≡ p.ts_ms))
      × Shows (select (λ r. time r / width * width == p.ts_ms) rows) p.columns

  -- The points ascend, each shows the rows of its window, and each row's window has its point.
  abbrev pub IsHistory : List R → List (HistoryPoint F) → Type 0
  IsHistory rows points =
      IsAscending (map (λ (p : HistoryPoint F). p.ts_ms) points)
      × All (IsPointOf rows) points
      × All (λ r. In (time r / width * width) (map (λ (p : HistoryPoint F). p.ts_ms) points)) rows

module _ {F R : Type 0} (columns_of : List R → Metric → Columns F) (time : R → ℕ) (width : ℕ) where
  times-of_groups :
      (groups : List (ℕ × List R))
      → map (λ (p : HistoryPoint F). p.ts_ms) (map (history_point columns_of) groups)
        ≡ map (λ (g : ℕ × List R). g.0) groups
  times-of_groups [] = refl
  times-of_groups (g ∷ groups) = ap (λ l. g.0 ∷ l) (times-of_groups groups)

  pub downsample-IsHistory :
      (Shows : List R → (Metric → Columns F) → Type 0) (rows : List R)
      → ((shown : List R) → Shows shown (columns_of shown))
      → IsHistory Shows time width rows (downsample columns_of time width rows)
  downsample-IsHistory Shows rows shows =
      let key = λ (r : R). bucket_of width (time r) in
      let times = times-of_groups (grouped key rows) in
      (
        subst IsAscending (sym times) (grouped-IsAscending key rows),
        All-of_map (history_point columns_of) (IsPointOf Shows time width rows) (grouped key rows) (
            All-map_imp (IsGroup key rows)
              (λ g. IsPointOf Shows time width rows (history_point columns_of g))
              (λ g h. (
                h.0,
                subst (λ c. Shows (select (λ r. time r / width * width == g.0) rows) c)
                    (sym (ap columns_of h.1))
                    (shows (select (λ r. time r / width * width == g.0) rows)),
              ))
              (grouped key rows) (grouped-IsGroup key rows)),
        All-map_imp (λ r. In r rows)
            (λ r.
              In (key r)
                (map (λ (p : HistoryPoint F). p.ts_ms) (downsample columns_of time width rows)))
            (λ r m.
              subst (λ l. In (key r) l) (sym times)
                (In-map (λ (g : ℕ × List R). g.0) (In-grouped key rows m)))
            rows (All-In_self rows),
      )

  -- How many points a window has at most.
  pub length-downsample :
      (since until : ℕ) (rows : List R)
      → 1 ≤ width
      → since ≤ until
      → All (λ r. (since ≤ time r) × (time r ≤ until)) rows
      → length (downsample columns_of time width rows) * width + since + 1 ≤ until + width + width
  length-downsample since until rows w l h =
      let key = λ (r : R). bucket_of width (time r) in
      let bounds =
        All-map_imp (λ r. (since ≤ time r) × (time r ≤ until))
          (λ r. ((q : ℕ) × (key r ≡ q * width)) × (since + 1 - width ≤ key r) × (key r ≤ until))
          (λ r b.
            let below = div-mul-le_self (time r) width in
            let above : time r < time r / width * width + width = lt-div-mul-add w in
            ((time r / width, refl), omega (arith, above, b.0), omega (arith, below, b.1)))
          rows h in
      let n = length-grouped key width (since + 1 - width) until rows bounds (omega (arith, l)) in
      rw (length-map (history_point columns_of) (grouped key rows)) (omega (arith, n, w, l))

in_window-bounds :
    (since until t : ℕ) → in_window since until t ≡ true → (to_db since ≤ t) × (t ≤ to_db until)
in_window-bounds since until t h = (ground (arith, h), ground (arith, h))

abbrev pub Within : {R : Type 0} → (R → ℕ) → ℕ → ℕ → List R → Type 0
Within time since until rows = All (λ r. (to_db since ≤ time r) × (time r ≤ to_db until)) rows

selected-Within :
    {R : Type 0} (p q : R → Bool) (time : R → ℕ) (since until : ℕ) (rows : List R)
    → Within time since until (select (λ r. p r && q r && in_window since until (time r)) rows)
selected-Within {R} p q time since until rows =
    All-map_imp _ (λ r. (to_db since ≤ time r) × (time r ≤ to_db until))
      (λ r e. in_window-bounds since until (time r) (and-last (p r) (q r) e)) _
      (All-select (λ r. p r && q r && in_window since until (time r)) rows)
  where
    and-last : (a b : Bool) {c : Bool} → (a && b && c) ≡ true → c ≡ true
    and-last a b h = ground (arith, h)

module _ {F : Type 0} where
  raw_rows-Within :
      (host id : Text) (since until : ℕ) (rows : List (SampleRow F))
      → Within (λ (r : SampleRow F). r.ts_ms) since until (raw_rows host id since until rows)
  raw_rows-Within host id since until rows =
      selected-Within (λ r. r.host == host) (λ r. r.id == id) (λ r. r.ts_ms) since until rows

  name_rows-Within :
      (host name : Text) (since until : ℕ) (rows : Trends F)
      → Within bucket_start since until (name_rows host name since until rows)
  name_rows-Within host name since until rows =
      selected-Within (λ r. r.0.0 == host) (λ r. r.0.1.0 == name) bucket_start since until rows

  stack_rows-Within :
      (host stack : Text) (since until : ℕ) (rows : Trends F)
      → Within bucket_start since until (stack_rows host stack since until rows)
  stack_rows-Within host stack since until rows =
      selected-Within (λ r. r.0.0 == host) (λ r. r.1.stack == some stack) bucket_start since until
        rows

  per_bucket-Within :
      (since until : ℕ) (rows : Trends F)
      → Within bucket_start since until rows
      → Within (λ (b : ℕ × Trends F). b.0) since until (grouped bucket_start rows)
  per_bucket-Within since until rows h =
      All-map_imp (IsGroup bucket_start rows) _
        (λ g k.
          let (r, m, e) = k.0 in
          subst (λ t. (to_db since ≤ t) × (t ≤ to_db until)) e
            (All-In
              (λ (r : RowKey × TrendRow F).
                (to_db since ≤ bucket_start r) × (bucket_start r ≤ to_db until))
              rows h m))
        _ (grouped-IsGroup bucket_start rows)

abbrev pub Fits : ℕ → ℕ → ℕ → ℕ → Type 0
Fits since until group points =
    points * group_width group + to_db since + 1
    ≤ to_db until + group_width group + group_width group

module _ (M : Float) (E : Engine M.F) where
  pub length-history :
      (host name : Text) (since until group : ℕ) (samples : List (SampleRow M.F))
      (trends : Trends M.F)
      → since ≤ until
      → Fits since until group
          (length (history_container_raw M E host name since until group samples))
        × Fits since until group (length (history_container M E host name since until group trends))
        × Fits since until group (length (history_stack M E host name since until group trends))
  unfolding history_container_raw history_container history_stack
  length-history host name since until group samples trends l =
      let width = group_width group in
      let w : 1 ≤ width = omega arith in
      let d : to_db since ≤ to_db until = omega (arith, l) in
      (
        length-downsample _ _ width (to_db since) (to_db until)
            (raw_rows host name since until samples) w d
            (raw_rows-Within host name since until samples),
        length-downsample _ _ width (to_db since) (to_db until)
            (name_rows host name since until trends) w d
            (name_rows-Within host name since until trends),
        length-downsample _ _ width (to_db since) (to_db until)
            (grouped bucket_start (stack_rows host name since until trends)) w d
            (per_bucket-Within since until (stack_rows host name since until trends)
              (stack_rows-Within host name since until trends)),
      )

  -- The least, the mean and the greatest of the values that are not NULL.
  abbrev pub IsEnvelope : List (Option M.F) → Columns M.F → Type 0
  IsEnvelope values c =
      (c.min ≡ aggregate E.min_of values)
      × (c.med ≡ aggregate E.avg_of values)
      × (c.max ≡ aggregate E.max_of values)

  -- The same for integers.
  abbrev pub IsEnvelopeOfInt : List (Option ℕ) → Columns M.F → Type 0
  IsEnvelopeOfInt values c =
      (c.min ≡ aggregate (λ ns. M.of_u64 (E.min_of_int ns)) values)
      × (c.med ≡ aggregate E.avg_of_int values)
      × (c.max ≡ aggregate (λ ns. M.of_u64 (E.max_of_int ns)) values)

  -- The envelope of each metric over raw samples.
  abbrev pub ShowsSamples : List (SampleRow M.F) → (Metric → Columns M.F) → Type 0
  ShowsSamples rows columns =
      IsEnvelope (map (λ (r : SampleRow M.F). r.cpu_percent) rows) (columns cpu)
      × IsEnvelopeOfInt (map (λ (r : SampleRow M.F). r.mem_used) rows) (columns mem)
      × IsEnvelope (map (λ (r : SampleRow M.F). r.net_rx) rows) (columns net_rx)
      × IsEnvelope (map (λ (r : SampleRow M.F). r.net_tx) rows) (columns net_tx)
      × IsEnvelope (map (λ (r : SampleRow M.F). r.disk_read) rows) (columns disk_read)
      × IsEnvelope (map (λ (r : SampleRow M.F). r.disk_write) rows) (columns disk_write)

  -- Over trend rows: the least minimum, the mean of the medians and the greatest maximum.
  abbrev pub ShowsTrends : Trends M.F → (Metric → Columns M.F) → Type 0
  ShowsTrends rows columns =
      (m : Metric)
      → ((columns m).min
          ≡ aggregate E.min_of (map (λ (r : RowKey × TrendRow M.F). (r.1.columns m).min) rows))
        × ((columns m).med
            ≡ aggregate E.avg_of (map (λ (r : RowKey × TrendRow M.F). (r.1.columns m).med) rows))
        × ((columns m).max
            ≡ aggregate E.max_of (map (λ (r : RowKey × TrendRow M.F). (r.1.columns m).max) rows))

  map-row_columns :
      (f : (Metric → Columns M.F) → Option M.F) (rows : Trends M.F)
      → map f (map row_columns rows) ≡ map (λ (r : RowKey × TrendRow M.F). f r.1.columns) rows
  map-row_columns f [] = refl
  map-row_columns f (r ∷ rows) = ap (λ l. f r.1.columns ∷ l) (map-row_columns f rows)

  raw_columns-ShowsSamples :
      (rows : List (SampleRow M.F)) → ShowsSamples rows (raw_columns M E rows)
  raw_columns-ShowsSamples rows = (
    (refl, refl, refl),
    (refl, refl, refl),
    (refl, refl, refl),
    (refl, refl, refl),
    (refl, refl, refl),
    (refl, refl, refl),
  )

  envelope_columns-ShowsTrends :
      (rows : Trends M.F) → ShowsTrends rows (envelope_columns M E (map row_columns rows))
  envelope_columns-ShowsTrends rows = λ m. (
    ap (aggregate E.min_of) (map-row_columns (λ c. (c m).min) rows),
    ap (aggregate E.avg_of) (map-row_columns (λ c. (c m).med) rows),
    ap (aggregate E.max_of) (map-row_columns (λ c. (c m).max) rows),
  )

  -- Both histories of a container, the one from raw samples and the one from trends: the points ascend
  -- by the starts of their windows, which are the multiples of the given width, or of 1 if it is 0; each
  -- shows for every metric the least, the mean and the greatest value, leaving out NULL, of exactly the
  -- container's rows in the asked time that fall into its window, and for trends the least minimum, the
  -- mean of the medians and the greatest maximum; there is at least one such row; and every such row
  -- falls into the window of one of the points.
  pub history_container-IsHistory :
      (host name : Text) (since until group : ℕ) (samples : List (SampleRow M.F))
      (trends : Trends M.F)
      → IsHistory ShowsSamples
          (λ (r : SampleRow M.F). r.ts_ms)
          (to_db (max group 1))
          (select
            (λ (r : SampleRow M.F).
              r.host == host
              && r.id == name
              && (leb (to_db since) r.ts_ms && leb r.ts_ms (to_db until)))
            samples)
          (history_container_raw M E host name since until group samples)
        × IsHistory ShowsTrends
            (λ (r : RowKey × TrendRow M.F). r.0.1.1)
            (to_db (max group 1))
            (select
              (λ (r : RowKey × TrendRow M.F).
                r.0.0 == host
                && r.0.1.0 == name
                && (leb (to_db since) r.0.1.1 && leb r.0.1.1 (to_db until)))
              trends)
            (history_container M E host name since until group trends)
  unfolding history_container_raw history_container
  history_container-IsHistory host name since until group samples trends = (
    downsample-IsHistory (raw_columns M E) (λ r. r.ts_ms) (group_width group) ShowsSamples
        (raw_rows host name since until samples) raw_columns-ShowsSamples,
    downsample-IsHistory (λ rows. envelope_columns M E (map row_columns rows)) bucket_start
        (group_width group) ShowsTrends (name_rows host name since until trends)
        envelope_columns-ShowsTrends,
  )
