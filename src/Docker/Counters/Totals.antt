-- ===== src/Docker/Counters/Totals.antt =====
-- src/docker.rs: the totals over interfaces and devices saturate only once, whatever the order.
use dockdoe.Prelude.{
  ℕ, ◌+◌, min, ◌≡◌, refl, ap, ◌∙◌, arith, true, false, Bool-cases, inl, inr, Option, none, some,
  List, [], ◌∷◌, if◌then◌else◌, u64_max, Text, text, eq_ignore_ascii_case, to_ascii_lowercase,
  text_beq_iff,
}
use dockdoe.Docker.Counters.{
  NetworkStats, BlkioEntry, StatsSample, or_zero, saturating_add, add_networks, both_some,
  network_totals, add_entry, add_entries, entries_of, blkio_totals, network_totals_of,
  blkio_totals_of,
}

-- The sums over the unbounded numbers.
abbrev pub sum_networks : List NetworkStats → ℕ × ℕ
sum_networks [] = (0, 0)
sum_networks (net ∷ nets) =
    ((sum_networks nets).0 + or_zero net.rx_bytes, (sum_networks nets).1 + or_zero net.tx_bytes)

abbrev pub reads_of : Option Text → ℕ → ℕ
reads_of none value = 0
reads_of (some op) value = if eq_ignore_ascii_case op (text "read") then value else 0

-- No operation is both.
abbrev pub writes_of : Option Text → ℕ → ℕ
writes_of none value = 0
writes_of (some op) value = if eq_ignore_ascii_case op (text "write") then value else 0

abbrev pub sum_entries : List BlkioEntry → ℕ × ℕ
sum_entries [] = (0, 0)
sum_entries (e ∷ es) = (
  (sum_entries es).0 + reads_of e.op (or_zero e.value),
  (sum_entries es).1 + writes_of e.op (or_zero e.value),
)

abbrev pub capped : ℕ × ℕ → ℕ × ℕ
capped (a, b) = (min a u64_max, min b u64_max)

abbrev pub plus : ℕ × ℕ → ℕ × ℕ → ℕ × ℕ
plus (a, b) (c, d) = (a + c, b + d)

add_networks-capped :
    (t : ℕ × ℕ) (nets : List NetworkStats)
    → add_networks (capped t) nets ≡ capped (plus t (sum_networks nets))
unfolding add_networks saturating_add
add_networks-capped (a, b) [] = ground arith
add_networks-capped (a, b) (net ∷ nets) =
    let step : (
      min (min a u64_max + or_zero net.rx_bytes) u64_max,
      min (min b u64_max + or_zero net.tx_bytes) u64_max,
    )
        ≡ capped (a + or_zero net.rx_bytes, b + or_zero net.tx_bytes) =
      ground arith in
    ap (λ t. add_networks t nets) step
    ∙ add_networks-capped (a + or_zero net.rx_bytes, b + or_zero net.tx_bytes) nets
    ∙ ground arith

not_both :
    (op : Text)
    → eq_ignore_ascii_case op (text "read") ≡ true
    → eq_ignore_ascii_case op (text "write") ≡ false
unfolding eq_ignore_ascii_case
not_both op h =
    let e : to_ascii_lowercase op ≡ text "read" =
      (text_beq_iff (to_ascii_lowercase op) (text "read")).0 h in
    rw e refl

add_entry-capped :
    (t : ℕ × ℕ) (op : Option Text) (v : ℕ)
    → add_entry (capped t) op v ≡ capped (plus t (reads_of op v, writes_of op v))
unfolding add_entry saturating_add
add_entry-capped (a, b) none v = ground arith
add_entry-capped (a, b) (some op) v = elim (Bool-cases (eq_ignore_ascii_case op (text "read"))) [
  | inl e ↦ rw (e, not_both op e) (ground arith)
  | inr e ↦ elim (Bool-cases (eq_ignore_ascii_case op (text "write"))) [
    | inl f ↦ rw (e, f) (ground arith)
    | inr f ↦ rw (e, f) (ground arith)
  ]
]

add_entries-capped :
    (t : ℕ × ℕ) (es : List BlkioEntry)
    → add_entries (capped t) es ≡ capped (plus t (sum_entries es))
unfolding add_entries
add_entries-capped (a, b) [] = ground arith
add_entries-capped (a, b) (e ∷ es) =
    ap (λ t. add_entries t es) (add_entry-capped (a, b) e.op (or_zero e.value))
    ∙ add_entries-capped (a + reads_of e.op (or_zero e.value), b + writes_of e.op (or_zero e.value))
        es
    ∙ ground arith

abbrev pub total_networks : Option (List NetworkStats) → Option ℕ × Option ℕ
total_networks none = (none, none)
total_networks (some nets) = both_some (capped (sum_networks nets))

abbrev pub total_entries : Option (List BlkioEntry) → Option ℕ × Option ℕ
total_entries none = (none, none)
total_entries (some es) = both_some (capped (sum_entries es))

-- The network and block-I/O totals of a sample are the true sums over all interfaces and all entries
-- marked as reads and writes, cut off at the largest `u64` once, and missing only with their list.
pub totals_exact :
    (stats : StatsSample)
    → (network_totals stats ≡ total_networks stats.networks)
      × (blkio_totals stats ≡ total_entries (entries_of stats.blkio_stats))
unfolding network_totals blkio_totals
totals_exact stats = (by_networks stats.networks, by_entries (entries_of stats.blkio_stats))
  where
    by_networks : (o : Option (List NetworkStats)) → network_totals_of o ≡ total_networks o
    by_networks none = refl
    by_networks (some nets) = ap both_some (add_networks-capped (0, 0) nets ∙ ground arith)

    by_entries : (o : Option (List BlkioEntry)) → blkio_totals_of o ≡ total_entries o
    by_entries none = refl
    by_entries (some es) = ap both_some (add_entries-capped (0, 0) es ∙ ground arith)
