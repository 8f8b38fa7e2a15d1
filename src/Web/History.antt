-- ===== src/Web/History.antt =====
-- src/web.rs: the window and the grouping of a history query. The clock is an argument.
use dockdoe.Prelude.{
  ℕ, ◌+◌, ◌-◌, ◌*◌, ◌/◌, ◌%◌, ◌≤◌, ◌<◌, min, max, ◌≡◌, ◌≢◌, ◌↔◌, refl, arith, Bool, true, Option,
  none, some, List, [], ◌∷◌, if◌then◌else◌, ltb, leb, ◌==◌, nat_eq, u64_max, Text, text, text_eq,
  find_first, Bool-cases, inl, inr,
}
pub mod Queries
pub mod Limits
mod Tests

unfoldable pub duration_ms : ℕ → ℕ
duration_ms secs = min (secs * 1000) u64_max

abbrev pub history_ranges : List (Text × ℕ)
history_ranges =
    (text "1h", 3600)
    ∷ (text "6h", 21600)
    ∷ (text "24h", 86400)
    ∷ (text "7d", 604800)
    ∷ (text "30d", 2592000)
    ∷ []

pub record HistoryQuery : Type 0 where
  pub range : Option Text
  pub since_ms : Option ℕ
  pub until_ms : Option ℕ

pub record HistoryWindow : Type 0 where
  pub since : ℕ
  pub until : ℕ
  pub group_ms : ℕ
  pub raw : Bool

unfoldable pub div_ceil : ℕ → ℕ → ℕ
div_ceil a b = if a % b == 0 then a / b else a / b + 1

unfoldable pub group_for_window : ℕ → ℕ
unfolding div_ceil
group_for_window window_ms = max (div_ceil (window_ms / 1440) 60000) 1 * 60000

unfoldable pub raw_group_for_window : ℕ → ℕ
raw_group_for_window window_ms = max (window_ms / 1440) 1

unfoldable pub clamp_since : ℕ → ℕ → ℕ → ℕ
unfolding duration_ms
clamp_since now since_ms window = max since_ms (now - duration_ms window)

abbrev pub named_window : ℕ → Option (Text × ℕ) → Option (ℕ × ℕ)
named_window now none = none
named_window now (some (name, secs)) = some (now - duration_ms secs, now)

unfoldable pub window_of : ℕ → Option Text → Option ℕ → Option ℕ → Option (ℕ × ℕ)
unfolding duration_ms
window_of now (some range) none none =
    named_window now (find_first (λ (r : Text × ℕ). r.0 == range) history_ranges)
window_of now none (some since) (some until) = if ltb since until then some (since, until) else none
window_of now (some _) (some _) _ = none
window_of now (some _) none (some _) = none
window_of now none none _ = none
window_of now none (some _) none = none

abbrev pub resolved : ℕ → ℕ → Option (ℕ × ℕ) → Option HistoryWindow
resolved now seed_window none = none
resolved now seed_window (some (since, until)) = some (record {
  since = since;
  until = until;
  group_ms = group_for_window (until - since);
  raw = leb (now - duration_ms seed_window) since;
})

unfoldable pub resolve_history : ℕ → HistoryQuery → ℕ → Option HistoryWindow
unfolding window_of group_for_window duration_ms
resolve_history now q seed_window =
    resolved now seed_window (window_of now q.range q.since_ms q.until_ms)

div_ceil-bounds : (a : ℕ) → (a ≤ div_ceil a 60000 * 60000) × (div_ceil a 60000 * 60000 < a + 60000)
unfolding div_ceil
div_ceil-bounds a = elim (Bool-cases (a % 60000 == 0)) [
  | inl e ↦ let z : a % 60000 ≡ 0 = ground arith in rw e (omega (arith, z), omega (arith, z))
  | inr e ↦ let z : 1 ≤ a % 60000 = ground arith in rw e (omega (arith, z), omega (arith, z))
]

-- The groups of a window are whole trend buckets and a 64-bit number of milliseconds, 1440 of them
-- leave less than 1440 milliseconds of it uncovered, and 1440 that are one bucket shorter do not pass it.
pub group_for_window-bounds :
    (window_ms : ℕ)
    → window_ms ≤ u64_max
    → (group_for_window window_ms % 60000 ≡ 0)
      × (60000 ≤ group_for_window window_ms)
      × (group_for_window window_ms ≤ u64_max)
      × (window_ms < 1440 * group_for_window window_ms + 1440)
      × (1440 * (group_for_window window_ms - 60000) ≤ window_ms)
unfolding group_for_window
group_for_window-bounds window_ms h =
    let (lo, hi) = div_ceil-bounds (window_ms / 1440) in
    (omega arith, omega arith, omega (arith, hi), omega (arith, lo), omega (arith, hi))

named_window-order :
    (now : ℕ) (r : Option (Text × ℕ)) (w : ℕ × ℕ) → named_window now r ≡ some w → w.0 ≤ w.1
named_window-order now none w h = cc
named_window-order now (some (name, secs)) w h =
    let e : (now - duration_ms secs, now) ≡ w = cc in rw⁻¹ e (omega arith)

custom-order :
    (since until : ℕ) (w : ℕ × ℕ)
    → (if ltb since until then some (since, until) else none) ≡ some w
    → w.0 ≤ w.1
custom-order since until w h = elim (Bool-cases (ltb since until)) [
  | inl e ↦ let f : (since, until) ≡ w = same (rw e at h) in rw⁻¹ f (ground arith)
  | inr e ↦ absurd (none-some (rw e at h))
]
  where
    same : {a b : ℕ × ℕ} → ◌≡◌ {A = Option (ℕ × ℕ)} (some a) (some b) → a ≡ b
    same h = cc

    none-some : {b : ℕ × ℕ} → ◌≢◌ {A = Option (ℕ × ℕ)} none (some b)
    none-some = λ h. cc

window_of-order :
    (now : ℕ) (range : Option Text) (since until : Option ℕ) (w : ℕ × ℕ)
    → window_of now range since until ≡ some w
    → w.0 ≤ w.1
unfolding window_of
window_of-order now (some range) none none w h = named_window-order now _ w h
window_of-order now none (some since) (some until) w h = custom-order since until w h
window_of-order now (some _) (some _) until w h = cc
window_of-order now (some _) none (some _) w h = cc
window_of-order now none none until w h = cc
window_of-order now none (some _) none w h = cc

-- A window in order, cut into whole trend buckets, about 1440 of them at most, and served from the raw
-- samples exactly if it begins within the time that they are kept.
abbrev pub IsServable : ℕ → ℕ → HistoryWindow → Type 0
IsServable now seed_window w =
    (w.since ≤ w.until)
    × (w.group_ms % 60000 ≡ 0)
    × (w.until - w.since < 1440 * w.group_ms + 1440)
    × ((w.raw ≡ true) ↔ (now ≤ w.since + duration_ms seed_window))

window-IsServable :
    (now seed_window since until : ℕ)
    → since ≤ until
    → IsServable now seed_window (record {
      since = since;
      until = until;
      group_ms = group_for_window (until - since);
      raw = leb (now - duration_ms seed_window) since;
    })
unfolding group_for_window
window-IsServable now seed_window since until h =
    let (lo, hi) = div_ceil-bounds ((until - since) / 1440) in
    let e : (leb (now - duration_ms seed_window) since ≡ true)
        ↔ (now ≤ since + duration_ms seed_window) =
      ground arith in
    (h, omega arith, omega (arith, lo), e)

resolved-IsServable :
    (now seed_window : ℕ) (w : Option (ℕ × ℕ)) (r : HistoryWindow)
    → ((p : ℕ × ℕ) → w ≡ some p → p.0 ≤ p.1)
    → resolved now seed_window w ≡ some r
    → IsServable now seed_window r
resolved-IsServable now seed_window none r f h = cc
resolved-IsServable now seed_window (some (since, until)) r f h =
    let e = some-injective h in
    rw⁻¹ e (window-IsServable now seed_window since until (f (since, until) refl))
  where
    some-injective : {a b : HistoryWindow} → some a ≡ some b → a ≡ b
    some-injective h = cc

-- Every history query that is answered is answered over such a window.
pub resolve_history-IsServable :
    (now : ℕ) (q : HistoryQuery) (seed_window : ℕ) (r : HistoryWindow)
    → resolve_history now q seed_window ≡ some r
    → IsServable now seed_window r
unfolding resolve_history
resolve_history-IsServable now q seed_window r h =
    resolved-IsServable now seed_window (window_of now q.range q.since_ms q.until_ms) r
      (λ p e. window_of-order now q.range q.since_ms q.until_ms p e) h
