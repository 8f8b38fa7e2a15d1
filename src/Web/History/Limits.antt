-- ===== src/Web/History/Limits.antt =====
-- src/web.rs: no history request is answered with more points than a chart can take.
use native.Mathlib.Nat.{mul-le-mul_right}
use dockdoe.Prelude.{
  ℕ, ◌+◌, ◌-◌, ◌*◌, ◌≤◌, ◌<◌, ◌≡◌, refl, sym, subst, arith, Bool-cases, inl, inr, Option, none,
  some, List, length, u64_max, i64_max, Text, if◌then◌else◌, ltb, lookup, text_eq,
}
use dockdoe.Float.{Float}
use dockdoe.Store.Tables.{to_db, Db, HistoryPoint}
use dockdoe.Store.History.{
  Engine, group_width, history_container_raw, history_container, history_stack, container_name,
}
use dockdoe.Store.History.Points.{Fits, length-history}
use dockdoe.Web.History.{
  HistoryQuery, HistoryWindow, resolve_history, resolved, window_of, named_window,
  raw_group_for_window, group_for_window, resolve_history-IsServable, group_for_window-bounds,
  duration_ms,
}
use dockdoe.Web.History.Queries.{
  HostRuntime, Response, points, invalid_range, proxied, container_points, history_of_name, name_or,
  answered, proxied_or, at_source, snapshot_name, container_response, stack_response,
}

-- A grouping under which 1440 groups leave less than 1440 milliseconds of the window uncovered.
Fits-points :
    (since until group n : ℕ)
    → since ≤ until
    → 1 ≤ group
    → group ≤ i64_max
    → until - since < 1440 * group + 1440
    → Fits since until group n
    → n ≤ 2880
Fits-points since until group n l p g w f = elim (Bool-cases (ltb 2880 n)) [
  | inl e ↦
      let more : 2881 ≤ n = ground arith in
      let scaled : 2881 * group ≤ n * group = mul-le-mul_right group more in
      let width : group_width group ≡ group = omega (arith, p, g) in
      let held = subst (λ v. n * v + to_db since + 1 ≤ to_db until + v + v) width f in
      absurd (omega (arith, scaled, held, l, w, p))
  | inr e ↦ ground arith
]

raw_group_fits :
    (window : ℕ)
    → window ≤ u64_max
    → (1 ≤ raw_group_for_window window)
      × (raw_group_for_window window ≤ i64_max)
      × (window < 1440 * raw_group_for_window window + 1440)
unfolding raw_group_for_window
raw_group_fits window h = (omega arith, omega (arith, h), omega arith)

trend_group_fits :
    (window : ℕ)
    → window ≤ u64_max
    → (1 ≤ group_for_window window)
      × (group_for_window window ≤ i64_max)
      × (window < 1440 * group_for_window window + 1440)
trend_group_fits window h =
    let (m, lo, cap, over, under) = group_for_window-bounds window h in
    (omega (arith, lo), omega (arith, under, h, cap), omega (arith, over))

abbrev pub IsU64 : Option ℕ → Type 0
IsU64 none = Unit
IsU64 (some n) = n ≤ u64_max

-- The time that a query names is a `u64`.
abbrev pub InRange : HistoryQuery → Type 0
InRange q = IsU64 q.until_ms

named_window-end :
    (now : ℕ) (r : Option (Text × ℕ)) (w : ℕ × ℕ) → named_window now r ≡ some w → w.1 ≡ now
named_window-end now none w h = cc
named_window-end now (some (name, secs)) w h =
    let e : (now - duration_ms secs, now) ≡ w = cc in rw⁻¹ e refl

custom-end :
    (since until : ℕ) (w : ℕ × ℕ)
    → (if ltb since until then some (since, until) else none) ≡ some w
    → w.1 ≡ until
custom-end since until w h = elim (Bool-cases (ltb since until)) [
  | inl e ↦
      let f : some (since, until) ≡ some w = rw e at h in
      let g : (since, until) ≡ w = cc in rw⁻¹ g refl
  | inr e ↦ let f : none ≡ some w = rw e at h in cc
]

window_of-end :
    (now : ℕ) (range : Option Text) (since until : Option ℕ) (w : ℕ × ℕ)
    → now ≤ u64_max
    → IsU64 until
    → window_of now range since until ≡ some w
    → w.1 ≤ u64_max
unfolding window_of
window_of-end now (some range) none none w l f h =
    let e = named_window-end now _ w h in omega (arith, e, l)
window_of-end now none (some since) (some until) w l f h =
    let e = custom-end since until w h in omega (arith, e, f)
window_of-end now (some _) (some _) until w l f h = cc
window_of-end now (some _) none (some _) w l f h = cc
window_of-end now none none until w l f h = cc
window_of-end now none (some _) none w l f h = cc

resolved-parts :
    (now seed_window : ℕ) (o : Option (ℕ × ℕ)) (r : HistoryWindow)
    → ((w : ℕ × ℕ) → o ≡ some w → w.1 ≤ u64_max)
    → resolved now seed_window o ≡ some r
    → (r.group_ms ≡ group_for_window (r.until - r.since)) × (r.until ≤ u64_max)
resolved-parts now seed_window none r f h = cc
resolved-parts now seed_window (some (since, until)) r f h =
    rw⁻¹ (some-injective h) (refl, f (since, until) refl)
  where
    some-injective : {a b : HistoryWindow} → some a ≡ some b → a ≡ b
    some-injective h = cc

resolve_history-parts :
    (now : ℕ) (q : HistoryQuery) (seed_window : ℕ) (r : HistoryWindow)
    → now ≤ u64_max
    → InRange q
    → resolve_history now q seed_window ≡ some r
    → (r.group_ms ≡ group_for_window (r.until - r.since)) × (r.until ≤ u64_max)
unfolding resolve_history
resolve_history-parts now q seed_window r l f h =
    resolved-parts now seed_window (window_of now q.range q.since_ms q.until_ms) r
      (λ w e. window_of-end now q.range q.since_ms q.until_ms w l f e) h

abbrev pub IsLimited : {A F : Type 0} → Response A (HistoryPoint F) → Type 0
IsLimited (points ps) = length ps ≤ 2880
IsLimited invalid_range = Unit
IsLimited (proxied answer) = Unit

proxied_or-IsLimited :
    {A F : Type 0} (o : Option A) (r : Response A (HistoryPoint F))
    → IsLimited r
    → IsLimited (proxied_or o r)
proxied_or-IsLimited none r h = h
proxied_or-IsLimited (some answer) r h = tt

module _ (M : Float) (E : Engine M.F) (now : ℕ) (seed_window : ℕ) (q : HistoryQuery)
    (now-InRange : now ≤ u64_max) (q-InRange : InRange q) where
  order-of : (w : HistoryWindow) → resolve_history now q seed_window ≡ some w → w.since ≤ w.until
  order-of w h = (resolve_history-IsServable now q seed_window w h).0

  raw-limited :
      (host id : Text) (w : HistoryWindow) (db : Db M.F)
      → resolve_history now q seed_window ≡ some w
      → length (
          history_container_raw M E host id w.since w.until
            (raw_group_for_window (w.until - w.since))
            db.samples)
        ≤ 2880
  raw-limited host id w db h =
      let parts = resolve_history-parts now q seed_window w now-InRange q-InRange h in
      let l = order-of w h in
      let (p, g, u) = raw_group_fits (w.until - w.since) (omega (arith, parts.1)) in
      Fits-points w.since w.until _ _ l p g u
        (length-history M E host id w.since w.until (raw_group_for_window (w.until - w.since))
          db.samples db.trends l).0

  trends-limited :
      (host name : Text) (w : HistoryWindow) (db : Db M.F)
      → resolve_history now q seed_window ≡ some w
      → (length (history_container M E host name w.since w.until w.group_ms db.trends) ≤ 2880)
        × (length (history_stack M E host name w.since w.until w.group_ms db.trends) ≤ 2880)
  trends-limited host name w db h =
      let parts = resolve_history-parts now q seed_window w now-InRange q-InRange h in
      let l = order-of w h in
      let (p, g, u) = trend_group_fits (w.until - w.since) (omega (arith, parts.1)) in
      let same = sym parts.0 in
      let fit = length-history M E host name w.since w.until w.group_ms db.samples db.trends l in
      let positive = subst (λ n. 1 ≤ n) same p in
      let small = subst (λ n. n ≤ i64_max) same g in
      let covers = subst (λ n. w.until - w.since < 1440 * n + 1440) same u in
      (
        Fits-points w.since w.until w.group_ms _ l positive small covers fit.1,
        Fits-points w.since w.until w.group_ms _ l positive small covers fit.2,
      )

  of_name-limited :
      (host : Text) (o : Option Text) (w : HistoryWindow) (db : Db M.F)
      → resolve_history now q seed_window ≡ some w
      → length (history_of_name M E host w db o) ≤ 2880
  of_name-limited host none w db h = omega arith
  of_name-limited host (some name) w db h = (trends-limited host name w db h).0

  container_points-limited :
      (host id : Text) (name : Option Text) (w : HistoryWindow) (db : Db M.F)
      → resolve_history now q seed_window ≡ some w
      → length (container_points M E host id name db w) ≤ 2880
  container_points-limited host id name w db h = elim (Bool-cases w.raw) [
    | inl e ↦ rw e (raw-limited host id w db h)
    | inr e ↦
        rw e (of_name-limited host (name_or M E name (container_name host id db.trends)) w db h)
  ]

  answered-IsLimited :
      (A : Type 0) (query : HistoryWindow → List (HistoryPoint M.F)) (o : Option HistoryWindow)
      → ((w : HistoryWindow) → o ≡ some w → length (query w) ≤ 2880)
      → IsLimited {A = A} (answered M E query o)
  answered-IsLimited A query none h = tt
  answered-IsLimited A query (some w) h = h w refl

  -- Whatever the tables hold, a history request over any window, for a container or for a stack, is
  -- answered with at most 2880 points from the store, if the clock and the query's times are `u64`
  -- values.
  pub responses-IsLimited :
      {A : Type 0} (hosts : List (Text × HostRuntime A M.F)) (host name : Text) (db : Db M.F)
      → IsLimited (container_response M E now seed_window hosts host name q db)
        × IsLimited (stack_response M E now seed_window hosts host name q db)
  unfolding container_response stack_response
  responses-IsLimited {A} hosts host name db =
      let rt = lookup host hosts in
      (
        proxied_or-IsLimited (at_source rt) _ (
            answered-IsLimited A (container_points M E host name (snapshot_name name rt) db)
              (resolve_history now q seed_window)
              (λ w h. container_points-limited host name (snapshot_name name rt) w db h)),
        proxied_or-IsLimited (at_source rt) _ (
            answered-IsLimited A _ (resolve_history now q seed_window)
              (λ w h. (trends-limited host name w db h).1)),
      )
