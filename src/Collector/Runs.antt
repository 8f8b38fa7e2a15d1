-- ===== src/Collector/Runs.antt =====
-- src/collector.rs: what a run of the loop publishes, persists and prunes.
use dockdoe.Prelude.{
  ◌∙◌, ℕ, zero, suc, ◌+◌, ◌-◌, min, leb, u64_max, ◌==◌, Bool-cases, inl, inr, ◌*◌, ◌/◌, ◌%◌, ◌≤◌,
  ◌<◌, max, ◌≡◌, refl, sym, subst, ap, arith, Bool, true, Option, none, some, List, [], ◌∷◌, ◌++◌,
  if◌then◌else◌, nat_eq, Text, map, drop,
}
use native.Mathlib.Nat.{div-add-mod', mod-lt}
use dockdoe.Float.{Float}
use dockdoe.Model.{ContainerMetrics, Dashboard}
use dockdoe.Notify.{Tracker}
use dockdoe.Collector.{
  Settings, Collector, Tick, Output, duration_ms, prune_cadence, prune_cutoffs_at, start, turn, run,
  publish_cycle, with_output,
}

abbrev pub cadence : Settings → ℕ
cadence s = max (s.prune_interval / max s.interval 1) 1

abbrev pub cutoffs : Settings → ℕ → ℕ × ℕ
cutoffs s ts_ms =
    (ts_ms - min (s.raw_retention * 1000) u64_max, ts_ms - min (s.trend_retention * 1000) u64_max)

multiples-apart : (q m c r : ℕ) → q * c ≡ m * c + r → r < c → r ≡ 0
multiples-apart q m c r e l = elim (Bool-cases (leb q m)) [
  | inl b ↦ let h = mul-le q m c (ground arith) in omega (arith, e, h)
  | inr b ↦
      let h = mul-le (m + 1) q c (ground arith) in
      let k : (m + 1) * c ≡ m * c + c = grind arith in absurd (omega (arith, e, h, k, l))
]
  where
    mul-le : (a b p : ℕ) → a ≤ b → a * p ≤ b * p
    mul-le a b p h = grind arith

prune_now :
    (s : Settings) (n q ts_ms : ℕ)
    → n ≡ q * cadence s
    → prune_cutoffs_at s n ts_ms ≡ some (cutoffs s ts_ms)
unfolding prune_cutoffs_at duration_ms prune_cadence
prune_now s n q ts_ms e =
    let low : 1 ≤ cadence s = omega arith in
    let parts = div-add-mod' n (cadence s) in
    let zero_left : n % cadence s ≡ 0 =
      multiples-apart q (n / cadence s) (cadence s) (n % cadence s) (sym e ∙ sym parts)
        (mod-lt n low) in
    rw zero_left refl

prune_later :
    (s : Settings) (n q due ts_ms : ℕ)
    → n + suc due ≡ q * cadence s
    → suc due < cadence s
    → prune_cutoffs_at s n ts_ms ≡ none
unfolding prune_cutoffs_at duration_ms prune_cadence
prune_later s n q due ts_ms e l = elim (Bool-cases (n % cadence s == 0)) [
  | inl b ↦
      let parts = div-add-mod' n (cadence s) in
      let left : n % cadence s ≡ 0 = ground (arith, b) in
      let gap : q * cadence s ≡ n / cadence s * cadence s + suc due =
        omega (arith, e, parts, left) in
      absurd (omega (arith, multiples-apart q (n / cadence s) (cadence s) (suc due) gap l))
  | inr b ↦ rw b refl
]

module _ (M : Float) where
  -- The collections that succeeded.
  abbrev pub collected : List (Tick M.F) → List (ℕ × List (ContainerMetrics M.F))
  collected [] = []
  collected (none ∷ ts) = collected ts
  collected (some sample ∷ ts) = sample ∷ collected ts

  abbrev pub dashboard_of : ℕ → ℕ × List (ContainerMetrics M.F) → Dashboard M.F
  dashboard_of cpu_count (ts_ms, containers) = record {
    generated_at_unix_ms = ts_ms;
    cpu_count = cpu_count;
    containers = containers;
  }

  -- What the persistence task sees of a cycle, the trend buckets aside.
  abbrev pub persisted : Output M.F → ℕ × Dashboard M.F × Option (ℕ × ℕ)
  persisted out = (out.job.ts_ms, out.job.dashboard, out.job.prune_cutoffs)

  -- The cycles numbered from `n` on, each with its prune.
  abbrev pub numbered :
      Settings
      → ℕ
      → ℕ
      → List (ℕ × List (ContainerMetrics M.F))
      → List (ℕ × Dashboard M.F × Option (ℕ × ℕ))
  numbered s cpu_count n [] = []
  numbered s cpu_count n (sample ∷ samples) =
      (sample.0, dashboard_of cpu_count sample, prune_cutoffs_at s n sample.0)
      ∷ numbered s cpu_count (n + 1) samples

  abbrev pub last_or :
      Option (Dashboard M.F) → ℕ → List (ℕ × List (ContainerMetrics M.F)) → Option (Dashboard M.F)
  last_or before cpu_count [] = before
  last_or before cpu_count (sample ∷ samples) =
      last_or (some (dashboard_of cpu_count sample)) cpu_count samples

  abbrev pub Publishes :
      Settings
      → ℕ
      → Collector M.F
      → List (Tick M.F)
      → List (ℕ × List (ContainerMetrics M.F))
      → Type 0
  Publishes s cpu_count c ticks samples =
      (map persisted (run M s cpu_count c ticks).1 ≡ numbered s cpu_count c.cycle samples)
      × ((run M s cpu_count c ticks).0.shared ≡ last_or c.shared cpu_count samples)

  turn-primed :
      (s : Settings) (cpu_count : ℕ) (c : Collector M.F) (ts_ms : ℕ)
      (containers : List (ContainerMetrics M.F))
      → c.primed ≡ true
      → turn M s cpu_count c (some (ts_ms, containers))
        ≡ with_output M (publish_cycle M s cpu_count c ts_ms containers)
  unfolding turn
  turn-primed s cpu_count c ts_ms containers p =
      ap
        (λ (b : Bool).
          if b
          then with_output M (publish_cycle M s cpu_count c ts_ms containers)
          else (record c { primed = true }, []))
        p

  run-primed :
      (s : Settings) (cpu_count : ℕ) (c : Collector M.F) (ticks : List (Tick M.F))
      → c.primed ≡ true
      → Publishes s cpu_count c ticks (collected ticks)
  unfolding run publish_cycle
  run-primed s cpu_count c [] p = (refl, refl)
  run-primed s cpu_count c (none ∷ ticks) p = run-primed s cpu_count c ticks p
  run-primed s cpu_count c (some (ts_ms, containers) ∷ ticks) p =
      let sample : ℕ × List (ContainerMetrics M.F) = (ts_ms, containers) in
      let (jobs, shared) =
        run-primed s cpu_count (publish_cycle M s cpu_count c ts_ms containers).0 ticks refl in
      subst
        (λ (r : Collector M.F × List (Output M.F)).
          (map persisted (r.1 ++ (run M s cpu_count r.0 ticks).1)
            ≡ numbered s cpu_count c.cycle (sample ∷ collected ticks))
          × ((run M s cpu_count r.0 ticks).0.shared
              ≡ last_or c.shared cpu_count (sample ∷ collected ticks)))
        (sym (turn-primed s cpu_count c ts_ms containers p))
        (
          ap
              (λ rest.
                (ts_ms, dashboard_of cpu_count sample, prune_cutoffs_at s c.cycle ts_ms) ∷ rest)
              jobs,
          shared,
        )

  pub run-numbered :
      (s : Settings) (cpu_count : ℕ) (host : Text) (notifier : Option Tracker)
      (ticks : List (Tick M.F))
      → (map persisted (run M s cpu_count (start M s host notifier) ticks).1
          ≡ numbered s cpu_count 0 (drop 1 (collected ticks)))
        × ((run M s cpu_count (start M s host notifier) ticks).0.shared
            ≡ last_or none cpu_count (drop 1 (collected ticks)))
  unfolding run turn start
  run-numbered s cpu_count host notifier [] = (refl, refl)
  run-numbered s cpu_count host notifier (none ∷ ticks) =
      run-numbered s cpu_count host notifier ticks
  run-numbered s cpu_count host notifier (some sample ∷ ticks) =
      run-primed s cpu_count (record (start M s host notifier) { primed = true }) ticks refl

  -- The cycles with the next prune due after that many of them, and one every `cadence` cycles.
  abbrev pub paced :
      Settings
      → ℕ
      → ℕ
      → List (ℕ × List (ContainerMetrics M.F))
      → List (ℕ × Dashboard M.F × Option (ℕ × ℕ))
  paced s cpu_count due [] = []
  paced s cpu_count zero (sample ∷ samples) =
      (sample.0, dashboard_of cpu_count sample, some (cutoffs s sample.0))
      ∷ paced s cpu_count (cadence s - 1) samples
  paced s cpu_count (suc due) (sample ∷ samples) =
      (sample.0, dashboard_of cpu_count sample, none) ∷ paced s cpu_count due samples

  numbered-paced :
      (s : Settings) (cpu_count n due q : ℕ) (samples : List (ℕ × List (ContainerMetrics M.F)))
      → n + due ≡ q * cadence s
      → due < cadence s
      → numbered s cpu_count n samples ≡ paced s cpu_count due samples
  numbered-paced s cpu_count n due q [] e l = refl
  numbered-paced s cpu_count n zero q (sample ∷ samples) e l =
      let now = prune_now s n q sample.0 (omega (arith, e)) in
      let next : (q + 1) * cadence s ≡ q * cadence s + cadence s = grind arith in
      let rest =
        numbered-paced s cpu_count (n + 1) (cadence s - 1) (q + 1) samples
          (omega (arith, e, l, next)) (omega (arith, l)) in
      ap (λ o. (sample.0, dashboard_of cpu_count sample, o) ∷ numbered s cpu_count (n + 1) samples)
        now
      ∙ ap (λ r. (sample.0, dashboard_of cpu_count sample, some (cutoffs s sample.0)) ∷ r) rest
  numbered-paced s cpu_count n (suc due) q (sample ∷ samples) e l =
      let later = prune_later s n q due sample.0 e l in
      let rest =
        numbered-paced s cpu_count (n + 1) due q samples (omega (arith, e)) (omega (arith, l)) in
      ap (λ o. (sample.0, dashboard_of cpu_count sample, o) ∷ numbered s cpu_count (n + 1) samples)
        later
      ∙ ap (λ r. (sample.0, dashboard_of cpu_count sample, none) ∷ r) rest

  -- From the start of the collector: the first collection that succeeds primes the counters and is
  -- dropped; each later one is published and persisted exactly once, in order, the failed ones left
  -- out; the shared snapshot is the last of them; and a prune comes with the first of them and then
  -- with every n-th, where n is the prune interval over the interval, and at least 1, and its cutoffs
  -- are the time of the collection less the two retentions.
  pub run-start :
      (s : Settings) (cpu_count : ℕ) (host : Text) (notifier : Option Tracker)
      (ticks : List (Tick M.F))
      → (map persisted (run M s cpu_count (start M s host notifier) ticks).1
          ≡ paced s cpu_count 0 (drop 1 (collected ticks)))
        × ((run M s cpu_count (start M s host notifier) ticks).0.shared
            ≡ last_or none cpu_count (drop 1 (collected ticks)))
  run-start s cpu_count host notifier ticks =
      let (jobs, shared) = run-numbered s cpu_count host notifier ticks in
      (
        jobs
            ∙ numbered-paced s cpu_count 0 0 0 (drop 1 (collected ticks)) (omega arith)
                (omega arith),
        shared,
      )

cadence-within :
    (p i q r : ℕ) → q * i + r ≡ p → r < i → (max q 1 * i ≤ max p i) × (p < (max q 1 + 1) * i)
cadence-within p i zero r e l = (omega arith, omega arith)
cadence-within p i (suc q) r e l =
    let m : max (suc q) 1 ≡ suc q = omega arith in
    let k : (suc q + 1) * i ≡ suc q * i + i = grind arith in
    rw m (omega (arith, e), omega (arith, e, k))

-- Two prunes are at most the longer of the prune interval and one cycle apart, in seconds, and one
-- cycle more would pass the prune interval.
pub prune_cadence-bounds :
    (prune_interval interval : ℕ)
    → 1 ≤ interval
    → (prune_cadence prune_interval interval * interval ≤ max prune_interval interval)
      × (prune_interval < (prune_cadence prune_interval interval + 1) * interval)
unfolding prune_cadence
prune_cadence-bounds prune_interval interval h =
    let m : max interval 1 ≡ interval = omega arith in
    rw m (
      cadence-within prune_interval interval (prune_interval / interval) (prune_interval % interval)
        (div-add-mod' prune_interval interval) (mod-lt prune_interval h))
