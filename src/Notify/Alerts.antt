-- ===== src/Notify/Alerts.antt =====
-- When `Notify.follow` raises an alert, over all histories of one container.
use dockdoe.Prelude.{
  All-append, Bool-cases, subst, ℕ, ◌+◌, ◌-◌, ◌≤◌, ◌≡◌, ◌≢◌, refl, ◌↔◌, inl, inr, true, Option,
  none, some, List, [], ◌∷◌, ◌++◌, All, arith,
}
use dockdoe.Notify.{Status, up, unhealthy, down, status_eq, Tracked, follow, advance}
use dockdoe.Notify.Timeline.{Observation, HeldSince, entry_after, watch}

pub status_eq_iff : (a b : Status) → (status_eq a b ≡ true) ↔ (a ≡ b)
status_eq_iff up b = ground arith
status_eq_iff unhealthy b = ground arith
status_eq_iff down b = ground arith

-- What is pending differs from what was notified, and has been seen ever since its first sighting.
abbrev pub PendingHeld : Status → Option (Status × ℕ) → List Observation → Type 0
PendingHeld n none past = Unit
PendingHeld n (some (p, since)) past = (p ≢ n) × HeldSince p since past

follow-PendingHeld :
    (delay ts : ℕ) (cur n : Status) (pending : Option (Status × ℕ)) (past : List Observation)
    → PendingHeld n pending past
    → let t = (follow delay ts cur (record { notified = n; pending = pending })).0 in
      PendingHeld t.notified t.pending ((ts, cur) ∷ past)
unfolding follow
follow-PendingHeld delay ts cur n none past h = ground (arith, status_eq_iff cur n)
follow-PendingHeld delay ts cur n (some (p, since)) past h =
    ground (arith, status_eq_iff cur n, status_eq_iff p cur)

follow-due :
    (delay ts : ℕ) (cur n : Status) (pending : Option (Status × ℕ)) (past : List Observation)
    → PendingHeld n pending past
    → (follow delay ts cur (record { notified = n; pending = pending })).1 ≡ true
    → (since : ℕ) × HeldSince cur since ((ts, cur) ∷ past) × (delay ≤ ts - since) × (cur ≢ n)
unfolding follow
follow-due delay ts cur n none past h e =
    (ts, (refl, inl refl), ground (arith, status_eq_iff cur n), ground (arith, status_eq_iff cur n))
follow-due delay ts cur n (some (p, since)) past h e = elim (Bool-cases (status_eq p cur)) [
  | inl same ↦ (
    since,
    (refl, inr (subst (λ s. HeldSince s since past) ((status_eq_iff p cur).0 same) h.1)),
    ground (arith, status_eq_iff cur n),
    ground (arith, status_eq_iff cur n),
  )
  | inr moved ↦ (
    ts,
    (refl, inl refl),
    ground (arith, status_eq_iff cur n),
    ground (arith, status_eq_iff cur n),
  )
]

abbrev pub IsIncubating : Option Tracked → List Observation → Type 0
IsIncubating none past = Unit
IsIncubating (some t) past = PendingHeld t.notified t.pending past

advance-IsIncubating :
    (delay ts : ℕ) (cur : Status) (o : Option Tracked) (past : List Observation)
    → IsIncubating o past
    → IsIncubating (some (advance delay ts cur o).0) ((ts, cur) ∷ past)
unfolding advance
advance-IsIncubating delay ts cur none past h = tt
advance-IsIncubating delay ts cur (some t) past h =
    follow-PendingHeld delay ts cur t.notified t.pending past h

entry_after-IsIncubating :
    (delay : ℕ) (past : List Observation) → IsIncubating (entry_after delay past) past
unfolding entry_after
entry_after-IsIncubating delay [] = tt
entry_after-IsIncubating delay ((ts, cur) ∷ past) =
    advance-IsIncubating delay ts cur (entry_after delay past) past
      (entry_after-IsIncubating delay past)

advance-due :
    (delay ts : ℕ) (cur : Status) (o : Option Tracked) (past : List Observation)
    → IsIncubating o past
    → (advance delay ts cur o).1 ≡ true
    → (t : Tracked) × (o ≡ some t)
      × (cur ≢ t.notified)
      × ((since : ℕ) × HeldSince cur since ((ts, cur) ∷ past) × (delay ≤ ts - since))
unfolding advance
advance-due delay ts cur none past h e = cc
advance-due delay ts cur (some t) past h e =
    let (since, held, long, differs) = follow-due delay ts cur t.notified t.pending past h e in
    (t, refl, differs, (since, held, long))

-- Whatever was observed of a container before, an alert at time `ts` means that the container was
-- tracked with another notified status, and that every observation since some time `since`, itself
-- an observation and at least the incubation delay before `ts`, shows the status of the alert.
pub alert_incubated :
    (delay ts : ℕ) (cur : Status) (past : List Observation)
    → (advance delay ts cur (entry_after delay past)).1 ≡ true
    → (t : Tracked) × (entry_after delay past ≡ some t)
      × (cur ≢ t.notified)
      × ((since : ℕ) × HeldSince cur since ((ts, cur) ∷ past) × (delay ≤ ts - since))
alert_incubated delay ts cur past e =
    advance-due delay ts cur (entry_after delay past) past (entry_after-IsIncubating delay past) e

abbrev pub AllShow : Status → List Observation → Type 0
AllShow s obs = All (λ (o : Observation). o.1 ≡ s) obs

-- Once notified, a status that stays raises nothing more.
watch_settled :
    (delay : ℕ) (s : Status) (pending : Option (Status × ℕ)) (obs : List Observation)
    → AllShow s obs
    → ((watch delay (record { notified = s; pending = pending }) obs).0.notified ≡ s)
      × ((watch delay (record { notified = s; pending = pending }) obs).1 ≡ 0)
unfolding watch
watch_settled delay s pending [] h = (refl, refl)
watch_settled delay s pending ((ts, cur) ∷ obs) h =
    ground (arith, status_eq_iff cur s, watch_settled delay s none obs h.1)

-- While it waits since `since`, a status that stays is alerted once by the first observation late
-- enough.
watch_waiting :
    (delay since last : ℕ) (s n : Status) (obs : List Observation)
    → s ≢ n
    → since + delay ≤ last
    → AllShow s obs
    → let r =
        watch delay (record { notified = n; pending = some (s, since) }) (obs ++ (last, s) ∷ []) in
      (r.0.notified ≡ s) × (r.1 ≡ 1)
unfolding watch
watch_waiting delay since last s n [] ne late h =
    ground (arith, status_eq_iff s n, status_eq_iff s s)
watch_waiting delay since last s n ((ts, cur) ∷ obs) ne late h =
    let rest : AllShow s (obs ++ (last, s) ∷ []) =
      All-append (λ (o : Observation). o.1 ≡ s) obs ((last, s) ∷ []) h.1 (refl, tt) in
    ground (
      arith,
      status_eq_iff cur n,
      status_eq_iff s cur,
      watch_settled delay s none (obs ++ (last, s) ∷ []) rest,
      watch_waiting delay since last s n obs ne late h.1,
    )

-- An entry waits for no status, or for another one than `s`.
abbrev pub WaitsForOther : Status → Option (Status × ℕ) → Type 0
WaitsForOther s none = Unit
WaitsForOther s (some (p, since)) = p ≢ s

changed_once :
    (delay first last : ℕ) (s n : Status) (pending : Option (Status × ℕ)) (obs : List Observation)
    → s ≢ n
    → WaitsForOther s pending
    → first + delay ≤ last
    → AllShow s obs
    → let r =
        watch delay
          (record { notified = n; pending = pending })
          ((first, s) ∷ (obs ++ (last, s) ∷ [])) in
      (r.0.notified ≡ s) × (r.1 ≡ 1)
unfolding watch
changed_once delay first last s n none obs ne other late h =
    let rest : AllShow s (obs ++ (last, s) ∷ []) =
      All-append (λ (o : Observation). o.1 ≡ s) obs ((last, s) ∷ []) h (refl, tt) in
    ground (
      arith,
      status_eq_iff s n,
      watch_settled delay s none (obs ++ (last, s) ∷ []) rest,
      watch_waiting delay first last s n obs ne late h,
    )
changed_once delay first last s n (some (p, since)) obs ne other late h =
    let rest : AllShow s (obs ++ (last, s) ∷ []) =
      All-append (λ (o : Observation). o.1 ≡ s) obs ((last, s) ∷ []) h (refl, tt) in
    ground (
      arith,
      status_eq_iff s n,
      status_eq_iff p s,
      watch_settled delay s none (obs ++ (last, s) ∷ []) rest,
      watch_waiting delay first last s n obs ne late h,
    )

-- A container whose observations all show one status `s` from `first` on, after an entry that was
-- notified of another status and waits for no status, or for one that is not `s`: by the observation
-- at `last`, if that is at least the incubation delay after `first`, exactly one alert has been raised
-- and `s` is notified.
pub change_alerted_once :
    (delay first last : ℕ) (s : Status) (t : Tracked) (obs : List Observation)
    → s ≢ t.notified
    → WaitsForOther s t.pending
    → first + delay ≤ last
    → AllShow s obs
    → let r = watch delay t ((first, s) ∷ (obs ++ (last, s) ∷ [])) in (r.0.notified ≡ s) × (r.1 ≡ 1)
change_alerted_once delay first last s t obs ne other late h =
    changed_once delay first last s t.notified t.pending obs ne other late h
