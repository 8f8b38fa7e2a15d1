-- ===== src/Notify/Timeline.antt =====
-- One container followed through time, as `Notify.advance` follows it.
use dockdoe.Prelude.{ℕ, suc, ◌≡◌, ◌⊎◌, Option, none, some, List, [], ◌∷◌, if◌then◌else◌}
use dockdoe.Notify.{Status, Tracked, advance, follow}

-- An observation is a time and the status that the snapshot of that time shows.
abbrev pub Observation : Type 0
Observation = ℕ × Status

-- In a history, latest first: every observation since the one at `since` shows `s`.
abbrev pub HeldSince : Status → ℕ → List Observation → Type 0
HeldSince s since [] = ⊥
HeldSince s since ((t, s') ∷ past) = (s' ≡ s) × ((t ≡ since) ⊎ HeldSince s since past)

-- The entry that a history, latest first, leaves in the map of states.
unfoldable pub entry_after : ℕ → List Observation → Option Tracked
unfolding advance
entry_after delay [] = none
entry_after delay ((ts, cur) ∷ past) = some (advance delay ts cur (entry_after delay past)).0

-- The entry and the number of alerts after further observations, earliest first.
unfoldable pub watch : ℕ → Tracked → List Observation → Tracked × ℕ
unfolding follow
watch delay t [] = (t, 0)
watch delay t ((ts, cur) ∷ obs) =
    let (t', due) = follow delay ts cur t in
    let (final, alerts) = watch delay t' obs in (final, if due then suc alerts else alerts)
