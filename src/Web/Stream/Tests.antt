-- ===== src/Web/Stream/Tests.antt =====
-- src/web.rs: a few reads of the shared snapshot.
use dockdoe.Prelude.{ℕ, ◌≡◌, refl, Option, none, some, List, [], ◌∷◌, IsSubsequence}
use dockdoe.Model.{Dashboard}
use dockdoe.Web.Stream.{dashboard_stream, published, Changes, latest, dashboard_stream-follows}

abbrev at : ℕ → Option (Dashboard ℕ)
at ms = some (record { generated_at_unix_ms = ms; cpu_count = 4; containers = [] })

abbrev reads : List (Option (Dashboard ℕ))
reads = none ∷ at 5 ∷ at 5 ∷ at 7 ∷ none ∷ at 5 ∷ []

three_yielded : latest 0 (dashboard_stream reads) ≡ 5
unfolding dashboard_stream
three_yielded = refl

dashboard_stream-follows_example :
    IsSubsequence (dashboard_stream reads) (published reads)
    × Changes 0 (dashboard_stream reads)
    × (latest 0 (dashboard_stream reads) ≡ latest 0 (published reads))
dashboard_stream-follows_example = dashboard_stream-follows reads
