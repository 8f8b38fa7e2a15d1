-- ===== src/Web/Stream.antt =====
-- src/web.rs: the stream of snapshots that the live views and the hubs follow. Each read of the shared
-- snapshot is one element of a list, `none` for one before the first or under a poisoned lock.
use dockdoe.Prelude.{
  ℕ, ◌≡◌, ◌≢◌, refl, sym, ap, ◌∙◌, eq_of_==, arith, Bool, true, false, Bool-cases, inl, inr, Option,
  none, some, List, [], ◌∷◌, if◌then◌else◌, ◌==◌, nat_eq, IsSubsequence,
}
use dockdoe.Model.{Dashboard}
mod Tests

module _ {F : Type 0} where
  -- What `unfold` yields from the reads, where `last` is the timestamp of the last one that was yielded.
  unfoldable pub yielded : ℕ → List (Option (Dashboard F)) → List (Dashboard F)
  yielded last [] = []
  yielded last (none ∷ reads) = yielded last reads
  yielded last (some dash ∷ reads) =
      let same = yielded last reads in
      let fresh = yielded dash.generated_at_unix_ms reads in
      if dash.generated_at_unix_ms == last then same else dash ∷ fresh

  unfoldable pub dashboard_stream : List (Option (Dashboard F)) → List (Dashboard F)
  unfolding yielded
  dashboard_stream reads = yielded 0 reads

  -- The snapshots that were read.
  abbrev pub published : List (Option (Dashboard F)) → List (Dashboard F)
  published [] = []
  published (none ∷ reads) = published reads
  published (some dash ∷ reads) = dash ∷ published reads

  -- The timestamp of the last one.
  abbrev pub latest : ℕ → List (Dashboard F) → ℕ
  latest last [] = last
  latest last (dash ∷ dashes) = latest dash.generated_at_unix_ms dashes

  -- Each timestamp differs from the one before.
  abbrev pub Changes : ℕ → List (Dashboard F) → Type 0
  Changes last [] = Unit
  Changes last (dash ∷ dashes) =
      (dash.generated_at_unix_ms ≢ last) × Changes dash.generated_at_unix_ms dashes

  yielded-follows :
      (last : ℕ) (reads : List (Option (Dashboard F)))
      → IsSubsequence (yielded last reads) (published reads)
        × Changes last (yielded last reads)
        × (latest last (yielded last reads) ≡ latest last (published reads))
  unfolding yielded
  yielded-follows last [] = (IsSubsequence.nil, tt, refl)
  yielded-follows last (none ∷ reads) = yielded-follows last reads
  yielded-follows last (some dash ∷ reads) = elim (Bool-cases (dash.generated_at_unix_ms == last)) [
    | inl e ↦
        let (a, b, c) = yielded-follows last reads in
        rw e (
          IsSubsequence.skip a,
          b,
          c
              ∙ ap (λ t. latest t (published reads))
                  (sym (eq_of_== dash.generated_at_unix_ms last e)),
        )
    | inr e ↦
        let (a, b, c) = yielded-follows dash.generated_at_unix_ms reads in
        let changed : dash.generated_at_unix_ms ≢ last = λ h. ground arith in
        rw e (IsSubsequence.keep a, (changed, b), c)
  ]

  -- The stream yields the snapshots that were read, in order, leaving some out; it never yields two with
  -- one timestamp one after the other; and what it has yielded last has the timestamp of the last
  -- snapshot that was read, counting 0 for none.
  pub dashboard_stream-follows :
      (reads : List (Option (Dashboard F)))
      → IsSubsequence (dashboard_stream reads) (published reads)
        × Changes 0 (dashboard_stream reads)
        × (latest 0 (dashboard_stream reads) ≡ latest 0 (published reads))
  unfolding dashboard_stream
  dashboard_stream-follows reads = yielded-follows 0 reads
