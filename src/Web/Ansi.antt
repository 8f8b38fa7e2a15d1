-- ===== src/Web/Ansi.antt =====
-- src/web.rs: `strip_ansi`, which cleans the log lines.
use dockdoe.Prelude.{
  ℕ, ◌≡◌, refl, arith, false, ◌&&◌, [], ◌∷◌, if◌then◌else◌, leb, ◌==◌, nat_eq, Text, contains,
}

abbrev pub escape : ℕ
escape = 0x1b

-- Where the scan stands: outside a sequence, behind the escape character, or within a sequence.
pub data Mode : Type 0 where
  plain introduced sequence : Mode

-- The iterator of characters is shared by both loops: each character is read once.
unfoldable pub strip_from : Mode → Text → Text
strip_from mode [] = []
strip_from plain (c ∷ s) =
    let skipped = strip_from introduced s in
    let kept = strip_from plain s in if c == escape then skipped else c ∷ kept
strip_from introduced (c ∷ s) =
    let inside = strip_from sequence s in
    let after = strip_from plain s in if c == b'[' then inside else after
strip_from sequence (c ∷ s) =
    let inside = strip_from sequence s in
    let after = strip_from plain s in if leb 0x40 c && leb c 0x7e then after else inside

unfoldable pub strip_ansi : Text → Text
unfolding strip_from
strip_ansi input = strip_from plain input

strip_from-clean : (mode : Mode) (s : Text) → contains (strip_from mode s) escape ≡ false
unfolding strip_from
strip_from-clean plain [] = refl
strip_from-clean introduced [] = refl
strip_from-clean sequence [] = refl
strip_from-clean plain (c ∷ s) =
    ground (arith, strip_from-clean introduced s, strip_from-clean plain s)
strip_from-clean introduced (c ∷ s) =
    ground (arith, strip_from-clean sequence s, strip_from-clean plain s)
strip_from-clean sequence (c ∷ s) =
    ground (arith, strip_from-clean sequence s, strip_from-clean plain s)

strip_from-plain : (s : Text) → contains s escape ≡ false → strip_from plain s ≡ s
unfolding strip_from
strip_from-plain [] h = refl
strip_from-plain (c ∷ s) h = ground (arith, strip_from-plain s)

-- The result holds no escape character, so cleaning it again changes nothing.
pub strip_ansi-clean :
    (s : Text)
    → (contains (strip_ansi s) escape ≡ false) × (strip_ansi (strip_ansi s) ≡ strip_ansi s)
unfolding strip_ansi
strip_ansi-clean s =
    (strip_from-clean plain s, strip_from-plain (strip_from plain s) (strip_from-clean plain s))
