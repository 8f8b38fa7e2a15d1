-- ===== src/Federation/Sse.antt =====
-- src/federation.rs: `SseParser`, the incremental parser of the event stream.
use dockdoe.Prelude.{
  ℕ, zero, suc, Bool, true, false, not, Option, none, some, List, [], ◌∷◌, ◌++◌, ◌&&◌,
  if◌then◌else◌, ◌==◌, nat_eq, Text, text, text_eq, split, strip_prefix, trim_start, is_empty, join,
  select, cons_first, length,
}
use dockdoe.Federation.Utf8.{from_utf8_lossy}
pub mod Chunks
pub mod Wire
mod Tests

-- The first block up to and including "\n\n", and what follows it.
unfoldable pub split_block : Text → Option (Text × Text)
split_block [] = none
split_block (c ∷ []) = none
split_block (c ∷ d ∷ s) =
    let rest = split_block (d ∷ s) in
    if c == b'\n' && d == b'\n' then some (c ∷ d ∷ [], s) else cons_first c rest

-- `str::lines` of a text with no carriage return: the last piece counts only if it is not empty.
unfoldable pub drop_last_empty : List Text → List Text
drop_last_empty [] = []
drop_last_empty (s ∷ []) = if is_empty s then [] else s ∷ []
drop_last_empty (s ∷ t ∷ ts) = s ∷ drop_last_empty (t ∷ ts)

unfoldable pub lines : Text → List Text
unfolding drop_last_empty
lines s = drop_last_empty (split b'\n' s)

pub record Fields : Type 0 where
  pub event : Text
  pub payload : List Text

abbrev pub strip_space : Text → Text
strip_space v = elim (strip_prefix (text " ") v) [ none ↦ v | some w ↦ w ]

unfoldable pub read_line : Fields → Text → Fields
read_line f line = elim (strip_prefix (text "event:") line) [
  | some v ↦ record f { event = trim_start v }
  | none ↦ elim (strip_prefix (text "data:") line) [
    | some v ↦ record f { payload = f.payload ++ strip_space v ∷ [] }
    | none ↦ f
  ]
]

unfoldable pub read_lines : Fields → List Text → Fields
unfolding read_line
read_lines f [] = f
read_lines f (l ∷ ls) = read_lines (read_line f l) ls

unfoldable pub event_of : Fields → List (Text × Text)
event_of f = if is_empty f.payload then [] else (f.event, join (text "\n") f.payload) ∷ []

unfoldable pub parse_block : Text → List (Text × Text)
unfolding read_lines event_of lines
parse_block block =
    event_of (read_lines (record { event = text "message"; payload = [] }) (lines block))

-- The `while let` loop; the fuel bounds the number of blocks.
unfoldable pub drain : ℕ → Text → List (Text × Text) × Text
unfolding split_block
drain zero buf = ([], buf)
drain (suc fuel) buf = elim (split_block buf) [
  | none ↦ ([], buf)
  | some (block, rest) ↦ let (events, left) = drain fuel rest in (parse_block block ++ events, left)
]

unfoldable pub without_cr : Text → Text
without_cr s = select (λ c. not (c == b'\r')) s

-- The buffer is the whole state. `push` gives the completed events and the new buffer.
unfoldable pub push_text : Text → Text → List (Text × Text) × Text
unfolding drain without_cr
push_text buf s = let full = buf ++ without_cr s in drain (length full) full

unfoldable pub push : Text → List ℕ → List (Text × Text) × Text
unfolding push_text
push buf chunk = push_text buf (from_utf8_lossy chunk)
