-- ===== src/Federation/Sse/Wire.antt =====
-- An event in the wire format comes out of the parser as it was.
use dockdoe.Prelude.{
  All-append, ℕ, suc, ◌≡◌, ◌≢◌, refl, sym, ap, ◌∙◌, false, some, List, [], ◌∷◌, ◌++◌, nat_eq, Text,
  text, text_eq, cons_first, length, arith, append_assoc, append-nil, All, split, trim_start,
  is_whitespace, join, is_empty, map,
}
use dockdoe.Federation.Sse.Chunks.{drain-some, drain_none}
use dockdoe.Federation.Sse.{
  Fields, split_block, lines, drop_last_empty, read_line, read_lines, event_of, parse_block, drain,
  without_cr, push_text,
}

-- No character is a line feed or a carriage return.
abbrev pub IsLine : Text → Type 0
IsLine s = All (λ (c : ℕ). (c ≢ b'\n') × (c ≢ b'\r')) s

abbrev unlines : List Text → Text
unlines [] = []
unlines (l ∷ ls) = l ++ b'\n' ∷ unlines ls

abbrev IsFullLine : Text → Type 0
IsFullLine l = IsLine l × (is_empty l ≡ false)

split_line : (l s : Text) → IsLine l → split b'\n' (l ++ b'\n' ∷ s) ≡ l ∷ split b'\n' s
unfolding split
split_line [] s h = refl
split_line (c ∷ l) s h = ground (arith, split_line l s h.1)

split-unlines :
    (ls : List Text) (s : Text)
    → All IsFullLine ls
    → split b'\n' (unlines ls ++ s) ≡ ls ++ split b'\n' s
split-unlines [] s h = refl
split-unlines (l ∷ ls) s h =
    ap (split b'\n') (append_assoc l (b'\n' ∷ unlines ls) s)
    ∙ split_line l (unlines ls ++ s) h.0.0
    ∙ ap (λ t. l ∷ t) (split-unlines ls s h.1)

drop_last_empty_lem :
    (ls : List Text) (l : Text) → drop_last_empty (ls ++ l ∷ [] ∷ []) ≡ ls ++ l ∷ []
unfolding drop_last_empty
drop_last_empty_lem [] l = refl
drop_last_empty_lem (k ∷ []) l = refl
drop_last_empty_lem (k ∷ j ∷ ls) l = ap (λ t. k ∷ t) (drop_last_empty_lem (j ∷ ls) l)

-- The lines of a block are those put in, and the empty one that ends it.
lines-block :
    (ls : List Text) → All IsFullLine ls → lines (unlines ls ++ b'\n' ∷ []) ≡ ls ++ [] ∷ []
unfolding lines split
lines-block ls h = ap drop_last_empty (split-unlines ls (b'\n' ∷ []) h) ∙ drop_last_empty_lem ls []

split_block_skip :
    (d : ℕ) (t : Text) → d ≢ b'\n' → split_block (d ∷ t) ≡ cons_first d (split_block t)
unfolding split_block
split_block_skip d [] h = refl
split_block_skip d (c ∷ t) h = ground arith

split_block_line :
    (l t block rest : Text)
    → IsLine l
    → split_block t ≡ some (block, rest)
    → split_block (l ++ t) ≡ some (l ++ block, rest)
split_block_line [] t block rest h e = e
split_block_line (d ∷ l) t block rest h e =
    split_block_skip d (l ++ t) h.0.0 ∙ ap (cons_first d) (split_block_line l t block rest h.1 e)

-- After a line feed that no second one follows the search goes on.
split_block_feed :
    (t : Text) (block rest : Text)
    → split_block t ≡ some (block, rest)
    → (c : ℕ) (u : Text) → t ≡ c ∷ u
    → c ≢ b'\n'
    → split_block (b'\n' ∷ t) ≡ some (b'\n' ∷ block, rest)
unfolding split_block
split_block_feed [] block rest e c u p n = cc
split_block_feed (d ∷ t) block rest e c u p n = ground arith

full_line_head : (l t : Text) → IsFullLine l → (c : ℕ) × (u : Text) × (l ++ t ≡ c ∷ u) × (c ≢ b'\n')
full_line_head [] t h = cc
full_line_head (c ∷ l) t h = (c, l ++ t, refl, h.0.0.0)

split_block-unlines :
    (l : Text) (ls : List Text) (rest : Text)
    → All IsFullLine (l ∷ ls)
    → split_block (unlines (l ∷ ls) ++ b'\n' ∷ rest) ≡ some (unlines (l ∷ ls) ++ b'\n' ∷ [], rest)
unfolding split_block
split_block-unlines l [] rest h =
    rw (append_assoc l (b'\n' ∷ []) (b'\n' ∷ rest), append_assoc l (b'\n' ∷ []) (b'\n' ∷ []))
      (split_block_line l (b'\n' ∷ b'\n' ∷ rest) (b'\n' ∷ b'\n' ∷ []) rest h.0.0 refl)
split_block-unlines l (k ∷ ks) rest h =
    let later = unlines (k ∷ ks) in
    let (c, u, e, n) = full_line_head k ((b'\n' ∷ unlines ks) ++ b'\n' ∷ rest) h.1.0 in
    let start = append_assoc k (b'\n' ∷ unlines ks) (b'\n' ∷ rest) ∙ e in
    rw (append_assoc l (b'\n' ∷ later) (b'\n' ∷ rest), append_assoc l (b'\n' ∷ later) (b'\n' ∷ []))
      (split_block_line l (b'\n' ∷ (later ++ b'\n' ∷ rest)) (b'\n' ∷ (later ++ b'\n' ∷ [])) rest
        h.0.0
        (split_block_feed (later ++ b'\n' ∷ rest) (later ++ b'\n' ∷ []) rest
          (split_block-unlines k ks rest h.1) c u start n))

-- The lines of an event with one `data` field for each line of its payload.
abbrev pub data_line : Text → Text
data_line l = text "data: " ++ l

abbrev pub wire_lines : Text → List Text → List Text
wire_lines event payload = (text "event: " ++ event) ∷ map data_line payload

-- The event as it is sent: the lines, each ended by a line feed, and an empty line.
abbrev pub wire : Text → List Text → Text
wire event payload = unlines (wire_lines event payload) ++ b'\n' ∷ []

read_lines-data :
    (f : Fields) (payload : List Text)
    → read_lines f (map data_line payload ++ [] ∷ []) ≡ record f { payload = f.payload ++ payload }
unfolding read_lines
read_lines-data f [] = ap (λ p. record f { payload = p }) (sym (append-nil f.payload))
read_lines-data f (l ∷ ls) =
    read_lines-data (record f { payload = f.payload ++ l ∷ [] }) ls
    ∙ ap (λ p. record f { payload = p }) (append_assoc f.payload (l ∷ []) ls)

-- The name of an event: a line that does not begin with white space.
abbrev pub IsEventName : Text → Type 0
IsEventName name = IsLine name × (trim_start name ≡ name)

IsLine-append : (a b : Text) → IsLine a → IsLine b → IsLine (a ++ b)
IsLine-append a b h k = All-append (λ (c : ℕ). (c ≢ b'\n') × (c ≢ b'\r')) a b h k

data_lines-full : (ls : List Text) → All IsLine ls → All IsFullLine (map data_line ls)
data_lines-full [] h = tt
data_lines-full (l ∷ ls) h =
    ((IsLine-append (text "data: ") l (omega arith) h.0, refl), data_lines-full ls h.1)

wire_lines-full :
    (event : Text) (ls : List Text)
    → IsLine event
    → All IsLine ls
    → All IsFullLine (wire_lines event ls)
wire_lines-full event ls h k =
    ((IsLine-append (text "event: ") event (omega arith) h, refl), data_lines-full ls k)

read_line-event :
    (event : Text)
    → trim_start event ≡ event
    → read_line (record { event = text "message"; payload = [] }) (text "event: " ++ event)
      ≡ record { event = event; payload = [] }
unfolding read_line trim_start is_whitespace
read_line-event event h = ap (λ e. record { event = e; payload = [] }) h

parse_block-wire :
    (event l : Text) (ls : List Text)
    → IsEventName event
    → All IsLine (l ∷ ls)
    → parse_block (wire event (l ∷ ls)) ≡ (event, join (text "\n") (l ∷ ls)) ∷ []
unfolding parse_block
parse_block-wire event l ls h k =
    let sent = map data_line (l ∷ ls) ++ [] ∷ [] in
    ap (λ ps. event_of (read_lines (record { event = text "message"; payload = [] }) ps))
      (lines-block (wire_lines event (l ∷ ls)) (wire_lines-full event (l ∷ ls) h.0 k))
    ∙ ap (λ f. event_of (read_lines f sent)) (read_line-event event h.1)
    ∙ ap event_of (read_lines-data (record { event = event; payload = [] }) (l ∷ ls))

without_cr-line : (s t : Text) → IsLine s → without_cr (s ++ t) ≡ s ++ without_cr t
unfolding without_cr
without_cr-line [] t h = refl
without_cr-line (c ∷ s) t h = ground (arith, without_cr-line s t h.1)

without_cr-feed : (t : Text) → without_cr (b'\n' ∷ t) ≡ b'\n' ∷ without_cr t
unfolding without_cr
without_cr-feed t = refl

without_cr-unlines :
    (ls : List Text) (t : Text)
    → All IsFullLine ls
    → without_cr (unlines ls ++ b'\n' ∷ t) ≡ unlines ls ++ b'\n' ∷ without_cr t
without_cr-unlines [] t h = without_cr-feed t
without_cr-unlines (l ∷ ls) t h =
    ap without_cr (append_assoc l (b'\n' ∷ unlines ls) (b'\n' ∷ t))
    ∙ without_cr-line l (b'\n' ∷ (unlines ls ++ b'\n' ∷ t)) h.0.0
    ∙ ap (λ u. l ++ u)
        (without_cr-feed (unlines ls ++ b'\n' ∷ t)
          ∙ ap (λ u. b'\n' ∷ u) (without_cr-unlines ls t h.1))
    ∙ sym (append_assoc l (b'\n' ∷ unlines ls) (b'\n' ∷ without_cr t))

drain-block :
    (f : ℕ) (s : Text) → split_block s ≡ some (s, []) → drain (suc f) s ≡ (parse_block s, [])
drain-block f s e =
    drain-some f s s [] e
    ∙ ap (λ (r : List (Text × Text) × Text). (parse_block s ++ r.0, r.1))
        (drain_none f [] (unfold split_block in refl))
    ∙ ap (λ (es : List (Text × Text)). (es, [])) (append-nil (parse_block s))

push_text-block :
    (s : Text)
    → without_cr s ≡ s
    → split_block s ≡ some (s, [])
    → push_text [] s ≡ (parse_block s, [])
unfolding push_text
push_text-block [] clean e = absurd (no_block e)
  where
    no_block : split_block [] ≡ some ([], []) → ⊥
    no_block e = unfold split_block in cc e
push_text-block (c ∷ s) clean e =
    ap (λ (u : Text). drain (length u) u) clean ∙ drain-block (length s) (c ∷ s) e

-- An event sent in the wire format, by a name that is a line and does not begin with white space and
-- at least one line of payload, comes out of an empty parser as that event, with the lines of the
-- payload joined by line feeds, and leaves the buffer empty.
pub push_text-wire :
    (event l : Text) (ls : List Text)
    → IsEventName event
    → All IsLine (l ∷ ls)
    → push_text [] (wire event (l ∷ ls)) ≡ ((event, join (text "\n") (l ∷ ls)) ∷ [], [])
unfolding without_cr
push_text-wire event l ls h k =
    let full = wire_lines-full event (l ∷ ls) h.0 k in
    push_text-block (wire event (l ∷ ls)) (without_cr-unlines (wire_lines event (l ∷ ls)) [] full)
      (split_block-unlines (text "event: " ++ event) (map data_line (l ∷ ls)) [] full)
    ∙ ap (λ (es : List (Text × Text)). (es, [])) (parse_block-wire event l ls h k)
