-- ===== src/Federation/Sse/Tests.antt =====
-- The parser on the streams of the source's tests, and the theorems at small inputs.
use dockdoe.Prelude.{
  ◌+◌, ◌*◌, ◌≡◌, refl, [], ◌∷◌, ◌++◌, arith, text, split, trim_start, is_whitespace,
}
use dockdoe.Federation.Utf8.{from_utf8_lossy, open_after, replacement}
use dockdoe.Federation.Sse.{push, push_text, parse_block}
use dockdoe.Federation.Sse.Chunks.{push-append, push-split_character, then_from}
use dockdoe.Federation.Sse.Wire.{push_text-wire, wire}

keep_alive_and_event :
    push [] (text ":keep-alive\n\nevent: snapshot\r\ndata: {}\r\n\r\nevent: x")
    ≡ ((text "snapshot", text "{}") ∷ [], text "event: x")
unfolding push from_utf8_lossy parse_block split trim_start is_whitespace
keep_alive_and_event = refl

split_across_chunks :
    push (text "event: snapshot\nda") (text "ta: 1\ndata:2\n\n")
    ≡ ((text "snapshot", text "1\n2") ∷ [], [])
unfolding push from_utf8_lossy parse_block split trim_start is_whitespace
split_across_chunks = refl

push-append_example :
    push [] (text "data: 1\n\nda" ++ text "ta: 2\n\n")
    ≡ then_from (push [] (text "data: 1\n\nda")) (λ left. push left (text "ta: 2\n\n"))
unfolding open_after
push-append_example = push-append [] (text "data: 1\n\nda") (text "ta: 2\n\n") refl

push_text-wire_example :
    push_text [] (wire (text "snapshot") (text "{}" ∷ [])) ≡ ((text "snapshot", text "{}") ∷ [], [])
unfolding trim_start is_whitespace
push_text-wire_example =
    push_text-wire (text "snapshot") (text "{}") [] (omega arith, refl) (omega arith, tt)

push-split_character_example :
    (push [] ((0xc0 + 3) ∷ (0x80 + 41) ∷ []) ≡ ([], (3 * 64 + 41) ∷ []))
    × (then_from (push [] ((0xc0 + 3) ∷ [])) (λ left. push left ((0x80 + 41) ∷ []))
        ≡ ([], replacement ∷ replacement ∷ []))
push-split_character_example = push-split_character 41 3 (omega arith) (omega arith) (omega arith)
