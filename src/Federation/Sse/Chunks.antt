-- ===== src/Federation/Sse/Chunks.antt =====
-- However the stream is cut into chunks, the events are the same.
use dockdoe.Prelude.{
  ℕ, zero, suc, ◌+◌, ◌*◌, ◌≤◌, ◌<◌, ◌≡◌, refl, sym, ap, ◌∙◌, Bool, not, none, some, List, [], ◌∷◌,
  ◌++◌, ◌==◌, nat_eq, Text, text_eq, select, length, arith, append_assoc, Option-cases, inl, inr,
  length-append,
}
use dockdoe.Federation.Utf8.{
  from_utf8_lossy, from_utf8_lossy-append, open_after, replacement, two_bytes,
}
use dockdoe.Federation.Sse.{split_block, parse_block, drain, without_cr, push_text, push}

-- A block is found again when more text has arrived, with that text behind the rest.
split_block-append :
    (s t block rest : Text)
    → split_block s ≡ some (block, rest)
    → split_block (s ++ t) ≡ some (block, rest ++ t)
unfolding split_block
split_block-append [] t block rest h = cc
split_block-append (c ∷ []) t block rest h = cc
split_block-append (c ∷ d ∷ s) t block rest h = elim (Option-cases (split_block (d ∷ s))) [
  | inl e ↦ ground arith
  | inr ((b, r), e) ↦ ground (arith, split_block-append (d ∷ s) t b r e)
]

split_block-length :
    (s block rest : Text) → split_block s ≡ some (block, rest) → length rest + 2 ≤ length s
unfolding split_block
split_block-length [] block rest h = cc
split_block-length (c ∷ []) block rest h = cc
split_block-length (c ∷ d ∷ s) block rest h = elim (Option-cases (split_block (d ∷ s))) [
  | inl e ↦ ground arith
  | inr ((b, r), e) ↦ ground (arith, split_block-length (d ∷ s) b r e)
]

-- A round for each character is more than enough.
drain_fuel : (f g : ℕ) (s : Text) → length s ≤ f → length s ≤ g → drain f s ≡ drain g s
unfolding drain split_block
drain_fuel zero zero s h k = refl
drain_fuel zero (suc g) [] h k = refl
drain_fuel zero (suc g) (c ∷ s) h k = absurd (omega arith)
drain_fuel (suc f) zero [] h k = refl
drain_fuel (suc f) zero (c ∷ s) h k = absurd (omega arith)
drain_fuel (suc f) (suc g) s h k = elim (Option-cases (split_block s)) [
  | inl e ↦ rw (e, drain) refl
  | inr ((block, rest), e) ↦
      let shorter = split_block-length s block rest e in
      rw (e, drain)
        (ap (λ (r : List (Text × Text) × Text). (parse_block block ++ r.0, r.1))
          (drain_fuel f g rest (omega arith) (omega arith)))
]

abbrev pub then_from :
    List (Text × Text) × Text → (Text → List (Text × Text) × Text) → List (Text × Text) × Text
then_from (events, left) k = let (more, last) = k left in (events ++ more, last)

left-length : (f : ℕ) (s : Text) → length (drain f s).1 ≤ length s
unfolding drain
left-length zero s = omega arith
left-length (suc f) s = elim (Option-cases (split_block s)) [
  | inl e ↦ rw (e, drain) (omega arith)
  | inr ((block, rest), e) ↦
      rw (e, drain) (omega (arith, split_block-length s block rest e, left-length f rest))
]

-- One block more before the events of a drain.
abbrev pub after_block : Text → List (Text × Text) × Text → List (Text × Text) × Text
after_block block (events, left) = (parse_block block ++ events, left)

pub drain-some :
    (f : ℕ) (s block rest : Text)
    → split_block s ≡ some (block, rest)
    → drain (suc f) s ≡ after_block block (drain f rest)
unfolding drain
drain-some f s block rest e = rw (e, drain) refl

pub drain_none : (f : ℕ) (s : Text) → split_block s ≡ none → drain f s ≡ ([], s)
unfolding drain
drain_none zero s e = refl
drain_none (suc f) s e = rw (e, drain) refl

after_block-then_from :
    (block : Text) (r : List (Text × Text) × Text) (k : Text → List (Text × Text) × Text)
    → after_block block (then_from r k) ≡ then_from (after_block block r) k
after_block-then_from block r k =
    ap (λ (es : List (Text × Text)). (es, (k r.1).1))
      (sym (append_assoc (parse_block block) r.0 (k r.1).0))

drain_step :
    (g f h : ℕ) (s t block rest : Text)
    → split_block s ≡ some (block, rest)
    → drain f (rest ++ t) ≡ then_from (drain g rest) (λ left. drain h (left ++ t))
    → drain (suc f) (s ++ t) ≡ then_from (drain (suc g) s) (λ left. drain h (left ++ t))
drain_step g f h s t block rest e ih =
    drain-some f (s ++ t) block (rest ++ t) (split_block-append s t block rest e)
    ∙ ap (after_block block) ih
    ∙ after_block-then_from block (drain g rest) (λ left. drain h (left ++ t))
    ∙ ap (λ r. then_from r (λ left. drain h (left ++ t))) (sym (drain-some g s block rest e))

drain-append :
    (g f h : ℕ) (s t : Text)
    → length s + length t ≤ f
    → length s ≤ g
    → length s + length t ≤ h
    → drain f (s ++ t) ≡ then_from (drain g s) (λ left. drain h (left ++ t))
unfolding split_block
drain-append zero f h [] t p q r =
    drain_fuel f h t (omega arith) (omega arith)
    ∙ sym (ap (λ d. then_from d (λ left. drain h (left ++ t))) (drain_none zero [] refl))
drain-append zero f h (c ∷ s) t p q r = absurd (omega arith)
drain-append (suc g) zero h [] t p q r =
    drain_fuel zero h t (omega arith) (omega arith)
    ∙ sym (ap (λ d. then_from d (λ left. drain h (left ++ t))) (drain_none (suc g) [] refl))
drain-append (suc g) zero h (c ∷ s) t p q r = absurd (omega arith)
drain-append (suc g) (suc f) h s t p q r = elim (Option-cases (split_block s)) [
  | inl e ↦
      drain_fuel (suc f) h (s ++ t) (omega (arith, length-append s t))
        (omega (arith, length-append s t))
      ∙ sym (ap (λ d. then_from d (λ left. drain h (left ++ t))) (drain_none (suc g) s e))
  | inr ((block, rest), e) ↦
      let shorter = split_block-length s block rest e in
      drain_step g f h s t block rest e
        (drain-append g f h rest t (omega arith) (omega arith) (omega arith))
]

select-append : (p : ℕ → Bool) (a b : Text) → select p (a ++ b) ≡ select p a ++ select p b
select-append p [] b = refl
select-append p (c ∷ a) b = ground (arith, select-append p a b)

-- Text that arrives in two parts gives the events of the whole, in order, and the same buffer.
pub push_text-append :
    (buf a b : Text)
    → push_text buf (a ++ b) ≡ then_from (push_text buf a) (λ left. push_text left b)
unfolding push_text without_cr
push_text-append buf a b =
    let s = buf ++ without_cr a in
    let t = without_cr b in
    let whole : buf ++ without_cr (a ++ b) ≡ s ++ t =
      ap (λ u. buf ++ u) (select-append (λ c. not (c == b'\r')) a b)
      ∙ sym (append_assoc buf (without_cr a) t) in
    let size = length s + length t in
    let left_part = left-length (length s) s in
    let left = (drain (length s) s).1 in
    ap (λ u. drain (length u) u) whole
    ∙ drain-append (length s) (length (s ++ t)) size s t (omega (arith, length-append s t))
        (omega arith) (omega arith)
    ∙ ap (λ r. then_from (drain (length s) s) (λ _. r))
        (drain_fuel size (length (left ++ t)) (left ++ t) (omega (arith, length-append left t))
          (omega arith))

-- Bytes pushed in two parts give the events and the buffer that they give when pushed at once,
-- provided that the first part ends with a whole character.
pub push-append :
    (buf : Text) (a b : List ℕ)
    → open_after none a ≡ none
    → push buf (a ++ b) ≡ then_from (push buf a) (λ left. push left b)
unfolding push
push-append buf a b h =
    ap (push_text buf) (from_utf8_lossy-append a b h)
    ∙ push_text-append buf (from_utf8_lossy a) (from_utf8_lossy b)

-- The loop has taken every complete block: what it leaves in the buffer holds none.
drain-left : (f : ℕ) (s : Text) → length s ≤ f → split_block (drain f s).1 ≡ none
unfolding split_block
drain-left zero [] h = unfold drain in refl
drain-left zero (c ∷ s) h = absurd (omega arith)
drain-left (suc f) s h = elim (Option-cases (split_block s)) [
  | inl e ↦ rw (drain_none (suc f) s e) e
  | inr ((block, rest), e) ↦
      rw (drain-some f s block rest e)
        (drain-left f rest (omega (arith, split_block-length s block rest e)))
]

-- After a push no complete event is left in the buffer.
pub push_text-left : (buf s : Text) → split_block (push_text buf s).1 ≡ none
unfolding push_text without_cr
push_text-left buf s = drain-left (length (buf ++ without_cr s)) (buf ++ without_cr s) (omega arith)

push_text-one : (c : ℕ) → 128 ≤ c → push_text [] (c ∷ []) ≡ ([], c ∷ [])
unfolding push_text drain split_block without_cr
push_text-one c h = ground arith

push_text-second : (c d : ℕ) → 128 ≤ c → 128 ≤ d → push_text (c ∷ []) (d ∷ []) ≡ ([], c ∷ d ∷ [])
unfolding push_text drain split_block without_cr
push_text-second c d h k = ground arith

-- A character of two bytes reaches the buffer if its bytes arrive together; if a chunk ends between
-- them, two replacement characters stand in its place.
pub push-split_character :
    (lo hi : ℕ)
    → 2 ≤ hi
    → hi < 32
    → lo < 64
    → (push [] ((0xc0 + hi) ∷ (0x80 + lo) ∷ []) ≡ ([], (hi * 64 + lo) ∷ []))
      × (then_from (push [] ((0xc0 + hi) ∷ [])) (λ left. push left ((0x80 + lo) ∷ []))
          ≡ ([], replacement ∷ replacement ∷ []))
unfolding push
push-split_character lo hi h k l =
    let (whole, lone_hi, lone_lo) = two_bytes lo hi h k l in
    (
      ap (push_text []) whole ∙ push_text-one (hi * 64 + lo) (omega arith),
      rw (lone_hi, lone_lo) (unfold push_text drain split_block without_cr in refl),
    )
