-- ===== src/Bot/Render/Marking.antt =====
-- The markup of one entity.
use tam_backend.Prelude.{
  ltb, leb, Bool-cases, Option-cases, length, take, drop, length-append, pos, ◌+ℤ◌, int_laws, Text,
  is_empty, ℕ, suc, ◌+◌, ◌-◌, ◌≤◌, ◌≡◌, refl, sym, ap, ◌∙◌, inl, inr, true, false, Option, none,
  some, List, [], ◌∷◌, ◌++◌, append_assoc, append-nil, arith,
}
use tam_backend.Bot.Escape.{escape_markdown_v2}
use tam_backend.Bot.Render.{
  EntityKind, Entity, utf16_offset_to_rune_index, process, Part, inside, cut_runes, gap, prepend,
  parts, mark, write_part, append_written, write, written, render_markdown_v2,
}
use tam_backend.Bot.Render.Offsets.{
  utf16_length, utf16_offset_to_rune_index-append, utf16_length-append,
}

drop-append : (a x : Text) → drop (length a) (a ++ x) ≡ x
drop-append [] x = refl
drop-append (c ∷ a) x = drop-append a x

take-append : (a x : Text) → take (length a) (a ++ x) ≡ a
take-append [] x = refl
take-append (c ∷ a) x = ap (λ (t : Text). c ∷ t) (take-append a x)

pos_sum : (x y : ℕ) → pos x +ℤ pos y ≡ pos (x + y)
pos_sum x y = grind int_laws

visible-length : (m : Text) → is_empty m ≡ false → 1 ≤ length m
visible-length [] h = ground (arith, h)
visible-length (c ∷ m) h = omega arith

-- An entity over the part `m` of a text.
abbrev pub over : EntityKind → Text → Text → Entity
over k a m = record { kind = k; offset = pos (utf16_length a); extent = pos (utf16_length m) }

module _ (k : EntityKind) (a m b : Text) (visible : is_empty m ≡ false) where
  end_index :
      utf16_offset_to_rune_index (a ++ (m ++ b)) (pos (utf16_length a) +ℤ pos (utf16_length m))
      ≡ length a + length m
  end_index =
      rw
        (
          pos_sum (utf16_length a) (utf16_length m),
          sym (utf16_length-append a m),
          sym (append_assoc a m b),
        )
        (utf16_offset_to_rune_index-append (a ++ m) b ∙ length-append a m)

  process-over :
      process (a ++ (m ++ b)) (over k a m ∷ [])
      ≡ record { span_kind = k; from = length a; to = length a + length m } ∷ []
  unfolding process
  process-over =
      let size = length-append a (m ++ b) in
      let size_rest = length-append m b in
      let some_left = visible-length m visible in
      let behind : leb (length (a ++ (m ++ b))) (length a) ≡ false =
        ground (arith, size, size_rest, some_left) in
      let within : ltb (length (a ++ (m ++ b))) (length a + length m) ≡ false =
        ground (arith, size, size_rest) in
      rw (utf16_offset_to_rune_index-append a (m ++ b), end_index) (rw (behind, within) refl)

no-length : (b : Text) → length b ≡ 0 → b ≡ []
no-length [] h = refl
no-length (c ∷ b) h = ground (arith, h)

-- The text before an entity, and what follows.
write-gap :
    (a x : Text) (ps : List Part)
    → write (gap 0 (length a) (a ++ x) ++ ps)
      ≡ append_written (some (escape_markdown_v2 a)) (write ps)
unfolding write write_part
write-gap [] x ps = elim (Option-cases (write ps)) [
  | inl e ↦ rw e refl
  | inr (t, e) ↦ rw e (unfold escape_markdown_v2 in refl)
]
write-gap (c ∷ a) x ps =
    let whole : suc (length a) - 0 ≡ suc (length a) = omega arith in
    let there : ltb 0 (suc (length a)) ≡ true = ground arith in
    rw (whole, take-append a x, there) refl

-- The text behind the last entity.
write-tail : (a b : Text) → written (parts (a ++ b) (length a) []) ≡ some (escape_markdown_v2 b)
unfolding parts write write_part
write-tail a b = elim (Bool-cases (ltb (length a) (length (a ++ b)))) [
  | inl e ↦ rw (e, drop-append a b) (rw (append-nil (escape_markdown_v2 b)) refl)
  | inr e ↦
      let size = length-append a b in
      let nothing : b ≡ [] = no-length b (ground (arith, e, size)) in
      rw (e, nothing) (unfold escape_markdown_v2 in refl)
]

written-marked :
    (k : EntityKind) (a x m w out : Text) (r : Option (List Part))
    → mark k (escape_markdown_v2 m) ≡ some w
    → written r ≡ some out
    → written (prepend (gap 0 (length a) (a ++ x) ++ (inside k m ∷ [])) r)
      ≡ some (escape_markdown_v2 a ++ (w ++ out))
unfolding write write_part
written-marked k a x m w out none marked h = cc
written-marked k a x m w out (some qs) marked h =
    rw
      (
        append_assoc (gap 0 (length a) (a ++ x)) (inside k m ∷ []) qs,
        write-gap a x (inside k m ∷ qs),
      )
      (rw (marked, h) refl)

cut_runes-over :
    (a m b : Text) → cut_runes (length a) (length a + length m) (a ++ (m ++ b)) ≡ some m
unfolding cut_runes
cut_runes-over a m b =
    let forward : leb (length a) (length a + length m) ≡ true = ground arith in
    let size : length a + length m - length a ≡ length m = omega arith in
    rw (forward, size, drop-append a (m ++ b), take-append m b) refl

tail-over :
    (a m b : Text)
    → written (parts (a ++ (m ++ b)) (length a + length m) []) ≡ some (escape_markdown_v2 b)
tail-over a m b = rw (sym (append_assoc a m b), sym (length-append a m)) (write-tail (a ++ m) b)

render-visible :
    (a m b : Text) (es : List Entity)
    → is_empty m ≡ false
    → render_markdown_v2 (a ++ (m ++ b)) es
      ≡ written (parts (a ++ (m ++ b)) 0 (process (a ++ (m ++ b)) es))
unfolding render_markdown_v2
render-visible [] [] b es h = cc
render-visible [] (c ∷ m) b es h = refl
render-visible (c ∷ a) m b es h = refl

-- An entity over a visible part of a text, given by Telegram in UTF-16 code units, marks exactly this
-- part: the text before it and the text behind it are escaped, and its own escaped text is marked.
pub render_markdown_v2-over :
    (k : EntityKind) (a m b w : Text)
    → is_empty m ≡ false
    → mark k (escape_markdown_v2 m) ≡ some w
    → render_markdown_v2 (a ++ (m ++ b)) (over k a m ∷ [])
      ≡ some (escape_markdown_v2 a ++ (w ++ escape_markdown_v2 b))
unfolding parts
render_markdown_v2-over k a m b w visible marked =
    let first : ltb (length a) 0 ≡ false = ground arith in
    rw (render-visible a m b (over k a m ∷ []) visible, process-over k a m b visible)
      (rw (first, cut_runes-over a m b, parts)
        (written-marked k a (m ++ b) m w (escape_markdown_v2 b)
          (parts (a ++ (m ++ b)) (length a + length m) []) marked (tail-over a m b)))
