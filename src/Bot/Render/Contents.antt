-- ===== src/Bot/Render/Contents.antt =====
-- The parts that the rendering of a text cuts it into.
use tam_backend.Prelude.{
  ltb, leb, Bool-cases, length, take, drop, All, pos, ◌+ℤ◌, ◌≤ℤ◌, int_laws, Text, ℕ, zero, suc, ◌+◌,
  ◌-◌, ◌≤◌, ◌≡◌, refl, sym, ap, ◌∙◌, inl, inr, true, Option, some, List, [], ◌∷◌, ◌++◌,
  append_assoc, append-nil, arith,
}
use tam_backend.Bot.Render.{
  EntityKind, Entity, utf16_offset_to_rune_index, Span, process, Part, outside, inside, cut_runes,
  gap, parts,
}
use tam_backend.Bot.Render.Offsets.{rune_index-upper, rune_index_mono}

abbrev pub content : Part → Text
content (outside t) = t
content (inside k t) = t

-- The text that the parts were cut from.
abbrev pub contents : List Part → Text
contents [] = []
contents (p ∷ ps) = content p ++ contents ps

contents-append : (ps qs : List Part) → contents (ps ++ qs) ≡ contents ps ++ contents qs
contents-append [] qs = refl
contents-append (p ∷ ps) qs = simp (contents-append ps qs, append_assoc) refl

take-drop : (m : ℕ) (s : Text) → take m s ++ drop m s ≡ s
take-drop zero s = refl
take-drop (suc m) [] = refl
take-drop (suc m) (c ∷ s) = ap (λ (t : Text). c ∷ t) (take-drop m s)

drop-all : (n : ℕ) (s : Text) → length s ≤ n → drop n s ≡ []
drop-all zero [] h = refl
drop-all zero (c ∷ s) h = ground (arith, h)
drop-all (suc n) [] h = refl
drop-all (suc n) (c ∷ s) h = drop-all n s (omega arith)

-- The text from a place on is the text up to a second place with what is behind that.
glue : (m a b : ℕ) (s : Text) → b ≡ a + m → take m (drop a s) ++ drop b s ≡ drop a s
glue m zero b s h = let same : b ≡ m = omega arith in rw same (take-drop m s)
glue m (suc a) zero s h = ground (arith, h)
glue zero (suc a) (suc b) [] h = refl
glue (suc m) (suc a) (suc b) [] h = refl
glue m (suc a) (suc b) (c ∷ s) h = glue m a b s (omega arith)

-- A part whose mark, if it has one, is of a kind in question.
abbrev pub Marked : (EntityKind → Type 0) → Part → Type 0
Marked K (outside t) = Unit
Marked K (inside k t) = K k

All-append :
    (K : EntityKind → Type 0) (ps qs : List Part)
    → All (Marked K) ps
    → All (Marked K) qs
    → All (Marked K) (ps ++ qs)
All-append K [] qs h k = k
All-append K (p ∷ ps) qs h k = (h.0, All-append K ps qs h.1 k)

gap-Marked :
    (K : EntityKind → Type 0) (offset from : ℕ) (runes : Text)
    → All (Marked K) (gap offset from runes)
gap-Marked K offset from runes = elim (Bool-cases (ltb offset from)) [
  | inl e ↦ rw e (tt, tt)
  | inr e ↦ rw e tt
]

-- A span of the text, of a kind in question.
abbrev pub Fits : (EntityKind → Type 0) → Text → Span → Type 0
Fits K runes s = (s.from ≤ s.to) × (s.to ≤ length runes) × K s.span_kind

-- An entity of a kind in question whose extent is not negative.
abbrev pub IsForward : (EntityKind → Type 0) → Entity → Type 0
IsForward K e = (pos 0 ≤ℤ e.extent) × K e.kind

pub process-Fits :
    (K : EntityKind → Type 0) (runes : Text) (es : List Entity)
    → All (IsForward K) es
    → All (Fits K runes) (process runes es)
unfolding process
process-Fits K runes [] long = tt
process-Fits K runes (e ∷ es) long =
    let a = utf16_offset_to_rune_index runes e.offset in
    let b = utf16_offset_to_rune_index runes (e.offset +ℤ e.extent) in
    let ordered : a ≤ b =
      rune_index_mono e.offset (e.offset +ℤ e.extent) 0 0 runes (grind (int_laws, long.0.0)) in
    let short : b ≤ length runes =
      omega (arith, rune_index-upper (e.offset +ℤ e.extent) 0 0 runes) in
    elim (Bool-cases (leb (length runes) a)) [
      | inl h ↦ rw h (process-Fits K runes es long.1)
      | inr h ↦ elim (Bool-cases (ltb (length runes) b)) [
        | inl k ↦ ground (arith, k, short)
        | inr k ↦ rw (h, k) ((ordered, short, long.0.1), process-Fits K runes es long.1)
      ]
    ]

-- The parts of a text from a place on.
abbrev pub Parted : (EntityKind → Type 0) → Text → Option (List Part) → Type 0
Parted K t r = (ps : List Part) × (r ≡ some ps) × (contents ps ≡ t) × All (Marked K) ps

gap-contents :
    (offset from : ℕ) (runes : Text)
    → offset ≤ from
    → contents (gap offset from runes) ≡ take (from - offset) (drop offset runes)
gap-contents offset from runes h = elim (Bool-cases (ltb offset from)) [
  | inl e ↦ rw e (simp append-nil refl)
  | inr e ↦ let none_left : from - offset ≡ 0 = ground (arith, e) in rw (e, none_left) refl
]

pub parts-Parted :
    (K : EntityKind → Type 0) (runes : Text) (offset : ℕ) (ss : List Span)
    → All (Fits K runes) ss
    → Parted K (drop offset runes) (parts runes offset ss)
unfolding parts cut_runes
parts-Parted K runes offset [] fit = elim (Bool-cases (ltb offset (length runes))) [
  | inl e ↦ rw e (outside (drop offset runes) ∷ [], refl, append-nil (drop offset runes), (tt, tt))
  | inr e ↦ rw e ([], refl, sym (drop-all offset runes (ground (arith, e))), tt)
]
parts-Parted K runes offset (s ∷ ss) fit = elim (Bool-cases (ltb s.from offset)) [
  | inl e ↦ rw (e, parts) (parts-Parted K runes offset ss fit.1)
  | inr e ↦
      let (ps, p, q, known) = parts-Parted K runes s.to ss fit.1 in
      let before = gap offset s.from runes in
      let middle = take (s.to - s.from) (drop s.from runes) in
      let forward : leb s.from s.to ≡ true = ground (arith, fit.0.0) in
      let late : offset ≤ s.from = ground (arith, e) in
      rw (e, forward, p, parts)
        (
          (before ++ (inside s.span_kind middle ∷ [])) ++ ps,
          refl,
          contents-append (before ++ (inside s.span_kind middle ∷ [])) ps
              ∙ rw
                  (
                    q,
                    contents-append before (inside s.span_kind middle ∷ []),
                    gap-contents offset s.from runes late,
                  )
                  (simp (append-nil, append_assoc)
                    (rw
                      (
                        glue (s.to - s.from) s.from s.to runes (omega (arith, fit.0.0)),
                        glue (s.from - offset) offset s.from runes (omega arith),
                      )
                      refl)),
          All-append K (before ++ (inside s.span_kind middle ∷ [])) ps
              (All-append K before (inside s.span_kind middle ∷ [])
                (gap-Marked K offset s.from runes) (fit.0.2, tt))
              known,
        )
]
