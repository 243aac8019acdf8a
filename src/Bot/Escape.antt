-- ===== src/Bot/Escape.antt =====
-- internal/modules/telegram_bot/util/escape.go (and its copy in internal/modules/telegram/util): the
-- escaping of a text for MarkdownV2. A text is its runes.
use tam_backend.Prelude.{
  ◌==◌, if◌then◌else◌, Bool-cases, any, All, Text, codes, ℕ, ◌≡◌, refl, sym, ◌∙◌, inl, inr, Bool,
  true, false, Option, none, some, [], ◌∷◌, arith,
}

-- The characters that `EscapeMarkdownV2` puts a backslash in front of.
abbrev specials : Text
specials = codes "_*[]()~`>#+-=|{}.!"

-- Those of `mdEscaper`, which lacks the asterisk.
abbrev md_escaper_specials : Text
md_escaper_specials = codes "_[]()~`>#+-=|{}.!"

unfoldable pub is_special : ℕ → Bool
is_special c = any (λ d. c == d) specials

is_md_special : ℕ → Bool
is_md_special c = any (λ d. c == d) md_escaper_specials

abbrev pub backslash : ℕ
backslash = 92

-- `Replacer.Replace`, where every old text is one character.
replace_with : (ℕ → Bool) → Text → Text
replace_with special [] = []
replace_with special (c ∷ s) =
    let rest = replace_with special s in if special c then backslash ∷ c ∷ rest else c ∷ rest

-- `EscapeMarkdownV2`.
unfoldable pub escape_markdown_v2 : Text → Text
unfolding replace_with is_special
escape_markdown_v2 s = replace_with is_special s

-- `Escape`.
unfoldable pub escape : Text → Text
unfolding replace_with is_md_special
escape s = replace_with is_md_special s

-- The characters which the Bot API documents as the ones that have to be escaped in MarkdownV2.
unfoldable pub is_reserved : ℕ → Bool
is_reserved c =
    any (λ d. c == d)
      (b'_' ∷ b'*' ∷ b'[' ∷ b']' ∷ b'(' ∷ b')' ∷ b'~' ∷ b'`' ∷ b'>' ∷ b'#' ∷ b'+' ∷ b'-' ∷ b'='
        ∷ b'|' ∷ b'{' ∷ b'}' ∷ b'.' ∷ b'!' ∷ [])

-- How MarkdownV2 reads a text, as the Bot API documents it: a character behind a backslash stands
-- for itself, and a reserved character that has none is markup, for which there is no plain reading.
pub plain : Text → Option Text
unfolding is_reserved
plain [] = some []
plain (c ∷ []) = if is_reserved c then none else some (c ∷ [])
plain (c ∷ d ∷ s) =
    let escaped = plain s in
    let rest = plain (d ∷ s) in
    if c == backslash
    then elim escaped [ none ↦ none | some t ↦ some (d ∷ t) ]
    else if is_reserved c
    then none
    else elim rest [ none ↦ none | some t ↦ some (c ∷ t) ]

abbrev pub Plain : ℕ → Type 0
Plain c = (c == backslash) ≡ false

pub is_special-is_reserved : (c : ℕ) → is_special c ≡ is_reserved c
unfolding is_special is_reserved
is_special-is_reserved c = refl

plain-cons :
    (c : ℕ) (s t : Text)
    → is_reserved c ≡ false
    → Plain c
    → plain s ≡ some t
    → plain (c ∷ s) ≡ some (c ∷ t)
unfolding plain
plain-cons c [] t h k e = ground arith
plain-cons c (d ∷ s) t h k e = ground arith

plain-escaped : (c : ℕ) (s t : Text) → plain s ≡ some t → plain (backslash ∷ c ∷ s) ≡ some (c ∷ t)
unfolding plain
plain-escaped c s t e = ground arith

-- An escaped text is shown as it was: MarkdownV2 reads no markup in it and gives the text back, for
-- every text without a backslash.
pub plain-escape_markdown_v2 : (s : Text) → All Plain s → plain (escape_markdown_v2 s) ≡ some s
unfolding escape_markdown_v2
plain-escape_markdown_v2 [] h = unfold plain in refl
plain-escape_markdown_v2 (c ∷ s) (hc, hs) = elim (Bool-cases (is_special c)) [
  | inl e ↦ rw e (plain-escaped c (escape_markdown_v2 s) s (plain-escape_markdown_v2 s hs))
  | inr e ↦ rw e (
      plain-cons c (escape_markdown_v2 s) s (sym (is_special-is_reserved c) ∙ e) hc
        (plain-escape_markdown_v2 s hs))
]

special-Plain : (c : ℕ) → is_reserved c ≡ true → Plain c
unfolding is_reserved
special-Plain c h = ground arith

plain-special : (c : ℕ) (s : Text) → is_reserved c ≡ true → plain (c ∷ s) ≡ none
unfolding plain
plain-special c [] h = rw h
plain-special c (d ∷ s) h = rw (special-Plain c h, h)

plain-backslash : (c : ℕ) (s : Text) → plain s ≡ none → plain (backslash ∷ c ∷ s) ≡ none
unfolding plain
plain-backslash c s h = ground arith

backslash-unescaped : is_special backslash ≡ false
unfolding is_special
backslash-unescaped = refl

-- A backslash is not escaped, so it disarms the escape of a special character behind it: a text with
-- the two at its front has no plain reading once it is escaped.
pub escape_markdown_v2-backslash :
    (c : ℕ) (s : Text) → is_special c ≡ true → plain (escape_markdown_v2 (backslash ∷ c ∷ s)) ≡ none
unfolding escape_markdown_v2
escape_markdown_v2-backslash c s h = rw h (
    plain-backslash backslash (c ∷ escape_markdown_v2 s)
      (plain-special c (escape_markdown_v2 s) (sym (is_special-is_reserved c) ∙ h)))

asterisk-special : is_reserved b'*' ≡ true
unfolding is_reserved
asterisk-special = refl

-- `Escape` leaves an asterisk as it is, so a text that begins with one has no plain reading once it
-- is escaped.
pub escape_asterisk : (s : Text) → plain (escape (b'*' ∷ s)) ≡ none
unfolding escape
escape_asterisk s = plain-special b'*' (escape s) asterisk-special
