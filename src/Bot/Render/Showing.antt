-- ===== src/Bot/Render/Showing.antt =====
-- What a rendered text shows of the text it was made from, read as the Bot API documents MarkdownV2.
use tam_backend.Prelude.{◌==◌, All, Text, ℕ, ◌≡◌, true, false, none, [], ◌∷◌}
use tam_backend.Bot.Escape.{backslash, is_reserved}
use tam_backend.Bot.Render.{EntityKind, code_block, text_link, text_mention, custom_emoji}

-- Where a reader of MarkdownV2 stands: in the text, behind a backslash, or in the address of a link.
pub data Place : Type 0 where
  in_text behind_backslash in_address : Place

-- The characters that are shown: one behind a backslash stands for itself, an address in parentheses
-- is not shown, and a reserved character that has no backslash is markup.
unfoldable pub shown : Place → Text → Text
unfolding is_reserved
shown place [] = []
shown behind_backslash (c ∷ s) = c ∷ shown in_text s
shown in_address (c ∷ s) = elim (c == b')') [ true ↦ shown in_text s | false ↦ shown in_address s ]
shown in_text (c ∷ s) = elim (c == backslash) [
  | true ↦ shown behind_backslash s
  | false ↦ elim (c == b'(') [
    | true ↦ shown in_address s
    | false ↦ elim (is_reserved c) [ true ↦ shown in_text s | false ↦ c ∷ shown in_text s ]
  ]
]

-- A character of an address.
abbrev pub InAddress : ℕ → Type 0
InAddress c = (c == b')') ≡ false

-- The kinds whose marks show nothing but the text: an address has no closing parenthesis, a mention
-- has its user, and a block of code, whose first line may be read as a language, is left out.
abbrev pub ShowsText : EntityKind → Type 0
ShowsText (text_link url) = All InAddress url
ShowsText (text_mention none) = ⊥
ShowsText (custom_emoji id) = All InAddress id
ShowsText code_block = ⊥
ShowsText _ = Unit
