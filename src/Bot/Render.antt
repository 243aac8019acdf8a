-- ===== src/Bot/Render.antt =====
-- `RenderMarkdownV2` of internal/modules/telegram_bot/util/escape.go (and of its copy in
-- internal/modules/telegram/util). A text is its runes, `string(runes[a:b])` a slice of it; an entity
-- counts in UTF-16 code units. A slice whose end is before its start, and a mention without a user,
-- end the Go function with a panic, which is `none`.
pub mod Offsets
pub mod Contents
pub mod Showing
pub mod Marking
use Prim.Native.String.{String}
use tam_backend.Prelude.{
  ltb, leb, if◌then◌else◌, length, take, drop, ℤ, pos, ◌+ℤ◌, leb_ℤ, Text, codes, ℕ, suc, ◌+◌, ◌-◌,
  ◌*◌, true, false, ◌||◌, Option, none, some, List, [], ◌∷◌, ◌++◌,
}
use tam_backend.Bot.Monitoring.{itoa}
use tam_backend.Bot.Escape.{escape_markdown_v2}

-- `tele.EntityType`, with the fields of the entity that the type needs.
pub data EntityKind : Type 0 where
  bold italic underline strikethrough code_kind code_block url_kind spoiler other_kind : EntityKind
  text_link : Text → EntityKind
  text_mention : Option ℕ → EntityKind
  custom_emoji : Text → EntityKind

-- `tele.MessageEntity`.
pub record Entity : Type 0 where
  pub kind : EntityKind
  pub offset : ℤ
  pub extent : ℤ

-- The UTF-16 code units of a rune.
abbrev pub units : ℕ → ℕ
units r = if leb r 65535 then 1 else 2

-- The loop of `utf16OffsetToRuneIndex` at the rune `i`, which `current` units precede; its two tests
-- are one.
unfoldable pub rune_index : ℤ → ℕ → ℕ → Text → ℕ
rune_index target current i [] = i
rune_index target current i (r ∷ rs) =
    let rest = rune_index target (current + units r) (suc i) rs in
    if leb_ℤ target (pos current) then i else rest

-- `utf16OffsetToRuneIndex`.
abbrev pub utf16_offset_to_rune_index : Text → ℤ → ℕ
utf16_offset_to_rune_index runes target = rune_index target 0 0 runes

-- `processedEntity`.
pub record Span : Type 0 where
  pub span_kind : EntityKind
  pub from : ℕ
  pub to : ℕ

-- The first loop: what starts behind the text is left out.
unfoldable pub process : Text → List Entity → List Span
process runes [] = []
process runes (e ∷ es) =
    let rest = process runes es in
    let a = utf16_offset_to_rune_index runes e.offset in
    let b = utf16_offset_to_rune_index runes (e.offset +ℤ e.extent) in
    if leb (length runes) a
    then rest
    else record {
      span_kind = e.kind;
      from = a;
      to = if ltb (length runes) b then length runes else b;
    }
      ∷ rest

-- What is written: text outside of the entities, or the content of an entity.
pub data Part : Type 0 where
  outside : Text → Part
  inside : EntityKind → Text → Part

-- `runes[a:b]`.
unfoldable pub cut_runes : ℕ → ℕ → Text → Option Text
cut_runes a b s = if leb a b then some (take (b - a) (drop a s)) else none

-- The text up to an entity, if there is any.
abbrev pub gap : ℕ → ℕ → Text → List Part
gap offset from runes =
    if ltb offset from then outside (take (from - offset) (drop offset runes)) ∷ [] else []

abbrev pub prepend : List Part → Option (List Part) → Option (List Part)
prepend ps none = none
prepend ps (some qs) = some (ps ++ qs)

abbrev pub with_content :
    EntityKind → List Part → Option (List Part) → Option Text → Option (List Part)
with_content k before rest none = none
with_content k before rest (some content) = prepend (before ++ (inside k content ∷ [])) rest

-- The second loop, and the text behind the last entity. An entity that starts before the end of the
-- one before it is left out.
unfoldable pub parts : Text → ℕ → List Span → Option (List Part)
parts runes offset [] =
    some (if ltb offset (length runes) then outside (drop offset runes) ∷ [] else [])
parts runes offset (s ∷ ss) = elim (ltb s.from offset) [
  | true ↦ parts runes offset ss
  | false ↦
      with_content s.span_kind (gap offset s.from runes) (parts runes s.to ss)
        (cut_runes s.from s.to runes)
]

abbrev around : String → Text → String → Text
around a t b = codes a ++ (t ++ codes b)

-- The markup of an entity's content.
unfoldable pub mark : EntityKind → Text → Option Text
mark bold t = some (around "*" t "*")
mark italic t = some (around "_" t "_")
mark underline t = some (around "__" t "__")
mark strikethrough t = some (around "~" t "~")
mark code_kind t = some (around "`" t "`")
mark code_block t = some (around "```" t "```")
mark (text_link url) t = some (around "[" t "](" ++ (url ++ codes ")"))
mark url_kind t = some t
mark (text_mention none) t = none
mark (text_mention (some id)) t =
    some (around "[" t "](tg://user?id=" ++ (itoa 20 id [] ++ codes ")"))
mark (custom_emoji id) t = some (around "![" t "](tg://emoji?id=" ++ (id ++ codes ")"))
mark spoiler t = some (around "||" t "||")
mark other_kind t = some t

unfoldable pub write_part : Part → Option Text
write_part (outside t) = some (escape_markdown_v2 t)
write_part (inside k t) = mark k (escape_markdown_v2 t)

abbrev pub append_written : Option Text → Option Text → Option Text
append_written (some s) (some t) = some (s ++ t)
append_written _ _ = none

unfoldable pub write : List Part → Option Text
write [] = some []
write (p ∷ ps) = append_written (write_part p) (write ps)

abbrev pub written : Option (List Part) → Option Text
written none = none
written (some ps) = write ps

-- `RenderMarkdownV2`.
unfoldable pub render_markdown_v2 : Text → List Entity → Option Text
render_markdown_v2 [] es = some []
render_markdown_v2 (r ∷ rs) es = written (parts (r ∷ rs) 0 (process (r ∷ rs) es))
