-- ===== src/Tests/Lists.antt =====
-- Runs of the paginated lists and of the rendering of a text with entities.
use mathlib.Core.List.{Permᴰ}
use tam_backend.Prelude.{
  ◌==◌, any, pos, Text, codes, ℕ, ◌≡◌, refl, inr, true, ◌&&◌, some, List, [], ◌∷◌, ◌++◌, arith,
}
use tam_backend.Common.DealStatus.{draft, canceled}
use tam_backend.Storage.Schema.{Db}
use tam_backend.Common.Errors.{ok}
use tam_backend.Server.Briefs.{
  BriefTables, add_brief, add_brief_customer, get_brief, list_briefs, get_customer_briefs,
}
use tam_backend.Server.Briefs.Unlisted.{add_brief-unlisted}
use tam_backend.Server.Lists.{SortBy}
use tam_backend.Server.Lists.Pages.{deal_pages, deal_pages-perm}
use tam_backend.Bot.Escape.{escape_markdown_v2}
use tam_backend.Bot.Render.{bold, italic, text_link, Entity, mark, render_markdown_v2}
use tam_backend.Bot.Render.Marking.{over, render_markdown_v2-over}
use tam_backend.StatsBot.Languages.{
  word, number, other_value, GraphData, sum_cells, read_column, read_columns, total_of,
  column_stats, parse_languages_stats,
}
use tam_backend.StatsBot.Languages.Shares.{ratios, Shared, parse_languages_stats-Shared}
use tam_backend.Tests.{deal_in, db_in, all_up}

-- A second deal of the advertiser, and one of other customers.
abbrev three_deals : Db
three_deals = record (db_in draft) {
  deals =
      (7, deal_in draft)
      ∷ (8, record (deal_in draft) { advertiser_customer_id = 3; channel_manager_id = 4 })
      ∷ (9, deal_in canceled)
      ∷ [];
}

-- The later row first, for two rows.
abbrev swapped {ℓ} : {A : Type ℓ} → List A → List A
swapped (a ∷ b ∷ []) = b ∷ a ∷ []
swapped xs = xs

abbrev newest_first {ℓ} : {A : Type ℓ} → SortBy A
newest_first order rows = swapped rows

deal_pages-perm_example :
    Permᴰ
      (deal_pages newest_first 1 2 1 (codes "DESC") three_deals)
      ((7, deal_in draft) ∷ (9, deal_in canceled) ∷ [])
deal_pages-perm_example =
    deal_pages-perm 1 (codes "DESC") three_deals (omega arith) (omega arith) (inr refl) 2
      (omega arith) newest_first 1 (Permᴰ.swap refl refl) (omega arith)

-- A text with a rune of two code units, and an entity behind it.
abbrev smile : Text
smile = 128512 ∷ []

abbrev bold_word : Entity
bold_word = over bold smile (codes "a.b")

render_markdown_v2-over_example :
    render_markdown_v2 (smile ++ (codes "a.b" ++ codes "!")) (bold_word ∷ [])
    ≡ some (128512 ∷ codes "*a\\.b*\\!")
unfolding mark escape_markdown_v2
render_markdown_v2-over_example =
    render_markdown_v2-over bold smile (codes "a.b") (codes "!") (codes "*a\\.b*") refl refl

-- The second entity starts in the first one.
abbrev overlapping : List Entity
overlapping =
    record { kind = italic; offset = pos 0; extent = pos 3 }
    ∷ record { kind = text_link (codes "https://t.me"); offset = pos 1; extent = pos 9 }
    ∷ []

-- Two languages, of which one has a name, with the column of the dates.
abbrev two_languages : GraphData
two_languages = record {
  columns =
      (word (codes "x") ∷ number 1769900400 ∷ [])
      ∷ (word (codes "y0") ∷ number 2 ∷ other_value ∷ [])
      ∷ (word (codes "y1") ∷ number 1 ∷ [])
      ∷ [];
  names = (codes "y0", codes "English") ∷ [];
}

parse_languages_stats-Shared_example :
    Shared (2 ∷ 1 ∷ []) (parse_languages_stats (some two_languages))
parse_languages_stats-Shared_example = parse_languages_stats-Shared (some two_languages)

half_shares : ratios (parse_languages_stats (some two_languages)) ≡ 9999
unfolding parse_languages_stats column_stats total_of read_columns read_column sum_cells
half_shares = refl

abbrev no_briefs : BriefTables
no_briefs = record { briefs = []; customer_briefs = [] }

-- The brief 6, listed when there is a second one.
abbrev two_briefs : BriefTables
two_briefs = record {
  briefs = 7 ∷ 6 ∷ [];
  customer_briefs =
      record { of_customer = 1; of_brief = 7 } ∷ record { of_customer = 1; of_brief = 6 } ∷ [];
}

add_brief-unlisted_example :
    let t' = (add_brief all_up 6 (some 1) (db_in draft).customers no_briefs).1 in
    (any (λ l. 1 == l.of_customer && 6 == l.of_brief) t'.customer_briefs ≡ true)
    × (get_brief (λ n. true) (some 6) t' ≡ ok 6)
    × ◌≡◌ {A = List ℕ} [] []
unfolding add_brief add_brief_customer list_briefs get_customer_briefs
add_brief-unlisted_example =
    add_brief-unlisted all_up all_up 6 1 6 (db_in draft).customers (db_in canceled).customers
      no_briefs two_briefs [] refl refl
