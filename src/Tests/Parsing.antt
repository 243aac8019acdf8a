-- ===== src/Tests/Parsing.antt =====
-- Runs of the parsers and the formats of internal/common and internal/modules/telegram_bot/util.
use tam_backend.Prelude.{pos, codes, ◌*◌, ◌≡◌, refl, some}
use tam_backend.Common.Prices.{ton, ChannelPrices}
use tam_backend.Bot.Escape.{escape_markdown_v2, plain, plain-escape_markdown_v2}

abbrev two_prices : ChannelPrices
two_prices = record { for_1_24 = pos ton; for_2_48 = pos 0; for_3_72 = pos (5 * ton) }

plain-escape_markdown_v2_example : plain (escape_markdown_v2 (codes "a_b")) ≡ some (codes "a_b")
plain-escape_markdown_v2_example = plain-escape_markdown_v2 (codes "a_b") (refl, (refl, (refl, tt)))
