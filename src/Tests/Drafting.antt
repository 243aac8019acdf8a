-- ===== src/Tests/Drafting.antt =====
-- Runs of the drafting of a post and of the chat of internal/modules/telegram_bot.
use mathlib.Core.List.{Permᴰ}
use tam_backend.Prelude.{
  ◌==◌, if◌then◌else◌, lookup, Text, codes, text_eq, ℕ, ◌≡◌, refl, true, some, [], ◌∷◌, map,
}
use tam_backend.Common.DealStatus.{awaiting_publication}
use tam_backend.Common.TargetType.{post_1_24}
use tam_backend.Storage.Schema.{MediaItem}
use tam_backend.Bot.States.{awaiting_post_content, Draft, empty_draft, draft_data, States}
use tam_backend.Bot.Publishing.{Post, sort_items, send_content, posted, handle_auto_post}
use tam_backend.Bot.Publishing.Pictures.{send_content-perm}
use tam_backend.Bot.Drafting.{drafting, Media, set_target, Desk, accept_post}
use tam_backend.Bot.Drafting.Accepting.{state_with, target_after, accept_post-published}
use tam_backend.Bot.Drafting.Albums.{send_all, items, send_all-collects}
use tam_backend.Bot.Dialogs.{in_dialog, text_sent, chat}
use tam_backend.Bot.Dialogs.Isolation.{Isolated, chat-Isolated}
use tam_backend.Tests.{channel_row, deal_in, db_in, all_up}

-- Telegram takes everything.
abbrev any_post : Post
any_post m = some (41 ∷ map (λ (i : MediaItem). i.msg_id) m.message_images)

abbrev new_draft : Draft
new_draft = record empty_draft { text = codes "Buy" }

-- The advertiser still has a draft for a deal that is already approved.
abbrev desk_in : Desk
desk_in = record {
  desk_states = (1, state_with awaiting_post_content 7 new_draft) ∷ [];
  desk_db = db_in awaiting_publication;
}

accept_post-published_example :
    lookup 7
      (handle_auto_post any_post 100 all_up 7
        (accept_post any_post true all_up 1 desk_in).desk_db).deals
    ≡ some (
        posted 100 post_1_24 (41 ∷ []) (
          set_target
            (target_after all_up 7 new_draft (db_in awaiting_publication))
            (deal_in awaiting_publication)))
unfolding send_content sort_items
accept_post-published_example =
    accept_post-published any_post all_up 1 awaiting_post_content 7 new_draft desk_in
      (deal_in awaiting_publication) (41 ∷ []) refl refl refl refl any_post 100 all_up channel_row
      (41 ∷ []) refl refl refl refl

abbrev picture : ℕ → Text → Media
picture n words = record {
  media_item = record { file_id = codes "file"; msg_id = n };
  album = codes "A";
  caption = words;
}

abbrev asked : States
asked = (1, drafting 7 (draft_data new_draft)) ∷ []

send_all-collects_example :
    lookup 1 (send_all any_post 1 (picture 12 (codes "Sale") ∷ picture 11 [] ∷ []) asked)
    ≡ some (
        drafting 7 (
          draft_data (record {
            text = codes "Sale";
            images = items (picture 12 (codes "Sale") ∷ picture 11 [] ∷ []);
            album_id = codes "A";
            preview_ids = [];
          })))
unfolding text_eq
send_all-collects_example =
    send_all-collects any_post 1 7 (codes "A") refl (draft_data new_draft)
      (picture 12 (codes "Sale")) (picture 11 [] ∷ []) asked (refl, (refl, tt)) refl refl

-- The users 1 and 2 are in a dialog about the deal 7.
abbrev talking : Desk
talking = record {
  desk_states = (1, in_dialog 7 1 2) ∷ (2, in_dialog 7 2 1) ∷ [];
  desk_db = db_in awaiting_publication;
}

chat-Isolated_example :
    Isolated 1 talking.desk_states
      (chat any_post all_up true all_up 1 (text_sent (codes "Hello")) talking).desk_states
chat-Isolated_example =
    chat-Isolated any_post all_up true all_up 1 (text_sent (codes "Hello")) talking
      (refl, (refl, tt))

abbrev second_picture : MediaItem
second_picture = record { file_id = codes "two"; msg_id = 12 }

abbrev first_picture : MediaItem
first_picture = record { file_id = codes "one"; msg_id = 11 }

abbrev pictures : ℕ → MediaItem
pictures n = if n == 11 then first_picture else second_picture

send_content-perm_example :
    send_content any_post
      (record { message_text = []; message_images = second_picture ∷ first_picture ∷ [] })
    ≡ send_content any_post
        (record { message_text = []; message_images = first_picture ∷ second_picture ∷ [] })
send_content-perm_example =
    send_content-perm any_post pictures [] (second_picture ∷ first_picture ∷ [])
      (first_picture ∷ second_picture ∷ []) (Permᴰ.swap refl refl) (refl, (refl, tt))
