-- ===== src/Bot/Publishing.antt =====
-- `handleAutoPost` and `updateDealStatus` of internal/modules/telegram_bot/async.go. The Telegram API
-- is the parameter `post`: the ids of the messages that it makes of a content, or `none` on an error.
pub mod Pictures
use tam_backend.Prelude.{
  ltb, if◌then◌else◌, Text, is_empty, ℕ, Bool, true, false, not, ◌&&◌, Option, none, some, List, [],
  ◌∷◌,
}
use tam_backend.Common.DealStatus.{DealStatus, published, err_publish, err_bad_target}
use tam_backend.Common.TargetType.{add_time, parse_post_duration}
use tam_backend.Common.Errors.{ok, err}
use tam_backend.Storage.Schema.{MediaItem, MsgData, Target, no_msg, Deal, Db}
use tam_backend.Storage.Deals.{update_deal}
use tam_backend.Storage.Views.{DealView, get_deal}

abbrev pub Post : Type 0
Post = MsgData → Option (List ℕ)

abbrev pub no_images : List MediaItem → Bool
no_images [] = true
no_images (i ∷ is) = false

abbrev pub is_blank : MsgData → Bool
is_blank m = is_empty m.message_text && no_images m.message_images

-- The content of a target: its post data, or the map read as post data where that is not blank.
unfoldable pub content_of : Target → MsgData
content_of t =
    if is_blank t.post_data && not (is_blank t.flat_data) then t.flat_data else t.post_data

unfoldable pub insert_item : MediaItem → List MediaItem → List MediaItem
insert_item i [] = i ∷ []
insert_item i (j ∷ js) =
    let rest = insert_item i js in if ltb j.msg_id i.msg_id then j ∷ rest else i ∷ j ∷ js

-- `sort.Slice` by the ids of the messages in which the pictures came.
unfoldable pub sort_items : List MediaItem → List MediaItem
sort_items [] = []
sort_items (i ∷ is) = insert_item i (sort_items is)

abbrev pub in_order : MsgData → MsgData
in_order m = record m { message_images = sort_items m.message_images }

-- `sendContent`: a text alone must not be empty.
unfoldable pub send_content : Post → MsgData → Option (List ℕ)
send_content post m = if is_blank m then none else post (in_order m)

abbrev pub stamped : DealStatus → ℕ → Deal → Deal
stamped s now d = record d { status = s; status_updated_at = now }

-- `updateDealStatus`, which logs an error and goes on.
unfoldable pub update_deal_status : Bool → ℕ → ℕ → DealStatus → Db → Db
update_deal_status up now id s db = record db {
  deals = (update_deal up id (stamped s now) db.deals).1;
}

abbrev pub posted : ℕ → Text → List ℕ → Deal → Deal
posted now target_type ids d = record d {
  status = published;
  status_updated_at = now;
  expires_at = add_time now (parse_post_duration target_type).0;
  channel_post_ids = ids;
}

abbrev pub stored_content : DealView → MsgData
stored_content v = elim v.deal.target [ none ↦ no_msg | some t ↦ content_of t ]

abbrev pub is_readable : DealView → Bool
is_readable v = elim v.deal.target [ none ↦ true | some t ↦ t.well_formed ]

-- What follows the `GetDeal`. A missing channel is a nil dereference, which ends the bot's loop.
unfoldable pub publish_view : Post → ℕ → (ℕ → Bool) → DealView → Db → Db
unfolding content_of send_content update_deal_status
publish_view post now up v db =
    if not (is_readable v)
    then update_deal_status (up 1) now v.deal_id err_bad_target db
    else elim v.channel [
      | none ↦ db
      | some c ↦ elim (send_content post (stored_content v)) [
        | none ↦ update_deal_status (up 1) now v.deal_id err_publish db
        | some ids ↦ record db {
          deals = (update_deal (up 1) v.deal_id (posted now v.deal.target_type ids) db.deals).1;
        }
      ]
    ]

-- `handleAutoPost`.
unfoldable pub handle_auto_post : Post → ℕ → (ℕ → Bool) → ℕ → Db → Db
unfolding publish_view update_deal_status
handle_auto_post post now up id db = elim (get_deal (up 0) id db) [
  | err e ↦ update_deal_status (up 1) now id err_publish db
  | ok v ↦ publish_view post now up v db
]
