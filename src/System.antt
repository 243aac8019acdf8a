-- ===== src/System.antt =====
-- The whole backend as a system of steps: the requests of internal/modules/server, its periodic
-- jobs, and what the bot of internal/modules/telegram_bot does to deals, in any order. A step is one
-- request, one round of a job or one event of the bot, run to its end; the goroutines that start
-- them are the order of the steps.
pub mod Accounts
pub mod Treasury
pub mod Listings
pub mod Requests
pub mod Rounds
pub mod Conservation
pub mod Addresses
use tam_backend.Prelude.{ℤ, Text, ℕ, Bool, Option, List, [], ◌∷◌}
use tam_backend.Storage.Schema.{Db}
use tam_backend.Server.Outcome.{post, Env, Answers}
use tam_backend.Server.Access.{DealRequest, serve}
use tam_backend.Server.Offer.{OfferDealRequest, offer_deal}
use tam_backend.Server.Jobs.{
  Round, check_and_expire_deals, check_and_publish_deals, check_and_complete_published_deals,
  check_and_refund_terminal_deals,
}
use tam_backend.Bot.Publishing.{Post, handle_auto_post}
use tam_backend.Bot.Monitoring.{
  Served, handle_bot_removed_from_chat, on_channel_post, check_published_posts,
}

pub data Action : Type 0 where
  request : (Text → Option ℕ) → Env → Answers → DealRequest → Action
  offer : ℕ → Answers → ℕ → Option ℕ → Option OfferDealRequest → Action
  expire_round complete_round publish_round refund_round : Round → Action
  auto_posting : Post → ℕ → (ℕ → Bool) → ℕ → Action
  removal : Bool → Bool → Bool → Served → ℕ → ℤ → Action
  channel_message : Served → ℕ → ℕ → ℕ → Action
  monitoring : (Text → ℕ → Option Text) → Bool → Served → ℕ → Action

pub step : Action → Db → Db
step (request validate_jwt env up req) db = (serve validate_jwt env up req db).db
step (offer now up id user body) db = (offer_deal now up id user body db).db
step (expire_round r) db = (check_and_expire_deals r db).0
step (complete_round r) db = (check_and_complete_published_deals r db).0
step (publish_round r) db = (check_and_publish_deals r db).0
step (refund_round r) db = (check_and_refund_terminal_deals r db).0
step (auto_posting publish now up id) db = handle_auto_post publish now up id db
step (removal find_up channel_up fetch_up up now chat) db =
    handle_bot_removed_from_chat find_up channel_up fetch_up up now chat db
step (channel_message up now channel msg) db = on_channel_post up now channel msg db
step (monitoring fetch fetch_up up now) db = check_published_posts fetch fetch_up up now db

pub run : List Action → Db → Db
run [] db = db
run (a ∷ rest_of) db = run rest_of (step a db)
