-- ===== src/Tests/Channels.antt =====
-- Runs of the statistics bot and of the channel routes.
use tam_backend.Prelude.{
  length, all, pos, ◌+ℤ◌, lookup, modify, codes, text_eq, ℕ, ◌≤◌, ◌≡◌, refl, ◌≢◌, ◌⊎◌, true, false,
  none, some, [], ◌∷◌, arith,
}
use tam_backend.Server.ChannelData.Access.{MayChange, Refused, serve_channel-MayChange}
use tam_backend.Server.Channels.Creation.{Created, add_channel-Created}
use tam_backend.Tests.{advertiser_row, channel_row, db_in, all_up, jwt, bearer_header}
use tam_backend.Server.ChannelData.Deleting.{delete_channel_handler-deals}
use tam_backend.Server.ChannelData.Providing.{IsAskable, described, provide_channel_data-success}
use tam_backend.Server.Channels.Again.{add_channel-again}
use tam_backend.Server.ChannelData.{
  Catalogue, is_valid_tag, is_valid_language, ProvideRequest, valid_request, is_awaiting_data,
  with_channel, provide_channel_data, delete_channel_handler, delete_route, serve_channel,
}
use tam_backend.Server.Outcome.{success, Outcome, refuse, reply_with}
use tam_backend.Storage.Channels.{
  channel_by_tg_id, get_channel_by_tg_id, create_channel, update_channel, add_customer_channel,
  keep_rows, delete_channel,
}
use tam_backend.Storage.Views.{get_channel}
use tam_backend.Common.Prices.{validate_price, validate_prices}
use tam_backend.Common.DealStatus.{draft, pending}
use tam_backend.Common.Datetime.{trim_space}
use tam_backend.Common.Errors.{internal_error, ok}
use tam_backend.Storage.Schema.{awaiting_data, Channel, admin, Deal, Db}
use tam_backend.StatsBot.Median.{insert, sort, nth, middle, calculate_median}
use tam_backend.StatsBot.Median.Halves.{Halves, calculate_median-Halves}
use tam_backend.StatsBot.Validation.{
  AdminRights, creator, admin, extract_admin_info, creator_role, user_role, check_bot,
  check_configured, Bots, check_bots, validate_channel_access, TgChannel, validate_channel_type,
  validate_channel_is_public, validate_channel_requirements,
}
use tam_backend.StatsBot.Channel.{
  chat_channel, other_chat, TgClient, first_channel, resolve_channel_username, history_of,
  AddChannelResponse, extract_basic_info, get_first_post_info, get_recent_posts_stats,
  get_broadcast_stats, fill_stats, with_role, with_full, get_channel_stats,
}
use tam_backend.StatsBot.Channel.Access.{Accepted, get_channel_stats-Accepted}
use tam_backend.Server.Channels.{
  cut_prefix, after_first, before_first, parse_channel_username, channel_tg_id, new_channel,
  add_new_channel, with_existing, with_stats, add_channel,
}

calculate_median-Halves_example :
    Halves
      (calculate_median (pos 7 ∷ pos 1 ∷ pos 4 ∷ pos 2 ∷ []))
      (pos 7 ∷ pos 1 ∷ pos 4 ∷ pos 2 ∷ [])
calculate_median-Halves_example =
    calculate_median-Halves (pos 7) (pos 1 ∷ pos 4 ∷ pos 2 ∷ []) (omega arith)

median_of_four : calculate_median (pos 7 ∷ pos 1 ∷ pos 4 ∷ pos 2 ∷ []) ≡ pos 3
unfolding calculate_median middle sort insert nth ◌+ℤ◌
median_of_four = refl

abbrev some_channel : TgChannel
some_channel = record {
  id = 77;
  username = codes "daily";
  title = codes "Daily";
  gigagroup = false;
  forum = false;
  megagroup = false;
  broadcast = true;
}

abbrev full_rights : AdminRights
full_rights = record { post_messages = true; edit_messages = true; delete_messages = true }

-- A channel of customer 1 with the bots 90 and 91 as admins.
abbrev telegram : TgClient
telegram = record {
  resolve_username = λ name. some (chat_channel some_channel ∷ []);
  get_full = λ input. some (record {
    full_chat =
        some (record { full_about = []; participants_count = pos 60; can_view_stats = true });
    chats = other_chat ∷ chat_channel some_channel ∷ [];
  });
  get_admins = λ input. some (creator 1 ∷ admin 90 full_rights ∷ admin 91 full_rights ∷ []);
  get_history = λ input limit offset added. none;
  get_followers = λ input. some (pos 61);
}

abbrev bots : Bots
bots = record { bot_id = 90; user_bot_id = 91 }

abbrev stats_of_daily : AddChannelResponse
stats_of_daily = record {
  role = creator_role;
  tg_id = 77;
  tg_username = codes "daily";
  tg_title = codes "Daily";
  about = [];
  subscribers = pos 61;
  first_post = pos 0;
  total_posts = pos 0;
  recent = none;
  stats_available = true;
}

daily_stats :
    get_channel_stats bots telegram (parse_channel_username (codes "@daily")) 1 ≡ ok stats_of_daily
unfolding get_channel_stats resolve_channel_username first_channel with_full with_role
    validate_channel_access validate_channel_requirements validate_channel_type
    validate_channel_is_public extract_admin_info user_role check_bots check_configured check_bot
    extract_basic_info fill_stats get_first_post_info get_recent_posts_stats get_broadcast_stats
    history_of
daily_stats = refl

get_channel_stats-Accepted_example :
    Accepted bots telegram (parse_channel_username (codes "@daily")) 1 stats_of_daily
get_channel_stats-Accepted_example =
    get_channel_stats-Accepted bots telegram (parse_channel_username (codes "@daily")) 1
      stats_of_daily daily_stats

parsed_username : parse_channel_username (codes " https://t.me/@daily/12 ") ≡ codes "daily"
unfolding parse_channel_username after_first before_first cut_prefix trim_space
parsed_username = refl

-- The database without the first channel, where customer 1 adds the channel with the key 8.
abbrev daily_added : Outcome
daily_added = add_channel bots telegram all_up 8 1 (some (codes "@daily")) (db_in draft)

daily_created : daily_added.reply ≡ success 201
unfolding add_channel get_channel_stats resolve_channel_username first_channel with_full with_role
    validate_channel_access validate_channel_requirements validate_channel_type
    validate_channel_is_public extract_admin_info user_role check_bots check_configured check_bot
    extract_basic_info fill_stats get_first_post_info get_recent_posts_stats get_broadcast_stats
    history_of with_stats get_channel_by_tg_id channel_by_tg_id with_existing add_new_channel
    create_channel add_customer_channel
daily_created = refl

add_channel-Created_example :
    Created bots telegram 8 1 (some (codes "@daily")) (db_in draft) daily_added
add_channel-Created_example =
    add_channel-Created bots telegram all_up 8 1 (some (codes "@daily")) (db_in draft) daily_created

abbrev data_request : ProvideRequest
data_request = record {
  channel = 5;
  description = codes "News";
  tags = codes "crypto" ∷ [];
  language = codes "en";
  prices = record { for_1_24 = pos 2000000000; for_2_48 = pos 0; for_3_72 = pos 5000000000 };
}

-- Some time later, with the created channel, which has been described meanwhile, and without deals.
abbrev daily_later : Db
daily_later = record (db_in draft) {
  deals = [];
  channels = (8, described data_request (new_channel stats_of_daily)) ∷ (db_in draft).channels;
}

new_row :
    channel_by_tg_id (channel_tg_id 77) daily_later.channels
    ≡ some (8, described data_request (new_channel stats_of_daily))
unfolding channel_by_tg_id
new_row = refl

no_bare_row : channel_by_tg_id (pos 77) daily_later.channels ≡ none
unfolding channel_by_tg_id
no_bare_row = refl

add_channel-again_example :
    (channel_by_tg_id (channel_tg_id 77) daily_added.db.channels
      ≡ some (8, new_channel stats_of_daily))
    × (channel_by_tg_id (pos 77) daily_added.db.channels ≡ none)
    × (add_channel bots telegram all_up 9 1 (some (codes "@daily")) daily_later
        ≡ refuse internal_error daily_later)
add_channel-again_example =
    add_channel-again bots telegram all_up 8 1 (codes "@daily") advertiser_row stats_of_daily
      (db_in draft) refl daily_stats daily_created daily_later
      (8, described data_request (new_channel stats_of_daily)) telegram all_up 9 1 (codes "@daily")
      advertiser_row stats_of_daily new_row no_bare_row refl refl daily_stats refl

-- The channel 5 waits for its data.
abbrev waiting_db : Db
waiting_db = record (db_in draft) {
  channels = (5, record channel_row { status = awaiting_data; is_listed = false }) ∷ [];
}

abbrev catalogue : Catalogue
catalogue = record { tag_ids = codes "crypto" ∷ []; language_codes = codes "en" ∷ [] }

abbrev provided : Outcome
provided = provide_channel_data catalogue all_up data_request waiting_db

data_accepted : provided.reply ≡ success 200
unfolding provide_channel_data with_channel get_channel is_awaiting_data valid_request
    validate_prices validate_price update_channel text_eq
data_accepted = refl

abbrev provided_row : Channel
provided_row = record channel_row { status = awaiting_data; is_listed = false }

provide_channel_data-success_example :
    (c : Channel) × (lookup 5 waiting_db.channels ≡ some c)
    × (c.status ≡ awaiting_data)
    × (length data_request.description ≤ 400)
    × (1 ≤ length data_request.tags)
    × (length data_request.tags ≤ 5)
    × (all (is_valid_tag catalogue) data_request.tags ≡ true)
    × (is_valid_language catalogue data_request.language ≡ true)
    × IsAskable data_request.prices.for_1_24
    × ((data_request.prices.for_2_48 ≡ pos 0) ⊎ IsAskable data_request.prices.for_2_48)
    × ((data_request.prices.for_3_72 ≡ pos 0) ⊎ IsAskable data_request.prices.for_3_72)
    × (provided
        ≡ reply_with 200 [] (record waiting_db {
          channels = modify 5 (described data_request) waiting_db.channels;
        }))
provide_channel_data-success_example =
    provide_channel_data-success catalogue all_up data_request waiting_db 200 data_accepted

abbrev delete_request : Outcome
delete_request = delete_channel_handler all_up 5 (db_in pending)

deleted : delete_request.reply ≡ success 204
unfolding delete_channel_handler delete_channel
deleted = refl

delete_channel_handler-deals_example :
    ((i : ℕ) (d : Deal) → lookup i delete_request.db.deals ≡ some d → d.channel_id ≢ 5)
    × ((i : ℕ) (d : Deal)
        → lookup i (db_in pending).deals ≡ some d
        → d.channel_id ≢ 5
        → lookup i delete_request.db.deals ≡ some d)
    × (delete_request.db.customers ≡ (db_in pending).customers)
delete_channel_handler-deals_example =
    delete_channel_handler-deals all_up 5 (db_in pending) 204 deleted

-- The deal 7 was pending, with its price locked.
deal_gone : delete_request.db.deals ≡ []
unfolding delete_channel_handler delete_channel keep_rows
deal_gone = refl

serve_channel-MayChange_example :
    Refused
      (serve_channel (jwt 2) catalogue all_up bearer_header (delete_route (some 5)) (db_in draft))
      (db_in draft)
    ⊎ MayChange (jwt 2) bearer_header (delete_route (some 5)) (db_in draft)
serve_channel-MayChange_example =
    serve_channel-MayChange (jwt 2) catalogue all_up bearer_header (delete_route (some 5))
      (db_in draft)
