-- ===== src/Server/ChannelData.antt =====
-- internal/modules/server: ProvideChannelData, GetChannel and DeleteChannel of channel_handlers.go,
-- behind RequireChannelAccess of middleware.go; with internal/common/channel_description_validation.go,
-- channel_tags_validation.go and channel_languages_validation.go.
pub mod Access
pub mod Providing
pub mod Deleting
use tam_backend.Prelude.{
  ltb, ◌==◌, if◌then◌else◌, length, any, all, Text, text_eq, is_empty, ℕ, suc, Bool, true, false,
  not, ◌&&◌, ◌||◌, Option, none, some, List, [], ◌∷◌,
}
use tam_backend.Common.Errors.{
  channel_not_found, unauthorized, invalid_request, channel_status_invalid, internal_error,
  not_found, no_channel_access, invalid_uuid, Result, ok, err,
}
use tam_backend.Common.Prices.{ChannelPrices, to_map, validate_prices}
use tam_backend.Storage.Schema.{
  ChannelStatus, awaiting_data, activated, Channel, CustomerChannel, Db,
}
use tam_backend.Storage.Views.{get_channel}
use tam_backend.Storage.Channels.{
  update_channel, get_customer_channel, delete_channel, get_channel_with_customer_channels,
}
use tam_backend.Server.Outcome.{Outcome, Answers, refuse, reply_with}
use tam_backend.Server.Access.{authorization}

-- The ids of channel-tags.json and the codes of telegram-languages.json, which `init` reads.
pub record Catalogue : Type 0 where
  pub tag_ids : List Text
  pub language_codes : List Text

-- `IsValidTag`.
abbrev pub is_valid_tag : Catalogue → Text → Bool
is_valid_tag cat tag = any (text_eq tag) cat.tag_ids

-- `IsValidLanguage`.
abbrev pub is_valid_language : Catalogue → Text → Bool
is_valid_language cat code = any (text_eq code) cat.language_codes

abbrev pub min_description_length : ℕ
min_description_length = 0

abbrev pub max_description_length : ℕ
max_description_length = 400

abbrev pub min_tags_count : ℕ
min_tags_count = 1

abbrev pub max_tags_count : ℕ
max_tags_count = 5

-- `common.ProvideChannelDataRequest`; the description is a list of bytes.
pub record ProvideRequest : Type 0 where
  pub channel : ℕ
  pub description : Text
  pub tags : List Text
  pub language : Text
  pub prices : ChannelPrices

-- The tests of `ProvideChannelData` on the request; each of them answers with ErrInvalidRequest.
unfoldable pub valid_request : Catalogue → ProvideRequest → Bool
valid_request cat req =
    not (ltb (length req.description) min_description_length)
    && (not (ltb max_description_length (length req.description))
        && (not (ltb (length req.tags) min_tags_count)
            && (not (ltb max_tags_count (length req.tags))
                && (all (is_valid_tag cat) req.tags
                    && (is_valid_language cat req.language && validate_prices req.prices)))))

-- The updater.
abbrev pub provide : ProvideRequest → Channel → Channel
provide req c = record c {
  commentary = if is_empty req.description then c.commentary else req.description;
  main_language = req.language;
  tags = req.tags;
  prices = to_map req.prices;
  is_listed = true;
  status = activated;
}

unfoldable pub is_awaiting_data : ChannelStatus → Bool
is_awaiting_data awaiting_data = true
is_awaiting_data _ = false

-- What follows `ProvideChannelData`'s `GetChannel`.
unfoldable pub with_channel : Catalogue → Answers → ProvideRequest → Db → Result Channel → Outcome
with_channel cat up req db (err not_found) = refuse channel_not_found db
with_channel cat up req db (err _) = refuse internal_error db
with_channel cat up req db (ok c) =
    if not (is_awaiting_data c.status)
    then refuse channel_status_invalid db
    else if not (valid_request cat req)
    then refuse invalid_request db
    else elim (update_channel (up 1) req.channel (provide req) db) [
      | err _ ↦ refuse internal_error db
      | ok db' ↦ reply_with 200 [] db'
    ]

-- `ProvideChannelData` on a request that `c.Bind` has read.
unfoldable pub provide_channel_data : Catalogue → Answers → ProvideRequest → Db → Outcome
provide_channel_data cat up req db = with_channel cat up req db (get_channel (up 0) req.channel db)

-- `DeleteChannel`.
unfoldable pub delete_channel_handler : Answers → ℕ → Db → Outcome
delete_channel_handler up id db = elim (delete_channel (up 0) id db) [
  | err _ ↦ refuse internal_error db
  | ok db' ↦ reply_with 204 [] db'
]

-- `CanEdit` of `GetChannel`: there is no role but the two that are tested.
unfoldable pub may_edit : ℕ → List CustomerChannel → Bool
may_edit u [] = false
may_edit u (cc ∷ ccs) = cc.customer_id == u || may_edit u ccs

-- `GetChannel`: the status of the reply, with `CanEdit` and the channel.
unfoldable pub get_channel_handler : Answers → ℕ → Option ℕ → Db → Result (Bool × Channel)
get_channel_handler up u none db = err invalid_uuid
get_channel_handler up u (some id) db = elim (get_channel_with_customer_channels (up 0) id db) [
  | err not_found ↦ err channel_not_found
  | err _ ↦ err internal_error
  | ok (c, links) ↦ ok (may_edit u links, c)
]

-- The routes of the group `channelsProtected`: with the body, `none` if its channel cannot be read; with a
-- body of which only the channel can be read; or with the id of the path, `none` if it is no UUID.
pub data ChannelRoute : Type 0 where
  provide_route : Option ProvideRequest → ChannelRoute
  unreadable_route : ℕ → ChannelRoute
  delete_route : Option ℕ → ChannelRoute

-- The channel that `RequireChannelAccess` reads, or its error.
unfoldable pub channel_of : ChannelRoute → Result ℕ
channel_of (provide_route none) = err invalid_request
channel_of (provide_route (some req)) = ok req.channel
channel_of (unreadable_route id) = ok id
channel_of (delete_route none) = err invalid_uuid
channel_of (delete_route (some id)) = ok id

unfoldable pub handle_channel : Catalogue → Answers → ChannelRoute → Db → Outcome
handle_channel cat up (provide_route none) db = refuse invalid_request db
handle_channel cat up (provide_route (some req)) db = provide_channel_data cat up req db
handle_channel cat up (unreadable_route id) db = refuse invalid_request db
handle_channel cat up (delete_route none) db = refuse invalid_uuid db
handle_channel cat up (delete_route (some id)) db = delete_channel_handler up id db

-- What follows `RequireChannelAccess`'s `GetCustomerChannel`.
unfoldable pub with_link :
    Catalogue → Answers → ChannelRoute → Db → Result CustomerChannel → Outcome
with_link cat up route db (err not_found) = refuse no_channel_access db
with_link cat up route db (err _) = refuse internal_error db
with_link cat up route db (ok link) = handle_channel cat (λ n. up (suc n)) route db

-- `RequireChannelAccess` in front of the handler; its `GetCustomerChannel` is statement 0.
unfoldable pub require_channel_access : Catalogue → Answers → ℕ → ChannelRoute → Db → Outcome
require_channel_access cat up u route db = elim (channel_of route) [
  | err e ↦ refuse e db
  | ok id ↦ with_link cat up route db (get_customer_channel (up 0) u id db)
]

-- `authMiddleware` in front of the group.
unfoldable pub serve_channel :
    (Text → Option ℕ) → Catalogue → Answers → Text → ChannelRoute → Db → Outcome
serve_channel validate_jwt cat up header route db = elim (authorization header) [
  | none ↦ refuse unauthorized db
  | some token ↦ elim (validate_jwt token) [
    | none ↦ refuse unauthorized db
    | some u ↦ require_channel_access cat up u route db
  ]
]
