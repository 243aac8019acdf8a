-- ===== src/Server/Access.antt =====
-- The deal routes of internal/modules/server/server.go behind the middleware of middleware.go.
-- `validateJWT` (jwt.go) reads signed tokens through a library; it is the parameter `validate_jwt`.
pub mod Authorization
use tam_backend.Prelude.{
  ◌==◌, if◌then◌else◌, Text, codes, text_eq, is_empty, split, ℕ, suc, Bool, true, not, ◌&&◌, Option,
  none, some, List, [], ◌∷◌,
}
use tam_backend.Common.Errors.{
  Error, unauthorized, forbidden, invalid_request, internal_error, not_found, deal_not_found,
  not_deal_participant, invalid_uuid, Result, ok, err,
}
use tam_backend.Common.Datetime.{PreferableDatetime}
use tam_backend.Storage.Schema.{Db}
use tam_backend.Storage.Views.{DealView, get_deal}
use tam_backend.Server.Outcome.{Outcome, Env, Answers, refuse, reply_with}
use tam_backend.Server.DealHandlers.{
  send_deal_data, make_deal, cancel_deal, accept_deal, get_deal_data, deal_message,
}
use tam_backend.Server.TimeHandlers.{approve_deal_data, decline_deal, approve_and_propose_time}

-- The routes below `/deals` that work on one deal; with what `c.Bind` reads of the body beside the
-- deal's id, `none` if it cannot.
pub data Route : Type 0 where
  send_deal_data_route approve_deal_data_route accept_deal_route : Route
  deal_message_route decline_deal_route cancel_deal_route get_deal_data_route get_deal_route : Route
  make_deal_route : Option (Option PreferableDatetime) → Route
  approve_and_propose_time_route : Option Text → Route

pub data Side : Type 0 where
  advertiser_side channel_side both_sides : Side

-- The group in which `registerRoutes` puts a route.
pub side_of : Route → Side
side_of send_deal_data_route = advertiser_side
side_of (make_deal_route body) = advertiser_side
side_of approve_deal_data_route = advertiser_side
side_of accept_deal_route = channel_side
side_of (approve_and_propose_time_route body) = channel_side
side_of deal_message_route = both_sides
side_of decline_deal_route = both_sides
side_of cancel_deal_route = both_sides
side_of get_deal_data_route = both_sides
side_of get_deal_route = both_sides

pub record DealRequest : Type 0 where
  pub route : Route
  pub auth_header : Text
  -- the deal's id in the path or the body, `none` if it cannot be read
  pub id_field : Option ℕ

-- The handler of a route, for the user `u` and the deal that the middleware has read.
unfoldable pub handle : Env → Answers → Route → ℕ → DealView → Db → Outcome
handle env up send_deal_data_route u v db = send_deal_data (some u) v db
handle env up (make_deal_route none) u v db = refuse invalid_request db
handle env up (make_deal_route (some pd)) u v db = make_deal env up pd v db
handle env up approve_deal_data_route u v db = approve_deal_data up v db
handle env up accept_deal_route u v db = accept_deal up v db
handle env up (approve_and_propose_time_route none) u v db = refuse invalid_request db
handle env up (approve_and_propose_time_route (some t)) u v db =
    approve_and_propose_time env up t v db
handle env up deal_message_route u v db = deal_message (some u) v db
handle env up decline_deal_route u v db = decline_deal up v db
handle env up cancel_deal_route u v db = cancel_deal up v db
handle env up get_deal_data_route u v db = get_deal_data (some u) v db
handle env up get_deal_route u v db = reply_with 200 [] db

-- `RequireDealAdvertiserOnly` and `RequireDealChannelManagerOnly`.
pub admits : Side → Bool → Bool → Bool
admits advertiser_side is_advertiser is_manager = is_advertiser
admits channel_side is_advertiser is_manager = is_manager
admits both_sides is_advertiser is_manager = true

-- The error of an id that cannot be read: the one GET route has it in its path.
abbrev pub bad_id : Route → Error
bad_id get_deal_route = invalid_uuid
bad_id _ = invalid_request

-- The middleware's `GetDeal` is statement 0; those of the handler follow.
abbrev pub rest : Answers → Answers
rest up = λ n. up (suc n)

-- What follows `RequireDealParticipant`'s `GetDeal`.
unfoldable pub with_deal : Env → Answers → Route → ℕ → Db → Result DealView → Outcome
with_deal env up route u db (err not_found) = refuse deal_not_found db
with_deal env up route u db (err _) = refuse internal_error db
with_deal env up route u db (ok v) =
    let is_advertiser = v.deal.advertiser_customer_id == u in
    let is_manager = v.deal.channel_manager_id == u in
    if not is_advertiser && not is_manager
    then refuse not_deal_participant db
    else if not (admits (side_of route) is_advertiser is_manager)
    then refuse forbidden db
    else handle env (rest up) route u v db

-- `RequireDealParticipant`, the test of the group, and the handler.
unfoldable pub require_deal_participant : Env → Answers → Route → Option ℕ → ℕ → Db → Outcome
require_deal_participant env up route none u db = refuse (bad_id route) db
require_deal_participant env up route (some id) u db =
    with_deal env up route u db (get_deal (up 0) id db)

-- The token of `Authorization: Bearer <token>`.
bearer : List Text → Option Text
bearer (scheme ∷ token ∷ []) = if text_eq scheme (codes "Bearer") then some token else none
bearer parts = none

pub authorization : Text → Option Text
unfolding bearer
authorization header = if is_empty header then none else bearer (split 32 header)

-- `authMiddleware` in front of a deal route.
unfoldable pub serve : (Text → Option ℕ) → Env → Answers → DealRequest → Db → Outcome
serve validate_jwt env up req db = elim (authorization req.auth_header) [
  | none ↦ refuse unauthorized db
  | some token ↦ elim (validate_jwt token) [
    | none ↦ refuse unauthorized db
    | some u ↦ require_deal_participant env up req.route req.id_field u db
  ]
]
