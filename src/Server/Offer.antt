-- ===== src/Server/Offer.antt =====
-- `OfferDeal` of internal/modules/server/deal_handlers.go.
use tam_backend.Prelude.{
  ◌==◌, if◌then◌else◌, any, ℤ, pos, leb_ℤ, Text, is_empty, ℕ, ◌+◌, Bool, false, not, Option, none,
  some, List, [], ◌∷◌,
}
use tam_backend.Common.DealStatus.{draft, get_deal_status_duration}
use tam_backend.Common.Errors.{
  channel_not_found, unauthorized, forbidden, invalid_request, internal_error, not_found, ok, err,
}
use tam_backend.Common.TargetType.{is_valid}
use tam_backend.Common.Prices.{get_price, channel_prices_from_map}
use tam_backend.Storage.Schema.{Channel, admin, owner, CustomerChannel, Deal, Db}
use tam_backend.Storage.Deals.{DealsUpdated, create_deal}
use tam_backend.Storage.Views.{get_channel, get_channel_customers}
use tam_backend.Server.Outcome.{Outcome, Answers, refuse, reply_with}

pub record OfferDealRequest : Type 0 where
  pub channel_id : ℕ
  pub target_type : Text

-- The first customer of the channel who is its admin or its owner; `uuid.Nil` if there is none.
pub channel_manager_of : List CustomerChannel → ℕ
channel_manager_of [] = 0
channel_manager_of (cc ∷ ccs) = elim cc.role [ admin ↦ cc.customer_id | owner ↦ cc.customer_id ]

abbrev pub offered : ℕ → ℕ → ℕ → OfferDealRequest → ℤ → Deal
offered now user manager req price = record {
  channel_id = req.channel_id;
  advertiser_customer_id = user;
  channel_manager_id = manager;
  status = draft;
  status_updated_at = now;
  expires_at = now + get_deal_status_duration draft;
  target_type = req.target_type;
  target = none;
  publication_time = none;
  top_deadline = none;
  common_deadline = none;
  ton_price = price;
  balance_refunded = false;
  channel_post_ids = [];
}

abbrev pub after_create : Db → DealsUpdated → Outcome
after_create db (some e, _) = refuse internal_error db
after_create db (none, ds) = reply_with 201 [] (record db { deals = ds })

-- The tests on the request, once the channel and its customers are read.
unfoldable pub offer_on :
    ℕ → Bool → ℕ → ℕ → OfferDealRequest → Channel → List CustomerChannel → Db → Outcome
offer_on now up id user req channel ccs db =
    if any (λ cc. cc.customer_id == user) ccs
    then refuse forbidden db
    else let manager = channel_manager_of ccs in
      if manager == 0
      then refuse invalid_request db
      else if is_empty req.target_type
      then refuse invalid_request db
      else if not (is_valid req.target_type)
      then refuse invalid_request db
      else let price = get_price (channel_prices_from_map channel.prices) req.target_type in
        if leb_ℤ price (pos 0)
        then refuse invalid_request db
        else after_create db (create_deal up id (offered now user manager req price) db.deals)

-- `OfferDeal`; the id of a new deal is the database's choice.
unfoldable pub offer_deal : ℕ → Answers → ℕ → Option ℕ → Option OfferDealRequest → Db → Outcome
unfolding offer_on
offer_deal now up id none body db = refuse unauthorized db
offer_deal now up id (some user) none db = refuse invalid_request db
offer_deal now up id (some user) (some req) db = elim (get_channel (up 0) req.channel_id db) [
  | err not_found ↦ refuse channel_not_found db
  | err _ ↦ refuse internal_error db
  | ok channel ↦ elim (get_channel_customers (up 1) req.channel_id db) [
    | err e ↦ refuse internal_error db
    | ok ccs ↦ offer_on now (up 2) id user req channel ccs db
  ]
]
