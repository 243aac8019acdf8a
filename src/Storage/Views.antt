-- ===== src/Storage/Views.antt =====
-- `GetDeal` of internal/modules/storage/deals.go and the reads of channels and their customers that
-- the server makes (internal/modules/storage/channels.go).
use tam_backend.Prelude.{
  ◌==◌, if◌then◌else◌, filter, lookup, ℕ, ◌≡◌, Bool, not, Option, none, some, List, arith,
}
use tam_backend.Common.Errors.{internal_error, not_found, Result, ok, err}
use tam_backend.Storage.Schema.{Customer, Channel, CustomerChannel, Deal, Db}

-- A deal as it was read, with the edges that `WithAdvertiser`, `WithChannel` and
-- `WithChannelManager` load; a nil edge is `none`.
pub record DealView : Type 0 where
  pub deal_id : ℕ
  pub deal : Deal
  pub advertiser : Option Customer
  pub channel : Option Channel
  pub channel_manager : Option Customer

abbrev pub view_of : Db → ℕ → Deal → DealView
view_of db id d = record {
  deal_id = id;
  deal = d;
  advertiser = lookup d.advertiser_customer_id db.customers;
  channel = lookup d.channel_id db.channels;
  channel_manager = lookup d.channel_manager_id db.customers;
}

-- `GetDeal`.
unfoldable pub get_deal : Bool → ℕ → Db → Result DealView
get_deal up id db =
    if not up
    then err internal_error
    else elim (lookup id db.deals) [ none ↦ err not_found | some d ↦ ok (view_of db id d) ]

-- `GetChannel`.
unfoldable pub get_channel : Bool → ℕ → Db → Result Channel
get_channel up id db =
    if not up
    then err internal_error
    else elim (lookup id db.channels) [ none ↦ err not_found | some c ↦ ok c ]

-- `GetChannelCustomers`.
pub get_channel_customers : Bool → ℕ → Db → Result (List CustomerChannel)
get_channel_customers up channel db =
    if not up
    then err internal_error
    else ok (filter (λ cc. cc.channel_id == channel) db.customer_channels)

pub get_deal-ok :
    (up : Bool) (id : ℕ) (db : Db) (v : DealView)
    → get_deal up id db ≡ ok v
    → lookup id db.deals ≡ some v.deal
unfolding get_deal
get_deal-ok up id db v h = ground arith

pub get_deal-fresh :
    (up : Bool) (id : ℕ) (db : Db) (v : DealView)
    → get_deal up id db ≡ ok v
    → lookup v.deal_id db.deals ≡ some v.deal
unfolding get_deal
get_deal-fresh up id db v h = ground arith

pub get_channel-ok :
    (up : Bool) (id : ℕ) (db : Db) (c : Channel)
    → get_channel up id db ≡ ok c
    → lookup id db.channels ≡ some c
unfolding get_channel
get_channel-ok up id db c h = ground arith
