-- ===== src/Storage/Schema.antt =====
-- The rows of internal/database/ent/schema. A row stands beside its primary key in a table; a UUID
-- is a number, with 0 for `uuid.Nil`, and a time is a number of seconds. TON amounts are nanoton,
-- signed. Columns that no modelled code reads (names, pictures, a channel's statistics,
-- `created_at`, `updated_at`) are left out.
use tam_backend.Prelude.{ℤ, Table, Text, ℕ, Bool, true, Option, none, List, []}
use tam_backend.Common.DealStatus.{DealStatus}
use tam_backend.Common.Prices.{PriceMap}
use tam_backend.Common.Datetime.{PreferableDatetime}

-- internal/common/constants/customer_status.
pub data CustomerStatus : Type 0 where
  pre_registration registered : CustomerStatus

pub record Customer : Type 0 where
  pub tg_id : ℕ
  pub tg_language : Text
  pub wallet_hd_id : ℤ
  pub address_bounceable : Text
  pub address_nonbounceable : Text
  pub ton_balance : ℤ
  pub ton_balance_locked : ℤ
  pub customer_status : CustomerStatus

-- internal/common/constants/channel_status.
pub data ChannelStatus : Type 0 where
  unactivated awaiting_data activated verified : ChannelStatus

pub record Channel : Type 0 where
  pub tg_id : ℤ
  pub tg_username : Text
  pub status : ChannelStatus
  pub commentary : Text
  pub is_listed : Bool
  pub tags : List Text
  pub prices : PriceMap
  pub main_language : Text

-- internal/common/constants/customer_channel_role.
pub data Role : Type 0 where
  admin owner : Role

pub record CustomerChannel : Type 0 where
  pub customer_id : ℕ
  pub channel_id : ℕ
  pub role : Role

-- `common.TgMsgMediaItem`, without its flags.
pub record MediaItem : Type 0 where
  pub file_id : Text
  pub msg_id : ℕ

-- The parts of `common.TgMsgData` that decide whether there is a post: its text and its images.
pub record MsgData : Type 0 where
  pub message_text : Text
  pub message_images : List MediaItem

-- The JSON of `deals.target`: whether `DealTargetFromMap` reads it, the post data that it then
-- finds, and the post data that `TgMsgDataFromMap` finds in the same map.
pub record Target : Type 0 where
  pub well_formed : Bool
  pub brief_data : MsgData
  pub post_data : MsgData
  pub flat_data : MsgData
  pub preferable_datetime : Option PreferableDatetime

abbrev pub no_msg : MsgData
no_msg = record { message_text = []; message_images = [] }

-- `map[string]any{}`, the column's default.
abbrev pub empty_target : Target
empty_target = record {
  well_formed = true;
  brief_data = no_msg;
  post_data = no_msg;
  flat_data = no_msg;
  preferable_datetime = none;
}

pub record Deal : Type 0 where
  pub channel_id : ℕ
  pub advertiser_customer_id : ℕ
  pub channel_manager_id : ℕ
  pub status : DealStatus
  pub status_updated_at : ℕ
  pub expires_at : ℕ
  pub target_type : Text
  pub target : Option Target
  pub publication_time : Option ℕ
  pub top_deadline : Option ℕ
  pub common_deadline : Option ℕ
  pub ton_price : ℤ
  pub balance_refunded : Bool
  pub channel_post_ids : List ℕ

-- internal/common/constants/transaction_status.
pub data TransactionStatus : Type 0 where
  processing done : TransactionStatus

pub record Transaction : Type 0 where
  pub sender : Text
  pub wallet_address : Text
  pub amount : ℤ
  pub tx_hash : Text
  pub seqno : ℕ
  pub lt : ℕ
  pub status : TransactionStatus

pub record Db : Type 0 where
  pub customers : Table Customer
  pub channels : Table Channel
  pub customer_channels : List CustomerChannel
  pub deals : Table Deal
