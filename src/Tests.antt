-- ===== src/Tests.antt =====
-- A small database for the tests of internal/modules.
pub mod Escrow
pub mod Parsing
pub mod Indexing
pub mod Daemons
pub mod Channels
pub mod Accounts
pub mod Drafting
pub mod Treasury
pub mod Lists
use tam_backend.Prelude.{
  ◌==◌, if◌then◌else◌, ℤ, pos, Text, codes, text_eq, ℕ, true, false, Option, none, some, [], ◌∷◌,
}
use tam_backend.Common.DealStatus.{DealStatus}
use tam_backend.Common.TargetType.{post_1_24}
use tam_backend.Storage.Schema.{
  registered, Customer, activated, Channel, owner, empty_target, Deal, Db,
}
use tam_backend.Storage.Customers.{TxAnswers}
use tam_backend.Storage.Views.{DealView, view_of}
use tam_backend.Server.Outcome.{Env, Answers}
use tam_backend.Server.Jobs.{Round}

abbrev pub customer : ℕ → ℤ → ℤ → Customer
customer n free locked_part = record {
  tg_id = n;
  tg_language = codes "en";
  wallet_hd_id = pos n;
  address_bounceable = codes "EQ";
  address_nonbounceable = codes "UQ";
  ton_balance = free;
  ton_balance_locked = locked_part;
  customer_status = registered;
}

-- 10 TON, none locked.
abbrev pub advertiser_row : Customer
advertiser_row = customer 1 (pos 10000000000) (pos 0)

abbrev pub manager_row : Customer
manager_row = record (customer 2 (pos 0) (pos 0)) {
  address_bounceable = codes "EM";
  address_nonbounceable = codes "UM";
}

abbrev pub channel_row : Channel
channel_row = record {
  tg_id = pos 500;
  tg_username = codes "news";
  status = activated;
  commentary = [];
  is_listed = true;
  tags = [];
  prices = (post_1_24, pos 2000000000) ∷ [];
  main_language = codes "en";
}

-- A deal of 2 TON.
abbrev pub deal_in : DealStatus → Deal
deal_in s = record {
  channel_id = 5;
  advertiser_customer_id = 1;
  channel_manager_id = 2;
  status = s;
  status_updated_at = 0;
  expires_at = 100;
  target_type = post_1_24;
  target = some empty_target;
  publication_time = none;
  top_deadline = none;
  common_deadline = none;
  ton_price = pos 2000000000;
  balance_refunded = false;
  channel_post_ids = [];
}

abbrev pub db_in : DealStatus → Db
db_in s = record {
  customers = (1, advertiser_row) ∷ (2, manager_row) ∷ [];
  channels = (5, channel_row) ∷ [];
  customer_channels = record { customer_id = 2; channel_id = 5; role = owner } ∷ [];
  deals = (7, deal_in s) ∷ [];
}

abbrev pub view_in : DealStatus → DealView
view_in s = view_of (db_in s) 7 (deal_in s)

abbrev pub all_up : Answers
all_up = λ n. true

abbrev pub tx_all_up : TxAnswers
tx_all_up = record { begin_up = true; first_up = true; second_up = true; commit_up = true }

abbrev pub round_all_up : Round
round_all_up = record {
  fetch_up = true;
  up = λ id. all_up;
  tx_up = λ id. tx_all_up;
  asked_at = 200;
  now = 200;
  has_room = λ id. true;
}

-- A round in which the second statement of each deal is refused.
abbrev pub round_unmarked : Round
round_unmarked = record round_all_up { up = λ id n. n == 0 }

abbrev pub env_at : ℕ → Env
env_at t = record { now = t; later = t; tomorrow = 20260102; parse_rfc3339 = λ s. some 7200 }

-- The one token that is valid, and its user.
abbrev pub jwt : ℕ → Text → Option ℕ
jwt user token = if text_eq token (codes "token") then some user else none

abbrev pub bearer_header : Text
bearer_header = codes "Bearer token"
