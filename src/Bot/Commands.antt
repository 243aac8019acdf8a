-- ===== src/Bot/Commands.antt =====
-- The test commands of the bot, which every user can send: /top, /add and /pub of
-- internal/modules/telegram_bot/telegram.go. The replies are not modelled.
pub mod Payout
use tam_backend.Prelude.{
  ◌==◌, if◌then◌else◌, ℤ, pos, negated, Text, codes, ℕ, Bool, true, Option, none, some, [], ◌∷◌,
}
use tam_backend.Common.Errors.{ok, err}
use tam_backend.Common.Datetime.{trim_space}
use tam_backend.Common.DealStatus.{awaiting_publication}
use tam_backend.Storage.Schema.{Customer, Channel, awaiting_data, admin, Deal, Db}
use tam_backend.Storage.Customers.{add_balances}
use tam_backend.Storage.Profiles.{get_customer_by_tg_id, update_customer}
use tam_backend.Storage.Channels.{create_channel, add_customer_channel}
use tam_backend.Storage.Deals.{DealsUpdated, update_deal}
use tam_backend.Storage.Views.{get_deal}

-- 9999 TON.
abbrev pub top_up_ton : ℤ
top_up_ton = pos 9999000000000

-- `AddTonBalance`.
abbrev pub topped_up : Customer → Customer
topped_up = add_balances top_up_ton (pos 0)

-- `topUp`.
unfoldable pub top_up : (ℕ → Bool) → ℕ → Db → Db
top_up up user db = elim (get_customer_by_tg_id (up 0) user db) [
  | err _ ↦ db
  | ok (id, c) ↦ (update_customer (up 1) id topped_up db).1
]

-- The channel that `testAdd` writes.
abbrev pub test_channel : Channel
test_channel = record {
  tg_id = negated 1003716300270;
  tg_username = codes "vcbmxniuhrs";
  status = awaiting_data;
  commentary = [];
  is_listed = true;
  tags = codes "1" ∷ [];
  prices = (codes "post_1_24", pos 1000000000) ∷ [];
  main_language = [];
}

-- `testAdd`; `id` is the key that the database generates, and an error of the link is dropped.
unfoldable pub test_add : (ℕ → Bool) → ℕ → ℕ → Db → Db
test_add up id user db = elim (get_customer_by_tg_id (up 0) user db) [
  | err _ ↦ db
  | ok (u, c) ↦ elim (create_channel (up 1) id test_channel db) [
    | err _ ↦ db
    | ok db' ↦ elim (add_customer_channel (up 2) u id admin db') [ err _ ↦ db' | ok db'' ↦ db'' ]
  ]
]

-- The rest of a text behind a prefix.
unfoldable pub strip : Text → Text → Option Text
strip [] s = some s
strip (c ∷ prefix) [] = none
strip (c ∷ prefix) (d ∷ s) = let rest = strip prefix s in if c == d then rest else none

-- `strings.TrimPrefix`.
unfoldable pub trim_prefix : Text → Text → Text
trim_prefix prefix s = elim (strip prefix s) [ none ↦ s | some rest ↦ rest ]

-- What `pubNow` takes for the deal's key.
abbrev pub pub_key : (Text → Option ℕ) → Text → Option ℕ
pub_key parse text = parse (trim_space (trim_prefix (codes "/pubnow") (trim_space text)))

abbrev pub published_now : ℕ → Deal → Deal
published_now now d = record d { publication_time = some now; status = awaiting_publication }

-- The deals after the update, and the deal that goes into the queue AutoPost, if that has room.
abbrev pub after_pub : Bool → ℕ → Db → DealsUpdated → Db × Option ℕ
after_pub room id db (some e, _) = (db, none)
after_pub room id db (none, ds) = (record db { deals = ds }, if room then some id else none)

-- `pubNow`; `parse` is `uuid.Parse`.
unfoldable pub pub_now : (Text → Option ℕ) → (ℕ → Bool) → Bool → ℕ → Text → Db → Db × Option ℕ
pub_now parse up room now text db = elim (pub_key parse text) [
  | none ↦ (db, none)
  | some id ↦ elim (get_deal (up 0) id db) [
    | err _ ↦ (db, none)
    | ok v ↦ after_pub room id db (update_deal (up 1) id (published_now now) db.deals)
  ]
]
