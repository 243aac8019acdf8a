-- ===== src/System/Conservation.antt =====
-- The backend as a whole keeps the money of all customers: internal/modules/server and
-- internal/modules/telegram_bot.
use tam_backend.Storage.Customers.{Customers}
use tam_backend.Storage.Customers.Solvency.{Solvent, lock-Solvent, unlock-Solvent, transfer-Solvent}
use tam_backend.Storage.Customers.Money.{total, lock-total, unlock-total, transfer-total}
use tam_backend.Storage.Views.{get_channel, get_channel_customers}
use tam_backend.Common.Prices.{get_price, channel_prices_from_map}
use tam_backend.Prelude.{
  ℤ, ℕ, ◌≡◌, refl, ◌∙◌, inl, inr, Bool, Option, none, some, List, [], ◌∷◌, arith,
}
use tam_backend.Storage.Schema.{Db, Channel, CustomerChannel}
use tam_backend.Storage.Deals.{DealsUpdated, create_deal}
use tam_backend.Server.Offer.{
  OfferDealRequest, after_create, offer_on, offer_deal, channel_manager_of, offered,
}
use tam_backend.Server.Outcome.{Answers}
use tam_backend.Common.Errors.{Result-cases}
use tam_backend.System.{
  Action, request, offer, expire_round, complete_round, publish_round, refund_round, auto_posting,
  removal, channel_message, monitoring, step, run,
}
use tam_backend.System.Requests.{Kept, serve-keeps}
use tam_backend.System.Rounds.{
  check_and_expire_deals-keeps, check_and_publish_deals-keeps,
  check_and_complete_published_deals-keeps, check_and_refund_terminal_deals-keeps,
  handle_auto_post-customers, handle_bot_removed_from_chat-customers, on_channel_post-customers,
  check_published_posts-customers,
}

after_create-customers :
    (db : Db) (u : DealsUpdated) → (after_create db u).db.customers ≡ db.customers
after_create-customers db (some e, ds) = refl
after_create-customers db (none, ds) = refl

offer_on-customers :
    (now : ℕ) (up : Bool) (id user : ℕ) (req : OfferDealRequest) (channel : Channel)
    (ccs : List CustomerChannel) (db : Db)
    → (offer_on now up id user req channel ccs db).db.customers ≡ db.customers
unfolding offer_on
offer_on-customers now up id user req channel ccs db =
    let manager = channel_manager_of ccs in
    let price = get_price (channel_prices_from_map channel.prices) req.target_type in
    ground (
      arith,
      after_create-customers db (create_deal up id (offered now user manager req price) db.deals),
    )

offer_deal-customers :
    (now : ℕ) (up : Answers) (id : ℕ) (user : Option ℕ) (body : Option OfferDealRequest) (db : Db)
    → (offer_deal now up id user body db).db.customers ≡ db.customers
unfolding offer_deal
offer_deal-customers now up id none body db = refl
offer_deal-customers now up id (some user) none db = refl
offer_deal-customers now up id (some user) (some req) db =
    elim (Result-cases (get_channel (up 0) req.channel_id db)) [
      | inl (e, p) ↦ ground arith
      | inr (channel, p) ↦ elim (Result-cases (get_channel_customers (up 1) req.channel_id db)) [
        | inl (e, q) ↦ rw (p, q, offer_deal) refl
        | inr (ccs, q) ↦
            rw (p, q, offer_deal) (offer_on-customers now (up 2) id user req channel ccs db)
      ]
    ]

-- What the escrow operations keep is kept by every step, and so by every run.
module _ (P : Customers → Type 0) (kept : Kept P) where
  step-keeps : (a : Action) (db : Db) → P db.customers → P (step a db).customers
  unfolding step
  step-keeps (request validate_jwt env up req) db h =
      serve-keeps P kept validate_jwt env up req db h
  step-keeps (offer now up id user body) db h = rw (offer_deal-customers now up id user body db) h
  step-keeps (expire_round r) db h = check_and_expire_deals-keeps P kept r db h
  step-keeps (complete_round r) db h = check_and_complete_published_deals-keeps P kept r db h
  step-keeps (publish_round r) db h = check_and_publish_deals-keeps P kept r db h
  step-keeps (refund_round r) db h = check_and_refund_terminal_deals-keeps P kept r db h
  step-keeps (auto_posting publish now up id) db h =
      rw (handle_auto_post-customers publish now up id db) h
  step-keeps (removal find_up channel_up fetch_up up now chat) db h =
      rw (handle_bot_removed_from_chat-customers up now db find_up channel_up fetch_up chat) h
  step-keeps (channel_message up now channel msg) db h =
      rw (on_channel_post-customers up now db channel msg) h
  step-keeps (monitoring fetch fetch_up up now) db h =
      rw (check_published_posts-customers up now db fetch fetch_up) h

  run-keeps : (actions : List Action) (db : Db) → P db.customers → P (run actions db).customers
  unfolding run
  run-keeps [] db h = h
  run-keeps (a ∷ actions) db h = run-keeps actions (step a db) (step-keeps a db h)

total-Kept : (m : ℤ) → Kept (λ cs. total cs ≡ m)
total-Kept m = record {
  locks = λ up d cs h. lock-total d cs up ∙ h;
  unlocks = λ up d cs h. unlock-total d cs up ∙ h;
  transfers = λ up d cs h. transfer-total d cs up ∙ h;
}

Solvent-Kept : Kept Solvent
Solvent-Kept = record {
  locks = λ up d cs h. lock-Solvent d cs h up;
  unlocks = λ up d cs h. unlock-Solvent d cs h up;
  transfers = λ up d cs h. transfer-Solvent d cs h up;
}

-- Whatever requests, offers, rounds of the jobs and events of the bot run, in whatever order and
-- with whatever failures of the database, the money of all customers, free and locked together,
-- stays what it was.
pub run-total :
    (actions : List Action) (db : Db) → total (run actions db).customers ≡ total db.customers
run-total actions db =
    run-keeps (λ cs. total cs ≡ total db.customers) (total-Kept (total db.customers)) actions db
      refl

-- Whatever requests, offers, rounds of the jobs and events of the bot run, no customer's free balance
-- is negative afterwards, if none was before.
pub run-Solvent :
    (actions : List Action) (db : Db) → Solvent db.customers → Solvent (run actions db).customers
run-Solvent actions db h = run-keeps Solvent Solvent-Kept actions db h
