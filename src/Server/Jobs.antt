-- ===== src/Server/Jobs.antt =====
-- The periodic jobs of internal/modules/server: deal_publisher.go and balance_cron.go. A job reads
-- its deals once and then works on them one by one; the tickers that start the jobs are not
-- modelled.
pub mod Rounds
pub mod Refunds
pub mod Payouts
use tam_backend.Prelude.{
  leb, if◌then◌else◌, ℕ, ◌+◌, ◌*◌, Bool, true, not, none, some, List, [], ◌∷◌, ◌++◌,
}
use tam_backend.Common.DealStatus.{awaiting_publication, published, expired, completed}
use tam_backend.Storage.Schema.{Deal, Db}
use tam_backend.Storage.Customers.{
  Updated, unlock_balance_for_deal, TxAnswers, transfer_balance_to_manager_for_deal,
}
use tam_backend.Storage.Deals.{
  Deals, DealsUpdated, update_deal, get_deals_for_refund, time_test, get_deals_need_to_complete,
  get_expired_deals, get_deals_by_status,
}
use tam_backend.Storage.Views.{DealView, view_of}
use tam_backend.Server.Outcome.{
  refund, deal_completed, Event, notification, auto_post, Answers, notify,
}

-- What a round of a job meets: whether the query is served, which statements for which deal are,
-- the clock at the query and at the loop, and whether the channel to the bot has room.
pub record Round : Type 0 where
  pub fetch_up : Bool
  pub up : ℕ → Answers
  pub tx_up : ℕ → TxAnswers
  pub asked_at : ℕ
  pub now : ℕ
  pub has_room : ℕ → Bool

abbrev pub Work : Type 0
Work = Db × List Event

abbrev pub fetched : Bool → Deals → Deals
fetched up ds = if up then ds else []

-- The loop over the deals of a round.
unfoldable pub each : (ℕ → Deal → Work → Work) → Deals → Work → Work
each body [] w = w
each body ((id, d) ∷ ds) w = each body ds (body id d w)

abbrev pub expire : ℕ → Deal → Deal
expire now d = record d { status = expired; status_updated_at = now }

unfoldable pub expire_one : Round → ℕ → Deal → Work → Work
expire_one r id d (db, es) =
    (record db { deals = (update_deal (r.up id 0) id (expire r.now) db.deals).1 }, es)

-- `checkAndExpireDeals`.
unfoldable pub check_and_expire_deals : Round → Db → Work
unfolding each expire_one
check_and_expire_deals r db =
    each (expire_one r) (fetched r.fetch_up (get_expired_deals r.asked_at db.deals)) (db, [])

abbrev pub claim : ℕ → Deal → Deal
claim now d = record d { status = published; status_updated_at = now; expires_at = now + 24 * 3600 }

abbrev pub unclaim : ℕ → Deal → Deal
unclaim now d = record d { status = awaiting_publication; status_updated_at = now }

abbrev pub is_due : ℕ → Deal → Bool
is_due now d = time_test (λ t. leb t now) d.publication_time

-- After the claim of a deal: it goes to the bot, or back if the channel is full.
abbrev pub after_claim : Round → ℕ → Db → List Event → DealsUpdated → Work
after_claim r id db es (some e, _) = (db, es)
after_claim r id db es (none, ds) =
    if r.has_room id
    then (record db { deals = ds }, es ++ auto_post id ∷ [])
    else (record db { deals = (update_deal (r.up id 1) id (unclaim r.now) ds).1 }, es)

unfoldable pub publish_one : Round → ℕ → Deal → Work → Work
publish_one r id d (db, es) =
    if not (is_due r.now d)
    then (db, es)
    else after_claim r id db es (update_deal (r.up id 0) id (claim r.now) db.deals)

-- `checkAndPublishDeals`.
unfoldable pub check_and_publish_deals : Round → Db → Work
unfolding each publish_one
check_and_publish_deals r db =
    each (publish_one r) (fetched r.fetch_up (get_deals_by_status awaiting_publication db.deals))
      (db, [])

abbrev pub complete : ℕ → Deal → Deal
complete now d = record d { status = completed; status_updated_at = now }

-- Both sides are told, if the query found both.
abbrev pub completed_events : ℕ → DealView → List Event
completed_events id v = elim v.advertiser [
  | none ↦ []
  | some a ↦ elim v.channel_manager [
    | none ↦ []
    | some m ↦ notification a.tg_id deal_completed id ∷ notification m.tg_id deal_completed id ∷ []
  ]
]

abbrev pub after_complete : List Event → Db → List Event → DealsUpdated → Work
after_complete told db es (some e, _) = (db, es)
after_complete told db es (none, ds) = (record db { deals = ds }, es ++ told)

abbrev pub after_transfer : Round → ℕ → DealView → Db → List Event → Updated → Work
after_transfer r id v db es (some e, _) = (db, es)
after_transfer r id v db es (none, cs) =
    after_complete (completed_events id v) (record db { customers = cs }) es
      (update_deal (r.up id 0) id (complete r.now) db.deals)

-- The edges are those of the database `read` of the query.
unfoldable pub complete_one : Round → Db → ℕ → Deal → Work → Work
complete_one r read id d (db, es) =
    after_transfer r id (view_of read id d) db es
      (transfer_balance_to_manager_for_deal (r.tx_up id) d db.customers)

-- `checkAndCompletePublishedDeals`.
unfoldable pub check_and_complete_published_deals : Round → Db → Work
unfolding each complete_one
check_and_complete_published_deals r db =
    each (complete_one r db) (fetched r.fetch_up (get_deals_need_to_complete r.asked_at db.deals))
      (db, [])

abbrev pub mark_refunded : Deal → Deal
mark_refunded d = record d { balance_refunded = true }

abbrev pub after_mark : List Event → Db → List Event → DealsUpdated → Work
after_mark told db es (some e, _) = (db, es)
after_mark told db es (none, ds) = (record db { deals = ds }, es ++ told)

abbrev pub after_unlock : Round → ℕ → DealView → Db → List Event → Updated → Work
after_unlock r id v db es (some e, _) = (db, es)
after_unlock r id v db es (none, cs) =
    after_mark (notify refund id v.advertiser) (record db { customers = cs }) es
      (update_deal (r.up id 1) id mark_refunded db.deals)

-- The edge of the advertiser, of which the Go code reads the Telegram id without a test for nil, is always
-- loaded, since a deal is deleted with its advertiser.
unfoldable pub refund_one : Round → Db → ℕ → Deal → Work → Work
refund_one r read id d (db, es) =
    after_unlock r id (view_of read id d) db es (unlock_balance_for_deal (r.up id 0) d db.customers)

-- `checkAndRefundTerminalDeals`.
unfoldable pub check_and_refund_terminal_deals : Round → Db → Work
unfolding each refund_one
check_and_refund_terminal_deals r db =
    each (refund_one r db) (fetched r.fetch_up (get_deals_for_refund db.deals)) (db, [])
