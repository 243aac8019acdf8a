-- ===== src/Server/Jobs/Payouts.antt =====
-- The completion of published deals: internal/modules/server/deal_publisher.go.
use tam_backend.Prelude.{lookup, ℕ, ◌≡◌, refl, subst, inl, inr, true, false, none, some, List, []}
use tam_backend.Common.DealStatus.{to_int}
use tam_backend.Storage.Schema.{Customer, Deal, Db}
use tam_backend.Storage.Customers.{TxAnswers, transfer_balance_to_manager_for_deal}
use tam_backend.Storage.Customers.Payout.{settled, transfer-settled, settled-present}
use tam_backend.Storage.Deals.{
  DealsUpdated, update_deal, needs_to_complete, get_deals_need_to_complete,
}
use tam_backend.Storage.Deals.Update.{update_deal-cases}
use tam_backend.Storage.Views.{view_of}
use tam_backend.Server.Outcome.{Event}
use tam_backend.Server.Jobs.{
  Round, Work, fetched, each, complete, completed_events, after_complete, complete_one,
  check_and_complete_published_deals,
}
use tam_backend.Server.Jobs.Rounds.{
  AllRows, filter-HasKey, update_deal-clears, each-clears, Present,
}

-- `complete` takes a deal out of the query of deals to complete.
complete-out : (asked now : ℕ) (d : Deal) → needs_to_complete asked (complete now d) ≡ false
unfolding to_int
complete-out asked now d = refl

-- The deal's advertiser and its channel's manager are customers of `read`.
abbrev HasParties : Db → Deal → Type 0
HasParties read d =
    ((a : Customer) × (lookup d.advertiser_customer_id read.customers ≡ some a))
    × ((m : Customer) × (lookup d.channel_manager_id read.customers ≡ some m))

abbrev pub all_served : TxAnswers
all_served = record { begin_up = true; first_up = true; second_up = true; commit_up = true }

module _ (r : Round) (read : Db) (up : (id : ℕ) (n : ℕ) → r.up id n ≡ true)
    (tx_up : (id : ℕ) → r.tx_up id ≡ all_served) where
  paid :
      (id : ℕ) (d : Deal) (w : Work)
      → HasParties read d
      → Present read w
      → transfer_balance_to_manager_for_deal (r.tx_up id) d w.0.customers
        ≡ (none, settled d w.0.customers)
  paid id d w ((a, ea), (m, em)) there =
      let (a', ea') = there d.advertiser_customer_id a ea in
      let (m', em') = there d.channel_manager_id m em in
      rw (tx_up id) (transfer-settled d w.0.customers a' m' ea' em')

  completed_customers :
      (told : List Event) (db : Db) (es : List Event) (u : DealsUpdated)
      → (after_complete told db es u).0.customers ≡ db.customers
  completed_customers told db es (some e, ds) = refl
  completed_customers told db es (none, ds) = refl

  complete_one-Present :
      (id : ℕ) (d : Deal) (w : Work)
      → HasParties read d
      → Present read w
      → Present read (complete_one r read id d w)
  unfolding complete_one
  complete_one-Present id d (db, es) g there k c e =
      let (c', e') = there k c e in
      rw (paid id d (db, es) g there, completed_customers) (settled-present d db.customers k c' e')

  completed_deals :
      (id : ℕ) (told : List Event) (db : Db) (es : List Event)
      → (after_complete told db es (update_deal (r.up id 0) id (complete r.now) db.deals)).0.deals
        ≡ (update_deal true id (complete r.now) db.deals).1
  completed_deals id told db es =
      rw (up id 0) (elim (update_deal-cases true id (complete r.now) db.deals) [
        | inl (x, p) ↦ rw p refl
        | inr (d, there, p) ↦ rw p refl
      ])

  complete_one-deals :
      (id : ℕ) (d : Deal) (w : Work)
      → HasParties read d
      → Present read w
      → (complete_one r read id d w).0.deals ≡ (update_deal true id (complete r.now) w.0.deals).1
  unfolding complete_one
  complete_one-deals id d (db, es) g there = rw (paid id d (db, es) g there) (
      completed_deals id (completed_events id (view_of read id d))
        (record db { customers = settled d db.customers }) es)

-- Once the database has served a whole round of the job that completes deals, no deal is left that
-- the query of the round would find, provided that the advertiser and the manager of each deal of the
-- query are customers.
pub check_and_complete_published_deals-clears :
    (r : Round) (db : Db)
    → r.fetch_up ≡ true
    → ((id : ℕ) (n : ℕ) → r.up id n ≡ true)
    → ((id : ℕ) → r.tx_up id ≡ all_served)
    → AllRows (HasParties db) (get_deals_need_to_complete r.asked_at db.deals)
    → (i : ℕ) (d : Deal) → lookup i (check_and_complete_published_deals r db).0.deals ≡ some d
    → needs_to_complete r.asked_at d ≡ false
unfolding check_and_complete_published_deals get_deals_need_to_complete
check_and_complete_published_deals-clears r db fetch up tx_up parties i d e =
    each-clears (needs_to_complete r.asked_at) (HasParties db) (Present db) (complete_one r db)
      (complete_one-Present r db up tx_up)
      (λ id d w g there. rw (complete_one-deals r db up tx_up id d w g there) (
        update_deal-clears (needs_to_complete r.asked_at) id (complete r.now) w.0.deals
          (complete-out r.asked_at r.now)))
      (get_deals_need_to_complete r.asked_at db.deals) (db, []) parties (λ k c h. (c, h))
      (filter-HasKey (needs_to_complete r.asked_at) db.deals) i d
      (subst
        (λ b.
          lookup i
            (each (complete_one r db) (fetched b (get_deals_need_to_complete r.asked_at db.deals))
              (db, [])).0.deals
          ≡ some d)
        fetch e)
