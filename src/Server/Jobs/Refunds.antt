-- ===== src/Server/Jobs/Refunds.antt =====
-- The refunds of internal/modules/server/balance_cron.go.
use tam_backend.Common.DealStatus.{draft, canceled, to_int}
use tam_backend.Server.DealHandlers.{set_status, cancel_deal}
use tam_backend.Prelude.{
  lookup, modify, lookup-modify-some, ℕ, ◌≡◌, refl, sym, ap, subst, inl, inr, true, false, not,
  none, some, List, [], arith,
}
use tam_backend.Storage.Schema.{Customer, Deal, Db}
use tam_backend.Storage.Customers.{unlock_balance_for_deal}
use tam_backend.Storage.Customers.Money.{refunded, unlock-served, refunded-present}
use tam_backend.Storage.Deals.{DealsUpdated, update_deal, needs_refund, get_deals_for_refund}
use tam_backend.Storage.Deals.Update.{update_deal-cases, update_deal-served, update_deal-down}
use tam_backend.Storage.Views.{view_of, DealView}
use tam_backend.Server.Outcome.{refund, Event, notify}
use tam_backend.Server.Jobs.{
  Round, Work, fetched, each, mark_refunded, after_mark, refund_one,
  check_and_refund_terminal_deals,
}
use tam_backend.Server.Jobs.Rounds.{
  AllRows, filter-HasKey, update_deal-clears, each-clears, Present,
}

-- `mark_refunded` takes a deal out of the query of refunds.
refund-out : (d : Deal) → needs_refund (mark_refunded d) ≡ false
refund-out d = ground arith

-- The deal's advertiser is a customer of `read`.
abbrev HasAdvertiser : Db → Deal → Type 0
HasAdvertiser read d = (c : Customer) × (lookup d.advertiser_customer_id read.customers ≡ some c)

module _ (r : Round) (read : Db) (up : (id : ℕ) (n : ℕ) → r.up id n ≡ true) where
  marked_deals :
      (id : ℕ) (told : List Event) (db : Db) (es : List Event)
      → (after_mark told db es (update_deal (r.up id 1) id mark_refunded db.deals)).0.deals
        ≡ (update_deal true id mark_refunded db.deals).1
  marked_deals id told db es =
      rw (up id 1) (elim (update_deal-cases true id mark_refunded db.deals) [
        | inl (x, p) ↦ rw p refl
        | inr (d, there, p) ↦ rw p refl
      ])

  marked_customers :
      (told : List Event) (db : Db) (es : List Event) (u : DealsUpdated)
      → (after_mark told db es u).0.customers ≡ db.customers
  marked_customers told db es (some e, ds) = refl
  marked_customers told db es (none, ds) = refl

  unlocked :
      (d : Deal) (w : Work)
      → HasAdvertiser read d
      → Present read w
      → (id : ℕ)
      → unlock_balance_for_deal (r.up id 0) d w.0.customers ≡ (none, refunded d w.0.customers)
  unlocked d w (c, e) there id =
      let (c', e') = there d.advertiser_customer_id c e in
      rw (up id 0) (unlock-served d w.0.customers c' e')

  refund_one-Present :
      (id : ℕ) (d : Deal) (w : Work)
      → HasAdvertiser read d
      → Present read w
      → Present read (refund_one r read id d w)
  unfolding refund_one
  refund_one-Present id d (db, es) g there k c e =
      let (c', e') = there k c e in
      rw (unlocked d (db, es) g there id, marked_customers)
        (refunded-present d db.customers k c' e')

  refund_one-deals :
      (id : ℕ) (d : Deal) (w : Work)
      → HasAdvertiser read d
      → Present read w
      → (refund_one r read id d w).0.deals ≡ (update_deal true id mark_refunded w.0.deals).1
  unfolding refund_one
  refund_one-deals id d (db, es) g there = rw (unlocked d (db, es) g there id) (
      marked_deals id (notify refund id (view_of read id d).advertiser)
        (record db { customers = refunded d db.customers }) es)

-- Once the database has served a whole round of the job that refunds deals, no deal is left to be
-- refunded, provided that the advertiser of each deal is a customer.
pub check_and_refund_terminal_deals-clears :
    (r : Round) (db : Db)
    → r.fetch_up ≡ true
    → ((id : ℕ) (n : ℕ) → r.up id n ≡ true)
    → AllRows (HasAdvertiser db) (get_deals_for_refund db.deals)
    → (i : ℕ) (d : Deal) → lookup i (check_and_refund_terminal_deals r db).0.deals ≡ some d
    → needs_refund d ≡ false
unfolding check_and_refund_terminal_deals get_deals_for_refund
check_and_refund_terminal_deals-clears r db fetch up advertisers i d e =
    each-clears needs_refund (HasAdvertiser db) (Present db) (refund_one r db)
      (refund_one-Present r db up)
      (λ id d w g there.
        rw (refund_one-deals r db up id d w g there)
          (update_deal-clears needs_refund id mark_refunded w.0.deals refund-out))
      (get_deals_for_refund db.deals) (db, []) advertisers (λ k c h. (c, h))
      (filter-HasKey needs_refund db.deals) i d
      (subst
        (λ b.
          lookup i
            (each (refund_one r db) (fetched b (get_deals_for_refund db.deals)) (db, [])).0.deals
          ≡ some d)
        fetch e)

-- The database after a served refund.
refund_one-served :
    (r : Round) (read : Db) (id : ℕ) (d : Deal) (c : Customer) (db : Db) (es : List Event)
    → ((id : ℕ) (n : ℕ) → r.up id n ≡ true)
    → lookup id db.deals ≡ some d
    → lookup d.advertiser_customer_id db.customers ≡ some c
    → (refund_one r read id d (db, es)).0
      ≡ record db { customers = refunded d db.customers; deals = modify id mark_refunded db.deals }
unfolding refund_one
refund_one-served r read id d c db es up there e =
    rw
      (
        up id 0,
        unlock-served d db.customers c e,
        up id 1,
        update_deal-served id mark_refunded db.deals d there,
      )
      refl

-- If the database refuses the mark, the price has gone back all the same, and the deals are as they
-- were.
refund_one-unmarked :
    (r : Round) (read : Db) (id : ℕ) (d : Deal) (c : Customer) (db : Db) (es : List Event)
    → r.up id 0 ≡ true
    → r.up id 1 ≡ false
    → lookup d.advertiser_customer_id db.customers ≡ some c
    → (refund_one r read id d (db, es)).0 ≡ record db { customers = refunded d db.customers }
unfolding refund_one
refund_one-unmarked r read id d c db es first second e =
    rw (first, unlock-served d db.customers c e, second, update_deal-down id mark_refunded db.deals)
      refl

-- A refund whose mark is refused and a served refund of the same deal after it pay the price back
-- twice.
refund_one-twice :
    (r again : Round) (read : Db) (id : ℕ) (d : Deal) (c : Customer) (db : Db) (es : List Event)
    → r.up id 0 ≡ true
    → r.up id 1 ≡ false
    → ((id : ℕ) (n : ℕ) → again.up id n ≡ true)
    → lookup id db.deals ≡ some d
    → lookup d.advertiser_customer_id db.customers ≡ some c
    → (refund_one again read id d (refund_one r read id d (db, es))).0.customers
      ≡ refunded d (refunded d db.customers)
refund_one-twice r again read id d c db es first second up there e =
    let (c', e') = refunded-present d db.customers d.advertiser_customer_id c e in
    let unmarked = record db { customers = refunded d db.customers } in
    let told = (refund_one r read id d (db, es)).1 in
    subst
      (λ x.
        (refund_one again read id d (x, told)).0.customers ≡ refunded d (refunded d db.customers))
      (sym (refund_one-unmarked r read id d c db es first second e))
      (ap (λ x. x.customers) (refund_one-served again read id d c' unmarked told up there e'))

canceled_draft :
    (v : DealView) (db : Db)
    → v.deal.status ≡ draft
    → lookup v.deal_id db.deals ≡ some v.deal
    → (cancel_deal (λ n. true) v db).db
      ≡ record db { deals = modify v.deal_id (set_status canceled) db.deals }
unfolding cancel_deal to_int
canceled_draft v db h there =
    rw (h, update_deal-served v.deal_id (set_status canceled) db.deals v.deal there) refl

-- If the database serves all of it, a draft that is not yet refunded is cancelled; then it is to be
-- refunded like any other deal, and the refund pays its price from the advertiser's locked to the
-- free balance.
pub canceled_draft-refunded :
    (r : Round) (read : Db) (v : DealView) (c : Customer) (db : Db) (es : List Event)
    → ((id : ℕ) (n : ℕ) → r.up id n ≡ true)
    → lookup v.deal_id db.deals ≡ some v.deal
    → v.deal.status ≡ draft
    → v.deal.balance_refunded ≡ false
    → lookup v.deal.advertiser_customer_id db.customers ≡ some c
    → let d = set_status canceled v.deal in
      let db' = (cancel_deal (λ n. true) v db).db in
      (lookup v.deal_id db'.deals ≡ some d)
      × (needs_refund d ≡ true)
      × ((refund_one r read v.deal_id d (db', es)).0.customers ≡ refunded v.deal db.customers)
unfolding to_int
canceled_draft-refunded r read v c db es up there draft_status unrefunded e =
    let f = set_status canceled in
    let there' = lookup-modify-some v.deal_id f db.deals v.deal there in
    rw (canceled_draft v db draft_status there) (
      there',
      ap not unrefunded,
      ap (λ x. x.customers)
          (refund_one-served r read v.deal_id (f v.deal) c
            (record db { deals = modify v.deal_id f db.deals }) es up there' e),
    )
