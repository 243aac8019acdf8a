-- ===== src/System/Requests.antt =====
-- The requests of internal/modules/server keep the money of all customers.
use tam_backend.Common.DealStatus.{draft}
use tam_backend.Storage.Deals.{DealsUpdated, status_eq, update_deal}
use tam_backend.Storage.Customers.{
  Customers, Updated, lock_balance_for_deal, unlock_balance_for_deal, TxAnswers,
  transfer_balance_to_manager_for_deal,
}
use tam_backend.Common.Datetime.{PreferableDatetime, validate_preferable_datetime}
use tam_backend.Prelude.{
  Bool-cases, Option-cases, Text, ℕ, ◌≡◌, inl, inr, Bool, Option, none, some, arith,
}
use tam_backend.Storage.Schema.{Db, Target, Deal}
use tam_backend.Storage.Views.{DealView}
use tam_backend.Server.Outcome.{Env, Answers}
use tam_backend.Server.DealHandlers.{
  send_deal_data, make_deal, cancel_deal, accept_deal, get_deal_data, deal_message, made,
  after_make, after_lock,
}
use tam_backend.Server.TimeHandlers.{approve_deal_data, decline_deal, approve_and_propose_time}
use tam_backend.Server.Access.{
  Route, send_deal_data_route, approve_deal_data_route, accept_deal_route, deal_message_route,
  decline_deal_route, cancel_deal_route, get_deal_data_route, get_deal_route, make_deal_route,
  approve_and_propose_time_route, DealRequest, handle, rest, serve,
}
use tam_backend.Server.Access.Authorization.{serve-cases}

-- A property of the customers that the escrow operations keep.
pub record Kept (P : Customers → Type 0) : Type 0 where
  pub locks : (up : Bool) (d : Deal) (cs : Customers) → P cs → P (lock_balance_for_deal up d cs).1
  pub unlocks :
      (up : Bool) (d : Deal) (cs : Customers) → P cs → P (unlock_balance_for_deal up d cs).1
  pub transfers :
      (up : TxAnswers) (d : Deal) (cs : Customers)
      → P cs
      → P (transfer_balance_to_manager_for_deal up d cs).1

-- The handlers that touch no balance.
module _ (v : DealView) (db : Db) where
  send_deal_data-customers : (u : ℕ) → (send_deal_data (some u) v db).db.customers ≡ db.customers
  unfolding send_deal_data
  send_deal_data-customers u = ground arith

  cancel_deal-customers : (up : Answers) → (cancel_deal up v db).db.customers ≡ db.customers
  unfolding cancel_deal
  cancel_deal-customers up = ground arith

  accept_deal-customers : (up : Answers) → (accept_deal up v db).db.customers ≡ db.customers
  unfolding accept_deal
  accept_deal-customers up = ground arith

  decline_deal-customers : (up : Answers) → (decline_deal up v db).db.customers ≡ db.customers
  unfolding decline_deal
  decline_deal-customers up = ground arith

  approve_deal_data-customers :
      (up : Answers) → (approve_deal_data up v db).db.customers ≡ db.customers
  unfolding approve_deal_data
  approve_deal_data-customers up = ground arith

  approve_and_propose_time-customers :
      (env : Env) (up : Answers) (t : Text)
      → (approve_and_propose_time env up t v db).db.customers ≡ db.customers
  unfolding approve_and_propose_time
  approve_and_propose_time-customers env up t = ground arith

  deal_message-customers : (u : ℕ) → (deal_message (some u) v db).db.customers ≡ db.customers
  unfolding deal_message
  deal_message-customers u = ground arith

  get_deal_data-customers : (u : ℕ) → (get_deal_data (some u) v db).db.customers ≡ db.customers
  unfolding get_deal_data
  get_deal_data-customers u = ground arith

module _ (P : Customers → Type 0) (kept : Kept P) where
  after_make-keeps :
      (v : DealView) (db : Db) (u : DealsUpdated)
      → P db.customers
      → P (after_make v db u).db.customers
  after_make-keeps v db (some e, ds) h = h
  after_make-keeps v db (none, ds) h = elim (Option-cases v.channel_manager) [
    | inl e ↦ rw e h
    | inr (m, e) ↦ rw e h
  ]

  after_lock-keeps :
      (env : Env) (up : Bool) (pd : Option PreferableDatetime) (t : Target) (v : DealView) (db : Db)
      (u : Updated)
      → P db.customers
      → P u.1
      → P (after_lock env up pd t v db u).db.customers
  after_lock-keeps env up pd t v db (some e, cs) h k = h
  after_lock-keeps env up pd t v db (none, cs) h k =
      after_make-keeps v (record db { customers = cs })
        (update_deal up v.deal_id (made env pd t) db.deals) k

  make_deal-keeps :
      (env : Env) (up : Answers) (pd : Option PreferableDatetime) (v : DealView) (db : Db)
      → P db.customers
      → P (make_deal env up pd v db).db.customers
  unfolding make_deal
  make_deal-keeps env up pd v db h = elim (Bool-cases (status_eq v.deal.status draft)) [
    | inr e ↦ rw e h
    | inl e ↦ elim (Option-cases v.deal.target) [
      | inl q ↦ rw (e, q) h
      | inr (t, q) ↦ elim (Option-cases (validate_preferable_datetime env.tomorrow pd)) [
        | inr (x, p) ↦ rw (e, q, p) h
        | inl p ↦
            rw (e, q, p)
              (after_lock-keeps env (up 1) pd t v db
                (lock_balance_for_deal (up 0) v.deal db.customers) h
                (kept.locks (up 0) v.deal db.customers h))
      ]
    ]
  ]

  handle-keeps :
      (env : Env) (up : Answers) (route : Route) (u : ℕ) (v : DealView) (db : Db)
      → P db.customers
      → P (handle env up route u v db).db.customers
  unfolding handle
  handle-keeps env up send_deal_data_route u v db h = rw (send_deal_data-customers v db u) h
  handle-keeps env up (make_deal_route none) u v db h = h
  handle-keeps env up (make_deal_route (some pd)) u v db h = make_deal-keeps env up pd v db h
  handle-keeps env up approve_deal_data_route u v db h = rw (approve_deal_data-customers v db up) h
  handle-keeps env up accept_deal_route u v db h = rw (accept_deal-customers v db up) h
  handle-keeps env up (approve_and_propose_time_route none) u v db h = h
  handle-keeps env up (approve_and_propose_time_route (some t)) u v db h =
      rw (approve_and_propose_time-customers v db env up t) h
  handle-keeps env up deal_message_route u v db h = rw (deal_message-customers v db u) h
  handle-keeps env up decline_deal_route u v db h = rw (decline_deal-customers v db up) h
  handle-keeps env up cancel_deal_route u v db h = rw (cancel_deal-customers v db up) h
  handle-keeps env up get_deal_data_route u v db h = rw (get_deal_data-customers v db u) h
  handle-keeps env up get_deal_route u v db h = h

  pub serve-keeps :
      (validate_jwt : Text → Option ℕ) (env : Env) (up : Answers) (req : DealRequest) (db : Db)
      → P db.customers
      → P (serve validate_jwt env up req db).db.customers
  serve-keeps validate_jwt env up req db h = elim (serve-cases validate_jwt env up req db) [
    | inl (e, p) ↦ rw p h
    | inr (u, v, fresh, p) ↦ rw p (handle-keeps env (rest up) req.route u v db h)
  ]
