-- ===== src/Server/DealHandlers.antt =====
-- internal/modules/server/deal_handlers.go: the handlers behind the deal middleware. A handler gets
-- the deal as the middleware read it, which may be older than the database on which it works.
pub mod Locking
use tam_backend.Prelude.{
  ltb, ◌==◌, if◌then◌else◌, ℕ, ◌+◌, Bool, not, Option, none, some, List, [], ◌∷◌,
}
use tam_backend.Common.DealStatus.{
  DealStatus, draft, pending, discussion, in_progress, awaiting_approval, awaiting_approval_time,
  awaiting_publication, published, canceled, expired, get_deal_status_duration,
}
use tam_backend.Common.Errors.{
  unauthorized, invalid_request, internal_error, insufficient_balance, ok, err,
}
use tam_backend.Common.Datetime.{PreferableDatetime, validate_preferable_datetime}
use tam_backend.Storage.Schema.{Target, Deal, Db}
use tam_backend.Storage.Customers.{Updated, lock_balance_for_deal}
use tam_backend.Storage.Deals.{DealsUpdated, status_eq, status_in, update_deal}
use tam_backend.Storage.Views.{DealView, get_deal}
use tam_backend.Server.Outcome.{
  panicked, new_incoming_deal, deal_accepted, Event, notification, post, show_deal, dialog, Outcome,
  Env, Answers, refuse, reply_with, notify,
}

abbrev pub set_status : DealStatus → Deal → Deal
set_status s d = record d { status = s }

-- After `UpdateDeal`: an internal error, or the reply with its messages.
abbrev pub after_update : ℕ → Db → (Db → List Event) → DealsUpdated → Outcome
after_update status db events (some e, _) = refuse internal_error db
after_update status db events (none, ds) =
    let db' = record db { deals = ds } in reply_with status (events db') db'

-- Messages after a second `GetDeal`, which is let fail.
abbrev pub reloaded : Bool → ℕ → (DealView → List Event) → Db → List Event
reloaded up id events db = elim (get_deal up id db) [ err e ↦ [] | ok v ↦ events v ]

-- `SendDealData`.
unfoldable pub send_deal_data : Option ℕ → DealView → Db → Outcome
send_deal_data user v db =
    if v.deal_id == 0
    then refuse invalid_request db
    else if not (status_eq v.deal.status draft)
    then refuse invalid_request db
    else elim user [
      | none ↦ refuse unauthorized db
      | some u ↦ reply_with 202 (post v.deal_id u ∷ []) db
    ]

-- The target with the preferred window merged in.
abbrev pub with_datetime : Option PreferableDatetime → Target → Target
with_datetime none t = t
with_datetime (some p) t = record t { preferable_datetime = some p }

-- The status behind a deadline: EXPIRED if the deadline has passed meanwhile.
abbrev pub status_before : ℕ → ℕ → DealStatus → DealStatus
status_before deadline clock s = if ltb deadline clock then expired else s

abbrev pub made : Env → Option PreferableDatetime → Target → Deal → Deal
made env pd t d =
    let deadline = env.now + get_deal_status_duration pending in
    record d {
      target = some (with_datetime pd t);
      expires_at = deadline;
      status = status_before deadline env.later pending;
    }

-- The notification of `MakeDeal` reads the manager without a test for nil.
abbrev pub after_make : DealView → Db → DealsUpdated → Outcome
after_make v db (some e, _) = refuse internal_error db
after_make v db (none, ds) =
    let db' = record db { deals = ds } in
    elim v.channel_manager [
      | none ↦ record { db = db'; reply = panicked; events = [] }
      | some m ↦ reply_with 202 (notification m.tg_id new_incoming_deal v.deal_id ∷ []) db'
    ]

-- After `LockBalanceForDeal`.
abbrev pub after_lock :
    Env → Bool → Option PreferableDatetime → Target → DealView → Db → Updated → Outcome
after_lock env up pd t v db (some e, _) = refuse insufficient_balance db
after_lock env up pd t v db (none, cs) =
    after_make v (record db { customers = cs }) (update_deal up v.deal_id (made env pd t) db.deals)

-- `MakeDeal`.
unfoldable pub make_deal : Env → Answers → Option PreferableDatetime → DealView → Db → Outcome
make_deal env up pd v db =
    if not (status_eq v.deal.status draft) then refuse invalid_request db else elim v.deal.target [
      | none ↦ refuse invalid_request db
      | some t ↦ elim (validate_preferable_datetime env.tomorrow pd) [
        | some e ↦ refuse invalid_request db
        | none ↦ after_lock env (up 1) pd t v db (lock_balance_for_deal (up 0) v.deal db.customers)
      ]
    ]

abbrev pub cancel_allowed_statuses : List DealStatus
cancel_allowed_statuses =
    draft ∷ pending ∷ in_progress ∷ discussion ∷ awaiting_approval ∷ awaiting_approval_time
    ∷ awaiting_publication ∷ []

-- `CancelDeal`, which ignores the error of its update.
unfoldable pub cancel_deal : Answers → DealView → Db → Outcome
cancel_deal up v db =
    if not (status_in cancel_allowed_statuses v.deal.status)
    then refuse invalid_request db
    else reply_with 202 []
        (record db { deals = (update_deal (up 0) v.deal_id (set_status canceled) db.deals).1 })

-- `AcceptDeal`.
unfoldable pub accept_deal : Answers → DealView → Db → Outcome
accept_deal up v db =
    if not (status_eq v.deal.status pending)
    then refuse invalid_request db
    else after_update 202 db (λ db'. notify deal_accepted v.deal_id v.advertiser)
        (update_deal (up 0) v.deal_id (set_status in_progress) db.deals)

-- `GetDealData`; `MapDeal` gives nil if the target cannot be read.
unfoldable pub get_deal_data : Option ℕ → DealView → Db → Outcome
get_deal_data user v db = elim user [
  | none ↦ refuse unauthorized db
  | some u ↦ elim v.deal.target [
    | none ↦ reply_with 200 (show_deal v.deal_id u ∷ []) db
    | some t ↦
        if t.well_formed
        then reply_with 200 (show_deal v.deal_id u ∷ []) db
        else refuse internal_error db
  ]
]

abbrev pub message_statuses : List DealStatus
message_statuses =
    in_progress ∷ discussion ∷ awaiting_approval ∷ awaiting_approval_time ∷ awaiting_publication
    ∷ published ∷ []

-- `DealMessage`.
unfoldable pub deal_message : Option ℕ → DealView → Db → Outcome
deal_message user v db = elim user [
  | none ↦ refuse unauthorized db
  | some u ↦
      if not (status_in message_statuses v.deal.status)
      then refuse invalid_request db
      else if u == v.deal.advertiser_customer_id
      then reply_with 201 (dialog v.deal_id u v.deal.channel_manager_id ∷ []) db
      else if u == v.deal.channel_manager_id
      then reply_with 201 (dialog v.deal_id u v.deal.advertiser_customer_id ∷ []) db
      else refuse invalid_request db
]
