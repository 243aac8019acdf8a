-- ===== src/Workflow/Requests.antt =====
-- The deal requests of internal/modules/server/deal_handlers.go against the diagram.
use tam_backend.Common.Datetime.{
  PreferableDatetime, validate_preferable_datetime, validate_publication_time,
}
use tam_backend.Storage.Customers.{Customers, Updated, lock_balance_for_deal}
use tam_backend.Server.Access.{
  Route, send_deal_data_route, approve_deal_data_route, accept_deal_route, deal_message_route,
  decline_deal_route, cancel_deal_route, get_deal_data_route, get_deal_route, make_deal_route,
  approve_and_propose_time_route, DealRequest, handle, rest, serve,
}
use tam_backend.Server.Access.Authorization.{serve-cases}
use tam_backend.Common.TargetType.{
  Params, params, bad_parts, bad_top_hours, bad_common_hours, parse_deal_target_type_to_params,
}
use tam_backend.Server.TimeHandlers.{
  scheduled, scheduled_events, approve_deal_data, decline_deal, proposed, approve_and_propose_time,
}
use tam_backend.Prelude.{
  ltb, Bool-cases, Option-cases, lookup, Text, ℕ, ◌+◌, ◌≡◌, refl, sym, ap, subst, inl, inr, Bool,
  true, Option, none, some, List, arith,
}
use tam_backend.Common.DealStatus.{
  DealStatus, draft, pending, discussion, in_progress, awaiting_approval, awaiting_approval_time,
  awaiting_publication, published, canceled, expired, terms_violated, completed, err_publish,
  err_bad_target, to_int, get_deal_status_duration,
}
use tam_backend.Storage.Schema.{Deal, Db, Target}
use tam_backend.Storage.Deals.{DealsUpdated, status_eq, status_in, update_deal}
use tam_backend.Storage.Views.{DealView}
use tam_backend.Server.Outcome.{
  Event, Answers, deal_accepted, time_declined, notify, time_proposed, Env,
}
use tam_backend.Server.DealHandlers.{
  after_update, cancel_allowed_statuses, accept_deal, set_status, reloaded, cancel_deal,
  send_deal_data, status_before, made, after_make, after_lock, make_deal, get_deal_data,
  deal_message,
}
use tam_backend.Workflow.Diagram.{
  IsOpen, open_draft, open_pending, open_discussion, open_in_progress, open_awaiting_approval,
  open_awaiting_approval_time, open_awaiting_publication, ◌⟶◌, accept, Advances, Advances-refl, Row,
  decline, approve, cancel, Row-update_deal, make, make_late, propose, propose_late,
}

pub status_eq_sound : (s t : DealStatus) → status_eq s t ≡ true → s ≡ t
unfolding to_int
status_eq_sound s t h = ground arith

status_in-IsOpen : (s : DealStatus) → status_in cancel_allowed_statuses s ≡ true → IsOpen s
unfolding to_int
status_in-IsOpen draft h = open_draft
status_in-IsOpen pending h = open_pending
status_in-IsOpen discussion h = open_discussion
status_in-IsOpen in_progress h = open_in_progress
status_in-IsOpen awaiting_approval h = open_awaiting_approval
status_in-IsOpen awaiting_approval_time h = open_awaiting_approval_time
status_in-IsOpen awaiting_publication h = open_awaiting_publication
status_in-IsOpen published h = cc
status_in-IsOpen canceled h = cc
status_in-IsOpen expired h = cc
status_in-IsOpen terms_violated h = cc
status_in-IsOpen completed h = cc
status_in-IsOpen err_publish h = cc
status_in-IsOpen err_bad_target h = cc

-- A status that the test `status_eq` has found, and an edge from there.
edge_from : {s t : DealStatus} (x : DealStatus) → status_eq x s ≡ true → s ⟶ t → x ⟶ t
edge_from {s} {t} x h e = subst (λ y. y ⟶ t) (sym (status_eq_sound x s h)) e

-- A deal `d` in the database, at `j`, and a request for the deal `v`, as it is in the database.
module _ (j : ℕ) (d : Deal) (v : DealView) (db : Db) (there : lookup j db.deals ≡ some d)
    (fresh : lookup v.deal_id db.deals ≡ some v.deal) where
  same_deal : j ≡ v.deal_id → v.deal ≡ d
  same_deal p = ground (arith, ap (λ k. lookup k db.deals) p)

  unmoved : Row j d db.deals
  unmoved = (d, there, Advances-refl d)

  -- An update of the request's deal that takes the status along an edge.
  updated :
      (up : Bool) (f : Deal → Deal)
      → (f v.deal).advertiser_customer_id ≡ v.deal.advertiser_customer_id
      → (f v.deal).channel_manager_id ≡ v.deal.channel_manager_id
      → (f v.deal).ton_price ≡ v.deal.ton_price
      → (f v.deal).balance_refunded ≡ v.deal.balance_refunded
      → v.deal.status ⟶ (f v.deal).status
      → Row j d (update_deal up v.deal_id f db.deals).1
  updated up f a m p r e = Row-update_deal up v.deal_id f db.deals j d there λ q.
      subst (λ x. Advances x (f x)) (same_deal q)
        (record {
          same_advertiser = a;
          same_manager = m;
          same_price = p;
          same_refund = r;
          step = inr e;
        })

  after_update-Row :
      (n : ℕ) (ev : Db → List Event) (r : DealsUpdated)
      → Row j d r.1
      → Row j d (after_update n db ev r).db.deals
  after_update-Row n ev (some e, ds) h = unmoved
  after_update-Row n ev (none, ds) h = h

  accept_deal-Row : (up : Answers) → Row j d (accept_deal up v db).db.deals
  unfolding accept_deal
  accept_deal-Row up = elim (Bool-cases (status_eq v.deal.status pending)) [
    | inr e ↦ rw e unmoved
    | inl e ↦ rw e (
        after_update-Row 202 (λ db'. notify deal_accepted v.deal_id v.advertiser)
          (update_deal (up 0) v.deal_id (set_status in_progress) db.deals)
          (updated (up 0) (set_status in_progress) refl refl refl refl
            (edge_from v.deal.status e accept)))
  ]

  cancel_deal-Row : (up : Answers) → Row j d (cancel_deal up v db).db.deals
  unfolding cancel_deal
  cancel_deal-Row up = elim (Bool-cases (status_in cancel_allowed_statuses v.deal.status)) [
    | inr e ↦ rw e unmoved
    | inl e ↦ rw e (
        updated (up 0) (set_status canceled) refl refl refl refl
          (cancel (status_in-IsOpen v.deal.status e)))
  ]

  decline_deal-Row : (up : Answers) → Row j d (decline_deal up v db).db.deals
  unfolding decline_deal
  decline_deal-Row up = elim (Bool-cases (status_eq v.deal.status awaiting_approval_time)) [
    | inr e ↦ rw e unmoved
    | inl e ↦ rw e (
        after_update-Row 202
          (reloaded (up 1) v.deal_id (λ w. notify time_declined v.deal_id w.channel_manager))
          (update_deal (up 0) v.deal_id (set_status in_progress) db.deals)
          (updated (up 0) (set_status in_progress) refl refl refl refl
            (edge_from v.deal.status e decline)))
  ]

  schedule-Row :
      (up : Answers) (t : ℕ) (p : Params)
      → status_eq v.deal.status awaiting_approval_time ≡ true
      → p ≡ parse_deal_target_type_to_params v.deal.target_type
      → v.deal.publication_time ≡ some t
      → Row j d (approve_deal_data up v db).db.deals
  unfolding approve_deal_data
  schedule-Row up t (params typ top common) e p q =
      rw (e, q, ← p)
        (after_update-Row 202 (reloaded (up 1) v.deal_id (scheduled_events v.deal_id))
          (update_deal (up 0) v.deal_id (scheduled t top common) db.deals)
          (updated (up 0) (scheduled t top common) refl refl refl refl
            (edge_from v.deal.status e approve)))
  schedule-Row up t (bad_parts n) e p q = rw (e, q, ← p) unmoved
  schedule-Row up t (bad_top_hours s) e p q = rw (e, q, ← p) unmoved
  schedule-Row up t (bad_common_hours s) e p q = rw (e, q, ← p) unmoved

  approve_deal_data-Row : (up : Answers) → Row j d (approve_deal_data up v db).db.deals
  unfolding approve_deal_data
  approve_deal_data-Row up = elim (Bool-cases (status_eq v.deal.status awaiting_approval_time)) [
    | inr e ↦ rw e unmoved
    | inl e ↦ elim (Option-cases v.deal.publication_time) [
      | inl q ↦ rw (e, q) unmoved
      | inr (t, q) ↦
          schedule-Row up t (parse_deal_target_type_to_params v.deal.target_type) e refl q
    ]
  ]

  -- A status with a deadline that the clock may have passed.
  before_deadline :
      {s t : DealStatus} (deadline clock : ℕ)
      → s ⟶ t
      → s ⟶ expired
      → s ⟶ status_before deadline clock t
  before_deadline deadline clock e l = elim (Bool-cases (ltb deadline clock)) [
    | inl h ↦ rw h l
    | inr h ↦ rw h e
  ]

  approve_and_propose_time-Row :
      (env : Env) (up : Answers) (s : Text)
      → Row j d (approve_and_propose_time env up s v db).db.deals
  unfolding approve_and_propose_time
  approve_and_propose_time-Row env up s = elim (Bool-cases (status_eq v.deal.status in_progress)) [
    | inr e ↦ rw e unmoved
    | inl e ↦ elim (Option-cases (validate_publication_time env.parse_rfc3339 env.now s)) [
      | inl q ↦ rw (e, q) unmoved
      | inr (t, q) ↦
          rw (e, q)
            (after_update-Row 202
              (reloaded (up 1) v.deal_id (λ w. notify time_proposed v.deal_id w.advertiser))
              (update_deal (up 0) v.deal_id (proposed env t) db.deals)
              (updated (up 0) (proposed env t) refl refl refl refl (
                edge_from v.deal.status e (
                  before_deadline (env.later + get_deal_status_duration awaiting_approval_time)
                    env.later propose propose_late))))
    ]
  ]

  after_make-Row :
      (cs : Customers) (r : DealsUpdated)
      → Row j d r.1
      → Row j d (after_make v (record db { customers = cs }) r).db.deals
  after_make-Row cs (some e, ds) h = unmoved
  after_make-Row cs (none, ds) h = elim (Option-cases v.channel_manager) [
    | inl e ↦ rw e h
    | inr (m, e) ↦ rw e h
  ]

  after_lock-Row :
      (env : Env) (up : Bool) (pd : Option PreferableDatetime) (t : Target) (r : Updated)
      → status_eq v.deal.status draft ≡ true
      → Row j d (after_lock env up pd t v db r).db.deals
  after_lock-Row env up pd t (some x, cs) e = unmoved
  after_lock-Row env up pd t (none, cs) e =
      after_make-Row cs (update_deal up v.deal_id (made env pd t) db.deals) (
        updated up (made env pd t) refl refl refl refl (
          edge_from v.deal.status e (
            before_deadline (env.now + get_deal_status_duration pending) env.later make make_late)))

  make_deal-Row :
      (env : Env) (up : Answers) (pd : Option PreferableDatetime)
      → Row j d (make_deal env up pd v db).db.deals
  unfolding make_deal
  make_deal-Row env up pd = elim (Bool-cases (status_eq v.deal.status draft)) [
    | inr e ↦ rw e unmoved
    | inl e ↦ elim (Option-cases v.deal.target) [
      | inl q ↦ rw (e, q) unmoved
      | inr (t, q) ↦ elim (Option-cases (validate_preferable_datetime env.tomorrow pd)) [
        | inr (x, p) ↦ rw (e, q, p) unmoved
        | inl p ↦
            rw (e, q, p)
              (after_lock-Row env (up 1) pd t (lock_balance_for_deal (up 0) v.deal db.customers) e)
      ]
    ]
  ]

  -- The handlers that only send messages.
  send_deal_data-Row : (u : ℕ) → (send_deal_data (some u) v db).db.deals ≡ db.deals
  unfolding send_deal_data
  send_deal_data-Row u = ground arith

  deal_message-Row : (u : ℕ) → (deal_message (some u) v db).db.deals ≡ db.deals
  unfolding deal_message
  deal_message-Row u = ground arith

  get_deal_data-Row : (u : ℕ) → (get_deal_data (some u) v db).db.deals ≡ db.deals
  unfolding get_deal_data
  get_deal_data-Row u = ground arith

  handle-Row :
      (env : Env) (up : Answers) (route : Route) (u : ℕ)
      → Row j d (handle env up route u v db).db.deals
  unfolding handle
  handle-Row env up send_deal_data_route u = rw (send_deal_data-Row u) unmoved
  handle-Row env up (make_deal_route none) u = unmoved
  handle-Row env up (make_deal_route (some pd)) u = make_deal-Row env up pd
  handle-Row env up approve_deal_data_route u = approve_deal_data-Row up
  handle-Row env up accept_deal_route u = accept_deal-Row up
  handle-Row env up (approve_and_propose_time_route none) u = unmoved
  handle-Row env up (approve_and_propose_time_route (some t)) u =
      approve_and_propose_time-Row env up t
  handle-Row env up deal_message_route u = rw (deal_message-Row u) unmoved
  handle-Row env up decline_deal_route u = decline_deal-Row up
  handle-Row env up cancel_deal_route u = cancel_deal-Row up
  handle-Row env up get_deal_data_route u = rw (get_deal_data-Row u) unmoved
  handle-Row env up get_deal_route u = unmoved

-- A request to a deal route keeps every deal of the database, with its parties, its price and the
-- mark of its refund, and leaves its status or moves it one step along the diagram.
pub serve_workflow :
    (validate_jwt : Text → Option ℕ) (env : Env) (up : Answers) (req : DealRequest) (db : Db)
    (j : ℕ) (d : Deal)
    → lookup j db.deals ≡ some d
    → (d' : Deal) × (lookup j (serve validate_jwt env up req db).db.deals ≡ some d') × Advances d d'
serve_workflow validate_jwt env up req db j d there =
    elim (serve-cases validate_jwt env up req db) [
      | inl (e, p) ↦ rw p (d, there, Advances-refl d)
      | inr (u, v, fresh, p) ↦ rw p (handle-Row j d v db there fresh env (rest up) req.route u)
    ]
