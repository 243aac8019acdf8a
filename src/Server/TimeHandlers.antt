-- ===== src/Server/TimeHandlers.antt =====
-- The handlers of internal/modules/server/deal_handlers.go that agree on the time of publication,
-- and `ReviseDealData`, for which no route is registered.
use tam_backend.Prelude.{
  ltb, ◌==◌, if◌then◌else◌, pos, Text, ℕ, ◌+◌, not, Option, none, some, List, [], ◌∷◌,
}
use tam_backend.Common.DealStatus.{
  discussion, in_progress, awaiting_approval_time, awaiting_publication, get_deal_status_duration,
}
use tam_backend.Common.Errors.{unauthorized, invalid_request, internal_error, ok, err}
use tam_backend.Common.TargetType.{
  params, bad_parts, bad_top_hours, bad_common_hours, parse_deal_target_type_to_params,
  hours_duration, add_time,
}
use tam_backend.Common.Datetime.{validate_publication_time}
use tam_backend.Storage.Schema.{Customer, Deal, Db}
use tam_backend.Storage.Deals.{status_eq, update_deal}
use tam_backend.Storage.Views.{DealView, get_deal}
use tam_backend.Server.Outcome.{
  post_scheduled, time_declined, time_proposed, revision_requested, Event, notification, Outcome,
  Env, Answers, refuse, notify,
}
use tam_backend.Server.DealHandlers.{set_status, after_update, reloaded, status_before}

abbrev pub scheduled : ℕ → ℕ → ℕ → Deal → Deal
scheduled published_at top common d = record d {
  status = awaiting_publication;
  top_deadline = some (add_time published_at (hours_duration (pos top)));
  common_deadline = some (add_time published_at (hours_duration (pos common)));
}

-- Both sides are told, if the reload finds the time and both of them.
abbrev pub scheduled_events : ℕ → DealView → List Event
scheduled_events id v = elim v.deal.publication_time [
  | none ↦ []
  | some t ↦ elim v.advertiser [
    | none ↦ []
    | some a ↦ elim v.channel_manager [
      | none ↦ []
      | some m ↦
          notification a.tg_id post_scheduled id ∷ notification m.tg_id post_scheduled id ∷ []
    ]
  ]
]

-- `ApproveDealData`.
unfoldable pub approve_deal_data : Answers → DealView → Db → Outcome
approve_deal_data up v db =
    if not (status_eq v.deal.status awaiting_approval_time)
    then refuse invalid_request db
    else elim v.deal.publication_time [
      | none ↦ refuse invalid_request db
      | some t ↦ elim (parse_deal_target_type_to_params v.deal.target_type) [
        | params typ top common ↦
            after_update 202 db (reloaded (up 1) v.deal_id (scheduled_events v.deal_id))
              (update_deal (up 0) v.deal_id (scheduled t top common) db.deals)
        | bad_parts n ↦ refuse invalid_request db
        | bad_top_hours s ↦ refuse invalid_request db
        | bad_common_hours s ↦ refuse invalid_request db
      ]
    ]

-- `DeclineDeal`.
unfoldable pub decline_deal : Answers → DealView → Db → Outcome
decline_deal up v db =
    if not (status_eq v.deal.status awaiting_approval_time)
    then refuse invalid_request db
    else after_update 202 db
        (reloaded (up 1) v.deal_id (λ w. notify time_declined v.deal_id w.channel_manager))
        (update_deal (up 0) v.deal_id (set_status in_progress) db.deals)

abbrev pub proposed : Env → ℕ → Deal → Deal
proposed env t d =
    let deadline = env.later + get_deal_status_duration awaiting_approval_time in
    record d {
      publication_time = some t;
      expires_at = deadline;
      status = status_before deadline env.later awaiting_approval_time;
    }

-- `ApproveAndProposeTime`.
unfoldable pub approve_and_propose_time : Env → Answers → Text → DealView → Db → Outcome
approve_and_propose_time env up time v db =
    if not (status_eq v.deal.status in_progress)
    then refuse invalid_request db
    else elim (validate_publication_time env.parse_rfc3339 env.now time) [
      | none ↦ refuse invalid_request db
      | some t ↦
          after_update 202 db
            (reloaded (up 1) v.deal_id (λ w. notify time_proposed v.deal_id w.advertiser))
            (update_deal (up 0) v.deal_id (proposed env t) db.deals)
    ]

-- The other party of the deal, as `ReviseDealData` picks it.
abbrev pub other_party : ℕ → DealView → Option Customer
other_party u v = if u == v.deal.advertiser_customer_id then v.channel_manager else v.advertiser

abbrev pub revised_events : ℕ → DealView → List Event
revised_events u v = elim (other_party u v) [
  | none ↦ []
  | some c ↦ if ltb 0 c.tg_id then notification c.tg_id revision_requested v.deal_id ∷ [] else []
]

-- `ReviseDealData`.
unfoldable pub revise_deal_data : Answers → Option ℕ → ℕ → Db → Outcome
revise_deal_data up user id db = elim user [
  | none ↦ refuse unauthorized db
  | some u ↦ elim (get_deal (up 0) id db) [
    | err e ↦ refuse internal_error db
    | ok v ↦
        after_update 202 db (λ db'. revised_events u v)
          (update_deal (up 1) id (set_status discussion) db.deals)
  ]
]
