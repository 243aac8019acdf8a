-- ===== src/Server/Access/Authorization.antt =====
-- Who may act on a deal: the deal routes of internal/modules/server/server.go.
use tam_backend.Prelude.{
  ◌==◌, Bool-cases, Option-cases, lookup, Text, ℕ, ◌≡◌, refl, ◌⊎◌, inl, inr, true, false, not, ◌&&◌,
  Option, some, arith,
}
use tam_backend.Common.Errors.{
  Error, unauthorized, forbidden, not_deal_participant, Result, ok, err, internal_error, not_found,
  deal_not_found,
}
use tam_backend.Storage.Schema.{Deal, Db}
use tam_backend.Storage.Views.{DealView, get_deal, get_deal-ok, get_deal-fresh}
use tam_backend.Server.Outcome.{Env, Answers, refuse}
use tam_backend.Server.Access.{
  Route, Side, advertiser_side, channel_side, both_sides, side_of, DealRequest, handle, admits,
  bad_id, rest, with_deal, require_deal_participant, authorization, serve,
}

-- The user is a party of the deal, on the side for which the route is.
abbrev pub MayUse : Side → ℕ → Deal → Type 0
MayUse advertiser_side u d = d.advertiser_customer_id ≡ u
MayUse channel_side u d = d.channel_manager_id ≡ u
MayUse both_sides u d = (d.advertiser_customer_id ≡ u) ⊎ (d.channel_manager_id ≡ u)

-- The token is valid, for a user who may use the route on the deal in the database.
abbrev pub Authorized : (Text → Option ℕ) → DealRequest → Db → Type 0
Authorized validate_jwt req db =
    (token : Text) × (u : ℕ) × (id : ℕ) × (d : Deal) × (authorization req.auth_header ≡ some token)
    × (validate_jwt token ≡ some u)
    × (req.id_field ≡ some id)
    × (lookup id db.deals ≡ some d)
    × MayUse (side_of req.route) u d

admits-MayUse :
    (s : Side) (u : ℕ) (d : Deal)
    → not (d.advertiser_customer_id == u) && not (d.channel_manager_id == u) ≡ false
    → admits s (d.advertiser_customer_id == u) (d.channel_manager_id == u) ≡ true
    → MayUse s u d
unfolding admits
admits-MayUse advertiser_side u d p h = ground arith
admits-MayUse channel_side u d p h = ground arith
admits-MayUse both_sides u d p h = ground arith

with_deal-cases :
    (env : Env) (up : Answers) (route : Route) (u : ℕ) (db : Db) (r : Result DealView)
    → ((e : Error) × (with_deal env up route u db r ≡ refuse e db))
      ⊎ ((v : DealView) × (r ≡ ok v)
          × MayUse (side_of route) u v.deal
          × (with_deal env up route u db r ≡ handle env (rest up) route u v db))
unfolding with_deal
with_deal-cases env up route u db (err not_found) = inl (deal_not_found, refl)
with_deal-cases env up route u db (err _) = inl (internal_error, refl)
with_deal-cases env up route u db (ok v) =
    elim (Bool-cases
      (not (v.deal.advertiser_customer_id == u) && not (v.deal.channel_manager_id == u))) [
        | inl p ↦ inl (not_deal_participant, rw p)
        | inr p ↦
            elim (Bool-cases (
              admits (side_of route) (v.deal.advertiser_customer_id == u)
                (v.deal.channel_manager_id == u))) [
                  | inr a ↦ inl (forbidden, rw (p, a))
                  | inl a ↦ inr (v, refl, admits-MayUse (side_of route) u v.deal p a, rw (p, a))
                ]
      ]

-- A request to a deal route is refused with an error and leaves the database as it was, with no
-- message sent, unless its token is valid for a party of the deal on the side of the route: sending
-- and approving the data and making the deal are for the advertiser, accepting and proposing a time
-- for the channel's manager, the rest for both.
pub serve-Authorized :
    (validate_jwt : Text → Option ℕ) (env : Env) (up : Answers) (req : DealRequest) (db : Db)
    → ((e : Error) × (serve validate_jwt env up req db ≡ refuse e db))
      ⊎ Authorized validate_jwt req db
unfolding serve require_deal_participant
serve-Authorized validate_jwt env up req db = elim (Option-cases (authorization req.auth_header)) [
  | inl a ↦ inl (unauthorized, rw (a, serve))
  | inr (token, a) ↦ elim (Option-cases (validate_jwt token)) [
    | inl j ↦ inl (unauthorized, rw (a, j, serve))
    | inr (u, j) ↦ elim (Option-cases req.id_field) [
      | inl i ↦ inl (bad_id req.route, rw (a, j, i, serve, require_deal_participant))
      | inr (id, i) ↦ elim (with_deal-cases env up req.route u db (get_deal (up 0) id db)) [
        | inl (e, p) ↦ inl (e, rw (a, j, i, p, serve, require_deal_participant))
        | inr (v, g, m, p) ↦ inr (token, u, id, v.deal, a, j, i, get_deal-ok (up 0) id db v g, m)
      ]
    ]
  ]
]

-- A request is refused, or it reaches its handler with the deal as it is in the database.
pub serve-cases :
    (validate_jwt : Text → Option ℕ) (env : Env) (up : Answers) (req : DealRequest) (db : Db)
    → ((e : Error) × (serve validate_jwt env up req db ≡ refuse e db))
      ⊎ ((u : ℕ) × (v : DealView) × (lookup v.deal_id db.deals ≡ some v.deal)
          × (serve validate_jwt env up req db ≡ handle env (rest up) req.route u v db))
unfolding serve require_deal_participant
serve-cases validate_jwt env up req db = elim (Option-cases (authorization req.auth_header)) [
  | inl a ↦ inl (unauthorized, rw (a, serve))
  | inr (token, a) ↦ elim (Option-cases (validate_jwt token)) [
    | inl j ↦ inl (unauthorized, rw (a, j, serve))
    | inr (u, j) ↦ elim (Option-cases req.id_field) [
      | inl i ↦ inl (bad_id req.route, rw (a, j, i, serve, require_deal_participant))
      | inr (id, i) ↦ elim (with_deal-cases env up req.route u db (get_deal (up 0) id db)) [
        | inl (e, p) ↦ inl (e, rw (a, j, i, p, serve, require_deal_participant))
        | inr (v, g, m, p) ↦ inr (
          u,
          v,
          get_deal-fresh (up 0) id db v g,
          rw (a, j, i, p, serve, require_deal_participant),
        )
      ]
    ]
  ]
]
