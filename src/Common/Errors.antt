-- ===== src/Common/Errors.antt =====
-- internal/common/errors.go: the errors that the HTTP layer reports, and their status codes. The
-- user's text for an error (internal/modules/server/errors.go) is not modelled: a failing reply
-- carries the error itself.
use tam_backend.Prelude.{ℕ, ◌≤◌, ◌≡◌, refl, ◌↔◌, ◌⊎◌, inl, inr, arith}

pub data Error : Type 0 where
  channel_not_found chat_admin_required user_no_rights text_bot_not_added : Error
  text_bot_no_rights user_bot_not_added channel_private stats_unavailable : Error
  text_bot_cannot_post text_bot_cannot_edit text_bot_cannot_delete : Error
  user_bot_cannot_post user_bot_cannot_edit user_bot_cannot_delete : Error
  channel_not_broadcast channel_not_public channel_not_enough_members : Error
  unauthorized forbidden invalid_request channel_exists channel_status_invalid : Error
  internal_error not_found deal_not_found not_deal_participant no_channel_access : Error
  invalid_uuid insufficient_balance wallet_not_linked : Error

-- `GetHTTPStatus`.
pub get_http_status : Error → ℕ
get_http_status channel_not_found = 404
get_http_status chat_admin_required = 403
get_http_status user_no_rights = 403
get_http_status text_bot_not_added = 400
get_http_status text_bot_no_rights = 400
get_http_status user_bot_not_added = 400
get_http_status channel_private = 403
get_http_status stats_unavailable = 400
get_http_status unauthorized = 401
get_http_status forbidden = 403
get_http_status invalid_request = 400
get_http_status channel_exists = 409
get_http_status channel_status_invalid = 400
get_http_status internal_error = 500
get_http_status not_found = 404
get_http_status text_bot_cannot_post = 400
get_http_status text_bot_cannot_edit = 400
get_http_status text_bot_cannot_delete = 400
get_http_status channel_not_broadcast = 400
get_http_status channel_not_public = 400
get_http_status channel_not_enough_members = 400
get_http_status deal_not_found = 404
get_http_status not_deal_participant = 403
get_http_status no_channel_access = 403
get_http_status invalid_uuid = 400
get_http_status insufficient_balance = 403
get_http_status wallet_not_linked = 400
get_http_status user_bot_cannot_post = 400
get_http_status user_bot_cannot_edit = 400
get_http_status user_bot_cannot_delete = 400

-- Every domain error is reported with a client error's status code, and only an internal error with
-- 500, although the `switch` falls back to 500.
pub get_http_status_lem :
    (e : Error)
    → (400 ≤ get_http_status e)
      × (get_http_status e ≤ 500)
      × ((get_http_status e ≡ 500) ↔ (e ≡ internal_error))
unfolding get_http_status
get_http_status_lem internal_error = ground arith
get_http_status_lem _ = ground arith

-- A Go result with an error.
pub data Result {ℓ} (A : Type ℓ) : Type ℓ where
  ok : A → Result A
  err : Error → Result A

pub Result-cases {ℓ} :
    {A : Type ℓ} (r : Result A) → ((e : Error) × (r ≡ err e)) ⊎ ((a : A) × (r ≡ ok a))
Result-cases (ok a) = inr (a, refl)
Result-cases (err e) = inl (e, refl)
