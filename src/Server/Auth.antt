-- ===== src/Server/Auth.antt =====
-- internal/modules/server/auth_handlers.go, and UpdateMe of customer_handlers.go. The reader of
-- Telegram's init data, the wallet's derivation of addresses and the signing of tokens are libraries:
-- parameters.
pub mod Registration
pub mod Keeping
pub mod Blocked
use tam_backend.Prelude.{
  if◌then◌else◌, ℤ, pos, negsuc, Text, ℕ, ◌-◌, ◌%◌, Bool, not, Option, none, some, [],
}
use tam_backend.Common.Errors.{
  Error, unauthorized, invalid_request, internal_error, not_found, Result, ok, err,
}
use tam_backend.Storage.Schema.{CustomerStatus, pre_registration, registered, Customer, Db}
use tam_backend.Storage.Profiles.{get_customer_by_tg_id, create_customer, update_customer}
use tam_backend.Server.Outcome.{Outcome, Answers, refuse, reply_with}

-- The fields of the init data's user that are stored.
pub record TgUser : Type 0 where
  pub user_id : ℕ
  pub language_code : Text

-- `initdata.Validate` and `initdata.Parse` with the bot's token and the configured lifetime;
-- `GetAddress`, bounceable and not, of a subwallet; and `generateJWT` for a customer's key and row.
pub record AuthEnv : Type 0 where
  pub validate : Text → Bool
  pub parse : Text → Option TgUser
  pub get_address : ℕ → Option (Text × Text)
  pub generate_jwt : ℕ → Customer → Option Text

-- `uint32(x)`.
abbrev pub uint_32 : ℤ → ℕ
uint_32 (pos n) = n % 4294967296
uint_32 (negsuc n) = 4294967295 - n % 4294967296

abbrev pub set_addresses : Text → Text → Customer → Customer
set_addresses bounceable nonbounceable c = record c {
  address_bounceable = bounceable;
  address_nonbounceable = nonbounceable;
}

abbrev pub set_registered : TgUser → Customer → Customer
set_registered user c = record c { tg_language = user.language_code; customer_status = registered }

-- The outcome, and the token of the header `Authorization`.
abbrev pub AuthOutcome : Type 0
AuthOutcome = Outcome × Option Text

abbrev pub refuse_auth : Error → Db → AuthOutcome
refuse_auth e db = (refuse e db, none)

unfoldable pub with_token : AuthEnv → ℕ → Customer → Db → AuthOutcome
with_token env id c db = elim (env.generate_jwt id c) [
  | none ↦ refuse_auth internal_error db
  | some token ↦ (reply_with 200 [] db, some token)
]

unfoldable pub with_registered : AuthEnv → ℕ → Result Customer × Db → AuthOutcome
with_registered env id (err e, db) = refuse_auth internal_error db
with_registered env id (ok c, db) = with_token env id c db

-- The test for PRE_REGISTRATION.
unfoldable pub with_status :
    AuthEnv → Answers → TgUser → ℕ → Customer → Db → CustomerStatus → AuthOutcome
with_status env up user id c db pre_registration =
    with_registered env id (update_customer (up 4) id (set_registered user) db)
with_status env up user id c db registered = with_token env id c db

-- What follows the block for a new customer.
abbrev pub with_customer : AuthEnv → Answers → TgUser → ℕ → Customer → Db → AuthOutcome
with_customer env up user id c db = with_status env up user id c db c.customer_status

unfoldable pub with_addresses : AuthEnv → Answers → TgUser → ℕ → Result Customer × Db → AuthOutcome
with_addresses env up user id (err e, db) = refuse_auth internal_error db
with_addresses env up user id (ok c, db) = with_customer env up user id c db

-- The new customer's addresses.
unfoldable pub with_created : AuthEnv → Answers → TgUser → ℕ → Result Customer × Db → AuthOutcome
with_created env up user id (err e, db) = refuse_auth internal_error db
with_created env up user id (ok c, db) = elim (env.get_address (uint_32 c.wallet_hd_id)) [
  | none ↦ refuse_auth internal_error db
  | some (b, n) ↦ with_addresses env up user id (update_customer (up 3) id (set_addresses b n) db)
]

-- What follows `GetCustomerByTgID`; `id` and `hd` are what the database generates for a new row.
unfoldable pub with_known :
    AuthEnv → Answers → ℕ → ℤ → TgUser → Db → Result (ℕ × Customer) → AuthOutcome
with_known env up id hd user db (ok (k, c)) = with_customer env up user k c db
with_known env up id hd user db (err not_found) =
    with_created env up user id (create_customer (up 1) (up 2) id user.user_id hd db)
with_known env up id hd user db (err _) = refuse_auth internal_error db

-- `onAuth`; `body` is what `c.Bind` reads.
unfoldable pub on_auth : AuthEnv → Answers → ℕ → ℤ → Option Text → Db → AuthOutcome
on_auth env up id hd none db = refuse_auth invalid_request db
on_auth env up id hd (some init_data) db =
    if not (env.validate init_data)
    then refuse_auth unauthorized db
    else elim (env.parse init_data) [
      | none ↦ refuse_auth invalid_request db
      | some user ↦ with_known env up id hd user db (get_customer_by_tg_id (up 0) user.user_id db)
    ]

-- `common.UpdateMeRequest`, without the names and the picture.
pub record UpdateMeRequest : Type 0 where
  pub language : Option Text
  pub bounceable : Option Text
  pub nonbounceable : Option Text

abbrev pub or_old : Option Text → Text → Text
or_old none old = old
or_old (some new) old = new

-- The updater of `UpdateMe`.
abbrev pub apply_update : UpdateMeRequest → Customer → Customer
apply_update req c = record c {
  tg_language = or_old req.language c.tg_language;
  address_bounceable = or_old req.bounceable c.address_bounceable;
  address_nonbounceable = or_old req.nonbounceable c.address_nonbounceable;
}

unfoldable pub after_profile_update : Result Customer × Db → Outcome
after_profile_update (err e, db') = refuse internal_error db'
after_profile_update (ok c, db') = reply_with 200 [] db'

-- `UpdateMe` for the authenticated user `u`.
unfoldable pub update_me : Bool → ℕ → Option UpdateMeRequest → Db → Outcome
update_me up u none db = refuse invalid_request db
update_me up u (some req) db = after_profile_update (update_customer up u (apply_update req) db)
