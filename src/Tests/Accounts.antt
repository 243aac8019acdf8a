-- ===== src/Tests/Accounts.antt =====
-- Runs of the registration and of the update of a profile.
use tam_backend.Prelude.{
  pos, lookup, Text, codes, text_eq, ◌≡◌, refl, ◌⊎◌, true, false, none, some, List, [], ◌∷◌, arith,
}
use tam_backend.Common.DealStatus.{draft}
use tam_backend.Common.Errors.{Error, internal_error}
use tam_backend.Storage.Schema.{processing, Transaction, Db}
use tam_backend.Storage.Profiles.{
  customer_by_tg_id, get_customer_by_tg_id, get_customer, clashes, has_conflict, inserted,
  create_customer, update_customer,
}
use tam_backend.Storage.Profiles.Distinct.{IsUnique}
use tam_backend.Ton.Deposits.{owns, Vault, process_deposit_for_transaction}
use tam_backend.Server.Outcome.{success, fail, Outcome}
use tam_backend.Server.Auth.{
  TgUser, AuthEnv, AuthOutcome, refuse_auth, with_token, with_registered, with_status,
  with_addresses, with_created, with_known, on_auth, after_profile_update, update_me,
}
use tam_backend.Server.Auth.Registration.{Granted, on_auth-Granted}
use tam_backend.Server.Auth.Blocked.{NewLogin, on_auth-blocks}
use tam_backend.Server.Withdraw.{WithdrawRequest, SendTon}
use tam_backend.Bot.Start.{start_fetched, start_created, start_known, on_start}
use tam_backend.System.Accounts.{
  AccountStep, login, start, profile, account_run, account_run-IsUnique,
}
use tam_backend.System.Addresses.{take_address, update_me-stops_deposits}
use tam_backend.Tests.{advertiser_row, manager_row, db_in, all_up, tx_all_up}

-- The init data is the text "ok", of the user 30; the wallet answers.
abbrev login_env : AuthEnv
login_env = record {
  validate = λ s. text_eq s (codes "ok");
  parse = λ s. some (record { user_id = 30; language_code = codes "en" });
  get_address = λ hd. some (codes "EN", codes "UN");
  generate_jwt = λ k c. some (codes "signed");
}

-- The wallet does not answer.
abbrev broken_env : AuthEnv
broken_env = record login_env { get_address = λ hd. none }

-- The init data is that of the user 31.
abbrev other_env : AuthEnv
other_env = record login_env { parse = λ s. some (record { user_id = 31; language_code = [] }) }

abbrev start_db : Db
start_db = db_in draft

start_db-IsUnique : IsUnique start_db.customers
unfolding has_conflict clashes text_eq
start_db-IsUnique = ground arith

abbrev logged_in : AuthOutcome
logged_in = on_auth login_env all_up 3 (pos 3) (some (codes "ok")) start_db

on_auth-Granted_example :
    ((e : Error) × (logged_in.0.reply ≡ fail e) × (logged_in.1 ≡ none))
    ⊎ ((init_data : Text) × (user : TgUser) × (some (codes "ok") ≡ some init_data)
        × (login_env.validate init_data ≡ true)
        × (login_env.parse init_data ≡ some user)
        × Granted login_env user logged_in)
on_auth-Granted_example =
    on_auth-Granted login_env all_up 3 (pos 3) (some (codes "ok")) start_db start_db-IsUnique

-- The user 30 sends /start, logs in and changes the language.
abbrev first_day : List AccountStep
first_day =
    start all_up 3 (pos 3) 30
    ∷ login all_up 4 (pos 4) (some (codes "ok"))
    ∷ profile true 3
        (some (record { language = some (codes "de"); bounceable = none; nonbounceable = none }))
    ∷ []

account_run-IsUnique_example : IsUnique (account_run login_env first_day start_db).customers
unfolding on_start start_known start_created start_fetched get_customer_by_tg_id customer_by_tg_id
    create_customer get_customer has_conflict clashes text_eq update_customer
account_run-IsUnique_example =
    account_run-IsUnique login_env first_day start_db (refl, (refl, (tt, tt))) start_db-IsUnique

-- A token was given.
token_given : logged_in.1 ≡ some (codes "signed")
unfolding on_auth get_customer_by_tg_id customer_by_tg_id with_known create_customer get_customer
    has_conflict clashes text_eq with_created update_customer with_addresses with_status
    with_registered with_token
token_given = refl

abbrev incomplete_db : Db
incomplete_db = record start_db { customers = (3, inserted 30 (pos 3)) ∷ start_db.customers }

first_login :
    NewLogin broken_env
      (codes "ok")
      (record { user_id = 30; language_code = codes "en" })
      3
      start_db
unfolding customer_by_tg_id text_eq
first_login = record { validated = refl; parsed = refl; no_row = refl; fresh = refl }

-- The deals and the channels are gone later.
abbrev later_db : Db
later_db = record incomplete_db { deals = []; channels = [] }

second_login :
    NewLogin other_env (codes "ok") (record { user_id = 31; language_code = [] }) 4 later_db
unfolding customer_by_tg_id text_eq
second_login = record { validated = refl; parsed = refl; no_row = refl; fresh = refl }

no_conflict : has_conflict 3 (inserted 30 (pos 3)) start_db.customers ≡ false
unfolding has_conflict clashes text_eq
no_conflict = refl

-- The broken registration of user 30, and the login of user 31 in a later database without deals and channels.
on_auth-blocks_example :
    ((on_auth broken_env all_up 3 (pos 3) (some (codes "ok")) start_db).0.db ≡ incomplete_db)
    × (lookup 3 incomplete_db.customers ≡ some (inserted 30 (pos 3)))
    × ((inserted 30 (pos 3)).address_bounceable ≡ [])
    × (on_auth other_env all_up 4 (pos 4) (some (codes "ok")) later_db
        ≡ refuse_auth internal_error later_db)
on_auth-blocks_example =
    on_auth-blocks broken_env all_up (codes "ok")
      (record { user_id = 30; language_code = codes "en" }) 3 (pos 3) start_db first_login refl refl
      no_conflict refl later_db (inserted 30 (pos 3)) other_env all_up (codes "ok")
      (record { user_id = 31; language_code = [] }) 4 (pos 4) refl refl second_login

-- Customer 2 takes the bounceable address of customer 1.
abbrev taken : Outcome
taken = update_me true 2 (some (take_address (codes "EQ"))) start_db

takes_address : taken.reply ≡ success 200
unfolding update_me after_profile_update update_customer has_conflict clashes text_eq
takes_address = refl

abbrev waiting : Transaction
waiting = record {
  sender = codes "EX";
  wallet_address = codes "EQ";
  amount = pos 5000000000;
  tx_hash = codes "hash";
  seqno = 1;
  lt = 1;
  status = processing;
}

abbrev contested : Vault
contested = record { customers = taken.db.customers; transactions = (1, waiting) ∷ [] }

owns_first : owns (codes "EQ") (1, advertiser_row) ≡ true
unfolding text_eq
owns_first = refl

update_me-stops_deposits_example :
    process_deposit_for_transaction all_up tx_all_up 1 contested ≡ (some internal_error, contested)
update_me-stops_deposits_example =
    update_me-stops_deposits true 2 1 manager_row advertiser_row (codes "EQ") start_db 200
      (omega arith) refl refl owns_first takes_address all_up tx_all_up 1 waiting
      ((1, waiting) ∷ []) refl refl refl

-- The manager, who has nothing, asks for 9998.99 TON, and the wallet sends whatever it is told.
abbrev all_out : WithdrawRequest
all_out = record { amount = pos 9998990000000; to_address = codes "EW" }

abbrev any_send : SendTon
any_send to amount wallet = true
