-- ===== src/Server/Withdraw.antt =====
-- `Withdraw` of internal/modules/server/balance_handlers.go. `SendTON` (internal/modules/ton/wallet.go)
-- signs and sends through a library; whether it succeeds is the parameter `send_ton`.
pub mod Accounts
use tam_backend.Prelude.{
  if◌then◌else◌, ℤ, pos, ◌+ℤ◌, ltb_ℤ, lookup, Text, is_empty, ℕ, Bool, true, false, not, Option,
  none, some, [],
}
use tam_backend.Common.Errors.{
  unauthorized, invalid_request, internal_error, not_found, insufficient_balance, wallet_not_linked,
}
use tam_backend.Common.Datetime.{trim_space}
use tam_backend.Storage.Schema.{Customer, Db}
use tam_backend.Storage.Customers.{Updated, deduct_balance, refund_balance}
use tam_backend.Server.Outcome.{Outcome, Answers, refuse, reply_with}

-- 0.01, 10000 and 0.01 TON.
abbrev pub min_withdraw_ton : ℤ
min_withdraw_ton = pos 10000000

abbrev pub max_withdraw_ton : ℤ
max_withdraw_ton = pos 10000000000000

abbrev pub withdraw_fee_ton : ℤ
withdraw_fee_ton = pos 10000000

pub record WithdrawRequest : Type 0 where
  pub amount : ℤ
  pub to_address : Text

-- A call of the wallet: destination, amount, subwallet.
abbrev pub SendTon : Type 0
SendTon = Text → ℤ → ℤ → Bool

-- After `SendTON`: a failed payment is given back, as far as the database serves that.
abbrev pub after_send : Bool → ℕ → ℤ → Db → Bool → Outcome
after_send up user total db true = reply_with 202 [] db
after_send up user total db false =
    refuse internal_error (record db { customers = (refund_balance up user total db.customers).1 })

abbrev pub after_deduct : SendTon → Bool → ℕ → WithdrawRequest → Customer → Db → Updated → Outcome
after_deduct send_ton up user req c db (some insufficient_balance, _) =
    refuse insufficient_balance db
after_deduct send_ton up user req c db (some _, _) = refuse internal_error db
after_deduct send_ton up user req c db (none, cs) =
    after_send up user (req.amount +ℤ withdraw_fee_ton) (record db { customers = cs })
      (send_ton (trim_space req.to_address) req.amount c.wallet_hd_id)

-- The tests on the customer, and the payment.
unfoldable pub withdraw_from : SendTon → Answers → ℕ → WithdrawRequest → Customer → Db → Outcome
withdraw_from send_ton up user req c db =
    if ltb_ℤ c.wallet_hd_id (pos 0)
    then refuse wallet_not_linked db
    else if ltb_ℤ c.ton_balance (req.amount +ℤ withdraw_fee_ton)
    then refuse insufficient_balance db
    else after_deduct send_ton (up 2) user req c db
        (deduct_balance (up 1) user (req.amount +ℤ withdraw_fee_ton) db.customers)

-- `Withdraw`.
unfoldable pub withdraw : SendTon → Answers → Option ℕ → Option WithdrawRequest → Db → Outcome
unfolding withdraw_from
withdraw send_ton up none body db = refuse unauthorized db
withdraw send_ton up (some user) none db = refuse invalid_request db
withdraw send_ton up (some user) (some req) db =
    if ltb_ℤ req.amount min_withdraw_ton
    then refuse invalid_request db
    else if ltb_ℤ max_withdraw_ton req.amount
    then refuse invalid_request db
    else if is_empty (trim_space req.to_address)
    then refuse invalid_request db
    else if not (up 0)
    then refuse internal_error db
    else elim (lookup user db.customers) [
      | none ↦ refuse not_found db
      | some c ↦ withdraw_from send_ton up user req c db
    ]
