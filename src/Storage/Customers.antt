-- ===== src/Storage/Customers.antt =====
-- The balance operations of internal/modules/storage/customers.go. Whether the database serves a
-- statement is a Boolean that each operation takes; an operation returns the table and its `error`,
-- with `none` for nil.
pub mod Money
pub mod Solvency
pub mod Payout
use tam_backend.Prelude.{
  if◌then◌else◌, ℤ, pos, ◌+ℤ◌, ◌-ℤ◌, leb_ℤ, Table, lookup, modify, ℕ, Bool, not, Option, none, some,
}
use tam_backend.Common.Errors.{Error, internal_error, insufficient_balance, not_found}
use tam_backend.Storage.Schema.{Customer, Deal}

abbrev pub Customers : Type 0
Customers = Table Customer

abbrev pub Updated : Type 0
Updated = Option Error × Customers

abbrev pub zero_ton : ℤ
zero_ton = pos 0

-- `AddTonBalance(x).AddTonBalanceLocked(y)`.
unfoldable pub add_balances : ℤ → ℤ → Customer → Customer
add_balances x y c = record c {
  ton_balance = c.ton_balance +ℤ x;
  ton_balance_locked = c.ton_balance_locked +ℤ y;
}

-- `UpdateOneID`: an update of a missing row is an error.
unfoldable pub update_one : Bool → ℕ → (Customer → Customer) → Customers → Updated
update_one up k f cs =
    if not up
    then (some internal_error, cs)
    else elim (lookup k cs) [ none ↦ (some not_found, cs) | some c ↦ (none, modify k f cs) ]

-- `Update().Where(ID(k), TonBalanceGTE(amount))`: no row affected is the error of a low balance.
unfoldable pub update_if_covered : Bool → ℕ → ℤ → (Customer → Customer) → Customers → Updated
update_if_covered up k amount f cs =
    if not up then (some internal_error, cs) else elim (lookup k cs) [
      | none ↦ (some insufficient_balance, cs)
      | some c ↦
          if leb_ℤ amount c.ton_balance
          then (none, modify k f cs)
          else (some insufficient_balance, cs)
    ]

-- `LockBalanceForDeal`.
unfoldable pub lock_balance_for_deal : Bool → Deal → Customers → Updated
lock_balance_for_deal up d cs =
    if leb_ℤ d.ton_price zero_ton
    then (none, cs)
    else update_if_covered up d.advertiser_customer_id d.ton_price
        (add_balances (zero_ton -ℤ d.ton_price) d.ton_price) cs

-- `UnlockBalanceForDeal`.
unfoldable pub unlock_balance_for_deal : Bool → Deal → Customers → Updated
unlock_balance_for_deal up d cs =
    if leb_ℤ d.ton_price zero_ton
    then (none, cs)
    else update_one up d.advertiser_customer_id (add_balances d.ton_price (zero_ton -ℤ d.ton_price))
        cs

-- Which statements of a transaction of two updates the database serves.
pub record TxAnswers : Type 0 where
  pub begin_up : Bool
  pub first_up : Bool
  pub second_up : Bool
  pub commit_up : Bool

-- A failure rolls the transaction back.
abbrev or_rollback : Customers → Updated → (Customers → Updated) → Updated
or_rollback before (some e, _) k = (some e, before)
or_rollback before (none, cs) k = k cs

abbrev commit : Bool → Customers → Customers → Updated
commit up before cs = if up then (none, cs) else (some internal_error, before)

-- `TransferBalanceToManagerForDeal`.
unfoldable pub transfer_balance_to_manager_for_deal : TxAnswers → Deal → Customers → Updated
transfer_balance_to_manager_for_deal up d cs =
    if leb_ℤ d.ton_price zero_ton
    then (none, cs)
    else if not up.begin_up
    then (some internal_error, cs)
    else or_rollback cs
        (update_one up.first_up d.advertiser_customer_id
          (add_balances zero_ton (zero_ton -ℤ d.ton_price)) cs)
        λ debited.
          or_rollback cs
            (update_one up.second_up d.channel_manager_id (add_balances d.ton_price zero_ton)
              debited)
            λ credited. commit up.commit_up cs credited

-- `DeductBalance`.
unfoldable pub deduct_balance : Bool → ℕ → ℤ → Customers → Updated
deduct_balance up k amount cs =
    if leb_ℤ amount zero_ton
    then (none, cs)
    else update_if_covered up k amount (add_balances (zero_ton -ℤ amount) zero_ton) cs

-- `RefundBalance`.
pub refund_balance : Bool → ℕ → ℤ → Customers → Updated
refund_balance up k amount cs =
    if leb_ℤ amount zero_ton then (none, cs) else update_one up k (add_balances amount zero_ton) cs
