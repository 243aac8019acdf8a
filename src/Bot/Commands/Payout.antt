-- ===== src/Bot/Commands/Payout.antt =====
-- The command /top, and `Withdraw` of internal/modules/server/balance_handlers.go after it.
use tam_backend.Prelude.{
  ℤ, pos, ◌+ℤ◌, ◌-ℤ◌, leb_ℤ, ltb_ℤ, int_laws, lookup, modify, lookup-modify-some, is_empty, ℕ, ◌≡◌,
  refl, true, false, none, some, [], ◌∷◌, arith,
}
use tam_backend.Common.Datetime.{trim_space}
use tam_backend.Storage.Schema.{Customer, Db}
use tam_backend.Storage.Customers.{Customers, add_balances, update_if_covered, deduct_balance}
use tam_backend.Storage.Profiles.{
  customer_by_tg_id, get_customer_by_tg_id, clashes, has_conflict, update_customer,
}
use tam_backend.Server.Outcome.{success}
use tam_backend.Server.Withdraw.{
  min_withdraw_ton, max_withdraw_ton, withdraw_fee_ton, WithdrawRequest, SendTon, withdraw_from,
  withdraw,
}
use tam_backend.Bot.Commands.{top_up_ton, topped_up, top_up}

has_conflict-topped_up :
    (id : ℕ) (c : Customer) (cs : Customers)
    → has_conflict id (topped_up c) cs ≡ has_conflict id c cs
unfolding has_conflict clashes add_balances
has_conflict-topped_up id c [] = refl
has_conflict-topped_up id c ((j, d) ∷ t) = ground (arith, has_conflict-topped_up id c t)

top_up-served :
    (user id : ℕ) (c : Customer) (db : Db)
    → customer_by_tg_id user db.customers ≡ some (id, c)
    → lookup id db.customers ≡ some c
    → has_conflict id c db.customers ≡ false
    → top_up (λ n. true) user db ≡ record db { customers = modify id topped_up db.customers }
unfolding top_up get_customer_by_tg_id update_customer
top_up-served user id c db by_tg l free =
    rw (top_up, by_tg, l, has_conflict-topped_up id c db.customers, free) refl

deduct_balance-served :
    (id : ℕ) (amount : ℤ) (cs : Customers) (c : Customer)
    → lookup id cs ≡ some c
    → leb_ℤ amount (pos 0) ≡ false
    → leb_ℤ amount c.ton_balance ≡ true
    → deduct_balance true id amount cs
      ≡ (none, modify id (add_balances (pos 0 -ℤ amount) (pos 0)) cs)
unfolding deduct_balance update_if_covered
deduct_balance-served id amount cs c l positive covered = rw (positive, l, covered) refl

withdraw-served :
    (send_ton : SendTon) (id : ℕ) (req : WithdrawRequest) (db : Db) (c : Customer)
    → lookup id db.customers ≡ some c
    → ltb_ℤ c.wallet_hd_id (pos 0) ≡ false
    → ltb_ℤ req.amount min_withdraw_ton ≡ false
    → ltb_ℤ max_withdraw_ton req.amount ≡ false
    → is_empty (trim_space req.to_address) ≡ false
    → leb_ℤ (req.amount +ℤ withdraw_fee_ton) c.ton_balance ≡ true
    → send_ton (trim_space req.to_address) req.amount c.wallet_hd_id ≡ true
    → (withdraw send_ton (λ n. true) (some id) (some req) db).reply ≡ success 202
unfolding withdraw withdraw_from
withdraw-served send_ton id req db c l wallet low high address covered sent =
    let positive : leb_ℤ (req.amount +ℤ withdraw_fee_ton) (pos 0) ≡ false = grind int_laws in
    let enough : ltb_ℤ c.ton_balance (req.amount +ℤ withdraw_fee_ton) ≡ false = grind int_laws in
    rw
      (
        l,
        wallet,
        low,
        high,
        address,
        enough,
        deduct_balance-served id (req.amount +ℤ withdraw_fee_ton) db.customers c l positive covered,
        sent,
      )
      refl

-- Every customer can have the wallet pay out up to 9998.99 TON that nobody has deposited: if the
-- database serves all, a customer with a free balance that is not negative and a wallet id that is
-- not negative sends /top, and then asks for a withdrawal from the minimum to 9998.99 TON to an
-- address that is not blank, then the withdrawal succeeds whenever the wallet sends the amount.
withdraw-top_up :
    (send_ton : SendTon) (user id : ℕ) (req : WithdrawRequest) (db : Db) (c : Customer)
    → customer_by_tg_id user db.customers ≡ some (id, c)
    → lookup id db.customers ≡ some c
    → has_conflict id c db.customers ≡ false
    → leb_ℤ (pos 0) c.ton_balance ≡ true
    → ltb_ℤ c.wallet_hd_id (pos 0) ≡ false
    → ltb_ℤ req.amount min_withdraw_ton ≡ false
    → leb_ℤ (req.amount +ℤ withdraw_fee_ton) top_up_ton ≡ true
    → is_empty (trim_space req.to_address) ≡ false
    → send_ton (trim_space req.to_address) req.amount c.wallet_hd_id ≡ true
    → (withdraw send_ton (λ n. true) (some id) (some req) (top_up (λ n. true) user db)).reply
      ≡ success 202
unfolding add_balances
withdraw-top_up send_ton user id req db c by_tg l free balance wallet low top address sent =
    let high : ltb_ℤ max_withdraw_ton req.amount ≡ false = grind int_laws in
    let covered : leb_ℤ (req.amount +ℤ withdraw_fee_ton) (topped_up c).ton_balance ≡ true =
      grind int_laws in
    rw (top_up-served user id c db by_tg l free) (
      withdraw-served send_ton id req (record db { customers = modify id topped_up db.customers })
        (topped_up c) (lookup-modify-some id topped_up db.customers c l) wallet low high address
        covered sent)
