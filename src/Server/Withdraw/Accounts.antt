-- ===== src/Server/Withdraw/Accounts.antt =====
-- What `Withdraw` of internal/modules/server/balance_handlers.go does to the money.
use tam_backend.Storage.Customers.{Customers, deduct_balance}
use tam_backend.Prelude.{
  Bool-cases, Option-cases, ℤ, pos, ◌+ℤ◌, leb_ℤ, ltb_ℤ, int_laws, lookup, is_empty, ℕ, ◌≡◌, refl,
  sym, ◌∙◌, ◌⊎◌, inl, inr, Bool, true, false, Option, some, arith,
}
use tam_backend.Common.Errors.{
  Error, internal_error, insufficient_balance, wallet_not_linked, invalid_request, not_found,
}
use tam_backend.Common.Datetime.{trim_space}
use tam_backend.Storage.Schema.{Customer, Db}
use tam_backend.Storage.Customers.Money.{
  total, deduct-cases, refund_balance-total, refund_balance-down,
}
use tam_backend.Server.Outcome.{success, fail, Outcome, Answers, refuse}
use tam_backend.Server.Withdraw.{
  withdraw_fee_ton, WithdrawRequest, SendTon, after_send, after_deduct, min_withdraw_ton,
  max_withdraw_ton, withdraw_from, withdraw,
}

-- What a request can come to: it has been refused and has changed nothing; or it has been paid, and
-- the payment and its fee have left the customers' money; or the wallet has failed, and the money is
-- there again, or still missing if the database has refused to give it back.
pub data Settled (send_ton : SendTon) (up : Answers) (user : ℕ) (req : WithdrawRequest) (db : Db)
    (o : Outcome) : Type 0 where
  untouched : (e : Error) → o ≡ refuse e db → Settled send_ton up user req db o
  paid :
      (c : Customer)
      → lookup user db.customers ≡ some c
      → leb_ℤ (req.amount +ℤ withdraw_fee_ton) c.ton_balance ≡ true
      → send_ton (trim_space req.to_address) req.amount c.wallet_hd_id ≡ true
      → o.reply ≡ success 202
      → total o.db.customers +ℤ (req.amount +ℤ withdraw_fee_ton) ≡ total db.customers
      → Settled send_ton up user req db o
  given_back :
      o.reply ≡ fail internal_error
      → up 2 ≡ true
      → total o.db.customers ≡ total db.customers
      → Settled send_ton up user req db o
  lost :
      o.reply ≡ fail internal_error
      → up 2 ≡ false
      → total o.db.customers +ℤ (req.amount +ℤ withdraw_fee_ton) ≡ total db.customers
      → Settled send_ton up user req db o

same_cover :
    (a b : Customer) (o : Option Customer) (x : ℤ)
    → o ≡ some a
    → o ≡ some b
    → leb_ℤ x b.ton_balance ≡ true
    → leb_ℤ x a.ton_balance ≡ true
same_cover a b o x p q h = ground (arith, p, q, h)

above_fee :
    (a : ℤ) → ltb_ℤ a min_withdraw_ton ≡ false → leb_ℤ (a +ℤ withdraw_fee_ton) (pos 0) ≡ false
above_fee a h = grind int_laws

module _ (send_ton : SendTon) (up : Answers) (user : ℕ) (req : WithdrawRequest) (db : Db) where
  after_send-Settled :
      (c c' : Customer) (cs : Customers) (sent : Bool)
      → leb_ℤ (req.amount +ℤ withdraw_fee_ton) (pos 0) ≡ false
      → lookup user db.customers ≡ some c
      → leb_ℤ (req.amount +ℤ withdraw_fee_ton) c.ton_balance ≡ true
      → total cs +ℤ (req.amount +ℤ withdraw_fee_ton) ≡ total db.customers
      → lookup user cs ≡ some c'
      → sent ≡ send_ton (trim_space req.to_address) req.amount c.wallet_hd_id
      → Settled send_ton up user req db (
          after_send
            (up 2)
            user
            (req.amount +ℤ withdraw_fee_ton)
            (record db { customers = cs })
            sent)
  after_send-Settled c c' cs true price e covered t there s = paid c e covered (sym s) refl t
  after_send-Settled c c' cs false price e covered t there s = elim (Bool-cases (up 2)) [
    | inl u ↦
        given_back refl u
          (rw u (refund_balance-total user (req.amount +ℤ withdraw_fee_ton) cs c' price there ∙ t))
    | inr u ↦ lost refl u (rw (u, refund_balance-down user (req.amount +ℤ withdraw_fee_ton) cs) t)
  ]

  failed-Settled :
      (c : Customer) (x : Error) (cs : Customers)
      → Settled send_ton up user req db (after_deduct send_ton (up 2) user req c db (some x, cs))
  failed-Settled c insufficient_balance cs = untouched insufficient_balance refl
  failed-Settled c _ cs = untouched internal_error refl

  after_deduct-Settled :
      (c : Customer)
      → leb_ℤ (req.amount +ℤ withdraw_fee_ton) (pos 0) ≡ false
      → lookup user db.customers ≡ some c
      → Settled send_ton up user req db (
          after_deduct send_ton
            (up 2)
            user
            req
            c
            db
            (deduct_balance (up 1) user (req.amount +ℤ withdraw_fee_ton) db.customers))
  after_deduct-Settled c price e =
      elim (deduct-cases (up 1) user (req.amount +ℤ withdraw_fee_ton) db.customers price) [
        | inl (x, p) ↦ rw p (failed-Settled c x db.customers)
        | inr (c₀, cs, c', e₀, covered, p, t, there) ↦ rw p (
            after_send-Settled c c' cs
              (send_ton (trim_space req.to_address) req.amount c.wallet_hd_id) price e
              (same_cover c c₀ (lookup user db.customers) (req.amount +ℤ withdraw_fee_ton) e e₀
                covered)
              t there refl)
      ]

  withdraw_from-Settled :
      (c : Customer)
      → leb_ℤ (req.amount +ℤ withdraw_fee_ton) (pos 0) ≡ false
      → lookup user db.customers ≡ some c
      → Settled send_ton up user req db (withdraw_from send_ton up user req c db)
  unfolding withdraw_from
  withdraw_from-Settled c price e = elim (Bool-cases (ltb_ℤ c.wallet_hd_id (pos 0))) [
    | inl h ↦ rw h (untouched wallet_not_linked refl)
    | inr h ↦ elim (Bool-cases (ltb_ℤ c.ton_balance (req.amount +ℤ withdraw_fee_ton))) [
      | inl k ↦ rw (h, k) (untouched insufficient_balance refl)
      | inr k ↦ rw (h, k) (after_deduct-Settled c price e)
    ]
  ]

  pub withdraw-Settled :
      ((e : Error) × (withdraw send_ton up (some user) (some req) db ≡ refuse e db))
      ⊎ ((leb_ℤ min_withdraw_ton req.amount ≡ true)
          × (leb_ℤ req.amount max_withdraw_ton ≡ true)
          × Settled send_ton up user req db (withdraw send_ton up (some user) (some req) db))
  unfolding withdraw
  withdraw-Settled = elim (Bool-cases (ltb_ℤ req.amount min_withdraw_ton)) [
    | inl a ↦ inl (invalid_request, rw a refl)
    | inr a ↦ elim (Bool-cases (ltb_ℤ max_withdraw_ton req.amount)) [
      | inl b ↦ inl (invalid_request, rw (a, b) refl)
      | inr b ↦ elim (Bool-cases (is_empty (trim_space req.to_address))) [
        | inl c ↦ inl (invalid_request, rw (a, b, c) refl)
        | inr c ↦ elim (Bool-cases (up 0)) [
          | inr d ↦ inl (internal_error, rw (a, b, c, d) refl)
          | inl d ↦ elim (Option-cases (lookup user db.customers)) [
            | inl e ↦ inl (not_found, rw (a, b, c, d, e) refl)
            | inr (cust, e) ↦ inr (
              ground arith,
              ground arith,
              rw (a, b, c, d, e) (withdraw_from-Settled cust (above_fee req.amount a) e),
            )
          ]
        ]
      ]
    ]
  ]
