-- ===== src/Storage/Customers/Payout.antt =====
-- The payout of a deal: `TransferBalanceToManagerForDeal` of internal/modules/storage/customers.go.
use tam_backend.Prelude.{
  if◌then◌else◌, Bool-cases, ◌-ℤ◌, leb_ℤ, lookup, modify, ℕ, ◌≡◌, refl, ◌∙◌, inl, inr, true, false,
  none, some,
}
use tam_backend.Storage.Schema.{Customer, Deal}
use tam_backend.Storage.Customers.{
  Customers, zero_ton, add_balances, transfer_balance_to_manager_for_deal,
}
use tam_backend.Storage.Customers.Money.{update_one-served, modify-present}

-- The table after the price has left the advertiser's locked balance.
abbrev debited : Deal → Customers → Customers
debited d cs = modify d.advertiser_customer_id (add_balances zero_ton (zero_ton -ℤ d.ton_price)) cs

-- The table after the price went from the advertiser's locked to the manager's free balance.
abbrev paid_out : Deal → Customers → Customers
paid_out d cs = modify d.channel_manager_id (add_balances d.ton_price zero_ton) (debited d cs)

-- The same, or the table as it was if there is nothing to pay.
abbrev pub settled : Deal → Customers → Customers
settled d cs = if leb_ℤ d.ton_price zero_ton then cs else paid_out d cs

transfer-served :
    (d : Deal) (cs : Customers) (a m : Customer)
    → leb_ℤ d.ton_price zero_ton ≡ false
    → lookup d.advertiser_customer_id cs ≡ some a
    → lookup d.channel_manager_id cs ≡ some m
    → transfer_balance_to_manager_for_deal
        (record { begin_up = true; first_up = true; second_up = true; commit_up = true })
        d
        cs
      ≡ (none, paid_out d cs)
unfolding transfer_balance_to_manager_for_deal
transfer-served d cs a m price ea em =
    let debit = add_balances zero_ton (zero_ton -ℤ d.ton_price) in
    let (m', em') = modify-present d.advertiser_customer_id debit cs d.channel_manager_id m em in
    rw
      (
        price,
        update_one-served d.advertiser_customer_id debit cs a ea,
        update_one-served d.channel_manager_id (add_balances d.ton_price zero_ton) (debited d cs) m'
            em',
      )
      refl

pub transfer-settled :
    (d : Deal) (cs : Customers) (a m : Customer)
    → lookup d.advertiser_customer_id cs ≡ some a
    → lookup d.channel_manager_id cs ≡ some m
    → transfer_balance_to_manager_for_deal
        (record { begin_up = true; first_up = true; second_up = true; commit_up = true })
        d
        cs
      ≡ (none, settled d cs)
transfer-settled d cs a m ea em = elim (Bool-cases (leb_ℤ d.ton_price zero_ton)) [
  | inl h ↦ unfold transfer_balance_to_manager_for_deal in rw h refl
  | inr h ↦ transfer-served d cs a m h ea em ∙ rw h refl
]

pub settled-present :
    (d : Deal) (cs : Customers) (i : ℕ) (c : Customer)
    → lookup i cs ≡ some c
    → (c' : Customer) × (lookup i (settled d cs) ≡ some c')
settled-present d cs i c e = elim (Bool-cases (leb_ℤ d.ton_price zero_ton)) [
  | inl h ↦ rw h (c, e)
  | inr h ↦
      let debit = add_balances zero_ton (zero_ton -ℤ d.ton_price) in
      let (c', e') = modify-present d.advertiser_customer_id debit cs i c e in
      rw h (
        modify-present d.channel_manager_id (add_balances d.ton_price zero_ton) (debited d cs) i c'
          e')
]
