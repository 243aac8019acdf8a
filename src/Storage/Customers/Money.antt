-- ===== src/Storage/Customers/Money.antt =====
-- What the balance operations of internal/modules/storage/customers.go do to the money in the table.
use tam_backend.Prelude.{
  if◌then◌else◌, Bool-cases, Option-cases, ℤ, ◌+ℤ◌, ◌-ℤ◌, leb_ℤ, int_laws, lookup, modify,
  lookup-modify_ne, lookup-modify-some, sum_rows, sum_rows-modify, ℕ, ◌≡◌, refl, ap, ◌∙◌, subst,
  ◌⊎◌, inl, inr, Bool, true, false, none, some, arith, ℕ_discrete,
}
use tam_backend.Common.Errors.{Error, internal_error, insufficient_balance}
use tam_backend.Storage.Schema.{Customer, Deal}
use tam_backend.Storage.Customers.{
  Customers, Updated, zero_ton, add_balances, update_one, update_if_covered, lock_balance_for_deal,
  unlock_balance_for_deal, TxAnswers, transfer_balance_to_manager_for_deal, or_rollback, commit,
  deduct_balance, refund_balance,
}

abbrev pub wealth : Customer → ℤ
wealth c = c.ton_balance +ℤ c.ton_balance_locked

-- The money of all customers, free and locked.
abbrev pub total : Customers → ℤ
total cs = sum_rows wealth cs

wealth-add_balances : (x y : ℤ) (c : Customer) → wealth (add_balances x y c) ≡ wealth c +ℤ (x +ℤ y)
unfolding add_balances
wealth-add_balances x y c = omega int_laws

pub total-modify :
    (k : ℕ) (x y : ℤ) (c : Customer) (cs : Customers)
    → lookup k cs ≡ some c
    → total (modify k (add_balances x y) cs) ≡ total cs +ℤ (x +ℤ y)
total-modify k x y c cs h =
    grind (int_laws, sum_rows-modify wealth k (add_balances x y) c cs h, wealth-add_balances x y c)

-- What an operation on the table `cs` has done: without an error it has brought the amount in, with
-- an error it has changed nothing.
abbrev pub Moves : Customers → ℤ → Updated → Type 0
Moves cs amount (none, cs') = total cs' ≡ total cs +ℤ amount
Moves cs amount (some _, cs') = cs' ≡ cs

pub update_one-Moves :
    (up : Bool) (k : ℕ) (x y : ℤ) (cs : Customers)
    → Moves cs (x +ℤ y) (update_one up k (add_balances x y) cs)
unfolding update_one
update_one-Moves up k x y cs = elim (Option-cases (lookup k cs)) [
  | inl e ↦ ground arith
  | inr (c, e) ↦ ground (arith, total-modify k x y c cs e)
]

pub update_if_covered-Moves :
    (up : Bool) (k : ℕ) (a x y : ℤ) (cs : Customers)
    → Moves cs (x +ℤ y) (update_if_covered up k a (add_balances x y) cs)
unfolding update_if_covered
update_if_covered-Moves up k a x y cs = elim (Option-cases (lookup k cs)) [
  | inl e ↦ ground arith
  | inr (c, e) ↦ ground (arith, total-modify k x y c cs e)
]

-- A served update of a customer that exists.
pub update_one-served :
    (k : ℕ) (f : Customer → Customer) (cs : Customers) (c : Customer)
    → lookup k cs ≡ some c
    → update_one true k f cs ≡ (none, modify k f cs)
unfolding update_one
update_one-served k f cs c e = rw e refl

plus_opposite : (a p : ℤ) → a +ℤ (zero_ton -ℤ p +ℤ p) ≡ a
plus_opposite a p = omega int_laws

opposite_plus : (a p : ℤ) → a +ℤ (p +ℤ (zero_ton -ℤ p)) ≡ a
opposite_plus a p = omega int_laws

there_and_back : (a p : ℤ) → a +ℤ (zero_ton +ℤ (zero_ton -ℤ p)) +ℤ (p +ℤ zero_ton) ≡ a
there_and_back a p = omega int_laws

Moves-total :
    (cs : Customers) (amount : ℤ) (r : Updated)
    → Moves cs amount r
    → total cs +ℤ amount ≡ total cs
    → total r.1 ≡ total cs
Moves-total cs amount (none, cs') m e = m ∙ e
Moves-total cs amount (some _, cs') m e = ap total m

-- The second half of a transaction that began at `cs`.
second_half :
    (up : Bool) (p : ℤ) (cs debited : Customers) (r : Updated)
    → total debited ≡ total cs +ℤ (zero_ton +ℤ (zero_ton -ℤ p))
    → Moves debited (p +ℤ zero_ton) r
    → total (or_rollback cs r (λ credited. commit up cs credited)).1 ≡ total cs
second_half up p cs debited (some _, cs') m h = refl
second_half false p cs debited (none, cs') m h = refl
second_half true p cs debited (none, cs') m h = grind (int_laws, h, m, there_and_back (total cs) p)

both_halves :
    (up : Bool) (p : ℤ) (cs : Customers) (r : Updated) (credit : Customers → Updated)
    → Moves cs (zero_ton +ℤ (zero_ton -ℤ p)) r
    → ((debited : Customers) → Moves debited (p +ℤ zero_ton) (credit debited))
    → total (or_rollback cs r (λ debited. or_rollback cs (credit debited) (λ c. commit up cs c))).1
      ≡ total cs
both_halves up p cs (some _, cs') credit m h = refl
both_halves up p cs (none, cs') credit m h = second_half up p cs cs' (credit cs') m (h cs')

module _ (d : Deal) (cs : Customers) where
  -- Locking the price of a deal moves money from the advertiser's free to the locked balance: the
  -- money of all customers stays the same, whether or not the lock is granted.
  pub lock-total : (up : Bool) → total (lock_balance_for_deal up d cs).1 ≡ total cs
  unfolding lock_balance_for_deal
  lock-total up = ground (
    arith,
    Moves-total cs _ _
        (update_if_covered-Moves up d.advertiser_customer_id d.ton_price (zero_ton -ℤ d.ton_price)
          d.ton_price cs)
        (plus_opposite (total cs) d.ton_price),
  )

  pub unlock-total : (up : Bool) → total (unlock_balance_for_deal up d cs).1 ≡ total cs
  unfolding unlock_balance_for_deal
  unlock-total up = ground (
    arith,
    Moves-total cs _ _
        (update_one-Moves up d.advertiser_customer_id d.ton_price (zero_ton -ℤ d.ton_price) cs)
        (opposite_plus (total cs) d.ton_price),
  )

  pub transfer-total :
      (up : TxAnswers) → total (transfer_balance_to_manager_for_deal up d cs).1 ≡ total cs
  unfolding transfer_balance_to_manager_for_deal
  transfer-total up = ground (
    arith,
    both_halves up.commit_up d.ton_price cs
        (update_one up.first_up d.advertiser_customer_id
          (add_balances zero_ton (zero_ton -ℤ d.ton_price)) cs)
        (update_one up.second_up d.channel_manager_id (add_balances d.ton_price zero_ton))
        (update_one-Moves up.first_up d.advertiser_customer_id zero_ton (zero_ton -ℤ d.ton_price)
          cs)
        (update_one-Moves up.second_up d.channel_manager_id d.ton_price zero_ton),
  )

-- The table after a deal's price went back from the locked to the free balance.
abbrev pub refunded : Deal → Customers → Customers
refunded d cs =
    if leb_ℤ d.ton_price zero_ton
    then cs
    else modify d.advertiser_customer_id (add_balances d.ton_price (zero_ton -ℤ d.ton_price)) cs

pub unlock-served :
    (d : Deal) (cs : Customers) (c : Customer)
    → lookup d.advertiser_customer_id cs ≡ some c
    → unlock_balance_for_deal true d cs ≡ (none, refunded d cs)
unfolding unlock_balance_for_deal
unlock-served d cs c e = elim (Bool-cases (leb_ℤ d.ton_price zero_ton)) [
  | inl h ↦ rw h refl
  | inr h ↦ rw h (
      update_one-served d.advertiser_customer_id
        (add_balances d.ton_price (zero_ton -ℤ d.ton_price)) cs c e)
]

-- No row goes.
pub modify-present :
    (k : ℕ) (f : Customer → Customer) (cs : Customers) (i : ℕ) (c : Customer)
    → lookup i cs ≡ some c
    → (c' : Customer) × (lookup i (modify k f cs) ≡ some c')
modify-present k f cs i c e = elim (ℕ_discrete i k) [
  | no p ↦ (c, lookup-modify_ne k f i cs p ∙ e)
  | yes p ↦
      (f c, subst (λ j. lookup i (modify j f cs) ≡ some (f c)) p (lookup-modify-some i f cs c e))
]

pub refunded-present :
    (d : Deal) (cs : Customers) (i : ℕ) (c : Customer)
    → lookup i cs ≡ some c
    → (c' : Customer) × (lookup i (refunded d cs) ≡ some c')
refunded-present d cs i c e = elim (Bool-cases (leb_ℤ d.ton_price zero_ton)) [
  | inl h ↦ rw h (c, e)
  | inr h ↦ rw h (
      modify-present d.advertiser_customer_id (add_balances d.ton_price (zero_ton -ℤ d.ton_price))
        cs i c e)
]

-- The table after a deal's price went from the free to the locked balance.
abbrev pub locked : Deal → Customers → Customers
locked d cs =
    modify d.advertiser_customer_id (add_balances (zero_ton -ℤ d.ton_price) d.ton_price) cs

-- A deal with a price is locked for an advertiser who has as much, or the table stays as it is.
pub lock-cases :
    (up : Bool) (d : Deal) (cs : Customers)
    → leb_ℤ d.ton_price zero_ton ≡ false
    → ((e : Error) × (lock_balance_for_deal up d cs ≡ (some e, cs)))
      ⊎ ((c : Customer) × (lookup d.advertiser_customer_id cs ≡ some c)
          × (leb_ℤ d.ton_price c.ton_balance ≡ true)
          × (lock_balance_for_deal up d cs ≡ (none, locked d cs)))
unfolding lock_balance_for_deal update_if_covered
lock-cases false d cs h = inl (internal_error, rw h refl)
lock-cases true d cs h = elim (Option-cases (lookup d.advertiser_customer_id cs)) [
  | inl e ↦ inl (insufficient_balance, rw (h, e) refl)
  | inr (c, e) ↦ elim (Bool-cases (leb_ℤ d.ton_price c.ton_balance)) [
    | inr p ↦ inl (insufficient_balance, rw (h, e, p) refl)
    | inl p ↦ inr (c, e, p, rw (h, e, p) refl)
  ]
]

-- A deduction takes the amount from the free balance of a customer who has as much, or fails.
pub deduct-cases :
    (up : Bool) (k : ℕ) (amount : ℤ) (cs : Customers)
    → leb_ℤ amount zero_ton ≡ false
    → ((e : Error) × (deduct_balance up k amount cs ≡ (some e, cs)))
      ⊎ ((c : Customer) × (cs' : Customers) × (c' : Customer) × (lookup k cs ≡ some c)
          × (leb_ℤ amount c.ton_balance ≡ true)
          × (deduct_balance up k amount cs ≡ (none, cs'))
          × (total cs' +ℤ amount ≡ total cs)
          × (lookup k cs' ≡ some c'))
unfolding deduct_balance update_if_covered
deduct-cases false k amount cs h = inl (internal_error, rw h refl)
deduct-cases true k amount cs h = elim (Option-cases (lookup k cs)) [
  | inl e ↦ inl (insufficient_balance, rw (h, e) refl)
  | inr (c, e) ↦ elim (Bool-cases (leb_ℤ amount c.ton_balance)) [
    | inr p ↦ inl (insufficient_balance, rw (h, e, p) refl)
    | inl p ↦
        let f = add_balances (zero_ton -ℤ amount) zero_ton in
        inr (
          c,
          modify k f cs,
          f c,
          e,
          p,
          rw (h, e, p) refl,
          grind (int_laws, total-modify k (zero_ton -ℤ amount) zero_ton c cs e),
          lookup-modify-some k f cs c e,
        )
  ]
]

pub refund_balance-total :
    (k : ℕ) (amount : ℤ) (cs : Customers) (c : Customer)
    → leb_ℤ amount zero_ton ≡ false
    → lookup k cs ≡ some c
    → total (refund_balance true k amount cs).1 ≡ total cs +ℤ amount
unfolding refund_balance
refund_balance-total k amount cs c h e =
    rw (h, update_one-served k (add_balances amount zero_ton) cs c e)
      (grind (int_laws, total-modify k amount zero_ton c cs e))

pub refund_balance-down :
    (k : ℕ) (amount : ℤ) (cs : Customers) → (refund_balance false k amount cs).1 ≡ cs
unfolding refund_balance update_one
refund_balance-down k amount cs = ground arith
