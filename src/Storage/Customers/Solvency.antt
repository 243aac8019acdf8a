-- ===== src/Storage/Customers/Solvency.antt =====
-- No free balance becomes negative by the balance operations of
-- internal/modules/storage/customers.go.
use tam_backend.Prelude.{
  Bool-cases, Option-cases, ℤ, ◌-ℤ◌, leb_ℤ, int_laws, lookup, modify, lookup-modify_ne,
  lookup-modify-some, modify-missing, ℕ, ◌≡◌, refl, sym, ap, ◌∙◌, subst, inl, inr, Bool, true,
  false, Option, none, some, arith, ℕ_discrete,
}
use tam_backend.Storage.Schema.{Customer, Deal}
use tam_backend.Storage.Customers.{
  Customers, zero_ton, add_balances, Updated, update_one, update_if_covered, lock_balance_for_deal,
  unlock_balance_for_deal, TxAnswers, or_rollback, commit, transfer_balance_to_manager_for_deal,
}

-- No customer's free balance is negative.
abbrev pub Solvent : Customers → Type 0
Solvent cs = (i : ℕ) (c : Customer) → lookup i cs ≡ some c → leb_ℤ zero_ton c.ton_balance ≡ true

same_row : (a c : Customer) (o : Option Customer) → o ≡ some a → o ≡ some c → a ≡ c
same_row a c o p q = ground (arith, p, q)

-- An update whose row stays solvent.
modify-Solvent :
    (k : ℕ) (f : Customer → Customer) (cs : Customers)
    → Solvent cs
    → ((c : Customer) → lookup k cs ≡ some c → leb_ℤ zero_ton (f c).ton_balance ≡ true)
    → Solvent (modify k f cs)
modify-Solvent k f cs s h i c e = elim (ℕ_discrete i k) [
  | no p ↦ s i c (sym (lookup-modify_ne k f i cs p) ∙ e)
  | yes p ↦ elim (Option-cases (lookup k cs)) [
    | inl n ↦ s i c (sym (ap (λ t. lookup i t) (modify-missing k f cs n)) ∙ e)
    | inr (a, q) ↦
        subst (λ x. leb_ℤ zero_ton x.ton_balance ≡ true)
          (same_row (f a) c (lookup k (modify k f cs)) (lookup-modify-some k f cs a q)
            (subst (λ x. lookup x (modify k f cs) ≡ some c) p e))
          (h a q)
  ]
]

add_more :
    (x y : ℤ) (c : Customer)
    → leb_ℤ zero_ton x ≡ true
    → leb_ℤ zero_ton c.ton_balance ≡ true
    → leb_ℤ zero_ton (add_balances x y c).ton_balance ≡ true
unfolding add_balances
add_more x y c h k = grind int_laws

take_covered :
    (a y : ℤ) (c : Customer)
    → leb_ℤ a c.ton_balance ≡ true
    → leb_ℤ zero_ton (add_balances (zero_ton -ℤ a) y c).ton_balance ≡ true
unfolding add_balances
take_covered a y c h = grind int_laws

update_one-Solvent :
    (up : Bool) (k : ℕ) (x y : ℤ) (cs : Customers)
    → leb_ℤ zero_ton x ≡ true
    → Solvent cs
    → Solvent (update_one up k (add_balances x y) cs).1
unfolding update_one
update_one-Solvent false k x y cs p s = s
update_one-Solvent true k x y cs p s = elim (Option-cases (lookup k cs)) [
  | inl e ↦ rw e s
  | inr (c, e) ↦ rw e (modify-Solvent k (add_balances x y) cs s (λ a h. add_more x y a p (s k a h)))
]

update_if_covered-Solvent :
    (up : Bool) (k : ℕ) (a y : ℤ) (cs : Customers)
    → Solvent cs
    → Solvent (update_if_covered up k a (add_balances (zero_ton -ℤ a) y) cs).1
unfolding update_if_covered
update_if_covered-Solvent false k a y cs s = s
update_if_covered-Solvent true k a y cs s = elim (Option-cases (lookup k cs)) [
  | inl e ↦ rw e s
  | inr (c, e) ↦ elim (Bool-cases (leb_ℤ a c.ton_balance)) [
    | inr h ↦ rw (e, h) s
    | inl h ↦
        rw (e, h)
          (modify-Solvent k (add_balances (zero_ton -ℤ a) y) cs s (λ b q.
            take_covered a y b
              (subst (λ x. leb_ℤ a x.ton_balance ≡ true) (same_row c b (lookup k cs) e q) h)))
  ]
]

positive : (p : ℤ) → leb_ℤ p zero_ton ≡ false → leb_ℤ zero_ton p ≡ true
positive p h = ground arith

module _ (d : Deal) (cs : Customers) (s : Solvent cs) where
  pub lock-Solvent : (up : Bool) → Solvent (lock_balance_for_deal up d cs).1
  unfolding lock_balance_for_deal
  lock-Solvent up = elim (Bool-cases (leb_ℤ d.ton_price zero_ton)) [
    | inl h ↦ rw h s
    | inr h ↦
        rw h (update_if_covered-Solvent up d.advertiser_customer_id d.ton_price d.ton_price cs s)
  ]

  pub unlock-Solvent : (up : Bool) → Solvent (unlock_balance_for_deal up d cs).1
  unfolding unlock_balance_for_deal
  unlock-Solvent up = elim (Bool-cases (leb_ℤ d.ton_price zero_ton)) [
    | inl h ↦ rw h s
    | inr h ↦ rw h (
        update_one-Solvent up d.advertiser_customer_id d.ton_price (zero_ton -ℤ d.ton_price) cs
          (positive d.ton_price h) s)
  ]

  commit-Solvent :
      (up : Bool) (u : Updated)
      → Solvent u.1
      → Solvent (or_rollback cs u (λ credited. commit up cs credited)).1
  commit-Solvent up (some e, cs') h = s
  commit-Solvent true (none, cs') h = h
  commit-Solvent false (none, cs') h = s

  both-Solvent :
      (up : Bool) (u : Updated) (k : Customers → Updated)
      → Solvent u.1
      → ((cs' : Customers) → Solvent cs' → Solvent (k cs').1)
      → Solvent
          (or_rollback cs u
            (λ debited. or_rollback cs (k debited) (λ credited. commit up cs credited))).1
  both-Solvent up (some e, cs') k h f = s
  both-Solvent up (none, cs') k h f = commit-Solvent up (k cs') (f cs' h)

  pub transfer-Solvent : (up : TxAnswers) → Solvent (transfer_balance_to_manager_for_deal up d cs).1
  unfolding transfer_balance_to_manager_for_deal
  transfer-Solvent up = elim (Bool-cases (leb_ℤ d.ton_price zero_ton)) [
    | inl h ↦ rw h s
    | inr h ↦ elim (Bool-cases up.begin_up) [
      | inr b ↦ rw (h, b) s
      | inl b ↦
          rw (h, b)
            (both-Solvent up.commit_up
              (update_one up.first_up d.advertiser_customer_id
                (add_balances zero_ton (zero_ton -ℤ d.ton_price)) cs)
              (update_one up.second_up d.channel_manager_id (add_balances d.ton_price zero_ton))
              (update_one-Solvent up.first_up d.advertiser_customer_id zero_ton
                (zero_ton -ℤ d.ton_price) cs refl s)
              (λ c q.
                update_one-Solvent up.second_up d.channel_manager_id d.ton_price zero_ton c
                  (positive d.ton_price h) q))
    ]
  ]
