-- ===== src/System/Addresses.antt =====
-- `UpdateMe` of internal/modules/server and the deposits of internal/modules/ton: the two columns of
-- addresses are unique each, but a deposit's owner is looked for in both.
use tam_backend.Prelude.{
  ◌==◌, Bool-cases, filter, lookup, modify, lookup-modify_ne, lookup-modify-some, Text,
  text_eq_refl, ℕ, ◌≡◌, refl, sym, ◌∙◌, ◌≢◌, inl, inr, Bool, true, false, none, some, [], ◌∷◌,
  arith,
}
use tam_backend.Common.Errors.{internal_error, err}
use tam_backend.Storage.Schema.{Customer, Transaction, Db}
use tam_backend.Storage.Customers.{Customers, TxAnswers}
use tam_backend.Ton.Deposits.{
  Transactions, is_processing, owns, only, Vault, process_deposit_for_transaction,
}
use tam_backend.Server.Auth.{UpdateMeRequest, apply_update, after_profile_update, update_me}
use tam_backend.Server.Outcome.{success}
use tam_backend.Storage.Profiles.{update_customer}

module _ (a : Text) where
  one_owner :
      (v : ℕ) (c : Customer) (t : Customers)
      → lookup v t ≡ some c
      → owns a (v, c) ≡ true
      → (r : ℕ × Customer) × (rs : Customers) × (filter (owns a) t ≡ r ∷ rs)
  one_owner v c [] l o = cc
  one_owner v c ((j, d) ∷ t) l o = elim (Bool-cases (owns a (j, d))) [
    | inl e ↦ ((j, d), filter (owns a) t, rw e refl)
    | inr e ↦
        let later : lookup v t ≡ some c = ground arith in
        let (r, rs, q) = one_owner v c t later o in (r, rs, rw e q)
  ]

  -- A row that is not an owner is not the owner that is found by its key.
  not_head :
      (v : ℕ) (c : Customer) (r : ℕ × Customer) (t : Customers)
      → lookup v (r ∷ t) ≡ some c
      → owns a (v, c) ≡ true
      → owns a r ≡ false
      → lookup v t ≡ some c
  not_head v c (j, d) t l o e = elim (Bool-cases (v == j)) [
    | inl same ↦ ground (arith, same)
    | inr other ↦ ground (arith, other)
  ]

  two_owners :
      (k v : ℕ) (b c : Customer) (t : Customers)
      → k ≢ v
      → lookup k t ≡ some b
      → owns a (k, b) ≡ true
      → lookup v t ≡ some c
      → owns a (v, c) ≡ true
      → only (filter (owns a) t) ≡ err internal_error
  two_owners k v b c [] ne lk own_k lv ov = cc
  two_owners k v b c ((j, d) ∷ t) ne lk own_k lv ov = elim (Bool-cases (owns a (j, d))) [
    | inr e ↦
        let later_k : lookup k t ≡ some b = not_head k b (j, d) t lk own_k e in
        let later_v : lookup v t ≡ some c = not_head v c (j, d) t lv ov e in
        rw e (two_owners k v b c t ne later_k own_k later_v ov)
    | inl e ↦ elim (Bool-cases (k == j)) [
      | inl here ↦
          let later : lookup v t ≡ some c = ground arith in
          let (r, rs, q) = one_owner v c t later ov in rw (e, q) refl
      | inr other ↦
          let later : lookup k t ≡ some b = ground (arith, other) in
          let (r, rs, q) = one_owner k b t later own_k in rw (e, q) refl
    ]
  ]

-- A request that sets the address that is not bounceable.
abbrev pub take_address : Text → UpdateMeRequest
take_address a = record { language = none; bounceable = none; nonbounceable = some a }

own_address : (a : Text) (k : ℕ) (b : Customer) → owns a (k, apply_update (take_address a) b) ≡ true
own_address a k b = rw (text_eq_refl a) refl

update_customer-customers :
    (up : Bool) (k : ℕ) (f : Customer → Customer) (db : Db) (code : ℕ)
    → (after_profile_update (update_customer up k f db)).reply ≡ success code
    → (after_profile_update (update_customer up k f db)).db.customers ≡ modify k f db.customers
unfolding after_profile_update update_customer
update_customer-customers up k f db code h = ground arith

update_me-customers :
    (up : Bool) (k : ℕ) (req : UpdateMeRequest) (db : Db) (code : ℕ)
    → (update_me up k (some req) db).reply ≡ success code
    → (update_me up k (some req) db).db.customers ≡ modify k (apply_update req) db.customers
unfolding update_me
update_me-customers up k req db code h = update_customer-customers up k (apply_update req) db code h

process-contested :
    (up : ℕ → Bool) (tx_up : TxAnswers) (id : ℕ) (t : Transaction) (vault : Vault)
    → lookup id vault.transactions ≡ some t
    → is_processing t.status ≡ true
    → only (filter (owns t.wallet_address) vault.customers) ≡ err internal_error
    → process_deposit_for_transaction up tx_up id vault ≡ (some internal_error, vault)
unfolding process_deposit_for_transaction
process-contested up tx_up id t vault l p o = elim (Bool-cases (up 0)) [
  | inr e ↦ rw (e, process_deposit_for_transaction) refl
  | inl e ↦ elim (Bool-cases (up 1)) [
    | inr f ↦ rw (e, l, p, f, process_deposit_for_transaction) refl
    | inl f ↦ rw (e, l, p, f, o, process_deposit_for_transaction) refl
  ]
]

-- A customer who has set the own address that is not bounceable to an address of another customer
-- stops that customer's deposits: `UpdateMe` accepts the address, and from there on every waiting
-- deposit to it ends with an error, whatever the database serves, and neither credits anybody nor
-- is marked.
pub update_me-stops_deposits :
    (up : Bool) (k v : ℕ) (b c : Customer) (a : Text) (db : Db) (code : ℕ)
    → k ≢ v
    → lookup k db.customers ≡ some b
    → lookup v db.customers ≡ some c
    → owns a (v, c) ≡ true
    → (update_me up k (some (take_address a)) db).reply ≡ success code
    → (reads : ℕ → Bool) (tx_up : TxAnswers) (id : ℕ) (t : Transaction) (ts : Transactions)
    → lookup id ts ≡ some t
    → t.wallet_address ≡ a
    → is_processing t.status ≡ true
    → let vault : Vault = record {
      customers = (update_me up k (some (take_address a)) db).db.customers;
      transactions = ts;
    } in
      process_deposit_for_transaction reads tx_up id vault ≡ (some internal_error, vault)
update_me-stops_deposits up k v b c a db code ne lk lv own h reads tx_up id t ts l same p =
    let after = update_me-customers up k (take_address a) db code h in
    let taken = lookup-modify-some k (apply_update (take_address a)) db.customers b lk in
    let kept =
      lookup-modify_ne k (apply_update (take_address a)) v db.customers (λ e. ne (sym e)) ∙ lv in
    let contested =
      two_owners a k v (apply_update (take_address a) b) c
        (modify k (apply_update (take_address a)) db.customers) ne taken (own_address a k b) kept
        own in
    process-contested reads tx_up id t
      (record {
        customers = (update_me up k (some (take_address a)) db).db.customers;
        transactions = ts;
      })
      l p (rw (same, after) contested)
