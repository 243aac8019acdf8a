-- ===== src/Ton/Deposits/Once.antt =====
-- A deposit is recorded and credited once: internal/modules/storage/indexer.go.
use tam_backend.Prelude.{
  Bool-cases, Option-cases, filter, any, pos, leb_ℤ, lookup, modify, lookup-modify-some,
  text_eq_refl, ℕ, ◌≡◌, refl, ◌⊎◌, inl, inr, Bool, true, false, none, some, ◌∷◌, arith,
}
use tam_backend.Common.Errors.{Error, internal_error, not_found, Result, ok, err}
use tam_backend.Storage.Schema.{Transaction}
use tam_backend.Storage.Customers.{Updated, add_balances, update_one, TxAnswers}
use tam_backend.Ton.Deposits.{
  Transactions, TransactionParams, save_transaction, is_processing, owns, only, mark_done, set_done,
  Vault, VaultUpdated, after_credit, credit, for_owner, process_deposit_for_transaction, has_hash,
  transaction_of,
}

-- An operation on the vault `v` has done nothing, or it has marked the transaction `id`.
abbrev Settles : ℕ → Vault → VaultUpdated → Type 0
Settles id v r = (r.1 ≡ v) ⊎ ((t : Transaction) × (lookup id r.1.transactions ≡ some (mark_done t)))

set_done-cases :
    (up : Bool) (id : ℕ) (t : Transaction) (ts : Transactions)
    → lookup id ts ≡ some t
    → ((e : Error) × (set_done up id ts ≡ (some e, ts)))
      ⊎ (set_done up id ts ≡ (none, modify id mark_done ts))
unfolding set_done
set_done-cases false id t ts h = inl (internal_error, refl)
set_done-cases true id t ts h = inr (rw h refl)

module _ (up : TxAnswers) (id : ℕ) (t : Transaction) (v : Vault)
    (there : lookup id v.transactions ≡ some t) where
  marked : lookup id (modify id mark_done v.transactions) ≡ some (mark_done t)
  marked = lookup-modify-some id mark_done v.transactions t there

  after_credit-Settles : (u : Updated) → Settles id v (after_credit up id v u)
  after_credit-Settles (some e, cs) = inl refl
  after_credit-Settles (none, cs) = elim (set_done-cases up.second_up id t v.transactions there) [
    | inl (e, p) ↦ rw p (inl refl)
    | inr p ↦ elim (Bool-cases up.commit_up) [
      | inl c ↦ rw (p, c) (inr (t, marked))
      | inr c ↦ rw (p, c) (inl refl)
    ]
  ]

  credit-Settles : (k : ℕ) → Settles id v (credit up id t k v)
  unfolding credit
  credit-Settles k = elim (Bool-cases (leb_ℤ t.amount (pos 0))) [
    | inl h ↦ elim (set_done-cases up.second_up id t v.transactions there) [
      | inl (e, p) ↦ rw (h, p) (inl refl)
      | inr p ↦ rw (h, p) (inr (t, marked))
    ]
    | inr h ↦ elim (Bool-cases up.begin_up) [
      | inr b ↦ rw (h, b) (inl refl)
      | inl b ↦
          rw (h, b)
            (after_credit-Settles
              (update_one up.first_up k (add_balances t.amount (pos 0)) v.customers))
    ]
  ]

  for_owner-Settles : (r : Result ℕ) → Settles id v (for_owner up id t v r)
  for_owner-Settles (ok k) = credit-Settles k
  for_owner-Settles (err not_found) = inl refl
  for_owner-Settles (err _) = inl refl

process-Settles :
    (up : ℕ → Bool) (tx_up : TxAnswers) (id : ℕ) (v : Vault)
    → Settles id v (process_deposit_for_transaction up tx_up id v)
unfolding process_deposit_for_transaction
process-Settles up tx_up id v = elim (Bool-cases (up 0)) [
  | inr a ↦ rw a (inl refl)
  | inl a ↦ elim (Option-cases (lookup id v.transactions)) [
    | inl e ↦ rw (a, e) (inl refl)
    | inr (t, e) ↦ elim (Bool-cases (is_processing t.status)) [
      | inr p ↦ rw (a, e, p) (inl refl)
      | inl p ↦ elim (Bool-cases (up 1)) [
        | inr b ↦ rw (a, e, p, b) (inl refl)
        | inl b ↦
            rw (a, e, p, b)
              (for_owner-Settles tx_up id t v e (only (filter (owns t.wallet_address) v.customers)))
      ]
    ]
  ]
]

process-marked :
    (up : ℕ → Bool) (tx_up : TxAnswers) (id : ℕ) (t : Transaction) (v : Vault)
    → lookup id v.transactions ≡ some (mark_done t)
    → (process_deposit_for_transaction up tx_up id v).1 ≡ v
unfolding process_deposit_for_transaction
process-marked up tx_up id t v h = elim (Bool-cases (up 0)) [
  | inr a ↦ rw a refl
  | inl a ↦ rw (a, h) refl
]

-- Processing a transaction leaves the vault as it was, or settles the transaction for good:
-- processing it again, whatever the database serves then, changes nothing.
pub process_deposit_for_transaction-once :
    (up again : ℕ → Bool) (tx_up tx_again : TxAnswers) (id : ℕ) (v : Vault)
    → let first = (process_deposit_for_transaction up tx_up id v).1 in
      (first ≡ v) ⊎ ((process_deposit_for_transaction again tx_again id first).1 ≡ first)
process_deposit_for_transaction-once up again tx_up tx_again id v =
    elim (process-Settles up tx_up id v) [
      | inl p ↦ inl p
      | inr (t, p) ↦
          inr
            (process-marked again tx_again id t (process_deposit_for_transaction up tx_up id v).1 p)
    ]

known :
    (up : ℕ → Bool) (id : ℕ) (p : TransactionParams) (ts : Transactions)
    → any (has_hash p.tx_hash) ts ≡ true
    → (save_transaction up id p ts).1 ≡ ts
unfolding save_transaction
known up id p ts h = elim (Bool-cases (up 0)) [ inr a ↦ rw a refl | inl a ↦ rw (a, h) refl ]

-- A transaction of the chain that was recorded once is not recorded again.
save_transaction-once :
    (up again : ℕ → Bool) (id id' : ℕ) (p : TransactionParams) (ts : Transactions)
    → let first = save_transaction up id p ts in
      first.0 ≡ none → (save_transaction again id' p first.1).1 ≡ first.1
unfolding save_transaction
save_transaction-once up again id id' p ts h = elim (Bool-cases (up 0)) [
  | inr a ↦ ground arith
  | inl a ↦ elim (Bool-cases (any (has_hash p.tx_hash) ts)) [
    | inl b ↦ rw (a, b) (known again id' p ts b)
    | inr b ↦ elim (Bool-cases (up 1)) [
      | inr c ↦ ground arith
      | inl c ↦
          rw (a, b, c)
            (known again id' p ((id, transaction_of p) ∷ ts) (rw (text_eq_refl p.tx_hash) refl))
    ]
  ]
]
