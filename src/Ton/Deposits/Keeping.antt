-- ===== src/Ton/Deposits/Keeping.antt =====
-- The hashes of the deposits under the processor of internal/modules/ton/deposit_processor.go.
use tam_backend.Prelude.{
  ◌==◌, Bool-cases, Option-cases, filter, any, pos, leb_ℤ, lookup, modify, Text, ℕ, ◌≡◌, refl, inl,
  inr, Bool, true, false, none, some, List, [], ◌∷◌,
}
use tam_backend.Common.Errors.{not_found, Result, ok, err}
use tam_backend.Storage.Customers.{Customers, Updated, add_balances, update_one, TxAnswers}
use tam_backend.Storage.Schema.{Transaction}
use tam_backend.Ton.Deposits.{
  Transactions, has_hash, TransactionsUpdated, is_processing, get_processing_transaction_ids, owns,
  only, mark_done, set_done, Vault, finish, after_credit, credit, for_owner,
  process_deposit_for_transaction, Supply, process_each, run_deposit_processor_cycle,
}

abbrev pub Recorded : Text → Transactions → Type 0
Recorded hash ts = any (has_hash hash) ts ≡ true

module _ (hash : Text) where
  any-mark_done :
      (id : ℕ) (ts : Transactions)
      → any (has_hash hash) (modify id mark_done ts) ≡ any (has_hash hash) ts
  any-mark_done id [] = refl
  any-mark_done id ((j, t) ∷ ts) = elim (Bool-cases (id == j)) [
    | inl e ↦ rw e refl
    | inr e ↦ rw (e, any-mark_done id ts) refl
  ]

  set_done-Recorded :
      (up : Bool) (id : ℕ) (ts : Transactions)
      → Recorded hash ts
      → Recorded hash (set_done up id ts).1
  unfolding set_done
  set_done-Recorded false id ts h = h
  set_done-Recorded true id ts h = elim (Option-cases (lookup id ts)) [
    | inl e ↦ rw e h
    | inr (t, e) ↦ rw (e, any-mark_done id ts) h
  ]

  finish-Recorded :
      (up : TxAnswers) (v : Vault) (cs : Customers) (u : TransactionsUpdated)
      → Recorded hash v.transactions
      → Recorded hash u.1
      → Recorded hash (finish up v cs u).1.transactions
  finish-Recorded up v cs (some e, ts) h k = h
  finish-Recorded up v cs (none, ts) h k = elim (Bool-cases up.commit_up) [
    | inl e ↦ rw e k
    | inr e ↦ rw e h
  ]

  module _ (up : TxAnswers) (id : ℕ) (v : Vault) (h : Recorded hash v.transactions) where
    after_credit-Recorded : (u : Updated) → Recorded hash (after_credit up id v u).1.transactions
    after_credit-Recorded (some e, cs) = h
    after_credit-Recorded (none, cs) =
        finish-Recorded up v cs (set_done up.second_up id v.transactions) h
          (set_done-Recorded up.second_up id v.transactions h)

    credit-Recorded : (t : Transaction) (k : ℕ) → Recorded hash (credit up id t k v).1.transactions
    unfolding credit
    credit-Recorded t k = elim (Bool-cases (leb_ℤ t.amount (pos 0))) [
      | inl e ↦ rw e (set_done-Recorded up.second_up id v.transactions h)
      | inr e ↦ elim (Bool-cases up.begin_up) [
        | inr b ↦ rw (e, b) h
        | inl b ↦
            rw (e, b)
              (after_credit-Recorded
                (update_one up.first_up k (add_balances t.amount (pos 0)) v.customers))
      ]
    ]

    for_owner-Recorded :
        (t : Transaction) (r : Result ℕ) → Recorded hash (for_owner up id t v r).1.transactions
    for_owner-Recorded t (err not_found) = h
    for_owner-Recorded t (err e) = h
    for_owner-Recorded t (ok k) = credit-Recorded t k

  process-Recorded :
      (up : ℕ → Bool) (tx_up : TxAnswers) (id : ℕ) (v : Vault)
      → Recorded hash v.transactions
      → Recorded hash (process_deposit_for_transaction up tx_up id v).1.transactions
  unfolding process_deposit_for_transaction
  process-Recorded up tx_up id v h = elim (Bool-cases (up 0)) [
    | inr a ↦ rw a h
    | inl a ↦ elim (Option-cases (lookup id v.transactions)) [
      | inl e ↦ rw (a, e) h
      | inr (t, e) ↦ elim (Bool-cases (is_processing t.status)) [
        | inr p ↦ rw (a, e, p) h
        | inl p ↦ elim (Bool-cases (up 1)) [
          | inr b ↦ rw (a, e, p, b) h
          | inl b ↦
              rw (a, e, p, b)
                (for_owner-Recorded tx_up id v h t
                  (only (filter (owns t.wallet_address) v.customers)))
        ]
      ]
    ]
  ]

  process_each-Recorded :
      (s : Supply) (ids : List ℕ) (v : Vault)
      → Recorded hash v.transactions
      → Recorded hash (process_each s ids v).transactions
  unfolding process_each
  process_each-Recorded s [] v h = h
  process_each-Recorded s (id ∷ ids) v h =
      process_each-Recorded s ids
        (process_deposit_for_transaction (s.reads_up id) (s.tx_up id) id v).1
        (process-Recorded (s.reads_up id) (s.tx_up id) id v h)

  pub run_deposit_processor_cycle-Recorded :
      (fetch_up : Bool) (s : Supply) (v : Vault)
      → Recorded hash v.transactions
      → Recorded hash (run_deposit_processor_cycle fetch_up s v).transactions
  unfolding run_deposit_processor_cycle
  run_deposit_processor_cycle-Recorded false s v h = h
  run_deposit_processor_cycle-Recorded true s v h =
      process_each-Recorded s (get_processing_transaction_ids v.transactions) v h
