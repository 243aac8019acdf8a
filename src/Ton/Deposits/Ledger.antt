-- ===== src/Ton/Deposits/Ledger.antt =====
-- What the deposits of internal/modules/storage/indexer.go and
-- internal/modules/ton/deposit_processor.go do to the money.
use tam_backend.Prelude.{
  if◌then◌else◌, Bool-cases, Option-cases, filter, ℤ, pos, ◌+ℤ◌, leb_ℤ, int_laws, lookup, modify,
  sum_rows, sum_rows-modify, ℕ, ◌≡◌, refl, ◌∙◌, ◌⊎◌, inl, inr, Bool, true, false, none, some, List,
  [], ◌∷◌,
}
use tam_backend.Common.Errors.{Error, internal_error, not_found, Result, ok, err}
use tam_backend.Storage.Schema.{Transaction}
use tam_backend.Storage.Customers.{Customers, Updated, TxAnswers, add_balances, update_one}
use tam_backend.Storage.Customers.Money.{total, Moves, update_one-Moves}
use tam_backend.Ton.Deposits.{
  Transactions, TransactionsUpdated, is_processing, mark_done, set_done, Vault, finish,
  after_credit, with_transactions, credit, get_processing_transaction_ids, owns, only, for_owner,
  process_deposit_for_transaction, Supply, process_each, run_deposit_processor_cycle,
}

-- What a transaction still brings: its amount, if it is positive and not yet credited.
abbrev pub due : Transaction → ℤ
due t =
    if is_processing t.status then (if leb_ℤ t.amount (pos 0) then pos 0 else t.amount) else pos 0

-- The money of the customers with the deposits that are still to be credited.
abbrev pub worth : Vault → ℤ
worth v = total v.customers +ℤ sum_rows due v.transactions

-- Marking a transaction fails, or it takes what the transaction brings from what is due.
set_done-due :
    (up : Bool) (id : ℕ) (t : Transaction) (ts : Transactions)
    → lookup id ts ≡ some t
    → ((e : Error) × (set_done up id ts ≡ (some e, ts)))
      ⊎ ((set_done up id ts ≡ (none, modify id mark_done ts))
          × (sum_rows due (modify id mark_done ts) +ℤ due t ≡ sum_rows due ts +ℤ pos 0))
unfolding set_done
set_done-due false id t ts h = inl (internal_error, refl)
set_done-due true id t ts h = inr (rw h refl, sum_rows-modify due id mark_done t ts h)

finish-worth :
    (up : TxAnswers) (v : Vault) (cs : Customers) (u : TransactionsUpdated)
    → total cs +ℤ sum_rows due u.1 ≡ worth v
    → worth (finish up v cs u).1 ≡ worth v
finish-worth up v cs (some e, ts) h = refl
finish-worth up v cs (none, ts) h = elim (Bool-cases up.commit_up) [
  | inl e ↦ rw e h
  | inr e ↦ rw e refl
]

module _ (up : TxAnswers) (id : ℕ) (t : Transaction) (v : Vault)
    (there : lookup id v.transactions ≡ some t) (waiting : is_processing t.status ≡ true) where
  worthless :
      leb_ℤ t.amount (pos 0) ≡ true
      → worth (with_transactions v (set_done up.second_up id v.transactions)).1 ≡ worth v
  worthless h = elim (set_done-due up.second_up id t v.transactions there) [
    | inl (e, p) ↦ rw p refl
    | inr (p, q) ↦ rw p (grind (int_laws, q, h, waiting))
  ]

  after_credit-worth :
      (u : Updated)
      → leb_ℤ t.amount (pos 0) ≡ false
      → Moves v.customers (t.amount +ℤ pos 0) u
      → worth (after_credit up id v u).1 ≡ worth v
  after_credit-worth (some e, cs) h m = refl
  after_credit-worth (none, cs) h m = elim (set_done-due up.second_up id t v.transactions there) [
    | inl (e, p) ↦ rw p refl
    | inr (p, q) ↦ rw p (
        finish-worth up v cs (none, modify id mark_done v.transactions)
          (grind (int_laws, q, h, m, waiting)))
  ]

  credit-worth : (k : ℕ) → worth (credit up id t k v).1 ≡ worth v
  unfolding credit
  credit-worth k = elim (Bool-cases (leb_ℤ t.amount (pos 0))) [
    | inl h ↦ rw h (worthless h)
    | inr h ↦ elim (Bool-cases up.begin_up) [
      | inr b ↦ rw (h, b) refl
      | inl b ↦
          rw (h, b)
            (after_credit-worth
              (update_one up.first_up k (add_balances t.amount (pos 0)) v.customers) h
              (update_one-Moves up.first_up k t.amount (pos 0) v.customers))
    ]
  ]

  for_owner-worth : (r : Result ℕ) → worth (for_owner up id t v r).1 ≡ worth v
  for_owner-worth (ok k) = credit-worth k
  for_owner-worth (err not_found) = refl
  for_owner-worth (err _) = refl

process-worth :
    (up : ℕ → Bool) (tx_up : TxAnswers) (id : ℕ) (v : Vault)
    → worth (process_deposit_for_transaction up tx_up id v).1 ≡ worth v
unfolding process_deposit_for_transaction
process-worth up tx_up id v = elim (Bool-cases (up 0)) [
  | inr a ↦ rw a refl
  | inl a ↦ elim (Option-cases (lookup id v.transactions)) [
    | inl e ↦ rw (a, e) refl
    | inr (t, e) ↦ elim (Bool-cases (is_processing t.status)) [
      | inr p ↦ rw (a, e, p) refl
      | inl p ↦ elim (Bool-cases (up 1)) [
        | inr b ↦ rw (a, e, p, b) refl
        | inl b ↦
            rw (a, e, p, b)
              (for_owner-worth tx_up id t v e p (only (filter (owns t.wallet_address) v.customers)))
      ]
    ]
  ]
]

process_each-worth :
    (s : Supply) (ids : List ℕ) (v : Vault) → worth (process_each s ids v) ≡ worth v
unfolding process_each
process_each-worth s [] v = refl
process_each-worth s (id ∷ ids) v =
    process_each-worth s ids (process_deposit_for_transaction (s.reads_up id) (s.tx_up id) id v).1
    ∙ process-worth (s.reads_up id) (s.tx_up id) id v

-- A round of the deposit processor, whatever the database serves of it, credits to the customers
-- exactly what it takes from the deposits that are due: nothing is credited twice, and no deposit is
-- marked as done without its credit.
pub run_deposit_processor_cycle-worth :
    (fetch_up : Bool) (s : Supply) (v : Vault)
    → worth (run_deposit_processor_cycle fetch_up s v) ≡ worth v
unfolding run_deposit_processor_cycle
run_deposit_processor_cycle-worth false s v = refl
run_deposit_processor_cycle-worth true s v =
    process_each-worth s (get_processing_transaction_ids v.transactions) v
