-- ===== src/Ton/Deposits.antt =====
-- The deposits: `SaveTransaction`, `GetProcessingTransactionIDs` and `ProcessDepositForTransaction` of
-- internal/modules/storage/indexer.go, and the round of internal/modules/ton/deposit_processor.go.
pub mod Crediting
pub mod Keeping
pub mod Ledger
pub mod Once
pub mod Rounds
use tam_backend.Prelude.{
  if◌then◌else◌, filter, any, ℤ, pos, leb_ℤ, Table, lookup, modify, Text, text_eq, ℕ, Bool, true,
  false, not, ◌||◌, Option, none, some, List, [], ◌∷◌, map,
}
use tam_backend.Common.Errors.{Error, internal_error, not_found, Result, ok, err}
use tam_backend.Storage.Schema.{Customer, TransactionStatus, processing, done, Transaction}
use tam_backend.Storage.Customers.{Customers, Updated, add_balances, update_one, TxAnswers}

abbrev pub Transactions : Type 0
Transactions = Table Transaction

pub record TransactionParams : Type 0 where
  pub sender : Text
  pub wallet_address : Text
  pub amount_ton : ℤ
  pub tx_hash : Text
  pub seqno : ℕ
  pub lt : ℕ

abbrev pub has_hash : Text → ℕ × Transaction → Bool
has_hash hash (id, t) = text_eq t.tx_hash hash

abbrev pub transaction_of : TransactionParams → Transaction
transaction_of p = record {
  sender = p.sender;
  wallet_address = p.wallet_address;
  amount = p.amount_ton;
  tx_hash = p.tx_hash;
  seqno = p.seqno;
  lt = p.lt;
  status = processing;
}

abbrev pub TransactionsUpdated : Type 0
TransactionsUpdated = Option Error × Transactions

-- `SaveTransaction`; the id of a new row is the database's choice.
unfoldable pub save_transaction :
    (ℕ → Bool) → ℕ → TransactionParams → Transactions → TransactionsUpdated
save_transaction up id p ts =
    if not (up 0)
    then (some internal_error, ts)
    else if any (has_hash p.tx_hash) ts
    then (none, ts)
    else if not (up 1)
    then (some internal_error, ts)
    else (none, (id, transaction_of p) ∷ ts)

abbrev pub is_processing : TransactionStatus → Bool
is_processing processing = true
is_processing done = false

-- `GetProcessingTransactionIDs`.
pub get_processing_transaction_ids : Transactions → List ℕ
get_processing_transaction_ids ts =
    map (λ row. row.0) (filter (λ row. is_processing row.1.status) ts)

abbrev pub owns : Text → ℕ × Customer → Bool
owns addr (id, c) = text_eq c.address_nonbounceable addr || text_eq c.address_bounceable addr

-- `Only`: one row, or an error for none and for several.
abbrev pub only : Customers → Result ℕ
only [] = err not_found
only ((id, c) ∷ []) = ok id
only (r ∷ s ∷ rs) = err internal_error

abbrev pub mark_done : Transaction → Transaction
mark_done t = record t { status = done }

-- `UpdateOneID(txID).SetStatus(DONE)`.
pub set_done : Bool → ℕ → Transactions → TransactionsUpdated
set_done up id ts = if not up then (some internal_error, ts) else elim (lookup id ts) [
  | none ↦ (some not_found, ts)
  | some t ↦ (none, modify id mark_done ts)
]

-- The money and the transactions: what the processing of a deposit works on.
pub record Vault : Type 0 where
  pub customers : Customers
  pub transactions : Transactions

abbrev pub VaultUpdated : Type 0
VaultUpdated = Option Error × Vault

-- The status within the database transaction, and its commit.
abbrev pub finish : TxAnswers → Vault → Customers → TransactionsUpdated → VaultUpdated
finish up v cs (some e, _) = (some e, v)
finish up v cs (none, ts) =
    if up.commit_up
    then (none, record { customers = cs; transactions = ts })
    else (some internal_error, v)

abbrev pub after_credit : TxAnswers → ℕ → Vault → Updated → VaultUpdated
after_credit up id v (some e, _) = (some e, v)
after_credit up id v (none, cs) = finish up v cs (set_done up.second_up id v.transactions)

abbrev pub with_transactions : Vault → TransactionsUpdated → VaultUpdated
with_transactions v (e, ts) = (e, record v { transactions = ts })

-- The credit to the customer that was found, and the status, in one database transaction.
pub credit : TxAnswers → ℕ → Transaction → ℕ → Vault → VaultUpdated
credit up id t k v =
    if leb_ℤ t.amount (pos 0)
    then with_transactions v (set_done up.second_up id v.transactions)
    else if not up.begin_up
    then (some internal_error, v)
    else after_credit up id v (update_one up.first_up k (add_balances t.amount (pos 0)) v.customers)

abbrev pub for_owner : TxAnswers → ℕ → Transaction → Vault → Result ℕ → VaultUpdated
for_owner up id t v (err not_found) = (none, v)
for_owner up id t v (err e) = (some e, v)
for_owner up id t v (ok k) = credit up id t k v

-- `ProcessDepositForTransaction`: two reads, and then the transaction.
unfoldable pub process_deposit_for_transaction : (ℕ → Bool) → TxAnswers → ℕ → Vault → VaultUpdated
process_deposit_for_transaction up tx_up id v =
    if not (up 0) then (some internal_error, v) else elim (lookup id v.transactions) [
      | none ↦ (none, v)
      | some t ↦
          if not (is_processing t.status)
          then (none, v)
          else if not (up 1)
          then (some internal_error, v)
          else for_owner tx_up id t v (only (filter (owns t.wallet_address) v.customers))
    ]

-- Which statements are served for which transaction.
pub record Supply : Type 0 where
  pub reads_up : ℕ → ℕ → Bool
  pub tx_up : ℕ → TxAnswers

-- The loop of a round, which logs an error and goes on.
pub process_each : Supply → List ℕ → Vault → Vault
process_each s [] v = v
process_each s (id ∷ ids) v =
    process_each s ids (process_deposit_for_transaction (s.reads_up id) (s.tx_up id) id v).1

-- `runDepositProcessorCycle`.
pub run_deposit_processor_cycle : Bool → Supply → Vault → Vault
unfolding process_each
run_deposit_processor_cycle fetch_up s v =
    if fetch_up then process_each s (get_processing_transaction_ids v.transactions) v else v
