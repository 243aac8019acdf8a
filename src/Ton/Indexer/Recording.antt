-- ===== src/Ton/Indexer/Recording.antt =====
-- What internal/modules/ton/indexer.go records of a block.
use tam_backend.Prelude.{
  if◌then◌else◌, Bool-cases, Option-cases, any, pos, leb_ℤ, Text, text_eq_refl, ℕ, ◌≡◌, refl, sym,
  subst, inl, inr, Bool, true, false, ◌&&◌, some, List, [], ◌∷◌, ◌++◌, arith,
}
use tam_backend.Ton.Deposits.{Transactions, TransactionParams, has_hash, save_transaction}
use tam_backend.Ton.Deposits.Keeping.{Recorded}
use tam_backend.Ton.Indexer.{
  Shard, ShortTx, InMsg, ChainTx, Chain, Saving, AddressBook, has_address, deposit_params,
  check_transaction, check_each,
}

save-keeps :
    (up : ℕ → Bool) (id : ℕ) (p : TransactionParams) (ts : Transactions) (hash : Text)
    → Recorded hash ts
    → Recorded hash (save_transaction up id p ts).1
unfolding save_transaction
save-keeps up id p ts hash h = ground arith

save-records :
    (up : ℕ → Bool) (id : ℕ) (p : TransactionParams) (ts : Transactions)
    → up 0 ≡ true
    → up 1 ≡ true
    → Recorded p.tx_hash (save_transaction up id p ts).1
unfolding save_transaction
save-records up id p ts a b = elim (Bool-cases (any (has_hash p.tx_hash) ts)) [
  | inl e ↦ rw (a, e) e
  | inr e ↦ rw (a, e, b) (rw (text_eq_refl p.tx_hash) refl)
]

module _ (chain : Chain) (s : Saving) (book : AddressBook) (shard : Shard) (hash : Text) where
  check_transaction-keeps :
      (short : ShortTx) (ts : Transactions)
      → Recorded hash ts
      → Recorded hash (check_transaction chain s shard short ts).1
  unfolding check_transaction
  check_transaction-keeps short ts h =
      elim (Option-cases (chain.get_transaction shard short.account short.account_lt)) [
        | inl e ↦ rw (e, check_transaction) h
        | inr (tx, e) ↦ elim (Option-cases tx.in_msg) [
          | inl m ↦ rw (e, m, check_transaction) h
          | inr (msg, m) ↦ elim (Bool-cases (leb_ℤ msg.nano (pos 0))) [
            | inl p ↦ rw (e, m, p, check_transaction) h
            | inr p ↦ elim (Bool-cases (msg.bounce && msg.bounced)) [
              | inl b ↦ rw (e, m, p, b, check_transaction) h
              | inr b ↦
                  rw (e, m, p, b, check_transaction)
                    (save-keeps (s.save_up tx.hash) (s.fresh_id tx.hash)
                      (deposit_params shard tx msg) ts hash h)
            ]
          ]
        ]
      ]

  pub check_each-keeps :
      (shorts : List ShortTx) (ts : Transactions)
      → Recorded hash ts
      → Recorded hash (check_each chain s book shard shorts ts)
  unfolding check_each
  check_each-keeps [] ts h = h
  check_each-keeps (short ∷ shorts) ts h = elim (Bool-cases (has_address book short.account)) [
    | inl e ↦ rw e (
        check_each-keeps shorts (check_transaction chain s shard short ts).1
          (check_transaction-keeps short ts h))
    | inr e ↦ rw e (check_each-keeps shorts ts h)
  ]

-- The details of a transaction that are a deposit: an internal message with a positive amount that has
-- not bounced.
abbrev pub IsDeposit : ChainTx → InMsg → Type 0
IsDeposit tx msg =
    (tx.in_msg ≡ some msg) × (leb_ℤ msg.nano (pos 0) ≡ false) × (msg.bounce && msg.bounced ≡ false)

check_transaction-records :
    (chain : Chain) (s : Saving) (shard : Shard) (short : ShortTx) (tx : ChainTx) (msg : InMsg)
    (ts : Transactions)
    → chain.get_transaction shard short.account short.account_lt ≡ some tx
    → IsDeposit tx msg
    → ((n : ℕ) → s.save_up tx.hash n ≡ true)
    → Recorded tx.hash (check_transaction chain s shard short ts).1
unfolding check_transaction
check_transaction-records chain s shard short tx msg ts e (m, p, b) up =
    rw (e, m, p, b, check_transaction)
      (save-records (s.save_up tx.hash) (s.fresh_id tx.hash) (deposit_params shard tx msg) ts (up 0)
        (up 1))

-- A deposit in a batch to an address of the book is recorded, if the client gives its details and the
-- database saves it, whatever happens to the rest of the batch.
pub check_each-records :
    (chain : Chain) (s : Saving) (book : AddressBook) (shard : Shard) (short : ShortTx)
    (tx : ChainTx) (msg : InMsg) (front behind : List ShortTx) (ts : Transactions)
    → has_address book short.account ≡ true
    → chain.get_transaction shard short.account short.account_lt ≡ some tx
    → IsDeposit tx msg
    → ((n : ℕ) → s.save_up tx.hash n ≡ true)
    → any (has_hash tx.hash) (check_each chain s book shard (front ++ short ∷ behind) ts) ≡ true
unfolding check_each
check_each-records chain s book shard short tx msg [] behind ts mine e d up =
    subst
      (λ b. Recorded tx.hash (
        check_each chain s book shard behind
          (if b then (check_transaction chain s shard short ts).1 else ts)))
      (sym mine)
      (check_each-keeps chain s book shard tx.hash behind
        (check_transaction chain s shard short ts).1
        (check_transaction-records chain s shard short tx msg ts e d up))
check_each-records chain s book shard short tx msg (x ∷ front) behind ts mine e d up =
    check_each-records chain s book shard short tx msg front behind
      (if has_address book x.account then (check_transaction chain s shard x ts).1 else ts) mine e d
      up
