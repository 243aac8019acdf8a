-- ===== src/Ton/Indexer.antt =====
-- internal/modules/ton/indexer.go: the walk over the blocks of the chain that records deposits. The
-- client of the chain is the parameter `Chain`; a block is known by a number, and an account by its
-- bounceable address. Timeouts of a context are failures of the client.
pub mod Cursor
pub mod Passing
pub mod Reaching
pub mod Recording
use tam_backend.Prelude.{
  if◌then◌else◌, any, ℤ, pos, wrap_64, leb_ℤ, Text, text_eq, ℕ, zero, suc, ◌-◌, Bool, true, false,
  ◌&&◌, Option, none, some, List, [], ◌∷◌,
}
use tam_backend.Ton.Deposits.{Transactions, TransactionParams, save_transaction}

pub record Shard : Type 0 where
  pub shard_id : ℕ
  pub shard_seqno : ℕ

pub record ShortTx : Type 0 where
  pub account : Text
  pub account_lt : ℕ

-- The internal message of a transaction.
pub record InMsg : Type 0 where
  pub nano : ℤ
  pub bounce : Bool
  pub bounced : Bool
  pub src_addr : Text
  pub dst_addr : Text

-- `none` where there is no incoming message or it is no internal one.
pub record ChainTx : Type 0 where
  pub in_msg : Option InMsg
  pub hash : Text
  pub tx_lt : ℕ

-- The calls of the client, `none` being an error.
pub record Chain : Type 0 where
  pub lookup_block : ℕ → Option ℕ
  pub get_block_shards_info : ℕ → Option (List Shard)
  pub get_block_transactions : Shard → Option ShortTx → Option (List ShortTx × Bool)
  pub get_transaction : Shard → Text → ℕ → Option ChainTx

-- How the database answers `SaveTransaction`, by hash, and the id that it gives a new row.
pub record Saving : Type 0 where
  pub save_up : Text → ℕ → Bool
  pub fresh_id : Text → ℕ

-- `SafeAddressBook`.
abbrev pub AddressBook : Type 0
AddressBook = List Text

-- `SafeAddressBook.Has`.
abbrev pub has_address : AddressBook → Text → Bool
has_address book addr = any (λ a. text_eq a addr) book

abbrev pub deposit_params : Shard → ChainTx → InMsg → TransactionParams
deposit_params shard tx msg = record {
  sender = msg.src_addr;
  wallet_address = msg.dst_addr;
  amount_ton = wrap_64 msg.nano;
  tx_hash = tx.hash;
  seqno = shard.shard_seqno;
  lt = tx.tx_lt;
}

-- `checkTransaction`: a deposit is an internal message with a positive amount that has not bounced.
unfoldable pub check_transaction :
    Chain → Saving → Shard → ShortTx → Transactions → Bool × Transactions
check_transaction chain s shard short ts =
    elim (chain.get_transaction shard short.account short.account_lt) [
      | none ↦ (false, ts)
      | some tx ↦ elim tx.in_msg [
        | none ↦ (true, ts)
        | some msg ↦
            if leb_ℤ msg.nano (pos 0)
            then (true, ts)
            else if msg.bounce && msg.bounced
            then (true, ts)
            else let saved =
                save_transaction (s.save_up tx.hash) (s.fresh_id tx.hash)
                  (deposit_params shard tx msg) ts in
              (elim saved.0 [ none ↦ true | some e ↦ false ], saved.1)
      ]
    ]

-- The loop over a batch, which logs a failure and goes on.
unfoldable pub check_each :
    Chain → Saving → AddressBook → Shard → List ShortTx → Transactions → Transactions
unfolding check_transaction
check_each chain s book shard [] ts = ts
check_each chain s book shard (short ∷ shorts) ts =
    let ts' =
      if has_address book short.account then (check_transaction chain s shard short ts).1 else ts in
    check_each chain s book shard shorts ts'

abbrev pub last_of : ShortTx → List ShortTx → ShortTx
last_of short [] = short
last_of short (next ∷ shorts) = last_of next shorts

-- How a walk ends; `running` is the end of the fuel.
pub data Ending : Type 0 where
  finished failed running : Ending

abbrev pub Walk : Type 0
Walk = Ending × Transactions

-- The batches of `processShardBlock`, with fuel.
unfoldable pub process_batches :
    ℕ → Chain → Saving → AddressBook → Shard → Option ShortTx → Transactions → Walk
unfolding check_each
process_batches zero chain s book shard after_tx ts = (running, ts)
process_batches (suc fuel) chain s book shard after_tx ts =
    elim (chain.get_block_transactions shard after_tx) [
      | none ↦ (failed, ts)
      | some (txs, more) ↦ elim txs [
        | [] ↦ (finished, ts)
        | short ∷ shorts ↦
            let ts' = check_each chain s book shard (short ∷ shorts) ts in
            let next = process_batches fuel chain s book shard (some (last_of short shorts)) ts' in
            if more then next else (finished, ts')
      ]
    ]

-- `processShardBlock`.
abbrev pub process_shard_block : ℕ → Chain → Saving → AddressBook → Shard → Transactions → Walk
process_shard_block fuel chain s book shard ts = process_batches fuel chain s book shard none ts

-- `processMasterBlock`, the loop over the shards: the first that does not finish ends it.
unfoldable pub process_shards : ℕ → Chain → Saving → AddressBook → List Shard → Transactions → Walk
unfolding process_batches
process_shards fuel chain s book [] ts = (finished, ts)
process_shards fuel chain s book (shard ∷ shards) ts =
    let (ending, ts') = process_shard_block fuel chain s book shard ts in
    let next = process_shards fuel chain s book shards ts' in
    elim ending [ finished ↦ next | failed ↦ (failed, ts') | running ↦ (running, ts') ]

-- `processBlock` with `processMasterBlock`.
unfoldable pub process_block : ℕ → Chain → Saving → AddressBook → ℕ → Transactions → Walk
unfolding process_shards
process_block fuel chain s book seqno ts = elim (chain.lookup_block seqno) [
  | none ↦ (failed, ts)
  | some block ↦ elim (chain.get_block_shards_info block) [
    | none ↦ (failed, ts)
    | some shards ↦ process_shards fuel chain s book shards ts
  ]
]

-- What a cycle meets: the client, the book, the database, whether a stop is asked for before a block,
-- and whether the state can be saved.
pub record Cycle : Type 0 where
  pub chain : Chain
  pub saving : Saving
  pub book : AddressBook
  pub stopped : ℕ → Bool
  pub state_up : Bool

-- After a block: the walk stops before it if that was asked for, goes on behind it if it was
-- finished, and ends before it if it was not.
abbrev pub after_block : Bool → ℕ → Transactions → Walk → ℕ × Transactions → ℕ × Transactions
after_block true done_to ts w next = (done_to, ts)
after_block false done_to ts (finished, ts') next = next
after_block false done_to ts (failed, ts') next = (done_to, ts')
after_block false done_to ts (running, ts') next = (done_to, ts')

-- The loop of `processAllPendingBlocks` over the given number of blocks from a block number on: the
-- number of the last block that was processed, and the transactions.
unfoldable pub process_blocks : ℕ → Cycle → ℕ → ℕ → Transactions → ℕ × Transactions
process_blocks fuel c zero done_to ts = (done_to, ts)
process_blocks fuel c (suc blocks) done_to ts =
    let walk = process_block fuel c.chain c.saving c.book (suc done_to) ts in
    after_block (c.stopped (suc done_to)) done_to ts walk
      (process_blocks fuel c blocks (suc done_to) walk.1)

-- `processAllPendingBlocks`: the saved block number and the transactions. The number is saved if a
-- block was processed, at the end or at a failure.
unfoldable pub process_all_pending_blocks :
    ℕ → Cycle → Option ℕ → ℕ → Transactions → ℕ × Transactions
unfolding process_blocks
process_all_pending_blocks fuel c none last_seqno ts = (last_seqno, ts)
process_all_pending_blocks fuel c (some current) last_seqno ts =
    let (done_to, ts') = process_blocks fuel c (current - last_seqno) last_seqno ts in
    if c.state_up then (done_to, ts') else (last_seqno, ts')
