-- ===== src/Ton/Indexer/Passing.antt =====
-- The deposits that the walk of internal/modules/ton/indexer.go over the blocks has passed.
use tam_backend.Prelude.{
  Option-cases, Text, ℕ, zero, suc, ◌≡◌, refl, inl, inr, Bool, true, false, Option, none, some,
  List, [], ◌∷◌, ◌++◌,
}
use tam_backend.Ton.Deposits.{Transactions}
use tam_backend.Ton.Deposits.Keeping.{Recorded}
use tam_backend.Ton.Indexer.{
  Shard, ShortTx, InMsg, ChainTx, Chain, Saving, AddressBook, has_address, check_each, last_of,
  finished, failed, running, Walk, process_batches, process_shard_block, process_shards,
  process_block,
}
use tam_backend.Ton.Indexer.Recording.{check_each-keeps, IsDeposit, check_each-records}

-- The client's batches of a shard, from one on, contain a transaction.
pub data Listed (chain : Chain) (shard : Shard) (short : ShortTx) : Option ShortTx → Type 0 where
  in_batch :
      (a : Option ShortTx) (front behind : List ShortTx) (more : Bool)
      → chain.get_block_transactions shard a ≡ some (front ++ short ∷ behind, more)
      → Listed chain shard short a
  in_later_batch :
      (a : Option ShortTx) (first : ShortTx) (others : List ShortTx)
      → chain.get_block_transactions shard a ≡ some (first ∷ others, true)
      → Listed chain shard short (some (last_of first others))
      → Listed chain shard short a

-- The client shows a transaction in a block, with its details.
pub record Shows (chain : Chain) (seqno : ℕ) (shard : Shard) (short : ShortTx) (tx : ChainTx)
    : Type 0 where
  pub block : ℕ
  pub front : List Shard
  pub behind : List Shard
  pub is_found : chain.lookup_block seqno ≡ some block
  pub is_shard : chain.get_block_shards_info block ≡ some (front ++ shard ∷ behind)
  pub is_listed : Listed chain shard short none
  pub is_given : chain.get_transaction shard short.account short.account_lt ≡ some tx

-- A shard's walk, and that over the shards behind it.
abbrev join : Walk → Walk → Walk
join w next = elim w.0 [ finished ↦ next | failed ↦ (failed, w.1) | running ↦ (running, w.1) ]

join-keeps :
    (hash : Text) (w next : Walk)
    → Recorded hash w.1
    → Recorded hash next.1
    → Recorded hash (join w next).1
join-keeps hash (finished, ts) next h k = k
join-keeps hash (failed, ts) next h k = h
join-keeps hash (running, ts) next h k = h

join-finished :
    (w next : Walk)
    → (join w next).0 ≡ finished
    → (w.0 ≡ finished) × (next.0 ≡ finished) × (join w next ≡ next)
join-finished (finished, ts) next h = (refl, h, refl)
join-finished (failed, ts) next h = cc
join-finished (running, ts) next h = cc

module _ (fuel : ℕ) (chain : Chain) (s : Saving) (book : AddressBook) (hash : Text) where
  process_batches-keeps :
      (n : ℕ) (shard : Shard) (a : Option ShortTx) (ts : Transactions)
      → Recorded hash ts
      → Recorded hash (process_batches n chain s book shard a ts).1
  unfolding process_batches
  process_batches-keeps zero shard a ts h = h
  process_batches-keeps (suc n) shard a ts h =
      elim (Option-cases (chain.get_block_transactions shard a)) [
        | inl e ↦ rw (e, process_batches) h
        | inr (([], more), e) ↦ rw (e, process_batches) h
        | inr ((short ∷ shorts, false), e) ↦
            rw (e, process_batches) (check_each-keeps chain s book shard hash (short ∷ shorts) ts h)
        | inr ((short ∷ shorts, true), e) ↦
            rw (e, process_batches)
              (process_batches-keeps n shard (some (last_of short shorts))
                (check_each chain s book shard (short ∷ shorts) ts)
                (check_each-keeps chain s book shard hash (short ∷ shorts) ts h))
      ]

  process_shards-keeps :
      (shards : List Shard) (ts : Transactions)
      → Recorded hash ts
      → Recorded hash (process_shards fuel chain s book shards ts).1
  unfolding process_shards
  process_shards-keeps [] ts h = h
  process_shards-keeps (shard ∷ shards) ts h =
      let kept = process_batches-keeps fuel shard none ts h in
      join-keeps hash (process_shard_block fuel chain s book shard ts)
        (process_shards fuel chain s book shards (process_shard_block fuel chain s book shard ts).1)
        kept (process_shards-keeps shards (process_shard_block fuel chain s book shard ts).1 kept)

  pub process_block-keeps :
      (seqno : ℕ) (ts : Transactions)
      → Recorded hash ts
      → Recorded hash (process_block fuel chain s book seqno ts).1
  unfolding process_block
  process_block-keeps seqno ts h = elim (Option-cases (chain.lookup_block seqno)) [
    | inl e ↦ rw (e, process_block) h
    | inr (block, e) ↦ elim (Option-cases (chain.get_block_shards_info block)) [
      | inl i ↦ rw (e, i, process_block) h
      | inr (shards, i) ↦ rw (e, i, process_block) (process_shards-keeps shards ts h)
    ]
  ]

-- A deposit that the client shows, to an address of the book, which the database saves.
module _ (fuel : ℕ) (chain : Chain) (s : Saving) (book : AddressBook) (shard : Shard)
    (short : ShortTx) (tx : ChainTx) (msg : InMsg) (mine : has_address book short.account ≡ true)
    (given : chain.get_transaction shard short.account short.account_lt ≡ some tx)
    (deposit : IsDeposit tx msg) (up : (n : ℕ) → s.save_up tx.hash n ≡ true) where
  check_all-records :
      (front behind : List ShortTx) (ts : Transactions)
      → Recorded tx.hash (check_each chain s book shard (front ++ short ∷ behind) ts)
  check_all-records front behind ts =
      check_each-records chain s book shard short tx msg front behind ts mine given deposit up

  after_batch :
      (n : ℕ) (a : Option ShortTx) (ts : Transactions) (first : ShortTx) (others : List ShortTx)
      (more : Bool)
      → chain.get_block_transactions shard a ≡ some (first ∷ others, more)
      → Recorded tx.hash (check_each chain s book shard (first ∷ others) ts)
      → Recorded tx.hash (process_batches (suc n) chain s book shard a ts).1
  unfolding process_batches
  after_batch n a ts first others false e h = rw (e, process_batches) h
  after_batch n a ts first others true e h =
      rw (e, process_batches)
        (process_batches-keeps fuel chain s book tx.hash n shard (some (last_of first others))
          (check_each chain s book shard (first ∷ others) ts) h)

  process_batches-records :
      (n : ℕ) {a : Option ShortTx} (ts : Transactions)
      → Listed chain shard short a
      → (process_batches n chain s book shard a ts).0 ≡ finished
      → Recorded tx.hash (process_batches n chain s book shard a ts).1
  unfolding process_batches
  process_batches-records zero ts l end = cc
  process_batches-records (suc n) ts (in_batch a [] behind more e) end =
      after_batch n a ts short behind more e (check_all-records [] behind ts)
  process_batches-records (suc n) ts (in_batch a (x ∷ front) behind more e) end =
      after_batch n a ts x (front ++ short ∷ behind) more e
        (check_all-records (x ∷ front) behind ts)
  process_batches-records (suc n) ts (in_later_batch a first others e l) end =
      rw (e, process_batches)
        (process_batches-records n (check_each chain s book shard (first ∷ others) ts) l
          (rw (e, process_batches) at end))

  after_front :
      (front behind : List Shard) (ts : Transactions)
      → ((ts : Transactions)
          → (process_shard_block fuel chain s book shard ts).0 ≡ finished
          → Recorded tx.hash (process_shard_block fuel chain s book shard ts).1)
      → (process_shards fuel chain s book (front ++ shard ∷ behind) ts).0 ≡ finished
      → Recorded tx.hash (process_shards fuel chain s book (front ++ shard ∷ behind) ts).1
  unfolding process_shards
  after_front [] behind ts inner end =
      let w = process_shard_block fuel chain s book shard ts in
      let (a, b, c) = join-finished w (process_shards fuel chain s book behind w.1) end in
      rw c (process_shards-keeps fuel chain s book tx.hash behind w.1 (inner ts a))
  after_front (x ∷ front) behind ts inner end =
      let w = process_shard_block fuel chain s book x ts in
      let (a, b, c) =
        join-finished w (process_shards fuel chain s book (front ++ shard ∷ behind) w.1) end in
      rw c (after_front front behind w.1 inner b)

-- Reading a block to its end records a deposit that the client shows in it.
pub process_block-records :
    (fuel : ℕ) (chain : Chain) (s : Saving) (book : AddressBook) (seqno : ℕ) (shard : Shard)
    (short : ShortTx) (tx : ChainTx) (msg : InMsg) (ts : Transactions)
    → Shows chain seqno shard short tx
    → has_address book short.account ≡ true
    → IsDeposit tx msg
    → ((n : ℕ) → s.save_up tx.hash n ≡ true)
    → (process_block fuel chain s book seqno ts).0 ≡ finished
    → Recorded tx.hash (process_block fuel chain s book seqno ts).1
unfolding process_block
process_block-records fuel chain s book seqno shard short tx msg ts w mine deposit up end =
    rw (w.is_found, w.is_shard, process_block)
      (after_front fuel chain s book shard short tx msg mine w.is_given deposit up w.front w.behind
        ts
        (λ ts e.
          process_batches-records fuel chain s book shard short tx msg mine w.is_given deposit up
            fuel ts w.is_listed e)
        (rw (w.is_found, w.is_shard, process_block) at end))
