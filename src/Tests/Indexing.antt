-- ===== src/Tests/Indexing.antt =====
-- Runs of the indexer of internal/modules/ton.
use tam_backend.Prelude.{◌==◌, if◌then◌else◌, pos, codes, true, false, none, some, [], ◌∷◌, arith}
use tam_backend.Ton.Indexer.{
  Shard, ShortTx, InMsg, ChainTx, Chain, Saving, AddressBook, Cycle, process_all_pending_blocks,
}
use tam_backend.Ton.Indexer.Cursor.{ReadTo, process_all_pending_blocks-ReadTo}

abbrev pub shard : Shard
shard = record { shard_id = 1; shard_seqno = 77 }

abbrev pub short_tx : ShortTx
short_tx = record { account = codes "EQ"; account_lt = 5 }

abbrev pub other_tx : ShortTx
other_tx = record { account = codes "EX"; account_lt = 4 }

abbrev pub message : InMsg
message = record {
  nano = pos 1000000000;
  bounce = false;
  bounced = false;
  src_addr = codes "EF";
  dst_addr = codes "EQ";
}

abbrev pub details : ChainTx
details = record { in_msg = some message; hash = codes "h1"; tx_lt = 5 }

-- Every block has one shard with one batch; the block 13 cannot be found.
abbrev pub chain : Chain
chain = record {
  lookup_block = λ n. if n == 13 then none else some n;
  get_block_shards_info = λ b. some (shard ∷ []);
  get_block_transactions = λ sh a. some (other_tx ∷ short_tx ∷ [], false);
  get_transaction = λ sh acc lt. if lt == 5 then some details else none;
}

abbrev pub saving : Saving
saving = record { save_up = λ hash n. true; fresh_id = λ hash. 90 }

abbrev pub book : AddressBook
book = codes "EQ" ∷ []

abbrev pub cycle : Cycle
cycle = record {
  chain = chain;
  saving = saving;
  book = book;
  stopped = λ n. false;
  state_up = true;
}

process_all_pending_blocks-ReadTo_example :
    ReadTo 3 cycle 10 15 (process_all_pending_blocks 3 cycle (some 15) 10 []).0
process_all_pending_blocks-ReadTo_example =
    process_all_pending_blocks-ReadTo 3 cycle 15 10 [] (omega arith)
