-- ===== src/Tests/Daemons.antt =====
-- A run of the processes of internal/modules/ton.
use tam_backend.Prelude.{
  any, codes, text_eq, ◌≡◌, refl, true, false, none, some, List, [], ◌∷◌, arith,
}
use tam_backend.Common.DealStatus.{draft}
use tam_backend.Ton.Deposits.{has_hash, save_transaction}
use tam_backend.Ton.Indexer.{
  process_all_pending_blocks, process_blocks, process_block, process_shards, process_batches,
  check_each, check_transaction,
}
use tam_backend.Ton.Indexer.Passing.{Shows, in_batch}
use tam_backend.Ton.Daemon.{
  Daemon, Visit, process_blocks_cycle, DaemonStep, starting, visiting, crediting, daemon_step,
  daemon_run,
}
use tam_backend.Ton.Daemon.Reading.{OnChain, AllServed, daemon_run-Recorded}
use tam_backend.Tests.{db_in, tx_all_up}
use tam_backend.Tests.Indexing.{shard, short_tx, other_tx, message, details, chain, saving}

-- The deposit of `details` in the block 12.
abbrev deposit_at : OnChain
deposit_at = record { seqno = 12; shard = shard; short = short_tx; tx = details; msg = message }

abbrev visit : Visit
visit = record {
  current = some 15;
  initial = some 15;
  row_up = λ n. true;
  chain = chain;
  saving = saving;
  stopped = λ n. false;
  state_up = true;
}

abbrev daemon : Daemon
daemon = record {
  last_seqno = some 10;
  book = [];
  vault = record { customers = (db_in draft).customers; transactions = [] };
}

-- A restart with the row unreadable, a cycle which the missing block 13 ends, and a round of the
-- processor.
abbrev steps : List DaemonStep
steps =
    starting true (λ n. false) (some 15)
    ∷ visiting 3 visit
    ∷ crediting true (record { reads_up = λ id n. true; tx_up = λ id. tx_all_up })
    ∷ []

shown : Shows chain 12 shard short_tx details
shown = record {
  block = 12;
  front = [];
  behind = [];
  is_found = refl;
  is_shard = refl;
  is_listed = in_batch none (other_tx ∷ []) [] false refl;
  is_given = refl;
}

served : AllServed deposit_at steps daemon
unfolding daemon_step text_eq
served = (tt, ((λ last e h. (shown, refl, λ n. refl)), (tt, tt)))

reached : (daemon_run steps daemon).last_seqno ≡ some 12
unfolding daemon_step process_blocks_cycle process_all_pending_blocks process_blocks process_block
    process_shards process_batches check_each check_transaction save_transaction text_eq
reached = refl

daemon_run-Recorded_example :
    any (has_hash (codes "h1")) (daemon_run steps daemon).vault.transactions ≡ true
daemon_run-Recorded_example =
    daemon_run-Recorded deposit_at (refl, refl, refl) steps daemon 10 12 refl (omega arith) served
      reached (omega arith)
