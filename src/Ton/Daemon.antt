-- ===== src/Ton/Daemon.antt =====
-- The processes of internal/modules/ton on one database: the loop of the indexer with its book of
-- addresses, and the processor of deposits. The client's two answers to CurrentMasterchainInfo in a
-- cycle are the fields `current` and `initial` of a visit.
pub mod Reading
use tam_backend.Prelude.{
  if◌then◌else◌, Text, is_empty, ℕ, Bool, ◌&&◌, Option, none, some, List, [], ◌∷◌,
}
use tam_backend.Storage.Customers.{Customers}
use tam_backend.Ton.Deposits.{Transactions, Vault, Supply, run_deposit_processor_cycle}
use tam_backend.Ton.Indexer.{Chain, Saving, AddressBook, Cycle, process_all_pending_blocks}

-- The addresses of `GetAllBounceableAddresses`.
abbrev pub bounceable_addresses : Customers → List Text
bounceable_addresses [] = []
bounceable_addresses ((id, c) ∷ cs) =
    let rest = bounceable_addresses cs in
    if is_empty c.address_bounceable then rest else c.address_bounceable ∷ rest

-- `GetAllBounceableAddresses`.
abbrev pub get_all_bounceable_addresses : Bool → Customers → Option (List Text)
get_all_bounceable_addresses up cs = if up then some (bounceable_addresses cs) else none

-- `LoadFromDB`: an error leaves the book as it was.
abbrev pub load_from_db : Bool → Customers → AddressBook → AddressBook
load_from_db up cs book = elim (get_all_bounceable_addresses up cs) [
  | none ↦ book
  | some addresses ↦ addresses
]

-- What a call returns, and the last block number in the row of the service, if there is one.
abbrev pub StateRead : Type 0
StateRead = Option ℕ × Option ℕ

-- `GetOrCreateIndexerState`; statement 0 reads, statement 1 creates.
abbrev pub get_or_create_indexer_state : (ℕ → Bool) → ℕ → Option ℕ → StateRead
get_or_create_indexer_state up initial none =
    if up 0 && up 1 then (some initial, some initial) else (none, none)
get_or_create_indexer_state up initial (some last) =
    if up 0 then (some last, some last) else (none, some last)

-- `getOrCreateState`.
abbrev pub get_or_create_state : (ℕ → Bool) → Option ℕ → Option ℕ → StateRead
get_or_create_state up none row = (none, row)
get_or_create_state up (some initial) row = get_or_create_indexer_state up initial row

-- The book is the indexer's, the rest the database's.
pub record Daemon : Type 0 where
  pub last_seqno : Option ℕ
  pub book : AddressBook
  pub vault : Vault

-- What a cycle meets.
pub record Visit : Type 0 where
  pub current : Option ℕ
  pub initial : Option ℕ
  pub row_up : ℕ → Bool
  pub chain : Chain
  pub saving : Saving
  pub stopped : ℕ → Bool
  pub state_up : Bool

abbrev pub cycle_of : Visit → AddressBook → Cycle
cycle_of v book = record {
  chain = v.chain;
  saving = v.saving;
  book = book;
  stopped = v.stopped;
  state_up = v.state_up;
}

abbrev pub after_cycle : Daemon → ℕ × Transactions → Daemon
after_cycle d (saved, ts) = record d {
  last_seqno = some saved;
  vault = record d.vault { transactions = ts };
}

abbrev pub with_state : ℕ → Visit → ℕ → Daemon → StateRead → Daemon
with_state fuel v current d (none, row) = record d { last_seqno = row }
with_state fuel v current d (some last, row) =
    after_cycle d
      (process_all_pending_blocks fuel (cycle_of v d.book) (some current) last d.vault.transactions)

-- `processBlocksCycle`.
unfoldable pub process_blocks_cycle : ℕ → Visit → Daemon → Daemon
process_blocks_cycle fuel v d = elim v.current [
  | none ↦ d
  | some current ↦ with_state fuel v current d (get_or_create_state v.row_up v.initial d.last_seqno)
]

-- The steps of the processes, and those of the rest of the program, which may leave any customers
-- behind.
pub data DaemonStep : Type 0 where
  starting : Bool → (ℕ → Bool) → Option ℕ → DaemonStep
  refreshing : Bool → DaemonStep
  visiting : ℕ → Visit → DaemonStep
  crediting : Bool → Supply → DaemonStep
  elsewhere : Customers → DaemonStep

-- `starting` is `indexerLoop` up to its first cycle, with an empty book; `refreshing` a tick of
-- `addressBookRefresher`.
unfoldable pub daemon_step : DaemonStep → Daemon → Daemon
daemon_step (starting load_up row_up initial) d = record d {
  last_seqno = (get_or_create_state row_up initial d.last_seqno).1;
  book = load_from_db load_up d.vault.customers [];
}
daemon_step (refreshing up) d = record d { book = load_from_db up d.vault.customers d.book }
daemon_step (visiting fuel v) d = process_blocks_cycle fuel v d
daemon_step (crediting fetch_up s) d = record d {
  vault = run_deposit_processor_cycle fetch_up s d.vault;
}
daemon_step (elsewhere cs) d = record d { vault = record d.vault { customers = cs } }

abbrev pub daemon_run : List DaemonStep → Daemon → Daemon
daemon_run [] d = d
daemon_run (s ∷ ss) d = daemon_run ss (daemon_step s d)
