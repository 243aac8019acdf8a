-- ===== src/Ton.antt =====
-- internal/modules/ton: the indexer of the TON chain and the processor of deposits.
pub mod Deposits
pub mod Daemon
pub mod Indexer
