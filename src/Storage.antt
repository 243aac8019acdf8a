-- ===== src/Storage.antt =====
-- internal/modules/storage: the database behind the server, the bots and the indexer.
pub mod Schema
pub mod Customers
pub mod Deals
pub mod Views
pub mod Channels
pub mod Profiles
