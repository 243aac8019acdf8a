-- ===== src/Server.antt =====
-- internal/modules/server: the HTTP handlers and the periodic jobs.
pub mod Briefs
pub mod Lists
pub mod Outcome
pub mod DealHandlers
pub mod TimeHandlers
pub mod Offer
pub mod Access
pub mod Jobs
pub mod Withdraw
pub mod Channels
pub mod ChannelData
pub mod Auth
