-- ===== src/Common.antt =====
-- internal/common: the constants, errors and validations that the server, the bots and the storage
-- share.
pub mod DealStatus
pub mod Errors
pub mod TargetType
pub mod Pagination
pub mod Prices
pub mod Datetime
