-- ===== src/StatsBot.antt =====
-- internal/modules/stats_bot: the client that reads a channel's data with a Telegram account of its
-- own. The account (gotd/td) is not code of the repository: what its calls answer is a parameter.
pub mod Median
pub mod Validation
pub mod Posts
pub mod Languages
pub mod Channel
