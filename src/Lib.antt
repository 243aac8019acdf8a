-- ===== src/Lib.antt =====
-- TAM-backend is the backend of a market for posts in Telegram channels: advertisers make deals
-- with the managers of channels, the price of a deal is held in escrow, a bot publishes the post
-- and watches it, and a processor credits deposits of TON to the customers. These files model the
-- parts that move deals and money.
--
-- The parts of the program, and the files that model them:
--   - Common: the domain types of internal/common. DealStatus and TargetType stand for
--     constants/deal_status, deal_durations.go and constants/deal_target_type, Errors for
--     errors.go, Pagination for pagination.go, Prices for channel_prices.go and
--     channel_prices_validation.go, Datetime for the validations of deal_target.go.
--   - Storage: internal/modules/storage over the rows of internal/database/ent/schema. Schema has
--     the rows and the database as a record of tables, Customers the balance operations of
--     customers.go, Deals the updates and queries of deals.go, Views the reads with loaded edges,
--     Channels the writes of channels.go and the links between customers and channels, Profiles the
--     creation and the update of customers, with Distinct for what is unique among them.
--   - Server: internal/modules/server. Outcome is what a request leaves behind, DealHandlers,
--     TimeHandlers and Offer are the handlers of deal_handlers.go, Access is middleware.go in front
--     of the routes of server.go, Jobs the jobs of deal_publisher.go and balance_cron.go, Withdraw
--     the withdrawal of balance_handlers.go, Lists the paginated lists of deals and channels.
--     Channels is AddChannel of channel_handlers.go, ChannelData its other handlers behind
--     RequireChannelAccess, Auth is auth_handlers.go and UpdateMe of customer_handlers.go,
--     Briefs the routes of briefs.
--   - StatsBot: internal/modules/stats_bot. Median is util.go, Validation channel_validation.go,
--     Posts channel_posts.go, Languages its graph of languages, Channel channel_stats.go and
--     channel_info.go; AddChannel calls it.
--   - Bot: internal/modules/telegram_bot. Publishing is handleAutoPost of async.go and sendContent,
--     Monitoring channel_monitoring.go and post_monitoring.go, Escape util/escape.go, Render its
--     RenderMarkdownV2, with Showing for the reader of the result. States is storage/dialogs.go, the table of the users' states, on which
--     Drafting (onMedia, handlePostContent, showPost, acceptPost) and Dialogs (onText,
--     dialog_handlers.go, admin_handlers.go) work. Start is onStart, Commands the commands /top,
--     /add and /pub of telegram.go.
--   - Ton: Deposits is storage/indexer.go with ton/deposit_processor.go, Indexer the walk of
--     ton/indexer.go over the blocks, Daemon its loop with the address book and the saved block, as
--     steps beside the processor's.
--   - Workflow: the diagram of the deal statuses that the requests follow.
--   - System: the requests on deals, the jobs and the bot events as steps on one database, in any
--     order. Accounts has the writes to the customers' identities as steps. Treasury has all of
--     these, the requests on channels, withdrawals, the bot's chat and commands and the deposits as
--     steps on the database with the bot's states and the deposits.
--   - Tests: a small database and runs on it.
-- Definitions keep the names of the Go functions in snake case; a comment names the function where
-- the names differ. The handlers put messages for the bot into the list of events that stands for
-- the Go channels of internal/modules/channels; the bot's functions take them from there by their
-- arguments.
--
-- How the state is modelled:
--   - a table is a list of rows beside their primary keys, and an update by key changes the first
--     row with the key; a UUID is a number, with 0 for uuid.Nil; a time is a number of seconds;
--   - TON amounts are signed integers in nanoton: the rounding of float64 is not modelled;
--   - whether the database serves a statement is a Boolean for each statement, so that every
--     theorem over all answers covers every pattern of failures; a database transaction either
--     commits or leaves the tables alone;
--   - the constraints that refuse a statement, and what a deletion takes with it, are those of
--     internal/database/migrations/postgres;
--   - a request works with the deal that its middleware has read, which a handler gets as an
--     argument of its own and which may be older than the database; the steps of System run one
--     request after the other;
--   - what is not source is a parameter: the reader of tokens, the reader of RFC 3339 times, the
--     wallet, the Telegram clients, the reader of init data, the fetched page of a channel, the
--     client of the chain;
--   - a rendered notification is its recipient, its template and its deal; a nil dereference is the
--     reply `panicked`.
-- The bounds: a post's number is printed with 20 digits, which every 64-bit number fits; the walk
-- over the batches of a shard has fuel, a number of calls of the client, and a walk that has used it
-- up is still running, which counts as not read.
--
-- Not modelled: the tickers, the uploads, the menus of the bot, the boosts and
-- the copied broadcast values of the statistics bot and the login of its account, the generated ent
-- client, configuration and logging. SendDealBrief and the plain reads of the storage change no
-- state; ReviseDealData is modelled but belongs to no route.
pub mod Prelude
pub mod Common
pub mod Storage
pub mod Server
pub mod Bot
pub mod Ton
pub mod Workflow
pub mod StatsBot
pub mod System
pub mod Tests
