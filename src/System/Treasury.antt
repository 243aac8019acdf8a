-- ===== src/System/Treasury.antt =====
-- The money of the whole program: the server of internal/modules/server, the bot of
-- internal/modules/telegram_bot and the processor of internal/modules/ton on one database, one event
-- after the other.
pub mod Commands
pub mod Covering
use tam_backend.Prelude.{
  if◌then◌else◌, any, ℤ, pos, ◌+ℤ◌, Text, ℕ, Bool, Option, some, List, [], ◌∷◌,
}
use tam_backend.Storage.Schema.{Db}
use tam_backend.Server.Outcome.{Reply, success, Answers, post}
use tam_backend.Server.Auth.{AuthEnv}
use tam_backend.Server.Channels.{add_channel}
use tam_backend.Server.ChannelData.{Catalogue, ChannelRoute, serve_channel}
use tam_backend.Server.Withdraw.{WithdrawRequest, SendTon, withdraw}
use tam_backend.StatsBot.Validation.{Bots}
use tam_backend.StatsBot.Channel.{TgClient}
use tam_backend.Bot.States.{States}
use tam_backend.Bot.Publishing.{Post}
use tam_backend.Bot.Drafting.{Desk}
use tam_backend.Bot.Dialogs.{Chatting, chat}
use tam_backend.Bot.Commands.{top_up_ton, top_up, test_add, pub_now}
use tam_backend.Ton.Deposits.{
  Transactions, TransactionParams, has_hash, transaction_of, save_transaction, Vault, Supply,
  run_deposit_processor_cycle,
}
use tam_backend.Ton.Deposits.Ledger.{due}
use tam_backend.System.{Action, step}
use tam_backend.System.Accounts.{AccountStep, account_step, IsFresh}

-- The tables of the server, the states of the bot and the deposits.
pub record Backend : Type 0 where
  pub db : Db
  pub states : States
  pub deposits : Transactions

pub data Move : Type 0 where
  act : Action → Move
  account : AuthEnv → AccountStep → Move
  channel_request : (Text → Option ℕ) → Catalogue → Answers → Text → ChannelRoute → Move
  channel_added : Bots → TgClient → Answers → ℕ → ℕ → Option Text → Move
  withdrawal : SendTon → Answers → Option ℕ → Option WithdrawRequest → Move
  chatting : Post → (ℕ → Bool) → Bool → (ℕ → Bool) → ℕ → Chatting → Move
  topping : (ℕ → Bool) → ℕ → Move
  adding : (ℕ → Bool) → ℕ → ℕ → Move
  publishing : (Text → Option ℕ) → (ℕ → Bool) → Bool → ℕ → Text → Move
  deposit_seen : (ℕ → Bool) → ℕ → TransactionParams → Move
  deposit_round : Bool → Supply → Move

abbrev pub vault_of : Backend → Vault
vault_of b = record { customers = b.db.customers; transactions = b.deposits }

abbrev pub after_round : Backend → Vault → Backend
after_round b v = record b {
  db = record b.db { customers = v.customers };
  deposits = v.transactions;
}

abbrev pub with_db : Backend → Db → Backend
with_db b db = record b { db = db }

abbrev pub desk_of : Backend → Desk
desk_of b = record { desk_states = b.states; desk_db = b.db }

abbrev pub with_desk : Backend → Desk → Backend
with_desk b d = record b { db = d.desk_db; states = d.desk_states }

unfoldable pub move : Move → Backend → Backend
move (act a) b = with_db b (step a b.db)
move (account env s) b = with_db b (account_step env s b.db)
move (channel_request validate_jwt cat up header route) b =
    with_db b (serve_channel validate_jwt cat up header route b.db).db
move (channel_added cfg tg up id u body) b = with_db b (add_channel cfg tg up id u body b.db).db
move (withdrawal send_ton up user body) b = with_db b (withdraw send_ton up user body b.db).db
move (chatting publish deliver read_up up user c) b =
    with_desk b (chat publish deliver read_up up user c (desk_of b))
move (topping up user) b = with_db b (top_up up user b.db)
move (adding up id user) b = with_db b (test_add up id user b.db)
move (publishing parse up room now text) b = with_db b (pub_now parse up room now text b.db).0
move (deposit_seen up id p) b = record b { deposits = (save_transaction up id p b.deposits).1 }
move (deposit_round fetch_up s) b =
    after_round b (run_deposit_processor_cycle fetch_up s (vault_of b))

abbrev pub moves : List Move → Backend → Backend
moves [] b = b
moves (m ∷ ms) b = moves ms (move m b)

-- The amount that a withdrawal has sent, by its reply.
abbrev pub sent_by : Reply → Option WithdrawRequest → ℤ
sent_by (success status) (some req) = req.amount
sent_by _ _ = pos 0

-- What a step takes out of the wallet.
unfoldable pub paid_out : Move → Backend → ℤ
paid_out (withdrawal send_ton up user body) b =
    sent_by (withdraw send_ton up user body b.db).reply body
paid_out _ b = pos 0

-- What a step can bring in: a deposit whose hash is new, or a gift of the command /top.
unfoldable pub brought : Move → Backend → ℤ
brought (deposit_seen up id p) b =
    if any (has_hash p.tx_hash) b.deposits then pos 0 else due (transaction_of p)
brought (topping up user) b = top_up_ton
brought _ b = pos 0

abbrev pub all_paid : List Move → Backend → ℤ
all_paid [] b = pos 0
all_paid (m ∷ ms) b = paid_out m b +ℤ all_paid ms (move m b)

abbrev pub all_brought : List Move → Backend → ℤ
all_brought [] b = pos 0
all_brought (m ∷ ms) b = brought m b +ℤ all_brought ms (move m b)

-- The key generated for a new customer is new.
abbrev pub Sound : Move → Backend → Type 0
Sound (account env s) b = IsFresh s b.db
Sound _ b = Unit

abbrev pub AllSound : List Move → Backend → Type 0
AllSound [] b = Unit
AllSound (m ∷ ms) b = Sound m b × AllSound ms (move m b)
