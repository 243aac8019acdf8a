-- ===== src/System/Treasury/Covering.antt =====
-- What leaves the wallet is covered by what came in.
use tam_backend.Prelude.{
  if◌then◌else◌, Bool-cases, any, ℤ, pos, ◌+ℤ◌, ◌≤ℤ◌, leb_ℤ, int_laws, sum_rows, ℕ, ◌≡◌, refl, ap,
  inl, inr, Bool, true, Option, none, some, List, [], ◌∷◌,
}
use tam_backend.Storage.Schema.{Transaction, Db}
use tam_backend.Storage.Customers.Money.{total}
use tam_backend.Storage.Profiles.Keeping
use tam_backend.Server.Outcome.{Outcome, Answers}
use tam_backend.Server.Channels.{add_channel}
use tam_backend.Server.ChannelData.{serve_channel}
use tam_backend.Server.Withdraw.{min_withdraw_ton, WithdrawRequest, SendTon, withdraw}
use tam_backend.Server.Withdraw.Accounts.{
  Settled, untouched, paid, given_back, lost, withdraw-Settled,
}
use tam_backend.Bot.Commands.{test_add, pub_now}
use tam_backend.Ton.Deposits.{
  Transactions, TransactionParams, has_hash, transaction_of, save_transaction,
}
use tam_backend.Ton.Deposits.Ledger.{due, worth, run_deposit_processor_cycle-worth}
use tam_backend.System.{Action, step, run}
use tam_backend.System.Accounts.{account_step, account_step-keeps}
use tam_backend.System.Conservation.{run-total}
use tam_backend.System.Treasury.Commands.{
  top_up-total, test_add-customers, pub_now-customers, chat-customers,
}
use tam_backend.Bot.Dialogs.{chat}
use tam_backend.System.Listings.{serve_channel-customers, add_channel-customers}
use tam_backend.System.Treasury.{
  Backend, Move, act, account, channel_request, channel_added, withdrawal, chatting, topping,
  adding, publishing, deposit_seen, deposit_round, vault_of, with_db, desk_of, move, moves, sent_by,
  paid_out, brought, all_paid, all_brought, Sound, AllSound,
}

-- The customers' money with the deposits that are still to be credited.
abbrev pub assets : Backend → ℤ
assets b = worth (vault_of b)

settled-total :
    (send_ton : SendTon) (up : Answers) (user : ℕ) (req : WithdrawRequest) (db : Db) (o : Outcome)
    → leb_ℤ min_withdraw_ton req.amount ≡ true
    → Settled send_ton up user req db o
    → total o.db.customers +ℤ sent_by o.reply (some req) ≤ℤ total db.customers
settled-total send_ton up user req db o low (untouched e p) = rw p (omega int_laws)
settled-total send_ton up user req db o low (paid c l covered sent reply t) =
    rw reply (grind (int_laws, t))
settled-total send_ton up user req db o low (given_back reply u t) = rw reply (grind (int_laws, t))
settled-total send_ton up user req db o low (lost reply u t) = rw reply (grind (int_laws, t, low))

withdraw-total :
    (send_ton : SendTon) (up : Answers) (user : Option ℕ) (body : Option WithdrawRequest) (db : Db)
    → total (withdraw send_ton up user body db).db.customers
        +ℤ sent_by (withdraw send_ton up user body db).reply body
      ≤ℤ total db.customers
unfolding withdraw
withdraw-total send_ton up none body db = omega int_laws
withdraw-total send_ton up (some user) none db = omega int_laws
withdraw-total send_ton up (some user) (some req) db =
    elim (withdraw-Settled send_ton up user req db) [
      | inl (e, p) ↦ rw p (omega int_laws)
      | inr (low, high, settled) ↦
          settled-total send_ton up user req db (withdraw send_ton up (some user) (some req) db) low
            settled
    ]

more-due : (ts : Transactions) (t : Transaction) → sum_rows due ts ≤ℤ sum_rows due ts +ℤ due t
more-due ts t = grind int_laws

save-due :
    (up : ℕ → Bool) (id : ℕ) (p : TransactionParams) (ts : Transactions)
    → sum_rows due (save_transaction up id p ts).1
      ≤ℤ sum_rows due ts +ℤ (if any (has_hash p.tx_hash) ts then pos 0 else due (transaction_of p))
unfolding save_transaction
save-due up id p ts = elim (Bool-cases (any (has_hash p.tx_hash) ts)) [
  | inl h ↦ elim (Bool-cases (up 0)) [
    | inl a ↦ rw (a, h) (omega int_laws)
    | inr a ↦ rw (a, h) (omega int_laws)
  ]
  | inr h ↦ elim (Bool-cases (up 0)) [
    | inr a ↦ rw (a, h) (more-due ts (transaction_of p))
    | inl a ↦ elim (Bool-cases (up 1)) [
      | inr b ↦ rw (a, h, b) (more-due ts (transaction_of p))
      | inl b ↦ rw (a, h, b) (grind int_laws)
    ]
  ]
]

-- A step that keeps the customers' money and the deposits keeps the assets.
same_money :
    (b : Backend) (db : Db)
    → total db.customers ≡ total b.db.customers
    → assets (with_db b db) +ℤ pos 0 ≤ℤ assets b +ℤ pos 0
same_money b db h = grind (int_laws, h)

step-total : (a : Action) (db : Db) → total (step a db).customers ≡ total db.customers
unfolding run
step-total a db = run-total (a ∷ []) db

move-assets :
    (m : Move) (b : Backend)
    → Sound m b
    → assets (move m b) +ℤ paid_out m b ≤ℤ assets b +ℤ brought m b
unfolding move paid_out brought
move-assets (act a) b sound = same_money b (step a b.db) (step-total a b.db)
move-assets (account env s) b sound = same_money b (account_step env s b.db) (
    account_step-keeps (λ db. total db.customers ≡ total b.db.customers)
      (Keeping.total-Kept (total b.db.customers)) env s b.db sound refl)
move-assets (channel_request validate_jwt cat up header route) b sound =
    same_money b (serve_channel validate_jwt cat up header route b.db).db
      (ap total (serve_channel-customers validate_jwt cat up header route b.db))
move-assets (channel_added cfg tg up id u body) b sound =
    same_money b (add_channel cfg tg up id u body b.db).db
      (ap total (add_channel-customers cfg tg up id u body b.db))
move-assets (withdrawal send_ton up user body) b sound =
    grind (int_laws, withdraw-total send_ton up user body b.db)
move-assets (chatting publish deliver read_up up user c) b sound =
    same_money b (chat publish deliver read_up up user c (desk_of b)).desk_db
      (ap total (chat-customers publish deliver read_up up user c (desk_of b)))
move-assets (topping up user) b sound = grind (int_laws, top_up-total up user b.db)
move-assets (adding up id user) b sound =
    same_money b (test_add up id user b.db) (ap total (test_add-customers up id user b.db))
move-assets (publishing parse up room now text) b sound =
    same_money b (pub_now parse up room now text b.db).0
      (ap total (pub_now-customers parse up room now text b.db))
move-assets (deposit_seen up id p) b sound = grind (int_laws, save-due up id p b.deposits)
move-assets (deposit_round fetch_up s) b sound =
    grind (int_laws, run_deposit_processor_cycle-worth fetch_up s (vault_of b))

-- Whatever requests, logins, commands, chats with the bot, withdrawals, rounds of jobs, events of
-- the bot and deposits run, in any order and with any failures of the database, the wallet and
-- Telegram: what the successful withdrawals have sent, together with the customers' money and the
-- deposits still to be credited, is not more than the money and the deposits of the beginning with
-- what has come in, where a deposit counts once for its hash and each command /top counts as its
-- gift.
pub moves_covered :
    (ms : List Move) (b : Backend)
    → AllSound ms b
    → assets (moves ms b) +ℤ all_paid ms b ≤ℤ assets b +ℤ all_brought ms b
moves_covered [] b sound = omega int_laws
moves_covered (m ∷ ms) b sound =
    grind (int_laws, move-assets m b sound.0, moves_covered ms (move m b) sound.1)
