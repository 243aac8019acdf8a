-- ===== src/Server/Channels.antt =====
-- internal/modules/server/channel_handlers.go, with parseChannelUsername of server.go and
-- RequireChannelAccess of middleware.go. The n-th statement of a request is served if `up n`. The
-- reply's body is not modelled, except for what is stated here.
pub mod Adding
pub mod Creation
pub mod Again
use tam_backend.Prelude.{
  ◌==◌, if◌then◌else◌, ℤ, pos, negated, lookup, Text, codes, trim_at, ℕ, ◌+◌, ◌/◌, Bool, true,
  false, not, Option, none, some, [], ◌∷◌,
}
use tam_backend.Common.Errors.{
  unauthorized, invalid_request, channel_exists, internal_error, not_found, ok, err, Result,
}
use tam_backend.Common.Datetime.{trim_space}
use tam_backend.Storage.Schema.{
  ChannelStatus, unactivated, awaiting_data, Channel, Role, admin, owner, CustomerChannel, Db,
}
use tam_backend.Storage.Channels.{
  get_channel_by_tg_id, create_channel, update_channel, get_customer_channel, add_customer_channel,
  update_customer_channel_role, delete_channel,
}
use tam_backend.StatsBot.Validation.{admin, UserRole, creator_role, administrator_role, Bots}
use tam_backend.StatsBot.Channel.{TgClient, AddChannelResponse, get_channel_stats}
use tam_backend.Server.Outcome.{Outcome, Answers, refuse, reply_with}

-- A prefix that a text has, taken off.
unfoldable pub cut_prefix : Text → Text → Option Text
cut_prefix [] s = some s
cut_prefix (p ∷ ps) [] = none
cut_prefix (p ∷ ps) (c ∷ s) = let rest = cut_prefix ps s in if p == c then rest else none

-- What follows the first occurrence of `sep`, `none` if there is none.
unfoldable pub after_first : Text → Text → Option Text
after_first sep [] = cut_prefix sep []
after_first sep (c ∷ s) =
    let rest = after_first sep s in elim (cut_prefix sep (c ∷ s)) [ some t ↦ some t | none ↦ rest ]

-- What stands before the first occurrence of `sep`.
unfoldable pub before_first : Text → Text → Text
before_first sep [] = []
before_first sep (c ∷ s) =
    let rest = before_first sep s in elim (cut_prefix sep (c ∷ s)) [ some t ↦ [] | none ↦ c ∷ rest ]

abbrev pub t_me : Text
t_me = codes "t.me/"

-- `parseChannelUsername`. The part between the first and the second "t.me/" is taken up to a "/".
unfoldable pub parse_channel_username : Text → Text
parse_channel_username input = elim (after_first t_me (trim_space input)) [
  | some t ↦ trim_at (before_first (codes "/") (before_first t_me t))
  | none ↦ trim_at (trim_space input)
]

-- The Telegram id of a new row: `-(1000000000000 + statsResp.TgID)`.
abbrev pub channel_tg_id : ℕ → ℤ
channel_tg_id id = negated (1000000000000 + id)

abbrev pub status_of : AddChannelResponse → ChannelStatus
status_of resp = if resp.stats_available then awaiting_data else unactivated

abbrev pub role_of : UserRole → Role
role_of creator_role = owner
role_of administrator_role = admin

abbrev pub is_unactivated : ChannelStatus → Bool
is_unactivated unactivated = true
is_unactivated _ = false

abbrev pub same_role : Role → Role → Bool
same_role admin admin = true
same_role owner owner = true
same_role _ _ = false

-- The row that `AddChannel` writes.
abbrev pub new_channel : AddChannelResponse → Channel
new_channel resp = record {
  tg_id = channel_tg_id resp.tg_id;
  tg_username = resp.tg_username;
  status = status_of resp;
  commentary = [];
  is_listed = false;
  tags = [];
  prices = [];
  main_language = [];
}

-- The updater for a channel without statistics.
abbrev pub refresh : AddChannelResponse → Channel → Channel
refresh resp c = record c { tg_username = resp.tg_username; status = status_of resp }

-- The link's role, whose failure is only logged.
unfoldable pub after_refresh : Answers → ℕ → ℕ → CustomerChannel → AddChannelResponse → Db → Outcome
after_refresh up u id link resp db =
    if same_role link.role (role_of resp.role)
    then reply_with 200 [] db
    else elim (update_customer_channel_role (up 4) (up 5) u id (role_of resp.role) db) [
      | err _ ↦ reply_with 200 [] db
      | ok db' ↦ reply_with 200 [] db'
    ]

-- The branch `existingChannel != nil`, after its `GetCustomerChannel`.
unfoldable pub existing_channel :
    Answers → ℕ → ℕ → Channel → AddChannelResponse → Db → Result CustomerChannel → Outcome
existing_channel up u id c resp db (err not_found) = refuse channel_exists db
existing_channel up u id c resp db (err _) = refuse internal_error db
existing_channel up u id c resp db (ok link) =
    if is_unactivated c.status
    then elim (update_channel (up 3) id (refresh resp) db) [
      | err _ ↦ refuse internal_error db
      | ok db' ↦ after_refresh up u id link resp db'
    ]
    else refuse channel_exists db

-- `_ = s.channels.DeleteChannel(…)` after a link that was not written.
unfoldable pub undo_channel : Answers → ℕ → Db → Outcome
undo_channel up id db = elim (delete_channel (up 4) id db) [
  | err _ ↦ refuse internal_error db
  | ok db' ↦ refuse internal_error db'
]

-- The new row and its link; `id` is the key that the database generates.
unfoldable pub add_new_channel : Answers → ℕ → ℕ → AddChannelResponse → Db → Outcome
add_new_channel up u id resp db = elim (create_channel (up 2) id (new_channel resp) db) [
  | err _ ↦ refuse internal_error db
  | ok db' ↦ elim (add_customer_channel (up 3) u id (role_of resp.role) db') [
    | err _ ↦ undo_channel up id db'
    | ok db'' ↦ reply_with 201 [] db''
  ]
]

-- What follows `GetChannelByTgID`.
unfoldable pub with_existing :
    Answers → ℕ → ℕ → AddChannelResponse → Db → Result (ℕ × Channel) → Outcome
with_existing up u id resp db (ok (existing, c)) =
    existing_channel up u existing c resp db (get_customer_channel (up 2) u existing db)
with_existing up u id resp db (err not_found) = add_new_channel up u id resp db
with_existing up u id resp db (err _) = refuse internal_error db

unfoldable pub with_stats : Answers → ℕ → ℕ → AddChannelResponse → Db → Outcome
with_stats up u id resp db =
    with_existing up u id resp db (get_channel_by_tg_id (up 1) (pos resp.tg_id) db)

-- `AddChannel` for the authenticated user `u`; `body` is what `c.Bind` reads, `id` the next key.
unfoldable pub add_channel : Bots → TgClient → Answers → ℕ → ℕ → Option Text → Db → Outcome
add_channel cfg tg up id u body db =
    if not (up 0) then refuse unauthorized db else elim (lookup u db.customers) [
      | none ↦ refuse unauthorized db
      | some c ↦ elim body [
        | none ↦ refuse invalid_request db
        | some name ↦ elim (get_channel_stats cfg tg (parse_channel_username name) c.tg_id) [
          | err e ↦ refuse e db
          | ok resp ↦ with_stats up u id resp db
        ]
      ]
    ]
