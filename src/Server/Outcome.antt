-- ===== src/Server/Outcome.antt =====
-- What a request of internal/modules/server does: the database behind it, the reply, and the
-- messages that it puts on the channels of the bridge to the bot (internal/modules/channels).
use tam_backend.Prelude.{Text, ℕ, Bool, Option, none, some, List, [], ◌∷◌}
use tam_backend.Common.Errors.{Error}
use tam_backend.Storage.Schema.{Db, Customer}

pub data Reply : Type 0 where
  -- `c.JSON` with a status of success.
  success : ℕ → Reply
  -- `c.JSON` with the status and the text of an error.
  fail : Error → Reply
  -- A nil dereference, which the `Recover` middleware turns into an error.
  panicked : Reply

-- The message of the catalogue that a notification renders.
pub data Template : Type 0 where
  new_incoming_deal deal_accepted post_scheduled time_declined time_proposed : Template
  revision_requested refund deal_completed : Template

pub data Event : Type 0 where
  -- recipient's Telegram id, message, deal
  notification : ℕ → Template → ℕ → Event
  -- deal, user
  post show_deal : ℕ → ℕ → Event
  -- deal, sender, recipient
  dialog : ℕ → ℕ → ℕ → Event
  auto_post : ℕ → Event

pub record Outcome : Type 0 where
  pub db : Db
  pub reply : Reply
  pub events : List Event

-- What a request finds outside the database: two readings of the clock, tomorrow's date, and the
-- standard library's reader of RFC 3339 times.
pub record Env : Type 0 where
  pub now : ℕ
  pub later : ℕ
  pub tomorrow : ℕ
  pub parse_rfc3339 : Text → Option ℕ

-- Whether the database serves the n-th statement of a request.
abbrev pub Answers : Type 0
Answers = ℕ → Bool

abbrev pub refuse : Error → Db → Outcome
refuse e db = record { db = db; reply = fail e; events = [] }

abbrev pub reply_with : ℕ → List Event → Db → Outcome
reply_with status events db = record { db = db; reply = success status; events = events }

-- A notification to a customer, if the edge was loaded.
abbrev pub notify : Template → ℕ → Option Customer → List Event
notify template deal none = []
notify template deal (some c) = notification c.tg_id template deal ∷ []
