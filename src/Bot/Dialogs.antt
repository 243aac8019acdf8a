-- ===== src/Bot/Dialogs.antt =====
-- The dialogs of the bot of internal/modules/telegram_bot: `handleDialog` and `handleAdmin` of
-- async.go, `onText` of main_handlers.go, dialog_handlers.go and admin_handlers.go. A text that is
-- sent is its recipient, its content and the pair of the reply button; rendered texts are not
-- modelled. `deliver` says whether Telegram takes a message for a user.
pub mod Isolation
use tam_backend.Prelude.{
  ◌==◌, if◌then◌else◌, Text, codes, ℕ, Bool, not, ◌&&◌, Option, none, some, List, [], ◌∷◌,
}
use tam_backend.Common.Errors.{ok, err}
use tam_backend.Storage.Schema.{Db}
use tam_backend.Storage.Profiles.{get_customer}
use tam_backend.Bot.States.{
  BotStateKind, idle, awaiting_dialog_message, awaiting_post_content, admin_mode, empty_draft,
  StateData, no_data, draft_data, dialog_data, BotState, States, set_state, get_state, clear_state,
}
use tam_backend.Bot.Publishing.{Post}
use tam_backend.Bot.Drafting.{
  drafting, handle_post_content, Media, awaits_post, on_media, album_timer, Desk, accept_post,
}

-- What a handler sends: a message of the dialog, with the sender and the deal behind its reply
-- button, or the code of an admin for the bridge.
pub data Sent : Type 0 where
  -- recipient, text, sender, deal
  message : ℕ → Text → ℕ → ℕ → Sent
  code_message : Text → Sent

abbrev pub BotOutcome : Type 0
BotOutcome = States × List Sent

abbrev pub in_dialog : ℕ → ℕ → ℕ → BotState
in_dialog deal sender recipient = record {
  state = awaiting_dialog_message;
  deal_id = deal;
  state_data = dialog_data sender recipient;
}

-- `handleDialog`, for a sender and a recipient who are customers.
unfoldable pub handle_dialog : (ℕ → Bool) → ℕ → ℕ → ℕ → Db → States → States
handle_dialog up deal sender recipient db states = elim (get_customer (up 0) sender db) [
  | err _ ↦ states
  | ok s ↦ elim (get_customer (up 1) recipient db) [
    | err _ ↦ states
    | ok r ↦ (set_state (up 2) (up 3) s.tg_id (in_dialog deal s.tg_id r.tg_id) states).1
  ]
]

-- `handleAnswer` on what `strconv.Atoi` and `uuid.Parse` read of the button's data. A failed write
-- is only logged.
unfoldable pub handle_answer : (ℕ → Bool) → ℕ → Option (ℕ × ℕ) → States → States
handle_answer up user none states = states
handle_answer up user (some (recipient, deal)) states =
    (set_state (up 0) (up 1) user (in_dialog deal user recipient) states).1

-- `handleDialogMessage`: the state of the sender is read again, a nil one ends the handler with a
-- nil dereference. Whether the deal can be read changes only the rendering.
unfoldable pub send_dialog :
    (ℕ → Bool) → (ℕ → Bool) → ℕ → ℕ → Text → States → Option BotState → BotOutcome
send_dialog deliver up sender recipient text states none = (states, [])
send_dialog deliver up sender recipient text states (some s) =
    if deliver recipient
    then ((clear_state (up 1) sender states).1, message recipient text sender s.deal_id ∷ [])
    else (states, [])

unfoldable pub handle_dialog_message :
    (ℕ → Bool) → (ℕ → Bool) → Text → StateData → States → BotOutcome
handle_dialog_message deliver up text no_data states = (states, [])
handle_dialog_message deliver up text (draft_data d) states = (states, [])
handle_dialog_message deliver up text (dialog_data sender recipient) states =
    elim (get_state (up 0) sender states) [
      | err _ ↦ (states, [])
      | ok s ↦ send_dialog deliver up sender recipient text states s
    ]

-- `handleAdminMode`.
unfoldable pub handle_admin_mode : (ℕ → Bool) → ℕ → Text → States → BotOutcome
handle_admin_mode up user text states = ((clear_state (up 0) user states).1, code_message text ∷ [])

-- Every admin gets a state with a new deal id.
unfoldable pub ask_admins : (ℕ → Bool) → (ℕ → ℕ) → List ℕ → States → States
ask_admins up deal [] states = states
ask_admins up deal (a ∷ admins) states =
    let s : BotState = record {
      state = admin_mode;
      deal_id = deal a;
      state_data = draft_data empty_draft;
    } in
    ask_admins up deal admins (set_state (up a) (up a) a s states).1

-- `handleAdmin`: without an admin, the code is five zeros.
unfoldable pub handle_admin : (ℕ → Bool) → (ℕ → ℕ) → List ℕ → States → BotOutcome
handle_admin up deal [] states = (states, code_message (codes "00000") ∷ [])
handle_admin up deal (a ∷ admins) states = (ask_admins up deal (a ∷ admins) states, [])

-- The routing of `onText` by the state.
unfoldable pub route_text :
    Post → (ℕ → Bool) → (ℕ → Bool) → ℕ → Text → States → BotState → BotStateKind → BotOutcome
route_text post deliver up user text states s awaiting_dialog_message =
    handle_dialog_message deliver up text s.state_data states
route_text post deliver up user text states s awaiting_post_content =
    (handle_post_content post up user s text states, [])
route_text post deliver up user text states s admin_mode = handle_admin_mode up user text states
route_text post deliver up user text states s idle = (states, [])

unfoldable pub with_text :
    Post → (ℕ → Bool) → (ℕ → Bool) → ℕ → Text → States → Option BotState → BotOutcome
with_text post deliver up user text states none = (states, [])
with_text post deliver up user text states (some s) =
    route_text post deliver up user text states s s.state

-- `onText`.
unfoldable pub on_text : Post → (ℕ → Bool) → Bool → (ℕ → Bool) → ℕ → Text → States → BotOutcome
on_text post deliver read_up up user text states = elim (get_state read_up user states) [
  | err _ ↦ (states, [])
  | ok s ↦ with_text post deliver up user text states s
]

-- `handleCancel`: the draft of a deal is emptied, with a nil map, any other state is cleared. A
-- failed read counts as no state.
unfoldable pub cancel_state : (ℕ → Bool) → ℕ → States → Option BotState → States
cancel_state up user states none = (clear_state (up 1) user states).1
cancel_state up user states (some s) =
    if awaits_post s.state && not (s.deal_id == 0)
    then (set_state (up 1) (up 2) user (drafting s.deal_id no_data) states).1
    else (clear_state (up 1) user states).1

-- `handleCancel`, up to its last call: that of `onStart`, which is the step `start` of System.Accounts
-- and leaves the states alone.
unfoldable pub handle_cancel : (ℕ → Bool) → ℕ → States → States
handle_cancel up user states = elim (get_state (up 0) user states) [
  | err _ ↦ cancel_state up user states none
  | ok s ↦ cancel_state up user states s
]

-- What a user does in the chat with the bot, and the timer of an album of the user.
pub data Chatting : Type 0 where
  text_sent : Text → Chatting
  media_sent : Media → Chatting
  answer_pressed : Option (ℕ × ℕ) → Chatting
  cancel_pressed accept_pressed timer_fired : Chatting

abbrev pub with_states : States → Desk → Desk
with_states states desk = record desk { desk_states = states }

-- The handlers that `NewBot` sets, but for the commands; the states and the deals after one event of
-- a user.
unfoldable pub chat : Post → (ℕ → Bool) → Bool → (ℕ → Bool) → ℕ → Chatting → Desk → Desk
chat post deliver read_up up user (text_sent t) desk =
    with_states (on_text post deliver read_up up user t desk.desk_states).0 desk
chat post deliver read_up up user (media_sent m) desk =
    with_states (on_media post read_up up user m desk.desk_states) desk
chat post deliver read_up up user (answer_pressed a) desk =
    with_states (handle_answer up user a desk.desk_states) desk
chat post deliver read_up up user cancel_pressed desk =
    with_states (handle_cancel up user desk.desk_states) desk
chat post deliver read_up up user accept_pressed desk = accept_post post read_up up user desk
chat post deliver read_up up user timer_fired desk =
    with_states (album_timer post read_up up user desk.desk_states) desk
