-- ===== src/Bot/Drafting.antt =====
-- The drafting of a post with the bot: `handlePost` of internal/modules/telegram_bot/async.go,
-- `onMedia` of main_handlers.go, and handlePostContent, showPost and acceptPost of
-- post_handlers.go. What Telegram makes of a content is the parameter `post`; deleted previews,
-- menus and rendered texts are not modelled. The n-th statement of a handler is served if `up n`.
pub mod Accepting
pub mod Albums
use tam_backend.Prelude.{
  if◌then◌else◌, Text, text_eq, is_empty, ℕ, Bool, true, false, not, Option, none, some, [], ◌∷◌,
  ◌++◌,
}
use tam_backend.Common.Errors.{Result, ok, err}
use tam_backend.Storage.Schema.{MediaItem, MsgData, Target, empty_target, Deal, Db}
use tam_backend.Storage.Deals.{DealsUpdated, update_deal}
use tam_backend.Storage.Views.{DealView, get_deal}
use tam_backend.Storage.Profiles.{get_customer}
use tam_backend.Bot.States.{
  BotStateKind, awaiting_post_content, Draft, empty_draft, StateData, no_data, draft_data, BotState,
  States, set_state, get_state, clear_state, draft_of,
}
use tam_backend.Bot.Publishing.{Post, send_content}

abbrev pub drafting : ℕ → StateData → BotState
drafting deal d = record { state = awaiting_post_content; deal_id = deal; state_data = d }

-- `handlePost` for a deal and a customer.
unfoldable pub handle_post : (ℕ → Bool) → ℕ → ℕ → Db → States → States
handle_post up deal user db states = elim (get_customer (up 0) user db) [
  | err _ ↦ states
  | ok c ↦ elim (get_deal (up 1) deal db) [
    | err _ ↦ states
    | ok _ ↦ (set_state (up 2) (up 3) c.tg_id (drafting deal (draft_data empty_draft)) states).1
  ]
]

-- The post data of a draft.
abbrev pub msg_of : Draft → MsgData
msg_of d = record { message_text = d.text; message_images = d.images }

-- `showPost`: a blank draft is not sent, and the ids of the sent messages become the previews. A
-- failed write is dropped.
unfoldable pub show_post : Post → (ℕ → Bool) → ℕ → BotState → States → States
show_post post up user s states =
    let d = draft_of s.state_data in
    elim (send_content post (msg_of d)) [
      | none ↦ states
      | some ids ↦
          (set_state (up 2) (up 3) user
            (drafting s.deal_id (draft_data (record d { preview_ids = ids }))) states).1
    ]

-- `handlePostContent` for a text.
unfoldable pub handle_post_content : Post → (ℕ → Bool) → ℕ → BotState → Text → States → States
handle_post_content post up user s text states =
    let s' = drafting s.deal_id (draft_data (record empty_draft { text = text })) in
    let (r, states') = set_state (up 0) (up 1) user s' states in
    elim r [ err _ ↦ states' | ok t ↦ show_post post up user t states' ]

-- A photo or a video that a user sends; `album` is empty if it belongs to none.
pub record Media : Type 0 where
  pub media_item : MediaItem
  pub album : Text
  pub caption : Text

-- The pictures of a draft after another one, with the text that a new album clears.
unfoldable pub add_item : Media → Draft → Draft
add_item m d =
    if is_empty m.album
    then record d { album_id = []; images = m.media_item ∷ [] }
    else if text_eq d.album_id m.album
    then record d { images = d.images ++ (m.media_item ∷ []) }
    else record d { album_id = m.album; images = m.media_item ∷ []; text = [] }

-- A caption replaces the text.
unfoldable pub add_media : Media → Draft → Draft
unfolding add_item
add_media m d =
    if is_empty m.caption then add_item m d else record (add_item m d) { text = m.caption }

abbrev pub awaits_post : BotStateKind → Bool
awaits_post awaiting_post_content = true
awaits_post _ = false

-- What `onMedia` does with the state that it finds: the picture of an album waits for the timer, any
-- other is shown at once.
unfoldable pub with_media : Post → (ℕ → Bool) → ℕ → Media → States → Option BotState → States
with_media post up user m states none = states
with_media post up user m states (some s) =
    if not (awaits_post s.state)
    then states
    else let s' = drafting s.deal_id (draft_data (add_media m (draft_of s.state_data))) in
      let (r, states') = set_state (up 0) (up 1) user s' states in
      elim r [
        | err _ ↦ states'
        | ok t ↦ if is_empty m.album then show_post post up user t states' else states'
      ]

-- `onMedia`; the user's mutex makes the whole of it one step.
unfoldable pub on_media : Post → Bool → (ℕ → Bool) → ℕ → Media → States → States
on_media post read_up up user m states = elim (get_state read_up user states) [
  | err _ ↦ states
  | ok s ↦ with_media post up user m states s
]

-- The timer of an album, one second after its last picture.
unfoldable pub album_timer : Post → Bool → (ℕ → Bool) → ℕ → States → States
album_timer post read_up up user states = elim (get_state read_up user states) [
  | err _ ↦ states
  | ok none ↦ states
  | ok (some s) ↦ show_post post up user s states
]

abbrev pub has_data : StateData → Bool
has_data no_data = false
has_data _ = true

-- The target that `acceptPost` saves: the brief of the old one is kept if the old one can be read,
-- the preferred window is not.
unfoldable pub accepted_target : MsgData → Option Target → Target
accepted_target m none = record empty_target { post_data = m }
accepted_target m (some t) =
    if t.well_formed
    then record empty_target { post_data = m; brief_data = t.brief_data }
    else record empty_target { post_data = m }

-- The deal's row when `acceptPost` reads it; a failed read counts as no target.
abbrev pub old_target : Result DealView → Option Target
old_target (err e) = none
old_target (ok v) = v.deal.target

abbrev pub set_target : Target → Deal → Deal
set_target t d = record d { target = some t }

-- The states and the deals that the bot works on.
pub record Desk : Type 0 where
  pub desk_states : States
  pub desk_db : Db

abbrev pub after_save : (ℕ → Bool) → ℕ → States → Db → DealsUpdated → Desk
after_save up user states db (some e, ds) = record { desk_states = states; desk_db = db }
after_save up user states db (none, ds) = record {
  desk_states = (clear_state (up 2) user states).1;
  desk_db = record db { deals = ds };
}

-- What `acceptPost` does with the state that it finds.
unfoldable pub with_accepted : Post → (ℕ → Bool) → ℕ → Option BotState → Desk → Desk
with_accepted post up user none desk = desk
with_accepted post up user (some s) desk =
    let m = msg_of (draft_of s.state_data) in
    let t = accepted_target m (old_target (get_deal (up 0) s.deal_id desk.desk_db)) in
    if not (has_data s.state_data) then desk else elim (send_content post m) [
      | none ↦ desk
      | some ids ↦
          after_save up user desk.desk_states desk.desk_db
            (update_deal (up 1) s.deal_id (set_target t) desk.desk_db.deals)
    ]

-- `acceptPost`.
unfoldable pub accept_post : Post → Bool → (ℕ → Bool) → ℕ → Desk → Desk
accept_post post read_up up user desk = elim (get_state read_up user desk.desk_states) [
  | err _ ↦ desk
  | ok s ↦ with_accepted post up user s desk
]
