-- ===== src/Bot/States.antt =====
-- internal/modules/storage/dialogs.go: the state of each user of the bot. A row's user is its key.
use tam_backend.Prelude.{
  ◌==◌, if◌then◌else◌, ==_refl, Table, lookup, Text, ℕ, ◌≡◌, refl, Bool, not, Option, none, some,
  List, [], ◌∷◌, arith,
}
use tam_backend.Storage.Schema.{MediaItem}
use tam_backend.Common.Errors.{Error, internal_error, Result, ok, err}

-- internal/common/constants/bot_state.
pub data BotStateKind : Type 0 where
  idle awaiting_dialog_message awaiting_post_content admin_mode : BotStateKind

-- The fields of `common.TgMsgData` that the drafting of a post works on; `Entities` and
-- `CaptionAbove`, which only shape the display, are left out.
pub record Draft : Type 0 where
  pub text : Text
  pub images : List MediaItem
  pub album_id : Text
  pub preview_ids : List ℕ

abbrev pub empty_draft : Draft
empty_draft = record { text = []; images = []; album_id = []; preview_ids = [] }

-- The map of a state: nil, a draft (the empty map is the empty draft), or the two Telegram ids of a
-- dialog.
pub data StateData : Type 0 where
  no_data : StateData
  draft_data : Draft → StateData
  dialog_data : ℕ → ℕ → StateData

-- A row of bot_states beside its user.
pub record BotState : Type 0 where
  pub state : BotStateKind
  pub deal_id : ℕ
  pub state_data : StateData

abbrev pub States : Type 0
States = Table BotState

-- The upsert by `user_id`.
unfoldable pub upsert : ℕ → BotState → States → States
upsert user s [] = (user, s) ∷ []
upsert user s ((u, t) ∷ rows) =
    let rest = upsert user s rows in if user == u then (u, s) ∷ rows else (u, t) ∷ rest

-- `SetState`, an upsert and a query; a failed query leaves the new state.
unfoldable pub set_state : Bool → Bool → ℕ → BotState → States → Result BotState × States
set_state write_up read_up user s states =
    if not write_up
    then (err internal_error, states)
    else if read_up
    then (ok s, upsert user s states)
    else (err internal_error, upsert user s states)

-- `GetState`: nil if there is none.
unfoldable pub get_state : Bool → ℕ → States → Result (Option BotState)
get_state up user states = if up then ok (lookup user states) else err internal_error

unfoldable pub without_user : ℕ → States → States
without_user user [] = []
without_user user ((u, t) ∷ rows) =
    let rest = without_user user rows in if user == u then rest else (u, t) ∷ rest

-- `ClearState`.
unfoldable pub clear_state : Bool → ℕ → States → Option Error × States
clear_state up user states =
    if up then (none, without_user user states) else (some internal_error, states)

-- The draft that `TgMsgDataFromMap` reads.
abbrev pub draft_of : StateData → Draft
draft_of no_data = empty_draft
draft_of (draft_data d) = d
draft_of (dialog_data s r) = empty_draft

pub lookup-upsert_self :
    (user : ℕ) (s : BotState) (t : States) → lookup user (upsert user s t) ≡ some s
unfolding upsert
lookup-upsert_self user s [] = rw (==_refl user) refl
lookup-upsert_self user s ((u, x) ∷ t) = ground (arith, lookup-upsert_self user s t)
