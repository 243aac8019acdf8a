-- ===== src/StatsBot/Validation.antt =====
-- internal/modules/stats_bot/channel_validation.go, with ExtractAdminInfo, ValidateChannelType and
-- ValidateChannelIsPublic of tg_api/channel_api.go. An error that has no value of its own in
-- internal/common/errors.go is `internal_error`, the status that GetHTTPStatus gives it.
pub mod Rights
use tam_backend.Prelude.{
  ◌==◌, if◌then◌else◌, ℤ, pos, ltb_ℤ, Text, is_empty, ℕ, Bool, true, false, not, Option, none, some,
  List, [], ◌∷◌,
}
use tam_backend.Common.Errors.{
  Error, chat_admin_required, user_no_rights, text_bot_not_added, user_bot_not_added,
  text_bot_cannot_post, text_bot_cannot_edit, text_bot_cannot_delete, user_bot_cannot_post,
  user_bot_cannot_edit, user_bot_cannot_delete, channel_not_broadcast, channel_not_public,
  channel_not_enough_members, internal_error, Result, ok, err,
}

pub record AdminRights : Type 0 where
  pub post_messages : Bool
  pub edit_messages : Bool
  pub delete_messages : Bool

-- The participants of a channel, as the Telegram client decodes them.
pub data Participant : Type 0 where
  creator : ℕ → Participant
  admin : ℕ → AdminRights → Participant
  other_participant : Participant

-- `tg_api.AdminInfo`.
pub record AdminInfo : Type 0 where
  pub user_id : ℕ
  pub is_creator : Bool
  pub can_post : Bool
  pub can_edit : Bool
  pub can_delete : Bool

-- `ExtractAdminInfo`.
unfoldable pub extract_admin_info : List Participant → List AdminInfo
extract_admin_info [] = []
extract_admin_info (creator id ∷ ps) =
    record { user_id = id; is_creator = true; can_post = true; can_edit = true; can_delete = true }
    ∷ extract_admin_info ps
extract_admin_info (admin id rights ∷ ps) =
    record {
      user_id = id;
      is_creator = false;
      can_post = rights.post_messages;
      can_edit = rights.edit_messages;
      can_delete = rights.delete_messages;
    }
    ∷ extract_admin_info ps
extract_admin_info (other_participant ∷ ps) = extract_admin_info ps

-- The texts of the role.
pub data UserRole : Type 0 where
  creator_role administrator_role : UserRole

-- The first loop of `validateChannelAccess`: the role of the user, if the user is an admin.
unfoldable pub user_role : ℕ → List AdminInfo → Option UserRole
user_role user [] = none
user_role user (a ∷ admins) =
    if a.user_id == user
    then (if a.is_creator then some creator_role else some administrator_role)
    else user_role user admins

-- What each of the two bots lacks.
pub record BotErrors : Type 0 where
  pub cannot_post : Error
  pub cannot_edit : Error
  pub cannot_delete : Error
  pub not_added : Error

abbrev pub text_bot : BotErrors
text_bot = record {
  cannot_post = text_bot_cannot_post;
  cannot_edit = text_bot_cannot_edit;
  cannot_delete = text_bot_cannot_delete;
  not_added = text_bot_not_added;
}

abbrev pub user_bot : BotErrors
user_bot = record {
  cannot_post = user_bot_cannot_post;
  cannot_edit = user_bot_cannot_edit;
  cannot_delete = user_bot_cannot_delete;
  not_added = user_bot_not_added;
}

-- The loop that looks for a bot among the admins, and its three tests; `none` if the bot may post,
-- edit and delete.
unfoldable pub check_bot : BotErrors → ℕ → List AdminInfo → Option Error
check_bot e bot [] = some e.not_added
check_bot e bot (a ∷ admins) =
    let rest = check_bot e bot admins in
    if a.user_id == bot
    then (if not a.can_post
        then some e.cannot_post
        else if not a.can_edit
        then some e.cannot_edit
        else if not a.can_delete
        then some e.cannot_delete
        else none)
    else rest

-- A bot whose id is not configured is not looked for.
unfoldable pub check_configured : BotErrors → ℕ → List AdminInfo → Option Error
check_configured e bot admins = if bot == 0 then none else check_bot e bot admins

-- The ids of `cfg.Bot` and `cfg.UserBot`.
pub record Bots : Type 0 where
  pub bot_id : ℕ
  pub user_bot_id : ℕ

unfoldable pub check_bots : Bots → List AdminInfo → UserRole → Result UserRole
check_bots cfg admins role = elim (check_configured text_bot cfg.bot_id admins) [
  | some e ↦ err e
  | none ↦ elim (check_configured user_bot cfg.user_bot_id admins) [
    | some e ↦ err e
    | none ↦ ok role
  ]
]

-- `validateChannelAccess`, on what GetChannelAdmins answers.
unfoldable pub validate_channel_access : Bots → ℕ → Option (List Participant) → Result UserRole
validate_channel_access cfg user none = err chat_admin_required
validate_channel_access cfg user (some participants) =
    let admins = extract_admin_info participants in
    elim (user_role user admins) [
      | none ↦ err user_no_rights
      | some role ↦ check_bots cfg admins role
    ]

-- The fields of `tg.Channel` that are read.
pub record TgChannel : Type 0 where
  pub id : ℕ
  pub username : Text
  pub title : Text
  pub gigagroup : Bool
  pub forum : Bool
  pub megagroup : Bool
  pub broadcast : Bool

-- `ValidateChannelType`: the flag `broadcast` does not change the result.
unfoldable pub validate_channel_type : TgChannel → Bool
validate_channel_type c =
    if c.gigagroup then false else if c.forum then false else if c.megagroup then false else true

-- `ValidateChannelIsPublic`.
unfoldable pub validate_channel_is_public : TgChannel → Bool
validate_channel_is_public c = not (is_empty c.username)

-- internal/config/config.go.
abbrev pub min_channel_subscribers : ℤ
min_channel_subscribers = pos 50

-- `validateChannelRequirements`: `none` if there is no error.
unfoldable pub validate_channel_requirements : Option TgChannel → ℤ → Option Error
validate_channel_requirements none subscribers = some internal_error
validate_channel_requirements (some c) subscribers =
    if not (validate_channel_type c)
    then some channel_not_broadcast
    else if not (validate_channel_is_public c)
    then some channel_not_public
    else if ltb_ℤ subscribers min_channel_subscribers
    then some channel_not_enough_members
    else none
