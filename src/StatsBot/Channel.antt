-- ===== src/StatsBot/Channel.antt =====
-- internal/modules/stats_bot/channel_stats.go and channel_info.go, with the readers of
-- tg_api/channel_api.go. What the Telegram client (gotd/td) answers is a parameter: a `TgClient`,
-- whose calls fail with `none`.
pub mod Access
use tam_backend.Prelude.{
  if◌then◌else◌, length, ℤ, pos, negsuc, Text, ℕ, Bool, true, false, Option, none, some, List, [],
  ◌∷◌,
}
use tam_backend.Common.Errors.{channel_not_found, Result, ok, err}
use tam_backend.StatsBot.Validation.{
  Participant, UserRole, Bots, validate_channel_access, TgChannel, validate_channel_requirements,
}
use tam_backend.StatsBot.Posts.{Message, RecentPosts, recent_posts, first_post_date}

pub data Chat : Type 0 where
  chat_channel : TgChannel → Chat
  other_chat : Chat

-- The fields of `tg.ChannelFull` that are read.
pub record ChannelFull : Type 0 where
  pub full_about : Text
  pub participants_count : ℤ
  pub can_view_stats : Bool

-- `tg.MessagesChatFull`; `full_chat` is `none` if it is not a `tg.ChannelFull`.
pub record ChatFull : Type 0 where
  pub full_chat : Option ChannelFull
  pub chats : List Chat

-- The classes of an answer of MessagesGetHistory, with the number that the server counts.
pub data History : Type 0 where
  channel_messages messages_slice : List Message → ℤ → History
  messages : List Message → History
  other_history : History

-- The calls of the Telegram client. A channel is named by its id. The last two numbers of
-- `get_history` are the offset id and the added offset.
pub record TgClient : Type 0 where
  pub resolve_username : Text → Option (List Chat)
  pub get_full : ℕ → Option ChatFull
  pub get_admins : ℕ → Option (List Participant)
  pub get_history : ℕ → ℕ → ℕ → ℤ → Option History
  pub get_followers : ℕ → Option ℤ

-- The first channel among the chats: the loops of `ResolveChannelUsername` and `extractBasicInfo`.
unfoldable pub first_channel : List Chat → Option TgChannel
first_channel [] = none
first_channel (chat_channel c ∷ cs) = some c
first_channel (other_chat ∷ cs) = first_channel cs

-- `ResolveChannelUsername`.
unfoldable pub resolve_channel_username : TgClient → Text → Option ℕ
resolve_channel_username tg name = elim (tg.resolve_username name) [
  | none ↦ none
  | some found ↦ elim (first_channel found) [ none ↦ none | some c ↦ some c.id ]
]

-- `GetChannelHistory` on the client's answer.
unfoldable pub history_of : Option History → Option (List Message × ℤ)
history_of none = none
history_of (some (channel_messages ms n)) = some (ms, n)
history_of (some (messages_slice ms n)) = some (ms, n)
history_of (some (messages ms)) = some (ms, pos (length ms))
history_of (some other_history) = none

-- `common.AddChannelResponse`.
pub record AddChannelResponse : Type 0 where
  pub role : UserRole
  pub tg_id : ℕ
  pub tg_username : Text
  pub tg_title : Text
  pub about : Text
  pub subscribers : ℤ
  pub first_post : ℤ
  pub total_posts : ℤ
  pub recent : Option RecentPosts
  pub stats_available : Bool

-- `extractBasicInfo` on the response that has the role.
unfoldable pub extract_basic_info : ChatFull → UserRole → AddChannelResponse
extract_basic_info full role = record {
  role = role;
  tg_id = elim (first_channel full.chats) [ none ↦ 0 | some c ↦ c.id ];
  tg_username = elim (first_channel full.chats) [ none ↦ [] | some c ↦ c.username ];
  tg_title = elim (first_channel full.chats) [ none ↦ [] | some c ↦ c.title ];
  about = elim full.full_chat [ none ↦ [] | some f ↦ f.full_about ];
  subscribers = elim full.full_chat [ none ↦ pos 0 | some f ↦ f.participants_count ];
  first_post = pos 0;
  total_posts = pos 0;
  recent = none;
  stats_available = false;
}

-- `getFirstPostInfo`; its error is only logged.
unfoldable pub get_first_post_info : TgClient → ℕ → AddChannelResponse → AddChannelResponse
get_first_post_info tg input resp = elim (history_of (tg.get_history input 1 1 (negsuc 0))) [
  | none ↦ resp
  | some (ms, n) ↦ record resp { first_post = first_post_date ms; total_posts = n }
]

-- `getRecentPostsStats`; its error is dropped.
unfoldable pub get_recent_posts_stats : TgClient → ℕ → AddChannelResponse → AddChannelResponse
get_recent_posts_stats tg input resp = elim (history_of (tg.get_history input 100 0 (pos 0))) [
  | none ↦ resp
  | some (ms, n) ↦ record resp { recent = some (recent_posts ms) }
]

-- The call of `getBroadcastStats` under `CanViewStats`.
unfoldable pub get_broadcast_stats :
    TgClient → ℕ → Option ChannelFull → AddChannelResponse → AddChannelResponse
get_broadcast_stats tg input none resp = resp
get_broadcast_stats tg input (some full) resp =
    if full.can_view_stats
    then elim (tg.get_followers input) [
      | none ↦ resp
      | some n ↦ record resp { subscribers = n; stats_available = true }
    ]
    else resp

-- What follows the validations.
unfoldable pub fill_stats : TgClient → ℕ → ChatFull → AddChannelResponse → AddChannelResponse
fill_stats tg input full resp =
    get_broadcast_stats tg input full.full_chat
      (get_recent_posts_stats tg input (get_first_post_info tg input resp))

unfoldable pub with_role : TgClient → ℕ → ChatFull → UserRole → Result AddChannelResponse
with_role tg input full role =
    let resp = extract_basic_info full role in
    elim (validate_channel_requirements (first_channel full.chats) resp.subscribers) [
      | some e ↦ err e
      | none ↦ ok (fill_stats tg input full resp)
    ]

unfoldable pub with_full : Bots → TgClient → ℕ → ℕ → ChatFull → Result AddChannelResponse
with_full cfg tg user input full = elim (validate_channel_access cfg user (tg.get_admins input)) [
  | err e ↦ err e
  | ok role ↦ with_role tg input full role
]

-- `GetChannel` of the statistics bot, for a username and a user.
unfoldable pub get_channel_stats : Bots → TgClient → Text → ℕ → Result AddChannelResponse
get_channel_stats cfg tg name user = elim (resolve_channel_username tg name) [
  | none ↦ err channel_not_found
  | some input ↦ elim (tg.get_full input) [
    | none ↦ err channel_not_found
    | some full ↦ with_full cfg tg user input full
  ]
]
