-- ===== src/StatsBot/Channel/Access.antt =====
-- Which channels the statistics bot lets through.
use tam_backend.Prelude.{
  Option-cases, pos, ◌≤ℤ◌, Text, is_empty, ℕ, ◌≡◌, refl, ◌∙◌, ◌⊎◌, inl, inr, false, none, some,
  List, arith,
}
use tam_backend.Common.Errors.{ok, Result-cases}
use tam_backend.StatsBot.Validation.{
  Participant, UserRole, creator_role, user_bot, Bots, validate_channel_access, TgChannel,
  validate_channel_requirements,
}
use tam_backend.StatsBot.Validation.Rights.{
  Some, IsCreator, IsAdmin, Manages, validate_channel_access-Admitted,
  validate_channel_requirements-none,
}
use tam_backend.StatsBot.Channel.{
  ChannelFull, ChatFull, TgClient, first_channel, resolve_channel_username, AddChannelResponse,
  extract_basic_info, get_first_post_info, get_recent_posts_stats, get_broadcast_stats, fill_stats,
  with_role, with_full, get_channel_stats,
}

-- What the statistics bot has seen of a channel that it lets through: the client's answers, the user
-- among the admins, with the role that is reported, the rights of the configured bots, and a public
-- channel that is no group and no forum, with enough subscribers.
pub record Accepted (cfg : Bots) (tg : TgClient) (name : Text) (user : ℕ)
    (resp : AddChannelResponse) : Type 0 where
  pub input : ℕ
  pub full : ChatFull
  pub participants : List Participant
  pub channel : TgChannel
  pub resolved : resolve_channel_username tg name ≡ some input
  pub got_full : tg.get_full input ≡ some full
  pub listed : tg.get_admins input ≡ some participants
  pub is_channel : first_channel full.chats ≡ some channel
  pub user_is_admin : Some (IsAdmin user) participants
  pub creator_is_creator : resp.role ≡ creator_role → Some (IsCreator user) participants
  pub bot_manages : (cfg.bot_id ≡ 0) ⊎ Some (Manages cfg.bot_id) participants
  pub user_bot_manages : (cfg.user_bot_id ≡ 0) ⊎ Some (Manages cfg.user_bot_id) participants
  pub not_gigagroup : channel.gigagroup ≡ false
  pub not_forum : channel.forum ≡ false
  pub not_megagroup : channel.megagroup ≡ false
  pub is_public : is_empty channel.username ≡ false
  pub details : ChannelFull
  pub is_full : full.full_chat ≡ some details
  pub enough_members : pos 50 ≤ℤ details.participants_count
  pub same_id : resp.tg_id ≡ channel.id

fill_stats-keeps :
    (tg : TgClient) (input : ℕ) (full : ChatFull) (resp : AddChannelResponse)
    → ((fill_stats tg input full resp).role ≡ resp.role)
      × ((fill_stats tg input full resp).tg_id ≡ resp.tg_id)
unfolding fill_stats get_broadcast_stats get_recent_posts_stats get_first_post_info
fill_stats-keeps tg input full resp = ground arith

with_role-ok :
    (tg : TgClient) (input : ℕ) (full : ChatFull) (role : UserRole) (resp : AddChannelResponse)
    → with_role tg input full role ≡ ok resp
    → (validate_channel_requirements
          (first_channel full.chats)
          (extract_basic_info full role).subscribers
        ≡ none)
      × (resp.role ≡ role)
      × (resp.tg_id ≡ (extract_basic_info full role).tg_id)
unfolding with_role extract_basic_info
with_role-ok tg input full role resp h =
    elim (Option-cases (
      validate_channel_requirements (first_channel full.chats)
        (extract_basic_info full role).subscribers)) [
          | inr (e, q) ↦ ground (arith, q)
          | inl q ↦
              let kept = fill_stats-keeps tg input full (extract_basic_info full role) in
              (q, ground (arith, q, kept.0), ground (arith, q, kept.1))
        ]

extracted_id :
    (full : ChatFull) (role : UserRole) (c : TgChannel)
    → first_channel full.chats ≡ some c
    → (extract_basic_info full role).tg_id ≡ c.id
unfolding extract_basic_info
extracted_id full role c h = rw (h, extract_basic_info) refl

extracted_members :
    (full : ChatFull) (role : UserRole)
    → pos 50 ≤ℤ (extract_basic_info full role).subscribers
    → (f : ChannelFull) × (full.full_chat ≡ some f) × (pos 50 ≤ℤ f.participants_count)
unfolding extract_basic_info
extracted_members full role h = elim (Option-cases full.full_chat) [
  | inl e ↦ ground (arith, e)
  | inr (f, e) ↦ (f, e, ground (arith, e))
]

with_full-Accepted :
    (cfg : Bots) (tg : TgClient) (name : Text) (user : ℕ) (resp : AddChannelResponse) (input : ℕ)
    (full : ChatFull)
    → resolve_channel_username tg name ≡ some input
    → tg.get_full input ≡ some full
    → with_full cfg tg user input full ≡ ok resp
    → Accepted cfg tg name user resp
unfolding with_full
with_full-Accepted cfg tg name user resp input full e f h =
    elim (Result-cases (validate_channel_access cfg user (tg.get_admins input))) [
      | inl (x, q) ↦ ground (arith, q)
      | inr (role, q) ↦
          let (ps, l, (is_admin, is_creator, bot, user_bot)) =
            validate_channel_access-Admitted cfg user (tg.get_admins input) role q in
          let (r, same, id) = with_role-ok tg input full role resp (ground (arith, q, h)) in
          let (c, ch, g, fo, me, pu, n) =
            validate_channel_requirements-none (first_channel full.chats)
              (extract_basic_info full role).subscribers r in
          record {
            input = input;
            full = full;
            participants = ps;
            channel = c;
            resolved = e;
            got_full = f;
            listed = l;
            is_channel = ch;
            user_is_admin = is_admin;
            creator_is_creator = λ cr. is_creator (cc);
            bot_manages = bot;
            user_bot_manages = user_bot;
            not_gigagroup = g;
            not_forum = fo;
            not_megagroup = me;
            is_public = pu;
            details = (extracted_members full role n).0;
            is_full = (extracted_members full role n).1;
            enough_members = (extracted_members full role n).2;
            same_id = id ∙ extracted_id full role c ch;
          }
    ]

-- If the statistics bot lets a channel through, then its answer comes from one channel: a public
-- channel that is no gigagroup, forum or megagroup, with at least 50 participants, whose id is in the answer;
-- the user is among its admins, as its creator if the answer says so; and each of the two bots
-- whose id is configured is an admin that may post, edit and delete.
pub get_channel_stats-Accepted :
    (cfg : Bots) (tg : TgClient) (name : Text) (user : ℕ) (resp : AddChannelResponse)
    → get_channel_stats cfg tg name user ≡ ok resp
    → Accepted cfg tg name user resp
unfolding get_channel_stats
get_channel_stats-Accepted cfg tg name user resp h =
    elim (Option-cases (resolve_channel_username tg name)) [
      | inl e ↦ ground (arith, e)
      | inr (input, e) ↦ elim (Option-cases (tg.get_full input)) [
        | inl f ↦ ground (arith, e, f)
        | inr (full, f) ↦
            with_full-Accepted cfg tg name user resp input full e f (ground (arith, e, f))
      ]
    ]
