-- ===== src/Server/Channels/Creation.antt =====
-- `AddChannel` as a whole: the statistics bot, the new rows, and a second request for the channel.
use tam_backend.Prelude.{
  if◌then◌else◌, Bool-cases, Option-cases, ℤ, negated, lookup, Text, ℕ, ◌+◌, ◌≡◌, refl, ap, ◌∙◌,
  subst, inl, inr, false, Option, some, [], ◌∷◌, arith,
}
use tam_backend.Common.Errors.{ok, Result-cases}
use tam_backend.Storage.Schema.{
  Customer, unactivated, awaiting_data, Channel, Role, admin, owner, Db,
}
use tam_backend.StatsBot.Validation.{admin, UserRole, creator_role, administrator_role, Bots}
use tam_backend.StatsBot.Channel.{TgClient, AddChannelResponse, get_channel_stats}
use tam_backend.StatsBot.Channel.Access.{Accepted, get_channel_stats-Accepted}
use tam_backend.Server.Outcome.{success, Outcome, Answers, reply_with}
use tam_backend.Server.Channels.{parse_channel_username, role_of, with_stats, add_channel}
use tam_backend.Server.Channels.Adding.{with_new_channel, IsNew, with_stats-created}

-- The caller's role in the channel: who has created it owns it.
abbrev role_in : UserRole → Role
role_in creator_role = owner
role_in administrator_role = admin

role_of-role_in : (r : UserRole) → role_of r ≡ role_in r
role_of-role_in creator_role = refl
role_of-role_in administrator_role = refl

-- The id that the bot interface gives a channel: -100 is put in front of the channel's own id.
abbrev bot_id_of : ℕ → ℤ
bot_id_of n = negated (1000000000000 + n)

-- The row of a channel that nobody has described yet, which is not on offer.
abbrev bare_channel : AddChannelResponse → Channel
bare_channel resp = record {
  tg_id = bot_id_of resp.tg_id;
  tg_username = resp.tg_username;
  status = if resp.stats_available then awaiting_data else unactivated;
  commentary = [];
  is_listed = false;
  tags = [];
  prices = [];
  main_language = [];
}

-- The database with that row and the caller's link as its only additions.
abbrev pub with_bare_channel : ℕ → ℕ → AddChannelResponse → Db → Db
with_bare_channel u id resp db = record db {
  channels = (id, bare_channel resp) ∷ db.channels;
  customer_channels =
      record { customer_id = u; channel_id = id; role = role_in resp.role } ∷ db.customer_channels;
}

with_new_channel-with_bare_channel :
    (u id : ℕ) (resp : AddChannelResponse) (db : Db)
    → with_new_channel u id resp db ≡ with_bare_channel u id resp db
with_new_channel-with_bare_channel u id resp db = rw (role_of-role_in resp.role) refl

-- A created channel: the caller's row, the name that the request gives, what the statistics bot
-- answers and has checked, and the two new rows.
pub record Created (cfg : Bots) (tg : TgClient) (id u : ℕ) (body : Option Text) (db : Db)
    (o : Outcome) : Type 0 where
  pub customer : Customer
  pub name : Text
  pub resp : AddChannelResponse
  pub caller : lookup u db.customers ≡ some customer
  pub asked : body ≡ some name
  pub answered : get_channel_stats cfg tg (parse_channel_username name) customer.tg_id ≡ ok resp
  pub accepted : Accepted cfg tg (parse_channel_username name) customer.tg_id resp
  pub fresh : IsNew resp db
  pub outcome : o ≡ reply_with 201 [] (with_bare_channel u id resp db)

-- If `AddChannel` answers with 201, then the statistics bot has let the channel through for the
-- caller's Telegram id, no row had the Telegram id of the new one, and the database is the one of
-- before with the new row, not listed and without prices, waiting for its data if there are
-- statistics and not activated if not, and with a link of the caller, as owner if the caller is the
-- channel's creator and as admin if not.
pub add_channel-Created :
    (cfg : Bots) (tg : TgClient) (up : Answers) (id u : ℕ) (body : Option Text) (db : Db)
    → (add_channel cfg tg up id u body db).reply ≡ success 201
    → Created cfg tg id u body db (add_channel cfg tg up id u body db)
unfolding add_channel
add_channel-Created cfg tg up id u body db h = elim (Bool-cases (up 0)) [
  | inr down ↦ ground (arith, down)
  | inl served ↦ elim (Option-cases (lookup u db.customers)) [
    | inl e ↦ ground (arith, served, e)
    | inr (c, e) ↦ elim (Option-cases body) [
      | inl b ↦ ground (arith, served, e, b)
      | inr (name, b) ↦
          elim (Result-cases (get_channel_stats cfg tg (parse_channel_username name) c.tg_id)) [
            | inl (x, s) ↦ ground (arith, served, e, b, s)
            | inr (resp, s) ↦
                let same : add_channel cfg tg up id u body db ≡ with_stats up u id resp db =
                  rw (served, e, b, s, add_channel) in
                let (fresh, outcome) =
                  with_stats-created up u id resp db
                    (subst (λ (o : Outcome). o.reply ≡ success 201) same h) in
                record {
                  customer = c;
                  name = name;
                  resp = resp;
                  caller = e;
                  asked = b;
                  answered = s;
                  accepted =
                      get_channel_stats-Accepted cfg tg (parse_channel_username name) c.tg_id resp
                        s;
                  fresh = fresh;
                  outcome =
                      same
                      ∙ outcome
                      ∙ ap (λ x. reply_with 201 [] x)
                          (with_new_channel-with_bare_channel u id resp db);
                }
          ]
    ]
  ]
]
