-- ===== src/Server/Channels/Again.antt =====
-- `AddChannel` for a channel that it has created before: it looks for the row by the bare id of the
-- channel, but writes the row with the id of the bot interface (sign and prefix).
use tam_backend.Prelude.{
  Bool-cases, pos, lookup, Text, ℕ, ◌≡◌, refl, sym, ap, ◌∙◌, subst, inl, inr, true, Option, none,
  some, arith,
}
use tam_backend.Common.Errors.{internal_error, ok}
use tam_backend.Storage.Schema.{Customer, Channel, Db}
use tam_backend.Storage.Channels.{channel_by_tg_id, get_channel_by_tg_id, create_channel}
use tam_backend.StatsBot.Validation.{Bots}
use tam_backend.StatsBot.Channel.{TgClient, AddChannelResponse, get_channel_stats}
use tam_backend.Server.Outcome.{success, Outcome, Answers, refuse}
use tam_backend.Server.Channels.{
  parse_channel_username, channel_tg_id, new_channel, add_new_channel, with_existing, with_stats,
  add_channel,
}
use tam_backend.Server.Channels.Adding.{with_new_channel, with_stats-created}

new_row-missed :
    (n id u : ℕ) (resp : AddChannelResponse) (db : Db)
    → channel_by_tg_id (pos n) db.channels ≡ none
    → channel_by_tg_id (pos n) (with_new_channel u id resp db).channels ≡ none
unfolding channel_by_tg_id
new_row-missed n id u resp db h = ground (arith, h)

new_row-found :
    (id u : ℕ) (resp : AddChannelResponse) (db : Db)
    → channel_by_tg_id (channel_tg_id resp.tg_id) (with_new_channel u id resp db).channels
      ≡ some (id, new_channel resp)
unfolding channel_by_tg_id
new_row-found id u resp db = ground arith

module _ (up : Answers) (u id : ℕ) (resp : AddChannelResponse) (db : Db) where
  create-refused :
      (x : ℕ × Channel)
      → channel_by_tg_id (channel_tg_id resp.tg_id) db.channels ≡ some x
      → add_new_channel up u id resp db ≡ refuse internal_error db
  unfolding add_new_channel create_channel
  create-refused x h = ground (arith, h)

  with_stats-refused :
      (x : ℕ × Channel)
      → channel_by_tg_id (pos resp.tg_id) db.channels ≡ none
      → channel_by_tg_id (channel_tg_id resp.tg_id) db.channels ≡ some x
      → with_stats up u id resp db ≡ refuse internal_error db
  unfolding with_stats get_channel_by_tg_id with_existing
  with_stats-refused x missing there = elim (Bool-cases (up 1)) [
    | inl served ↦ rw (served, missing) (create-refused x there)
    | inr down ↦ rw down refl
  ]

add_channel-answered :
    (cfg : Bots) (tg : TgClient) (up : Answers) (id u : ℕ) (name : Text) (db : Db) (c : Customer)
    (resp : AddChannelResponse)
    → up 0 ≡ true
    → lookup u db.customers ≡ some c
    → get_channel_stats cfg tg (parse_channel_username name) c.tg_id ≡ ok resp
    → add_channel cfg tg up id u (some name) db ≡ with_stats up u id resp db
unfolding add_channel
add_channel-answered cfg tg up id u name db c resp served e s = rw (served, e, s, add_channel)

add_channel-served :
    (cfg : Bots) (tg : TgClient) (up : Answers) (id u : ℕ) (body : Option Text) (db : Db)
    → (add_channel cfg tg up id u body db).reply ≡ success 201
    → up 0 ≡ true
unfolding add_channel
add_channel-served cfg tg up id u body db h = elim (Bool-cases (up 0)) [
  | inl served ↦ served
  | inr down ↦ ground (arith, down)
]

-- After `AddChannel` has created a channel there is a row with the id of the bot interface, and none with the
-- bare id. In any later database of which both are true, every further request for the channel, by
-- any customer whose row is read and with any answer of the statistics bot that lets it through, ends
-- with an internal error and changes nothing: neither ErrChannelExists nor the refresh of a channel
-- that is not activated is reached.
pub add_channel-again :
    (cfg : Bots) (tg : TgClient) (up : Answers) (id u : ℕ) (name : Text) (c : Customer)
    (resp : AddChannelResponse) (db : Db)
    → lookup u db.customers ≡ some c
    → get_channel_stats cfg tg (parse_channel_username name) c.tg_id ≡ ok resp
    → (add_channel cfg tg up id u (some name) db).reply ≡ success 201
    → (later : Db) (x : ℕ × Channel) (tg' : TgClient) (up' : Answers) (id' u' : ℕ) (name' : Text)
      (c' : Customer) (resp' : AddChannelResponse)
    → channel_by_tg_id (channel_tg_id resp.tg_id) later.channels ≡ some x
    → channel_by_tg_id (pos resp.tg_id) later.channels ≡ none
    → up' 0 ≡ true
    → lookup u' later.customers ≡ some c'
    → get_channel_stats cfg tg' (parse_channel_username name') c'.tg_id ≡ ok resp'
    → resp'.tg_id ≡ resp.tg_id
    → let created = (add_channel cfg tg up id u (some name) db).db.channels in
      (channel_by_tg_id (channel_tg_id resp.tg_id) created ≡ some (id, new_channel resp))
      × (channel_by_tg_id (pos resp.tg_id) created ≡ none)
      × (add_channel cfg tg' up' id' u' (some name') later ≡ refuse internal_error later)
add_channel-again cfg tg up id u name c resp db e s h later x tg' up' id' u' name' c' resp' there
      missing served e' s' same =
    let first =
      add_channel-answered cfg tg up id u name db c resp
        (add_channel-served cfg tg up id u (some name) db h) e s in
    let (fresh, made) =
      with_stats-created up u id resp db (subst (λ (o : Outcome). o.reply ≡ success 201) first h) in
    let channels_of = sym (ap (λ (o : Outcome). o.db.channels) (first ∙ made)) in
    (
      subst (λ t. channel_by_tg_id (channel_tg_id resp.tg_id) t ≡ some (id, new_channel resp))
          channels_of (new_row-found id u resp db),
      subst (λ t. channel_by_tg_id (pos resp.tg_id) t ≡ none) channels_of
          (new_row-missed resp.tg_id id u resp db fresh.1),
      add_channel-answered cfg tg' up' id' u' name' later c' resp' served e' s'
          ∙ with_stats-refused up' u' id' resp' later x (simp same missing) (simp same there),
    )
