-- ===== src/Server/Channels/Adding.antt =====
-- What `AddChannel` leaves when it creates a channel, and what it does the next time.
use tam_backend.Prelude.{
  ℤ, pos, ℕ, ◌≡◌, refl, ◌∙◌, subst, ◌≢◌, inl, inr, Bool, none, [], ◌∷◌, arith,
}
use tam_backend.Common.Errors.{not_found, Result, ok, err, Result-cases}
use tam_backend.Storage.Schema.{Channel, Role, CustomerChannel, Db}
use tam_backend.Storage.Channels.{
  channel_by_tg_id, create_channel, update_channel, add_customer_channel,
  update_customer_channel_role, delete_channel, get_channel_by_tg_id, get_customer_channel,
}
use tam_backend.StatsBot.Channel.{AddChannelResponse}
use tam_backend.Server.Outcome.{success, Outcome, Answers, reply_with}
use tam_backend.Server.Channels.{
  channel_tg_id, role_of, new_channel, refresh, after_refresh, existing_channel, undo_channel,
  add_new_channel, with_existing, with_stats,
}

-- The database with the new channel and its link.
abbrev pub with_new_channel : ℕ → ℕ → AddChannelResponse → Db → Db
with_new_channel u id resp db = record db {
  channels = (id, new_channel resp) ∷ db.channels;
  customer_channels =
      record { customer_id = u; channel_id = id; role = role_of resp.role } ∷ db.customer_channels;
}

-- No channel has the new Telegram id, nor the id without its sign and prefix.
abbrev pub IsNew : AddChannelResponse → Db → Type 0
IsNew resp db =
    (channel_by_tg_id (channel_tg_id resp.tg_id) db.channels ≡ none)
    × (channel_by_tg_id (pos resp.tg_id) db.channels ≡ none)

after_refresh-code :
    (up : Answers) (u id : ℕ) (link : CustomerChannel) (resp : AddChannelResponse) (db : Db)
    → (after_refresh up u id link resp db).reply ≡ success 200
unfolding after_refresh
after_refresh-code up u id link resp db =
    elim (Result-cases (update_customer_channel_role (up 4) (up 5) u id (role_of resp.role) db)) [
      | inl (e, q) ↦ ground (arith, q)
      | inr (db', q) ↦ ground (arith, q)
    ]

existing_channel-code :
    (up : Answers) (u id : ℕ) (c : Channel) (resp : AddChannelResponse) (db : Db)
    (r : Result CustomerChannel)
    → (existing_channel up u id c resp db r).reply ≢ success 201
unfolding existing_channel
existing_channel-code up u id c resp db (err not_found) h = cc
existing_channel-code up u id c resp db (err _) h = cc
existing_channel-code up u id c resp db (ok link) h =
    elim (Result-cases (update_channel (up 3) id (refresh resp) db)) [
      | inl (e, q) ↦ ground (arith, q)
      | inr (db', q) ↦ ground (arith, q, after_refresh-code up u id link resp db')
    ]

create_channel-ok :
    (up : Bool) (id : ℕ) (c : Channel) (db db' : Db)
    → create_channel up id c db ≡ ok db'
    → (channel_by_tg_id c.tg_id db.channels ≡ none)
      × (record db { channels = (id, c) ∷ db.channels } ≡ db')
unfolding create_channel
create_channel-ok up id c db db' h = (ground arith, ground arith)

add_customer_channel-ok :
    (up : Bool) (u id : ℕ) (r : Role) (db db' : Db)
    → add_customer_channel up u id r db ≡ ok db'
    → record db {
      customer_channels =
          record { customer_id = u; channel_id = id; role = r } ∷ db.customer_channels;
    }
      ≡ db'
unfolding add_customer_channel
add_customer_channel-ok up u id r db db' h = ground arith

undo_channel-code : (up : Answers) (id : ℕ) (db : Db) → (undo_channel up id db).reply ≢ success 201
unfolding undo_channel
undo_channel-code up id db h = elim (Result-cases (delete_channel (up 4) id db)) [
  | inl (e, q) ↦ ground (arith, q)
  | inr (db', q) ↦ ground (arith, q)
]

add_new_channel-created :
    (up : Answers) (u id : ℕ) (resp : AddChannelResponse) (db : Db)
    → (add_new_channel up u id resp db).reply ≡ success 201
    → (channel_by_tg_id (channel_tg_id resp.tg_id) db.channels ≡ none)
      × (add_new_channel up u id resp db ≡ reply_with 201 [] (with_new_channel u id resp db))
unfolding add_new_channel
add_new_channel-created up u id resp db h =
    elim (Result-cases (create_channel (up 2) id (new_channel resp) db)) [
      | inl (e, q) ↦ ground (arith, q)
      | inr (db', q) ↦
          let (fresh, made) = create_channel-ok (up 2) id (new_channel resp) db db' q in
          elim (Result-cases (add_customer_channel (up 3) u id (role_of resp.role) db')) [
            | inl (e, l) ↦ ground (arith, q, l, undo_channel-code up id db')
            | inr (db'', l) ↦
                let linked = add_customer_channel-ok (up 3) u id (role_of resp.role) db' db'' l in
                (fresh, ground (arith, q, l, made, linked))
          ]
    ]

-- The answers of `GetChannelByTgID` for which the request may still create a channel.
with_existing-created :
    (up : Answers) (u id : ℕ) (resp : AddChannelResponse) (db : Db) (r : Result (ℕ × Channel))
    → (with_existing up u id resp db r).reply ≡ success 201
    → (r ≡ err not_found) × (with_existing up u id resp db r ≡ add_new_channel up u id resp db)
unfolding with_existing
with_existing-created up u id resp db (ok (existing, c)) h =
    elim (existing_channel-code up u existing c resp db (get_customer_channel (up 2) u existing db)
      h) [ ]
with_existing-created up u id resp db (err not_found) h = (refl, refl)
with_existing-created up u id resp db (err _) h = cc

get_channel_by_tg_id-missing :
    (up : Bool) (tg : ℤ) (db : Db)
    → get_channel_by_tg_id up tg db ≡ err not_found
    → channel_by_tg_id tg db.channels ≡ none
unfolding get_channel_by_tg_id
get_channel_by_tg_id-missing up tg db h = ground arith

pub with_stats-created :
    (up : Answers) (u id : ℕ) (resp : AddChannelResponse) (db : Db)
    → (with_stats up u id resp db).reply ≡ success 201
    → IsNew resp db
      × (with_stats up u id resp db ≡ reply_with 201 [] (with_new_channel u id resp db))
unfolding with_stats
with_stats-created up u id resp db h =
    let answer = get_channel_by_tg_id (up 1) (pos resp.tg_id) db in
    let (missing, same) = with_existing-created up u id resp db answer h in
    let created : (add_new_channel up u id resp db).reply ≡ success 201 =
      subst (λ (o : Outcome). o.reply ≡ success 201) same h in
    let (fresh, outcome) = add_new_channel-created up u id resp db created in
    ((fresh, get_channel_by_tg_id-missing (up 1) (pos resp.tg_id) db missing), same ∙ outcome)
