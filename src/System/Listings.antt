-- ===== src/System/Listings.antt =====
-- The requests of internal/modules/server to the channel routes leave the customers as they are.
use tam_backend.Prelude.{
  Bool-cases, Option-cases, pos, lookup, Text, ℕ, suc, ◌≡◌, refl, ◌∙◌, inl, inr, Option, none, some,
}
use tam_backend.Common.Errors.{not_found, Result, ok, err, Result-cases}
use tam_backend.Storage.Schema.{Channel, CustomerChannel, Db}
use tam_backend.Storage.Channels.{
  get_channel_by_tg_id, create_channel, update_channel, get_customer_channel, add_customer_channel,
  update_customer_channel_role, delete_channel,
}
use tam_backend.Storage.Channels.Sparing.{
  update_channel-Spares, delete_channel-Spares, create_channel-Spares, add_customer_channel-Spares,
  update_customer_channel_role-Spares,
}
use tam_backend.Storage.Views.{get_channel}
use tam_backend.Server.Outcome.{Answers}
use tam_backend.Server.Access.{authorization}
use tam_backend.Server.Channels.{
  parse_channel_username, role_of, is_unactivated, same_role, new_channel, refresh, after_refresh,
  existing_channel, undo_channel, add_new_channel, with_existing, with_stats, add_channel,
}
use tam_backend.Server.ChannelData.{
  Catalogue, ProvideRequest, valid_request, provide, is_awaiting_data, with_channel,
  provide_channel_data, delete_channel_handler, ChannelRoute, provide_route, unreadable_route,
  delete_route, channel_of, handle_channel, with_link, require_channel_access, serve_channel,
}
use tam_backend.StatsBot.Validation.{Bots}
use tam_backend.StatsBot.Channel.{TgClient, AddChannelResponse, get_channel_stats}

module _ (cat : Catalogue) (up : Answers) (db : Db) where
  with_channel-customers :
      (req : ProvideRequest) (r : Result Channel)
      → (with_channel cat up req db r).db.customers ≡ db.customers
  unfolding with_channel
  with_channel-customers req (err not_found) = refl
  with_channel-customers req (err _) = refl
  with_channel-customers req (ok c) = elim (Bool-cases (is_awaiting_data c.status)) [
    | inr a ↦ rw a refl
    | inl a ↦ elim (Bool-cases (valid_request cat req)) [
      | inr v ↦ rw (a, v) refl
      | inl v ↦ elim (Result-cases (update_channel (up 1) req.channel (provide req) db)) [
        | inl (e, p) ↦ rw (a, v, p) refl
        | inr (x, p) ↦
            rw (a, v, p) (rw p at (update_channel-Spares (up 1) req.channel (provide req) db))
      ]
    ]
  ]

  delete_channel_handler-customers :
      (id : ℕ) → (delete_channel_handler up id db).db.customers ≡ db.customers
  unfolding delete_channel_handler
  delete_channel_handler-customers id = elim (Result-cases (delete_channel (up 0) id db)) [
    | inl (e, p) ↦ rw (p, delete_channel_handler) refl
    | inr (x, p) ↦ rw (p, delete_channel_handler) (rw p at (delete_channel-Spares (up 0) id db))
  ]

  handle_channel-customers :
      (route : ChannelRoute) → (handle_channel cat up route db).db.customers ≡ db.customers
  unfolding handle_channel provide_channel_data
  handle_channel-customers (provide_route none) = refl
  handle_channel-customers (provide_route (some req)) =
      with_channel-customers req (get_channel (up 0) req.channel db)
  handle_channel-customers (unreadable_route id) = refl
  handle_channel-customers (delete_route none) = refl
  handle_channel-customers (delete_route (some id)) = delete_channel_handler-customers id

with_link-customers :
    (cat : Catalogue) (up : Answers) (route : ChannelRoute) (db : Db) (r : Result CustomerChannel)
    → (with_link cat up route db r).db.customers ≡ db.customers
unfolding with_link
with_link-customers cat up route db (err not_found) = refl
with_link-customers cat up route db (err _) = refl
with_link-customers cat up route db (ok link) =
    handle_channel-customers cat (λ n. up (suc n)) db route

pub serve_channel-customers :
    (validate_jwt : Text → Option ℕ) (cat : Catalogue) (up : Answers) (header : Text)
    (route : ChannelRoute) (db : Db)
    → (serve_channel validate_jwt cat up header route db).db.customers ≡ db.customers
unfolding serve_channel require_channel_access
serve_channel-customers validate_jwt cat up header route db =
    elim (Option-cases (authorization header)) [
      | inl a ↦ rw (a, serve_channel) refl
      | inr (token, a) ↦ elim (Option-cases (validate_jwt token)) [
        | inl v ↦ rw (a, v, serve_channel) refl
        | inr (u, v) ↦ elim (Result-cases (channel_of route)) [
          | inl (e, c) ↦ rw (a, v, c, serve_channel, require_channel_access) refl
          | inr (id, c) ↦
              rw (a, v, c, serve_channel, require_channel_access)
                (with_link-customers cat up route db (get_customer_channel (up 0) u id db))
        ]
      ]
    ]

module _ (up : Answers) (u id : ℕ) (resp : AddChannelResponse) where
  after_refresh-customers :
      (link : CustomerChannel) (db : Db)
      → (after_refresh up u id link resp db).db.customers ≡ db.customers
  unfolding after_refresh
  after_refresh-customers link db =
      let r = update_customer_channel_role (up 4) (up 5) u id (role_of resp.role) db in
      elim (Bool-cases (same_role link.role (role_of resp.role))) [
        | inl s ↦ rw s refl
        | inr s ↦ elim (Result-cases r) [
          | inl (e, p) ↦ rw (s, p) refl
          | inr (x, p) ↦
              rw (s, p)
                (rw p at
                  (update_customer_channel_role-Spares (up 4) (up 5) u id (role_of resp.role) db))
        ]
      ]

  existing_channel-customers :
      (c : Channel) (db : Db) (r : Result CustomerChannel)
      → (existing_channel up u id c resp db r).db.customers ≡ db.customers
  unfolding existing_channel
  existing_channel-customers c db (err not_found) = refl
  existing_channel-customers c db (err _) = refl
  existing_channel-customers c db (ok link) = elim (Bool-cases (is_unactivated c.status)) [
    | inr s ↦ rw s refl
    | inl s ↦ elim (Result-cases (update_channel (up 3) id (refresh resp) db)) [
      | inl (e, p) ↦ rw (s, p) refl
      | inr (x, p) ↦
          rw (s, p)
            (after_refresh-customers link x
              ∙ (rw p at (update_channel-Spares (up 3) id (refresh resp) db)))
    ]
  ]

  undo_channel-customers : (db : Db) → (undo_channel up id db).db.customers ≡ db.customers
  unfolding undo_channel
  undo_channel-customers db = elim (Result-cases (delete_channel (up 4) id db)) [
    | inl (e, p) ↦ rw (p, undo_channel) refl
    | inr (x, p) ↦ rw (p, undo_channel) (rw p at (delete_channel-Spares (up 4) id db))
  ]

  add_new_channel-customers :
      (db : Db) → (add_new_channel up u id resp db).db.customers ≡ db.customers
  unfolding add_new_channel
  add_new_channel-customers db =
      elim (Result-cases (create_channel (up 2) id (new_channel resp) db)) [
        | inl (e, p) ↦ rw (p, add_new_channel) refl
        | inr (x, p) ↦
            let made : x.customers ≡ db.customers =
              rw p at (create_channel-Spares (up 2) id (new_channel resp) db) in
            elim (Result-cases (add_customer_channel (up 3) u id (role_of resp.role) x)) [
              | inl (e, q) ↦ rw (p, q, add_new_channel) (undo_channel-customers x ∙ made)
              | inr (y, q) ↦
                  rw (p, q, add_new_channel)
                    ((rw q at (add_customer_channel-Spares (up 3) u id (role_of resp.role) x))
                      ∙ made)
            ]
      ]

with_existing-customers :
    (up : Answers) (u id : ℕ) (resp : AddChannelResponse) (db : Db) (r : Result (ℕ × Channel))
    → (with_existing up u id resp db r).db.customers ≡ db.customers
unfolding with_existing
with_existing-customers up u id resp db (ok (j, c)) =
    existing_channel-customers up u j resp c db (get_customer_channel (up 2) u j db)
with_existing-customers up u id resp db (err not_found) = add_new_channel-customers up u id resp db
with_existing-customers up u id resp db (err _) = refl

pub add_channel-customers :
    (cfg : Bots) (tg : TgClient) (up : Answers) (id u : ℕ) (body : Option Text) (db : Db)
    → (add_channel cfg tg up id u body db).db.customers ≡ db.customers
unfolding add_channel with_stats
add_channel-customers cfg tg up id u body db = elim (Bool-cases (up 0)) [
  | inr e ↦ rw e refl
  | inl e ↦ elim (Option-cases (lookup u db.customers)) [
    | inl l ↦ rw (e, l) refl
    | inr (c, l) ↦ elim (Option-cases body) [
      | inl b ↦ rw (e, l, b) refl
      | inr (name, b) ↦
          elim (Result-cases (get_channel_stats cfg tg (parse_channel_username name) c.tg_id)) [
            | inl (x, s) ↦ rw (e, l, b, s) refl
            | inr (resp, s) ↦
                rw (e, l, b, s)
                  (with_existing-customers up u id resp db
                    (get_channel_by_tg_id (up 1) (pos resp.tg_id) db))
          ]
    ]
  ]
]
