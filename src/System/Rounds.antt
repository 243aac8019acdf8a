-- ===== src/System/Rounds.antt =====
-- The rounds of the jobs (internal/modules/server) and the events of the bot
-- (internal/modules/telegram_bot) keep the money of all customers.
use tam_backend.Common.DealStatus.{awaiting_publication}
use tam_backend.Prelude.{
  if◌then◌else◌, Bool-cases, Option-cases, filter, ℤ, modify, Text, ℕ, ◌≡◌, refl, inl, inr, Bool,
  true, false, Option, none, some, List, [], ◌∷◌, arith,
}
use tam_backend.Storage.Schema.{Deal, Db}
use tam_backend.Storage.Deals.{
  Deals, DealsUpdated, update_deal, get_deals_by_channel_excluding_statuses,
  get_published_deals_within_top_hours_by_channel, get_deals_published_active, get_deals_for_refund,
  get_deals_need_to_complete, get_expired_deals, get_deals_by_status,
}
use tam_backend.Storage.Customers.{
  Updated, Customers, unlock_balance_for_deal, transfer_balance_to_manager_for_deal,
}
use tam_backend.Storage.Views.{DealView, view_of}
use tam_backend.Server.Jobs.{
  Round, Work, each, expire_one, claim, after_claim, publish_one, complete, completed_events,
  after_complete, after_transfer, complete_one, mark_refunded, after_mark, after_unlock, refund_one,
  fetched, check_and_expire_deals, is_due, check_and_publish_deals,
  check_and_complete_published_deals, check_and_refund_terminal_deals,
}
use tam_backend.Server.Outcome.{refund, Event, notify}
use tam_backend.Bot.Publishing.{Post, update_deal_status, publish_view, handle_auto_post}
use tam_backend.Bot.Monitoring.{
  Served, violate_one, violate_each, remove_from_channel, handle_bot_removed_from_chat,
  on_channel_post, check_published_posts, find_channel, deactivate, is_own_post, is_punished,
  check_post_integrity,
}
use tam_backend.System.Requests.{Kept}

-- What the body of the loop keeps is kept by the loop.
each-keeps {ℓ} :
    (P : Db → Type ℓ) (body : ℕ → Deal → Work → Work)
    → ((id : ℕ) (d : Deal) (w : Work) → P w.0 → P (body id d w).0)
    → (ds : Deals) (w : Work) → P w.0
    → P (each body ds w).0
unfolding each
each-keeps P body h [] w p = p
each-keeps P body h ((id, d) ∷ ds) w p = each-keeps P body h ds (body id d w) (h id d w p)

module _ (P : Customers → Type 0) (kept : Kept P) (r : Round) where
  abbrev Keeps : Db → Type 0
  Keeps db = P db.customers

  expire_one-keeps :
      (id : ℕ) (d : Deal) (w : Work) → P w.0.customers → P (expire_one r id d w).0.customers
  unfolding expire_one
  expire_one-keeps id d w h = h

  after_claim-keeps :
      (id : ℕ) (db : Db) (es : List Event) (u : DealsUpdated)
      → P db.customers
      → P (after_claim r id db es u).0.customers
  after_claim-keeps id db es (some e, ds) h = h
  after_claim-keeps id db es (none, ds) h = elim (Bool-cases (r.has_room id)) [
    | inl e ↦ rw e h
    | inr e ↦ rw e h
  ]

  publish_one-keeps :
      (id : ℕ) (d : Deal) (w : Work) → P w.0.customers → P (publish_one r id d w).0.customers
  unfolding publish_one
  publish_one-keeps id d (db, es) h = elim (Bool-cases (is_due r.now d)) [
    | inr e ↦ rw e h
    | inl e ↦
        rw e (after_claim-keeps id db es (update_deal (r.up id 0) id (claim r.now) db.deals) h)
  ]

  after_complete-keeps :
      (told : List Event) (db : Db) (es : List Event) (u : DealsUpdated)
      → P db.customers
      → P (after_complete told db es u).0.customers
  after_complete-keeps told db es (some e, ds) h = h
  after_complete-keeps told db es (none, ds) h = h

  after_transfer-keeps :
      (id : ℕ) (v : DealView) (db : Db) (es : List Event) (u : Updated)
      → P db.customers
      → P u.1
      → P (after_transfer r id v db es u).0.customers
  after_transfer-keeps id v db es (some e, cs) h k = h
  after_transfer-keeps id v db es (none, cs) h k =
      after_complete-keeps (completed_events id v) (record db { customers = cs }) es
        (update_deal (r.up id 0) id (complete r.now) db.deals) k

  complete_one-keeps :
      (read : Db) (id : ℕ) (d : Deal) (w : Work)
      → P w.0.customers
      → P (complete_one r read id d w).0.customers
  unfolding complete_one
  complete_one-keeps read id d (db, es) h =
      after_transfer-keeps id (view_of read id d) db es
        (transfer_balance_to_manager_for_deal (r.tx_up id) d db.customers) h
        (kept.transfers (r.tx_up id) d db.customers h)

  after_mark-keeps :
      (told : List Event) (db : Db) (es : List Event) (u : DealsUpdated)
      → P db.customers
      → P (after_mark told db es u).0.customers
  after_mark-keeps told db es (some e, ds) h = h
  after_mark-keeps told db es (none, ds) h = h

  after_unlock-keeps :
      (id : ℕ) (v : DealView) (db : Db) (es : List Event) (u : Updated)
      → P db.customers
      → P u.1
      → P (after_unlock r id v db es u).0.customers
  after_unlock-keeps id v db es (some e, cs) h k = h
  after_unlock-keeps id v db es (none, cs) h k =
      after_mark-keeps (notify refund id v.advertiser) (record db { customers = cs }) es
        (update_deal (r.up id 1) id mark_refunded db.deals) k

  refund_one-keeps :
      (read : Db) (id : ℕ) (d : Deal) (w : Work)
      → P w.0.customers
      → P (refund_one r read id d w).0.customers
  unfolding refund_one
  refund_one-keeps read id d (db, es) h =
      after_unlock-keeps id (view_of read id d) db es
        (unlock_balance_for_deal (r.up id 0) d db.customers) h
        (kept.unlocks (r.up id 0) d db.customers h)

  pub check_and_expire_deals-keeps :
      (db : Db) → P db.customers → P (check_and_expire_deals r db).0.customers
  unfolding check_and_expire_deals
  check_and_expire_deals-keeps db h =
      each-keeps Keeps (expire_one r) expire_one-keeps
        (fetched r.fetch_up (get_expired_deals r.asked_at db.deals)) (db, []) h

  pub check_and_publish_deals-keeps :
      (db : Db) → P db.customers → P (check_and_publish_deals r db).0.customers
  unfolding check_and_publish_deals
  check_and_publish_deals-keeps db h =
      each-keeps Keeps (publish_one r) publish_one-keeps
        (fetched r.fetch_up (get_deals_by_status awaiting_publication db.deals)) (db, []) h

  pub check_and_complete_published_deals-keeps :
      (db : Db) → P db.customers → P (check_and_complete_published_deals r db).0.customers
  unfolding check_and_complete_published_deals
  check_and_complete_published_deals-keeps db h =
      each-keeps Keeps (complete_one r db) (complete_one-keeps db)
        (fetched r.fetch_up (get_deals_need_to_complete r.asked_at db.deals)) (db, []) h

  pub check_and_refund_terminal_deals-keeps :
      (db : Db) → P db.customers → P (check_and_refund_terminal_deals r db).0.customers
  unfolding check_and_refund_terminal_deals
  check_and_refund_terminal_deals-keeps db h =
      each-keeps Keeps (refund_one r db) (refund_one-keeps db)
        (fetched r.fetch_up (get_deals_for_refund db.deals)) (db, []) h

-- The bot touches no balance.
pub violate_each-customers :
    (up : Served) (now : ℕ) (ds : Deals) (db : Db)
    → (violate_each up now ds db).customers ≡ db.customers
unfolding violate_each violate_one
violate_each-customers up now [] db = refl
violate_each-customers up now ((id, d) ∷ ds) db =
    violate_each-customers up now ds (violate_one up now id db)

pub handle_auto_post-customers :
    (publish : Post) (now : ℕ) (up : ℕ → Bool) (id : ℕ) (db : Db)
    → (handle_auto_post publish now up id db).customers ≡ db.customers
unfolding handle_auto_post publish_view update_deal_status
handle_auto_post-customers publish now up id db = ground arith

either-customers :
    (b : Bool) (x y db : Db)
    → x.customers ≡ db.customers
    → y.customers ≡ db.customers
    → (if b then x else y).customers ≡ db.customers
either-customers true x y db p q = p
either-customers false x y db p q = q

module _ (up : Served) (now : ℕ) (db : Db) where
  remove_from_channel-customers :
      (channel_up fetch_up : Bool) (channel : ℕ)
      → (remove_from_channel channel_up fetch_up up now channel db).customers ≡ db.customers
  unfolding remove_from_channel
  remove_from_channel-customers channel_up true channel =
      violate_each-customers up now (get_deals_by_channel_excluding_statuses channel db.deals)
        (record db {
          channels = if channel_up then modify channel deactivate db.channels else db.channels;
        })
  remove_from_channel-customers channel_up false channel = refl

  pub handle_bot_removed_from_chat-customers :
      (find_up channel_up fetch_up : Bool) (chat : ℤ)
      → (handle_bot_removed_from_chat find_up channel_up fetch_up up now chat db).customers
        ≡ db.customers
  unfolding handle_bot_removed_from_chat
  handle_bot_removed_from_chat-customers false channel_up fetch_up chat = refl
  handle_bot_removed_from_chat-customers true channel_up fetch_up chat =
      elim (Option-cases (find_channel chat db.channels)) [
        | inl e ↦ rw e refl
        | inr (c, e) ↦ rw e (remove_from_channel-customers channel_up fetch_up c)
      ]

  pub on_channel_post-customers :
      (channel msg : ℕ) → (on_channel_post up now channel msg db).customers ≡ db.customers
  unfolding on_channel_post
  on_channel_post-customers channel msg =
      let ds = get_published_deals_within_top_hours_by_channel channel now db.deals in
      either-customers (is_own_post msg ds) db (violate_each up now (filter (is_punished db) ds) db)
        db refl (violate_each-customers up now (filter (is_punished db) ds) db)

  pub check_published_posts-customers :
      (fetch : Text → ℕ → Option Text) (fetch_up : Bool)
      → (check_published_posts fetch fetch_up up now db).customers ≡ db.customers
  unfolding check_published_posts
  check_published_posts-customers fetch true =
      violate_each-customers up now
        (filter (λ row. check_post_integrity fetch (view_of db row.0 row.1))
          (get_deals_published_active now db.deals))
        db
  check_published_posts-customers fetch false = refl
