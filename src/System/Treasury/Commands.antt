-- ===== src/System/Treasury/Commands.antt =====
-- The test commands and the chat of internal/modules/telegram_bot and the money of the customers.
use tam_backend.Prelude.{
  Bool-cases, Option-cases, pos, ◌+ℤ◌, ◌≤ℤ◌, int_laws, lookup, Text, ℕ, ◌≡◌, refl, ◌∙◌, inl, inr,
  Bool, Option, none, some,
}
use tam_backend.Common.Errors.{Result-cases}
use tam_backend.Storage.Schema.{admin, Db}
use tam_backend.Storage.Customers.Money.{total, total-modify}
use tam_backend.Storage.Profiles.{get_customer_by_tg_id, has_conflict, update_customer}
use tam_backend.Storage.Channels.{create_channel, add_customer_channel}
use tam_backend.Storage.Channels.Sparing.{create_channel-Spares, add_customer_channel-Spares}
use tam_backend.Storage.Deals.{DealsUpdated, update_deal}
use tam_backend.Storage.Views.{get_deal}
use tam_backend.Bot.States.{BotState, States, get_state, draft_of}
use tam_backend.Bot.Publishing.{Post, send_content}
use tam_backend.Bot.Drafting.{
  msg_of, has_data, accepted_target, old_target, set_target, Desk, after_save, with_accepted,
  accept_post,
}
use tam_backend.Bot.Dialogs.{
  Chatting, text_sent, media_sent, answer_pressed, cancel_pressed, accept_pressed, timer_fired,
  chat,
}
use tam_backend.Bot.Commands.{
  top_up_ton, topped_up, top_up, test_channel, test_add, pub_key, published_now, after_pub, pub_now,
}

update_topped_up :
    (up : Bool) (id : ℕ) (db : Db)
    → total (update_customer up id topped_up db).1.customers ≤ℤ total db.customers +ℤ top_up_ton
unfolding update_customer
update_topped_up up id db = elim (Bool-cases up) [
  | inr e ↦ rw e (omega int_laws)
  | inl e ↦ elim (Option-cases (lookup id db.customers)) [
    | inl l ↦ rw (e, l) (omega int_laws)
    | inr (c, l) ↦ elim (Bool-cases (has_conflict id (topped_up c) db.customers)) [
      | inl h ↦ rw (e, l, h) (omega int_laws)
      | inr h ↦ rw (e, l, h) (grind (int_laws, total-modify id top_up_ton (pos 0) c db.customers l))
    ]
  ]
]

pub top_up-total :
    (up : ℕ → Bool) (user : ℕ) (db : Db)
    → total (top_up up user db).customers ≤ℤ total db.customers +ℤ top_up_ton
unfolding top_up
top_up-total up user db = elim (Result-cases (get_customer_by_tg_id (up 0) user db)) [
  | inl (e, p) ↦ rw (p, top_up) (omega int_laws)
  | inr ((id, c), p) ↦ rw (p, top_up) (update_topped_up (up 1) id db)
]

pub test_add-customers :
    (up : ℕ → Bool) (id user : ℕ) (db : Db) → (test_add up id user db).customers ≡ db.customers
unfolding test_add
test_add-customers up id user db = elim (Result-cases (get_customer_by_tg_id (up 0) user db)) [
  | inl (e, p) ↦ rw (p, test_add) refl
  | inr ((u, c), p) ↦ elim (Result-cases (create_channel (up 1) id test_channel db)) [
    | inl (e, q) ↦ rw (p, q, test_add) refl
    | inr (db', q) ↦
        let kept = rw q at (create_channel-Spares (up 1) id test_channel db) in
        elim (Result-cases (add_customer_channel (up 2) u id admin db')) [
          | inl (e, r) ↦ rw (p, q, r, test_add) kept
          | inr (db'', r) ↦
              rw (p, q, r, test_add)
                ((rw r at (add_customer_channel-Spares (up 2) u id admin db')) ∙ kept)
        ]
  ]
]

after_pub-customers :
    (room : Bool) (id : ℕ) (db : Db) (u : DealsUpdated)
    → (after_pub room id db u).0.customers ≡ db.customers
after_pub-customers room id db (some e, ds) = refl
after_pub-customers room id db (none, ds) = refl

pub pub_now-customers :
    (parse : Text → Option ℕ) (up : ℕ → Bool) (room : Bool) (now : ℕ) (text : Text) (db : Db)
    → (pub_now parse up room now text db).0.customers ≡ db.customers
unfolding pub_now
pub_now-customers parse up room now text db = elim (Option-cases (pub_key parse text)) [
  | inl k ↦ rw (k, pub_now) refl
  | inr (id, k) ↦ elim (Result-cases (get_deal (up 0) id db)) [
    | inl (e, g) ↦ rw (k, g, pub_now) refl
    | inr (v, g) ↦
        rw (k, g, pub_now)
          (after_pub-customers room id db (update_deal (up 1) id (published_now now) db.deals))
  ]
]

after_save-customers :
    (up : ℕ → Bool) (user : ℕ) (states : States) (db : Db) (u : DealsUpdated)
    → (after_save up user states db u).desk_db.customers ≡ db.customers
after_save-customers up user states db (some e, ds) = refl
after_save-customers up user states db (none, ds) = refl

with_accepted-customers :
    (post : Post) (up : ℕ → Bool) (user : ℕ) (s : Option BotState) (desk : Desk)
    → (with_accepted post up user s desk).desk_db.customers ≡ desk.desk_db.customers
unfolding with_accepted
with_accepted-customers post up user none desk = refl
with_accepted-customers post up user (some s) desk = elim (Bool-cases (has_data s.state_data)) [
  | inr h ↦ rw h refl
  | inl h ↦ elim (Option-cases (send_content post (msg_of (draft_of s.state_data)))) [
    | inl c ↦ rw (h, c) refl
    | inr (ids, c) ↦
        rw (h, c)
          (after_save-customers up user desk.desk_states desk.desk_db (
            update_deal (up 1) s.deal_id
              (set_target (
                accepted_target (msg_of (draft_of s.state_data))
                  (old_target (get_deal (up 0) s.deal_id desk.desk_db))))
              desk.desk_db.deals))
  ]
]

accept_post-customers :
    (post : Post) (read_up : Bool) (up : ℕ → Bool) (user : ℕ) (desk : Desk)
    → (accept_post post read_up up user desk).desk_db.customers ≡ desk.desk_db.customers
unfolding accept_post
accept_post-customers post read_up up user desk =
    elim (Result-cases (get_state read_up user desk.desk_states)) [
      | inl (e, p) ↦ rw (p, accept_post) refl
      | inr (s, p) ↦ rw (p, accept_post) (with_accepted-customers post up user s desk)
    ]

pub chat-customers :
    (post : Post) (deliver : ℕ → Bool) (read_up : Bool) (up : ℕ → Bool) (user : ℕ) (c : Chatting)
    (desk : Desk)
    → (chat post deliver read_up up user c desk).desk_db.customers ≡ desk.desk_db.customers
unfolding chat
chat-customers post deliver read_up up user (text_sent t) desk = refl
chat-customers post deliver read_up up user (media_sent m) desk = refl
chat-customers post deliver read_up up user (answer_pressed a) desk = refl
chat-customers post deliver read_up up user cancel_pressed desk = refl
chat-customers post deliver read_up up user accept_pressed desk =
    accept_post-customers post read_up up user desk
chat-customers post deliver read_up up user timer_fired desk = refl
