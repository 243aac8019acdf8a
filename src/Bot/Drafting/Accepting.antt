-- ===== src/Bot/Drafting/Accepting.antt =====
-- What becomes of a draft that its user confirms: `acceptPost`, and `handleAutoPost` after it.
use tam_backend.Prelude.{
  Bool-cases, lookup, modify, lookup-modify-some, ℕ, ◌≡◌, refl, inl, inr, Bool, true, false, Option,
  none, some, List, arith,
}
use tam_backend.Storage.Schema.{Channel, MsgData, Target, Deal, Db}
use tam_backend.Storage.Views.{view_of, get_deal}
use tam_backend.Bot.States.{BotStateKind, Draft, draft_data, BotState, get_state}
use tam_backend.Storage.Deals.Update.{update_deal-served}
use tam_backend.Common.Errors.{ok}
use tam_backend.Bot.Publishing.{
  Post, is_blank, content_of, in_order, send_content, posted, publish_view, handle_auto_post,
}
use tam_backend.Bot.Drafting.{
  msg_of, accepted_target, old_target, set_target, Desk, with_accepted, accept_post,
}

send_content-some :
    (post : Post) (m : MsgData) (ids : List ℕ)
    → send_content post m ≡ some ids
    → (is_blank m ≡ false) × (post (in_order m) ≡ some ids)
unfolding send_content
send_content-some post m ids h = (ground arith, ground arith)

send_content-posted :
    (post : Post) (m : MsgData) (ids : List ℕ)
    → is_blank m ≡ false
    → post (in_order m) ≡ some ids
    → send_content post m ≡ some ids
unfolding send_content
send_content-posted post m ids b h = rw (b, h) refl

content_of-accepted :
    (m : MsgData) (old : Option Target)
    → is_blank m ≡ false
    → (content_of (accepted_target m old) ≡ m) × ((accepted_target m old).well_formed ≡ true)
unfolding content_of accepted_target
content_of-accepted m none b = (rw b refl, refl)
content_of-accepted m (some t) b = elim (Bool-cases t.well_formed) [
  | inl e ↦ rw e (rw b refl, refl)
  | inr e ↦ rw e (rw b refl, refl)
]

-- A state with a draft for the deal `k`, whatever its kind.
abbrev pub state_with : BotStateKind → ℕ → Draft → BotState
state_with kind k d = record { state = kind; deal_id = k; state_data = draft_data d }

-- The target that a confirmed draft gives a deal.
abbrev pub target_after : (ℕ → Bool) → ℕ → Draft → Db → Target
target_after up k d db = accepted_target (msg_of d) (old_target (get_deal (up 0) k db))

accept_post-saves :
    (post : Post) (up : ℕ → Bool) (user : ℕ) (kind : BotStateKind) (k : ℕ) (d : Draft) (desk : Desk)
    (deal : Deal) (ids : List ℕ)
    → lookup user desk.desk_states ≡ some (state_with kind k d)
    → send_content post (msg_of d) ≡ some ids
    → lookup k desk.desk_db.deals ≡ some deal
    → up 1 ≡ true
    → (accept_post post true up user desk).desk_db ≡ record desk.desk_db {
      deals = modify k (set_target (target_after up k d desk.desk_db)) desk.desk_db.deals;
    }
unfolding accept_post get_state with_accepted
accept_post-saves post up user kind k d desk deal ids l p t served =
    let saved =
      update_deal-served k (set_target (target_after up k d desk.desk_db)) desk.desk_db.deals deal
        t in
    rw (l, p, served, saved) refl

get_deal-served :
    (k : ℕ) (db : Db) (deal : Deal)
    → lookup k db.deals ≡ some deal
    → get_deal true k db ≡ ok (view_of db k deal)
unfolding get_deal
get_deal-served k db deal l = rw l refl

publish_view-served :
    (post : Post) (now : ℕ) (up : ℕ → Bool) (k : ℕ) (db : Db) (deal : Deal) (t : Target)
    (c : Channel) (ids : List ℕ)
    → lookup k db.deals ≡ some (set_target t deal)
    → t.well_formed ≡ true
    → lookup deal.channel_id db.channels ≡ some c
    → send_content post (content_of t) ≡ some ids
    → up 1 ≡ true
    → lookup k (publish_view post now up (view_of db k (set_target t deal)) db).deals
      ≡ some (posted now deal.target_type ids (set_target t deal))
unfolding publish_view
publish_view-served post now up k db deal t c ids l formed ch sent up1 =
    let update =
      update_deal-served k (posted now deal.target_type ids) db.deals (set_target t deal) l in
    simp (formed, ch, sent, up1, update)
      (lookup-modify-some k (posted now deal.target_type ids) db.deals (set_target t deal) l)

-- A served `handleAutoPost` of a deal with a target that can be read.
handle_auto_post-served :
    (post : Post) (now : ℕ) (up : ℕ → Bool) (k : ℕ) (db : Db) (deal : Deal) (t : Target)
    (c : Channel) (ids : List ℕ)
    → lookup k db.deals ≡ some (set_target t deal)
    → t.well_formed ≡ true
    → lookup deal.channel_id db.channels ≡ some c
    → send_content post (content_of t) ≡ some ids
    → up 0 ≡ true
    → up 1 ≡ true
    → lookup k (handle_auto_post post now up k db).deals
      ≡ some (posted now deal.target_type ids (set_target t deal))
unfolding handle_auto_post
handle_auto_post-served post now up k db deal t c ids l formed ch sent up0 up1 =
    rw (up0, get_deal-served k db (set_target t deal) l, handle_auto_post)
      (publish_view-served post now up k db deal t c ids l formed ch sent up1)

-- A confirmed draft becomes the post data of its deal, whatever the status of the deal, and the bot
-- then publishes that draft: if the bot's state of a user has a draft for a deal, Telegram takes the
-- draft, and the database serves it, then after `acceptPost` and `handleAutoPost` the deal is
-- published with the messages that Telegram has made of that draft.
pub accept_post-published :
    (post : Post) (up : ℕ → Bool) (user : ℕ) (kind : BotStateKind) (k : ℕ) (d : Draft) (desk : Desk)
    (deal : Deal) (ids : List ℕ)
    → lookup user desk.desk_states ≡ some (state_with kind k d)
    → send_content post (msg_of d) ≡ some ids
    → lookup k desk.desk_db.deals ≡ some deal
    → up 1 ≡ true
    → (post' : Post) (now : ℕ) (up' : ℕ → Bool) (c : Channel) (ids' : List ℕ)
    → lookup deal.channel_id desk.desk_db.channels ≡ some c
    → post' (in_order (msg_of d)) ≡ some ids'
    → up' 0 ≡ true
    → up' 1 ≡ true
    → let db' = (accept_post post true up user desk).desk_db in
      lookup k (handle_auto_post post' now up' k db').deals
      ≡ some (posted now deal.target_type ids' (set_target (target_after up k d desk.desk_db) deal))
accept_post-published post up user kind k d desk deal ids l p t served post' now up' c ids' ch p'
      up0 up1 =
    let t' = target_after up k d desk.desk_db in
    let (visible, taken) = send_content-some post (msg_of d) ids p in
    let (same, formed) =
      content_of-accepted (msg_of d) (old_target (get_deal (up 0) k desk.desk_db)) visible in
    let saved = accept_post-saves post up user kind k d desk deal ids l p t served in
    let row = lookup-modify-some k (set_target t') desk.desk_db.deals deal t in
    let sent = send_content-posted post' (msg_of d) ids' visible p' in
    rw saved (
      handle_auto_post-served post' now up' k
        (record desk.desk_db { deals = modify k (set_target t') desk.desk_db.deals }) deal t' c ids'
        row formed ch (rw same sent) up0 up1)
