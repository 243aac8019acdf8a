-- ===== src/Bot/Monitoring.antt =====
-- internal/modules/telegram_bot: channel_monitoring.go and post_monitoring.go. The page that
-- `checkPostViaTMe` fetches is the parameter `fetch`, `none` being an error of the request.
use tam_backend.Prelude.{
  ltb, ◌==◌, if◌then◌else◌, length, drop, filter, any, ℤ, leb_ℤ, Table, modify, Text, codes,
  is_empty, trim_at, ℕ, zero, suc, ◌+◌, ◌/◌, ◌%◌, Bool, true, false, not, ◌&&◌, ◌||◌, Option, none,
  some, [], ◌∷◌, ◌++◌,
}
use tam_backend.Common.DealStatus.{terms_violated}
use tam_backend.Common.TargetType.{params, parse_deal_target_type_to_params}
use tam_backend.Storage.Schema.{unactivated, Channel, Deal, Db}
use tam_backend.Storage.Deals.{
  Deals, get_deals_by_channel_excluding_statuses, get_published_deals_within_top_hours_by_channel,
  get_deals_published_active,
}
use tam_backend.Storage.Views.{DealView, view_of}
use tam_backend.Bot.Publishing.{update_deal_status}

-- Which statements are served, by deal.
abbrev pub Served : Type 0
Served = ℕ → Bool

unfoldable pub violate_one : Served → ℕ → ℕ → Db → Db
unfolding update_deal_status
violate_one up now id db = update_deal_status (up id) now id terms_violated db

unfoldable pub violate_each : Served → ℕ → Deals → Db → Db
violate_each up now [] db = db
violate_each up now ((id, d) ∷ ds) db = violate_each up now ds (violate_one up now id db)

-- `GetChannelByTgID`, without an error of the database.
pub find_channel : ℤ → Table Channel → Option ℕ
find_channel chat [] = none
find_channel chat ((id, c) ∷ t) =
    if leb_ℤ chat c.tg_id && leb_ℤ c.tg_id chat then some id else find_channel chat t

abbrev pub deactivate : Channel → Channel
deactivate c = record c { status = unactivated }

-- What `handleBotRemovedFromChat` does once the channel is found: the channel is deactivated, and
-- every deal of it that is not over has its terms violated.
unfoldable pub remove_from_channel : Bool → Bool → Served → ℕ → ℕ → Db → Db
unfolding violate_each
remove_from_channel channel_up fetch_up up now channel db =
    let channels' = if channel_up then modify channel deactivate db.channels else db.channels in
    let db' = record db { channels = channels' } in
    if fetch_up
    then violate_each up now (get_deals_by_channel_excluding_statuses channel db'.deals) db'
    else db'

-- `handleBotRemovedFromChat`.
unfoldable pub handle_bot_removed_from_chat : Bool → Bool → Bool → Served → ℕ → ℤ → Db → Db
unfolding remove_from_channel find_channel
handle_bot_removed_from_chat find_up channel_up fetch_up up now chat db =
    if not find_up then db else elim (find_channel chat db.channels) [
      | none ↦ db
      | some channel ↦ remove_from_channel channel_up fetch_up up now channel db
    ]

abbrev pub is_own_post : ℕ → Deals → Bool
is_own_post msg ds = any (λ row. any (λ id. id == msg) row.1.channel_post_ids) ds

-- Both edges were loaded and the target type parses; else `onChannelPost` skips the deal.
abbrev has_parties : DealView → Bool
has_parties v = elim v.advertiser [
  | none ↦ false
  | some a ↦ elim v.channel_manager [ none ↦ false | some m ↦ true ]
]

abbrev parses : Text → Bool
parses t = elim (parse_deal_target_type_to_params t) [ params a b c ↦ true | _ ↦ false ]

abbrev pub is_punished : Db → ℕ × Deal → Bool
is_punished db (id, d) = has_parties (view_of db id d) && parses d.target_type

-- `onChannelPost` for the message `msg` in the channel: another post within the top hours of a
-- published deal violates its terms.
unfoldable pub on_channel_post : Served → ℕ → ℕ → ℕ → Db → Db
unfolding violate_each
on_channel_post up now channel msg db =
    let ds = get_published_deals_within_top_hours_by_channel channel now db.deals in
    if is_own_post msg ds then db else violate_each up now (filter (is_punished db) ds) db

starts_with : Text → Text → Bool
starts_with [] s = true
starts_with (c ∷ p) [] = false
starts_with (c ∷ p) (d ∷ s) = c == d && starts_with p s

-- What stands behind the first occurrence of a text, as `bytes.Index` finds it.
after : Text → Text → Option Text
unfolding starts_with
after p [] = if is_empty p then some [] else none
after p (c ∷ s) =
    let later = after p s in if starts_with p (c ∷ s) then some (drop (length p) (c ∷ s)) else later

-- What stands in front of the first occurrence, all of it where there is none.
before : Text → Text → Text
unfolding starts_with
before p [] = []
before p (c ∷ s) = let rest = before p s in if starts_with p (c ∷ s) then [] else c ∷ rest

abbrev data_post : Text
data_post = codes "data-post=\""

abbrev meta_span : Text
meta_span = codes "tgme_widget_message_meta\">"

-- `checkPostViaTMe` on the text that names the post: whether the post is there, and edited.
pub check_post_via_tme : Text → Option Text → Bool × Bool
unfolding after before
check_post_via_tme name none = (false, false)
check_post_via_tme name (some body) = elim (after (data_post ++ name ++ codes "\"") body) [
  | none ↦ (false, false)
  | some tail ↦ elim (after meta_span (before data_post tail)) [
    | none ↦ (true, false)
    | some meta ↦ (true, starts_with (codes "edited") meta)
  ]
]

-- `strconv.Itoa` of a number with at most the given number of digits.
unfoldable pub itoa : ℕ → ℕ → Text → Text
itoa zero n out = out
itoa (suc f) n out =
    let more = itoa f (n / 10) ((b'0' + n % 10) ∷ out) in
    if ltb n 10 then (b'0' + n) ∷ out else more

-- The name of a post on the page; 20 digits hold every 64-bit number.
pub post_name : Text → ℕ → Text
unfolding itoa
post_name username id = trim_at username ++ b'/' ∷ itoa 20 id []

-- `checkPostIntegrity`: whether the terms are violated. A fetch that fails counts as a missing post.
pub check_post_integrity : (Text → ℕ → Option Text) → DealView → Bool
unfolding check_post_via_tme post_name
check_post_integrity fetch v = elim v.channel [
  | none ↦ false
  | some c ↦ if is_empty c.tg_username then false else elim v.deal.channel_post_ids [
    | [] ↦ false
    | id ∷ ids ↦
        let (exists, edited) =
          check_post_via_tme (post_name c.tg_username id) (fetch c.tg_username id) in
        not exists || edited
  ]
]

-- `checkPublishedPosts`.
unfoldable pub check_published_posts : (Text → ℕ → Option Text) → Bool → Served → ℕ → Db → Db
unfolding violate_each check_post_integrity
check_published_posts fetch fetch_up up now db =
    if fetch_up
    then violate_each up now
        (filter (λ row. check_post_integrity fetch (view_of db row.0 row.1))
          (get_deals_published_active now db.deals))
        db
    else db
