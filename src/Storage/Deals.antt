-- ===== src/Storage/Deals.antt =====
-- The deals of internal/modules/storage/deals.go: the updates by key, and the queries of the
-- periodic jobs as filters on the table.
pub mod Update
use tam_backend.Prelude.{
  ltb, leb, ◌==◌, if◌then◌else◌, filter, any, Table, lookup, modify, ℕ, Bool, true, false, not,
  ◌&&◌, Option, none, some, List, [], ◌∷◌,
}
use tam_backend.Common.DealStatus.{
  DealStatus, published, canceled, expired, terms_violated, completed, err_publish, err_bad_target,
  to_int,
}
use tam_backend.Common.Errors.{Error, internal_error, not_found}
use tam_backend.Storage.Schema.{empty_target, Deal}

abbrev pub Deals : Type 0
Deals = Table Deal

abbrev pub DealsUpdated : Type 0
DealsUpdated = Option Error × Deals

abbrev pub status_eq : DealStatus → DealStatus → Bool
status_eq s t = to_int s == to_int t

-- `StatusIn`.
abbrev pub status_in : List DealStatus → DealStatus → Bool
status_in ss s = any (status_eq s) ss

-- `CreateDeal`: an unset target is the column's default, the empty map; nothing is refunded yet.
pub create_deal : Bool → ℕ → Deal → Deals → DealsUpdated
create_deal up id d ds = if not up then (some internal_error, ds) else (
  none,
  (
    id,
    record d {
      target = some (elim d.target [ none ↦ empty_target | some t ↦ t ]);
      top_deadline = none;
      common_deadline = none;
      balance_refunded = false;
    },
  )
      ∷ ds,
)

-- `UpdateDeal`.
unfoldable pub update_deal : Bool → ℕ → (Deal → Deal) → Deals → DealsUpdated
update_deal up id f ds =
    if not up
    then (some internal_error, ds)
    else elim (lookup id ds) [ none ↦ (some not_found, ds) | some d ↦ (none, modify id f ds) ]

abbrev pub of_row : (Deal → Bool) → ℕ × Deal → Bool
of_row p (id, d) = p d

abbrev pub terminal_refund_statuses : List DealStatus
terminal_refund_statuses = canceled ∷ expired ∷ terms_violated ∷ err_publish ∷ err_bad_target ∷ []

abbrev pub needs_refund : Deal → Bool
needs_refund d = status_in terminal_refund_statuses d.status && not d.balance_refunded

-- `GetDealsForRefund`.
unfoldable pub get_deals_for_refund : Deals → Deals
get_deals_for_refund = filter (of_row needs_refund)

abbrev pub excluded_statuses : List DealStatus
excluded_statuses =
    completed ∷ canceled ∷ expired ∷ terms_violated ∷ err_publish ∷ err_bad_target ∷ []

abbrev pub is_open_on : ℕ → Deal → Bool
is_open_on channel d = d.channel_id == channel && not (status_in excluded_statuses d.status)

-- `GetDealsByChannelExcludingStatuses`.
pub get_deals_by_channel_excluding_statuses : ℕ → Deals → Deals
get_deals_by_channel_excluding_statuses channel = filter (of_row (is_open_on channel))

-- A comparison with a column that may be NULL is not true of NULL.
abbrev pub time_test : (ℕ → Bool) → Option ℕ → Bool
time_test p t = elim t [ none ↦ false | some n ↦ p n ]

abbrev pub needs_to_complete : ℕ → Deal → Bool
needs_to_complete now d =
    status_eq d.status published && time_test (λ t. leb t now) d.common_deadline

-- `GetDealsNeedToComplete`.
unfoldable pub get_deals_need_to_complete : ℕ → Deals → Deals
get_deals_need_to_complete now = filter (of_row (needs_to_complete now))

abbrev pub never_expire : List DealStatus
never_expire = canceled ∷ expired ∷ terms_violated ∷ completed ∷ []

abbrev pub is_expired : ℕ → Deal → Bool
is_expired now d =
    ltb d.expires_at now
    && (not (status_eq d.status published) && not (status_in never_expire d.status))

-- `GetExpiredDeals`.
unfoldable pub get_expired_deals : ℕ → Deals → Deals
get_expired_deals now = filter (of_row (is_expired now))

-- `GetDealsByStatus`.
pub get_deals_by_status : DealStatus → Deals → Deals
get_deals_by_status s = filter (of_row (λ d. status_eq d.status s))

abbrev pub is_watched : ℕ → ℕ → Deal → Bool
is_watched channel now d =
    d.channel_id == channel
    && (status_eq d.status published && time_test (λ t. ltb now t) d.top_deadline)

-- `GetPublishedDealsWithinTopHoursByChannel`.
pub get_published_deals_within_top_hours_by_channel : ℕ → ℕ → Deals → Deals
get_published_deals_within_top_hours_by_channel channel now =
    filter (of_row (is_watched channel now))

-- `ChannelPostIdsNotNil`: the column is NULL until posts are recorded.
abbrev pub has_posts : List ℕ → Bool
has_posts [] = false
has_posts (x ∷ xs) = true

abbrev pub is_active : ℕ → Deal → Bool
is_active now d =
    status_eq d.status published
    && (time_test (λ t. ltb now t) d.common_deadline && has_posts d.channel_post_ids)

-- `GetDealsPublishedActive`.
pub get_deals_published_active : ℕ → Deals → Deals
get_deals_published_active now = filter (of_row (is_active now))
