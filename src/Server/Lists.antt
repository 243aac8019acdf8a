-- ===== src/Server/Lists.antt =====
-- The paginated lists: `ListDeals` of internal/modules/server/deal_handlers.go, `ListChannels` of
-- channel_handlers.go, and the queries of internal/modules/storage behind them. The rows have no
-- column for their creation: what `ORDER BY created_at` makes of the rows is the parameter `sort_by`.
-- Statement 0 counts, statement 1 reads.
pub mod Pages
use tam_backend.Prelude.{
  ◌==◌, if◌then◌else◌, filter, any, ℤ, pos, Table, Text, ℕ, Bool, ◌&&◌, ◌||◌, Option, none, some,
  List,
}
use tam_backend.Common.Errors.{unauthorized, invalid_request, internal_error, Result, ok, err}
use tam_backend.Common.Pagination.{
  options, refused, validate_and_normalize_page_options, Page, page_of, page_refused, paginate,
}
use tam_backend.Storage.Schema.{Channel, CustomerChannel, Deal, Db}
use tam_backend.Storage.Channels.{is_link}
use tam_backend.Server.Outcome.{Answers}

-- `common.PageOptions`.
pub record PageRequest : Type 0 where
  pub page : ℤ
  pub size : ℤ
  pub order : Text

-- A page of rows and the count of all of them.
abbrev pub Listed {ℓ} : Type ℓ → Type ℓ
Listed A = Result (List (ℕ × A) × ℕ)

-- `Paginate`, when the database may fail, and the handlers' answer to its error.
abbrev pub with_page {ℓ} : {A : Type ℓ} → Answers → Page (ℕ × A) → Listed A
with_page up page_refused = err internal_error
with_page up (page_of xs n) = if up 0 && up 1 then ok (xs, n) else err internal_error

abbrev pub query_page {ℓ} : {A : Type ℓ} → Answers → ℕ → ℕ → Table A → Listed A
query_page up page size rows = with_page up (paginate (pos page) (pos size) rows)

-- What the database does by `ORDER BY created_at`, with the order that is asked for.
abbrev pub SortBy {ℓ} : Type ℓ → Type ℓ
SortBy A = Text → Table A → Table A

abbrev pub is_party : ℕ → ℕ × Deal → Bool
is_party u (id, d) = d.advertiser_customer_id == u || d.channel_manager_id == u

-- `GetUserDealsPaginated`.
abbrev pub get_user_deals_paginated : SortBy Deal → Answers → ℕ → ℕ → ℕ → Text → Db → Listed Deal
get_user_deals_paginated sort_by up u page size order db =
    query_page up page size (sort_by order (filter (is_party u) db.deals))

-- `ListDeals`; `body` is what `c.Bind` reads.
unfoldable pub list_deals : SortBy Deal → Answers → Option ℕ → Option PageRequest → Db → Listed Deal
list_deals sort_by up user none db = err invalid_request
list_deals sort_by up user (some req) db =
    elim (validate_and_normalize_page_options req.page req.size req.order) [
      | refused e ↦ err invalid_request
      | options page size order ↦ elim user [
        | none ↦ err unauthorized
        | some u ↦ get_user_deals_paginated sort_by up u page size order db
      ]
    ]

abbrev pub is_listed_row : ℕ × Channel → Bool
is_listed_row (id, c) = c.is_listed

-- `GetListedChannelsPaginated`.
abbrev pub get_listed_channels_paginated :
    SortBy Channel → Answers → ℕ → ℕ → Text → Db → Listed Channel
get_listed_channels_paginated sort_by up page size order db =
    query_page up page size (sort_by order (filter is_listed_row db.channels))

-- There is no role but the two of `RoleIn`.
abbrev pub is_linked_row : ℕ → List CustomerChannel → ℕ × Channel → Bool
is_linked_row u ccs (id, c) = any (is_link u id) ccs

-- `GetCustomerChannelsPaginated`.
abbrev pub get_customer_channels_paginated :
    SortBy Channel → Answers → ℕ → ℕ → ℕ → Text → Db → Listed Channel
get_customer_channels_paginated sort_by up u page size order db =
    query_page up page size
      (sort_by order (filter (is_linked_row u db.customer_channels) db.channels))

-- `ListChannels`; `mine` is the request's `MyChannels`.
unfoldable pub list_channels :
    SortBy Channel → Answers → Option ℕ → Bool → Option PageRequest → Db → Listed Channel
list_channels sort_by up user mine none db = err invalid_request
list_channels sort_by up user mine (some req) db =
    elim (validate_and_normalize_page_options req.page req.size req.order) [
      | refused e ↦ err invalid_request
      | options page size order ↦
          if mine
          then elim user [
            | none ↦ err unauthorized
            | some u ↦ get_customer_channels_paginated sort_by up u page size order db
          ]
          else get_listed_channels_paginated sort_by up page size order db
    ]
