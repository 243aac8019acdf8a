-- ===== src/Server/Lists/Pages.antt =====
-- The pages of a list, one behind the other.
use mathlib.Core.List.{Permᴰ}
use tam_backend.Prelude.{
  length, take, filter, pos, Text, codes, ℕ, zero, suc, ◌*◌, ◌≤◌, ◌≡◌, refl, ap, ◌∙◌, ◌⊎◌, true,
  false, Option, some, List, [], ◌∷◌, ◌++◌, arith,
}
use tam_backend.Common.Errors.{ok, err}
use tam_backend.Common.Pagination.{
  Page, page_of, page_refused, paginate, page_rows, first_pages, options_again, first_pages_lem,
}
use tam_backend.Storage.Schema.{Channel, Deal, Db}
use tam_backend.Server.Lists.{
  Listed, with_page, SortBy, is_party, list_deals, is_listed_row, list_channels,
}

abbrev pub listed_rows {ℓ} : {A : Type ℓ} → Listed A → List (ℕ × A)
listed_rows (ok (rows, n)) = rows
listed_rows (err e) = []

-- The rows on the pages 1 to n of the deals of a user, which the database serves.
abbrev pub deal_pages : SortBy Deal → ℕ → ℕ → ℕ → Text → Db → List (ℕ × Deal)
deal_pages sort_by u zero size order db = []
deal_pages sort_by u (suc n) size order db =
    deal_pages sort_by u n size order db
    ++ listed_rows (
        list_deals sort_by (λ k. true) (some u)
          (some (record { page = pos (suc n); size = pos size; order = order })) db)

-- The rows on the pages 1 to n of the listed channels, which the database serves.
abbrev pub channel_pages : SortBy Channel → Option ℕ → ℕ → ℕ → Text → Db → List (ℕ × Channel)
channel_pages sort_by user zero size order db = []
channel_pages sort_by user (suc n) size order db =
    channel_pages sort_by user n size order db
    ++ listed_rows (
        list_channels sort_by (λ k. true) user false
          (some (record { page = pos (suc n); size = pos size; order = order })) db)

with_page-rows {ℓ} :
    {A : Type ℓ} (p : Page (ℕ × A)) → listed_rows (with_page (λ k. true) p) ≡ page_rows p
with_page-rows page_refused = refl
with_page-rows (page_of xs n) = refl

take-all {ℓ} : {A : Type ℓ} (n : ℕ) (xs : List A) → length xs ≤ n → take n xs ≡ xs
take-all zero [] h = refl
take-all zero (x ∷ xs) h = ground (arith, h)
take-all (suc n) [] h = refl
take-all (suc n) (x ∷ xs) h = ap (λ ys. x ∷ ys) (take-all n xs (omega arith))

length-Permᴰ {ℓ} : {A : Type ℓ} {xs ys : List A} → Permᴰ xs ys → length xs ≡ length ys
length-Permᴰ Permᴰ.nil = refl
length-Permᴰ (Permᴰ.cons e p) = ap suc (length-Permᴰ p)
length-Permᴰ (Permᴰ.swap e f) = refl
length-Permᴰ (Permᴰ.trans p q) = length-Permᴰ p ∙ length-Permᴰ q

module _ (size : ℕ) (order : Text) (db : Db) (some_rows : 1 ≤ size) (few : size ≤ 100)
    (known : (order ≡ codes "ASC") ⊎ (order ≡ codes "DESC")) where
  deal_pages-first :
      (sort_by : SortBy Deal) (u n : ℕ)
      → deal_pages sort_by u n size order db
        ≡ first_pages n size (sort_by order (filter (is_party u) db.deals))
  unfolding list_deals
  deal_pages-first sort_by u zero = refl
  deal_pages-first sort_by u (suc n) =
      rw
        (
          options_again (suc n) size order (omega arith) some_rows few known,
          list_deals,
          deal_pages-first sort_by u n,
        )
        (ap (λ rows. first_pages n size (sort_by order (filter (is_party u) db.deals)) ++ rows)
          (with_page-rows
            (paginate (pos (suc n)) (pos size) (sort_by order (filter (is_party u) db.deals)))))

  channel_pages-first :
      (sort_by : SortBy Channel) (user : Option ℕ) (n : ℕ)
      → channel_pages sort_by user n size order db
        ≡ first_pages n size (sort_by order (filter is_listed_row db.channels))
  unfolding list_channels
  channel_pages-first sort_by user zero = refl
  channel_pages-first sort_by user (suc n) =
      rw
        (
          options_again (suc n) size order (omega arith) some_rows few known,
          list_channels,
          channel_pages-first sort_by user n,
        )
        (ap (λ rows. first_pages n size (sort_by order (filter is_listed_row db.channels)) ++ rows)
          (with_page-rows
            (paginate (pos (suc n)) (pos size) (sort_by order (filter is_listed_row db.channels)))))

  module _ (n : ℕ) (within : n * size ≤ 9223372036854775807) where
    all-pages {ℓ} :
        {A : Type ℓ} (rows sorted : List A)
        → Permᴰ sorted rows
        → length rows ≤ n * size
        → Permᴰ (first_pages n size sorted) rows
    all-pages rows sorted perm fits =
        let short : length sorted ≤ n * size = omega (arith, length-Permᴰ perm) in
        rw (first_pages_lem n size sorted some_rows few within, take-all (n * size) sorted short)
          perm

    -- Walking through the pages of ListDeals shows a user every deal in which this user is the
    -- advertiser or the manager, each once, and no other deal: if the database serves the requests, puts
    -- the rows in the same order for each of them, and the pages have room for all, for a size from 1 to
    -- 100 and an order that is known.
    pub deal_pages-perm :
        (sort_by : SortBy Deal) (u : ℕ)
        → Permᴰ (sort_by order (filter (is_party u) db.deals)) (filter (is_party u) db.deals)
        → length (filter (is_party u) db.deals) ≤ n * size
        → Permᴰ (deal_pages sort_by u n size order db) (filter (is_party u) db.deals)
    deal_pages-perm sort_by u perm fits = rw (deal_pages-first sort_by u n) (
        all-pages (filter (is_party u) db.deals) (sort_by order (filter (is_party u) db.deals)) perm
          fits)

    -- Walking through the pages of ListChannels shows everybody, logged in or not, every listed channel,
    -- each once, and no other: if the database serves the requests, puts the rows in the same order for
    -- each of them, and the pages have room for all, for a size from 1 to 100 and an order that is known.
    channel_pages-perm :
        (sort_by : SortBy Channel) (user : Option ℕ)
        → Permᴰ
            (sort_by order (filter is_listed_row db.channels))
            (filter is_listed_row db.channels)
        → length (filter is_listed_row db.channels) ≤ n * size
        → Permᴰ (channel_pages sort_by user n size order db) (filter is_listed_row db.channels)
    channel_pages-perm sort_by user perm fits = rw (channel_pages-first sort_by user n) (
        all-pages (filter is_listed_row db.channels)
          (sort_by order (filter is_listed_row db.channels)) perm fits)
