-- ===== src/Server/ChannelData/Providing.antt =====
-- What a served change of a channel's data leaves.
use tam_backend.Prelude.{
  if◌then◌else◌, length, all, ℤ, pos, ◌≤ℤ◌, lookup, modify, is_empty, ℕ, ◌≤◌, ◌≡◌, refl, ◌⊎◌, inl,
  inr, true, some, [], arith,
}
use tam_backend.Common.Errors.{not_found, Result, ok, err, Result-cases}
use tam_backend.Common.Prices.{ChannelPrices, to_map, validate_price, validate_prices}
use tam_backend.Storage.Schema.{awaiting_data, activated, Channel, Db}
use tam_backend.Storage.Views.{get_channel, get_channel-ok}
use tam_backend.Storage.Channels.{update_channel, update_channel-ok}
use tam_backend.Server.Outcome.{success, Outcome, Answers, reply_with}
use tam_backend.Server.ChannelData.{
  Catalogue, is_valid_tag, is_valid_language, ProvideRequest, valid_request, provide,
  is_awaiting_data, with_channel, provide_channel_data,
}

valid_request-limits :
    (cat : Catalogue) (req : ProvideRequest)
    → valid_request cat req ≡ true
    → (length req.description ≤ 400)
      × (1 ≤ length req.tags)
      × (length req.tags ≤ 5)
      × (all (is_valid_tag cat) req.tags ≡ true)
      × (is_valid_language cat req.language ≡ true)
      × (validate_prices req.prices ≡ true)
unfolding valid_request
valid_request-limits cat req h =
    (ground arith, ground arith, ground arith, ground arith, ground arith, ground arith)

-- A price that may be asked for: 1 to 999999 TON, in nanoton.
abbrev pub IsAskable : ℤ → Type 0
IsAskable p = (pos 1000000000 ≤ℤ p) × (p ≤ℤ pos 999999000000000)

validate_prices-limits :
    (p : ChannelPrices)
    → validate_prices p ≡ true
    → IsAskable p.for_1_24
      × ((p.for_2_48 ≡ pos 0) ⊎ IsAskable p.for_2_48)
      × ((p.for_3_72 ≡ pos 0) ⊎ IsAskable p.for_3_72)
unfolding validate_prices validate_price
validate_prices-limits p h = ground arith

-- The row with the data that a request gives: a description that is not given stays, and the channel
-- is on offer from here on.
abbrev pub described : ProvideRequest → Channel → Channel
described req c = record c {
  commentary = if is_empty req.description then c.commentary else req.description;
  main_language = req.language;
  tags = req.tags;
  prices = to_map req.prices;
  is_listed = true;
  status = activated;
}

abbrev Provided : Catalogue → ProvideRequest → Db → Channel → Outcome → Type 0
Provided cat req db c o =
    (c.status ≡ awaiting_data)
    × (valid_request cat req ≡ true)
    × (o
        ≡ reply_with 200 [] (record db { channels = modify req.channel (provide req) db.channels }))

with_channel-success :
    (cat : Catalogue) (up : Answers) (req : ProvideRequest) (db : Db) (r : Result Channel)
    (code : ℕ)
    → (with_channel cat up req db r).reply ≡ success code
    → (c : Channel) × (r ≡ ok c) × Provided cat req db c (with_channel cat up req db r)
unfolding with_channel is_awaiting_data
with_channel-success cat up req db (err not_found) code h = cc
with_channel-success cat up req db (err _) code h = cc
with_channel-success cat up req db (ok c) code h =
    elim (Result-cases (update_channel (up 1) req.channel (provide req) db)) [
      | inl (e, u) ↦ ground (arith, u)
      | inr (db', u) ↦
          let e = update_channel-ok (up 1) req.channel (provide req) db db' u in
          (c, refl, (ground (arith, u), ground (arith, u), ground (arith, u, e)))
    ]

-- If `ProvideChannelData` answers with success, then the channel was waiting for its data, the
-- request has a description of at most 400 bytes, one to five tags of the catalogue, a language of
-- the catalogue, a price of 1 to 999999 TON for the first format, and for each of the others such a
-- price or none; and the channel's row is the one of before with the request's data, listed and
-- activated, every other row is as it was, and nothing is sent.
pub provide_channel_data-success :
    (cat : Catalogue) (up : Answers) (req : ProvideRequest) (db : Db) (code : ℕ)
    → (provide_channel_data cat up req db).reply ≡ success code
    → (c : Channel) × (lookup req.channel db.channels ≡ some c)
      × (c.status ≡ awaiting_data)
      × (length req.description ≤ 400)
      × (1 ≤ length req.tags)
      × (length req.tags ≤ 5)
      × (all (is_valid_tag cat) req.tags ≡ true)
      × (is_valid_language cat req.language ≡ true)
      × IsAskable req.prices.for_1_24
      × ((req.prices.for_2_48 ≡ pos 0) ⊎ IsAskable req.prices.for_2_48)
      × ((req.prices.for_3_72 ≡ pos 0) ⊎ IsAskable req.prices.for_3_72)
      × (provide_channel_data cat up req db
          ≡ reply_with 200 []
              (record db { channels = modify req.channel (described req) db.channels }))
unfolding provide_channel_data
provide_channel_data-success cat up req db code h =
    let (c, g, (waiting, valid, outcome)) =
      with_channel-success cat up req db (get_channel (up 0) req.channel db) code h in
    let (d, t1, t5, ts, l, p) = valid_request-limits cat req valid in
    let (short, middle, long) = validate_prices-limits req.prices p in
    (
      c,
      get_channel-ok (up 0) req.channel db c g,
      waiting,
      d,
      t1,
      t5,
      ts,
      l,
      short,
      middle,
      long,
      outcome,
    )
