-- ===== src/Common/Prices.antt =====
-- internal/common/channel_prices.go and channel_prices_validation.go. Prices are nanoton: a price of
-- 1 TON is 1000000000.
use tam_backend.Prelude.{
  if◌then◌else◌, ℤ, pos, ◌≤ℤ◌, leb_ℤ, ltb_ℤ, Text, text_eq, ℕ, ◌*◌, ◌≡◌, Bool, true, false, not,
  ◌&&◌, List, [], ◌∷◌, arith,
}
use tam_backend.Common.TargetType.{post_1_24, post_2_48, post_3_72, is_valid}

abbrev pub ton : ℕ
ton = 1000000000

abbrev pub min_price : ℤ
min_price = pos ton

abbrev pub max_price : ℤ
max_price = pos (999999 * ton)

pub record ChannelPrices : Type 0 where
  pub for_1_24 : ℤ
  pub for_2_48 : ℤ
  pub for_3_72 : ℤ

-- `map[string]float64`, as the channel's row keeps it.
abbrev pub PriceMap : Type 0
PriceMap = List (Text × ℤ)

-- `m[key]`: 0 where the key is missing.
price_at : PriceMap → Text → ℤ
price_at [] key = pos 0
price_at ((k, v) ∷ m) key = if text_eq key k then v else price_at m key

-- `ChannelPrices.GetPrice`.
unfoldable pub get_price : ChannelPrices → Text → ℤ
get_price p target_type =
    if text_eq target_type post_1_24
    then p.for_1_24
    else if text_eq target_type post_2_48
    then p.for_2_48
    else if text_eq target_type post_3_72
    then p.for_3_72
    else pos 0

-- An optional price is stored if it is positive.
abbrev optional_price : Text → ℤ → PriceMap → PriceMap
optional_price key v m = if ltb_ℤ (pos 0) v then (key, v) ∷ m else m

-- `ChannelPrices.ToMap`.
unfoldable pub to_map : ChannelPrices → PriceMap
to_map p =
    (post_1_24, p.for_1_24)
    ∷ optional_price post_2_48 p.for_2_48 (optional_price post_3_72 p.for_3_72 [])

-- `ChannelPricesFromMap`; the nil map is the empty one.
unfoldable pub channel_prices_from_map : PriceMap → ChannelPrices
unfolding price_at
channel_prices_from_map m = record {
  for_1_24 = price_at m post_1_24;
  for_2_48 = price_at m post_2_48;
  for_3_72 = price_at m post_3_72;
}

-- `ValidatePrice`: whether it returns no error.
unfoldable pub validate_price : ℤ → Bool → Bool
validate_price price required =
    if not required && (leb_ℤ price (pos 0) && leb_ℤ (pos 0) price)
    then true
    else not (ltb_ℤ price min_price) && not (ltb_ℤ max_price price)

-- The three tests of `ProvideChannelData`.
unfoldable pub validate_prices : ChannelPrices → Bool
unfolding validate_price
validate_prices p =
    validate_price p.for_1_24 true
    && (validate_price p.for_2_48 false && validate_price p.for_3_72 false)

from-to :
    (a b c : ℤ)
    → (pos 0 ≤ℤ b)
    → (pos 0 ≤ℤ c)
    → channel_prices_from_map (to_map (record { for_1_24 = a; for_2_48 = b; for_3_72 = c }))
      ≡ record { for_1_24 = a; for_2_48 = b; for_3_72 = c }
unfolding channel_prices_from_map to_map text_eq
from-to a b c hb hc = ground arith

-- Validated prices are read back from the map as they were written, although a price of 0 is not
-- stored.
channel_prices_from_map-to_map :
    (p : ChannelPrices) → validate_prices p ≡ true → channel_prices_from_map (to_map p) ≡ p
unfolding validate_prices
channel_prices_from_map-to_map p h =
    from-to p.for_1_24 p.for_2_48 p.for_3_72 (ground arith) (ground arith)

-- With validated prices, a target type for which a positive price is found is a valid target type,
-- and the price lies between 1 and 999999 TON.
get_price-bounds :
    (p : ChannelPrices) (t : Text)
    → validate_prices p ≡ true
    → ¬ (get_price p t ≤ℤ pos 0)
    → (is_valid t ≡ true) × (min_price ≤ℤ get_price p t) × (get_price p t ≤ℤ max_price)
unfolding validate_prices get_price is_valid
get_price-bounds p t h k = ground arith
