-- ===== src/Common/TargetType.antt =====
-- internal/common/constants/deal_target_type and `parsePostDuration` of
-- internal/modules/telegram_bot/util.go: the kinds of posts and the hours that their names hold.
use tam_backend.Prelude.{
  Bool-cases, length, ℤ, pos, negsuc, signed_64, Text, codes, text_eq, text_eq_sound, split, atoi,
  ℕ, suc, ◌+◌, ◌-◌, ◌*◌, ◌/◌, ◌%◌, ◌≤◌, ◌≡◌, ap, ◌∙◌, inl, inr, Bool, true, false, ◌||◌, Option,
  none, some, List, [], ◌∷◌, arith,
}

abbrev pub post_1_24 : Text
post_1_24 = codes "post_1_24"

abbrev pub post_2_48 : Text
post_2_48 = codes "post_2_48"

abbrev pub post_3_72 : Text
post_3_72 = codes "post_3_72"

-- `DealTargetType.IsValid`.
unfoldable pub is_valid : Text → Bool
is_valid t = text_eq t post_1_24 || text_eq t post_2_48 || text_eq t post_3_72

-- What `ParseDealTargetTypeToParams` returns: the type with its hours, or one of its three errors.
pub data Params : Type 0 where
  params : Text → ℕ → ℕ → Params
  bad_parts : ℕ → Params
  bad_top_hours bad_common_hours : Text → Params

-- `strconv.Atoi` followed by the test for a negative number.
abbrev hours_of : Text → Option ℕ
hours_of s = elim (atoi s) [ some (pos n) ↦ some n | _ ↦ none ]

abbrev with_hours : Text → Text → Text → Params
with_hours typ a b = elim (hours_of a) [
  | none ↦ bad_top_hours a
  | some top ↦ elim (hours_of b) [ none ↦ bad_common_hours b | some common ↦ params typ top common ]
]

-- Three parts, or the number of parts that was found.
params_of : List Text → Params
params_of (typ ∷ a ∷ b ∷ []) = with_hours typ a b
params_of parts = bad_parts (length parts)

-- `ParseDealTargetTypeToParams`.
unfoldable pub parse_deal_target_type_to_params : Text → Params
unfolding params_of
parse_deal_target_type_to_params target_type = params_of (split b'_' target_type)

-- A duration in nanoseconds, and whether the text was well formed.
abbrev pub Duration : Type 0
Duration = ℤ × Bool

abbrev pub hour : ℕ
hour = 3600000000000

-- `time.Duration(hours) * time.Hour`, which wraps around at 64 bits.
abbrev pub hours_duration : ℤ → ℤ
hours_duration n = signed_64 (elim n [
  | pos k ↦ k * hour % 18446744073709551616
  | negsuc k ↦ (18446744073709551616 - suc k * hour % 18446744073709551616) % 18446744073709551616
])

-- `t.Add(d)` on a time in seconds, without the fraction; a time before the epoch is not represented.
abbrev pub add_time : ℕ → ℤ → ℕ
add_time t d = elim d [ pos n ↦ t + n / 1000000000 | negsuc n ↦ t - suc n / 1000000000 ]

duration_of : List Text → Duration
duration_of (a ∷ b ∷ c ∷ []) = elim (atoi c) [
  | none ↦ (pos (24 * hour), false)
  | some n ↦ (hours_duration n, true)
]
duration_of parts = (pos (24 * hour), false)

-- `parsePostDuration` of the bot: the last part alone, and a day where the text is malformed.
unfoldable pub parse_post_duration : Text → Duration
unfolding duration_of
parse_post_duration s = duration_of (split b'_' s)

-- A valid target type always parses, to the type `post` with the hours that its name gives: 1 and
-- 24, 2 and 48, or 3 and 72, so the top hours never outlast the post itself.
pub is_valid-parses :
    (t : Text)
    → is_valid t ≡ true
    → (top : ℕ) × (1 ≤ top)
      × (top ≤ 3)
      × (parse_deal_target_type_to_params t ≡ params (codes "post") top (24 * top))
unfolding is_valid parse_deal_target_type_to_params split atoi
is_valid-parses t h = elim (Bool-cases (text_eq t post_1_24)) [
  | inl e ↦ (1, omega arith, omega arith, rw (text_eq_sound t post_1_24 e))
  | inr n ↦ elim (Bool-cases (text_eq t post_2_48)) [
    | inl e ↦ (2, omega arith, omega arith, rw (text_eq_sound t post_2_48 e))
    | inr m ↦ (3, omega arith, omega arith, rw (text_eq_sound t post_3_72 (ground arith)))
  ]
]

params_of-duration_of :
    (parts : List Text) (typ : Text) (top common : ℕ)
    → params_of parts ≡ params typ top common
    → duration_of parts ≡ (hours_duration (pos common), true)
unfolding params_of duration_of
params_of-duration_of [] typ top common h = cc
params_of-duration_of (a ∷ []) typ top common h = cc
params_of-duration_of (a ∷ b ∷ []) typ top common h = cc
params_of-duration_of (a ∷ b ∷ c ∷ []) typ top common h = ground arith
params_of-duration_of (a ∷ b ∷ c ∷ d ∷ r) typ top common h = cc

hours_duration-pos : (n : ℕ) → n ≤ 2562047 → hours_duration (pos n) ≡ pos (n * hour)
hours_duration-pos n h = ground arith

-- The bot's duration of a post is the server's: wherever the server's parser accepts a target type
-- with up to 2562047 hours, which is as many as a duration holds, the bot's parser accepts it with the
-- same hours.
parse_post_duration-agrees :
    (t typ : Text) (top common : ℕ)
    → parse_deal_target_type_to_params t ≡ params typ top common
    → common ≤ 2562047
    → parse_post_duration t ≡ (pos (common * hour), true)
unfolding parse_deal_target_type_to_params parse_post_duration
parse_post_duration-agrees t typ top common h small =
    params_of-duration_of (split b'_' t) typ top common h
    ∙ ap (λ d. (d, true)) (hours_duration-pos common small)
