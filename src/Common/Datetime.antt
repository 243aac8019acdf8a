-- ===== src/Common/Datetime.antt =====
-- `PreferableDatetime` and the two validations of internal/common/deal_target.go. A calendar date is
-- the number YYYYMMDD, which is ordered as the dates are.
pub mod Laws
use tam_backend.Prelude.{
  ltb, leb, ◌==◌, if◌then◌else◌, all, pos, Text, is_empty, split, is_digit, atoi, ℕ, ◌+◌, ◌-◌, ◌*◌,
  ◌%◌, Bool, true, false, not, ◌&&◌, ◌||◌, Option, none, some, List, [], ◌∷◌,
}

pub record PreferableDatetime : Type 0 where
  pub date_from : Text
  pub date_to : Text
  pub time_from : Text
  pub time_to : Text

-- `strings.TrimSpace` with `unicode.IsSpace`.
abbrev is_space : ℕ → Bool
is_space c =
    (leb 9 c && leb c 13)
    || c == 32
    || c == 133
    || c == 160
    || c == 5760
    || (leb 8192 c && leb c 8202)
    || c == 8232
    || c == 8233
    || c == 8239
    || c == 8287
    || c == 12288

trim_left : Text → Text
trim_left [] = []
trim_left (c ∷ s) = if is_space c then trim_left s else c ∷ s

trim_right : Text → Text
trim_right [] = []
trim_right (c ∷ s) = let rest = trim_right s in if is_empty rest && is_space c then [] else c ∷ rest

unfoldable pub trim_space : Text → Text
unfolding trim_left trim_right
trim_space s = trim_right (trim_left s)

abbrev digit : ℕ → ℕ
digit c = c - b'0'

-- The days of a month.
days_in : ℕ → ℕ → ℕ
days_in m y =
    if m == 2
    then if y % 4 == 0 && (not (y % 100 == 0) || y % 400 == 0) then 29 else 28
    else if m == 4 || (m == 6 || (m == 9 || m == 11))
    then 30
    else 31

abbrev date_key : ℕ → ℕ → ℕ → Option ℕ
date_key d m y =
    if leb 1 m && leb m 12 && (leb 1 d && leb d (days_in m y))
    then some (y * 10000 + m * 100 + d)
    else none

-- `time.Parse("02.01.2006", s)`: two digits, two digits and four, with dots between them, and a day
-- that the month has.
pub parse_date : Text → Option ℕ
unfolding days_in
parse_date (a ∷ b ∷ p ∷ c ∷ d ∷ q ∷ e ∷ f ∷ g ∷ h ∷ []) =
    if all is_digit (a ∷ b ∷ c ∷ d ∷ e ∷ f ∷ g ∷ h ∷ []) && (p == b'.' && q == b'.')
    then date_key (digit a * 10 + digit b) (digit c * 10 + digit d)
        (digit e * 1000 + digit f * 100 + digit g * 10 + digit h)
    else none
parse_date _ = none

unfoldable minutes_of : List Text → Option ℕ
unfolding trim_space
minutes_of (a ∷ b ∷ []) = elim (atoi (trim_space a)) [
  | some (pos h) ↦ elim (atoi (trim_space b)) [
    | some (pos m) ↦
        if ltb 24 h || ltb 59 m
        then none
        else if h == 24 && not (m == 0)
        then none
        else some (h * 60 + m)
    | _ ↦ none
  ]
  | _ ↦ none
]
minutes_of _ = none

-- The closure `parseTimeMM`; `none` is an error.
unfoldable pub parse_time_mm : Text → Option ℕ
unfolding minutes_of
parse_time_mm s = minutes_of (split b':' s)

pub data DatetimeError : Type 0 where
  bad_date_from early_date_from bad_date_to early_date_to date_from_required : DatetimeError
  bad_time_from bad_time_to early_time_to : DatetimeError

-- The dates: `none` is no error.
pub validate_dates : ℕ → Text → Text → Option DatetimeError
unfolding parse_date
validate_dates tomorrow from to =
    if is_empty from
    then if is_empty to then none else some date_from_required
    else elim (parse_date from) [
      | none ↦ some bad_date_from
      | some f ↦
          if ltb f tomorrow
          then some early_date_from
          else if is_empty to
          then none
          else elim (parse_date to) [
            | none ↦ some bad_date_to
            | some t ↦ if ltb t f then some early_date_to else none
          ]
    ]

abbrev pub minutes_or_zero : Text → ℕ
minutes_or_zero s = elim (parse_time_mm s) [ none ↦ 0 | some n ↦ n ]

abbrev pub is_time : Text → Bool
is_time s = elim (parse_time_mm s) [ none ↦ false | some n ↦ true ]

pub validate_times : Text → Text → Option DatetimeError
validate_times from to =
    if not (is_empty from) && not (is_time from)
    then some bad_time_from
    else if not (is_empty to) && not (is_time to)
    then some bad_time_to
    else if (not (is_empty from) && not (is_empty to))
        && ltb (minutes_or_zero to) (minutes_or_zero from)
    then some early_time_to
    else none

-- `ValidatePreferableDatetime`, with tomorrow's date as the clock gives it.
unfoldable pub validate_preferable_datetime : ℕ → Option PreferableDatetime → Option DatetimeError
unfolding validate_dates validate_times
validate_preferable_datetime tomorrow none = none
validate_preferable_datetime tomorrow (some p) =
    if is_empty p.date_from && (is_empty p.date_to && (is_empty p.time_from && is_empty p.time_to))
    then none
    else elim (validate_dates tomorrow p.date_from p.date_to) [
      | some e ↦ some e
      | none ↦ validate_times p.time_from p.time_to
    ]

-- `ValidatePublicationTime`: a time at least an hour from now, as `time.Parse` reads it; `none` is
-- an error. The reader of RFC 3339 texts is the standard library's, and is a parameter.
unfoldable pub validate_publication_time : (Text → Option ℕ) → ℕ → Text → Option ℕ
validate_publication_time parse_rfc3339 now publication_time =
    if is_empty publication_time then none else elim (parse_rfc3339 publication_time) [
      | none ↦ none
      | some t ↦ if ltb t (now + 3600) then none else some t
    ]
