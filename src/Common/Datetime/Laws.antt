-- ===== src/Common/Datetime/Laws.antt =====
-- What the validations of internal/common/deal_target.go accept.
use tam_backend.Prelude.{
  Bool-cases, Option-cases, Text, is_empty, split, ℕ, ◌+◌, ◌≤◌, ◌≡◌, refl, ◌⊎◌, inl, inr, true,
  ◌||◌, Option, none, some, List, [], ◌∷◌, arith,
}
use tam_backend.Common.Datetime.{
  PreferableDatetime, parse_date, minutes_of, parse_time_mm, validate_dates, minutes_or_zero,
  is_time, validate_times, validate_preferable_datetime, validate_publication_time,
}

is_empty-nil : (s : Text) → is_empty s ≡ true → s ≡ []
is_empty-nil [] h = refl
is_empty-nil (c ∷ s) h = cc

minutes_of-le : (parts : List Text) (n : ℕ) → minutes_of parts ≡ some n → n ≤ 1440
unfolding minutes_of
minutes_of-le [] n h = cc
minutes_of-le (a ∷ []) n h = cc
minutes_of-le (a ∷ b ∷ []) n h = ground arith
minutes_of-le (a ∷ b ∷ c ∷ r) n h = cc

-- A time of day that parses is at most 24:00.
parse_time_mm-le : (s : Text) (n : ℕ) → parse_time_mm s ≡ some n → n ≤ 1440
unfolding parse_time_mm
parse_time_mm-le s n h = minutes_of-le (split b':' s) n h

-- No dates, or a first date from tomorrow on with a second one not before it, if there is one.
abbrev pub DatesInOrder : ℕ → Text → Text → Type 0
DatesInOrder tomorrow from to =
    ((from ≡ []) × (to ≡ []))
    ⊎ ((f : ℕ) × (parse_date from ≡ some f)
        × (tomorrow ≤ f)
        × ((to ≡ []) ⊎ ((t : ℕ) × (parse_date to ≡ some t) × (f ≤ t))))

-- An absent time, or one that reads as minutes of the day.
abbrev pub TimeOfDay : Text → Type 0
TimeOfDay s = (s ≡ []) ⊎ ((n : ℕ) × (parse_time_mm s ≡ some n) × (n ≤ 1440))

abbrev pub TimesInOrder : Text → Text → Type 0
TimesInOrder from to =
    TimeOfDay from
    × TimeOfDay to
    × ((from ≡ []) ⊎ (to ≡ []) ⊎ (minutes_or_zero from ≤ minutes_or_zero to))

validate_dates_sound :
    (tomorrow : ℕ) (from to : Text)
    → validate_dates tomorrow from to ≡ none
    → DatesInOrder tomorrow from to
unfolding validate_dates
validate_dates_sound tomorrow [] [] h = inl (refl, refl)
validate_dates_sound tomorrow [] (c ∷ s) h = cc
validate_dates_sound tomorrow (c ∷ s) to h = elim (Option-cases (parse_date (c ∷ s))) [
  | inl e ↦ ground arith
  | inr (f, e) ↦ elim (Option-cases (parse_date to)) [
    | inl e' ↦ inr (f, e, ground arith, inl (is_empty-nil to (ground arith)))
    | inr (t, e') ↦ elim (Bool-cases (is_empty to)) [
      | inl z ↦ inr (f, e, ground arith, inl (is_empty-nil to z))
      | inr z ↦ inr (f, e, ground arith, inr (t, e', ground arith))
    ]
  ]
]

time_of_day : (s : Text) → is_empty s || is_time s ≡ true → TimeOfDay s
time_of_day [] h = inl refl
time_of_day (c ∷ s) h = elim (Option-cases (parse_time_mm (c ∷ s))) [
  | inl e ↦ ground arith
  | inr (n, e) ↦ inr (n, e, parse_time_mm-le (c ∷ s) n e)
]

validate_times_sound : (from to : Text) → validate_times from to ≡ none → TimesInOrder from to
unfolding validate_times
validate_times_sound from to h = (
  time_of_day from (ground arith),
  time_of_day to (ground arith),
  ground (arith, is_empty-nil from, is_empty-nil to),
)

empty_times : (from to : Text) → is_empty from ≡ true → is_empty to ≡ true → TimesInOrder from to
empty_times from to h k =
    (inl (is_empty-nil from h), inl (is_empty-nil to k), inl (is_empty-nil from h))

-- An accepted window of publication is in order: its dates are absent, or start tomorrow at the
-- earliest and do not end before they start, an end without a start being refused; its times are
-- absent or lie in the day, and do not end before they start.
validate_preferable_datetime_sound :
    (tomorrow : ℕ) (p : PreferableDatetime)
    → validate_preferable_datetime tomorrow (some p) ≡ none
    → DatesInOrder tomorrow p.date_from p.date_to × TimesInOrder p.time_from p.time_to
unfolding validate_preferable_datetime
validate_preferable_datetime_sound tomorrow p h =
    elim (Option-cases (validate_dates tomorrow p.date_from p.date_to)) [
      | inl dates ↦ (
        validate_dates_sound tomorrow p.date_from p.date_to dates,
        elim (Option-cases (validate_times p.time_from p.time_to)) [
          | inl times ↦ validate_times_sound p.time_from p.time_to times
          | inr (e, times) ↦ empty_times p.time_from p.time_to (ground arith) (ground arith)
        ],
      )
      | inr (e, dates) ↦ (
        inl (is_empty-nil p.date_from (ground arith), is_empty-nil p.date_to (ground arith)),
        empty_times p.time_from p.time_to (ground arith) (ground arith),
      )
    ]

-- An accepted publication time is what the text reads as, and lies an hour or more ahead.
pub validate_publication_time_sound :
    (parse_rfc3339 : Text → Option ℕ) (now : ℕ) (s : Text) (t : ℕ)
    → validate_publication_time parse_rfc3339 now s ≡ some t
    → (parse_rfc3339 s ≡ some t) × (now + 3600 ≤ t)
unfolding validate_publication_time
validate_publication_time_sound parse_rfc3339 now s t h = ground arith
