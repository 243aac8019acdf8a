-- ===== src/Common/DealStatus.antt =====
-- The status of a deal: the enumeration of
-- internal/common/constants/deal_status/deal_status_type_enum.go, its numbers in the database and
-- its names, and the life spans of internal/common/deal_durations.go.
use tam_backend.Prelude.{
  if◌then◌else◌, take, drop, Text, codes, text_eq, ℕ, ◌-◌, ◌*◌, ◌≡◌, refl, Option, none, some, List,
  [], ◌∷◌,
}

pub data DealStatus : Type 0 where
  draft pending discussion in_progress awaiting_approval awaiting_approval_time : DealStatus
  awaiting_publication published canceled expired terms_violated completed err_publish : DealStatus
  err_bad_target : DealStatus

-- `int(status)`: the position in the `iota` block.
unfoldable pub to_int : DealStatus → ℕ
to_int draft = 0
to_int pending = 1
to_int discussion = 2
to_int in_progress = 3
to_int awaiting_approval = 4
to_int awaiting_approval_time = 5
to_int awaiting_publication = 6
to_int published = 7
to_int canceled = 8
to_int expired = 9
to_int terms_violated = 10
to_int completed = 11
to_int err_publish = 12
to_int err_bad_target = 13

-- `DealStatusValues`.
abbrev pub deal_status_values : List DealStatus
deal_status_values =
    draft ∷ pending ∷ discussion ∷ in_progress ∷ awaiting_approval ∷ awaiting_approval_time
    ∷ awaiting_publication ∷ published ∷ canceled ∷ expired ∷ terms_violated ∷ completed
    ∷ err_publish ∷ err_bad_target ∷ []

-- `_DealStatusName`: all names in one text, which the two tables slice.
abbrev deal_status_name : Text
deal_status_name =
    codes
      "DRAFTPENDINGDISCUSSIONIN_PROGRESSAWAITING_APPROVALAWAITING_APPROVAL_TIMEAWAITING_PUBLICATIONPUBLISHEDCANCELEDEXPIREDTERMS_VIOLATEDCOMPLETEDERR_PUBLISHERR_BAD_TARGET"

-- `s[i:j]`.
slice : ℕ → ℕ → Text
slice i j = take (j - i) (drop i deal_status_name)

-- `String`, which looks the value up in `_DealStatusMap`.
pub to_text : DealStatus → Text
unfolding slice
to_text draft = slice 0 5
to_text pending = slice 5 12
to_text discussion = slice 12 22
to_text in_progress = slice 22 33
to_text awaiting_approval = slice 33 50
to_text awaiting_approval_time = slice 50 72
to_text awaiting_publication = slice 72 92
to_text published = slice 92 101
to_text canceled = slice 101 109
to_text expired = slice 109 116
to_text terms_violated = slice 116 130
to_text completed = slice 130 139
to_text err_publish = slice 139 150
to_text err_bad_target = slice 150 164

-- `_DealStatusValue`: the slices again, as keys.
deal_status_value : List (Text × DealStatus)
unfolding slice
deal_status_value =
    (slice 0 5, draft)
    ∷ (slice 5 12, pending)
    ∷ (slice 12 22, discussion)
    ∷ (slice 22 33, in_progress)
    ∷ (slice 33 50, awaiting_approval)
    ∷ (slice 50 72, awaiting_approval_time)
    ∷ (slice 72 92, awaiting_publication)
    ∷ (slice 92 101, published)
    ∷ (slice 101 109, canceled)
    ∷ (slice 109 116, expired)
    ∷ (slice 116 130, terms_violated)
    ∷ (slice 130 139, completed)
    ∷ (slice 139 150, err_publish)
    ∷ (slice 150 164, err_bad_target)
    ∷ []

-- A Go map lookup by name.
find_status : Text → List (Text × DealStatus) → Option DealStatus
find_status name [] = none
find_status name ((k, s) ∷ rest) = if text_eq name k then some s else find_status name rest

-- `ParseDealStatus`; `none` is `ErrInvalidDealStatus`.
pub parse_deal_status : Text → Option DealStatus
unfolding find_status deal_status_value
parse_deal_status name = find_status name deal_status_value

-- Every status is read back from its name, so no slice of the name text is off by a character.
pub parse_deal_status-to_text : (s : DealStatus) → parse_deal_status (to_text s) ≡ some s
unfolding parse_deal_status to_text text_eq
parse_deal_status-to_text draft = refl
parse_deal_status-to_text _ = refl

abbrev hours : ℕ → ℕ
hours n = n * 3600

-- `GetDealStatusDuration`, in seconds; a status that is not in the map has the duration 0.
unfoldable pub get_deal_status_duration : DealStatus → ℕ
get_deal_status_duration draft = hours 24
get_deal_status_duration pending = hours 24
get_deal_status_duration discussion = hours 48
get_deal_status_duration in_progress = hours (7 * 24)
get_deal_status_duration awaiting_approval = hours 48
get_deal_status_duration awaiting_approval_time = hours 24
get_deal_status_duration awaiting_publication = hours (30 * 24)
get_deal_status_duration published = hours (30 * 24)
get_deal_status_duration canceled = 0
get_deal_status_duration expired = 0
get_deal_status_duration terms_violated = 0
get_deal_status_duration completed = 0
get_deal_status_duration err_publish = 0
get_deal_status_duration err_bad_target = 0

pub DealStatus-discrete : Discrete DealStatus
DealStatus-discrete = hlevel
