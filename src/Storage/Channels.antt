-- ===== src/Storage/Channels.antt =====
-- The writes of internal/modules/storage/channels.go, and the links between customers and channels
-- of internal/modules/storage/customers.go. `up` says whether the database serves the statement;
-- the constraints of internal/database/migrations/postgres refuse a statement by themselves.
pub mod Sparing
use tam_backend.Prelude.{
  ◌==◌, if◌then◌else◌, filter, ℤ, leb_ℤ, Table, lookup, modify, ℕ, ◌≡◌, Bool, not, ◌&&◌, Option,
  none, some, List, [], ◌∷◌, map, arith,
}
use tam_backend.Common.Errors.{internal_error, not_found, Result, ok, err}
use tam_backend.Storage.Schema.{Channel, Role, CustomerChannel, Db}

abbrev pub eq_ℤ : ℤ → ℤ → Bool
eq_ℤ a b = leb_ℤ a b && leb_ℤ b a

unfoldable pub channel_by_tg_id : ℤ → Table Channel → Option (ℕ × Channel)
channel_by_tg_id tg [] = none
channel_by_tg_id tg ((id, c) ∷ t) = if eq_ℤ c.tg_id tg then some (id, c) else channel_by_tg_id tg t

-- `GetChannelByTgID`.
unfoldable pub get_channel_by_tg_id : Bool → ℤ → Db → Result (ℕ × Channel)
get_channel_by_tg_id up tg db =
    if not up
    then err internal_error
    else elim (channel_by_tg_id tg db.channels) [ none ↦ err not_found | some c ↦ ok c ]

-- `CreateChannel`: the row gets a new key, and `tg_id` is unique. A row with the same Telegram id
-- makes the insertion fail.
unfoldable pub create_channel : Bool → ℕ → Channel → Db → Result Db
create_channel up id c db =
    if not up then err internal_error else elim (channel_by_tg_id c.tg_id db.channels) [
      | some _ ↦ err internal_error
      | none ↦ ok (record db { channels = (id, c) ∷ db.channels })
    ]

-- `UpdateChannel`.
unfoldable pub update_channel : Bool → ℕ → (Channel → Channel) → Db → Result Db
update_channel up id updater db =
    if not up then err internal_error else elim (lookup id db.channels) [
      | none ↦ err not_found
      | some _ ↦ ok (record db { channels = modify id updater db.channels })
    ]

abbrev pub is_link : ℕ → ℕ → CustomerChannel → Bool
is_link customer channel cc = cc.customer_id == customer && cc.channel_id == channel

-- `Only`: one row, or an error.
unfoldable pub only_link : List CustomerChannel → Result CustomerChannel
only_link [] = err not_found
only_link (cc ∷ []) = ok cc
only_link (cc ∷ _ ∷ _) = err internal_error

-- `GetCustomerChannel`.
unfoldable pub get_customer_channel : Bool → ℕ → ℕ → Db → Result CustomerChannel
get_customer_channel up customer channel db =
    if not up
    then err internal_error
    else only_link (filter (is_link customer channel) db.customer_channels)

-- `AddCustomerChannel`: both rows must be there.
unfoldable pub add_customer_channel : Bool → ℕ → ℕ → Role → Db → Result Db
add_customer_channel up customer channel role db =
    if not up then err internal_error else elim (lookup customer db.customers) [
      | none ↦ err internal_error
      | some _ ↦ elim (lookup channel db.channels) [
        | none ↦ err internal_error
        | some _ ↦ ok (record db {
          customer_channels =
              record { customer_id = customer; channel_id = channel; role = role }
              ∷ db.customer_channels;
        })
      ]
    ]

abbrev set_role : ℕ → ℕ → Role → CustomerChannel → CustomerChannel
set_role customer channel role cc =
    if is_link customer channel cc then record cc { role = role } else cc

-- `UpdateCustomerChannelRole`, whose two statements read the one link and update it.
unfoldable pub update_customer_channel_role : Bool → Bool → ℕ → ℕ → Role → Db → Result Db
update_customer_channel_role read_up write_up customer channel role db =
    elim (get_customer_channel read_up customer channel db) [
      | err e ↦ err e
      | ok _ ↦
          if not write_up
          then err internal_error
          else ok (record db {
            customer_channels = map (set_role customer channel role) db.customer_channels;
          })
    ]

-- The rows of a table that a deletion leaves.
unfoldable pub keep_rows {ℓ} : {A : Type ℓ} → (ℕ → A → Bool) → Table A → Table A
keep_rows keep [] = []
keep_rows keep ((j, v) ∷ t) = if keep j v then (j, v) ∷ keep_rows keep t else keep_rows keep t

-- `DeleteChannel`: by the foreign keys of internal/database/migrations (ON DELETE CASCADE), the
-- channel's links and its deals go with it. Deleting a channel that is not there is no error.
unfoldable pub delete_channel : Bool → ℕ → Db → Result Db
delete_channel up id db =
    if not up
    then err internal_error
    else ok (record db {
      channels = keep_rows (λ j c. not (j == id)) db.channels;
      customer_channels = filter (λ cc. not (cc.channel_id == id)) db.customer_channels;
      deals = keep_rows (λ j d. not (d.channel_id == id)) db.deals;
    })

-- `GetChannelWithCustomerChannels`: the channel with its links.
unfoldable pub get_channel_with_customer_channels :
    Bool → ℕ → Db → Result (Channel × List CustomerChannel)
get_channel_with_customer_channels up id db =
    if not up then err internal_error else elim (lookup id db.channels) [
      | none ↦ err not_found
      | some c ↦ ok (c, filter (λ cc. cc.channel_id == id) db.customer_channels)
    ]

pub update_channel-ok :
    (up : Bool) (id : ℕ) (f : Channel → Channel) (db db' : Db)
    → update_channel up id f db ≡ ok db'
    → record db { channels = modify id f db.channels } ≡ db'
unfolding update_channel
update_channel-ok up id f db db' h = ground arith
