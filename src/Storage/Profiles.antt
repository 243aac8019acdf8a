-- ===== src/Storage/Profiles.antt =====
-- The rows of customers in internal/modules/storage/customers.go: `GetCustomerByTgID`,
-- `CreateCustomer` and `UpdateCustomer`. The constraints are those of
-- internal/database/migrations/postgres: the Telegram id and each of the two addresses are unique,
-- and an empty address is a value like another.
pub mod Unique
pub mod Distinct
pub mod Keeping
use tam_backend.Prelude.{
  ◌==◌, if◌then◌else◌, ℤ, pos, lookup, modify, text_eq, ℕ, Bool, false, not, ◌&&◌, ◌||◌, Option,
  none, some, [], ◌∷◌,
}
use tam_backend.Common.Errors.{internal_error, not_found, Result, ok, err}
use tam_backend.Storage.Schema.{pre_registration, Customer, Db}
use tam_backend.Storage.Customers.{Customers}

unfoldable pub customer_by_tg_id : ℕ → Customers → Option (ℕ × Customer)
customer_by_tg_id tg [] = none
customer_by_tg_id tg ((id, c) ∷ t) = if c.tg_id == tg then some (id, c) else customer_by_tg_id tg t

-- `GetCustomerByTgID`.
unfoldable pub get_customer_by_tg_id : Bool → ℕ → Db → Result (ℕ × Customer)
get_customer_by_tg_id up tg db =
    if not up
    then err internal_error
    else elim (customer_by_tg_id tg db.customers) [ none ↦ err not_found | some r ↦ ok r ]

-- `GetCustomer`.
unfoldable pub get_customer : Bool → ℕ → Db → Result Customer
get_customer up id db =
    if not up
    then err internal_error
    else elim (lookup id db.customers) [ none ↦ err not_found | some c ↦ ok c ]

-- Two rows with the same Telegram id, or with the same address in the same column.
unfoldable pub clashes : Customer → Customer → Bool
clashes c d =
    d.tg_id == c.tg_id
    || (text_eq d.address_bounceable c.address_bounceable
        || text_eq d.address_nonbounceable c.address_nonbounceable)

-- Whether a row with another key clashes with `c`.
unfoldable pub has_conflict : ℕ → Customer → Customers → Bool
has_conflict id c [] = false
has_conflict id c ((j, d) ∷ t) = (not (j == id) && clashes c d) || has_conflict id c t

-- The row that `CreateCustomer` inserts. The language and the status of its argument are not set:
-- they have the column's default. `hd` is the database's next identity.
abbrev pub inserted : ℕ → ℤ → Customer
inserted tg hd = record {
  tg_id = tg;
  tg_language = [];
  wallet_hd_id = hd;
  address_bounceable = [];
  address_nonbounceable = [];
  ton_balance = pos 0;
  ton_balance_locked = pos 0;
  customer_status = pre_registration;
}

-- `CreateCustomer`, an insertion and a `GetCustomer`; `id` is the key that the database generates.
-- A failed read leaves the row.
unfoldable pub create_customer : Bool → Bool → ℕ → ℕ → ℤ → Db → Result Customer × Db
create_customer write_up read_up id tg hd db =
    if not write_up
    then (err internal_error, db)
    else if has_conflict id (inserted tg hd) db.customers
    then (err internal_error, db)
    else let db' : Db = record db { customers = (id, inserted tg hd) ∷ db.customers } in
      (get_customer read_up id db', db')

-- `UpdateCustomer`; it returns the updated row.
unfoldable pub update_customer : Bool → ℕ → (Customer → Customer) → Db → Result Customer × Db
update_customer up id updater db =
    if not up then (err internal_error, db) else elim (lookup id db.customers) [
      | none ↦ (err not_found, db)
      | some c ↦
          if has_conflict id (updater c) db.customers
          then (err internal_error, db)
          else (ok (updater c), record db { customers = modify id updater db.customers })
    ]
