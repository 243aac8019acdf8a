-- ===== src/Storage/Profiles/Keeping.antt =====
-- What a property of the database needs for the writes of internal/modules/storage/customers.go to
-- keep it, and the money as such a property.
use tam_backend.Prelude.{
  Bool-cases, Option-cases, ℤ, int_laws, lookup, modify, sum_rows-modify, ℕ, ◌≡◌, refl, ◌∙◌, inl,
  inr, Bool, none, some,
}
use tam_backend.Storage.Schema.{Customer, Db}
use tam_backend.Storage.Customers.{Customers}
use tam_backend.Storage.Customers.Money.{wealth, total}
use tam_backend.Storage.Profiles.{has_conflict, inserted, create_customer, update_customer}
use tam_backend.Storage.Profiles.Distinct.{
  IsUnique, create_customer-IsUnique, update_customer-IsUnique,
}

-- An updater that leaves the balances alone.
abbrev pub IsMoneyless : (Customer → Customer) → Type 0
IsMoneyless f =
    (c : Customer)
    → ((f c).ton_balance ≡ c.ton_balance) × ((f c).ton_balance_locked ≡ c.ton_balance_locked)

-- A property that new rows with new keys and updates of other columns than the balances keep.
pub record ProfileKept (P : Db → Type 0) : Type 0 where
  pub creates :
      (write_up read_up : Bool) (id tg : ℕ) (hd : ℤ) (db : Db)
      → lookup id db.customers ≡ none
      → P db
      → P (create_customer write_up read_up id tg hd db).1
  pub updates :
      (up : Bool) (id : ℕ) (f : Customer → Customer) (db : Db)
      → IsMoneyless f
      → P db
      → P (update_customer up id f db).1

pub IsUnique-Kept : ProfileKept (λ db. IsUnique db.customers)
IsUnique-Kept = record {
  creates = create_customer-IsUnique;
  updates = λ up id f db calm u. update_customer-IsUnique up id f db u;
}

create_customer-total :
    (write_up read_up : Bool) (id tg : ℕ) (hd : ℤ) (db : Db)
    → total (create_customer write_up read_up id tg hd db).1.customers ≡ total db.customers
unfolding create_customer
create_customer-total write_up read_up id tg hd db = elim (Bool-cases write_up) [
  | inr e ↦ rw e refl
  | inl e ↦ elim (Bool-cases (has_conflict id (inserted tg hd) db.customers)) [
    | inl h ↦ rw (e, h) refl
    | inr h ↦ rw (e, h) (omega int_laws)
  ]
]

pub modify-total :
    (id : ℕ) (f : Customer → Customer) (c : Customer) (cs : Customers)
    → IsMoneyless f
    → lookup id cs ≡ some c
    → total (modify id f cs) ≡ total cs
modify-total id f c cs calm l =
    grind (int_laws, sum_rows-modify wealth id f c cs l, (calm c).0, (calm c).1)

update_customer-total :
    (up : Bool) (id : ℕ) (f : Customer → Customer) (db : Db)
    → IsMoneyless f
    → total (update_customer up id f db).1.customers ≡ total db.customers
unfolding update_customer
update_customer-total up id f db calm = elim (Bool-cases up) [
  | inr e ↦ rw e refl
  | inl e ↦ elim (Option-cases (lookup id db.customers)) [
    | inl l ↦ rw (e, l) refl
    | inr (c, l) ↦ elim (Bool-cases (has_conflict id (f c) db.customers)) [
      | inl h ↦ rw (e, l, h) refl
      | inr h ↦ rw (e, l, h) (modify-total id f c db.customers calm l)
    ]
  ]
]

pub total-Kept : (m : ℤ) → ProfileKept (λ db. total db.customers ≡ m)
total-Kept m = record {
  creates = λ write_up read_up id tg hd db fresh h.
      create_customer-total write_up read_up id tg hd db ∙ h;
  updates = λ up id f db calm h. update_customer-total up id f db calm ∙ h;
}
