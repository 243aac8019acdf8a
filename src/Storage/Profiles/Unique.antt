-- ===== src/Storage/Profiles/Unique.antt =====
-- What clashes in internal/modules/storage/customers.go: keys, Telegram ids and addresses.
use tam_backend.Prelude.{
  ◌==◌, ==_iff, Bool-cases, Option-cases, ℤ, lookup, modify, lookup-modify_ne, Text, text_eq, ℕ,
  ◌≡◌, refl, ◌∙◌, ◌≢◌, inl, inr, Bool, false, none, some, [], ◌∷◌, arith,
}
use tam_backend.Storage.Schema.{Customer, Db}
use tam_backend.Storage.Customers.{Customers}
use tam_backend.Storage.Profiles.{
  customer_by_tg_id, clashes, has_conflict, inserted, create_customer, update_customer,
}

-- No row has the key of a later one, and none is in conflict with a later one, as the writes test it.
abbrev pub HasNoConflicts : Customers → Type 0
HasNoConflicts [] = Unit
HasNoConflicts ((j, c) ∷ t) = (lookup j t ≡ none) × (has_conflict j c t ≡ false) × HasNoConflicts t

text_eq_sym : (s t : Text) → text_eq s t ≡ text_eq t s
unfolding text_eq
text_eq_sym [] [] = refl
text_eq_sym [] (d ∷ t) = refl
text_eq_sym (c ∷ s) [] = refl
text_eq_sym (c ∷ s) (d ∷ t) = ground (arith, text_eq_sym s t)

clashes_sym : (c d : Customer) → clashes c d ≡ clashes d c
unfolding clashes
clashes_sym c d = ground (
  arith,
  text_eq_sym c.address_bounceable d.address_bounceable,
  text_eq_sym c.address_nonbounceable d.address_nonbounceable,
)

module _ (id : ℕ) (f : Customer → Customer) (c : Customer) where
  has_conflict-modify :
      (j : ℕ) (d : Customer) (t : Customers)
      → lookup id t ≡ some c
      → has_conflict j d t ≡ false
      → clashes d (f c) ≡ false
      → has_conflict j d (modify id f t) ≡ false
  unfolding has_conflict
  has_conflict-modify j d [] l h k = cc
  has_conflict-modify j d ((i, e) ∷ t) l h k = ground (arith, has_conflict-modify j d t)

  has_conflict-modify_self :
      (d : Customer) (t : Customers) → has_conflict id d (modify id f t) ≡ has_conflict id d t
  unfolding has_conflict
  has_conflict-modify_self d [] = refl
  has_conflict-modify_self d ((i, e) ∷ t) = ground (arith, has_conflict-modify_self d t)

  modify-HasNoConflicts :
      (t : Customers)
      → lookup id t ≡ some c
      → has_conflict id (f c) t ≡ false
      → HasNoConflicts t
      → HasNoConflicts (modify id f t)
  unfolding has_conflict
  modify-HasNoConflicts [] l h u = cc
  modify-HasNoConflicts ((j, d) ∷ t) l h u = elim (Bool-cases (id == j)) [
    | inl e ↦ ground (arith, e)
    | inr e ↦
        let ne : j ≢ id = ground arith in
        let there : lookup id t ≡ some c = ground (arith, e) in
        let apart : clashes d (f c) ≡ false = ground (arith, clashes_sym d (f c)) in
        rw e (
          lookup-modify_ne id f j t ne ∙ u.0,
          has_conflict-modify j d t there u.1 apart,
          modify-HasNoConflicts t there (ground arith) u.2,
        )
  ]

-- `CreateCustomer` keeps the rows unique, if the generated key is new.
pub create_customer-HasNoConflicts :
    (write_up read_up : Bool) (id tg : ℕ) (hd : ℤ) (db : Db)
    → lookup id db.customers ≡ none
    → HasNoConflicts db.customers
    → HasNoConflicts (create_customer write_up read_up id tg hd db).1.customers
unfolding create_customer
create_customer-HasNoConflicts write_up read_up id tg hd db fresh u = elim (Bool-cases write_up) [
  | inr e ↦ rw e u
  | inl e ↦ elim (Bool-cases (has_conflict id (inserted tg hd) db.customers)) [
    | inl q ↦ rw (e, q) u
    | inr q ↦ rw (e, q) (fresh, q, u)
  ]
]

pub update_customer-HasNoConflicts :
    (up : Bool) (id : ℕ) (f : Customer → Customer) (db : Db)
    → HasNoConflicts db.customers
    → HasNoConflicts (update_customer up id f db).1.customers
unfolding update_customer
update_customer-HasNoConflicts up id f db u = elim (Bool-cases up) [
  | inr e ↦ rw e u
  | inl e ↦ elim (Option-cases (lookup id db.customers)) [
    | inl l ↦ rw (e, l) u
    | inr (c, l) ↦ elim (Bool-cases (has_conflict id (f c) db.customers)) [
      | inl q ↦ rw (e, l, q) u
      | inr q ↦ rw (e, l, q) (modify-HasNoConflicts id f c db.customers l q u)
    ]
  ]
]

other_key :
    {c : Customer} (k j : ℕ) (t : Customers)
    → lookup k t ≡ some c
    → lookup j t ≡ none
    → (k == j) ≡ false
other_key k j t found missing = elim (Bool-cases (k == j)) [
  | inr e ↦ e
  | inl e ↦
      let same : k ≡ j = (==_iff k j).0 e in let absent : lookup k t ≡ none = rw same missing in cc
]

-- In a table with unique keys, the row that is found by its Telegram id is the row of its key.
pub lookup-customer_by_tg_id :
    (tg k : ℕ) (c : Customer) (t : Customers)
    → HasNoConflicts t
    → customer_by_tg_id tg t ≡ some (k, c)
    → (lookup k t ≡ some c) × (c.tg_id ≡ tg)
unfolding customer_by_tg_id
lookup-customer_by_tg_id tg k c [] u h = cc
lookup-customer_by_tg_id tg k c ((j, d) ∷ t) u h = elim (Bool-cases (d.tg_id == tg)) [
  | inl e ↦ ground (arith, e)
  | inr e ↦
      let later : customer_by_tg_id tg t ≡ some (k, c) = ground (arith, e) in
      let (found, same) = lookup-customer_by_tg_id tg k c t u.2 later in
      let other : (k == j) ≡ false = other_key k j t found u.0 in (rw other found, same)
]
