-- ===== src/Storage/Profiles/Distinct.antt =====
-- What is unique in the table of internal/modules/storage/customers.go, said without the test that the
-- statements make.
use tam_backend.Prelude.{
  Bool-cases, All, ℤ, lookup, Text, text_eq, text_eq_refl, text_eq_sound, ℕ, ◌≡◌, refl, sym, ◌≢◌,
  inl, inr, Bool, true, false, none, [], ◌∷◌, arith,
}
use tam_backend.Storage.Schema.{Customer, Db}
use tam_backend.Storage.Customers.{Customers}
use tam_backend.Storage.Profiles.{clashes, has_conflict, create_customer, update_customer}
use tam_backend.Storage.Profiles.Unique.{
  HasNoConflicts, create_customer-HasNoConflicts, update_customer-HasNoConflicts,
}

-- Two customers with different Telegram ids, and with different addresses in both columns.
abbrev pub AreApart : Customer → Customer → Type 0
AreApart c d =
    (c.tg_id ≢ d.tg_id)
    × (c.address_bounceable ≢ d.address_bounceable)
    × (c.address_nonbounceable ≢ d.address_nonbounceable)

-- No two rows have the same key, and any two are apart.
abbrev pub IsUnique : Customers → Type 0
IsUnique [] = Unit
IsUnique ((j, c) ∷ t) = (lookup j t ≡ none) × All (λ r. AreApart c r.1) t × IsUnique t

text_eq-differ : (s t : Text) → text_eq s t ≡ false → s ≢ t
text_eq-differ s t h same = let equal : text_eq s t ≡ true = rw same (text_eq_refl t) in cc

differ-text_eq : (s t : Text) → s ≢ t → text_eq s t ≡ false
differ-text_eq s t h = elim (Bool-cases (text_eq s t)) [
  | inr e ↦ e
  | inl e ↦ elim (h (text_eq_sound s t e)) [ ]
]

clashes-AreApart : (c d : Customer) → clashes c d ≡ false → AreApart c d
unfolding clashes
clashes-AreApart c d h = (
  ground arith,
  λ e. text_eq-differ d.address_bounceable c.address_bounceable (ground arith) (sym e),
  λ e. text_eq-differ d.address_nonbounceable c.address_nonbounceable (ground arith) (sym e),
)

AreApart-clashes : (c d : Customer) → AreApart c d → clashes c d ≡ false
unfolding clashes
AreApart-clashes c d (ids, bounceable, other) = ground (
  arith,
  ids,
  differ-text_eq d.address_bounceable c.address_bounceable (λ e. bounceable (sym e)),
  differ-text_eq d.address_nonbounceable c.address_nonbounceable (λ e. other (sym e)),
)

others_apart :
    (j : ℕ) (c : Customer) (t : Customers)
    → lookup j t ≡ none
    → has_conflict j c t ≡ false
    → All (λ r. AreApart c r.1) t
unfolding has_conflict
others_apart j c [] l h = tt
others_apart j c ((i, d) ∷ t) l h =
    (clashes-AreApart c d (ground arith), others_apart j c t (ground arith) (ground arith))

no_conflict :
    (j : ℕ) (c : Customer) (t : Customers)
    → All (λ r. AreApart c r.1) t
    → has_conflict j c t ≡ false
unfolding has_conflict
no_conflict j c [] h = refl
no_conflict j c ((i, d) ∷ t) h = ground (arith, AreApart-clashes c d h.0, no_conflict j c t h.1)

HasNoConflicts-IsUnique : (t : Customers) → HasNoConflicts t → IsUnique t
HasNoConflicts-IsUnique [] u = tt
HasNoConflicts-IsUnique ((j, c) ∷ t) u =
    (u.0, others_apart j c t u.0 u.1, HasNoConflicts-IsUnique t u.2)

pub IsUnique-HasNoConflicts : (t : Customers) → IsUnique t → HasNoConflicts t
IsUnique-HasNoConflicts [] u = tt
IsUnique-HasNoConflicts ((j, c) ∷ t) u = (u.0, no_conflict j c t u.1, IsUnique-HasNoConflicts t u.2)

-- `CreateCustomer` keeps the rows unique, if the generated key is new.
pub create_customer-IsUnique :
    (write_up read_up : Bool) (id tg : ℕ) (hd : ℤ) (db : Db)
    → lookup id db.customers ≡ none
    → IsUnique db.customers
    → IsUnique (create_customer write_up read_up id tg hd db).1.customers
create_customer-IsUnique write_up read_up id tg hd db fresh u =
    HasNoConflicts-IsUnique (create_customer write_up read_up id tg hd db).1.customers (
      create_customer-HasNoConflicts write_up read_up id tg hd db fresh
        (IsUnique-HasNoConflicts db.customers u))

pub update_customer-IsUnique :
    (up : Bool) (id : ℕ) (f : Customer → Customer) (db : Db)
    → IsUnique db.customers
    → IsUnique (update_customer up id f db).1.customers
update_customer-IsUnique up id f db u =
    HasNoConflicts-IsUnique (update_customer up id f db).1.customers
      (update_customer-HasNoConflicts up id f db (IsUnique-HasNoConflicts db.customers u))
