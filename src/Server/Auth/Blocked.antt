-- ===== src/Server/Auth/Blocked.antt =====
-- A registration that fails after its `CreateCustomer` leaves a row with empty addresses, and the
-- addresses are unique.
use tam_backend.Prelude.{
  ==_refl, Bool-cases, ℤ, lookup, Text, text_eq, text_eq_refl, ℕ, ◌≡◌, refl, ap, ◌≢◌, ◌⊎◌, inl, inr,
  Bool, true, false, none, some, [], ◌∷◌, arith,
}
use tam_backend.Common.Errors.{internal_error, err}
use tam_backend.Storage.Schema.{Customer, Db}
use tam_backend.Storage.Customers.{Customers}
use tam_backend.Storage.Profiles.{
  customer_by_tg_id, get_customer_by_tg_id, clashes, has_conflict, inserted, create_customer,
  get_customer,
}
use tam_backend.Server.Outcome.{Answers}
use tam_backend.Server.Auth.{
  TgUser, AuthEnv, refuse_auth, with_created, with_known, on_auth, uint_32, AuthOutcome,
}

-- A valid login of a user who has no row.
pub record NewLogin (env : AuthEnv) (init_data : Text) (user : TgUser) (id : ℕ) (db : Db)
    : Type 0 where
  pub validated : env.validate init_data ≡ true
  pub parsed : env.parse init_data ≡ some user
  pub no_row : customer_by_tg_id user.user_id db.customers ≡ none
  pub fresh : lookup id db.customers ≡ none

conflict_of_empty :
    (id j : ℕ) (c d : Customer) (t : Customers)
    → lookup j t ≡ some c
    → j ≢ id
    → text_eq c.address_bounceable d.address_bounceable ≡ true
    → has_conflict id d t ≡ true
unfolding has_conflict clashes
conflict_of_empty id j c d [] l ne e = cc
conflict_of_empty id j c d ((i, b) ∷ t) l ne e = ground (arith, conflict_of_empty id j c d t)

refused_insertion :
    (write_up read_up : Bool) (id tg : ℕ) (hd : ℤ) (db : Db)
    → has_conflict id (inserted tg hd) db.customers ≡ true
    → create_customer write_up read_up id tg hd db ≡ (err internal_error, db)
unfolding create_customer
refused_insertion write_up read_up id tg hd db h = ground (arith, h)

login :
    (env : AuthEnv) (up : Answers) (init_data : Text) (user : TgUser) (id : ℕ) (hd : ℤ) (db : Db)
    → NewLogin env init_data user id db
    → ((up 0 ≡ false) × (on_auth env up id hd (some init_data) db ≡ refuse_auth internal_error db))
      ⊎ ((up 0 ≡ true)
          × (on_auth env up id hd (some init_data) db
              ≡ with_created env up user id (create_customer (up 1) (up 2) id user.user_id hd db)))
unfolding on_auth get_customer_by_tg_id with_known
login env up init_data user id hd db n = elim (Bool-cases (up 0)) [
  | inl e ↦ inr (e, rw (n.validated, n.parsed, e, n.no_row, on_auth) refl)
  | inr e ↦ inl (e, rw (n.validated, n.parsed, e, on_auth) refl)
]

-- While some row has an empty bounceable address, no new customer is registered: a valid login of a user who
-- has no row ends with an internal error, without a token, and changes nothing.
pub on_auth-blocked :
    (env : AuthEnv) (up : Answers) (init_data : Text) (user : TgUser) (id : ℕ) (hd : ℤ) (db : Db)
    (j : ℕ) (c : Customer)
    → NewLogin env init_data user id db
    → lookup j db.customers ≡ some c
    → c.address_bounceable ≡ []
    → on_auth env up id hd (some init_data) db ≡ refuse_auth internal_error db
unfolding with_created
on_auth-blocked env up init_data user id hd db j c n l e =
    let other : j ≢ id =
      λ (same : j ≡ id). let absent : lookup j db.customers ≡ none = rw same n.fresh in cc in
    let empty : text_eq c.address_bounceable [] ≡ true = rw e (text_eq_refl []) in
    let conflict = conflict_of_empty id j c (inserted user.user_id hd) db.customers l other empty in
    elim (login env up init_data user id hd db n) [
      | inl (down, r) ↦ r
      | inr (up0, r) ↦ rw (r, refused_insertion (up 1) (up 2) id user.user_id hd db conflict) refl
    ]

-- The database with the row that `CreateCustomer` inserts.
abbrev pub with_inserted : ℕ → ℕ → ℤ → Db → Db
with_inserted id tg hd db = record db { customers = (id, inserted tg hd) ∷ db.customers }

-- If a new customer's row is inserted and no address can be derived for it, then the login ends with
-- an internal error and the row stays, without addresses.
on_auth-incomplete :
    (env : AuthEnv) (up : Answers) (init_data : Text) (user : TgUser) (id : ℕ) (hd : ℤ) (db : Db)
    → NewLogin env init_data user id db
    → up 0 ≡ true
    → up 1 ≡ true
    → has_conflict id (inserted user.user_id hd) db.customers ≡ false
    → env.get_address (uint_32 hd) ≡ none
    → on_auth env up id hd (some init_data) db
      ≡ refuse_auth internal_error (with_inserted id user.user_id hd db)
unfolding with_created create_customer get_customer
on_auth-incomplete env up init_data user id hd db n up0 up1 free missing =
    elim (login env up init_data user id hd db n) [
      | inl (down, r) ↦ ground (arith, up0, down)
      | inr (_, r) ↦ elim (Bool-cases (up 2)) [
        | inl up2 ↦ rw (r, up1, free, up2, ==_refl id, missing) refl
        | inr up2 ↦ rw (r, up1, free, up2) refl
      ]
    ]

-- If a login has inserted a row for a new customer and no address could be derived for it, then the
-- row stays, with an empty bounceable address; and in any later database, as long as that row has no
-- bounceable address, every valid login of a user who has no row is refused with an internal error,
-- whatever the wallet and the database answer, and changes nothing.
pub on_auth-blocks :
    (env : AuthEnv) (up : Answers) (init_data : Text) (user : TgUser) (id : ℕ) (hd : ℤ) (db : Db)
    → NewLogin env init_data user id db
    → up 0 ≡ true
    → up 1 ≡ true
    → has_conflict id (inserted user.user_id hd) db.customers ≡ false
    → env.get_address (uint_32 hd) ≡ none
    → (later : Db) (c : Customer) (env' : AuthEnv) (up' : Answers) (init_data' : Text)
      (user' : TgUser) (id' : ℕ) (hd' : ℤ)
    → lookup id later.customers ≡ some c
    → c.address_bounceable ≡ []
    → NewLogin env' init_data' user' id' later
    → ((on_auth env up id hd (some init_data) db).0.db ≡ with_inserted id user.user_id hd db)
      × (lookup id (with_inserted id user.user_id hd db).customers
          ≡ some (inserted user.user_id hd))
      × ((inserted user.user_id hd).address_bounceable ≡ [])
      × (on_auth env' up' id' hd' (some init_data') later ≡ refuse_auth internal_error later)
on_auth-blocks env up init_data user id hd db n up0 up1 free missing later c env' up' init_data'
      user' id' hd' l e n' =
    (
      ap (λ (o : AuthOutcome). o.0.db)
          (on_auth-incomplete env up init_data user id hd db n up0 up1 free missing),
      rw (==_refl id) refl,
      refl,
      on_auth-blocked env' up' init_data' user' id' hd' later id c n' l e,
    )
