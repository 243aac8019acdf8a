-- ===== src/Server/Auth/Registration.antt =====
-- Who gets a token from `onAuth`, and that the customers stay unique.
use tam_backend.Prelude.{
  ==_refl, Bool-cases, Option-cases, ℤ, lookup, lookup-modify-some, Text, ℕ, ◌≡◌, refl, ◌⊎◌, inl,
  inr, Bool, true, Option, none, some, ◌∷◌, arith,
}
use tam_backend.Common.Errors.{
  Error, unauthorized, invalid_request, internal_error, not_found, Result, ok, err,
}
use tam_backend.Storage.Schema.{CustomerStatus, pre_registration, registered, Customer, Db}
use tam_backend.Storage.Profiles.{
  get_customer_by_tg_id, get_customer, has_conflict, inserted, create_customer, update_customer,
}
use tam_backend.Storage.Profiles.Distinct.{IsUnique, IsUnique-HasNoConflicts}
use tam_backend.Storage.Profiles.Unique.{lookup-customer_by_tg_id}
use tam_backend.Server.Outcome.{success, fail, Answers}
use tam_backend.Server.Auth.{
  TgUser, AuthEnv, uint_32, set_addresses, set_registered, AuthOutcome, with_token, with_registered,
  with_status, with_customer, with_addresses, with_created, with_known, on_auth,
}

-- A result whose row, if it returns one, is stored under the key and has the property.
abbrev Returned : ℕ → (Customer → Type 0) → Result Customer × Db → Type 0
Returned id P (err e, db) = Unit
Returned id P (ok c, db) = (lookup id db.customers ≡ some c) × P c

get_customer-Returned :
    (id : ℕ) (P : Customer → Type 0) (up : Bool) (c : Customer) (db : Db)
    → lookup id db.customers ≡ some c
    → P c
    → Returned id P (get_customer up id db, db)
unfolding get_customer
get_customer-Returned id P up c db l p = elim (Bool-cases up) [
  | inr e ↦ rw e (ground arith)
  | inl e ↦ rw (e, l, get_customer) (l, p)
]

module _ (id : ℕ) (P : Customer → Type 0) (db : Db) where
  update_customer-Returned :
      (up : Bool) (f : Customer → Customer) (c : Customer)
      → lookup id db.customers ≡ some c
      → P (f c)
      → Returned id P (update_customer up id f db)
  unfolding update_customer
  update_customer-Returned up f c l p = elim (Bool-cases up) [
    | inr e ↦ rw e (ground arith)
    | inl e ↦ elim (Bool-cases (has_conflict id (f c) db.customers)) [
      | inl q ↦ rw (e, l, q) (ground arith)
      | inr q ↦ rw (e, l, q) (lookup-modify-some id f db.customers c l, p)
    ]
  ]

  create_customer-Returned :
      (write_up read_up : Bool) (tg : ℕ) (hd : ℤ)
      → P (inserted tg hd)
      → Returned id P (create_customer write_up read_up id tg hd db)
  unfolding create_customer get_customer
  create_customer-Returned write_up read_up tg hd p = elim (Bool-cases write_up) [
    | inr e ↦ rw e (ground arith)
    | inl e ↦ elim (Bool-cases (has_conflict id (inserted tg hd) db.customers)) [
      | inl q ↦ rw (e, q) (ground arith)
      | inr q ↦
          rw (e, q)
            (get_customer-Returned id P read_up (inserted tg hd)
              (record db { customers = (id, inserted tg hd) ∷ db.customers }) (rw (==_refl id) refl)
              p)
    ]
  ]

-- A token was given: it is signed for the row that is stored under the key, a registered customer
-- with the Telegram id of the user.
abbrev pub Granted : AuthEnv → TgUser → AuthOutcome → Type 0
Granted env user (o, token) =
    (k : ℕ) × (c : Customer) × (s : Text) × (token ≡ some s)
    × (o.reply ≡ success 200)
    × (env.generate_jwt k c ≡ some s)
    × (lookup k o.db.customers ≡ some c)
    × (c.tg_id ≡ user.user_id)
    × (c.customer_status ≡ registered)

-- A reply to a login: an error without a token, or a token.
abbrev Answered : AuthEnv → TgUser → AuthOutcome → Type 0
Answered env user (o, token) =
    ((e : Error) × (o.reply ≡ fail e) × (token ≡ none)) ⊎ Granted env user (o, token)

with_token-Answered :
    (env : AuthEnv) (user : TgUser) (k : ℕ) (c : Customer) (db : Db)
    → lookup k db.customers ≡ some c
    → c.tg_id ≡ user.user_id
    → c.customer_status ≡ registered
    → Answered env user (with_token env k c db)
unfolding with_token
with_token-Answered env user k c db l same reg = elim (Option-cases (env.generate_jwt k c)) [
  | inl e ↦ rw (e, with_token) (inl (internal_error, refl, refl))
  | inr (s, e) ↦ rw (e, with_token) (inr (k, c, s, refl, refl, e, l, same, reg))
]

-- The stored row has the user's Telegram id.
abbrev Known : TgUser → Customer → Type 0
Known user c = c.tg_id ≡ user.user_id

with_registered-Answered :
    (env : AuthEnv) (user : TgUser) (k : ℕ) (r : Result Customer × Db)
    → Returned k (λ c. Known user c × (c.customer_status ≡ registered)) r
    → Answered env user (with_registered env k r)
unfolding with_registered
with_registered-Answered env user k (err e, db) h = inl (internal_error, refl, refl)
with_registered-Answered env user k (ok c, db) h =
    with_token-Answered env user k c db h.0 h.1.0 h.1.1

with_status-Answered :
    (env : AuthEnv) (up : Answers) (user : TgUser) (k : ℕ) (c : Customer) (db : Db)
    (s : CustomerStatus)
    → lookup k db.customers ≡ some c
    → Known user c
    → c.customer_status ≡ s
    → Answered env user (with_status env up user k c db s)
unfolding with_status
with_status-Answered env up user k c db pre_registration l same e =
    with_registered-Answered env user k (update_customer (up 4) k (set_registered user) db) (
      update_customer-Returned k (λ d. Known user d × (d.customer_status ≡ registered)) db (up 4)
        (set_registered user) c l (same, refl))
with_status-Answered env up user k c db registered l same e =
    with_token-Answered env user k c db l same e

with_customer-Answered :
    (env : AuthEnv) (up : Answers) (user : TgUser) (k : ℕ) (c : Customer) (db : Db)
    → lookup k db.customers ≡ some c
    → Known user c
    → Answered env user (with_customer env up user k c db)
with_customer-Answered env up user k c db l same =
    with_status-Answered env up user k c db c.customer_status l same refl

with_addresses-Answered :
    (env : AuthEnv) (up : Answers) (user : TgUser) (k : ℕ) (r : Result Customer × Db)
    → Returned k (Known user) r
    → Answered env user (with_addresses env up user k r)
unfolding with_addresses
with_addresses-Answered env up user k (err e, db) h = inl (internal_error, refl, refl)
with_addresses-Answered env up user k (ok c, db) h =
    with_customer-Answered env up user k c db h.0 h.1

with_created-Answered :
    (env : AuthEnv) (up : Answers) (user : TgUser) (k : ℕ) (r : Result Customer × Db)
    → Returned k (Known user) r
    → Answered env user (with_created env up user k r)
unfolding with_created
with_created-Answered env up user k (err e, db) h = inl (internal_error, refl, refl)
with_created-Answered env up user k (ok c, db) h =
    elim (Option-cases (env.get_address (uint_32 c.wallet_hd_id))) [
      | inl a ↦ rw (a, with_created) (inl (internal_error, refl, refl))
      | inr ((b, n), a) ↦
          rw (a, with_created)
            (with_addresses-Answered env up user k (update_customer (up 3) k (set_addresses b n) db)
              (update_customer-Returned k (Known user) db (up 3) (set_addresses b n) c h.0 h.1))
    ]

with_known-Answered :
    (env : AuthEnv) (up : Answers) (id : ℕ) (hd : ℤ) (user : TgUser) (db : Db)
    (r : Result (ℕ × Customer))
    → ((k : ℕ) (c : Customer) → r ≡ ok (k, c) → (lookup k db.customers ≡ some c) × Known user c)
    → Answered env user (with_known env up id hd user db r)
unfolding with_known
with_known-Answered env up id hd user db (ok (k, c)) h =
    let (l, same) = h k c refl in with_customer-Answered env up user k c db l same
with_known-Answered env up id hd user db (err not_found) h =
    with_created-Answered env up user id (create_customer (up 1) (up 2) id user.user_id hd db)
      (create_customer-Returned id (Known user) db (up 1) (up 2) user.user_id hd refl)
with_known-Answered env up id hd user db (err _) h = inl (internal_error, refl, refl)

found_row :
    (up : Bool) (tg : ℕ) (db : Db)
    → IsUnique db.customers
    → (k : ℕ) (c : Customer) → get_customer_by_tg_id up tg db ≡ ok (k, c)
    → (lookup k db.customers ≡ some c) × (c.tg_id ≡ tg)
unfolding get_customer_by_tg_id
found_row up tg db u k c h =
    lookup-customer_by_tg_id tg k c db.customers (IsUnique-HasNoConflicts db.customers u)
      (ground arith)

-- If the customers are unique, `onAuth` either answers with an error and gives no token, or it has
-- validated the init data, and answers with success and a token that is signed for the row that is
-- stored under its key: a registered customer with the Telegram id of the init data.
pub on_auth-Granted :
    (env : AuthEnv) (up : Answers) (id : ℕ) (hd : ℤ) (body : Option Text) (db : Db)
    → IsUnique db.customers
    → ((e : Error) × ((on_auth env up id hd body db).0.reply ≡ fail e)
        × ((on_auth env up id hd body db).1 ≡ none))
      ⊎ ((init_data : Text) × (user : TgUser) × (body ≡ some init_data)
          × (env.validate init_data ≡ true)
          × (env.parse init_data ≡ some user)
          × Granted env user (on_auth env up id hd body db))
unfolding on_auth
on_auth-Granted env up id hd none db u = inl (invalid_request, refl, refl)
on_auth-Granted env up id hd (some init_data) db u = elim (Bool-cases (env.validate init_data)) [
  | inr v ↦ rw (v, on_auth) (inl (unauthorized, refl, refl))
  | inl v ↦ elim (Option-cases (env.parse init_data)) [
    | inl p ↦ rw (v, p, on_auth) (inl (invalid_request, refl, refl))
    | inr (user, p) ↦
        let answered =
          with_known-Answered env up id hd user db (get_customer_by_tg_id (up 0) user.user_id db)
            (found_row (up 0) user.user_id db u) in
        elim answered [
          | inl x ↦ rw (v, p, on_auth) (inl x)
          | inr g ↦ rw (v, p, on_auth) (inr (init_data, user, refl, v, p, g))
        ]
  ]
]
