-- ===== src/Bot/Start.antt =====
-- The command /start of the bot: `onStart` of internal/modules/telegram_bot/main_handlers.go on the
-- customers. The menu that it sends is not modelled; `get_address` is the wallet's.
use tam_backend.Prelude.{
  Option-cases, ℤ, lookup, Text, ℕ, ◌≡◌, refl, inl, inr, Bool, Option, none, some,
}
use tam_backend.Common.Errors.{not_found, Result, ok, err}
use tam_backend.Storage.Schema.{Customer, Db}
use tam_backend.Storage.Profiles.{
  get_customer_by_tg_id, get_customer, create_customer, update_customer,
}
use tam_backend.Storage.Profiles.Keeping.{ProfileKept}
use tam_backend.Server.Auth.{uint_32, set_addresses}

-- The addresses of the new customer, whose row is read again.
unfoldable pub start_fetched :
    (ℕ → Option (Text × Text)) → (ℕ → Bool) → ℕ → Db → Result Customer → Db
start_fetched get_address up id db (err e) = db
start_fetched get_address up id db (ok c) = elim (get_address (uint_32 c.wallet_hd_id)) [
  | none ↦ db
  | some (b, n) ↦ (update_customer (up 4) id (set_addresses b n) db).1
]

unfoldable pub start_created :
    (ℕ → Option (Text × Text)) → (ℕ → Bool) → ℕ → Result Customer × Db → Db
start_created get_address up id (err e, db) = db
start_created get_address up id (ok c, db) =
    start_fetched get_address up id db (get_customer (up 3) id db)

unfoldable pub start_known :
    (ℕ → Option (Text × Text)) → (ℕ → Bool) → ℕ → ℤ → ℕ → Db → Result (ℕ × Customer) → Db
start_known get_address up id hd user db (ok r) = db
start_known get_address up id hd user db (err not_found) =
    start_created get_address up id (create_customer (up 1) (up 2) id user hd db)
start_known get_address up id hd user db (err _) = db

-- `onStart`; `id` and `hd` are what the database generates for a new row.
unfoldable pub on_start : (ℕ → Option (Text × Text)) → (ℕ → Bool) → ℕ → ℤ → ℕ → Db → Db
on_start get_address up id hd user db =
    start_known get_address up id hd user db (get_customer_by_tg_id (up 0) user db)

module _ (P : Db → Type 0) (kept : ProfileKept P) (get_address : ℕ → Option (Text × Text))
    (up : ℕ → Bool) (id : ℕ) where
  start_fetched-keeps :
      (db : Db) (r : Result Customer) → P db → P (start_fetched get_address up id db r)
  unfolding start_fetched
  start_fetched-keeps db (err e) u = u
  start_fetched-keeps db (ok c) u = elim (Option-cases (get_address (uint_32 c.wallet_hd_id))) [
    | inl a ↦ rw (a, start_fetched) u
    | inr ((b, n), a) ↦
        rw (a, start_fetched) (kept.updates (up 4) id (set_addresses b n) db (λ c. (refl, refl)) u)
  ]

  start_created-keeps : (r : Result Customer × Db) → P r.1 → P (start_created get_address up id r)
  unfolding start_created
  start_created-keeps (err e, db) u = u
  start_created-keeps (ok c, db) u = start_fetched-keeps db (get_customer (up 3) id db) u

  start_known-keeps :
      (hd : ℤ) (user : ℕ) (db : Db) (r : Result (ℕ × Customer))
      → lookup id db.customers ≡ none
      → P db
      → P (start_known get_address up id hd user db r)
  unfolding start_known
  start_known-keeps hd user db (ok r) fresh u = u
  start_known-keeps hd user db (err not_found) fresh u =
      start_created-keeps (create_customer (up 1) (up 2) id user hd db)
        (kept.creates (up 1) (up 2) id user hd db fresh u)
  start_known-keeps hd user db (err _) fresh u = u

  pub on_start-keeps :
      (hd : ℤ) (user : ℕ) (db : Db)
      → lookup id db.customers ≡ none
      → P db
      → P (on_start get_address up id hd user db)
  unfolding on_start
  on_start-keeps hd user db fresh u =
      start_known-keeps hd user db (get_customer_by_tg_id (up 0) user db) fresh u
