-- ===== src/Server/Auth/Keeping.antt =====
-- What `onAuth` and `UpdateMe` of internal/modules/server leave as it is.
use tam_backend.Prelude.{
  Bool-cases, Option-cases, ℤ, lookup, Text, ℕ, ◌≡◌, refl, inl, inr, Bool, Option, none, some,
}
use tam_backend.Common.Errors.{not_found, Result, ok, err}
use tam_backend.Storage.Schema.{CustomerStatus, pre_registration, registered, Customer, Db}
use tam_backend.Storage.Profiles.{get_customer_by_tg_id, create_customer, update_customer}
use tam_backend.Storage.Profiles.Keeping.{ProfileKept}
use tam_backend.Server.Outcome.{Answers}
use tam_backend.Server.Auth.{
  TgUser, AuthEnv, uint_32, set_addresses, set_registered, with_token, with_registered, with_status,
  with_addresses, with_created, with_known, on_auth, UpdateMeRequest, apply_update,
  after_profile_update, update_me,
}

module _ (P : Db → Type 0) (kept : ProfileKept P) (env : AuthEnv) where
  with_token-keeps : (k : ℕ) (c : Customer) (db : Db) → P db → P (with_token env k c db).0.db
  unfolding with_token
  with_token-keeps k c db u = elim (Option-cases (env.generate_jwt k c)) [
    | inl e ↦ rw (e, with_token) u
    | inr (s, e) ↦ rw (e, with_token) u
  ]

  with_registered-keeps :
      (k : ℕ) (r : Result Customer × Db) → P r.1 → P (with_registered env k r).0.db
  unfolding with_registered
  with_registered-keeps k (err e, db) u = u
  with_registered-keeps k (ok c, db) u = with_token-keeps k c db u

  with_status-keeps :
      (up : Answers) (user : TgUser) (k : ℕ) (c : Customer) (db : Db) (s : CustomerStatus)
      → P db
      → P (with_status env up user k c db s).0.db
  unfolding with_status
  with_status-keeps up user k c db pre_registration u =
      with_registered-keeps k (update_customer (up 4) k (set_registered user) db)
        (kept.updates (up 4) k (set_registered user) db (λ c. (refl, refl)) u)
  with_status-keeps up user k c db registered u = with_token-keeps k c db u

  with_addresses-keeps :
      (up : Answers) (user : TgUser) (k : ℕ) (r : Result Customer × Db)
      → P r.1
      → P (with_addresses env up user k r).0.db
  unfolding with_addresses
  with_addresses-keeps up user k (err e, db) u = u
  with_addresses-keeps up user k (ok c, db) u = with_status-keeps up user k c db c.customer_status u

  with_created-keeps :
      (up : Answers) (user : TgUser) (k : ℕ) (r : Result Customer × Db)
      → P r.1
      → P (with_created env up user k r).0.db
  unfolding with_created
  with_created-keeps up user k (err e, db) u = u
  with_created-keeps up user k (ok c, db) u =
      elim (Option-cases (env.get_address (uint_32 c.wallet_hd_id))) [
        | inl a ↦ rw (a, with_created) u
        | inr ((b, n), a) ↦
            rw (a, with_created)
              (with_addresses-keeps up user k (update_customer (up 3) k (set_addresses b n) db)
                (kept.updates (up 3) k (set_addresses b n) db (λ c. (refl, refl)) u))
      ]

  with_known-keeps :
      (up : Answers) (id : ℕ) (hd : ℤ) (user : TgUser) (db : Db) (r : Result (ℕ × Customer))
      → lookup id db.customers ≡ none
      → P db
      → P (with_known env up id hd user db r).0.db
  unfolding with_known
  with_known-keeps up id hd user db (ok (k, c)) fresh u =
      with_status-keeps up user k c db c.customer_status u
  with_known-keeps up id hd user db (err not_found) fresh u =
      with_created-keeps up user id (create_customer (up 1) (up 2) id user.user_id hd db)
        (kept.creates (up 1) (up 2) id user.user_id hd db fresh u)
  with_known-keeps up id hd user db (err _) fresh u = u

  pub on_auth-keeps :
      (up : Answers) (id : ℕ) (hd : ℤ) (body : Option Text) (db : Db)
      → lookup id db.customers ≡ none
      → P db
      → P (on_auth env up id hd body db).0.db
  unfolding on_auth
  on_auth-keeps up id hd none db fresh u = u
  on_auth-keeps up id hd (some init_data) db fresh u = elim (Bool-cases (env.validate init_data)) [
    | inr v ↦ rw (v, on_auth) u
    | inl v ↦ elim (Option-cases (env.parse init_data)) [
      | inl p ↦ rw (v, p, on_auth) u
      | inr (user, p) ↦
          rw (v, p, on_auth)
            (with_known-keeps up id hd user db (get_customer_by_tg_id (up 0) user.user_id db) fresh
              u)
    ]
  ]

module _ (P : Db → Type 0) (kept : ProfileKept P) where
  after_profile_update-keeps : (r : Result Customer × Db) → P r.1 → P (after_profile_update r).db
  unfolding after_profile_update
  after_profile_update-keeps (err e, db) u = u
  after_profile_update-keeps (ok c, db) u = u

  pub update_me-keeps :
      (up : Bool) (k : ℕ) (body : Option UpdateMeRequest) (db : Db)
      → P db
      → P (update_me up k body db).db
  unfolding update_me
  update_me-keeps up k none db u = u
  update_me-keeps up k (some req) db u =
      after_profile_update-keeps (update_customer up k (apply_update req) db)
        (kept.updates up k (apply_update req) db (λ c. (refl, refl)) u)
