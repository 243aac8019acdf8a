-- ===== src/Server/DealHandlers/Locking.antt =====
-- What `MakeDeal` of internal/modules/server/deal_handlers.go does to the advertiser's balance.
use mathlib.Core.Path.{fun_ext}
use tam_backend.Common.Errors.{Error, invalid_request, insufficient_balance}
use tam_backend.Common.DealStatus.{draft, pending, expired, get_deal_status_duration}
use tam_backend.Storage.Deals.Update.{update_deal-cases}
use tam_backend.Prelude.{
  ltb, if◌then◌else◌, Bool-cases, Option-cases, leb_ℤ, lookup, modify, ℕ, ◌+◌, ◌≡◌, refl, sym, ap,
  ◌∙◌, subst, ◌⊎◌, inl, inr, Bool, true, false, Option, none, some, arith,
}
use tam_backend.Common.Datetime.{PreferableDatetime, validate_preferable_datetime}
use tam_backend.Storage.Schema.{Customer, Target, Db, Deal}
use tam_backend.Storage.Customers.{Customers, zero_ton, lock_balance_for_deal}
use tam_backend.Storage.Customers.Money.{locked, lock-cases}
use tam_backend.Storage.Deals.{DealsUpdated, status_eq, update_deal}
use tam_backend.Storage.Views.{DealView}
use tam_backend.Server.Outcome.{success, Outcome, Env, Answers, refuse}
use tam_backend.Server.DealHandlers.{made, after_make, after_lock, make_deal}

-- A target with the window that was asked for, or with its own window if none was.
abbrev rescheduled : Option PreferableDatetime → Target → Target
rescheduled none t = t
rescheduled (some p) t = record t { preferable_datetime = some p }

-- A draft that has been ordered: 24 hours of 3600 seconds to answer, and pending, unless the clock has
-- passed that deadline when the row is written.
abbrev pub placed : Env → Option PreferableDatetime → Target → Deal → Deal
placed env pd t d = record d {
  target = some (rescheduled pd t);
  expires_at = env.now + 86400;
  status = if ltb (env.now + 86400) env.later then expired else pending;
}

made-placed :
    (env : Env) (pd : Option PreferableDatetime) (t : Target) (d : Deal)
    → made env pd t d ≡ placed env pd t d
unfolding get_deal_status_duration
made-placed env none t d = refl
made-placed env (some p) t d = refl

-- What a reply of success of `make_deal` stands for: the advertiser's free balance covered the price,
-- the price is locked, and the deal's row has the target that was read, with the window asked for, its
-- deadline and its status.
abbrev pub Locked : Env → Option PreferableDatetime → DealView → Db → Outcome → Type 0
Locked env pd v db o =
    (c : Customer) × (t : Target) × (v.deal.target ≡ some t)
    × (lookup v.deal.advertiser_customer_id db.customers ≡ some c)
    × (leb_ℤ v.deal.ton_price c.ton_balance ≡ true)
    × (o.db.customers ≡ locked v.deal db.customers)
    × (o.db.deals ≡ modify v.deal_id (placed env pd t) db.deals)

failed : {A : Type 0} (e : Error) → some e ≡ none → A
failed e h = ground arith

refused : (e : Error) (db : Db) (n : ℕ) (A : Type 0) → (refuse e db).reply ≡ success n → A
refused e db n A h = ground arith

module _ (env : Env) (pd : Option PreferableDatetime) (v : DealView) (db : Db) where
  after_make-success :
      (n : ℕ) (cs : Customers) (u : DealsUpdated)
      → (after_make v (record db { customers = cs }) u).reply ≡ success n
      → (u.0 ≡ none)
        × ((after_make v (record db { customers = cs }) u).db
            ≡ record db { customers = cs; deals = u.1 })
  after_make-success n cs (some e, ds) h = ground arith
  after_make-success n cs (none, ds) h = elim (Option-cases v.channel_manager) [
    | inl q ↦ ground (arith, h, q)
    | inr (m, q) ↦ (refl, rw q refl)
  ]

  after_make-Locked :
      (up : Bool) (t : Target) (n : ℕ) (c : Customer)
      → v.deal.target ≡ some t
      → lookup v.deal.advertiser_customer_id db.customers ≡ some c
      → leb_ℤ v.deal.ton_price c.ton_balance ≡ true
      → (after_lock env up pd t v db (none, locked v.deal db.customers)).reply ≡ success n
      → Locked env pd v db (after_lock env up pd t v db (none, locked v.deal db.customers))
  after_make-Locked up t n c target e covered h =
      let u = update_deal up v.deal_id (made env pd t) db.deals in
      let (fine, p) = after_make-success n (locked v.deal db.customers) u h in
      (
        c,
        t,
        target,
        e,
        covered,
        ap (λ x. x.customers) p,
        ap (λ x. x.deals) p
            ∙ elim (update_deal-cases up v.deal_id (made env pd t) db.deals) [
              | inl (x, q) ↦ failed x (ap (λ y. y.0) (sym q) ∙ fine)
              | inr (d, there, q) ↦ ap (λ y. y.1) q
            ]
            ∙ ap (λ f. modify v.deal_id f db.deals) (fun_ext (made-placed env pd t)),
      )

  after_lock-success :
      (up : Bool) (t : Target) (n : ℕ) (lock_up : Bool)
      → v.deal.target ≡ some t
      → leb_ℤ v.deal.ton_price zero_ton ≡ false
      → (after_lock env up pd t v db (lock_balance_for_deal lock_up v.deal db.customers)).reply
        ≡ success n
      → Locked env pd v db
          (after_lock env up pd t v db (lock_balance_for_deal lock_up v.deal db.customers))
  after_lock-success up t n lock_up target price h =
      elim (lock-cases lock_up v.deal db.customers price) [
        | inl (e, p) ↦
            refused insufficient_balance db n
              (Locked env pd v db
                (after_lock env up pd t v db (lock_balance_for_deal lock_up v.deal db.customers)))
              (subst (λ x. (after_lock env up pd t v db x).reply ≡ success n) p h)
        | inr (c, e, covered, p) ↦ rw p (
            after_make-Locked up t n c target e covered
              (subst (λ x. (after_lock env up pd t v db x).reply ≡ success n) p h))
      ]

  pub make_deal-cases :
      (up : Answers)
      → (make_deal env up pd v db ≡ refuse invalid_request db)
        ⊎ ((t : Target) × (v.deal.target ≡ some t)
            × (status_eq v.deal.status draft ≡ true)
            × (validate_preferable_datetime env.tomorrow pd ≡ none)
            × (make_deal env up pd v db
                ≡ after_lock env
                    (up 1)
                    pd
                    t
                    v
                    db
                    (lock_balance_for_deal (up 0) v.deal db.customers)))
  unfolding make_deal
  make_deal-cases up = elim (Bool-cases (status_eq v.deal.status draft)) [
    | inr e ↦ inl (rw e refl)
    | inl e ↦ elim (Option-cases v.deal.target) [
      | inl q ↦ inl (rw (e, q) refl)
      | inr (t, q) ↦ elim (Option-cases (validate_preferable_datetime env.tomorrow pd)) [
        | inr (x, p) ↦ inl (rw (e, q, p) refl)
        | inl p ↦ inr (t, q, e, p, simp (e, q, p))
      ]
    ]
  ]

-- If `make_deal` succeeds for a deal with a price, the deal was a draft, the advertiser's free balance
-- covered the price, exactly the price has gone from there to the locked balance, and the deal's row
-- has the target that was read, with the window that was asked for, a deadline of 24 hours and the
-- status PENDING, or EXPIRED if the clock has passed the deadline when the row is written.
pub make_deal-success :
    (env : Env) (up : Answers) (pd : Option PreferableDatetime) (v : DealView) (db : Db) (n : ℕ)
    → leb_ℤ v.deal.ton_price zero_ton ≡ false
    → (make_deal env up pd v db).reply ≡ success n
    → (status_eq v.deal.status draft ≡ true)
      × (validate_preferable_datetime env.tomorrow pd ≡ none)
      × Locked env pd v db (make_deal env up pd v db)
make_deal-success env up pd v db n price h = elim (make_deal-cases env pd v db up) [
  | inl p ↦ refused invalid_request db n _ (ap (λ o. o.reply) (sym p) ∙ h)
  | inr (t, target, e, d, p) ↦ (
    e,
    d,
    rw p (
        after_lock-success env pd v db (up 1) t n (up 0) target price
          (ap (λ o. o.reply) (sym p) ∙ h)),
  )
]
