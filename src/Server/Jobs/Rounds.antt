-- ===== src/Server/Jobs/Rounds.antt =====
-- A round of a job of internal/modules/server that the database serves leaves nothing of its kind to
-- do: deal_publisher.go and balance_cron.go.
use tam_backend.Storage.Deals.Update.{update_deal-cases, update_deal-served, update_deal-missing}
use tam_backend.Prelude.{
  Bool-cases, Option-cases, filter, all, lookup, modify, lookup-modify_ne, lookup-modify-some, ℕ,
  ◌≡◌, sym, ◌∙◌, subst, ◌≢◌, ◌⊎◌, inl, inr, Bool, true, false, Option, none, some, [], ◌∷◌, arith,
  ℕ_discrete,
}
use tam_backend.Storage.Schema.{Customer, Deal, Db}
use tam_backend.Storage.Deals.{Deals, update_deal, of_row, is_expired, get_expired_deals}
use tam_backend.Server.Jobs.{Work, each, Round, expire, expire_one, check_and_expire_deals, fetched}

-- The key `i` is that of a row.
abbrev pub HasKey : ℕ → Deals → Type 0
HasKey i [] = ⊥
HasKey i ((j, d) ∷ ds) = (i ≡ j) ⊎ HasKey i ds

-- Every deal of the table is good.
abbrev pub AllRows : (Deal → Type 0) → Deals → Type 0
AllRows Good [] = Unit
AllRows Good ((j, d) ∷ ds) = Good d × AllRows Good ds

all_units : (ds : Deals) → AllRows (λ d. Unit) ds
all_units [] = tt
all_units ((j, d) ∷ ds) = (tt, all_units ds)

other : (i j : ℕ) (ds : Deals) → i ≢ j → (i ≡ j) ⊎ HasKey i ds → HasKey i ds
other i j ds ne (inl p) = elim (ne p) [ ]
other i j ds ne (inr h) = h

pub filter-HasKey :
    (p : Deal → Bool) (ds : Deals) (i : ℕ) (d : Deal)
    → lookup i ds ≡ some d
    → p d ≡ true
    → HasKey i (filter (of_row p) ds)
filter-HasKey p [] i d e h = ground arith
filter-HasKey p ((j, c) ∷ ds) i d e h = elim (ℕ_discrete i j) [
  | yes q ↦ elim (Bool-cases (p c)) [
    | inl a ↦ ground (arith, q, a)
    | inr a ↦ ground (arith, e, q, a, h)
  ]
  | no q ↦ elim (Bool-cases (p c)) [
    | inl a ↦ rw a (inr (filter-HasKey p ds i d (ground (arith, e, q)) h))
    | inr a ↦ rw a (filter-HasKey p ds i d (ground (arith, e, q)) h)
  ]
]

absent : {A : Type 0} (o : Option Deal) (d : Deal) → o ≡ none → o ≡ some d → A
absent o d p q = ground arith

impossible :
    {A : Type 0} (i id : ℕ) (d' : Deal) (ds : Deals)
    → i ≡ id
    → lookup id ds ≡ none
    → lookup i ds ≡ some d'
    → A
impossible i id d' ds q a e = absent (lookup id ds) d' a (subst (λ k. lookup k ds ≡ some d') q e)

changed :
    {A : Type 0} (p : Deal → Bool) (f : Deal → Deal) (d d' : Deal)
    → p (f d) ≡ false
    → p d' ≡ true
    → some (f d) ≡ some d'
    → A
changed p f d d' out h e = ground arith

-- An update that takes the deal out of a query leaves the others in it.
pub update_deal-clears :
    (p : Deal → Bool) (id : ℕ) (f : Deal → Deal) (ds : Deals)
    → ((d : Deal) → p (f d) ≡ false)
    → (i : ℕ) (d' : Deal) → lookup i (update_deal true id f ds).1 ≡ some d'
    → p d' ≡ true
    → (i ≢ id) × (lookup i ds ≡ some d')
update_deal-clears p id f ds out i d' e h = elim (ℕ_discrete i id) [
  | no q ↦ elim (update_deal-cases true id f ds) [
    | inl (x, r) ↦ (q, subst (λ u. lookup i u.1 ≡ some d') r e)
    | inr (d, there, r) ↦
        (q, sym (lookup-modify_ne id f i ds q) ∙ subst (λ u. lookup i u.1 ≡ some d') r e)
  ]
  | yes q ↦ elim (Option-cases (lookup id ds)) [
    | inl a ↦
        impossible i id d' ds q a
          (subst (λ u. lookup i u.1 ≡ some d') (update_deal-missing id f ds a) e)
    | inr (d, a) ↦ changed p f d d' (out d) h (
        sym (lookup-modify-some id f ds d a)
        ∙ subst (λ k. lookup k (modify id f ds) ≡ some d') q
            (subst (λ u. lookup i u.1 ≡ some d') (update_deal-served id f ds d a) e))
  ]
]

-- A loop whose body takes its deal, if it is good, out of a query, on deals that hold all of the
-- query.
module _ (p : Deal → Bool) (Good : Deal → Type 0) (Inv : Work → Type 0)
    (body : ℕ → Deal → Work → Work)
    (keeps : (id : ℕ) (d : Deal) (w : Work) → Good d → Inv w → Inv (body id d w))
    (clears : (id : ℕ) (d : Deal) (w : Work)
      → Good d
      → Inv w
      → (i : ℕ) (d' : Deal) → lookup i (body id d w).0.deals ≡ some d'
      → p d' ≡ true
      → (i ≢ id) × (lookup i w.0.deals ≡ some d')) where
  pub each-clears :
      (ds : Deals) (w : Work)
      → AllRows Good ds
      → Inv w
      → ((i : ℕ) (d' : Deal) → lookup i w.0.deals ≡ some d' → p d' ≡ true → HasKey i ds)
      → (i : ℕ) (d' : Deal) → lookup i (each body ds w).0.deals ≡ some d'
      → p d' ≡ false
  unfolding each
  each-clears [] w good inv all i d' e = elim (Bool-cases (p d')) [
    | inl h ↦ elim (all i d' e h) [ ]
    | inr h ↦ h
  ]
  each-clears ((id, d) ∷ ds) w (g, good) inv all i d' e =
      each-clears ds (body id d w) good (keeps id d w g inv)
        (λ k c there h.
          let (ne, before) = clears id d w g inv k c there h in other k id ds ne (all k c before h))
        i d' e

-- The customers of `read` are still there.
abbrev pub Present : Db → Work → Type 0
Present read (db, es) =
    (k : ℕ) (c : Customer)
    → lookup k read.customers ≡ some c
    → (c' : Customer) × (lookup k db.customers ≡ some c')

-- `expire` takes a deal out of the query of expired deals.
expire-out : (asked now : ℕ) (d : Deal) → is_expired asked (expire now d) ≡ false
expire-out asked now d = ground arith

-- Once the database has served a whole round of the job that expires deals, no deal is left that the
-- query of the round would find.
pub check_and_expire_deals-clears :
    (r : Round) (db : Db)
    → r.fetch_up ≡ true
    → ((id : ℕ) → r.up id 0 ≡ true)
    → (i : ℕ) (d : Deal) → lookup i (check_and_expire_deals r db).0.deals ≡ some d
    → is_expired r.asked_at d ≡ false
unfolding check_and_expire_deals expire_one get_expired_deals
check_and_expire_deals-clears r db fetch up i d e =
    each-clears (is_expired r.asked_at) (λ d. Unit) (λ w. Unit) (expire_one r) (λ id d w g x. tt)
      (λ id d w g x. rw (up id) (
        update_deal-clears (is_expired r.asked_at) id (expire r.now) w.0.deals
          (expire-out r.asked_at r.now)))
      (get_expired_deals r.asked_at db.deals) (db, [])
      (all_units (get_expired_deals r.asked_at db.deals)) tt
      (filter-HasKey (is_expired r.asked_at) db.deals) i d
      (subst
        (λ b.
          lookup i
            (each (expire_one r) (fetched b (get_expired_deals r.asked_at db.deals))
              (db, [])).0.deals
          ≡ some d)
        fetch e)
