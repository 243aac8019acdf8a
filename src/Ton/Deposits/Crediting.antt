-- ===== src/Ton/Deposits/Crediting.antt =====
-- What a round of internal/modules/ton/deposit_processor.go does for a deposit that waits, with other
-- deposits before and behind it.
use tam_backend.Prelude.{
  ◌==◌, Bool-cases, Option-cases, filter, ℤ, pos, ◌≤ℤ◌, leb_ℤ, int_laws, lookup, modify,
  lookup-modify_ne, lookup-modify-some, Text, ℕ, ◌≡◌, refl, sym, ◌∙◌, subst, ◌⊎◌, inl, inr, Bool,
  true, false, none, some, [], ◌∷◌, map, arith, ℕ_discrete,
}
use tam_backend.Common.Errors.{not_found, Result, ok, err}
use tam_backend.Storage.Schema.{Customer, Transaction}
use tam_backend.Storage.Customers.{Customers, Updated, add_balances, update_one, TxAnswers}
use tam_backend.Ton.Deposits.{
  Transactions, TransactionsUpdated, is_processing, owns, only, mark_done, set_done, Vault, finish,
  after_credit, credit, for_owner, process_deposit_for_transaction,
}

not_low : (a : ℤ) → leb_ℤ a (pos 0) ≡ false → pos 0 ≤ℤ a
not_low a h = ground arith

-- The customer has at least this free balance.
abbrev pub Holds : ℕ → ℤ → Customers → Type 0
Holds k least cs = (c : Customer) × (lookup k cs ≡ some c) × (least ≤ℤ c.ton_balance)

-- The owner of an address stays the same, and nobody's balance shrinks.
abbrev pub Grows : Text → Customers → Customers → Type 0
Grows addr cs cs' =
    (only (filter (owns addr) cs') ≡ only (filter (owns addr) cs))
    × ((k : ℕ) (least : ℤ) → Holds k least cs → Holds k least cs')

abbrev pub Touched : ℕ → Transactions → Transactions → Type 0
Touched id ts ts' = (ts' ≡ ts) ⊎ (ts' ≡ modify id mark_done ts)

abbrev pub Evolves : Text → ℕ → Vault → Vault → Type 0
Evolves addr id v v' =
    Grows addr v.customers v'.customers × Touched id v.transactions v'.transactions

Grows-refl : (addr : Text) (cs : Customers) → Grows addr cs cs
Grows-refl addr cs = (refl, λ k least h. h)

Evolves-refl : (addr : Text) (id : ℕ) (v : Vault) → Evolves addr id v v
Evolves-refl addr id v = (Grows-refl addr v.customers, inl refl)

-- The owners' keys decide what `only` finds.
only-keys : (xs ys : Customers) → map (λ r. r.0) xs ≡ map (λ r. r.0) ys → only xs ≡ only ys
only-keys [] [] h = refl
only-keys [] (y ∷ ys) h = cc
only-keys (x ∷ xs) [] h = cc
only-keys (x ∷ []) (y ∷ []) h = cc
only-keys (x ∷ []) (y ∷ z ∷ ys) h = cc
only-keys (x ∷ z ∷ xs) (y ∷ []) h = cc
only-keys (x ∷ w ∷ xs) (y ∷ z ∷ ys) h = refl

module _ (k : ℕ) (amount : ℤ) where
  keys-filter :
      (addr : Text) (cs : Customers)
      → map (λ r. r.0) (filter (owns addr) (modify k (add_balances amount (pos 0)) cs))
        ≡ map (λ r. r.0) (filter (owns addr) cs)
  unfolding add_balances
  keys-filter addr [] = refl
  keys-filter addr ((j, c) ∷ cs) = elim (Bool-cases (k == j)) [
    | inl e ↦ elim (Bool-cases (owns addr (j, c))) [
      | inl o ↦ rw (e, o) refl
      | inr o ↦ rw (e, o) refl
    ]
    | inr e ↦ elim (Bool-cases (owns addr (j, c))) [
      | inl o ↦ rw (e, o, keys-filter addr cs) refl
      | inr o ↦ rw (e, o, keys-filter addr cs) refl
    ]
  ]

  Holds-modify :
      (i : ℕ) (least : ℤ) (cs : Customers)
      → pos 0 ≤ℤ amount
      → Holds i least cs
      → Holds i least (modify k (add_balances amount (pos 0)) cs)
  unfolding add_balances
  Holds-modify i least cs more (c, l, h) = elim (ℕ_discrete i k) [
    | yes p ↦ (
      add_balances amount (pos 0) c,
      subst
          (λ n.
            lookup n (modify k (add_balances amount (pos 0)) cs)
            ≡ some (add_balances amount (pos 0) c))
          (sym p)
          (lookup-modify-some k (add_balances amount (pos 0)) cs c
            (subst (λ n. lookup n cs ≡ some c) p l)),
      grind (int_laws, h, more),
    )
    | no p ↦ (c, lookup-modify_ne k (add_balances amount (pos 0)) i cs p ∙ l, h)
  ]

  update_one-Grows :
      (up : Bool) (addr : Text) (cs : Customers)
      → pos 0 ≤ℤ amount
      → Grows addr cs (update_one up k (add_balances amount (pos 0)) cs).1
  unfolding update_one
  update_one-Grows false addr cs more = Grows-refl addr cs
  update_one-Grows true addr cs more = elim (Option-cases (lookup k cs)) [
    | inl e ↦ rw e (Grows-refl addr cs)
    | inr (c, e) ↦ rw e (
      only-keys (filter (owns addr) (modify k (add_balances amount (pos 0)) cs))
          (filter (owns addr) cs) (keys-filter addr cs),
      λ i least h. Holds-modify i least cs more h,
    )
  ]

set_done-Touched : (up : Bool) (id : ℕ) (ts : Transactions) → Touched id ts (set_done up id ts).1
unfolding set_done
set_done-Touched false id ts = inl refl
set_done-Touched true id ts = elim (Option-cases (lookup id ts)) [
  | inl e ↦ rw e (inl refl)
  | inr (t, e) ↦ rw e (inr refl)
]

-- One deposit, whatever the database serves of it.
module _ (addr : Text) (up : TxAnswers) (id : ℕ) (v : Vault) where
  finish-Evolves :
      (cs : Customers) (u : TransactionsUpdated)
      → Grows addr v.customers cs
      → Touched id v.transactions u.1
      → Evolves addr id v (finish up v cs u).1
  finish-Evolves cs (some e, ts) g h = Evolves-refl addr id v
  finish-Evolves cs (none, ts) g h = elim (Bool-cases up.commit_up) [
    | inl e ↦ rw e (g, h)
    | inr e ↦ rw e (Evolves-refl addr id v)
  ]

  after_credit-Evolves :
      (u : Updated) → Grows addr v.customers u.1 → Evolves addr id v (after_credit up id v u).1
  after_credit-Evolves (some e, cs) g = Evolves-refl addr id v
  after_credit-Evolves (none, cs) g =
      finish-Evolves cs (set_done up.second_up id v.transactions) g
        (set_done-Touched up.second_up id v.transactions)

  credit-Evolves : (t : Transaction) (k : ℕ) → Evolves addr id v (credit up id t k v).1
  unfolding credit
  credit-Evolves t k = elim (Bool-cases (leb_ℤ t.amount (pos 0))) [
    | inl h ↦ rw h (Grows-refl addr v.customers, set_done-Touched up.second_up id v.transactions)
    | inr h ↦ elim (Bool-cases up.begin_up) [
      | inr b ↦ rw (h, b) (Evolves-refl addr id v)
      | inl b ↦
          rw (h, b)
            (after_credit-Evolves
              (update_one up.first_up k (add_balances t.amount (pos 0)) v.customers)
              (update_one-Grows k t.amount up.first_up addr v.customers (not_low t.amount h)))
    ]
  ]

  for_owner-Evolves : (t : Transaction) (r : Result ℕ) → Evolves addr id v (for_owner up id t v r).1
  for_owner-Evolves t (err not_found) = Evolves-refl addr id v
  for_owner-Evolves t (err e) = Evolves-refl addr id v
  for_owner-Evolves t (ok k) = credit-Evolves t k

pub process-Evolves :
    (addr : Text) (up : ℕ → Bool) (tx_up : TxAnswers) (id : ℕ) (v : Vault)
    → Evolves addr id v (process_deposit_for_transaction up tx_up id v).1
unfolding process_deposit_for_transaction
process-Evolves addr up tx_up id v = elim (Bool-cases (up 0)) [
  | inr a ↦ rw a (Evolves-refl addr id v)
  | inl a ↦ elim (Option-cases (lookup id v.transactions)) [
    | inl e ↦ rw (a, e) (Evolves-refl addr id v)
    | inr (t, e) ↦ elim (Bool-cases (is_processing t.status)) [
      | inr p ↦ rw (a, e, p) (Evolves-refl addr id v)
      | inl p ↦ elim (Bool-cases (up 1)) [
        | inr b ↦ rw (a, e, p, b) (Evolves-refl addr id v)
        | inl b ↦
            rw (a, e, p, b)
              (for_owner-Evolves addr tx_up id v t
                (only (filter (owns t.wallet_address) v.customers)))
      ]
    ]
  ]
]
