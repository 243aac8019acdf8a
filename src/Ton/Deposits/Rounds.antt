-- ===== src/Ton/Deposits/Rounds.antt =====
-- A deposit in a round of internal/modules/ton/deposit_processor.go that is served for it.
use tam_backend.Prelude.{
  ◌==◌, Bool-cases, filter, any, ℤ, pos, ◌+ℤ◌, leb_ℤ, int_laws, lookup, modify, lookup-modify_ne,
  lookup-modify-some, ℕ, ◌≡◌, refl, sym, ap, ◌∙◌, subst, ◌≢◌, inl, inr, Bool, true, false, some,
  List, [], ◌∷◌, arith, ℕ_discrete,
}
use tam_backend.Common.Errors.{ok}
use tam_backend.Storage.Schema.{Transaction}
use tam_backend.Storage.Customers.{add_balances, TxAnswers}
use tam_backend.Storage.Customers.Money.{update_one-served}
use tam_backend.Ton.Deposits.{
  Transactions, is_processing, get_processing_transaction_ids, owns, only, mark_done, set_done,
  Vault, credit, process_deposit_for_transaction, Supply, process_each, run_deposit_processor_cycle,
}
use tam_backend.Ton.Deposits.Crediting.{Holds, Touched, process-Evolves}

-- The database transaction of a deposit is served.
abbrev pub tx_served : TxAnswers
tx_served = record { begin_up = true; first_up = true; second_up = true; commit_up = true }

lookup-Touched :
    (i j : ℕ) (ts ts' : Transactions) → i ≢ j → Touched j ts ts' → lookup i ts' ≡ lookup i ts
lookup-Touched i j ts ts' ne (inl p) = ap (lookup i) p
lookup-Touched i j ts ts' ne (inr p) = ap (lookup i) p ∙ lookup-modify_ne j mark_done i ts ne

lookup-mark_done :
    (i j : ℕ) (t : Transaction) (ts ts' : Transactions)
    → Touched j ts ts'
    → lookup i ts ≡ some (mark_done t)
    → lookup i ts' ≡ some (mark_done t)
lookup-mark_done i j t ts ts' (inl p) h = ap (lookup i) p ∙ h
lookup-mark_done i j t ts ts' (inr p) h = elim (ℕ_discrete i j) [
  | no ne ↦ lookup-Touched i j ts ts' ne (inr p) ∙ h
  | yes e ↦
      ap (lookup i) p
      ∙ subst (λ n. lookup i (modify n mark_done ts) ≡ some (mark_done t)) e
          (lookup-modify-some i mark_done ts (mark_done t) h)
]

queued :
    (id : ℕ) (t : Transaction) (ts : Transactions)
    → lookup id ts ≡ some t
    → is_processing t.status ≡ true
    → any (λ j. id == j) (get_processing_transaction_ids ts) ≡ true
unfolding get_processing_transaction_ids
queued id t [] h w = cc
queued id t ((j, x) ∷ ts) h w = elim (Bool-cases (id == j)) [
  | inl e ↦
      let found : some x ≡ some t = rw e at h in
      let same : x ≡ t = cc in
      let working : is_processing x.status ≡ true =
        subst (λ y. is_processing y.status ≡ true) (sym same) w in
      rw (working, e, get_processing_transaction_ids) refl
  | inr e ↦
      let deeper = queued id t ts (rw e at h) w in
      elim (Bool-cases (is_processing x.status)) [
        | inl i ↦ rw (i, e, get_processing_transaction_ids) deeper
        | inr i ↦ rw (i, get_processing_transaction_ids) deeper
      ]
]

module _ (id k : ℕ) (t : Transaction) (least : ℤ) (waiting : is_processing t.status ≡ true)
    (some_amount : leb_ℤ t.amount (pos 0) ≡ false) where
  abbrev Waits : Vault → Type 0
  Waits v =
      (lookup id v.transactions ≡ some t)
      × (only (filter (owns t.wallet_address) v.customers) ≡ ok k)
      × Holds k least v.customers

  abbrev Paid : Vault → Type 0
  Paid v = (lookup id v.transactions ≡ some (mark_done t)) × Holds k (least +ℤ t.amount) v.customers

  other-Waits :
      (s : Supply) (j : ℕ) (v : Vault)
      → id ≢ j
      → Waits v
      → Waits (process_deposit_for_transaction (s.reads_up j) (s.tx_up j) j v).1
  other-Waits s j v ne (there, own, holds) =
      let ((keeps, grows), touched) =
        process-Evolves t.wallet_address (s.reads_up j) (s.tx_up j) j v in
      (lookup-Touched id j _ _ ne touched ∙ there, keeps ∙ own, grows k least holds)

  step-Paid :
      (s : Supply) (j : ℕ) (v : Vault)
      → Paid v
      → Paid (process_deposit_for_transaction (s.reads_up j) (s.tx_up j) j v).1
  step-Paid s j v (there, holds) =
      let ((keeps, grows), touched) =
        process-Evolves t.wallet_address (s.reads_up j) (s.tx_up j) j v in
      (lookup-mark_done id j t _ _ touched there, grows k (least +ℤ t.amount) holds)

  each-Paid : (s : Supply) (ids : List ℕ) (v : Vault) → Paid v → Paid (process_each s ids v)
  unfolding process_each
  each-Paid s [] v p = p
  each-Paid s (j ∷ ids) v p =
      each-Paid s ids (process_deposit_for_transaction (s.reads_up j) (s.tx_up j) j v).1
        (step-Paid s j v p)

  self-Paid :
      (up : ℕ → Bool) (v : Vault)
      → ((n : ℕ) → up n ≡ true)
      → Waits v
      → Paid (process_deposit_for_transaction up tx_served id v).1
  unfolding process_deposit_for_transaction credit set_done add_balances
  self-Paid up v a (there, own, (c, l, h)) =
      rw
        (
          a 0,
          there,
          waiting,
          a 1,
          own,
          some_amount,
          update_one-served k (add_balances t.amount (pos 0)) v.customers c l,
          there,
        )
        (
          lookup-modify-some id mark_done v.transactions t there,
          (
            add_balances t.amount (pos 0) c,
            lookup-modify-some k (add_balances t.amount (pos 0)) v.customers c l,
            grind (int_laws, h),
          ),
        )

  each-pays :
      (s : Supply) (ids : List ℕ) (v : Vault)
      → ((n : ℕ) → s.reads_up id n ≡ true)
      → s.tx_up id ≡ tx_served
      → any (λ j. id == j) ids ≡ true
      → Waits v
      → Paid (process_each s ids v)
  unfolding process_each
  each-pays s [] v a b q w = cc
  each-pays s (j ∷ ids) v a b q w = elim (ℕ_discrete id j) [
    | yes e ↦
        let v' = (process_deposit_for_transaction (s.reads_up j) (s.tx_up j) j v).1 in
        each-Paid s ids v' (
          subst (λ n. Paid (process_deposit_for_transaction (s.reads_up n) (s.tx_up n) n v).1) e
            (subst (λ u. Paid (process_deposit_for_transaction (s.reads_up id) u id v).1) (sym b)
              (self-Paid (s.reads_up id) v a w)))
    | no ne ↦
        let off : (id == j) ≡ false = ground arith in
        each-pays s ids (process_deposit_for_transaction (s.reads_up j) (s.tx_up j) j v).1 a b
          (rw off at q) (other-Waits s j v ne w)
  ]

-- A round of the processor that reads the list of the waiting deposits credits a deposit for which the
-- database serves all statements, whatever happens to the other deposits of the round: if the deposit
-- waits, is positive and exactly one customer owns its address, it is done afterwards and the owner's
-- free balance has grown at least by its amount.
pub run_deposit_processor_cycle-credits :
    (id k : ℕ) (t : Transaction) (least : ℤ) (s : Supply) (v : Vault)
    → is_processing t.status ≡ true
    → leb_ℤ t.amount (pos 0) ≡ false
    → lookup id v.transactions ≡ some t
    → only (filter (owns t.wallet_address) v.customers) ≡ ok k
    → Holds k least v.customers
    → ((n : ℕ) → s.reads_up id n ≡ true)
    → s.tx_up id ≡ tx_served
    → let v' = run_deposit_processor_cycle true s v in
      (lookup id v'.transactions ≡ some (mark_done t)) × Holds k (least +ℤ t.amount) v'.customers
unfolding run_deposit_processor_cycle
run_deposit_processor_cycle-credits id k t least s v waiting some_amount there own holds a b =
    each-pays id k t least waiting some_amount s (get_processing_transaction_ids v.transactions) v a
      b (queued id t v.transactions there waiting) (there, own, holds)
