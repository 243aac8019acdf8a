-- ===== src/Ton/Daemon/Reading.antt =====
-- The deposits that the processes of internal/modules/ton have come past.
use tam_backend.Prelude.{
  leb, Bool-cases, Option-cases, ℕ, ◌≤◌, ◌<◌, ◌≡◌, refl, subst, ◌⊎◌, inl, inr, Bool, true, Option,
  none, some, List, [], ◌∷◌, arith,
}
use tam_backend.Ton.Deposits.Keeping.{Recorded, run_deposit_processor_cycle-Recorded}
use tam_backend.Ton.Indexer.{
  Shard, ShortTx, InMsg, ChainTx, has_address, process_all_pending_blocks,
}
use tam_backend.Ton.Indexer.Recording.{IsDeposit}
use tam_backend.Ton.Indexer.Passing.{Shows, process_block-records}
use tam_backend.Ton.Indexer.Reaching.{
  process_all_pending_blocks-keeps, process_all_pending_blocks-records,
}
use tam_backend.Ton.Daemon.{
  get_or_create_state, Daemon, Visit, cycle_of, after_cycle, process_blocks_cycle, DaemonStep,
  starting, refreshing, visiting, crediting, elsewhere, daemon_step, daemon_run,
}

-- A deposit on the chain: its block, its shard, and its transaction with the message.
pub record OnChain : Type 0 where
  pub seqno : ℕ
  pub shard : Shard
  pub short : ShortTx
  pub tx : ChainTx
  pub msg : InMsg

-- A cycle that starts before the deposit's block meets a client that shows the deposit, a book with
-- its address, and a database that saves it.
abbrev pub IsServed : OnChain → DaemonStep → Daemon → Type 0
IsServed dep (visiting fuel v) d =
    (last : ℕ)
    → d.last_seqno ≡ some last
    → last < dep.seqno
    → Shows v.chain dep.seqno dep.shard dep.short dep.tx
      × (has_address d.book dep.short.account ≡ true)
      × ((n : ℕ) → v.saving.save_up dep.tx.hash n ≡ true)
IsServed dep _ d = Unit

abbrev pub AllServed : OnChain → List DaemonStep → Daemon → Type 0
AllServed dep [] d = Unit
AllServed dep (s ∷ ss) d = IsServed dep s d × AllServed dep ss (daemon_step s d)

-- The row of the service is there, and the deposit is recorded once its block is behind.
abbrev Passed : OnChain → Daemon → Type 0
Passed dep d =
    (last : ℕ) × (d.last_seqno ≡ some last)
    × (dep.seqno ≤ last → Recorded dep.tx.hash d.vault.transactions)

module _ (dep : OnChain) (deposit : IsDeposit dep.tx dep.msg) where
  read_state :
      (up : ℕ → Bool) (initial : Option ℕ) (last : ℕ)
      → (get_or_create_state up initial (some last) ≡ (none, some last))
        ⊎ (get_or_create_state up initial (some last) ≡ (some last, some last))
  read_state up none last = inl refl
  read_state up (some n) last = elim (Bool-cases (up 0)) [
    | inl e ↦ inr (rw e refl)
    | inr e ↦ inl (rw e refl)
  ]

  cycle-Passed :
      (fuel : ℕ) (v : Visit) (current last : ℕ) (d : Daemon)
      → d.last_seqno ≡ some last
      → (dep.seqno ≤ last → Recorded dep.tx.hash d.vault.transactions)
      → IsServed dep (visiting fuel v) d
      → Passed dep (
          after_cycle d (
            process_all_pending_blocks fuel
              (cycle_of v d.book)
              (some current)
              last
              d.vault.transactions))
  cycle-Passed fuel v current last d e h served = (
    _,
    refl,
    λ past. elim (Bool-cases (leb dep.seqno last)) [
      | inl before ↦
          process_all_pending_blocks-keeps fuel (cycle_of v d.book) dep.tx.hash current last
            d.vault.transactions (h (ground arith))
      | inr not_yet ↦
          let (shows, mine, up) = served last e (ground arith) in
          process_all_pending_blocks-records fuel (cycle_of v d.book) dep.tx.hash dep.seqno
            (λ ts end.
              process_block-records fuel v.chain v.saving d.book dep.seqno dep.shard dep.short
                dep.tx dep.msg ts shows mine deposit up end)
            current last d.vault.transactions (ground arith) past
    ],
  )

  process_blocks_cycle-Passed :
      (fuel : ℕ) (v : Visit) (d : Daemon)
      → Passed dep d
      → IsServed dep (visiting fuel v) d
      → Passed dep (process_blocks_cycle fuel v d)
  unfolding process_blocks_cycle
  process_blocks_cycle-Passed fuel v d (last, e, h) served = elim (Option-cases v.current) [
    | inl c ↦ rw (c, process_blocks_cycle) (last, e, h)
    | inr (current, c) ↦ elim (read_state v.row_up v.initial last) [
      | inl r ↦ rw (c, e, r, process_blocks_cycle) (last, refl, h)
      | inr r ↦ rw (c, e, r, process_blocks_cycle) (cycle-Passed fuel v current last d e h served)
    ]
  ]

  daemon_step-Passed :
      (s : DaemonStep) (d : Daemon) → Passed dep d → IsServed dep s d → Passed dep (daemon_step s d)
  unfolding daemon_step
  daemon_step-Passed (starting load_up row_up initial) d (last, e, h) served =
      elim (read_state row_up initial last) [
        | inl r ↦ (last, rw (e, r) refl, h)
        | inr r ↦ (last, rw (e, r) refl, h)
      ]
  daemon_step-Passed (refreshing up) d p served = p
  daemon_step-Passed (visiting fuel v) d p served = process_blocks_cycle-Passed fuel v d p served
  daemon_step-Passed (crediting fetch_up s) d (last, e, h) served = (
    last,
    e,
    λ past. run_deposit_processor_cycle-Recorded dep.tx.hash fetch_up s d.vault (h past),
  )
  daemon_step-Passed (elsewhere cs) d p served = p

  daemon_run-Passed :
      (ss : List DaemonStep) (d : Daemon)
      → Passed dep d
      → AllServed dep ss d
      → Passed dep (daemon_run ss d)
  daemon_run-Passed [] d p served = p
  daemon_run-Passed (s ∷ ss) d p served =
      daemon_run-Passed ss (daemon_step s d) (daemon_step-Passed s d p served.0) served.1

  -- No deposit is passed over: if the row of the indexer is before the deposit's block at the
  -- beginning and not before it at the end, the deposit is recorded, whatever cycles, refreshes of the
  -- book, restarts, rounds of the deposit processor and changes of the customers run in between and
  -- wherever they fail, as long as each cycle that starts before the block has a client that shows the
  -- deposit with its details, a book with its address, and a database that saves its row.
  pub daemon_run-Recorded :
      (ss : List DaemonStep) (d : Daemon) (first last : ℕ)
      → d.last_seqno ≡ some first
      → first < dep.seqno
      → AllServed dep ss d
      → (daemon_run ss d).last_seqno ≡ some last
      → dep.seqno ≤ last
      → Recorded dep.tx.hash (daemon_run ss d).vault.transactions
  daemon_run-Recorded ss d first last e h served end past =
      let (l, p, k) = daemon_run-Passed ss d (first, e, λ b. absurd (omega arith)) served in
      let same : last ≡ l = cc in k (subst (λ n. dep.seqno ≤ n) same past)
