-- ===== src/Ton/Indexer/Cursor.antt =====
-- The block number that internal/modules/ton/indexer.go saves.
use tam_backend.Prelude.{
  Bool-cases, ℕ, zero, suc, ◌+◌, ◌-◌, ◌≤◌, ◌<◌, ◌≡◌, refl, sym, subst, inl, inr, Bool, true, false,
  some, arith, ℕ_discrete,
}
use tam_backend.Ton.Deposits.{Transactions}
use tam_backend.Ton.Indexer.{
  finished, process_block, Cycle, process_blocks, failed, running, Walk, after_block,
  process_all_pending_blocks,
}

-- The block has been read to its end, on the transactions that were there.
abbrev pub WasRead : ℕ → Cycle → ℕ → Type 0
WasRead fuel c seqno =
    (ts : Transactions) × ((process_block fuel c.chain c.saving c.book seqno ts).0 ≡ finished)

-- The walk from the block `from` has come to the block `to`.
abbrev pub ReadTo : ℕ → Cycle → ℕ → ℕ → ℕ → Type 0
ReadTo fuel c from limit to =
    (from ≤ to) × (to ≤ limit) × ((seqno : ℕ) → from < seqno → seqno ≤ to → WasRead fuel c seqno)

nothing_read :
    (fuel : ℕ) (c : Cycle) (from limit : ℕ) → from ≤ limit → ReadTo fuel c from limit from
nothing_read fuel c from limit h = (omega arith, h, λ seqno a b. absurd (omega arith))

module _ (fuel : ℕ) (c : Cycle) where
  further :
      (from blocks to : ℕ)
      → WasRead fuel c (suc from)
      → ReadTo fuel c (suc from) (suc from + blocks) to
      → ReadTo fuel c from (from + suc blocks) to
  further from blocks to first (lower, upper, read) = (
    omega arith,
    omega arith,
    λ seqno a b. elim (ℕ_discrete seqno (suc from)) [
      | yes p ↦ subst (λ k. WasRead fuel c k) (sym p) first
      | no p ↦ read seqno (omega arith) b
    ],
  )

  after_block-ReadTo :
      (stopped : Bool) (from limit : ℕ) (ts : Transactions) (w : Walk) (next : ℕ × Transactions)
      → from ≤ limit
      → (w.0 ≡ finished → ReadTo fuel c from limit next.0)
      → ReadTo fuel c from limit (after_block stopped from ts w next).0
  after_block-ReadTo true from limit ts w next h k = nothing_read fuel c from limit h
  after_block-ReadTo false from limit ts (finished, ts') next h k = k refl
  after_block-ReadTo false from limit ts (failed, ts') next h k = nothing_read fuel c from limit h
  after_block-ReadTo false from limit ts (running, ts') next h k = nothing_read fuel c from limit h

  process_blocks-ReadTo :
      (blocks from : ℕ) (ts : Transactions)
      → ReadTo fuel c from (from + blocks) (process_blocks fuel c blocks from ts).0
  unfolding process_blocks
  process_blocks-ReadTo zero from ts = nothing_read fuel c from (from + zero) (omega arith)
  process_blocks-ReadTo (suc blocks) from ts =
      after_block-ReadTo (c.stopped (suc from)) from (from + suc blocks) ts
        (process_block fuel c.chain c.saving c.book (suc from) ts)
        (process_blocks fuel c blocks (suc from)
          (process_block fuel c.chain c.saving c.book (suc from) ts).1)
        (omega arith)
        (λ e.
          further from blocks _ (ts, e)
            (process_blocks-ReadTo blocks (suc from)
              (process_block fuel c.chain c.saving c.book (suc from) ts).1))

-- The block number that a cycle saves does not fall behind the number saved before and does not pass
-- the chain's last block, and every block between the two numbers has been read to its end, whatever
-- fails and wherever the walk is stopped.
pub process_all_pending_blocks-ReadTo :
    (fuel : ℕ) (c : Cycle) (current last_seqno : ℕ) (ts : Transactions)
    → last_seqno ≤ current
    → ReadTo fuel c last_seqno current
        (process_all_pending_blocks fuel c (some current) last_seqno ts).0
unfolding process_all_pending_blocks
process_all_pending_blocks-ReadTo fuel c current last_seqno ts h = elim (Bool-cases c.state_up) [
  | inr e ↦ rw e (nothing_read fuel c last_seqno current h)
  | inl e ↦ rw e (
      subst
        (λ n.
          ReadTo fuel c last_seqno n (process_blocks fuel c (current - last_seqno) last_seqno ts).0)
        (omega arith) (process_blocks-ReadTo fuel c (current - last_seqno) last_seqno ts))
]
