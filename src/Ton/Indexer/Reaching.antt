-- ===== src/Ton/Indexer/Reaching.antt =====
-- The deposits of the blocks that a cycle of internal/modules/ton/indexer.go has come past.
use tam_backend.Prelude.{
  Bool-cases, Text, ℕ, zero, suc, ◌-◌, ◌≤◌, ◌<◌, ◌≡◌, refl, subst, inl, inr, Bool, true, false,
  some, arith, ℕ_discrete,
}
use tam_backend.Ton.Deposits.{Transactions}
use tam_backend.Ton.Deposits.Keeping.{Recorded}
use tam_backend.Ton.Indexer.{
  finished, failed, running, Walk, process_block, Cycle, after_block, process_blocks,
  process_all_pending_blocks,
}
use tam_backend.Ton.Indexer.Passing.{process_block-keeps}

after_block-keeps :
    (hash : Text) (stopped : Bool) (from : ℕ) (ts : Transactions) (w : Walk)
    (next : ℕ × Transactions)
    → Recorded hash ts
    → Recorded hash w.1
    → Recorded hash next.1
    → Recorded hash (after_block stopped from ts w next).1
after_block-keeps hash true from ts w next h i k = h
after_block-keeps hash false from ts (finished, ts') next h i k = k
after_block-keeps hash false from ts (failed, ts') next h i k = i
after_block-keeps hash false from ts (running, ts') next h i k = i

after_block-records :
    (hash : Text) (seqno : ℕ) (stopped : Bool) (from : ℕ) (ts : Transactions) (w : Walk)
    (next : ℕ × Transactions)
    → from < seqno
    → seqno ≤ (after_block stopped from ts w next).0
    → (w.0 ≡ finished → seqno ≤ next.0 → Recorded hash next.1)
    → Recorded hash (after_block stopped from ts w next).1
after_block-records hash seqno true from ts w next h i k = absurd (omega arith)
after_block-records hash seqno false from ts (finished, ts') next h i k = k refl i
after_block-records hash seqno false from ts (failed, ts') next h i k = absurd (omega arith)
after_block-records hash seqno false from ts (running, ts') next h i k = absurd (omega arith)

module _ (fuel : ℕ) (c : Cycle) (hash : Text) where
  process_blocks-keeps :
      (blocks from : ℕ) (ts : Transactions)
      → Recorded hash ts
      → Recorded hash (process_blocks fuel c blocks from ts).1
  unfolding process_blocks
  process_blocks-keeps zero from ts h = h
  process_blocks-keeps (suc blocks) from ts h =
      let w = process_block fuel c.chain c.saving c.book (suc from) ts in
      let kept = process_block-keeps fuel c.chain c.saving c.book hash (suc from) ts h in
      after_block-keeps hash (c.stopped (suc from)) from ts w
        (process_blocks fuel c blocks (suc from) w.1) h kept
        (process_blocks-keeps blocks (suc from) w.1 kept)

  pub process_all_pending_blocks-keeps :
      (current last_seqno : ℕ) (ts : Transactions)
      → Recorded hash ts
      → Recorded hash (process_all_pending_blocks fuel c (some current) last_seqno ts).1
  unfolding process_all_pending_blocks
  process_all_pending_blocks-keeps current last_seqno ts h = elim (Bool-cases c.state_up) [
    | inl e ↦ rw e (process_blocks-keeps (current - last_seqno) last_seqno ts h)
    | inr e ↦ rw e (process_blocks-keeps (current - last_seqno) last_seqno ts h)
  ]

  -- `seqno` is a block whose reading to its end records the deposit.
  module _ (seqno : ℕ)
      (reading : (ts : Transactions)
        → (process_block fuel c.chain c.saving c.book seqno ts).0 ≡ finished
        → Recorded hash (process_block fuel c.chain c.saving c.book seqno ts).1) where
    process_blocks-records :
        (blocks from : ℕ) (ts : Transactions)
        → from < seqno
        → seqno ≤ (process_blocks fuel c blocks from ts).0
        → Recorded hash (process_blocks fuel c blocks from ts).1
    unfolding process_blocks
    process_blocks-records zero from ts h i = absurd (omega arith)
    process_blocks-records (suc blocks) from ts h i =
        let w = process_block fuel c.chain c.saving c.book (suc from) ts in
        after_block-records hash seqno (c.stopped (suc from)) from ts w
          (process_blocks fuel c blocks (suc from) w.1) h i
          (λ e past. elim (ℕ_discrete seqno (suc from)) [
            | yes p ↦ process_blocks-keeps blocks (suc from) w.1 (
                subst
                  (λ k.
                    (process_block fuel c.chain c.saving c.book k ts).0 ≡ finished
                    → Recorded hash (process_block fuel c.chain c.saving c.book k ts).1)
                  p (reading ts) e)
            | no p ↦ process_blocks-records blocks (suc from) w.1 (omega arith) past
          ])

    pub process_all_pending_blocks-records :
        (current last_seqno : ℕ) (ts : Transactions)
        → last_seqno < seqno
        → seqno ≤ (process_all_pending_blocks fuel c (some current) last_seqno ts).0
        → Recorded hash (process_all_pending_blocks fuel c (some current) last_seqno ts).1
    unfolding process_all_pending_blocks
    process_all_pending_blocks-records current last_seqno ts h i = elim (Bool-cases c.state_up) [
      | inl e ↦ rw e (
          process_blocks-records (current - last_seqno) last_seqno ts h
            (rw (e, process_all_pending_blocks) at i))
      | inr e ↦ let back = rw (e, process_all_pending_blocks) at i in absurd (omega arith)
    ]
