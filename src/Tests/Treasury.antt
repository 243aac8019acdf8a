-- ===== src/Tests/Treasury.antt =====
-- Runs of the whole program's money.
use tam_backend.Prelude.{pos, ◌+ℤ◌, ◌≤ℤ◌, codes, true, some, List, [], ◌∷◌}
use tam_backend.Common.DealStatus.{draft}
use tam_backend.Server.Withdraw.{WithdrawRequest}
use tam_backend.Ton.Deposits.{TransactionParams}
use tam_backend.System.{refund_round}
use tam_backend.System.Treasury.{
  Backend, Move, act, withdrawal, deposit_seen, deposit_round, moves, all_paid, all_brought,
}
use tam_backend.System.Treasury.Covering.{assets, moves_covered}
use tam_backend.Tests.{db_in, all_up, tx_all_up, round_all_up}

-- 3 TON for the non-bounceable address of customer 1.
abbrev three_ton : TransactionParams
three_ton = record {
  sender = codes "UX";
  wallet_address = codes "UQ";
  amount_ton = pos 3000000000;
  tx_hash = codes "hash";
  seqno = 1;
  lt = 2;
}

abbrev twelve_out : WithdrawRequest
twelve_out = record { amount = pos 12000000000; to_address = codes "UX" }

abbrev backend : Backend
backend = record { db = db_in draft; states = []; deposits = [] }

-- The deposit is seen twice and credited, and then most of the money is withdrawn.
abbrev in_and_out : List Move
in_and_out =
    deposit_seen all_up 9 three_ton
    ∷ deposit_seen all_up 10 three_ton
    ∷ deposit_round true (record { reads_up = λ id n. true; tx_up = λ id. tx_all_up })
    ∷ withdrawal (λ address amount wallet. true) all_up (some 1) (some twelve_out)
    ∷ act (refund_round round_all_up)
    ∷ []

moves_covered_example :
    assets (moves in_and_out backend) +ℤ all_paid in_and_out backend
    ≤ℤ assets backend +ℤ all_brought in_and_out backend
moves_covered_example = moves_covered in_and_out backend (tt, (tt, (tt, (tt, (tt, tt)))))
