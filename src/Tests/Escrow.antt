-- ===== src/Tests/Escrow.antt =====
-- Runs of the escrow of internal/modules/server, internal/modules/storage and internal/modules/ton.
use tam_backend.Server.Jobs.Payouts.{check_and_complete_published_deals-clears}
use tam_backend.Common.Datetime.{validate_preferable_datetime}
use tam_backend.Prelude.{
  ◌==◌, pos, ◌+ℤ◌, leb_ℤ, int_laws, lookup, codes, text_eq, ℕ, ◌≡◌, refl, ◌⊎◌, true, false, none,
  some, List, [], ◌∷◌, arith,
}
use tam_backend.Common.DealStatus.{draft, pending, published, canceled, to_int}
use tam_backend.Common.Errors.{Error}
use tam_backend.Storage.Schema.{Customer, Deal, processing, Transaction, Db}
use tam_backend.Storage.Customers.{
  zero_ton, update_one, update_if_covered, lock_balance_for_deal, unlock_balance_for_deal,
  transfer_balance_to_manager_for_deal,
}
use tam_backend.Storage.Customers.Money.{total, refunded}
use tam_backend.Storage.Customers.Solvency.{Solvent}
use tam_backend.Storage.Deals.{
  status_eq, update_deal, needs_refund, get_deals_for_refund, needs_to_complete,
  get_deals_need_to_complete, is_expired, get_expired_deals,
}
use tam_backend.Server.Outcome.{refuse}
use tam_backend.Server.DealHandlers.{set_status, make_deal, cancel_deal}
use tam_backend.Server.DealHandlers.Locking.{Locked, make_deal-success}
use tam_backend.Server.Access.{cancel_deal_route, make_deal_route, DealRequest, serve}
use tam_backend.Server.Access.Authorization.{Authorized, serve-Authorized}
use tam_backend.Server.Jobs.{
  Round, each, expire, expire_one, check_and_expire_deals, complete, complete_one,
  check_and_complete_published_deals, mark_refunded, refund_one, check_and_refund_terminal_deals,
}
use tam_backend.Server.Jobs.Rounds.{check_and_expire_deals-clears}
use tam_backend.Server.Jobs.Refunds.{
  check_and_refund_terminal_deals-clears, canceled_draft-refunded,
}
use tam_backend.Server.Withdraw.{WithdrawRequest}
use tam_backend.Ton.Deposits.{
  mark_done, Vault, process_deposit_for_transaction, Supply, run_deposit_processor_cycle,
}
use tam_backend.Ton.Deposits.Ledger.{worth, run_deposit_processor_cycle-worth}
use tam_backend.Ton.Deposits.Crediting.{Holds}
use tam_backend.Ton.Deposits.Rounds.{run_deposit_processor_cycle-credits}
use tam_backend.Ton.Deposits.Once.{process_deposit_for_transaction-once}
use tam_backend.Workflow.Diagram.{Advances}
use tam_backend.Workflow.Requests.{serve_workflow}
use tam_backend.System.{Action, request, refund_round, run}
use tam_backend.System.Conservation.{run-total, run-Solvent}
use tam_backend.Tests.{
  advertiser_row, manager_row, deal_in, db_in, view_in, all_up, tx_all_up, round_all_up, env_at,
  jwt, bearer_header,
}

abbrev make_request : DealRequest
make_request = record {
  route = make_deal_route (some none);
  auth_header = bearer_header;
  id_field = some 7;
}

abbrev cancel_request : DealRequest
cancel_request = record {
  route = cancel_deal_route;
  auth_header = bearer_header;
  id_field = some 7;
}

-- The deal is made, cancelled and refunded.
abbrev made_and_refunded : List Action
made_and_refunded =
    request (jwt 1) (env_at 10) all_up make_request
    ∷ request (jwt 1) (env_at 20) all_up cancel_request
    ∷ refund_round round_all_up
    ∷ []

run-total_example : total (run made_and_refunded (db_in draft)).customers ≡ pos 10000000000
unfolding ◌+ℤ◌
run-total_example = run-total made_and_refunded (db_in draft)

two_rows :
    (i : ℕ) (c : Customer)
    → lookup i (db_in draft).customers ≡ some c
    → leb_ℤ zero_ton c.ton_balance ≡ true
two_rows i c h = ground arith

run-Solvent_example : Solvent (run made_and_refunded (db_in draft)).customers
run-Solvent_example = run-Solvent made_and_refunded (db_in draft) two_rows

serve-Authorized_example :
    ((e : Error) × (serve (jwt 1) (env_at 10) all_up make_request (db_in draft)
        ≡ refuse e (db_in draft)))
    ⊎ Authorized (jwt 1) make_request (db_in draft)
serve-Authorized_example = serve-Authorized (jwt 1) (env_at 10) all_up make_request (db_in draft)

serve_workflow_example :
    (d' : Deal) × (lookup 7 (serve (jwt 1) (env_at 10) all_up make_request (db_in draft)).db.deals
      ≡ some d')
    × Advances (deal_in draft) d'
serve_workflow_example =
    serve_workflow (jwt 1) (env_at 10) all_up make_request (db_in draft) 7 (deal_in draft) refl

make_deal-success_example :
    (status_eq (view_in draft).deal.status draft ≡ true)
    × (validate_preferable_datetime (env_at 10).tomorrow none ≡ none)
    × Locked
        (env_at 10)
        none
        (view_in draft)
        (db_in draft)
        (make_deal (env_at 10) all_up none (view_in draft) (db_in draft))
unfolding make_deal to_int validate_preferable_datetime lock_balance_for_deal update_if_covered
    update_deal
make_deal-success_example =
    make_deal-success (env_at 10) all_up none (view_in draft) (db_in draft) 202 refl refl

abbrev five_ton : WithdrawRequest
five_ton = record { amount = pos 5000000000; to_address = codes "UQdest" }

check_and_expire_deals-clears_example : is_expired 200 (expire 200 (deal_in pending)) ≡ false
unfolding check_and_expire_deals expire_one each get_expired_deals to_int update_deal
check_and_expire_deals-clears_example =
    check_and_expire_deals-clears round_all_up (db_in pending) refl (λ id. refl) 7
      (expire 200 (deal_in pending)) refl

check_and_refund_terminal_deals-clears_example :
    needs_refund (mark_refunded (deal_in canceled)) ≡ false
unfolding check_and_refund_terminal_deals refund_one each get_deals_for_refund to_int update_deal
    unlock_balance_for_deal update_one
check_and_refund_terminal_deals-clears_example =
    check_and_refund_terminal_deals-clears round_all_up (db_in canceled) refl (λ id n. refl)
      ((advertiser_row, refl), tt) 7 (mark_refunded (deal_in canceled)) refl

canceled_draft-refunded_example :
    let d = set_status canceled (deal_in draft) in
    let db' = (cancel_deal (λ n. true) (view_in draft) (db_in draft)).db in
    (lookup 7 db'.deals ≡ some d)
    × (needs_refund d ≡ true)
    × ((refund_one round_all_up (db_in draft) 7 d (db', [])).0.customers
        ≡ refunded (deal_in draft) (db_in draft).customers)
canceled_draft-refunded_example =
    canceled_draft-refunded round_all_up (db_in draft) (view_in draft) advertiser_row (db_in draft)
      [] (λ id n. refl) refl refl refl refl

abbrev deposit : Transaction
deposit = record {
  sender = codes "UQsender";
  wallet_address = codes "UQ";
  amount = pos 3000000000;
  tx_hash = codes "hash";
  seqno = 1;
  lt = 2;
  status = processing;
}

abbrev vault : Vault
vault = record { customers = (db_in draft).customers; transactions = (9, deposit) ∷ [] }

run_deposit_processor_cycle-worth_example :
    worth (
      run_deposit_processor_cycle true
        (record { reads_up = λ id n. true; tx_up = λ id. tx_all_up })
        vault)
    ≡ pos 13000000000
unfolding ◌+ℤ◌
run_deposit_processor_cycle-worth_example =
    run_deposit_processor_cycle-worth true
      (record { reads_up = λ id n. true; tx_up = λ id. tx_all_up }) vault

process_deposit_for_transaction-once_example :
    let first = (process_deposit_for_transaction all_up tx_all_up 9 vault).1 in
    (first ≡ vault) ⊎ ((process_deposit_for_transaction all_up tx_all_up 9 first).1 ≡ first)
process_deposit_for_transaction-once_example =
    process_deposit_for_transaction-once all_up all_up tx_all_up tx_all_up 9 vault

-- The round fails for the first of two deposits.
abbrev two_deposits : Vault
two_deposits = record {
  customers = (db_in draft).customers;
  transactions = (8, record deposit { tx_hash = codes "other" }) ∷ (9, deposit) ∷ [];
}

abbrev second_served : Supply
second_served = record { reads_up = λ id n. id == 9; tx_up = λ id. tx_all_up }

run_deposit_processor_cycle-credits_example :
    let v' = run_deposit_processor_cycle true second_served two_deposits in
    (lookup 9 v'.transactions ≡ some (mark_done deposit))
    × Holds 1 (pos 10000000000 +ℤ pos 3000000000) v'.customers
unfolding text_eq
run_deposit_processor_cycle-credits_example =
    run_deposit_processor_cycle-credits 9 1 deposit (pos 10000000000) second_served two_deposits
      refl refl refl refl (advertiser_row, refl, omega int_laws) (λ n. refl) refl

-- The deal 7 is to be completed from 150 on.
abbrev due_deal : Deal
due_deal = record (deal_in published) { common_deadline = some 150 }

abbrev due_db : Db
due_db = record (db_in published) { deals = (7, due_deal) ∷ [] }

check_and_complete_published_deals-clears_example :
    needs_to_complete 200 (complete 200 due_deal) ≡ false
unfolding check_and_complete_published_deals complete_one each get_deals_need_to_complete to_int
    update_deal transfer_balance_to_manager_for_deal update_one
check_and_complete_published_deals-clears_example =
    check_and_complete_published_deals-clears round_all_up due_db refl (λ id n. refl) (λ id. refl)
      (((advertiser_row, refl), (manager_row, refl)), tt) 7 (complete 200 due_deal) refl

-- A round in which no status is written.
abbrev round_unwritten : Round
round_unwritten = record round_all_up { up = λ id n. false }
