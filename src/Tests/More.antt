-- ===== src/Tests/More.antt =====
-- A release sent twice, a creation sent twice, and a stored response.
use pactagent.Prelude.{ℕ, ◌≡◌, ◌<◌, refl, true, false, none, some, List, [], ◌∷◌, arith}
use pactagent.Errors.{Result, ok, unique_violation}
use pactagent.Lifecycle.Escrow.{EscrowStatus}
use pactagent.Store.Rows.{Escrow, Resource, codes}
use pactagent.Store.Tx.{Db}
use pactagent.Store.Tx
use pactagent.Store.Action
use pactagent.Store.Gives.{paired}
use pactagent.Idempotency.{Request, run_idempotent_transaction}
use pactagent.Escrow.Settlement.{Operation}
use pactagent.Escrow.Flows.{execute_escrow_settlement, create_escrow_for_app, mark_escrow_funded}
use pactagent.Escrow.Retry.{settlement_retry, creation_retry, run_retry}
use pactagent.Tests.{env, adapters, two_apps, request, milestone_escrow, escrow_of}

kept_for_some_time : 0 < 1000
kept_for_some_time = omega arith

abbrev released_escrow : Escrow
released_escrow = record (escrow_of 1 20 10 EscrowStatus.released) {
  release_tx_hash = some (codes "release");
}

abbrev once : Result Resource × Db
once = execute_escrow_settlement env adapters 1 request 20 Operation.release two_apps

released_once : once.0 ≡ ok (Resource.escrow released_escrow)
unfolding execute_escrow_settlement Action.◌>>=◌ pactagent.Idempotency.get_idempotency_replay
    pactagent.Prelude.find_first pactagent.Escrow.Settlement.reserve_escrow_settlement Tx.◌>>=◌
    pactagent.Repository.Idempotency.reserve_idempotent_request
    pactagent.Repository.Escrows.find_escrow_for_app
    pactagent.Repository.Agreements.find_agreement_for_app
    pactagent.Repository.Disputes.find_resolved_release_dispute_for_escrow_scope
    pactagent.Repository.Escrows.transition_escrow_status pactagent.Prelude.count_rows
    pactagent.Prelude.update_rows pactagent.Repository.Transactions.create_transaction
    pactagent.Escrow.Scope.escrow_event pactagent.Repository.Events.create_event
    pactagent.Escrow.Settlement.audit_escrow
    pactagent.Repository.Events.create_infrastructure_audit_log
    pactagent.Escrow.Flows.settle_reserved pactagent.Escrow.Scope.end_agreement
    pactagent.Escrow.Scope.enqueue_ckb_reconciliation pactagent.Escrow.Scope.milestone_event
    pactagent.Escrow.Scope.move_agreement pactagent.Escrow.Scope.move_milestone
    pactagent.Escrow.Scope.transition_agreement_when_all_escrows_terminal
    pactagent.Escrow.Scope.transition_milestone_if_allowed
    pactagent.Escrow.Settlement.assert_refund_allowed
    pactagent.Escrow.Settlement.assert_release_allowed
    pactagent.Escrow.Settlement.assert_settlement_allowed
    pactagent.Escrow.Settlement.end_milestone_of pactagent.Escrow.Settlement.end_scope
    pactagent.Escrow.Settlement.finalize_failed_escrow_settlement
    pactagent.Escrow.Settlement.finalize_successful_escrow_settlement
    pactagent.Escrow.Settlement.find_milestone_of pactagent.Prelude.delete_rows
    pactagent.Repository.Agreements.assert_lifecycle_compare_and_swap
    pactagent.Repository.Agreements.transition_agreement_status
    pactagent.Repository.Escrows.list_escrows_for_agreement
    pactagent.Repository.Events.create_deliveries pactagent.Repository.Events.create_delivery
    pactagent.Repository.Events.create_webhook_deliveries_for_event
    pactagent.Repository.Idempotency.delete_expired_idempotency_key
    pactagent.Repository.Idempotency.store_idempotent_response pactagent.Repository.Jobs.create_job
    pactagent.Repository.Jobs.enqueue_job pactagent.Repository.Milestones.find_milestone_for_app
    pactagent.Repository.Milestones.transition_milestone_status
    pactagent.Repository.Transactions.update_transaction Action.attempt Action.call Action.catch
    Action.or_else Action.return Action.throw Action.transaction Tx.fail Tx.lift Tx.modify Tx.new_id
    Tx.or_fail Tx.pure Tx.reads Tx.when Tx.when_some
released_once = refl

settlement_retry_example :
    execute_escrow_settlement env adapters 1 request 20 Operation.release once.1
    ≡ (ok (Resource.escrow released_escrow), once.1)
settlement_retry_example =
    settlement_retry env 1 request kept_for_some_time two_apps (Resource.escrow released_escrow)
      once.1 adapters adapters 20 Operation.release (paired released_once)

abbrev opened_escrow : Escrow
opened_escrow = record (escrow_of 1 100 10 EscrowStatus.awaiting_funding) {
  milestone_id = some 30;
  amount = codes "200";
  lock_address = some (codes "mock_escrow_d");
  lock_tx_hash = some (codes "lock");
}

abbrev opened : Result Resource × Db
opened = create_escrow_for_app env adapters 1 request milestone_escrow two_apps

opened_once : opened.0 ≡ ok (Resource.escrow opened_escrow)
unfolding create_escrow_for_app pactagent.Escrow.Flows.lock_reserved
    pactagent.Escrow.Creation.reserve_escrow_creation
    pactagent.Escrow.Creation.finalize_escrow_creation
    pactagent.Escrow.Creation.assert_escrow_agreement_scope
    pactagent.Escrow.Creation.find_scope_amount pactagent.Escrow.Creation.create_escrow_or_conflict
    pactagent.Repository.Escrows.create_escrow
    pactagent.Repository.Escrows.find_terminal_escrow_for_milestone
    pactagent.Repository.Escrows.find_active_escrow_for_scope
    pactagent.Repository.Escrows.transition_escrow_status
    pactagent.Amounts.assert_currency_matches_agreement
    pactagent.Amounts.assert_escrow_amount_within_scope
    pactagent.Amounts.parse_positive_integer_amount pactagent.Escrow.Settlement.audit_escrow
    Action.◌>>=◌ pactagent.Idempotency.get_idempotency_replay pactagent.Prelude.find_first Tx.◌>>=◌
    pactagent.Repository.Idempotency.reserve_idempotent_request
    pactagent.Repository.Escrows.find_escrow_for_app
    pactagent.Repository.Agreements.find_agreement_for_app pactagent.Prelude.count_rows
    pactagent.Prelude.update_rows pactagent.Repository.Transactions.create_transaction
    pactagent.Escrow.Scope.escrow_event pactagent.Repository.Events.create_event
    pactagent.Repository.Events.create_infrastructure_audit_log
    pactagent.Escrow.Scope.enqueue_ckb_reconciliation pactagent.Escrow.Scope.milestone_event
    pactagent.Prelude.delete_rows pactagent.Repository.Agreements.assert_lifecycle_compare_and_swap
    pactagent.Repository.Escrows.list_escrows_for_agreement
    pactagent.Repository.Events.create_deliveries pactagent.Repository.Events.create_delivery
    pactagent.Repository.Events.create_webhook_deliveries_for_event
    pactagent.Repository.Idempotency.delete_expired_idempotency_key
    pactagent.Repository.Idempotency.store_idempotent_response pactagent.Repository.Jobs.create_job
    pactagent.Repository.Jobs.enqueue_job pactagent.Repository.Milestones.find_milestone_for_app
    pactagent.Repository.Transactions.update_transaction Action.attempt Action.call Action.catch
    Action.or_else Action.return Action.throw Action.transaction Tx.fail Tx.lift Tx.modify Tx.new_id
    Tx.or_fail Tx.pure Tx.reads Tx.when Tx.when_some
opened_once = refl

creation_retry_example :
    create_escrow_for_app env adapters 1 request milestone_escrow opened.1
    ≡ (ok (Resource.escrow opened_escrow), opened.1)
creation_retry_example =
    creation_retry env 1 request kept_for_some_time two_apps (Resource.escrow opened_escrow)
      opened.1 adapters adapters milestone_escrow (paired opened_once)

abbrev worked : Result Resource × Db
worked =
    run_idempotent_transaction env 1 request 200
      (λ context. Tx.pure (Resource.escrow opened_escrow)) two_apps

worked_once : worked.0 ≡ ok (Resource.escrow opened_escrow)
unfolding run_idempotent_transaction Action.◌>>=◌ Tx.◌>>=◌ pactagent.Prelude.find_first
    pactagent.Prelude.update_rows
worked_once = refl

run_retry_example :
    run_idempotent_transaction env 1 request 200 (λ context. Tx.fail unique_violation) worked.1
    ≡ (ok (Resource.escrow opened_escrow), worked.1)
run_retry_example =
    run_retry env 1 request kept_for_some_time two_apps (Resource.escrow opened_escrow) worked.1 200
      (λ context. Tx.pure (Resource.escrow opened_escrow)) (λ context. Tx.fail unique_violation)
      (paired worked_once)
