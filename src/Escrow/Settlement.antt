-- ===== src/Escrow/Settlement.antt =====
-- server/src/modules/escrows/escrow.service.ts: release and refund, each of two transactions with
-- the call of the adapter between them.
use pactagent.Prelude.{
  ℕ, Bool, true, false, ◌&&◌, ◌||◌, not, ◌==◌, nat_eq, Option, none, some, String, if◌then◌else◌,
  is_some, [], ◌∷◌,
}
use pactagent.Errors.{Result, err, invalid_request, conflict, not_found, reject_if, require}
use pactagent.Lifecycle.Agreement.{AgreementStatus, agreement_eq}
use pactagent.Lifecycle.Milestone.{MilestoneStatus, milestone_eq}
use pactagent.Lifecycle.Escrow.{EscrowStatus, escrow_eq, assert_escrow_transition}
use pactagent.Store.Rows.{
  Text, Agreement, Milestone, Escrow, TransactionType, TransactionStatus, Resource,
}
use pactagent.Store.Tx.{Tx, pure, lift, or_fail, when, when_some, ◌>>=◌, ◌>>◌}
use pactagent.Repository.Agreements.{find_agreement_for_app, assert_lifecycle_compare_and_swap}
use pactagent.Repository.Milestones.{find_milestone_for_app}
use pactagent.Repository.Escrows.{find_escrow_for_app, transition_escrow_status}
use pactagent.Repository.Transactions.{create_transaction, update_transaction}
use pactagent.Repository.Disputes.{find_resolved_release_dispute_for_escrow_scope}
use pactagent.Repository.Events.{create_infrastructure_audit_log}
use pactagent.Repository.Idempotency.{
  Env, Context, reserve_idempotent_request, store_idempotent_response,
}
use pactagent.Idempotency.{Request}
use pactagent.Escrow.Adapter.{EscrowAdapterResult, assert_status, confirmed_for_rail}
use pactagent.Escrow.Scope.{
  Terminal, terminal_escrow, escrow_event, transition_milestone_if_allowed,
  transition_agreement_when_all_escrows_terminal, enqueue_ckb_reconciliation,
}

-- `EscrowSettlementOperation`
pub data Operation : Type 0 where
  release refund : Operation

abbrev pub settlement_pending_status : Operation → EscrowStatus
settlement_pending_status Operation.release = EscrowStatus.release_pending
settlement_pending_status Operation.refund = EscrowStatus.refund_pending

abbrev pub settlement_terminal : Operation → Terminal
settlement_terminal Operation.release = Terminal.released
settlement_terminal Operation.refund = Terminal.refunded

abbrev pub settlement_terminal_status : Operation → EscrowStatus
settlement_terminal_status operation = terminal_escrow (settlement_terminal operation)

abbrev settlement_pending_event : Operation → String
settlement_pending_event Operation.release = "escrow.release_pending"
settlement_pending_event Operation.refund = "escrow.refund_pending"

abbrev settlement_terminal_event : Operation → String
settlement_terminal_event Operation.release = "escrow.released"
settlement_terminal_event Operation.refund = "escrow.refunded"

abbrev settlement_audit_action : Operation → String
settlement_audit_action Operation.release = "escrow.released"
settlement_audit_action Operation.refund = "escrow.refunded"

abbrev failed_audit_action : Operation → String
failed_audit_action Operation.release = "escrow.release_failed"
failed_audit_action Operation.refund = "escrow.refund_failed"

abbrev in_progress_code : Operation → String
in_progress_code Operation.release = "escrow_release_in_progress"
in_progress_code Operation.refund = "escrow_refund_in_progress"

abbrev state_changed_code : Operation → String
state_changed_code Operation.release = "escrow_release_state_changed"
state_changed_code Operation.refund = "escrow_refund_state_changed"

abbrev pub transaction_type : Operation → TransactionType
transaction_type Operation.release = TransactionType.release
transaction_type Operation.refund = TransactionType.refund

-- The column that `settlementHashField` names.
abbrev pub with_settlement_hash : Operation → Option Text → Escrow → Escrow
with_settlement_hash Operation.release hash row = record row { release_tx_hash = hash }
with_settlement_hash Operation.refund hash row = record row { refund_tx_hash = hash }

-- `auditEscrow`
unfoldable pub audit_escrow : ℕ → Request → Escrow → String → Tx (Unit {0})
audit_escrow app req escrow action = create_infrastructure_audit_log (record {
  app_id = app;
  agreement_id = some escrow.agreement_id;
  actor_type = "api_key";
  actor_id = req.actor;
  action = action;
  target_type = "escrow";
  target_id = escrow.id;
})

abbrev is_approved : Option Milestone → Bool
is_approved none = false
is_approved (some milestone) = milestone.status == MilestoneStatus.approved

-- The tests of `assertReleaseAllowed` once the agreement is known, in the code's order.
abbrev pub release_check : AgreementStatus → Bool → Bool → Result (Unit {0})
release_check AgreementStatus.approved scope_approved dispute_released =
    require scope_approved (invalid_request "escrow_release_not_allowed")
release_check AgreementStatus.disputed scope_approved dispute_released =
    require dispute_released (invalid_request "escrow_release_not_allowed")
release_check AgreementStatus.released scope_approved dispute_released =
    err (invalid_request "escrow_already_released")
release_check AgreementStatus.refunded scope_approved dispute_released =
    err (invalid_request "escrow_already_refunded")
release_check _ scope_approved dispute_released = err (invalid_request "escrow_release_not_allowed")

-- `!escrow.milestoneId || milestone?.status === 'approved'`
abbrev pub scope_is_approved : Option ℕ → Option Milestone → Bool
scope_is_approved none milestone = true
scope_is_approved (some _) milestone = is_approved milestone

-- `assertReleaseAllowed`
unfoldable pub assert_release_allowed :
    ℕ → Escrow → Option Agreement → Option Milestone → Tx (Unit {0})
assert_release_allowed app escrow agreement milestone = do
  lift (require (escrow.status == EscrowStatus.funded) (invalid_request "escrow_not_funded"))
  known ← or_fail agreement (invalid_request "agreement_not_infrastructure_managed")
  dispute ←
      find_resolved_release_dispute_for_escrow_scope app escrow.agreement_id escrow.milestone_id
  lift (
      release_check known.status (scope_is_approved escrow.milestone_id milestone)
        (is_some dispute))

abbrev is_released_agreement : Option Agreement → Bool
is_released_agreement none = false
is_released_agreement (some agreement) = agreement.status == AgreementStatus.released

-- `assertRefundAllowed`
unfoldable pub assert_refund_allowed : Escrow → Option Agreement → Tx (Unit {0})
assert_refund_allowed escrow agreement = do
  lift (
      reject_if
        (escrow.status == EscrowStatus.released || escrow.status == EscrowStatus.release_pending)
        (invalid_request "escrow_already_released"))
  lift (require (escrow.status == EscrowStatus.funded) (invalid_request "escrow_not_funded"))
  lift (reject_if (is_released_agreement agreement) (invalid_request "agreement_already_released"))

abbrev pub find_by : ℕ → Option ℕ → Tx (Option Milestone)
find_by app none = pure none
find_by app (some milestone) = find_milestone_for_app app milestone

-- The milestone is read only for a release with a milestone.
unfoldable pub find_milestone_of : ℕ → Escrow → Tx (Option Milestone)
find_milestone_of app escrow = find_by app escrow.milestone_id

unfoldable pub assert_settlement_allowed : ℕ → Operation → Escrow → Option Agreement → Tx (Unit {0})
unfolding assert_release_allowed assert_refund_allowed find_milestone_of
assert_settlement_allowed app Operation.release escrow agreement = do
  milestone ← find_milestone_of app escrow
  assert_release_allowed app escrow agreement milestone
assert_settlement_allowed app Operation.refund escrow agreement =
    assert_refund_allowed escrow agreement

-- `ReservedEscrowSettlement`
pub record Reserved : Type 0 where
  pub before : Escrow
  pub pending : Escrow
  pub transaction_id : ℕ

-- `reserveEscrowSettlement`
unfoldable pub reserve_escrow_settlement : Env → ℕ → Request → ℕ → Operation → Context → Tx Reserved
unfolding assert_settlement_allowed
reserve_escrow_settlement env app req escrow operation context = do
  reserve_idempotent_request env app context req.now
  found ← find_escrow_for_app app escrow
  before ← or_fail found (not_found "escrow_not_found")
  agreement ← find_agreement_for_app app before.agreement_id
  assert_settlement_allowed app operation before agreement
  lift (assert_escrow_transition before.status (settlement_pending_status operation))
  count ←
      transition_escrow_status app escrow before.status
        (λ row. record row { status = settlement_pending_status operation })
  lift (require (count == 1) (conflict (in_progress_code operation)))
  reread ← find_escrow_for_app app escrow
  pending ← or_fail reread (not_found "escrow_not_found")
  transaction ← create_transaction app (record {
    agreement_id = some pending.agreement_id;
    milestone_id = pending.milestone_id;
    escrow_id = some pending.id;
    type = transaction_type operation;
    rail = pending.rail;
    network = pending.network;
    status = TransactionStatus.pending;
    operation_id = some (record { escrow = pending.id; operation = transaction_type operation });
    amount = pending.amount;
    currency = pending.currency;
  })
  escrow_event app (settlement_pending_event operation) pending req.now
  audit_escrow app req pending (settlement_pending_event operation)
  pure (record { before = before; pending = pending; transaction_id = transaction.id })

-- `finalizeFailedEscrowSettlement`
unfoldable pub finalize_failed_escrow_settlement :
    Env → ℕ → Request → Operation → Reserved → Context → Tx Resource
finalize_failed_escrow_settlement env app req operation reserved context = do
  found ← find_escrow_for_app app reserved.pending.id
  current ← or_fail found (not_found "escrow_not_found")
  lift (
      require (current.status == settlement_pending_status operation)
        (conflict (state_changed_code operation)))
  lift (assert_escrow_transition current.status EscrowStatus.failed)
  count ←
      transition_escrow_status app current.id (settlement_pending_status operation)
        (λ row. record row { status = EscrowStatus.failed })
  assert_lifecycle_compare_and_swap count
  reread ← find_escrow_for_app app current.id
  failed ← or_fail reread (not_found "escrow_not_found")
  update_transaction app reserved.transaction_id
      (λ row. record row { status = TransactionStatus.failed })
  escrow_event app "escrow.failed" failed req.now
  audit_escrow app req failed (failed_audit_action operation)
  store_idempotent_response env app context 200 req.now (Resource.escrow failed)
  pure (Resource.escrow failed)

-- The status that a settlement ends in, by what the adapter reports.
abbrev pub settled_status : Operation → Bool → EscrowStatus → EscrowStatus
settled_status operation immediate reported =
    if reported == EscrowStatus.reconciliation_required
    then EscrowStatus.reconciliation_required
    else if immediate && reported == settlement_terminal_status operation
    then settlement_terminal_status operation
    else settlement_pending_status operation

abbrev settled_transaction_status : EscrowStatus → Bool → TransactionStatus
settled_transaction_status EscrowStatus.reconciliation_required immediate =
    TransactionStatus.reconciliation_required
settled_transaction_status _ true = TransactionStatus.confirmed
settled_transaction_status _ false = TransactionStatus.broadcast

-- A time that is set only beside a hash; an empty hash is falsy.
abbrev stamp_if : Option Text → ℕ → Option ℕ
stamp_if none now = none
stamp_if (some []) now = none
stamp_if (some (c ∷ cs)) now = some now

unfoldable pub end_milestone_of : ℕ → Escrow → Terminal → ℕ → Tx (Unit {0})
end_milestone_of app escrow to now =
    when_some escrow.milestone_id λ milestone.
      transition_milestone_if_allowed app escrow.agreement_id milestone to escrow.id now

-- What follows a settlement that has reached its end.
unfoldable pub end_scope : ℕ → String → Escrow → Terminal → ℕ → Tx (Unit {0})
unfolding end_milestone_of
end_scope app event escrow to now = do
  escrow_event app event escrow now
  end_milestone_of app escrow to now
  transition_agreement_when_all_escrows_terminal app escrow.agreement_id to now

-- `finalizeSuccessfulEscrowSettlement`
unfoldable pub finalize_successful_escrow_settlement :
    Env → ℕ → Request → Operation → Reserved → Context → EscrowAdapterResult → Tx Resource
unfolding end_scope
finalize_successful_escrow_settlement env app req operation reserved context result = do
  found ← find_escrow_for_app app reserved.pending.id
  current ← or_fail found (not_found "escrow_not_found")
  let pending_status = settlement_pending_status operation
  lift (require (current.status == pending_status) (conflict (state_changed_code operation)))
  let immediate = confirmed_for_rail current.rail current.network
  reported ← lift (assert_status result.status)
  let next_status = settled_status operation immediate reported
  when (not (next_status == current.status))
      (lift (assert_escrow_transition current.status next_status))
  count ←
      transition_escrow_status app current.id pending_status
        (λ row. record (with_settlement_hash operation result.tx_hash row) { status = next_status })
  assert_lifecycle_compare_and_swap count
  reread ← find_escrow_for_app app current.id
  updated ← or_fail reread (not_found "escrow_not_found")
  update_transaction app reserved.transaction_id (λ row. record row {
    status = settled_transaction_status next_status immediate;
    tx_hash = result.tx_hash;
    broadcast_at = stamp_if result.tx_hash req.now;
  })
  enqueue_ckb_reconciliation updated reserved.transaction_id req.now
  when (next_status == settlement_terminal_status operation) (
      end_scope app (settlement_terminal_event operation) updated (settlement_terminal operation)
        req.now)
  audit_escrow app req updated (settlement_audit_action operation)
  store_idempotent_response env app context 200 req.now (Resource.escrow updated)
  pure (Resource.escrow updated)
