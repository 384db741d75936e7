-- ===== src/Escrow/Funding.antt =====
-- server/src/modules/escrows/escrow.service.ts: `markEscrowFunded`, in two transactions with the
-- call of the adapter between them.
use pactagent.Prelude.{ℕ, Bool, true, false, not, ◌==◌, Option, none, some, String, if◌then◌else◌}
use pactagent.Errors.{invalid_request, not_found, reject_if, require}
use pactagent.Lifecycle.Escrow.{EscrowStatus, escrow_eq, assert_escrow_transition}
use pactagent.Store.Rows.{Text, Escrow, Transaction, TransactionType, TransactionStatus, Resource}
use pactagent.Store.Tx.{Tx, pure, lift, or_fail, when, when_some, ◌>>=◌, ◌>>◌}
use pactagent.Repository.Agreements.{assert_lifecycle_compare_and_swap}
use pactagent.Repository.Escrows.{
  find_escrow_for_app, transition_escrow_status, find_transaction_for_escrow_type,
}
use pactagent.Repository.Transactions.{update_transaction}
use pactagent.Repository.Idempotency.{
  Env, Context, reserve_idempotent_request, store_idempotent_response,
}
use pactagent.Idempotency.{Request}
use pactagent.Escrow.Adapter.{EscrowAdapterResult, assert_status}
use pactagent.Escrow.Scope.{transition_funding_scope}
use pactagent.Escrow.Settlement.{audit_escrow}
use pactagent.Escrow.Creation.{or_kept}

-- The first transaction of `markEscrowFunded`: a funded escrow is answered at once.
unfoldable pub reserve_funding : Env → ℕ → Request → ℕ → Context → Tx Escrow
reserve_funding env app req id context = do
  reserve_idempotent_request env app context req.now
  found ← find_escrow_for_app app id
  escrow ← or_fail found (not_found "escrow_not_found")
  lift
      (reject_if (escrow.status == EscrowStatus.not_created) (invalid_request "escrow_not_created"))
  when (escrow.status == EscrowStatus.funded)
      (store_idempotent_response env app context 200 req.now (Resource.escrow escrow))
  pure escrow

abbrev pub is_funding_status : EscrowStatus → Bool
is_funding_status EscrowStatus.funding_detected = true
is_funding_status EscrowStatus.funded = true
is_funding_status _ = false

abbrev funded_transaction_status : EscrowStatus → TransactionStatus
funded_transaction_status EscrowStatus.funded = TransactionStatus.confirmed
funded_transaction_status _ = TransactionStatus.committed

abbrev stamp_if : Bool → ℕ → Option ℕ
stamp_if true now = some now
stamp_if false now = none

abbrev or_zero : Option ℕ → ℕ
or_zero none = 0
or_zero (some n) = n

abbrev funding_action : EscrowStatus → String
funding_action EscrowStatus.funded = "escrow.marked_funded"
funding_action _ = "escrow.funding_detected"

unfoldable pub confirm_lock :
    ℕ → EscrowStatus → EscrowAdapterResult → Option Text → ℕ → Transaction → Tx (Unit {0})
confirm_lock app next result hash now transaction = update_transaction app transaction.id (λ row.
    record row {
      status = funded_transaction_status next;
      tx_hash = hash;
      confirmations = or_zero result.confirmations;
      block_hash = result.block_hash;
      block_number = result.block_number;
      last_checked_at = some now;
      confirmed_at = stamp_if (next == EscrowStatus.funded) now;
    })

-- `assertEscrowTransition`, `transitionEscrowStatus` and the check of the count.
unfoldable pub move_to_funding : ℕ → Escrow → EscrowStatus → EscrowAdapterResult → Tx (Unit {0})
move_to_funding app current next result = do
  lift (assert_escrow_transition current.status next)
  count ← transition_escrow_status app current.id current.status (λ row. record row {
    status = next;
    lock_tx_hash = or_kept result.tx_hash current.lock_tx_hash;
  })
  assert_lifecycle_compare_and_swap count

unfoldable pub record_funding :
    Env → ℕ → Request → Escrow → Context → EscrowAdapterResult → Tx Resource
unfolding confirm_lock move_to_funding
record_funding env app req current context result = do
  next ← lift (assert_status result.status)
  lift (require (is_funding_status next) (invalid_request "invalid_funding_status"))
  when (not (current.status == next)) (move_to_funding app current next result)
  reread ← find_escrow_for_app app current.id
  updated ← or_fail reread (not_found "escrow_not_found")
  lock_transaction ← find_transaction_for_escrow_type app updated.id TransactionType.lock
  when_some lock_transaction (confirm_lock app next result updated.lock_tx_hash req.now)
  when (next == EscrowStatus.funded) (transition_funding_scope app updated req.now)
  audit_escrow app req updated (funding_action next)
  store_idempotent_response env app context 200 req.now (Resource.escrow updated)
  pure (Resource.escrow updated)

unfoldable pub answer_funded : Env → ℕ → Request → Escrow → Context → Tx Resource
answer_funded env app req current context = do
  store_idempotent_response env app context 200 req.now (Resource.escrow current)
  pure (Resource.escrow current)

-- `finalizeEscrowFunding`
unfoldable pub finalize_escrow_funding :
    Env → ℕ → Request → Escrow → Context → EscrowAdapterResult → Tx Resource
unfolding record_funding answer_funded
finalize_escrow_funding env app req before context result = do
  found ← find_escrow_for_app app before.id
  current ← or_fail found (not_found "escrow_not_found")
  if current.status == EscrowStatus.funded
      then answer_funded env app req current context
      else record_funding env app req current context result
