-- ===== src/Escrow/Creation.antt =====
-- server/src/modules/escrows/escrow.service.ts: the reservation of a settlement scope, its
-- discarding, and the completion of a new escrow after the adapter has made the lock.
use pactagent.Prelude.{
  ℕ, Bool, true, false, ◌==◌, nat_eq, option_eq, Option, none, some, is_some, delete_rows,
}
use pactagent.Errors.{
  Result, err, invalid_request, conflict, not_found, reject_if, require, unique_violation,
}
use pactagent.Lifecycle.Escrow.{EscrowStatus, escrow_eq, assert_escrow_transition}
use pactagent.Store.Rows.{
  Text, Agreement, Escrow, Rail, TransactionType, TransactionStatus, Resource,
}
use pactagent.Store.Tx.{Db, Tx, pure, lift, or_fail, modify, ◌>>=◌, ◌>>◌}
use pactagent.Amounts.{
  AmountScope, assert_currency_matches_agreement, assert_escrow_amount_within_scope,
}
use pactagent.Repository.Agreements.{find_agreement_for_app, assert_lifecycle_compare_and_swap}
use pactagent.Repository.Milestones.{find_milestone_for_app}
use pactagent.Repository.Escrows.{
  CreateEscrowInput, find_escrow_for_app, transition_escrow_status, create_escrow, is_escrow_in,
  find_terminal_escrow_for_agreement, find_terminal_escrow_for_milestone,
  find_active_escrow_for_scope,
}
use pactagent.Repository.Transactions.{create_transaction, update_transaction, is_transaction}
use pactagent.Repository.Idempotency.{
  Env, Context, reserve_idempotent_request, store_idempotent_response, is_pending_key,
}
use pactagent.Idempotency.{Request}
use pactagent.Escrow.Adapter.{EscrowAdapterResult, assert_status, confirmed_for_rail}
use pactagent.Escrow.Scope.{escrow_event, enqueue_ckb_reconciliation}
use pactagent.Escrow.Settlement.{audit_escrow}

-- The agreement's or the milestone's amount, as the input names a scope.
pub record ScopeAmount : Type 0 where
  pub amount : Text
  pub scope : AmountScope
  pub milestone_index : Option ℕ

unfoldable pub find_scope_amount : ℕ → Agreement → Option ℕ → Tx ScopeAmount
find_scope_amount app agreement none =
    pure
      (record { amount = agreement.amount; scope = AmountScope.agreement; milestone_index = none })
find_scope_amount app agreement (some id) = do
  found ← find_milestone_for_app app id
  milestone ← or_fail found (not_found "milestone_not_found")
  lift (require (milestone.agreement_id == agreement.id) (not_found "milestone_not_found"))
  pure (record {
    amount = milestone.amount;
    scope = AmountScope.milestone;
    milestone_index = some milestone.sort_order;
  })

abbrev is_ckb : Rail → Bool
is_ckb Rail.ckb = true
is_ckb _ = false

-- `assertEscrowAgreementScope`; the result is the index of the milestone.
unfoldable pub assert_escrow_agreement_scope : ℕ → CreateEscrowInput → Tx (Option ℕ)
unfolding find_scope_amount
assert_escrow_agreement_scope app input = do
  found ← find_agreement_for_app app input.agreement_id
  agreement ← or_fail found (not_found "agreement_not_found")
  scope ← find_scope_amount app agreement input.milestone_id
  lift (assert_currency_matches_agreement input.currency agreement.currency)
  lift (assert_escrow_amount_within_scope input.amount scope.amount scope.scope (is_ckb input.rail))
  pure scope.milestone_index

abbrev pub find_terminal_escrow : ℕ → ℕ → Option ℕ → Tx (Option Escrow)
find_terminal_escrow app agreement none = find_terminal_escrow_for_agreement app agreement
find_terminal_escrow app agreement (some milestone) =
    find_terminal_escrow_for_milestone app milestone

abbrev pub conflicting : Result (Escrow × Db) → Result (Escrow × Db)
conflicting (err unique_violation) = err (conflict "active_escrow_exists")
conflicting r = r

-- The `try` around `createEscrow`: a broken unique index is a conflict.
unfoldable pub create_escrow_or_conflict : ℕ → CreateEscrowInput → Tx Escrow
create_escrow_or_conflict app input db = conflicting (create_escrow app input db)

-- `ReservedEscrowCreation`
pub record ReservedCreation : Type 0 where
  pub created : Escrow
  pub milestone_index : Option ℕ
  pub transaction_id : ℕ

-- `reserveEscrowCreation`
unfoldable pub reserve_escrow_creation :
    Env → ℕ → Request → CreateEscrowInput → Context → Tx ReservedCreation
unfolding assert_escrow_agreement_scope create_escrow_or_conflict
reserve_escrow_creation env app req input context = do
  reserve_idempotent_request env app context req.now
  milestone_index ← assert_escrow_agreement_scope app input
  terminal ← find_terminal_escrow app input.agreement_id input.milestone_id
  lift (reject_if (is_some terminal) (invalid_request "escrow_terminal_state_exists"))
  active ← find_active_escrow_for_scope app input.agreement_id input.milestone_id
  lift (reject_if (is_some active) (conflict "active_escrow_exists"))
  created ← create_escrow_or_conflict app input
  transaction ← create_transaction app (record {
    agreement_id = some created.agreement_id;
    milestone_id = created.milestone_id;
    escrow_id = some created.id;
    type = TransactionType.lock;
    rail = created.rail;
    network = created.network;
    status = TransactionStatus.pending;
    operation_id = some (record { escrow = created.id; operation = TransactionType.lock });
    amount = created.amount;
    currency = created.currency;
  })
  pure (record {
    created = created;
    milestone_index = milestone_index;
    transaction_id = transaction.id;
  })

-- `discardEscrowCreation`: what the reservation wrote is deleted again.
unfoldable pub discard_escrow_creation : ℕ → ReservedCreation → Context → Tx (Unit {0})
discard_escrow_creation app reserved context = modify (λ db. record db {
  transactions = delete_rows (is_transaction app reserved.transaction_id) db.transactions;
  escrows = delete_rows (is_escrow_in app reserved.created.id EscrowStatus.not_created) db.escrows;
  idempotency_keys = delete_rows (is_pending_key app context) db.idempotency_keys;
})

abbrev pub or_kept : {A : Type 0} → Option A → Option A → Option A
or_kept none old = old
or_kept (some a) old = some a

-- The columns that the adapter's result fills in.
abbrev pub locked_escrow : EscrowStatus → EscrowAdapterResult → Escrow → Escrow → Escrow
locked_escrow next result created row = record row {
  status = next;
  lock_address = result.lock_address;
  lock_tx_hash = result.tx_hash;
  lock_output_index = result.lock_output_index;
  lock_script_json = result.lock_script;
  client_lock_script_json = or_kept result.client_lock_script created.client_lock_script_json;
  worker_lock_script_json = or_kept result.worker_lock_script created.worker_lock_script_json;
  cell_data = result.cell_data;
  contract_version = result.contract_version;
  refund_timeout_since = or_kept result.refund_timeout_since created.refund_timeout_since;
}

abbrev lock_transaction_status : EscrowStatus → Bool → TransactionStatus
lock_transaction_status EscrowStatus.reconciliation_required immediate =
    TransactionStatus.reconciliation_required
lock_transaction_status _ true = TransactionStatus.confirmed
lock_transaction_status _ false = TransactionStatus.broadcast

abbrev stamp_if : Bool → ℕ → Option ℕ
stamp_if true now = some now
stamp_if false now = none

-- `finalizeEscrowCreation`
unfoldable pub finalize_escrow_creation :
    Env → ℕ → Request → ReservedCreation → Context → EscrowAdapterResult → Tx Resource
finalize_escrow_creation env app req reserved context result = do
  next_status ← lift (assert_status result.status)
  lift (assert_escrow_transition EscrowStatus.not_created next_status)
  count ←
      transition_escrow_status app reserved.created.id EscrowStatus.not_created
        (locked_escrow next_status result reserved.created)
  assert_lifecycle_compare_and_swap count
  reread ← find_escrow_for_app app reserved.created.id
  updated ← or_fail reread (not_found "escrow_not_found")
  let immediate = confirmed_for_rail updated.rail updated.network
  update_transaction app reserved.transaction_id (λ row. record row {
    status = lock_transaction_status next_status immediate;
    tx_hash = updated.lock_tx_hash;
    broadcast_at = stamp_if (is_some updated.lock_tx_hash) req.now;
    confirmed_at = stamp_if immediate req.now;
  })
  enqueue_ckb_reconciliation updated reserved.transaction_id req.now
  escrow_event app "escrow.created" updated req.now
  audit_escrow app req updated "escrow.created"
  store_idempotent_response env app context 201 req.now (Resource.escrow updated)
  pure (Resource.escrow updated)
