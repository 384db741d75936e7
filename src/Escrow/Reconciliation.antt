-- ===== src/Escrow/Reconciliation.antt =====
-- server/src/modules/escrows/escrow.service.ts: `reconcileCkbTransaction`, which follows a CKB
-- transaction on the chain.
use pactagent.Prelude.{
  ℕ, ◌+◌, Bool, true, false, ◌&&◌, ◌||◌, not, ◌==◌, nat_eq, leb, Option, none, some, String, map,
  if◌then◌else◌, find_first,
}
use pactagent.Errors.{conflict, internal, require}
use pactagent.Lifecycle.Escrow.{EscrowStatus, escrow_eq, assert_escrow_transition}
use pactagent.Store.Rows.{
  Text, text_eq, codes, Escrow, Transaction, TransactionType, TransactionStatus, ActorId,
}
use pactagent.Store.Tx.{Tx, pure, lift, reads, or_fail, when, ◌>>=◌, ◌>>◌}
use pactagent.Repository.Agreements.{assert_lifecycle_compare_and_swap}
use pactagent.Repository.Escrows.{find_escrow_for_app, transition_escrow_status, is_terminal}
use pactagent.Repository.Transactions.{update_transaction, is_transaction}
use pactagent.Repository.Events.{create_infrastructure_audit_log}
use pactagent.Repository.Idempotency.{Env}
use pactagent.Escrow.Adapter.{ObservationStatus, ReconciliationObservation}
use pactagent.Escrow.Scope.{Terminal, escrow_event, transition_funding_scope}
use pactagent.Escrow.Settlement.{end_scope}

abbrev to_lower : ℕ → ℕ
to_lower c = if leb b'A' c && leb c b'Z' then c + 32 else c

abbrev same_hash : Option Text → Text → Bool
same_hash none hash = false
same_hash (some given) hash = map to_lower given == map to_lower hash

-- A lock or a settlement that is seen but not confirmed leaves the status, unless it is to be
-- reconciled.
abbrev waiting_status : TransactionType → EscrowStatus → EscrowStatus
waiting_status TransactionType.lock EscrowStatus.reconciliation_required =
    EscrowStatus.awaiting_funding
waiting_status TransactionType.release EscrowStatus.reconciliation_required =
    EscrowStatus.release_pending
waiting_status _ EscrowStatus.reconciliation_required = EscrowStatus.refund_pending
waiting_status _ current = current

abbrev observed_status : TransactionType → EscrowStatus → ObservationStatus → EscrowStatus
observed_status type current ObservationStatus.unknown = EscrowStatus.reconciliation_required
observed_status type current ObservationStatus.rejected = EscrowStatus.failed
observed_status TransactionType.lock current ObservationStatus.confirmed = EscrowStatus.funded
observed_status TransactionType.lock current ObservationStatus.committed =
    EscrowStatus.funding_detected
observed_status TransactionType.release current ObservationStatus.confirmed = EscrowStatus.released
observed_status _ current ObservationStatus.confirmed = EscrowStatus.refunded
observed_status type current _ = waiting_status type current

-- `reconciliationEscrowStatus`
unfoldable pub reconciliation_escrow_status :
    TransactionType → EscrowStatus → ObservationStatus → Bool → EscrowStatus
reconciliation_escrow_status type current observed true = EscrowStatus.reconciliation_required
reconciliation_escrow_status type current observed false = observed_status type current observed

abbrev is_confirmed : TransactionStatus → Bool
is_confirmed TransactionStatus.confirmed = true
is_confirmed _ = false

abbrev pub is_reorged : TransactionStatus → Bool
is_reorged TransactionStatus.reorged = true
is_reorged _ = false

abbrev pub is_on_chain : ObservationStatus → Bool
is_on_chain ObservationStatus.committed = true
is_on_chain ObservationStatus.confirmed = true
is_on_chain _ = false

-- `reorg`: what was confirmed once is no longer on the chain.
unfoldable pub detect_reorg : TransactionStatus → EscrowStatus → ObservationStatus → Bool
detect_reorg transaction escrow observed =
    (is_confirmed transaction || is_terminal escrow || is_reorged transaction)
    && not (is_on_chain observed)

abbrev plain_transaction_status : ObservationStatus → TransactionStatus
plain_transaction_status ObservationStatus.unknown = TransactionStatus.reconciliation_required
plain_transaction_status ObservationStatus.pending = TransactionStatus.pending
plain_transaction_status ObservationStatus.committed = TransactionStatus.committed
plain_transaction_status ObservationStatus.confirmed = TransactionStatus.confirmed
plain_transaction_status ObservationStatus.rejected = TransactionStatus.rejected

abbrev pub observed_transaction_status : Bool → ObservationStatus → TransactionStatus
observed_transaction_status true observed = TransactionStatus.reorged
observed_transaction_status false observed = plain_transaction_status observed

abbrev or_now : Option ℕ → ℕ → Option ℕ
or_now none now = some now
or_now (some t) now = some t

abbrev confirmed_at_after : ObservationStatus → Bool → ℕ → Option ℕ → Option ℕ
confirmed_at_after ObservationStatus.confirmed reorg now old = or_now old now
confirmed_at_after _ true now old = none
confirmed_at_after _ false now old = old

abbrev or_zero : Option ℕ → ℕ
or_zero none = 0
or_zero (some n) = n

abbrev observed_error : ObservationStatus → Option Text → Option Text
observed_error observed (some reason) = some reason
observed_error ObservationStatus.unknown none =
    some (codes "Transaction was not returned by the configured CKB node.")
observed_error _ none = none

-- The move of the escrow, if its status changes.
unfoldable pub move_observed : ℕ → Escrow → EscrowStatus → Tx (Unit {0})
move_observed app escrow next = when (not (next == escrow.status)) (do
  lift (assert_escrow_transition escrow.status next)
  count ← transition_escrow_status app escrow.id escrow.status (λ row. record row { status = next })
  assert_lifecycle_compare_and_swap count)

-- What follows a move to the status.
abbrev pub react_to : ℕ → Escrow → EscrowStatus → ℕ → Tx (Unit {0})
react_to app escrow EscrowStatus.reconciliation_required now =
    escrow_event app "escrow.reconciliation_required" escrow now
react_to app escrow EscrowStatus.failed now = escrow_event app "escrow.failed" escrow now
react_to app escrow EscrowStatus.funded now = transition_funding_scope app escrow now
react_to app escrow EscrowStatus.released now =
    end_scope app "escrow.released" escrow Terminal.released now
react_to app escrow EscrowStatus.refunded now =
    end_scope app "escrow.refunded" escrow Terminal.refunded now
react_to app escrow _ now = pure tt

unfoldable pub react : ℕ → Bool → Bool → Escrow → EscrowStatus → ℕ → Tx (Unit {0})
react app new_reorg moved escrow next now =
    if new_reorg
    then escrow_event app "escrow.reorg_detected" escrow now
    else (if moved then react_to app escrow next now else pure tt)

abbrev transaction_status_tag : TransactionStatus → ℕ
transaction_status_tag TransactionStatus.pending = 0
transaction_status_tag TransactionStatus.broadcast = 1
transaction_status_tag TransactionStatus.committed = 2
transaction_status_tag TransactionStatus.confirmed = 3
transaction_status_tag TransactionStatus.reconciliation_required = 4
transaction_status_tag TransactionStatus.rejected = 5
transaction_status_tag TransactionStatus.reorged = 6
transaction_status_tag TransactionStatus.failed = 7

abbrev reconciled_action : Bool → String
reconciled_action true = "escrow.ckb_reorg_detected"
reconciled_action false = "escrow.ckb_reconciled"

abbrev is_rejected : ObservationStatus → Bool
is_rejected ObservationStatus.rejected = true
is_rejected _ = false

abbrev is_confirmed_observation : ObservationStatus → Bool
is_confirmed_observation ObservationStatus.confirmed = true
is_confirmed_observation _ = false

-- The result of a reconciliation.
pub record Reconciled : Type 0 where
  pub complete : Bool
  pub status : TransactionStatus
  pub confirmations : ℕ

-- The transaction that closes `reconcileCkbTransaction`, for the row read before the calls of the
-- node (`snapshot`, with its hash and its escrow) and what the node reported.
unfoldable pub apply_observation :
    Env → ℕ → Transaction → Text → ℕ → ReconciliationObservation → Tx Reconciled
unfolding reconciliation_escrow_status detect_reorg move_observed react
apply_observation env now snapshot hash escrow_id observation = do
  let app = snapshot.app_id
  found_transaction ← reads (λ db. find_first (is_transaction app snapshot.id) db.transactions)
  found_escrow ← find_escrow_for_app app escrow_id
  transaction ← or_fail found_transaction (internal "ckb_reconciliation_disappeared")
  escrow ← or_fail found_escrow (internal "ckb_reconciliation_disappeared")
  lift (require (same_hash transaction.tx_hash hash) (conflict "ckb_reconciliation_conflict"))
  let reorg = detect_reorg transaction.status escrow.status observation.status
  let next = reconciliation_escrow_status transaction.type escrow.status observation.status reorg
  move_observed app escrow next
  let status = observed_transaction_status reorg observation.status
  update_transaction app transaction.id (λ row. record row {
    status = status;
    confirmations = or_zero observation.confirmations;
    block_hash = observation.block_hash;
    block_number = observation.block_number;
    last_checked_at = some now;
    confirmed_at = confirmed_at_after observation.status reorg now transaction.confirmed_at;
    reconciliation_error = observed_error observation.status observation.reason;
  })
  reread ← find_escrow_for_app app escrow.id
  updated ← or_fail reread (internal "ckb_reconciliation_disappeared")
  react app (reorg && not (is_reorged transaction.status)) (not (next == escrow.status)) updated
      next now
  when
      (not (next == escrow.status)
        || not (transaction_status_tag transaction.status == transaction_status_tag status))
      (create_infrastructure_audit_log (record {
        app_id = app;
        agreement_id = some updated.agreement_id;
        actor_type = "system";
        actor_id = some ActorId.ckb_reconciliation_worker;
        action = reconciled_action reorg;
        target_type = "escrow";
        target_id = updated.id;
      }))
  pure (record {
    complete =
        is_rejected observation.status
        || (is_confirmed_observation observation.status
            && leb (env.ckb_confirmations + 20) (or_zero observation.confirmations));
    status = status;
    confirmations = or_zero observation.confirmations;
  })
