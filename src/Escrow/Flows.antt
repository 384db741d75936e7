-- ===== src/Escrow/Flows.antt =====
-- server/src/modules/escrows/escrow.service.ts: the requests on escrows, each a replay check, its
-- transactions, and the adapter's call between them.
use pactagent.Prelude.{
  some, none, nat_eq, if◌then◌else◌, find_first, ℕ, Bool, true, false, ◌==◌, Option, ◌∷◌,
}
use pactagent.Errors.{internal, Error, Result, ok, err, is_unique_constraint_error}
use pactagent.Lifecycle.Escrow.{EscrowStatus, escrow_eq}
use pactagent.Store.Rows.{TransactionType, Text, Escrow, Rail, Resource, Transaction}
use pactagent.Store.Action.{
  Action, attempt, return, throw, transaction, catch, call, or_else, ◌>>=◌, ◌>>◌,
}
use pactagent.Repository.Escrows.{CreateEscrowInput}
use pactagent.Repository.Idempotency.{Env, Context}
use pactagent.Idempotency.{Request, get_idempotency_replay, recover_idempotent}
use pactagent.Escrow.Adapter.{EscrowAdapter, EscrowAdapterResult}
use pactagent.Escrow.Settlement.{
  Operation, Reserved, reserve_escrow_settlement, finalize_failed_escrow_settlement,
  finalize_successful_escrow_settlement,
}
use pactagent.Escrow.Creation.{
  ReservedCreation, reserve_escrow_creation, discard_escrow_creation, finalize_escrow_creation,
}
use pactagent.Escrow.Funding.{reserve_funding, finalize_escrow_funding}
use pactagent.Store.Tx.{Db}
use pactagent.Escrow.Reconciliation.{Reconciled, apply_observation, is_on_chain}

-- The replay that a caught error looks for: found, or not there for whatever reason.
abbrev pub replay_or : ℕ → Request → Error → Action Resource
replay_or app req error =
    catch (do (_, replay) ← get_idempotency_replay app req; or_else replay (throw error))
      (λ _. throw error)

-- A finalization is tried twice; then a stored response is looked for; else its first error goes on.
abbrev pub finalized_twice : ℕ → Request → Action Resource → Action Resource
finalized_twice app req finalize =
    catch finalize (λ first. catch finalize (λ _. replay_or app req first))

-- After a race for the idempotency key the other request's response is replayed.
abbrev pub replay_after_race : ℕ → Request → Error → Action Resource → Action Resource
replay_after_race app req error otherwise =
    if is_unique_constraint_error error
    then (do (_, replay) ← get_idempotency_replay app req; or_else replay otherwise)
    else otherwise

abbrev adapter_settles : EscrowAdapter → Operation → Escrow → Result EscrowAdapterResult
adapter_settles adapter Operation.release escrow = adapter.release escrow
adapter_settles adapter Operation.refund escrow = adapter.refund escrow

abbrev or_missing : Option Transaction → Result Transaction
or_missing none = err (internal "ckb_reconciliation_incomplete")
or_missing (some row) = ok row

-- The escrow that a transaction's column names.
abbrev find_escrow_by_id : Option ℕ → Db → Option Escrow
find_escrow_by_id none db = none
find_escrow_by_id (some id) db = find_first (λ row. row.id == id) db.escrows

abbrev escrow_of : Transaction → Db → Option Escrow
escrow_of row db = find_escrow_by_id row.escrow_id db

abbrev is_followed_type : TransactionType → Bool
is_followed_type TransactionType.manual_adjustment = false
is_followed_type _ = true

abbrev followed_columns :
    Rail → TransactionType → Option Text → Option Escrow → Result (Text × Escrow)
followed_columns Rail.ckb type (some (c ∷ cs)) (some escrow) =
    if is_followed_type type
    then ok (c ∷ cs, escrow)
    else err (internal "ckb_reconciliation_unsupported_type")
followed_columns _ type hash escrow = err (internal "ckb_reconciliation_incomplete")

abbrev is_settlement : TransactionType → Bool
is_settlement TransactionType.release = true
is_settlement TransactionType.refund = true
is_settlement _ = false

abbrev check_on_chain : EscrowAdapter → Transaction → Text → Escrow → Bool → Result (Unit {0})
check_on_chain ckb row hash escrow false = ok tt
check_on_chain ckb row hash escrow true =
    if is_settlement row.type
    then ckb.check_settlement_status escrow row.type hash
    else ckb.check_funding_status escrow

-- The snapshot's hash and escrow, if it is a CKB transaction that can be followed.
abbrev followed : Transaction → Option Escrow → Result (Text × Escrow)
followed row escrow = followed_columns row.rail row.type row.tx_hash escrow

module _ (env : Env) (adapters : Rail → EscrowAdapter) where
  -- What follows the adapter's answer.
  abbrev pub settled_by :
      ℕ → Request → Operation → Context → Reserved → Result EscrowAdapterResult → Action Resource
  settled_by app req operation context reserved (ok result) = finalized_twice app req (
      transaction
        (finalize_successful_escrow_settlement env app req operation reserved context result))
  settled_by app req operation context reserved (err error) =
      transaction (finalize_failed_escrow_settlement env app req operation reserved context)
      >> throw error

  -- What follows a committed reservation: the adapter, and then the second transaction.
  unfoldable pub settle_reserved : ℕ → Request → Operation → Context → Reserved → Action Resource
  settle_reserved app req operation context reserved =
      settled_by app req operation context reserved
        (adapter_settles (adapters reserved.pending.rail) operation reserved.pending)

  abbrev pub settle_or_recover :
      ℕ → Request → Operation → Context → Result Reserved → Action Resource
  settle_or_recover app req operation context (ok reserved) =
      settle_reserved app req operation context reserved
  settle_or_recover app req operation context (err error) =
      replay_after_race app req error (throw error)

  -- `executeEscrowSettlement`
  unfoldable pub execute_escrow_settlement : ℕ → Request → ℕ → Operation → Action Resource
  unfolding settle_reserved
  execute_escrow_settlement app req escrow operation = do
    (context, replay) ← get_idempotency_replay app req
    or_else replay (
        attempt (transaction (reserve_escrow_settlement env app req escrow operation context))
          λ reserved. settle_or_recover app req operation context reserved)

  -- `releaseEscrow` and `refundEscrow`
  abbrev pub release_escrow : ℕ → Request → ℕ → Action Resource
  release_escrow app req escrow = execute_escrow_settlement app req escrow Operation.release

  abbrev pub refund_escrow : ℕ → Request → ℕ → Action Resource
  refund_escrow app req escrow = execute_escrow_settlement app req escrow Operation.refund

  -- The adapter locks the new escrow; if it throws, the reservation is discarded.
  abbrev pub locked_by :
      ℕ → Request → Context → ReservedCreation → Result EscrowAdapterResult → Action Resource
  locked_by app req context reserved (ok result) =
      catch
        (finalized_twice app req
          (transaction (finalize_escrow_creation env app req reserved context result)))
        (λ error. replay_after_race app req error (throw error))
  locked_by app req context reserved (err error) =
      replay_after_race app req error
        (transaction (discard_escrow_creation app reserved context) >> throw error)

  unfoldable pub lock_reserved : ℕ → Request → Context → ReservedCreation → Action Resource
  lock_reserved app req context reserved = locked_by app req context reserved (
      (adapters reserved.created.rail).create_escrow_lock reserved.created reserved.milestone_index)

  abbrev pub lock_or_recover : ℕ → Request → Context → Result ReservedCreation → Action Resource
  lock_or_recover app req context (ok reserved) = lock_reserved app req context reserved
  lock_or_recover app req context (err error) = replay_after_race app req error (throw error)

  -- `createEscrowForApp`
  unfoldable pub create_escrow_for_app : ℕ → Request → CreateEscrowInput → Action Resource
  unfolding lock_reserved
  create_escrow_for_app app req input = do
    (context, replay) ← get_idempotency_replay app req
    or_else replay (
        attempt (transaction (reserve_escrow_creation env app req input context))
          λ reserved. lock_or_recover app req context reserved)

  -- `finalizeEscrowFunding` is returned without `await`, so the `catch` sees the adapter's errors
  -- alone.
  abbrev pub funded_by :
      ℕ → Request → Context → Escrow → Result EscrowAdapterResult → Action Resource
  funded_by app req context before (ok result) =
      transaction (finalize_escrow_funding env app req before context result)
  funded_by app req context before (err error) = recover_idempotent app req context true error

  abbrev pub fund_or_recover : ℕ → Request → Context → Option Text → Result Escrow → Action Resource
  fund_or_recover app req context hash (ok before) =
      if before.status == EscrowStatus.funded
      then return (Resource.escrow before)
      else funded_by app req context before ((adapters before.rail).mark_funded before hash)
  fund_or_recover app req context hash (err error) = recover_idempotent app req context false error

  -- `markEscrowFunded`
  unfoldable pub mark_escrow_funded : ℕ → Request → ℕ → Option Text → Action Resource
  mark_escrow_funded app req escrow hash = do
    (context, replay) ← get_idempotency_replay app req
    or_else replay (
        attempt (transaction (reserve_funding env app req escrow context))
          λ before. fund_or_recover app req context hash before)

  -- `reconcileCkbTransaction`, which the settlement worker calls.
  unfoldable pub reconcile_ckb_transaction : ℕ → ℕ → Action Reconciled
  reconcile_ckb_transaction id now = do
    row ← λ db. (or_missing (find_first (λ row. row.id == id) db.transactions), db)
    (hash, escrow) ← λ db. (followed row (escrow_of row db), db)
    let ckb = adapters Rail.ckb
    observation ← call (ckb.get_transaction_status hash)
    call (check_on_chain ckb row hash escrow (is_on_chain observation.status))
    transaction (apply_observation env now row hash escrow.id observation)
