-- ===== src/Escrow/Retry.antt =====
-- A request that has answered once answers the same when it is sent again, and does nothing then.
use pactagent.Prelude.{ℕ, ◌<◌, ◌≡◌, Bool, true, false}
use pactagent.Errors.{Error, Result, ok, err}
use pactagent.Store.Rows.{Rail, Resource}
use pactagent.Store.Tx.{Db, Tx}
use pactagent.Store.Action.{Action, throw}
use pactagent.Store.Gives.{
  Ensures, Ensures-bind, Gives, Gives-throw, Gives-transaction, Gives-catch, Gives-if, Gives-bind,
  Gives-attempt,
}
use pactagent.Repository.Escrows.{CreateEscrowInput}
use pactagent.Repository.Idempotency.{Env, Context}
use pactagent.Idempotency.{
  Request, clear_and_throw, recover_idempotent, run_and_store, once_reserved,
  run_idempotent_transaction,
}
use pactagent.Idempotency.Answered.{Answered, then_replay}
use pactagent.Idempotency.Stored.{Checked, Ensures-stored}
use pactagent.Idempotency.Found.{Gives-replay}
use pactagent.Escrow.Adapter.{EscrowAdapter, EscrowAdapterResult}
use pactagent.Escrow.Settlement.{Operation, Reserved, finalize_successful_escrow_settlement}
use pactagent.Escrow.Creation.{ReservedCreation, finalize_escrow_creation}
use pactagent.Escrow.Flows.{
  replay_or, finalized_twice, replay_after_race, settled_by, settle_reserved, settle_or_recover,
  execute_escrow_settlement, locked_by, lock_reserved, lock_or_recover, create_escrow_for_app,
}

module _ (env : Env) (app : ℕ) (req : Request) (keep : 0 < env.idempotency_retention_ms) where
  abbrev Left : Resource → Db → Type 0
  Left body db = Answered app req body db

  Gives-replay_or : (e : Error) → Gives Left (replay_or app req e)
  Gives-replay_or e =
      Gives-catch _ _ (Gives-replay app req (λ _. throw e) λ context c. Gives-throw e)
        λ _. Gives-throw e

  Gives-twice : (m : Action Resource) → Gives Left m → Gives Left (finalized_twice app req m)
  Gives-twice m h = Gives-catch _ _ h λ first. Gives-catch _ _ h λ _. Gives-replay_or first

  Gives-race :
      (e : Error) (m : Action Resource) → Gives Left m → Gives Left (replay_after_race app req e m)
  Gives-race e m h = Gives-if _ _ _ (Gives-replay app req (λ _. m) λ context c. h) h

  module _ (context : Context) (c : Checked req context) where
    Ensures-settlement :
        (operation : Operation) (reserved : Reserved) (result : EscrowAdapterResult)
        → Ensures Left
            (finalize_successful_escrow_settlement env app req operation reserved context result)
    unfolding finalize_successful_escrow_settlement
    Ensures-settlement operation reserved result = Ensures-bind _ _ λ found.
        Ensures-bind _ _ λ current. Ensures-bind _ _ λ same. Ensures-bind _ _ λ reported.
          Ensures-bind _ _ λ _. Ensures-bind _ _ λ count. Ensures-bind _ _ λ _.
            Ensures-bind _ _ λ reread. Ensures-bind _ _ λ updated. Ensures-bind _ _ λ _.
              Ensures-bind _ _ λ _.
                Ensures-bind _ _
                  λ _. Ensures-bind _ _ λ _. Ensures-stored env app req context _ _ c keep

    Ensures-creation :
        (reserved : ReservedCreation) (result : EscrowAdapterResult)
        → Ensures Left (finalize_escrow_creation env app req reserved context result)
    unfolding finalize_escrow_creation
    Ensures-creation reserved result = Ensures-bind _ _ λ next. Ensures-bind _ _ λ _.
        Ensures-bind _ _ λ count. Ensures-bind _ _ λ _. Ensures-bind _ _ λ reread.
          Ensures-bind _ _ λ updated. Ensures-bind _ _ λ _. Ensures-bind _ _ λ _.
            Ensures-bind _ _
              λ _. Ensures-bind _ _ λ _. Ensures-stored env app req context _ _ c keep

    Ensures-run :
        (code : ℕ) (run : Context → Tx Resource)
        → Ensures Left (run_and_store env app req code context run)
    unfolding run_and_store
    Ensures-run code run =
        Ensures-bind _ _ λ result. Ensures-stored env app req context code result c keep

    module _ (adapters : Rail → EscrowAdapter) where
      Gives-settled :
          (operation : Operation) (reserved : Reserved) (answer : Result EscrowAdapterResult)
          → Gives Left (settled_by env adapters app req operation context reserved answer)
      Gives-settled operation reserved (ok result) =
          Gives-twice _ (Gives-transaction _ (Ensures-settlement operation reserved result))
      Gives-settled operation reserved (err e) = Gives-bind _ _ λ _. Gives-throw e

      Gives-settle :
          (operation : Operation) (reserved : Result Reserved)
          → Gives Left (settle_or_recover env adapters app req operation context reserved)
      unfolding settle_reserved
      Gives-settle operation (ok reserved) = Gives-settled operation reserved _
      Gives-settle operation (err e) = Gives-race e _ (Gives-throw e)

      Gives-locked :
          (reserved : ReservedCreation) (answer : Result EscrowAdapterResult)
          → Gives Left (locked_by env adapters app req context reserved answer)
      Gives-locked reserved (ok result) =
          Gives-catch _ _ (Gives-twice _ (Gives-transaction _ (Ensures-creation reserved result)))
            λ e. Gives-race e _ (Gives-throw e)
      Gives-locked reserved (err e) = Gives-race e _ (Gives-bind _ _ λ _. Gives-throw e)

      Gives-lock :
          (reserved : Result ReservedCreation)
          → Gives Left (lock_or_recover env adapters app req context reserved)
      unfolding lock_reserved
      Gives-lock (ok reserved) = Gives-locked reserved _
      Gives-lock (err e) = Gives-race e _ (Gives-throw e)

    Gives-clear :
        (reserved : Bool) (e : Error) → Gives Left (clear_and_throw app context reserved e)
    Gives-clear true e = Gives-bind _ _ λ _. Gives-throw e
    Gives-clear false e = Gives-throw e

    Gives-recover :
        (reserved : Bool) (e : Error) → Gives Left (recover_idempotent app req context reserved e)
    unfolding recover_idempotent
    Gives-recover reserved e =
        Gives-if _ _ _
          (Gives-replay app req (λ _. clear_and_throw app context reserved e)
            λ again d. Gives-clear reserved e)
          (Gives-clear reserved e)

    Gives-once :
        (reservation : Result (Unit {0})) (m : Action Resource)
        → Gives Left m
        → Gives Left (once_reserved reservation (recover_idempotent app req context) m)
    Gives-once (ok _) m h = Gives-catch _ _ h λ e. Gives-recover true e
    Gives-once (err e) m h = Gives-recover false e

  settlement_leaves :
      (adapters : Rail → EscrowAdapter) (escrow : ℕ) (operation : Operation)
      → Gives Left (execute_escrow_settlement env adapters app req escrow operation)
  unfolding execute_escrow_settlement
  settlement_leaves adapters escrow operation =
      Gives-replay app req _ λ context c.
        Gives-attempt _ _ λ reserved. Gives-settle context c adapters operation reserved

  creation_leaves :
      (adapters : Rail → EscrowAdapter) (input : CreateEscrowInput)
      → Gives Left (create_escrow_for_app env adapters app req input)
  unfolding create_escrow_for_app
  creation_leaves adapters input =
      Gives-replay app req _
        λ context c. Gives-attempt _ _ λ reserved. Gives-lock context c adapters reserved

  run_leaves :
      (code : ℕ) (run : Context → Tx Resource)
      → Gives Left (run_idempotent_transaction env app req code run)
  unfolding run_idempotent_transaction
  run_leaves code run = Gives-replay app req _ λ context c. Gives-attempt _ _ λ reservation.
      Gives-once context c reservation _ (Gives-transaction _ (Ensures-run context c code run))

module _ (env : Env) (app : ℕ) (req : Request) (keep : 0 < env.idempotency_retention_ms) (db : Db)
    (body : Resource) (db' : Db) where
  -- If responses are kept for some time, then a release or a refund that has answered answers the
  -- same when it is sent again, leaves the database as it is, and asks no adapter: whatever the
  -- adapters would say by then. The clock has not moved on.
  pub settlement_retry :
      (adapters later : Rail → EscrowAdapter) (escrow : ℕ) (operation : Operation)
      → execute_escrow_settlement env adapters app req escrow operation db ≡ (ok body, db')
      → execute_escrow_settlement env later app req escrow operation db' ≡ (ok body, db')
  unfolding execute_escrow_settlement
  settlement_retry adapters later escrow operation h =
      then_replay app req body db'
        ((settlement_leaves env app req keep adapters escrow operation).at db body db' h) _

  -- If responses are kept for some time, then the creation of an escrow that has answered answers
  -- the same when it is sent again, and leaves the database as it is: there is no second escrow. The
  -- clock has not moved on.
  pub creation_retry :
      (adapters later : Rail → EscrowAdapter) (input : CreateEscrowInput)
      → create_escrow_for_app env adapters app req input db ≡ (ok body, db')
      → create_escrow_for_app env later app req input db' ≡ (ok body, db')
  unfolding create_escrow_for_app
  creation_retry adapters later input h =
      then_replay app req body db'
        ((creation_leaves env app req keep adapters input).at db body db' h) _

  -- If responses are kept for some time, then a mutation under `runIdempotentTransaction` that has
  -- answered answers the same when it is sent again, and leaves the database as it is, whatever work
  -- the second request would do. The clock has not moved on.
  pub run_retry :
      (code : ℕ) (run later : Context → Tx Resource)
      → run_idempotent_transaction env app req code run db ≡ (ok body, db')
      → run_idempotent_transaction env app req code later db' ≡ (ok body, db')
  unfolding run_idempotent_transaction
  run_retry code run later h =
      then_replay app req body db' ((run_leaves env app req keep code run).at db body db' h) _
