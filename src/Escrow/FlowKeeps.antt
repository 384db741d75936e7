-- ===== src/Escrow/FlowKeeps.antt =====
-- The requests on escrows keep every relation that admits what their transactions do, whatever the
-- adapters answer and however the request ends.
use pactagent.Prelude.{if◌then◌else◌, ℕ, Bool, true, false, nat_eq, arith, Option, none, some}
use pactagent.Errors.{Error, Result, ok, err}
use pactagent.Store.Rows.{Text, text_eq, Escrow, Rail, Resource, IdempotencyKey}
use pactagent.Store.Tx.{Db, Tx}
use pactagent.Store.Action.{Action}
use pactagent.Store.Respects.{Keeping, Respects, Respects-bind, Respects-pure}
use pactagent.Store.Holds.{
  Holds, Holds-throw, Holds-transaction, Holds-catch, Holds-if, Holds-bind, Holds-or_else,
  Holds-call, Holds-return, Holds-write, Holds-attempt, holds_rules,
}
use pactagent.Repository.Admits.{Moves, any_move, AdmitsBy}
use pactagent.Repository.Raw.{Raw}
use pactagent.Repository.Escrows.{CreateEscrowInput}
use pactagent.Repository.Idempotency.{
  Env, Context, is_expired, delete_expired_idempotency_key, find_idempotency_key,
  clear_pending_idempotent_request,
}
use pactagent.Idempotency.{
  Request, get_idempotency_replay, expire_then_find, clear_and_throw, recover_idempotent,
  once_reserved, run_and_store, run_idempotent_transaction,
}
use pactagent.Escrow.Adapter.{EscrowAdapter, EscrowAdapterResult}
use pactagent.Escrow.Settlement.{Operation, Reserved}
use pactagent.Escrow.Creation.{ReservedCreation, discard_escrow_creation}
use pactagent.Escrow.Opening.{Opens, Respects-reserve_creation}
use pactagent.Lifecycle.Escrow.{EscrowStatus}
use pactagent.Escrow.Keeps.{
  Settles, Respects-reserve_settlement, Respects-fail_settlement, Respects-succeed_settlement,
}
use pactagent.Escrow.MoreKeeps.{
  Funds, Respects-reserve_funding, Respects-finalize_funding, Respects-finalize_creation,
}
use pactagent.Escrow.Flows.{
  replay_or, finalized_twice, replay_after_race, settled_by, settle_reserved, settle_or_recover,
  execute_escrow_settlement, locked_by, lock_reserved, lock_or_recover, create_escrow_for_app,
  funded_by, fund_or_recover, mark_escrow_funded,
}

-- The relation admits all that the requests on an app's escrows write.
pub record ServesBy (may : Moves) (app : ℕ) (k : Keeping) : Type 1 where
  pub raw : Raw app k
  pub writes : AdmitsBy may app k

abbrev pub Serves : ℕ → Keeping → Type 1
Serves app k = ServesBy any_move app k

-- And what the creation of an escrow writes besides.
pub record Creates (app : ℕ) (k : Keeping) : Type 0 where
  pub opens : Opens app k
  pub discards :
      (reserved : ReservedCreation) (context : Context)
      → Respects k (discard_escrow_creation app reserved context)

either_at :
    {A : Type 0} (k : Keeping) {db : Db} (b : Bool) (x y : A × Db)
    → k.rel db x.1
    → k.rel db y.1
    → k.rel db (if b then x else y).1
either_at k true x y hx hy = hx
either_at k false x y hx hy = hy

raw_delete :
    {may : Moves} {app : ℕ} {k : Keeping}
    → ServesBy may app k
    → (db : Db) (key : Text) (now : ℕ) → k.rel db (delete_expired_idempotency_key app key now db)
unfolding delete_expired_idempotency_key
raw_delete s db key now = s.raw.delete_keys db _ λ row t. ground arith

module _ {may : Moves} {app : ℕ} {k : Keeping} (s : ServesBy may app k) where
  expire_at :
      (key : Text) (now : ℕ) (found : Option IdempotencyKey) (db : Db)
      → k.rel db (expire_then_find app key now found db).1
  expire_at key now none db = k.reflexive db
  expire_at key now (some row) db =
      either_at k (is_expired now row) _ _ (raw_delete s db key now) (k.reflexive db)

  Holds-replay : (req : Request) → Holds k (get_idempotency_replay app req)
  unfolding get_idempotency_replay
  Holds-replay req = Holds-bind _ _ (Holds-call _) λ key.
      Holds-bind _ _
        (record { at = λ db. expire_at key req.now (find_idempotency_key app key db) db })
        λ existing. Holds-bind _ _ (Holds-call _) λ replay. Holds-return _

  Holds-replay_or : (req : Request) (e : Error) → Holds k (replay_or app req e)
  Holds-replay_or req e = search (holds_rules, Holds-replay) depth 10

  Holds-race :
      (req : Request) (e : Error) (m : Action Resource)
      → Holds k m
      → Holds k (replay_after_race app req e m)
  Holds-race req e m h = search (holds_rules, Holds-replay) depth 10

  Holds-twice :
      (req : Request) (m : Action Resource) → Holds k m → Holds k (finalized_twice app req m)
  Holds-twice req m h = search (holds_rules, Holds-replay_or) depth 10

  Holds-clear :
      (context : Context) (reserved : Bool) (e : Error)
      → Holds k (clear_and_throw app context reserved e)
  unfolding clear_pending_idempotent_request
  Holds-clear context true e =
      Holds-bind _ _ (Holds-write _ λ db. s.raw.delete_keys db _ λ row t. ground arith)
        λ _. Holds-throw e
  Holds-clear context false e = Holds-throw e

  Holds-recover :
      (req : Request) (context : Context) (reserved : Bool) (e : Error)
      → Holds k (recover_idempotent app req context reserved e)
  unfolding recover_idempotent
  Holds-recover req context reserved e = search (holds_rules, Holds-replay, Holds-clear) depth 10

  Holds-once :
      (req : Request) (context : Context) (reservation : Result (Unit {0})) (m : Action Resource)
      → Holds k m
      → Holds k (once_reserved reservation (recover_idempotent app req context) m)
  Holds-once req context (ok _) m h = Holds-catch _ _ h λ e. Holds-recover req context true e
  Holds-once req context (err e) m h = Holds-recover req context false e

  -- The mutations of the other services: their work is all that is left to show.
  pub Holds-run :
      (env : Env) (req : Request) (code : ℕ) (run : Context → Tx Resource)
      → ((context : Context) → Respects k (run context))
      → Holds k (run_idempotent_transaction env app req code run)
  unfolding run_idempotent_transaction run_and_store
  Holds-run env req code run h = Holds-bind _ _ (Holds-replay req) λ found. Holds-or_else _ _ (
      Holds-attempt _ _ (Holds-transaction _ (s.writes.key env found.0 req.now)) λ reservation.
        Holds-once req found.0 reservation _ (
          Holds-transaction _ (
            Respects-bind _ _ (h found.0) λ result.
              Respects-bind _ _ (s.writes.response env found.0 code req.now result)
                λ _. Respects-pure result)))

  module _ (env : Env) (adapters : Rail → EscrowAdapter) where
    Holds-settled_by :
        (req : Request) (operation : Operation) (context : Context) (reserved : Reserved)
        (answer : Result EscrowAdapterResult)
        → Settles may operation
        → Holds k (settled_by env adapters app req operation context reserved answer)
    Holds-settled_by req operation context reserved (ok result) a = Holds-twice req _ (
        Holds-transaction _
          (Respects-succeed_settlement s.writes env req operation reserved context result a))
    Holds-settled_by req operation context reserved (err error) a =
        Holds-bind _ _
          (Holds-transaction _
            (Respects-fail_settlement s.writes env req operation reserved context a))
          λ _. Holds-throw error

    Holds-settle :
        (req : Request) (operation : Operation) (context : Context) (reserved : Result Reserved)
        → Settles may operation
        → Holds k (settle_or_recover env adapters app req operation context reserved)
    unfolding settle_reserved
    Holds-settle req operation context (ok reserved) a =
        Holds-settled_by req operation context reserved _ a
    Holds-settle req operation context (err error) a = Holds-race req error _ (Holds-throw error)

    pub Holds-settlement :
        (req : Request) (escrow : ℕ) (operation : Operation)
        → Settles may operation
        → Holds k (execute_escrow_settlement env adapters app req escrow operation)
    unfolding execute_escrow_settlement
    Holds-settlement req escrow operation a = Holds-bind _ _ (Holds-replay req) λ found.
        Holds-or_else _ _ (
          Holds-attempt _ _
            (Holds-transaction _
              (Respects-reserve_settlement s.writes env req escrow operation found.0 a))
            λ reserved. Holds-settle req operation found.0 reserved a)

    Holds-locked_by :
        Creates app k
        → ((from to : EscrowStatus) → may from to)
        → (req : Request) (context : Context) (reserved : ReservedCreation)
          (answer : Result EscrowAdapterResult)
        → Holds k (locked_by env adapters app req context reserved answer)
    Holds-locked_by c a req context reserved (ok result) =
        Holds-catch _ _
          (Holds-twice req _ (
            Holds-transaction _
              (Respects-finalize_creation s.writes env req reserved context result a)))
          λ e. Holds-race req e _ (Holds-throw e)
    Holds-locked_by c a req context reserved (err error) =
        Holds-race req error _ (
          Holds-bind _ _ (Holds-transaction _ (c.discards reserved context)) λ _. Holds-throw error)

    Holds-lock :
        Creates app k
        → ((from to : EscrowStatus) → may from to)
        → (req : Request) (context : Context) (reserved : Result ReservedCreation)
        → Holds k (lock_or_recover env adapters app req context reserved)
    unfolding lock_reserved
    Holds-lock c a req context (ok reserved) = Holds-locked_by c a req context reserved _
    Holds-lock c a req context (err error) = Holds-race req error _ (Holds-throw error)

    pub Holds-creation :
        Creates app k
        → ((from to : EscrowStatus) → may from to)
        → (req : Request) (input : CreateEscrowInput)
        → Holds k (create_escrow_for_app env adapters app req input)
    unfolding create_escrow_for_app
    Holds-creation c a req input = Holds-bind _ _ (Holds-replay req) λ found. Holds-or_else _ _ (
        Holds-attempt _ _
          (Holds-transaction _ (Respects-reserve_creation s.writes c.opens env req input found.0))
          λ reserved. Holds-lock c a req found.0 reserved)

    Holds-funded_by :
        (req : Request) (context : Context) (before : Escrow) (answer : Result EscrowAdapterResult)
        → Funds may
        → Holds k (funded_by env adapters app req context before answer)
    Holds-funded_by req context before (ok result) a =
        Holds-transaction _ (Respects-finalize_funding s.writes env req before context result a)
    Holds-funded_by req context before (err error) a = Holds-recover req context true error

    Holds-fund :
        (req : Request) (context : Context) (hash : Option Text) (before : Result Escrow)
        → Funds may
        → Holds k (fund_or_recover env adapters app req context hash before)
    Holds-fund req context hash (ok before) a =
        Holds-if _ _ _ (Holds-return _) (Holds-funded_by req context before _ a)
    Holds-fund req context hash (err error) a = Holds-recover req context false error

    pub Holds-funding :
        (req : Request) (escrow : ℕ) (hash : Option Text)
        → Funds may
        → Holds k (mark_escrow_funded env adapters app req escrow hash)
    unfolding mark_escrow_funded
    Holds-funding req escrow hash a = Holds-bind _ _ (Holds-replay req) λ found. Holds-or_else _ _ (
        Holds-attempt _ _
          (Holds-transaction _ (Respects-reserve_funding s.writes env req escrow found.0))
          λ before. Holds-fund req found.0 hash before a)
