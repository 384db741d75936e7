-- ===== src/Tenancy/Requests.antt =====
-- Every request on the escrows of an app leaves the rows of the other apps as they were.
use pactagent.Prelude.{ℕ, ◌∙◌, Option, refl}
use pactagent.Store.Rows.{Text, Rail, Transaction}
use pactagent.Store.Tx.{Db}
use pactagent.Store.Action.{transaction}
use pactagent.Store.Holds.{Holds-transaction}
use pactagent.Store.Respects.{
  Respects, Respects-reads, Respects-lift, Respects-bind, Respects-modify, Respects-pure,
}
use pactagent.Repository.Admits.{Admits}
use pactagent.Repository.Admitted.{admitted, picked}
use pactagent.Repository.Writes.{Respects-new_id}
use pactagent.Repository.Escrows.{CreateEscrowInput, create_escrow, transition_escrow_status}
use pactagent.Repository.Idempotency.{Env}
use pactagent.Idempotency.{Request}
use pactagent.Escrow.Adapter.{EscrowAdapter, ReconciliationObservation}
use pactagent.Escrow.Settlement.{Operation}
use pactagent.Escrow.Flows.{execute_escrow_settlement, create_escrow_for_app, mark_escrow_funded}
use pactagent.Escrow.Reconciliation.{apply_observation}
use pactagent.Escrow.Keeps.{any_settlement}
use pactagent.Escrow.FlowKeeps.{Serves, Creates, Holds-settlement, Holds-creation, Holds-funding}
use pactagent.Escrow.MoreKeeps.{Respects-apply_observation}
use pactagent.Tenancy.Isolation.{Isolates, isolation}
use pactagent.Tenancy.Writes.{isolation-Raw}
use pactagent.Tenancy.OwnRows.{escrows-Isolates, new_escrow-Isolates, discard-Isolates}

module _ (app : ℕ) where
  pub isolation-Admits : Admits app (isolation app)
  unfolding transition_escrow_status
  isolation-Admits = admitted (isolation-Raw app) λ id from change move.
      Respects-bind _ _ (Respects-reads _) λ count.
        Respects-bind _ _
          (Respects-modify _ λ db.
            escrows-Isolates app db _ change λ row t.
              let own = picked app id from row t in (own.0, (move row own.1).app_id ∙ own.0))
          λ _. Respects-pure _

  create_escrow-Isolates :
      (input : CreateEscrowInput) → Respects (isolation app) (create_escrow app input)
  unfolding create_escrow
  create_escrow-Isolates input = Respects-bind _ _ (Respects-reads _) λ taken.
      Respects-bind _ _ (Respects-lift _) λ _.
        Respects-bind _ _ (Respects-new_id (isolation-Raw app)) λ id.
          Respects-bind _ _ (Respects-modify _ λ db. new_escrow-Isolates app db _ refl)
            λ _. Respects-pure _

  pub isolation-Serves : Serves app (isolation app)
  isolation-Serves = record { raw = isolation-Raw app; writes = isolation-Admits }

  pub isolation-Creates : Creates app (isolation app)
  isolation-Creates = record {
    opens = record {
      opening = λ input db t a row db' e. (create_escrow-Isolates input).at db row db' e;
    };
    discards = discard-Isolates app;
  }

module _ (env : Env) (adapters : Rail → EscrowAdapter) (app : ℕ) (req : Request) (db : Db) where
  -- A release or a refund leaves the rows of every other app as they were, whatever the adapters
  -- answer and whether the request succeeds, fails at the rail or is refused. The job queue, whose
  -- dedupe keys the apps share, is not part of this.
  pub settlement_isolated :
      (escrow : ℕ) (operation : Operation)
      → Isolates app db (execute_escrow_settlement env adapters app req escrow operation db).1
  settlement_isolated escrow operation =
      (Holds-settlement (isolation-Serves app) env adapters req escrow operation any_settlement).at
        db

  -- The creation of an escrow leaves the rows of every other app as they were, whatever the adapters
  -- answer, the deletions of a failed creation included. The job queue is not part of this.
  pub creation_isolated :
      (input : CreateEscrowInput)
      → Isolates app db (create_escrow_for_app env adapters app req input db).1
  creation_isolated input =
      (Holds-creation (isolation-Serves app) env adapters (isolation-Creates app) (λ s t. tt) req
          input).at
        db

  -- Marking an escrow funded leaves the rows of every other app as they were, whatever the adapters
  -- answer. The job queue is not part of this.
  pub funding_isolated :
      (escrow : ℕ) (hash : Option Text)
      → Isolates app db (mark_escrow_funded env adapters app req escrow hash db).1
  funding_isolated escrow hash =
      (Holds-funding (isolation-Serves app) env adapters req escrow hash λ s t h k. tt).at db

-- The transaction that closes a reconciliation leaves the rows of every app but the one that the
-- CKB transaction's row names as they were, whatever the node has reported and whether it commits
-- or not. The job queue is not part of this.
pub reconciliation_isolated :
    (env : Env) (now : ℕ) (snapshot : Transaction) (hash : Text) (escrow : ℕ)
    (observation : ReconciliationObservation) (db : Db)
    → Isolates snapshot.app_id db
        (transaction (apply_observation env now snapshot hash escrow observation) db).1
reconciliation_isolated env now snapshot hash escrow observation db =
    (Holds-transaction _ (
        Respects-apply_observation env now snapshot hash escrow observation
          (isolation-Admits snapshot.app_id))).at
      db
