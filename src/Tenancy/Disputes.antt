-- ===== src/Tenancy/Disputes.antt =====
-- Every request on the disputes of an app leaves the rows of the other apps as they were.
use pactagent.Prelude.{ℕ, refl, arith}
use pactagent.Store.Tx.{Db}
use pactagent.Store.Respects.{
  Respects, Respects-reads, Respects-lift, Respects-bind, Respects-modify, Respects-pure,
  respects_rules,
}
use pactagent.Lifecycle.Dispute.{DisputeStatus}
use pactagent.Repository.Writes.{Respects-new_id}
use pactagent.Repository.Queries.{query_rules}
use pactagent.Repository.Disputes.{
  CreateDisputeInput, ResolveDisputeInput, create_dispute, resolve_dispute_row,
}
use pactagent.Repository.Idempotency.{Env}
use pactagent.Idempotency.{Request}
use pactagent.Escrow.FlowKeeps.{Holds-run}
use pactagent.Disputes.{create_dispute_for_app, resolve_dispute_for_app}
use pactagent.Disputes.Keeps.{AdmitsDisputes, Respects-open_dispute, Respects-resolve_dispute}
use pactagent.Tenancy.Isolation.{Isolates, isolation}
use pactagent.Tenancy.Writes.{isolation-Raw}
use pactagent.Tenancy.OwnRows.{disputes-Isolates, new_dispute-Isolates}
use pactagent.Tenancy.Requests.{isolation-Admits, isolation-Serves}

module _ (app : ℕ) where
  create_dispute-Isolates :
      (input : CreateDisputeInput) → Respects (isolation app) (create_dispute app input)
  unfolding create_dispute
  create_dispute-Isolates input = Respects-bind _ _ (Respects-reads _) λ taken.
      Respects-bind _ _ (Respects-lift _) λ _.
        Respects-bind _ _ (Respects-new_id (isolation-Raw app)) λ id.
          Respects-bind _ _ (Respects-modify _ λ db. new_dispute-Isolates app db _ refl)
            λ _. Respects-pure _

  resolve_dispute-Isolates :
      (id : ℕ) (from : DisputeStatus) (input : ResolveDisputeInput) (now : ℕ)
      → Respects (isolation app) (resolve_dispute_row app id from input now)
  unfolding resolve_dispute_row
  resolve_dispute-Isolates id from input now = Respects-bind _ _ (Respects-reads _) λ count.
      Respects-bind _ _ (Respects-modify _ λ db. disputes-Isolates app db _ _ λ row t. ground arith)
        λ _. search (respects_rules, query_rules) depth 10

  pub isolation-AdmitsDisputes : AdmitsDisputes app (isolation app)
  isolation-AdmitsDisputes = record {
    create = create_dispute-Isolates;
    resolve = resolve_dispute-Isolates;
  }

-- Opening a dispute and resolving one leave the rows of every other app as they were, however the
-- request ends. The job queue is not part of this.
pub disputes_isolated :
    (env : Env) (app : ℕ) (req : Request) (db : Db) (opened : CreateDisputeInput) (id : ℕ)
    (resolved : ResolveDisputeInput)
    → Isolates app db (create_dispute_for_app env app req opened db).1
      × Isolates app db (resolve_dispute_for_app env app req id resolved db).1
unfolding create_dispute_for_app resolve_dispute_for_app
disputes_isolated env app req db opened id resolved =
    let w = isolation-Admits app in
    let d = isolation-AdmitsDisputes app in
    (
      (Holds-run (isolation-Serves app) env req 201 _
            λ c. Respects-open_dispute w d req opened c).at
          db,
      (Holds-run (isolation-Serves app) env req 200 _
            λ c. Respects-resolve_dispute w d req id resolved c).at
          db,
    )
