-- ===== src/Tenancy/Proofs.antt =====
-- Every request on the proofs of an app leaves the rows of the other apps as they were.
use pactagent.Prelude.{ℕ, refl, arith}
use pactagent.Store.Tx.{Db}
use pactagent.Store.Rows.{Proof}
use pactagent.Store.Respects.{
  Respects, Respects-reads, Respects-bind, Respects-modify, Respects-pure, respects_rules,
}
use pactagent.Lifecycle.Proof.{ProofStatus}
use pactagent.Repository.Writes.{Respects-new_id}
use pactagent.Repository.Queries.{query_rules}
use pactagent.Repository.Proofs.{
  CreateProofInput, ReviewProofInput, create_proof, transition_proof_status, create_review,
}
use pactagent.Repository.Idempotency.{Env}
use pactagent.Idempotency.{Request}
use pactagent.Escrow.FlowKeeps.{Holds-run}
use pactagent.Proofs.{create_proof_for_app, review_proof_for_app}
use pactagent.Proofs.Keeps.{AdmitsProofs, Respects-submit_proof, Respects-review_proof}
use pactagent.Tenancy.Isolation.{Isolates, isolation}
use pactagent.Tenancy.Writes.{isolation-Raw}
use pactagent.Tenancy.OwnRows.{proofs-Isolates, new_proof-Isolates, new_review-Isolates}
use pactagent.Tenancy.Requests.{isolation-Admits, isolation-Serves}

module _ (app : ℕ) where
  create_proof-Isolates :
      (input : CreateProofInput) → Respects (isolation app) (create_proof app input)
  unfolding create_proof
  create_proof-Isolates input = Respects-bind _ _ (Respects-new_id (isolation-Raw app)) λ id.
      Respects-bind _ _ (Respects-modify _ λ db. new_proof-Isolates app db _ refl)
        λ _. Respects-pure _

  create_review-Isolates :
      (proof : Proof) (input : ReviewProofInput)
      → Respects (isolation app) (create_review app proof input)
  unfolding create_review
  create_review-Isolates proof input = Respects-bind _ _ (Respects-new_id (isolation-Raw app)) λ id.
      Respects-bind _ _ (Respects-modify _ λ db. new_review-Isolates app db _ refl)
        λ _. Respects-pure _

  transition_proof-Isolates :
      (id : ℕ) (from to : ProofStatus)
      → Respects (isolation app) (transition_proof_status app id from to)
  unfolding transition_proof_status
  transition_proof-Isolates id from to = Respects-bind _ _ (Respects-reads _) λ count.
      Respects-bind _ _ (Respects-modify _ λ db. proofs-Isolates app db _ _ λ row t. ground arith)
        λ _. search (respects_rules, query_rules) depth 10

  pub isolation-AdmitsProofs : AdmitsProofs app (isolation app)
  isolation-AdmitsProofs = record {
    create = create_proof-Isolates;
    transition = transition_proof-Isolates;
    review = create_review-Isolates;
  }

-- Submitting a proof and reviewing one leave the rows of every other app as they were, however the
-- request ends. The job queue is not part of this.
pub proofs_isolated :
    (env : Env) (app : ℕ) (req : Request) (db : Db) (submitted : CreateProofInput) (id : ℕ)
    (reviewed : ReviewProofInput)
    → Isolates app db (create_proof_for_app env app req submitted db).1
      × Isolates app db (review_proof_for_app env app req id reviewed db).1
unfolding create_proof_for_app review_proof_for_app
proofs_isolated env app req db submitted id reviewed =
    let w = isolation-Admits app in
    let p = isolation-AdmitsProofs app in
    (
      (Holds-run (isolation-Serves app) env req 201 _
            λ c. Respects-submit_proof w p req submitted c).at
          db,
      (Holds-run (isolation-Serves app) env req 200 _
            λ c. Respects-review_proof w p req id reviewed c).at
          db,
    )
