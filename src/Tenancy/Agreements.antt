-- ===== src/Tenancy/Agreements.antt =====
-- Every request on the agreements and milestones of an app leaves the rows of the other apps as
-- they were.
use pactagent.Prelude.{ℕ, refl}
use pactagent.Lifecycle.Agreement.{AgreementStatus}
use pactagent.Store.Rows.{Text}
use pactagent.Store.Tx.{Db}
use pactagent.Store.Respects.{
  Respects, Respects-reads, Respects-lift, Respects-bind, Respects-modify, Respects-pure,
}
use pactagent.Repository.Writes.{Respects-new_id}
use pactagent.Repository.Agreements.{CreateAgreementInput, create_agreement}
use pactagent.Repository.Milestones.{CreateMilestoneInput, create_milestone}
use pactagent.Repository.Idempotency.{Env}
use pactagent.Idempotency.{Request}
use pactagent.Escrow.FlowKeeps.{Holds-run}
use pactagent.Agreements.{create_agreement_for_app, transition_agreement, accept_agreement}
use pactagent.Agreements.Keeps.{Respects-open_agreement, Respects-move_agreement, Respects-accept}
use pactagent.Milestones.{create_milestone_for_agreement}
use pactagent.Milestones.Keeps.{Respects-open_milestone}
use pactagent.Tenancy.Isolation.{Isolates, isolation}
use pactagent.Tenancy.Writes.{isolation-Raw}
use pactagent.Tenancy.NewRows.{new_agreement-Isolates, new_milestone-Isolates}
use pactagent.Tenancy.Requests.{isolation-Admits, isolation-Serves}

module _ (app : ℕ) where
  pub create_agreement-Isolates :
      (input : CreateAgreementInput) → Respects (isolation app) (create_agreement app input)
  unfolding create_agreement
  create_agreement-Isolates input = Respects-bind _ _ (Respects-reads _) λ taken.
      Respects-bind _ _ (Respects-lift _) λ _.
        Respects-bind _ _ (Respects-new_id (isolation-Raw app)) λ id.
          Respects-bind _ _ (Respects-modify _ λ db. new_agreement-Isolates app db _ refl)
            λ _. Respects-pure _

  pub create_milestone-Isolates :
      (agreement : ℕ) (input : CreateMilestoneInput) (order : ℕ) (currency : Text)
      → Respects (isolation app) (create_milestone app agreement input order currency)
  unfolding create_milestone
  create_milestone-Isolates agreement input order currency =
      Respects-bind _ _ (Respects-reads _) λ taken. Respects-bind _ _ (Respects-lift _) λ _.
        Respects-bind _ _ (Respects-new_id (isolation-Raw app)) λ id.
          Respects-bind _ _ (Respects-modify _ λ db. new_milestone-Isolates app db _ refl)
            λ _. Respects-pure _

-- Creating an agreement, moving it, accepting it and adding a milestone to it leave the rows of
-- every other app as they were, however the request ends. The job queue is not part of this.
pub agreements_isolated :
    (env : Env) (app : ℕ) (req : Request) (db : Db) (opened : CreateAgreementInput) (id : ℕ)
    (to : AgreementStatus) (added : CreateMilestoneInput)
    → Isolates app db (create_agreement_for_app env app req opened db).1
      × Isolates app db (transition_agreement env app req id to db).1
      × Isolates app db (accept_agreement env app req id db).1
      × Isolates app db (create_milestone_for_agreement env app req id added db).1
unfolding create_agreement_for_app transition_agreement accept_agreement
    create_milestone_for_agreement
agreements_isolated env app req db opened id to added =
    let w = isolation-Admits app in
    let s = isolation-Serves app in
    (
      (Holds-run s env req 201 _
            λ c. Respects-open_agreement w (create_agreement-Isolates app) req opened c).at
          db,
      (Holds-run s env req 200 _ λ c. Respects-move_agreement w req id to c).at db,
      (Holds-run s env req 200 _ λ c. Respects-accept w req id c).at db,
      (Holds-run s env req 201 _
            λ c. Respects-open_milestone w (create_milestone-Isolates app) req id added c).at
          db,
    )
