-- ===== src/Agreements/Keeps.antt =====
-- The requests on agreements keep every relation that admits their writes.
use pactagent.Prelude.{ℕ, ◌≡◌, refl, Option, none, some, String}
use pactagent.Errors.{Result, ok, err, unique_violation}
use pactagent.Lifecycle.Agreement.{AgreementStatus}
use pactagent.Store.Rows.{Agreement}
use pactagent.Store.Tx.{Db}
use pactagent.Store.Respects.{
  Keeping, Respects, Respects-bind, Respects-check, respects_rules, err≢ok,
}
use pactagent.Repository.Admits.{Admits}
use pactagent.Repository.Queries.{query_rules}
use pactagent.Repository.Agreements.{CreateAgreementInput, create_agreement}
use pactagent.Repository.Idempotency.{Context}
use pactagent.Idempotency.{Request}
use pactagent.Disputes.Keeps.{agreement_move}
use pactagent.Agreements.{
  announce_agreement, audit_lifecycle_change, agreement_conflict, create_agreement_or_conflict,
  open_agreement, move_agreement, accept,
}

pub created_agreement :
    (reference : Option ℕ) {r : Result (Agreement × Db)} {row : Agreement} {db : Db}
    → agreement_conflict reference r ≡ ok (row, db)
    → r ≡ ok (row, db)
created_agreement none h = h
created_agreement (some x) {r = ok y} h = h
created_agreement (some x) {r = err unique_violation} h = absurd (err≢ok h)
created_agreement (some x) {r = err e} h = h

module _ {app : ℕ} {k : Keeping} (w : Admits app k) where
  Respects-announce :
      (req : Request) (agreement : ℕ) (type : String)
      → Respects k (announce_agreement app req agreement type)
  unfolding announce_agreement
  Respects-announce req agreement type = w.event _ req.now

  Respects-audit :
      (req : Request) (agreement : ℕ) (action : String)
      → Respects k (audit_lifecycle_change app req agreement action)
  unfolding audit_lifecycle_change
  Respects-audit req agreement action = w.audit _ refl

  module _ (create : (input : CreateAgreementInput) → Respects k (create_agreement app input)) where
    Respects-create_or_conflict :
        (input : CreateAgreementInput) → Respects k (create_agreement_or_conflict app input)
    unfolding create_agreement_or_conflict
    Respects-create_or_conflict input = record {
      at = λ db row db' e.
          (create input).at db row db' (created_agreement input.external_reference_id e);
    }

    pub Respects-open_agreement :
        (req : Request) (input : CreateAgreementInput) (context : Context)
        → Respects k (open_agreement app req input context)
    unfolding open_agreement
    Respects-open_agreement req input context =
        search (respects_rules, Respects-create_or_conflict, Respects-announce, Respects-audit)
          depth 12

  pub Respects-move_agreement :
      (req : Request) (id : ℕ) (to : AgreementStatus) (context : Context)
      → Respects k (move_agreement app req id to context)
  unfolding move_agreement
  Respects-move_agreement req id to context =
      Respects-bind _ _ (search query_rules depth 3) λ found.
        Respects-bind _ _ (search respects_rules depth 3) λ before. Respects-check _ _ λ _ h.
          Respects-bind _ _
            (w.agreement id before.status to req.now (agreement_move before.status to h))
            λ after. search (respects_rules, Respects-announce, Respects-audit) depth 12

  pub Respects-accept :
      (req : Request) (id : ℕ) (context : Context) → Respects k (accept app req id context)
  unfolding accept
  Respects-accept req id context = Respects-bind _ _ (search query_rules depth 3) λ found.
      Respects-bind _ _ (search respects_rules depth 3) λ before. Respects-check _ _ λ _ h.
        Respects-check _ _ λ _ g.
          Respects-bind _ _
            (w.agreement id before.status _ req.now
              (agreement_move before.status AgreementStatus.pending_acceptance h))
            λ _.
              Respects-bind _ _
                (w.agreement id _ _ req.now
                  (agreement_move AgreementStatus.pending_acceptance AgreementStatus.accepted g))
                λ after. search (respects_rules, Respects-announce, Respects-audit) depth 12
