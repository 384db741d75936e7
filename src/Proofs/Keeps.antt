-- ===== src/Proofs/Keeps.antt =====
-- The requests on proofs keep every relation that admits their writes.
use pactagent.Prelude.{ℕ, refl, String}
use pactagent.Lifecycle.Proof.{ProofStatus}
use pactagent.Store.Rows.{Proof}
use pactagent.Store.Respects.{
  Keeping, Respects, Respects-bind, Respects-when, Respects-reads, respects_rules,
}
use pactagent.Repository.Admits.{Admits}
use pactagent.Repository.Queries.{query_rules}
use pactagent.Repository.Proofs.{
  CreateProofInput, ReviewProofInput, create_proof, find_proof_for_app, transition_proof_status,
  create_review,
}
use pactagent.Repository.Idempotency.{Context}
use pactagent.Idempotency.{Request}
use pactagent.Disputes.Keeps.{
  Respects-find_milestone_of, Respects-advance_agreement, Respects-advance_milestone,
}
use pactagent.Proofs.{proof_event, audit_proof, submit_proof, start_review, review_proof}

-- The relation admits what is written to the proofs and the reviews of the app.
pub record AdmitsProofs (app : ℕ) (k : Keeping) : Type 0 where
  pub create : (input : CreateProofInput) → Respects k (create_proof app input)
  pub transition :
      (id : ℕ) (from to : ProofStatus) → Respects k (transition_proof_status app id from to)
  pub review :
      (proof : Proof) (input : ReviewProofInput) → Respects k (create_review app proof input)

module _ {k : Keeping} where
  Respects-find_proof : (app id : ℕ) → Respects k (find_proof_for_app app id)
  unfolding find_proof_for_app
  Respects-find_proof app id = Respects-reads _

module _ {app : ℕ} {k : Keeping} (w : Admits app k) (p : AdmitsProofs app k) where
  Respects-proof_event :
      (type : String) (agreement milestone proof now : ℕ)
      → Respects k (proof_event app type agreement milestone proof now)
  unfolding proof_event
  Respects-proof_event type agreement milestone proof now = w.event _ now

  Respects-audit_proof :
      (req : Request) (agreement proof : ℕ) (action : String)
      → Respects k (audit_proof app req agreement proof action)
  unfolding audit_proof
  Respects-audit_proof req agreement proof action = w.audit _ refl

  Respects-start_review : (proof : Proof) (now : ℕ) → Respects k (start_review app proof now)
  unfolding start_review
  Respects-start_review proof now = Respects-when _ _ λ _.
      Respects-bind _ _ (p.transition proof.id proof.status _)
        λ _. Respects-proof_event _ _ _ proof.id now

  pub Respects-submit_proof :
      (req : Request) (input : CreateProofInput) (context : Context)
      → Respects k (submit_proof app req input context)
  unfolding submit_proof
  Respects-submit_proof req input context =
      search
        (
          respects_rules, query_rules, p.create, Respects-find_milestone_of,
          Respects-advance_agreement, Respects-advance_milestone, Respects-proof_event,
          Respects-audit_proof,
        )
        depth 30

  pub Respects-review_proof :
      (req : Request) (id : ℕ) (input : ReviewProofInput) (context : Context)
      → Respects k (review_proof app req id input context)
  unfolding review_proof
  Respects-review_proof req id input context =
      search
        (
          respects_rules, query_rules, p.transition, p.review, Respects-find_proof,
          Respects-find_milestone_of, Respects-start_review, Respects-advance_agreement,
          Respects-advance_milestone, Respects-proof_event, Respects-audit_proof,
        )
        depth 40
