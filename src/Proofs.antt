-- ===== src/Proofs.antt =====
-- server/src/modules/proofs/proof.service.ts: the submission and the review of a proof, each the work
-- of one idempotent transaction. `advanceAgreement` and `advanceMilestone` are those of Disputes.
pub mod Keeps
use pactagent.Prelude.{ℕ, Bool, true, false, ◌||◌, ◌==◌, Option, none, some, String}
use pactagent.Errors.{Result, ok, err, invalid_request, not_found, require}
use pactagent.Lifecycle.Proof.{ProofStatus, proof_eq}
use pactagent.Lifecycle.ProofPaths.{
  ReviewDecision, proof_status_for_review_decision, agreement_path_for_proof_submission,
  milestone_path_for_proof_submission, agreement_path_for_review_decision,
  milestone_path_for_review_decision,
}
use pactagent.Store.Rows.{Proof, Resource}
use pactagent.Store.Tx.{Db, Tx, pure, lift, or_fail, when, ◌>>=◌, ◌>>◌}
use pactagent.Store.Action.{Action}
use pactagent.Repository.Agreements.{find_agreement_for_app}
use pactagent.Repository.Proofs.{
  CreateProofInput, ReviewProofInput, create_proof, find_proof_for_app, transition_proof_status,
  create_review,
}
use pactagent.Repository.Events.{create_event, create_infrastructure_audit_log}
use pactagent.Repository.Idempotency.{Env, Context}
use pactagent.Idempotency.{Request, run_idempotent_transaction}
use pactagent.Disputes.{advance_agreement, advance_milestone, find_disputed_milestone}

-- An event of a proof.
unfoldable pub proof_event : ℕ → String → ℕ → ℕ → ℕ → ℕ → Tx (Unit {0})
proof_event app type agreement milestone proof now =
    create_event app
      (record {
        type = type;
        agreement_id = some agreement;
        milestone_id = some milestone;
        escrow_id = none;
        proof_submission_id = some proof;
        dispute_id = none;
      })
      now

-- `auditProof`
unfoldable pub audit_proof : ℕ → Request → ℕ → ℕ → String → Tx (Unit {0})
audit_proof app req agreement proof action = create_infrastructure_audit_log (record {
  app_id = app;
  agreement_id = some agreement;
  actor_type = "api_key";
  actor_id = req.actor;
  action = action;
  target_type = "proof";
  target_id = proof;
})

-- The `run` of `createProofForApp`
unfoldable pub submit_proof : ℕ → Request → CreateProofInput → Context → Tx Resource
submit_proof app req input context = do
  found ← find_agreement_for_app app input.agreement_id
  agreement ← or_fail found (not_found "agreement_not_found")
  milestone ← find_disputed_milestone app input.milestone_id agreement
  agreement_path ← lift (agreement_path_for_proof_submission agreement.status)
  milestone_path ← lift (milestone_path_for_proof_submission milestone.status)
  created ← create_proof app input
  advance_agreement app agreement.id agreement.status agreement_path req.now
  advance_milestone app milestone.id milestone.status milestone_path
  proof_event app "proof.submitted" agreement.id milestone.id created.id req.now
  proof_event app "milestone.proof_submitted" agreement.id milestone.id created.id req.now
  audit_proof app req agreement.id created.id "proof.submitted"
  pure (Resource.proof created)

-- `createProofForApp`
unfoldable pub create_proof_for_app : Env → ℕ → Request → CreateProofInput → Action Resource
create_proof_for_app env app req input =
    run_idempotent_transaction env app req 201 (submit_proof app req input)

-- `eventTypeForReviewDecision`
abbrev pub event_type_for_review_decision : ReviewDecision → String
event_type_for_review_decision ReviewDecision.approved = "proof.approved"
event_type_for_review_decision ReviewDecision.rejected = "proof.rejected"
event_type_for_review_decision ReviewDecision.needs_changes = "proof.needs_changes"

abbrev pub is_approval : ReviewDecision → Bool
is_approval ReviewDecision.approved = true
is_approval _ = false

-- A submitted proof is moved under review first.
unfoldable pub start_review : ℕ → Proof → ℕ → Tx (Unit {0})
start_review app proof now = when (proof.status == ProofStatus.submitted) (do
  transition_proof_status app proof.id proof.status ProofStatus.under_review
  proof_event app "proof.under_review" proof.agreement_id proof.milestone_id proof.id now)

-- The `run` of `reviewProofForApp`. Past the check of its status the proof is under review.
unfoldable pub review_proof : ℕ → Request → ℕ → ReviewProofInput → Context → Tx Resource
review_proof app req id input context = do
  found ← find_proof_for_app app id
  proof ← or_fail found (not_found "proof_not_found")
  lift (
      require (proof.status == ProofStatus.submitted || proof.status == ProofStatus.under_review)
        (invalid_request "proof_already_reviewed"))
  found_agreement ← find_agreement_for_app app proof.agreement_id
  agreement ← or_fail found_agreement (not_found "agreement_not_found")
  milestone ← find_disputed_milestone app proof.milestone_id agreement
  agreement_path ← lift (agreement_path_for_review_decision agreement.status input.decision)
  milestone_path ← lift (milestone_path_for_review_decision milestone.status input.decision)
  start_review app proof req.now
  advance_agreement app agreement.id agreement.status agreement_path req.now
  advance_milestone app milestone.id milestone.status milestone_path
  reviewed ←
      transition_proof_status app proof.id ProofStatus.under_review
        (proof_status_for_review_decision input.decision)
  review ← create_review app proof input
  proof_event app (event_type_for_review_decision input.decision) proof.agreement_id
      proof.milestone_id proof.id req.now
  when (is_approval input.decision)
      (proof_event app "milestone.approved" proof.agreement_id proof.milestone_id proof.id req.now)
  audit_proof app req proof.agreement_id proof.id "proof.reviewed"
  pure (Resource.reviewed_proof reviewed review)

-- `reviewProofForApp`
unfoldable pub review_proof_for_app : Env → ℕ → Request → ℕ → ReviewProofInput → Action Resource
review_proof_for_app env app req id input =
    run_idempotent_transaction env app req 200 (review_proof app req id input)
