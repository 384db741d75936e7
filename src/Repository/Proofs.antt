-- ===== src/Repository/Proofs.antt =====
-- server/src/modules/proofs/proof.repository.ts and
-- server/src/modules/reviews/review.repository.ts.
use pactagent.Prelude.{
  ℕ, Bool, ◌&&◌, Option, ◌∷◌, nat_eq, ◌==◌, find_first, update_rows, count_rows,
}
use pactagent.Errors.{internal}
use pactagent.Lifecycle.Proof.{ProofStatus, proof_eq}
use pactagent.Lifecycle.ProofPaths.{ReviewDecision}
use pactagent.Store.Rows.{Text, Proof, Review}
use pactagent.Store.Tx.{Tx, pure, reads, modify, new_id, or_fail, ◌>>=◌, ◌>>◌}
use pactagent.Repository.Agreements.{assert_lifecycle_compare_and_swap}

-- `CreateProofInput`, its content by the hash that `createProofContentHash` takes of it.
pub record CreateProofInput : Type 0 where
  pub agreement_id : ℕ
  pub milestone_id : ℕ
  pub submitted_by_external_id : ℕ
  pub content_hash : Text

abbrev pub new_proof : ℕ → CreateProofInput → ℕ → Proof
new_proof app input id = record {
  id = id;
  app_id = app;
  agreement_id = input.agreement_id;
  milestone_id = input.milestone_id;
  submitted_by_external_id = input.submitted_by_external_id;
  content_hash = input.content_hash;
  status = ProofStatus.submitted;
}

unfoldable pub create_proof : ℕ → CreateProofInput → Tx Proof
create_proof app input = do
  id ← new_id
  modify (λ db. record db { proofs = new_proof app input id ∷ db.proofs })
  pure (new_proof app input id)

abbrev pub is_proof : ℕ → ℕ → Proof → Bool
is_proof app id row = row.id == id && row.app_id == app

unfoldable pub find_proof_for_app : ℕ → ℕ → Tx (Option Proof)
find_proof_for_app app id = reads (λ db. find_first (is_proof app id) db.proofs)

abbrev pub is_proof_in : ℕ → ℕ → ProofStatus → Proof → Bool
is_proof_in app id status row = is_proof app id row && row.status == status

unfoldable pub transition_proof_status : ℕ → ℕ → ProofStatus → ProofStatus → Tx Proof
unfolding assert_lifecycle_compare_and_swap find_proof_for_app
transition_proof_status app id expected next = do
  count ← reads (λ db. count_rows (is_proof_in app id expected) db.proofs)
  modify (λ db. record db {
    proofs =
        update_rows (is_proof_in app id expected) (λ row. record row { status = next }) db.proofs;
  })
  assert_lifecycle_compare_and_swap count
  row ← find_proof_for_app app id
  or_fail row (internal "P2025")

-- `ReviewProofInput`; the note is left out.
pub record ReviewProofInput : Type 0 where
  pub reviewer_external_id : ℕ
  pub decision : ReviewDecision

abbrev pub new_review : ℕ → Proof → ReviewProofInput → ℕ → Review
new_review app proof input id = record {
  id = id;
  app_id = app;
  agreement_id = proof.agreement_id;
  milestone_id = proof.milestone_id;
  proof_submission_id = proof.id;
  reviewer_external_id = input.reviewer_external_id;
  decision = input.decision;
}

-- `createReview`, for the proof under review.
unfoldable pub create_review : ℕ → Proof → ReviewProofInput → Tx Review
create_review app proof input = do
  id ← new_id
  modify (λ db. record db { reviews = new_review app proof input id ∷ db.reviews })
  pure (new_review app proof input id)
