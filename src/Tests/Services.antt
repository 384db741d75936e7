-- ===== src/Tests/Services.antt =====
-- A dispute and a proof on a milestone of the first app.
use pactagent.Prelude.{some}
use pactagent.Lifecycle.DisputePaths.{ResolutionType}
use pactagent.Store.Rows.{codes}
use pactagent.Repository.Disputes.{CreateDisputeInput, ResolveDisputeInput}
use pactagent.Disputes.{create_dispute_for_app, resolve_dispute_for_app}
use pactagent.Tenancy.Isolation.{Isolates}
use pactagent.Tenancy.Disputes.{disputes_isolated}
use pactagent.Lifecycle.ProofPaths.{ReviewDecision}
use pactagent.Repository.Proofs.{CreateProofInput, ReviewProofInput}
use pactagent.Proofs.{create_proof_for_app, review_proof_for_app}
use pactagent.Tenancy.Proofs.{proofs_isolated}
use pactagent.Tests.{env, two_apps, request}

abbrev opened : CreateDisputeInput
opened = record { agreement_id = 10; milestone_id = 30; opened_by_external_id = 90 }

abbrev resolved : ResolveDisputeInput
resolved = record {
  resolution_type = ResolutionType.split;
  worker_amount = some (codes "150");
  client_amount = some (codes "50");
}

disputes_isolated_example :
    Isolates 1 two_apps (create_dispute_for_app env 1 request opened two_apps).1
    × Isolates 1 two_apps (resolve_dispute_for_app env 1 request 50 resolved two_apps).1
disputes_isolated_example = disputes_isolated env 1 request two_apps opened 50 resolved

abbrev submitted : CreateProofInput
submitted = record {
  agreement_id = 10;
  milestone_id = 30;
  submitted_by_external_id = 91;
  content_hash = codes "c1";
}

abbrev reviewed : ReviewProofInput
reviewed = record { reviewer_external_id = 92; decision = ReviewDecision.approved }

proofs_isolated_example :
    Isolates 1 two_apps (create_proof_for_app env 1 request submitted two_apps).1
    × Isolates 1 two_apps (review_proof_for_app env 1 request 51 reviewed two_apps).1
proofs_isolated_example = proofs_isolated env 1 request two_apps submitted 51 reviewed
