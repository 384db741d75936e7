-- ===== src/Repository/Disputes.antt =====
-- server/src/modules/disputes/dispute.repository.ts.
use pactagent.Prelude.{
  ℕ, Bool, true, false, ◌&&◌, Option, none, some, ◌∷◌, nat_eq, ◌==◌, find_first, update_rows,
  count_rows, is_some,
}
use pactagent.Errors.{unique_violation, internal, reject_if}
use pactagent.Lifecycle.Dispute.{DisputeStatus, dispute_eq}
use pactagent.Lifecycle.DisputePaths.{ResolutionType, status_for_resolution_type}
use pactagent.Store.Rows.{Text, Dispute}
use pactagent.Store.Tx.{Tx, pure, lift, reads, modify, new_id, or_fail, ◌>>=◌, ◌>>◌}
use pactagent.Repository.Agreements.{assert_lifecycle_compare_and_swap}

-- `CreateDisputeInput`; the reason and the evidence links are left out.
pub record CreateDisputeInput : Type 0 where
  pub agreement_id : ℕ
  pub milestone_id : ℕ
  pub opened_by_external_id : ℕ

-- `ResolveDisputeInput`
pub record ResolveDisputeInput : Type 0 where
  pub resolution_type : ResolutionType
  pub worker_amount : Option Text
  pub client_amount : Option Text

abbrev pub is_unresolved : DisputeStatus → Bool
is_unresolved DisputeStatus.opened = true
is_unresolved DisputeStatus.awaiting_response = true
is_unresolved DisputeStatus.under_review = true
is_unresolved _ = false

abbrev pub is_unresolved_in_scope : ℕ → ℕ → ℕ → Dispute → Bool
is_unresolved_in_scope app agreement milestone row =
    row.app_id == app
    && row.agreement_id == agreement
    && row.milestone_id == milestone
    && is_unresolved row.status

unfoldable pub find_unresolved_dispute_for_scope : ℕ → ℕ → ℕ → Tx (Option Dispute)
find_unresolved_dispute_for_scope app agreement milestone =
    reads (λ db. find_first (is_unresolved_in_scope app agreement milestone) db.disputes)

abbrev pub new_dispute : ℕ → CreateDisputeInput → ℕ → Dispute
new_dispute app input id = record {
  id = id;
  app_id = app;
  agreement_id = input.agreement_id;
  milestone_id = input.milestone_id;
  opened_by_external_id = input.opened_by_external_id;
  status = DisputeStatus.opened;
  resolution_type = none;
  worker_amount = none;
  client_amount = none;
  resolved_at = none;
}

-- `dispute.create`, under the partial unique index on unresolved scopes.
unfoldable pub create_dispute : ℕ → CreateDisputeInput → Tx Dispute
create_dispute app input = do
  taken ← reads (λ db.
      is_some
        (find_first (is_unresolved_in_scope app input.agreement_id input.milestone_id) db.disputes))
  lift (reject_if taken unique_violation)
  id ← new_id
  modify (λ db. record db { disputes = new_dispute app input id ∷ db.disputes })
  pure (new_dispute app input id)

abbrev pub is_dispute : ℕ → ℕ → Dispute → Bool
is_dispute app id row = row.id == id && row.app_id == app

unfoldable pub find_dispute_for_app : ℕ → ℕ → Tx (Option Dispute)
find_dispute_for_app app id = reads (λ db. find_first (is_dispute app id) db.disputes)

abbrev is_release : Option ResolutionType → Bool
is_release (some ResolutionType.release) = true
is_release _ = false

-- A scope with no milestone does not narrow the search.
abbrev of_milestone : Option ℕ → Dispute → Bool
of_milestone none row = true
of_milestone (some milestone) row = row.milestone_id == milestone

abbrev pub is_resolved_release_for : ℕ → ℕ → Option ℕ → Dispute → Bool
is_resolved_release_for app agreement milestone row =
    row.app_id == app
    && row.agreement_id == agreement
    && of_milestone milestone row
    && row.status == DisputeStatus.resolved_release
    && is_release row.resolution_type

unfoldable pub find_resolved_release_dispute_for_escrow_scope :
    ℕ → ℕ → Option ℕ → Tx (Option Dispute)
find_resolved_release_dispute_for_escrow_scope app agreement milestone =
    reads (λ db. find_first (is_resolved_release_for app agreement milestone) db.disputes)

abbrev pub resolved_dispute : ResolveDisputeInput → ℕ → Dispute → Dispute
resolved_dispute input now row = record row {
  status = status_for_resolution_type input.resolution_type;
  resolution_type = some input.resolution_type;
  worker_amount = input.worker_amount;
  client_amount = input.client_amount;
  resolved_at = some now;
}

abbrev pub is_dispute_in : ℕ → ℕ → DisputeStatus → Dispute → Bool
is_dispute_in app id status row = is_dispute app id row && row.status == status

-- `resolveDisputeForApp` of the repository.
unfoldable pub resolve_dispute_row : ℕ → ℕ → DisputeStatus → ResolveDisputeInput → ℕ → Tx Dispute
unfolding assert_lifecycle_compare_and_swap find_dispute_for_app
resolve_dispute_row app id expected input now = do
  count ← reads (λ db. count_rows (is_dispute_in app id expected) db.disputes)
  modify (λ db. record db {
    disputes = update_rows (is_dispute_in app id expected) (resolved_dispute input now) db.disputes;
  })
  assert_lifecycle_compare_and_swap count
  row ← find_dispute_for_app app id
  or_fail row (internal "P2025")
