-- ===== src/Escrow/Scope.antt =====
-- server/src/modules/escrows/escrow.service.ts: what an escrow's settlement and funding do to its
-- agreement and its milestone.
use pactagent.Prelude.{
  ℕ, Bool, true, false, not, ◌&&◌, ◌||◌, ◌==◌, none, some, List, [], ◌∷◌, String,
}
use pactagent.Lifecycle.Agreement.{AgreementStatus, agreement_eq, can_transition_agreement}
use pactagent.Lifecycle.Milestone.{MilestoneStatus, milestone_eq, can_transition_milestone}
use pactagent.Lifecycle.Escrow.{EscrowStatus, escrow_eq}
use pactagent.Store.Rows.{Agreement, Milestone, Escrow, JobKind, DedupeKey, Rail}
use pactagent.Store.Tx.{Tx, pure, when, when_some, ◌>>=◌, ◌>>◌}
use pactagent.Repository.Agreements.{find_agreement_for_app, transition_agreement_status}
use pactagent.Repository.Milestones.{find_milestone_for_app, transition_milestone_status}
use pactagent.Repository.Escrows.{is_terminal, list_escrows_for_agreement}
use pactagent.Repository.Events.{create_event}
use pactagent.Repository.Jobs.{enqueue_job}

-- `toStatus`
pub data Terminal : Type 0 where
  released refunded : Terminal

abbrev pub terminal_escrow : Terminal → EscrowStatus
terminal_escrow Terminal.released = EscrowStatus.released
terminal_escrow Terminal.refunded = EscrowStatus.refunded

abbrev pub terminal_milestone : Terminal → MilestoneStatus
terminal_milestone Terminal.released = MilestoneStatus.released
terminal_milestone Terminal.refunded = MilestoneStatus.refunded

abbrev pub terminal_agreement : Terminal → AgreementStatus
terminal_agreement Terminal.released = AgreementStatus.released
terminal_agreement Terminal.refunded = AgreementStatus.refunded

-- The event of a milestone and the escrow that moved it.
unfoldable pub milestone_event : ℕ → String → ℕ → ℕ → ℕ → ℕ → Tx (Unit {0})
milestone_event app type agreement milestone escrow now =
    create_event app
      (record {
        type = type;
        agreement_id = some agreement;
        milestone_id = some milestone;
        escrow_id = some escrow;
        proof_submission_id = none;
        dispute_id = none;
      })
      now

-- The event of an escrow.
unfoldable pub escrow_event : ℕ → String → Escrow → ℕ → Tx (Unit {0})
escrow_event app type escrow now =
    create_event app
      (record {
        type = type;
        agreement_id = some escrow.agreement_id;
        milestone_id = escrow.milestone_id;
        escrow_id = some escrow.id;
        proof_submission_id = none;
        dispute_id = none;
      })
      now

abbrev is_released : Terminal → Bool
is_released Terminal.released = true
is_released Terminal.refunded = false

unfoldable pub move_milestone : ℕ → ℕ → Terminal → ℕ → ℕ → Milestone → Tx (Unit {0})
move_milestone app agreement to escrow now milestone =
    when
      (not (milestone.status == terminal_milestone to)
        && can_transition_milestone milestone.status (terminal_milestone to))
      (do
        transition_milestone_status app milestone.id milestone.status (terminal_milestone to)
        when (is_released to)
            (milestone_event app "milestone.released" agreement milestone.id escrow now))

-- `transitionMilestoneIfAllowed`
unfoldable pub transition_milestone_if_allowed : ℕ → ℕ → ℕ → Terminal → ℕ → ℕ → Tx (Unit {0})
unfolding move_milestone
transition_milestone_if_allowed app agreement milestone to escrow now = do
  row ← find_milestone_for_app app milestone
  when_some row (move_milestone app agreement to escrow now)

abbrev pub all_in : EscrowStatus → List Escrow → Bool
all_in status [] = true
all_in status (x ∷ xs) = x.status == status && all_in status xs

abbrev pub some_open : List Escrow → Bool
some_open [] = false
some_open (x ∷ xs) = not (is_terminal x.status) || some_open xs

abbrev pub is_empty : List Escrow → Bool
is_empty [] = true
is_empty (x ∷ xs) = false

-- Whether `targetStatus` is set: no escrow is open, and all have ended as this one.
abbrev pub all_ended_as : Terminal → List Escrow → Bool
all_ended_as to rows = not (is_empty rows || some_open rows) && all_in (terminal_escrow to) rows

unfoldable pub move_agreement : ℕ → Terminal → ℕ → Agreement → Tx (Unit {0})
move_agreement app to now agreement =
    when
      (is_released to && can_transition_agreement agreement.status AgreementStatus.release_pending)
      (do
        transition_agreement_status app agreement.id agreement.status
            AgreementStatus.release_pending now
        transition_agreement_status app agreement.id AgreementStatus.release_pending
            AgreementStatus.released now
        pure tt)
    >> when
        (not (
            is_released to
            && can_transition_agreement agreement.status AgreementStatus.release_pending)
          && can_transition_agreement agreement.status (terminal_agreement to))
        (do
          transition_agreement_status app agreement.id agreement.status (terminal_agreement to) now
          pure tt)

unfoldable pub end_agreement : ℕ → Terminal → ℕ → Agreement → Tx (Unit {0})
unfolding move_agreement
end_agreement app to now agreement = do
  rows ← list_escrows_for_agreement app agreement.id
  when (not (agreement.status == terminal_agreement to) && all_ended_as to rows)
      (move_agreement app to now agreement)

-- `transitionAgreementWhenAllEscrowsTerminal`
unfoldable pub transition_agreement_when_all_escrows_terminal : ℕ → ℕ → Terminal → ℕ → Tx (Unit {0})
unfolding end_agreement
transition_agreement_when_all_escrows_terminal app agreement to now = do
  row ← find_agreement_for_app app agreement
  when_some row (end_agreement app to now)

abbrev pub is_fundable : MilestoneStatus → Bool
is_fundable MilestoneStatus.pending = true
is_fundable MilestoneStatus.funding_required = true
is_fundable _ = false

unfoldable pub fund_milestone : ℕ → Escrow → ℕ → Milestone → Tx (Unit {0})
fund_milestone app escrow now milestone = when (is_fundable milestone.status) (do
  transition_milestone_status app milestone.id milestone.status MilestoneStatus.funded
  milestone_event app "milestone.funded" escrow.agreement_id milestone.id escrow.id now)

unfoldable pub fund_agreement : ℕ → ℕ → Agreement → Tx (Unit {0})
fund_agreement app now agreement = when (agreement.status == AgreementStatus.funding_required) (do
  transition_agreement_status app agreement.id agreement.status AgreementStatus.funded now
  pure tt)

unfoldable pub fund_milestone_of : ℕ → Escrow → ℕ → ℕ → Tx (Unit {0})
unfolding fund_milestone
fund_milestone_of app escrow now milestone = do
  row ← find_milestone_for_app app milestone
  when_some row (fund_milestone app escrow now)

-- `transitionFundingScope`
unfoldable pub transition_funding_scope : ℕ → Escrow → ℕ → Tx (Unit {0})
unfolding escrow_event fund_agreement fund_milestone_of
transition_funding_scope app escrow now = do
  escrow_event app "escrow.funded" escrow now
  agreement ← find_agreement_for_app app escrow.agreement_id
  when_some agreement (fund_agreement app now)
  when_some escrow.milestone_id (fund_milestone_of app escrow now)

abbrev is_ckb : Rail → Bool
is_ckb Rail.ckb = true
is_ckb _ = false

-- `enqueueCkbReconciliation`
unfoldable pub enqueue_ckb_reconciliation : Escrow → ℕ → ℕ → Tx (Unit {0})
enqueue_ckb_reconciliation escrow transaction now = when (is_ckb escrow.rail) (do
  enqueue_job (record {
    app_id = escrow.app_id;
    agreement_id = some escrow.agreement_id;
    kind = JobKind.ckb_reconcile_transaction;
    payload =
        some
          (record { agreement_id = none; delivery_id = none; transaction_id = some transaction });
    available_at = now;
    max_attempts = 100;
    dedupe_key = some (DedupeKey.ckb_reconcile transaction);
  })
  pure tt)
