-- ===== src/Repository/Milestones.antt =====
-- server/src/modules/milestones/milestone.repository.ts.
use pactagent.Prelude.{
  ℕ, Bool, false, ◌&&◌, ◌||◌, Option, none, some, is_some, List, [], ◌∷◌, nat_eq, option_eq, ◌==◌,
  ltb, if◌then◌else◌, find_first, update_rows, count_rows,
}
use pactagent.Errors.{internal, reject_if, unique_violation}
use pactagent.Lifecycle.Milestone.{MilestoneStatus, milestone_eq}
use pactagent.Store.Rows.{Text, Milestone}
use pactagent.Store.Tx.{Tx, pure, lift, reads, modify, new_id, or_fail, ◌>>=◌, ◌>>◌}
use pactagent.Repository.Agreements.{is_agreement, assert_lifecycle_compare_and_swap}

abbrev pub is_milestone : ℕ → ℕ → Milestone → Bool
is_milestone app id row = row.id == id && row.app_id == app

unfoldable pub find_milestone_for_app : ℕ → ℕ → Tx (Option Milestone)
find_milestone_for_app app id = reads (λ db. find_first (is_milestone app id) db.milestones)

abbrev pub is_milestone_in : ℕ → ℕ → MilestoneStatus → Milestone → Bool
is_milestone_in app id status row = is_milestone app id row && row.status == status

unfoldable pub transition_milestone_status :
    ℕ → ℕ → MilestoneStatus → MilestoneStatus → Tx Milestone
unfolding assert_lifecycle_compare_and_swap find_milestone_for_app
transition_milestone_status app id expected next = do
  count ← reads (λ db. count_rows (is_milestone_in app id expected) db.milestones)
  modify (λ db. record db {
    milestones =
        update_rows (is_milestone_in app id expected) (λ row. record row { status = next })
          db.milestones;
  })
  assert_lifecycle_compare_and_swap count
  row ← find_milestone_for_app app id
  or_fail row (internal "P2025")

-- What `createMilestone` reads of its input; the title, the description and the due date are left
-- out.
pub record CreateMilestoneInput : Type 0 where
  pub external_reference_id : Option ℕ
  pub amount : Text
  pub currency : Option Text
  pub order : Option ℕ

abbrev pub new_milestone : ℕ → ℕ → CreateMilestoneInput → ℕ → Text → ℕ → Milestone
new_milestone app agreement input order currency id = record {
  id = id;
  app_id = app;
  agreement_id = agreement;
  external_reference_id = input.external_reference_id;
  amount = input.amount;
  currency = currency;
  sort_order = order;
  status = MilestoneStatus.pending;
}

-- `@@unique([appId, externalReferenceId])`
abbrev has_milestone_reference : ℕ → Option ℕ → Milestone → Bool
has_milestone_reference app none row = false
has_milestone_reference app (some reference) row =
    row.app_id == app && row.external_reference_id == some reference

-- And `@@unique([agreementId, sortOrder])`.
abbrev pub clashes_with_milestone : ℕ → ℕ → CreateMilestoneInput → ℕ → Milestone → Bool
clashes_with_milestone app agreement input order row =
    has_milestone_reference app input.external_reference_id row
    || row.agreement_id == agreement && row.sort_order == order

-- `milestone.create`
unfoldable pub create_milestone : ℕ → ℕ → CreateMilestoneInput → ℕ → Text → Tx Milestone
create_milestone app agreement input order currency = do
  taken ←
      reads (λ db.
        is_some (find_first (clashes_with_milestone app agreement input order) db.milestones))
  lift (reject_if taken unique_violation)
  id ← new_id
  modify (λ db. record db {
    milestones = new_milestone app agreement input order currency id ∷ db.milestones;
  })
  pure (new_milestone app agreement input order currency id)

-- `lockAgreementForMilestoneAllocation`: the row is there. A transaction runs alone here, so the
-- lock has nothing to wait for.
unfoldable pub lock_agreement_for_milestone_allocation : ℕ → ℕ → Tx Bool
lock_agreement_for_milestone_allocation app id =
    reads (λ db. count_rows (is_agreement app id) db.agreements == 1)

abbrev pub is_milestone_of : ℕ → ℕ → Milestone → Bool
is_milestone_of app agreement row = row.agreement_id == agreement && row.app_id == app

abbrev pub amounts_of : ℕ → ℕ → List Milestone → List Text
amounts_of app agreement [] = []
amounts_of app agreement (row ∷ rows) =
    let rest = amounts_of app agreement rows in
    if is_milestone_of app agreement row then row.amount ∷ rest else rest

-- `getMilestoneAmountSumForAgreement`: the amounts, which the service adds up.
unfoldable pub get_milestone_amount_sum_for_agreement : ℕ → ℕ → Tx (List Text)
get_milestone_amount_sum_for_agreement app agreement =
    reads (λ db. amounts_of app agreement db.milestones)

abbrev later : ℕ → Option ℕ → Option ℕ
later order none = some order
later order (some best) = if ltb best order then some order else some best

abbrev pub last_order : ℕ → ℕ → List Milestone → Option ℕ
last_order app agreement [] = none
last_order app agreement (row ∷ rows) =
    let rest = last_order app agreement rows in
    if is_milestone_of app agreement row then later row.sort_order rest else rest

-- `getNextMilestoneOrder`: the highest order of the agreement's milestones, when it has any.
unfoldable pub get_next_milestone_order : ℕ → ℕ → Tx (Option ℕ)
get_next_milestone_order app agreement = reads (λ db. last_order app agreement db.milestones)
