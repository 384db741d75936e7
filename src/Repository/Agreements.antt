-- ===== src/Repository/Agreements.antt =====
-- server/src/modules/agreements/agreement.repository.ts and
-- server/src/common/lifecycle/compare-and-swap.ts.
use pactagent.Prelude.{
  ℕ, Bool, false, ◌&&◌, Option, none, some, is_some, ◌∷◌, nat_eq, option_eq, ◌==◌, find_first,
  update_rows, count_rows,
}
use pactagent.Errors.{conflict, internal, require, reject_if, unique_violation}
use pactagent.Lifecycle.Agreement.{AgreementStatus, agreement_eq}
use pactagent.Store.Rows.{Text, Agreement, SettlementStatus}
use pactagent.Store.Tx.{Tx, pure, lift, reads, modify, new_id, or_fail, ◌>>=◌, ◌>>◌}

-- `assertLifecycleCompareAndSwap`: the guarded update must have hit exactly one row.
unfoldable pub assert_lifecycle_compare_and_swap : ℕ → Tx (Unit {0})
assert_lifecycle_compare_and_swap affected_rows =
    lift (require (affected_rows == 1) (conflict "lifecycle_conflict"))

abbrev pub is_agreement : ℕ → ℕ → Agreement → Bool
is_agreement app id row = row.id == id && row.app_id == app

unfoldable pub find_agreement_for_app : ℕ → ℕ → Tx (Option Agreement)
find_agreement_for_app app id = reads (λ db. find_first (is_agreement app id) db.agreements)

-- The columns that a move to the status sets beside it.
abbrev settlement_on : AgreementStatus → SettlementStatus → SettlementStatus
settlement_on AgreementStatus.funding_required old = SettlementStatus.funding_pending
settlement_on AgreementStatus.funded old = SettlementStatus.funded
settlement_on AgreementStatus.released old = SettlementStatus.payout_confirmed
settlement_on AgreementStatus.refunded old = SettlementStatus.refund_confirmed
settlement_on _ old = old

abbrev funding_confirmed_on : AgreementStatus → ℕ → Option ℕ → Option ℕ
funding_confirmed_on AgreementStatus.funded now old = some now
funding_confirmed_on _ now old = old

abbrev pub moved_agreement : AgreementStatus → ℕ → Agreement → Agreement
moved_agreement next now row = record row {
  status = next;
  settlement_status = settlement_on next row.settlement_status;
  funding_confirmed_at = funding_confirmed_on next now row.funding_confirmed_at;
}

abbrev pub is_agreement_in : ℕ → ℕ → AgreementStatus → Agreement → Bool
is_agreement_in app id status row = is_agreement app id row && row.status == status

-- `updateMany` under the expected status, the check of the count, and the read of the row.
unfoldable pub transition_agreement_status :
    ℕ → ℕ → AgreementStatus → AgreementStatus → ℕ → Tx Agreement
unfolding assert_lifecycle_compare_and_swap find_agreement_for_app
transition_agreement_status app id expected next now = do
  count ← reads (λ db. count_rows (is_agreement_in app id expected) db.agreements)
  modify (λ db. record db {
    agreements =
        update_rows (is_agreement_in app id expected) (moved_agreement next now) db.agreements;
  })
  assert_lifecycle_compare_and_swap count
  row ← find_agreement_for_app app id
  or_fail row (internal "P2025")

-- What `createAgreement` reads of its input. The texts that are only stored and shown (the title,
-- the description, the parties, the modes, the source and the metadata) are left out.
pub record CreateAgreementInput : Type 0 where
  pub external_reference_id : Option ℕ
  pub total_amount : Text
  pub currency : Text

abbrev pub new_agreement : ℕ → CreateAgreementInput → ℕ → Agreement
new_agreement app input id = record {
  id = id;
  app_id = app;
  external_reference_id = input.external_reference_id;
  amount = input.total_amount;
  currency = input.currency;
  status = AgreementStatus.draft;
  settlement_status = SettlementStatus.unfunded;
  funding_confirmed_at = none;
}

-- `@@unique([appId, externalReferenceId])`: rows without a reference do not clash.
abbrev pub has_agreement_reference : ℕ → Option ℕ → Agreement → Bool
has_agreement_reference app none row = false
has_agreement_reference app (some reference) row =
    row.app_id == app && row.external_reference_id == some reference

-- `agreement.create`
unfoldable pub create_agreement : ℕ → CreateAgreementInput → Tx Agreement
create_agreement app input = do
  taken ← reads (λ db.
      is_some (find_first (has_agreement_reference app input.external_reference_id) db.agreements))
  lift (reject_if taken unique_violation)
  id ← new_id
  modify (λ db. record db { agreements = new_agreement app input id ∷ db.agreements })
  pure (new_agreement app input id)
