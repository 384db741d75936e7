-- ===== src/Repository/Queries.antt =====
-- A query leaves every table as it is, so it keeps any relation.
use pactagent.Prelude.{ℕ, Option}
use pactagent.Store.Rows.{TransactionType}
use pactagent.Store.Respects.{Keeping, Respects, Respects-reads, Respects-lift}
use pactagent.Repository.Agreements.{find_agreement_for_app, assert_lifecycle_compare_and_swap}
use pactagent.Repository.Milestones.{find_milestone_for_app}
use pactagent.Repository.Escrows.{
  find_escrow_for_app, list_escrows_for_agreement, find_transaction_for_escrow_type,
}
use pactagent.Repository.Disputes.{find_resolved_release_dispute_for_escrow_scope}

module _ {k : Keeping} where
  pub Respects-cas : (rows : ℕ) → Respects k (assert_lifecycle_compare_and_swap rows)
  unfolding assert_lifecycle_compare_and_swap
  Respects-cas rows = Respects-lift _

  pub Respects-find_agreement : (app id : ℕ) → Respects k (find_agreement_for_app app id)
  unfolding find_agreement_for_app
  Respects-find_agreement app id = Respects-reads _

  pub Respects-find_milestone : (app id : ℕ) → Respects k (find_milestone_for_app app id)
  unfolding find_milestone_for_app
  Respects-find_milestone app id = Respects-reads _

  pub Respects-find_escrow : (app id : ℕ) → Respects k (find_escrow_for_app app id)
  unfolding find_escrow_for_app
  Respects-find_escrow app id = Respects-reads _

  pub Respects-list_escrows : (app id : ℕ) → Respects k (list_escrows_for_agreement app id)
  unfolding list_escrows_for_agreement
  Respects-list_escrows app id = Respects-reads _

  pub Respects-find_transaction :
      (app id : ℕ) (type : TransactionType)
      → Respects k (find_transaction_for_escrow_type app id type)
  unfolding find_transaction_for_escrow_type
  Respects-find_transaction app id type = Respects-reads _

  pub Respects-find_dispute :
      (app agreement : ℕ) (milestone : Option ℕ)
      → Respects k (find_resolved_release_dispute_for_escrow_scope app agreement milestone)
  unfolding find_resolved_release_dispute_for_escrow_scope
  Respects-find_dispute app agreement milestone = Respects-reads _

pub ruleset query_rules = (
  Respects-cas, Respects-find_agreement, Respects-find_milestone, Respects-find_escrow,
  Respects-list_escrows, Respects-find_transaction, Respects-find_dispute,
)
