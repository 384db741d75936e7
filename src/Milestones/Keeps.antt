-- ===== src/Milestones/Keeps.antt =====
-- The creation of a milestone keeps every relation that admits its writes.
use pactagent.Prelude.{ℕ, ◌≡◌, refl}
use pactagent.Errors.{Result, ok, err, unique_violation}
use pactagent.Store.Rows.{Text, Milestone}
use pactagent.Store.Tx.{Db}
use pactagent.Store.Respects.{Keeping, Respects, Respects-reads, respects_rules, err≢ok}
use pactagent.Repository.Admits.{Admits}
use pactagent.Repository.Queries.{query_rules}
use pactagent.Repository.Milestones.{
  CreateMilestoneInput, create_milestone, lock_agreement_for_milestone_allocation,
  get_milestone_amount_sum_for_agreement, get_next_milestone_order,
}
use pactagent.Repository.Idempotency.{Context}
use pactagent.Idempotency.{Request}
use pactagent.Milestones.{
  milestone_conflict, create_milestone_or_conflict, audit_milestone_create, announce_milestone,
  open_milestone,
}

pub created_milestone :
    {r : Result (Milestone × Db)} {row : Milestone} {db : Db}
    → milestone_conflict r ≡ ok (row, db)
    → r ≡ ok (row, db)
created_milestone {r = ok x} h = h
created_milestone {r = err unique_violation} h = absurd (err≢ok h)
created_milestone {r = err e} h = h

module _ {k : Keeping} where
  pub Respects-lock : (app id : ℕ) → Respects k (lock_agreement_for_milestone_allocation app id)
  unfolding lock_agreement_for_milestone_allocation
  Respects-lock app id = Respects-reads _

  pub Respects-amounts : (app id : ℕ) → Respects k (get_milestone_amount_sum_for_agreement app id)
  unfolding get_milestone_amount_sum_for_agreement
  Respects-amounts app id = Respects-reads _

  pub Respects-order : (app id : ℕ) → Respects k (get_next_milestone_order app id)
  unfolding get_next_milestone_order
  Respects-order app id = Respects-reads _

module _ {app : ℕ} {k : Keeping} (w : Admits app k) where
  pub Respects-announce_milestone :
      (req : Request) (agreement milestone : ℕ)
      → Respects k (announce_milestone app req agreement milestone)
  unfolding announce_milestone
  Respects-announce_milestone req agreement milestone = w.event _ req.now

  pub Respects-audit_milestone :
      (req : Request) (agreement milestone : ℕ)
      → Respects k (audit_milestone_create app req agreement milestone)
  unfolding audit_milestone_create
  Respects-audit_milestone req agreement milestone = w.audit _ refl

  module _
      (create : (agreement : ℕ) (input : CreateMilestoneInput) (order : ℕ) (currency : Text)
        → Respects k (create_milestone app agreement input order currency)) where
    Respects-create_or_conflict :
        (agreement : ℕ) (input : CreateMilestoneInput) (order : ℕ) (currency : Text)
        → Respects k (create_milestone_or_conflict app agreement input order currency)
    unfolding create_milestone_or_conflict
    Respects-create_or_conflict agreement input order currency = record {
      at = λ db row db' e.
          (create agreement input order currency).at db row db' (created_milestone e);
    }

    pub Respects-open_milestone :
        (req : Request) (id : ℕ) (input : CreateMilestoneInput) (context : Context)
        → Respects k (open_milestone app req id input context)
    unfolding open_milestone
    Respects-open_milestone req id input context =
        search
          (
            respects_rules, query_rules, Respects-lock, Respects-amounts, Respects-order,
            Respects-create_or_conflict, Respects-announce_milestone, Respects-audit_milestone,
          )
          depth 40
