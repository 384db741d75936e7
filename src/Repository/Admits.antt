-- ===== src/Repository/Admits.antt =====
-- The writes of the repositories, as a relation between the tables before and after may admit them.
-- What a service composes out of these writes then keeps the relation.
use pactagent.Prelude.{ℕ, ◌≡◌, true, ◌⊎◌}
use pactagent.Lifecycle.Agreement.{AgreementStatus, can_transition_agreement}
use pactagent.Lifecycle.Milestone.{MilestoneStatus, can_transition_milestone}
use pactagent.Lifecycle.Escrow.{EscrowStatus, can_transition_escrow}
use pactagent.Store.Rows.{Escrow, Transaction, AuditLog, Resource}
use pactagent.Store.Respects.{Keeping, Respects}
use pactagent.Repository.Agreements.{transition_agreement_status}
use pactagent.Repository.Milestones.{transition_milestone_status}
use pactagent.Repository.Escrows.{transition_escrow_status}
use pactagent.Repository.Transactions.{NewTransaction, create_transaction, update_transaction}
use pactagent.Repository.Events.{EventData, create_event, create_infrastructure_audit_log}
use pactagent.Repository.Jobs.{NewJob, enqueue_job}
use pactagent.Repository.Idempotency.{
  Env, Context, reserve_idempotent_request, store_idempotent_response,
}

-- The moves of an escrow's status that a relation admits.
abbrev pub Moves : Type 1
Moves = EscrowStatus → EscrowStatus → Type 0

abbrev pub any_move : Moves
any_move s t = Unit

-- One write to an escrow's row: the escrow stays what it is, and its status stays or moves as the
-- life cycle allows, by one of the moves.
pub record EscrowMoveBy (may : Moves) (before after : Escrow) : Type 0 where
  pub id : after.id ≡ before.id
  pub app_id : after.app_id ≡ before.app_id
  pub agreement_id : after.agreement_id ≡ before.agreement_id
  pub milestone_id : after.milestone_id ≡ before.milestone_id
  pub amount : after.amount ≡ before.amount
  pub currency : after.currency ≡ before.currency
  pub allowed :
      (after.status ≡ before.status) ⊎ (can_transition_escrow before.status after.status ≡ true)
  pub by : may before.status after.status

abbrev pub EscrowMove : Escrow → Escrow → Type 0
EscrowMove = EscrowMoveBy any_move

-- The relation admits each write that is made for the app.
pub record AdmitsBy (may : Moves) (app : ℕ) (k : Keeping) : Type 0 where
  pub agreement :
      (id : ℕ) (from to : AgreementStatus) (now : ℕ)
      → can_transition_agreement from to ≡ true
      → Respects k (transition_agreement_status app id from to now)
  pub milestone :
      (id : ℕ) (from to : MilestoneStatus)
      → can_transition_milestone from to ≡ true
      → Respects k (transition_milestone_status app id from to)
  pub escrow :
      (id : ℕ) (from : EscrowStatus) (change : Escrow → Escrow)
      → ((row : Escrow) → row.status ≡ from → EscrowMoveBy may row (change row))
      → Respects k (transition_escrow_status app id from change)
  pub transaction : (t : NewTransaction) → Respects k (create_transaction app t)
  pub transaction_update :
      (id : ℕ) (change : Transaction → Transaction)
      → ((row : Transaction) → (change row).app_id ≡ row.app_id)
      → Respects k (update_transaction app id change)
  pub event : (event : EventData) (now : ℕ) → Respects k (create_event app event now)
  pub audit : (row : AuditLog) → row.app_id ≡ app → Respects k (create_infrastructure_audit_log row)
  pub job : (job : NewJob) → Respects k (enqueue_job job)
  pub key :
      (env : Env) (context : Context) (now : ℕ)
      → Respects k (reserve_idempotent_request env app context now)
  pub response :
      (env : Env) (context : Context) (code now : ℕ) (body : Resource)
      → Respects k (store_idempotent_response env app context code now body)

abbrev pub Admits : ℕ → Keeping → Type 0
Admits app k = AdmitsBy any_move app k
