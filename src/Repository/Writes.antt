-- ===== src/Repository/Writes.antt =====
-- A repository's write keeps a relation that admits the changes of single tables.
use pactagent.Prelude.{ℕ, ◌≡◌, refl, nat_eq, arith, Option, none, some, List, [], ◌∷◌}
use pactagent.Errors.{Result, ok, err, unique_violation}
use pactagent.Lifecycle.Agreement.{AgreementStatus, agreement_eq}
use pactagent.Lifecycle.Milestone.{MilestoneStatus, milestone_eq}
use pactagent.Store.Rows.{
  Transaction, Event, WebhookEndpoint, AgentJob, AuditLog, Resource, text_eq,
}
use pactagent.Store.Tx.{Db, Tx, new_id}
use pactagent.Store.Respects.{
  err≢ok, Keeping, Respects, Respects-modify, Respects-bind, Respects-pure, Respects-reads,
  Respects-step, Respects-lift, respects_rules, Respects-fail, Respects-if,
}
use pactagent.Repository.Raw.{Raw}
use pactagent.Repository.Queries.{query_rules}
use pactagent.Repository.Agreements.{transition_agreement_status}
use pactagent.Repository.Milestones.{transition_milestone_status}
use pactagent.Repository.Transactions.{NewTransaction, create_transaction, update_transaction}
use pactagent.Repository.Events.{
  EventData, event_row, create_delivery, create_deliveries, create_webhook_deliveries_for_event,
  create_event, create_infrastructure_audit_log,
}
use pactagent.Repository.Jobs.{NewJob, create_job, enqueue_job, return_or_create, recover, caught}
use pactagent.Repository.Idempotency.{
  Env, Context, reserve_idempotent_request, store_idempotent_response,
}

caught_at :
    {A : Type 0} {k : Keeping} (db : Db) (r : Result (A × Db)) (handler : Tx A)
    → ((a : A) (db' : Db) → r ≡ ok (a, db') → k.rel db db')
    → Respects k handler
    → (b : A) (db' : Db) → caught r handler db ≡ ok (b, db')
    → k.rel db db'
caught_at db (ok (a, d)) handler hr hh b db' e = hr b db' e
caught_at db (err unique_violation) handler hr hh b db' e = hh.at db b db' e
caught_at db (err e') handler hr hh b db' e = absurd (err≢ok e)

module _ {app : ℕ} {k : Keeping} (raw : Raw app k) where
  pub Respects-new_id : Respects k new_id
  unfolding new_id
  Respects-new_id = Respects-step _ _ raw.next_id

  pub Respects-agreement :
      (id : ℕ) (from to : AgreementStatus) (now : ℕ)
      → Respects k (transition_agreement_status app id from to now)
  unfolding transition_agreement_status
  Respects-agreement id from to now = Respects-bind _ _ (Respects-reads _) λ count.
      Respects-bind _ _
        (Respects-modify _ λ db.
          raw.agreements db _ _
            λ row h. (ground arith, record { id = refl; app_id = refl; amount = refl }))
        λ _. search (respects_rules, query_rules) depth 10

  pub Respects-milestone :
      (id : ℕ) (from to : MilestoneStatus) → Respects k (transition_milestone_status app id from to)
  unfolding transition_milestone_status
  Respects-milestone id from to = Respects-bind _ _ (Respects-reads _) λ count.
      Respects-bind _ _
        (Respects-modify _ λ db.
          raw.milestones db _ _
            λ row h. (ground arith, record { app_id = refl; agreement_id = refl; amount = refl }))
        λ _. search (respects_rules, query_rules) depth 10

  pub Respects-transaction : (t : NewTransaction) → Respects k (create_transaction app t)
  unfolding create_transaction
  Respects-transaction t = Respects-bind _ _ (Respects-reads _) λ taken.
      Respects-bind _ _ (Respects-lift _) λ _. Respects-bind _ _ Respects-new_id λ id.
        Respects-bind _ _ (Respects-modify _ λ db. raw.new_transaction db _ refl)
          λ _. Respects-pure _

  pub Respects-update_transaction :
      (id : ℕ) (change : Transaction → Transaction)
      → ((row : Transaction) → (change row).app_id ≡ row.app_id)
      → Respects k (update_transaction app id change)
  unfolding update_transaction
  Respects-update_transaction id change same =
      Respects-modify _ λ db. raw.transactions db _ _ λ row h. ground (arith, same row)

  pub Respects-create_job : (job : NewJob) → Respects k (create_job job)
  unfolding create_job
  Respects-create_job job = Respects-bind _ _ (Respects-reads _) λ taken.
      Respects-bind _ _ (Respects-lift _) λ _.
        Respects-bind _ _ Respects-new_id
          λ id. Respects-bind _ _ (Respects-modify _ λ db. raw.jobs db _) λ _. Respects-pure _

  Respects-return_or_create :
      (job : NewJob) (o : Option AgentJob) → Respects k (return_or_create job o)
  Respects-return_or_create job none = Respects-create_job job
  Respects-return_or_create job (some existing) = Respects-pure existing

  Respects-recover : (job : NewJob) (o : Option AgentJob) → Respects k (recover job o)
  Respects-recover job none = Respects-fail unique_violation
  Respects-recover job (some existing) =
      Respects-if _ _ _ (Respects-pure existing)
        (Respects-bind _ _ (Respects-modify _ λ db. raw.jobs db _) λ _. Respects-create_job job)

  pub Respects-enqueue_job : (job : NewJob) → Respects k (enqueue_job job)
  unfolding enqueue_job
  Respects-enqueue_job job = record {
    at = λ db a db' e.
        caught_at db _ (recover job _) (λ b d h. (Respects-return_or_create job _).at db b d h)
          (Respects-recover job _) a db' e;
  }

  Respects-delivery :
      (event : Event) (now : ℕ) (endpoint : WebhookEndpoint)
      → event.app_id ≡ app
      → Respects k (create_delivery event now endpoint)
  unfolding create_delivery
  Respects-delivery event now endpoint own = Respects-bind _ _ Respects-new_id λ id.
      Respects-bind _ _ (Respects-modify _ λ db. raw.new_delivery db _ own refl)
        λ _. Respects-bind _ _ (Respects-create_job _) λ _. Respects-pure tt

  Respects-deliveries :
      (event : Event) (now : ℕ) (rows : List WebhookEndpoint)
      → event.app_id ≡ app
      → Respects k (create_deliveries event now rows)
  unfolding create_deliveries
  Respects-deliveries event now [] own = Respects-pure tt
  Respects-deliveries event now (x ∷ xs) own =
      Respects-bind _ _ (Respects-delivery event now x own)
        λ _. Respects-deliveries event now xs own

  pub Respects-event : (event : EventData) (now : ℕ) → Respects k (create_event app event now)
  unfolding create_event create_webhook_deliveries_for_event
  Respects-event event now = Respects-bind _ _ Respects-new_id λ id.
      Respects-bind _ _ (Respects-modify _ λ db. raw.new_event db _ refl) λ _.
        Respects-bind _ _ (Respects-reads _)
          λ endpoints. Respects-deliveries (event_row app event id) now endpoints refl

  pub Respects-audit_log :
      (row : AuditLog) → row.app_id ≡ app → Respects k (create_infrastructure_audit_log row)
  unfolding create_infrastructure_audit_log
  Respects-audit_log row own = Respects-modify _ λ db. raw.new_audit_log db row own

  pub Respects-key :
      (env : Env) (context : Context) (now : ℕ)
      → Respects k (reserve_idempotent_request env app context now)
  unfolding reserve_idempotent_request
  Respects-key env context now = Respects-bind _ _ (Respects-reads _) λ taken.
      Respects-bind _ _ (Respects-lift _) λ _. Respects-modify _ λ db. raw.new_key db _ refl

  pub Respects-response :
      (env : Env) (context : Context) (code now : ℕ) (body : Resource)
      → Respects k (store_idempotent_response env app context code now body)
  unfolding store_idempotent_response
  Respects-response env context code now body = Respects-bind _ _ (Respects-lift _) λ _.
      Respects-bind _ _ (Respects-reads _) λ present.
        Respects-bind _ _ (Respects-lift _)
          λ _. Respects-modify _ λ db. raw.keys db _ _ λ row h. ground arith
