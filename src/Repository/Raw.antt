-- ===== src/Repository/Raw.antt =====
-- The changes of single tables that the repositories make for an app, escrows aside.
use pactagent.Prelude.{ℕ, suc, Bool, ◌≡◌, true, List, ◌∷◌, update_rows, delete_rows}
use pactagent.Store.Rows.{
  Agreement, Milestone, Transaction, Event, WebhookDelivery, DeliveryStatus, AgentJob, AuditLog,
  IdempotencyKey,
}
use pactagent.Store.Tx.{Db}
use pactagent.Store.Respects.{Keeping}

-- The rows that an update may change: the app's own, which stay the app's.
abbrev pub Within : {A : Type 0} → (A → ℕ) → ℕ → (A → Bool) → (A → A) → Type 0
Within owner app test change =
    (row : _) → test row ≡ true → (owner row ≡ app) × (owner (change row) ≡ app)

-- What a move of an agreement leaves as it is, and a move of a milestone.
pub record SameTerms (before after : Agreement) : Type 0 where
  pub id : after.id ≡ before.id
  pub app_id : after.app_id ≡ before.app_id
  pub amount : after.amount ≡ before.amount

pub record SameShare (before after : Milestone) : Type 0 where
  pub app_id : after.app_id ≡ before.app_id
  pub agreement_id : after.agreement_id ≡ before.agreement_id
  pub amount : after.amount ≡ before.amount

-- The relation admits each change of a table that is made for the app.
pub record Raw (app : ℕ) (k : Keeping) : Type 1 where
  pub next_id : (db : Db) → k.rel db (record db { next_id = suc db.next_id })
  pub agreements :
      (db : Db) (test : Agreement → Bool) (change : Agreement → Agreement)
      → ((row : Agreement) → test row ≡ true → (row.app_id ≡ app) × SameTerms row (change row))
      → k.rel db (record db { agreements = update_rows test change db.agreements })
  pub milestones :
      (db : Db) (test : Milestone → Bool) (change : Milestone → Milestone)
      → ((row : Milestone) → test row ≡ true → (row.app_id ≡ app) × SameShare row (change row))
      → k.rel db (record db { milestones = update_rows test change db.milestones })
  pub new_transaction :
      (db : Db) (row : Transaction)
      → row.app_id ≡ app
      → k.rel db (record db { transactions = row ∷ db.transactions })
  pub transactions :
      (db : Db) (test : Transaction → Bool) (change : Transaction → Transaction)
      → Within (λ row. row.app_id) app test change
      → k.rel db (record db { transactions = update_rows test change db.transactions })
  pub new_event :
      (db : Db) (row : Event) → row.app_id ≡ app → k.rel db (record db { events = row ∷ db.events })
  pub new_delivery :
      (db : Db) (row : WebhookDelivery)
      → row.app_id ≡ app
      → row.status ≡ DeliveryStatus.pending
      → k.rel db (record db { webhook_deliveries = row ∷ db.webhook_deliveries })
  pub jobs : (db : Db) (rows : List AgentJob) → k.rel db (record db { jobs = rows })
  pub new_audit_log :
      (db : Db) (row : AuditLog)
      → row.app_id ≡ app
      → k.rel db (record db { audit_logs = row ∷ db.audit_logs })
  pub new_key :
      (db : Db) (row : IdempotencyKey)
      → row.app_id ≡ app
      → k.rel db (record db { idempotency_keys = row ∷ db.idempotency_keys })
  pub keys :
      (db : Db) (test : IdempotencyKey → Bool) (change : IdempotencyKey → IdempotencyKey)
      → Within (λ row. row.app_id) app test change
      → k.rel db (record db { idempotency_keys = update_rows test change db.idempotency_keys })
  pub delete_keys :
      (db : Db) (test : IdempotencyKey → Bool)
      → ((row : IdempotencyKey) → test row ≡ true → row.app_id ≡ app)
      → k.rel db (record db { idempotency_keys = delete_rows test db.idempotency_keys })
