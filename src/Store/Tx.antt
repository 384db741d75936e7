-- ===== src/Store/Tx.antt =====
-- The tables, and a database transaction: `prisma.$transaction(async (tx) => …)`. What throws
-- inside leaves no trace, so an error carries no tables. Tables list the newest row first.
use pactagent.Prelude.{ℕ, suc, Bool, true, false, Option, none, some, List}
use pactagent.Errors.{Error, Result, ok, err}
use pactagent.Store.Rows.{
  Agreement, Milestone, Escrow, Transaction, Dispute, Proof, Review, Event, WebhookEndpoint,
  WebhookDelivery, AgentJob, AuditLog, IdempotencyKey,
}

pub record Db : Type 0 where
  pub agreements : List Agreement
  pub milestones : List Milestone
  pub escrows : List Escrow
  pub transactions : List Transaction
  pub disputes : List Dispute
  pub proofs : List Proof
  pub reviews : List Review
  pub events : List Event
  pub webhook_endpoints : List WebhookEndpoint
  pub webhook_deliveries : List WebhookDelivery
  pub jobs : List AgentJob
  pub audit_logs : List AuditLog
  pub idempotency_keys : List IdempotencyKey
  -- `@default(uuid())`: an id that no row has.
  pub next_id : ℕ

abbrev pub Tx : Type 0 → Type 0
Tx A = Db → Result (A × Db)

module _ {A : Type 0} where
  unfoldable pub pure : A → Tx A
  pure a db = ok (a, db)

  unfoldable pub fail : Error → Tx A
  fail e db = err e

  -- A check that reads no table.
  unfoldable pub lift : Result A → Tx A
  lift (ok a) db = ok (a, db)
  lift (err e) db = err e

  unfoldable pub reads : (Db → A) → Tx A
  reads f db = ok (f db, db)

  -- `if (!row) throw e;`
  unfoldable pub or_fail : Option A → Error → Tx A
  or_fail none e = fail e
  or_fail (some a) e = pure a

unfoldable pub modify : (Db → Db) → Tx (Unit {0})
modify f db = ok (tt, f db)

-- A fresh id.
unfoldable pub new_id : Tx ℕ
new_id db = ok (db.next_id, record db { next_id = suc db.next_id })

module _ {A B : Type 0} where
  abbrev pub continue : Result (A × Db) → (A → Tx B) → Result (B × Db)
  continue (ok (a, db)) f = f a db
  continue (err e) f = err e

  infixl 5 ◌>>=◌ ◌>>◌
  unfoldable pub ◌>>=◌ : Tx A → (A → Tx B) → Tx B
  unfolding pure fail lift reads modify new_id or_fail
  ◌>>=◌ m f db = continue (m db) f

  abbrev pub ◌>>◌ : Tx A → Tx B → Tx B
  m >> k = m >>= λ _. k

unfoldable pub when : Bool → Tx (Unit {0}) → Tx (Unit {0})
when true m = m
when false m = pure tt

-- `if (row) { … }`
unfoldable pub when_some : {A : Type 0} → Option A → (A → Tx (Unit {0})) → Tx (Unit {0})
when_some none f = pure tt
when_some (some a) f = f a
