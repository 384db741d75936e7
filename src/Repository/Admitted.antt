-- ===== src/Repository/Admitted.antt =====
-- A relation that admits the changes of single tables, and each allowed move of an escrow, admits
-- every write.
use pactagent.Prelude.{ℕ, ◌≡◌, true, arith}
use pactagent.Lifecycle.Escrow.{EscrowStatus, escrow_beq_iff}
use pactagent.Store.Rows.{Escrow}
use pactagent.Store.Respects.{Keeping, Respects}
use pactagent.Repository.Admits.{Moves, AdmitsBy, EscrowMoveBy}
use pactagent.Repository.Raw.{Raw}
use pactagent.Repository.Escrows.{transition_escrow_status, is_escrow_in}
use pactagent.Repository.Writes.{
  Respects-agreement, Respects-milestone, Respects-transaction, Respects-update_transaction,
  Respects-event, Respects-audit_log, Respects-enqueue_job, Respects-key, Respects-response,
}

pub admitted :
    {may : Moves} {app : ℕ} {k : Keeping}
    → Raw app k
    → ((id : ℕ) (from : EscrowStatus) (change : Escrow → Escrow)
        → ((row : Escrow) → row.status ≡ from → EscrowMoveBy may row (change row))
        → Respects k (transition_escrow_status app id from change))
    → AdmitsBy may app k
admitted raw escrow = record {
  agreement = λ id from to now h. Respects-agreement raw id from to now;
  milestone = λ id from to h. Respects-milestone raw id from to;
  escrow = escrow;
  transaction = Respects-transaction raw;
  transaction_update = Respects-update_transaction raw;
  event = Respects-event raw;
  audit = Respects-audit_log raw;
  job = Respects-enqueue_job raw;
  key = Respects-key raw;
  response = Respects-response raw;
}

-- The row that a guarded update picks is the app's own, in the expected status.
pub picked :
    (app id : ℕ) (from : EscrowStatus) (row : Escrow)
    → is_escrow_in app id from row ≡ true
    → (row.app_id ≡ app) × (row.status ≡ from)
picked app id from row h = ground (arith, escrow_beq_iff row.status from)
