-- ===== src/Tenancy/OwnRows.antt =====
-- A change of the escrows, the disputes, the proofs or the reviews of an app leaves the rows of the
-- other apps.
use pactagent.Prelude.{ℕ, Bool, ◌≡◌, refl, nat_eq, arith, ◌∷◌, update_rows}
use pactagent.Store.Rows.{Escrow, Dispute, Proof, Review}
use pactagent.Store.Tx.{Db}
use pactagent.Store.Respects.{Respects, Respects-modify}
use pactagent.Repository.Raw.{Within}
use pactagent.Repository.Idempotency.{Context}
use pactagent.Escrow.Creation.{ReservedCreation, discard_escrow_creation}
use pactagent.Tenancy.Isolation.{Isolates, isolation}
use pactagent.Tenancy.Writes.{update-Within, cons-Within, delete-Within}

module _ (app : ℕ) where
  -- The escrows.
  pub escrows-Isolates :
      (db : Db) (test : Escrow → Bool) (change : Escrow → Escrow)
      → Within (λ row. row.app_id) app test change
      → Isolates app db (record db { escrows = update_rows test change db.escrows })
  escrows-Isolates db test change h = record {
    agreements = refl;
    milestones = refl;
    escrows = update-Within (λ row. row.app_id) app test change _ h;
    transactions = refl;
    disputes = refl;
    proofs = refl;
    reviews = refl;
    events = refl;
    webhook_endpoints = refl;
    webhook_deliveries = refl;
    audit_logs = refl;
    idempotency_keys = refl;
  }

  pub new_escrow-Isolates :
      (db : Db) (row : Escrow)
      → row.app_id ≡ app
      → Isolates app db (record db { escrows = row ∷ db.escrows })
  new_escrow-Isolates db row h = record {
    agreements = refl;
    milestones = refl;
    escrows = cons-Within (λ row. row.app_id) app row _ h;
    transactions = refl;
    disputes = refl;
    proofs = refl;
    reviews = refl;
    events = refl;
    webhook_endpoints = refl;
    webhook_deliveries = refl;
    audit_logs = refl;
    idempotency_keys = refl;
  }

  -- And of the disputes.
  pub disputes-Isolates :
      (db : Db) (test : Dispute → Bool) (change : Dispute → Dispute)
      → Within (λ row. row.app_id) app test change
      → Isolates app db (record db { disputes = update_rows test change db.disputes })
  disputes-Isolates db test change h = record {
    agreements = refl;
    milestones = refl;
    escrows = refl;
    transactions = refl;
    disputes = update-Within (λ row. row.app_id) app test change _ h;
    proofs = refl;
    reviews = refl;
    events = refl;
    webhook_endpoints = refl;
    webhook_deliveries = refl;
    audit_logs = refl;
    idempotency_keys = refl;
  }

  pub new_dispute-Isolates :
      (db : Db) (row : Dispute)
      → row.app_id ≡ app
      → Isolates app db (record db { disputes = row ∷ db.disputes })
  new_dispute-Isolates db row h = record {
    agreements = refl;
    milestones = refl;
    escrows = refl;
    transactions = refl;
    disputes = cons-Within (λ row. row.app_id) app row _ h;
    proofs = refl;
    reviews = refl;
    events = refl;
    webhook_endpoints = refl;
    webhook_deliveries = refl;
    audit_logs = refl;
    idempotency_keys = refl;
  }

  pub proofs-Isolates :
      (db : Db) (test : Proof → Bool) (change : Proof → Proof)
      → Within (λ row. row.app_id) app test change
      → Isolates app db (record db { proofs = update_rows test change db.proofs })
  proofs-Isolates db test change h = record {
    agreements = refl;
    milestones = refl;
    escrows = refl;
    transactions = refl;
    disputes = refl;
    proofs = update-Within (λ row. row.app_id) app test change _ h;
    reviews = refl;
    events = refl;
    webhook_endpoints = refl;
    webhook_deliveries = refl;
    audit_logs = refl;
    idempotency_keys = refl;
  }

  pub new_proof-Isolates :
      (db : Db) (row : Proof)
      → row.app_id ≡ app
      → Isolates app db (record db { proofs = row ∷ db.proofs })
  new_proof-Isolates db row h = record {
    agreements = refl;
    milestones = refl;
    escrows = refl;
    transactions = refl;
    disputes = refl;
    proofs = cons-Within (λ row. row.app_id) app row _ h;
    reviews = refl;
    events = refl;
    webhook_endpoints = refl;
    webhook_deliveries = refl;
    audit_logs = refl;
    idempotency_keys = refl;
  }

  pub new_review-Isolates :
      (db : Db) (row : Review)
      → row.app_id ≡ app
      → Isolates app db (record db { reviews = row ∷ db.reviews })
  new_review-Isolates db row h = record {
    agreements = refl;
    milestones = refl;
    escrows = refl;
    transactions = refl;
    disputes = refl;
    proofs = refl;
    reviews = cons-Within (λ row. row.app_id) app row _ h;
    events = refl;
    webhook_endpoints = refl;
    webhook_deliveries = refl;
    audit_logs = refl;
    idempotency_keys = refl;
  }

  -- What the discarding of a reservation deletes.
  pub discard-Isolates :
      (reserved : ReservedCreation) (context : Context)
      → Respects (isolation app) (discard_escrow_creation app reserved context)
  unfolding discard_escrow_creation
  discard-Isolates reserved context = Respects-modify _ λ db. record {
    agreements = refl;
    milestones = refl;
    escrows = delete-Within (λ row. row.app_id) app _ _ λ row t. ground arith;
    transactions = delete-Within (λ row. row.app_id) app _ _ λ row t. ground arith;
    disputes = refl;
    proofs = refl;
    reviews = refl;
    events = refl;
    webhook_endpoints = refl;
    webhook_deliveries = refl;
    audit_logs = refl;
    idempotency_keys = delete-Within (λ row. row.app_id) app _ _ λ row t. ground arith;
  }
