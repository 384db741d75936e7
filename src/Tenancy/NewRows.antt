-- ===== src/Tenancy/NewRows.antt =====
-- A new agreement or milestone of an app leaves the rows of the other apps.
use pactagent.Prelude.{ℕ, ◌≡◌, refl, ◌∷◌}
use pactagent.Store.Rows.{Agreement, Milestone}
use pactagent.Store.Tx.{Db}
use pactagent.Tenancy.Isolation.{Isolates}
use pactagent.Tenancy.Writes.{cons-Within}

module _ (app : ℕ) where
  pub new_agreement-Isolates :
      (db : Db) (row : Agreement)
      → row.app_id ≡ app
      → Isolates app db (record db { agreements = row ∷ db.agreements })
  new_agreement-Isolates db row h = record {
    agreements = cons-Within (λ row. row.app_id) app row _ h;
    milestones = refl;
    escrows = refl;
    transactions = refl;
    disputes = refl;
    proofs = refl;
    reviews = refl;
    events = refl;
    webhook_endpoints = refl;
    webhook_deliveries = refl;
    audit_logs = refl;
    idempotency_keys = refl;
  }

  pub new_milestone-Isolates :
      (db : Db) (row : Milestone)
      → row.app_id ≡ app
      → Isolates app db (record db { milestones = row ∷ db.milestones })
  new_milestone-Isolates db row h = record {
    agreements = refl;
    milestones = cons-Within (λ row. row.app_id) app row _ h;
    escrows = refl;
    transactions = refl;
    disputes = refl;
    proofs = refl;
    reviews = refl;
    events = refl;
    webhook_endpoints = refl;
    webhook_deliveries = refl;
    audit_logs = refl;
    idempotency_keys = refl;
  }
