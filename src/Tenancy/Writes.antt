-- ===== src/Tenancy/Writes.antt =====
-- A change of one table that is made for an app leaves the rows of the other apps.
use pactagent.Prelude.{
  ℕ, Bool, ◌≡◌, refl, ◌∙◌, true, ◌==◌, nat_eq, arith, List, ◌∷◌, update_rows, delete_rows,
}
use pactagent.Repository.Raw.{Raw, Within}
use pactagent.Tenancy.Isolation.{
  isolation, others, others-cons, others-update_rows, others-delete_rows,
}

-- An update within the app, as `others` reads it.
pub update-Within :
    {A : Type 0} (owner : A → ℕ) (app : ℕ) (test : A → Bool) (change : A → A) (xs : List A)
    → Within owner app test change
    → others (λ row. owner row == app) (update_rows test change xs)
      ≡ others (λ row. owner row == app) xs
update-Within owner app test change xs h =
    others-update_rows (λ row. owner row == app) test change xs λ row t. ground (arith, h row t)

pub cons-Within :
    {A : Type 0} (owner : A → ℕ) (app : ℕ) (x : A) (xs : List A)
    → owner x ≡ app
    → others (λ row. owner row == app) (x ∷ xs) ≡ others (λ row. owner row == app) xs
cons-Within owner app x xs h = others-cons (λ row. owner row == app) x xs (ground arith)

pub delete-Within :
    {A : Type 0} (owner : A → ℕ) (app : ℕ) (test : A → Bool) (xs : List A)
    → ((row : A) → test row ≡ true → owner row ≡ app)
    → others (λ row. owner row == app) (delete_rows test xs) ≡ others (λ row. owner row == app) xs
delete-Within owner app test xs h =
    others-delete_rows (λ row. owner row == app) test xs λ row t. ground (arith, h row t)

module _ (app : ℕ) where
  pub isolation-Raw : Raw app (isolation app)
  isolation-Raw = record {
    next_id = λ db. record {
      agreements = refl;
      milestones = refl;
      escrows = refl;
      transactions = refl;
      disputes = refl;
      proofs = refl;
      reviews = refl;
      events = refl;
      webhook_endpoints = refl;
      webhook_deliveries = refl;
      audit_logs = refl;
      idempotency_keys = refl;
    };
    agreements = λ db test change h. record {
      agreements =
          update-Within (λ row. row.app_id) app test change _
            λ row t. ((h row t).0, (h row t).1.app_id ∙ (h row t).0);
      milestones = refl;
      escrows = refl;
      transactions = refl;
      disputes = refl;
      proofs = refl;
      reviews = refl;
      events = refl;
      webhook_endpoints = refl;
      webhook_deliveries = refl;
      audit_logs = refl;
      idempotency_keys = refl;
    };
    milestones = λ db test change h. record {
      agreements = refl;
      milestones =
          update-Within (λ row. row.app_id) app test change _
            λ row t. ((h row t).0, (h row t).1.app_id ∙ (h row t).0);
      escrows = refl;
      transactions = refl;
      disputes = refl;
      proofs = refl;
      reviews = refl;
      events = refl;
      webhook_endpoints = refl;
      webhook_deliveries = refl;
      audit_logs = refl;
      idempotency_keys = refl;
    };
    new_transaction = λ db row h. record {
      agreements = refl;
      milestones = refl;
      escrows = refl;
      transactions = cons-Within (λ row. row.app_id) app row _ h;
      disputes = refl;
      proofs = refl;
      reviews = refl;
      events = refl;
      webhook_endpoints = refl;
      webhook_deliveries = refl;
      audit_logs = refl;
      idempotency_keys = refl;
    };
    transactions = λ db test change h. record {
      agreements = refl;
      milestones = refl;
      escrows = refl;
      transactions = update-Within (λ row. row.app_id) app test change _ h;
      disputes = refl;
      proofs = refl;
      reviews = refl;
      events = refl;
      webhook_endpoints = refl;
      webhook_deliveries = refl;
      audit_logs = refl;
      idempotency_keys = refl;
    };
    new_event = λ db row h. record {
      agreements = refl;
      milestones = refl;
      escrows = refl;
      transactions = refl;
      disputes = refl;
      proofs = refl;
      reviews = refl;
      events = cons-Within (λ row. row.app_id) app row _ h;
      webhook_endpoints = refl;
      webhook_deliveries = refl;
      audit_logs = refl;
      idempotency_keys = refl;
    };
    new_delivery = λ db row h p. record {
      agreements = refl;
      milestones = refl;
      escrows = refl;
      transactions = refl;
      disputes = refl;
      proofs = refl;
      reviews = refl;
      events = refl;
      webhook_endpoints = refl;
      webhook_deliveries = cons-Within (λ row. row.app_id) app row _ h;
      audit_logs = refl;
      idempotency_keys = refl;
    };
    jobs = λ db rows. record {
      agreements = refl;
      milestones = refl;
      escrows = refl;
      transactions = refl;
      disputes = refl;
      proofs = refl;
      reviews = refl;
      events = refl;
      webhook_endpoints = refl;
      webhook_deliveries = refl;
      audit_logs = refl;
      idempotency_keys = refl;
    };
    new_audit_log = λ db row h. record {
      agreements = refl;
      milestones = refl;
      escrows = refl;
      transactions = refl;
      disputes = refl;
      proofs = refl;
      reviews = refl;
      events = refl;
      webhook_endpoints = refl;
      webhook_deliveries = refl;
      audit_logs = cons-Within (λ row. row.app_id) app row _ h;
      idempotency_keys = refl;
    };
    new_key = λ db row h. record {
      agreements = refl;
      milestones = refl;
      escrows = refl;
      transactions = refl;
      disputes = refl;
      proofs = refl;
      reviews = refl;
      events = refl;
      webhook_endpoints = refl;
      webhook_deliveries = refl;
      audit_logs = refl;
      idempotency_keys = cons-Within (λ row. row.app_id) app row _ h;
    };
    keys = λ db test change h. record {
      agreements = refl;
      milestones = refl;
      escrows = refl;
      transactions = refl;
      disputes = refl;
      proofs = refl;
      reviews = refl;
      events = refl;
      webhook_endpoints = refl;
      webhook_deliveries = refl;
      audit_logs = refl;
      idempotency_keys = update-Within (λ row. row.app_id) app test change _ h;
    };
    delete_keys = λ db test h. record {
      agreements = refl;
      milestones = refl;
      escrows = refl;
      transactions = refl;
      disputes = refl;
      proofs = refl;
      reviews = refl;
      events = refl;
      webhook_endpoints = refl;
      webhook_deliveries = refl;
      audit_logs = refl;
      idempotency_keys = delete-Within (λ row. row.app_id) app test _ h;
    };
  }
