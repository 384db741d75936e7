-- ===== src/Tenancy/Isolation.antt =====
-- The rows of the other apps, table by table, and the updates that leave them alone.
use pactagent.Prelude.{
  ℕ, ◌≡◌, refl, ◌∙◌, Bool, true, List, [], ◌∷◌, ◌==◌, nat_eq, arith, update_rows, delete_rows, All,
  if◌then◌else◌,
}
use pactagent.Store.Tx.{Db}
use pactagent.Store.Respects.{Keeping}

-- The rows that the test does not pick out.
pub others : {A : Type 0} → (A → Bool) → List A → List A
others own [] = []
others own (x ∷ xs) = if own x then others own xs else x ∷ others own xs

module _ {A : Type 0} (own : A → Bool) where
  -- A row of the app is added at the head.
  pub others-cons : (x : A) (xs : List A) → own x ≡ true → others own (x ∷ xs) ≡ others own xs
  unfolding others
  others-cons x xs h = ground arith

  pub others-update_rows :
      (test : A → Bool) (change : A → A) (xs : List A)
      → ((x : A) → test x ≡ true → (own x ≡ true) × (own (change x) ≡ true))
      → others own (update_rows test change xs) ≡ others own xs
  unfolding others update_rows
  others-update_rows test change [] h = refl
  others-update_rows test change (x ∷ xs) h =
      ground (arith, h x, others-update_rows test change xs h)

  -- The same where the rows of this table alone are known.
  pub others-update_each :
      (test : A → Bool) (change : A → A) (xs : List A)
      → All (λ x. test x ≡ true → (own x ≡ true) × (own (change x) ≡ true)) xs
      → others own (update_rows test change xs) ≡ others own xs
  unfolding others update_rows
  others-update_each test change [] h = refl
  others-update_each test change (x ∷ xs) h =
      ground (arith, h.0, others-update_each test change xs h.1)

  pub others-delete_rows :
      (test : A → Bool) (xs : List A)
      → ((x : A) → test x ≡ true → own x ≡ true)
      → others own (delete_rows test xs) ≡ others own xs
  unfolding others delete_rows
  others-delete_rows test [] h = refl
  others-delete_rows test (x ∷ xs) h = ground (arith, h x, others-delete_rows test xs h)

-- Every row of an app other than `app` is where it was, with what it held.
pub record Isolates (app : ℕ) (before after : Db) : Type 0 where
  pub agreements :
      others (λ row. row.app_id == app) after.agreements
      ≡ others (λ row. row.app_id == app) before.agreements
  pub milestones :
      others (λ row. row.app_id == app) after.milestones
      ≡ others (λ row. row.app_id == app) before.milestones
  pub escrows :
      others (λ row. row.app_id == app) after.escrows
      ≡ others (λ row. row.app_id == app) before.escrows
  pub transactions :
      others (λ row. row.app_id == app) after.transactions
      ≡ others (λ row. row.app_id == app) before.transactions
  pub disputes :
      others (λ row. row.app_id == app) after.disputes
      ≡ others (λ row. row.app_id == app) before.disputes
  pub proofs :
      others (λ row. row.app_id == app) after.proofs
      ≡ others (λ row. row.app_id == app) before.proofs
  pub reviews :
      others (λ row. row.app_id == app) after.reviews
      ≡ others (λ row. row.app_id == app) before.reviews
  pub events :
      others (λ row. row.app_id == app) after.events
      ≡ others (λ row. row.app_id == app) before.events
  pub webhook_endpoints : after.webhook_endpoints ≡ before.webhook_endpoints
  pub webhook_deliveries :
      others (λ row. row.app_id == app) after.webhook_deliveries
      ≡ others (λ row. row.app_id == app) before.webhook_deliveries
  pub audit_logs :
      others (λ row. row.app_id == app) after.audit_logs
      ≡ others (λ row. row.app_id == app) before.audit_logs
  pub idempotency_keys :
      others (λ row. row.app_id == app) after.idempotency_keys
      ≡ others (λ row. row.app_id == app) before.idempotency_keys

abbrev pub isolation : ℕ → Keeping
isolation app = record {
  rel = Isolates app;
  reflexive = λ db. record {
    agreements = refl;
    milestones = refl;
    escrows = refl;
    transactions = refl;
    disputes = refl;
    proofs = refl;
    reviews = refl;
    events = refl;
    webhook_endpoints = refl;
    webhook_deliveries = refl;
    audit_logs = refl;
    idempotency_keys = refl;
  };
  transitive = λ a b c h k. record {
    agreements = k.agreements ∙ h.agreements;
    milestones = k.milestones ∙ h.milestones;
    escrows = k.escrows ∙ h.escrows;
    transactions = k.transactions ∙ h.transactions;
    disputes = k.disputes ∙ h.disputes;
    proofs = k.proofs ∙ h.proofs;
    reviews = k.reviews ∙ h.reviews;
    events = k.events ∙ h.events;
    webhook_endpoints = k.webhook_endpoints ∙ h.webhook_endpoints;
    webhook_deliveries = k.webhook_deliveries ∙ h.webhook_deliveries;
    audit_logs = k.audit_logs ∙ h.audit_logs;
    idempotency_keys = k.idempotency_keys ∙ h.idempotency_keys;
  };
}
