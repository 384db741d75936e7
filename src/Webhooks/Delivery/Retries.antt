-- ===== src/Webhooks/Delivery/Retries.antt =====
-- How often a delivery is tried.
use pactagent.Prelude.{
  ℕ, ◌≤◌, ◌≡◌, Bool, true, nat_eq, arith, List, [], ◌∷◌, All, Bool-cases, inl, inr, update_rows,
  String,
}
use pactagent.Errors.{Error, Result}
use pactagent.Store.Rows.{Text, WebhookDelivery, WebhookEndpoint, DeliveryStatus}
use pactagent.Store.Tx.{Db}
use pactagent.Store.Respects.{
  Keeping, Respects-bind, Respects-reads, Respects-modify, Respects-pure, respects_rules,
}
use pactagent.Repository.Raw.{Raw}
use pactagent.Repository.Admits.{Admits}
use pactagent.Repository.Admitted.{admitted}
use pactagent.Repository.Escrows.{transition_escrow_status}
use pactagent.Idempotency.{Request}
use pactagent.Webhooks.Delivery.{
  Attempt, is_delivery_as_read, update_webhook_delivery_result, mark_webhook_delivery_for_retry,
  deliver_webhook_delivery, retry_webhook_delivery_for_app,
}
use pactagent.Webhooks.Delivery.Keeps.{AdmitsDeliveries, Holds-deliver, Holds-retry}

-- A delivery that waits for a retry has been tried five times at most.
abbrev pub IsRetriable : WebhookDelivery → Type 0
IsRetriable row = row.status ≡ DeliveryStatus.retry → row.attempts ≤ 5

abbrev pub RetriesBounded : Db → Type 0
RetriesBounded db = All IsRetriable db.webhook_deliveries

abbrev pub bounded_retries : Keeping
bounded_retries = record {
  rel = λ before after. RetriesBounded before → RetriesBounded after;
  reflexive = λ db h. h;
  transitive = λ a b c h k o. k (h o);
}

pending-IsRetriable :
    (row : WebhookDelivery) → row.status ≡ DeliveryStatus.pending → IsRetriable row
pending-IsRetriable row h e = absurd (cc (h, e))

retries-Raw : {app : ℕ} → Raw app bounded_retries
retries-Raw = record {
  next_id = λ db o. o;
  agreements = λ db test change h o. o;
  milestones = λ db test change h o. o;
  new_transaction = λ db row h o. o;
  transactions = λ db test change h o. o;
  new_event = λ db row h o. o;
  new_delivery = λ db row h p o. (pending-IsRetriable row p, o);
  jobs = λ db rows o. o;
  new_audit_log = λ db row h o. o;
  new_key = λ db row h o. o;
  keys = λ db test change h o. o;
  delete_keys = λ db test h o. o;
}

pub retries-Admits : (app : ℕ) → Admits app bounded_retries
unfolding transition_escrow_status
retries-Admits app = admitted (retries-Raw {app = app}) λ id from change move.
    Respects-bind _ _ (Respects-reads _)
      λ count. Respects-bind _ _ (Respects-modify _ λ db o. o) λ _. Respects-pure _

All-update_rows :
    (test : WebhookDelivery → Bool) (change : WebhookDelivery → WebhookDelivery)
    (xs : List WebhookDelivery)
    → ((x : WebhookDelivery) → test x ≡ true → IsRetriable (change x))
    → All IsRetriable xs
    → All IsRetriable (update_rows test change xs)
unfolding update_rows
All-update_rows test change [] h o = tt
All-update_rows test change (x ∷ xs) h o = (
  elim (Bool-cases (test x)) [ inl t ↦ rw t (h x t) | inr f ↦ rw f o.0 ],
  All-update_rows test change xs h o.1,
)

as_read :
    (read row : WebhookDelivery)
    → is_delivery_as_read read row ≡ true
    → row.attempts ≡ read.attempts
as_read read row h = ground arith

retries-AdmitsDeliveries : AdmitsDeliveries bounded_retries
unfolding update_webhook_delivery_result mark_webhook_delivery_for_retry
retries-AdmitsDeliveries = record {
  result = λ read data' fits. Respects-bind _ _ (Respects-reads _) λ count.
      Respects-bind _ _
        (Respects-modify _
          λ db. All-update_rows _ _ _ λ row t e. omega (arith, fits e, as_read read row t))
        λ _. Respects-bind _ _ (Respects-reads _) λ found. search respects_rules depth 10;
  mark = λ app id now. Respects-bind _ _ (Respects-reads _) λ count.
      Respects-bind _ _ (Respects-modify _ λ db. All-update_rows _ _ _ λ row t e. absurd (cc e))
        λ _. Respects-bind _ _ (Respects-reads _) λ found. Respects-pure _;
}

-- However an attempt at a delivery ends, and whatever is queued again by hand, no delivery waits for
-- a retry after more than five attempts, when none did before: the sixth failure is final.
pub deliveries-RetriesBounded :
    (decrypt : Text → Result Text) (attempt : WebhookDelivery → WebhookEndpoint → Text → Attempt)
    (message_of : Error → String) (app : ℕ) (req : Request) (id now : ℕ) (db : Db)
    → RetriesBounded db
    → RetriesBounded (deliver_webhook_delivery decrypt attempt message_of id now db).1
      × RetriesBounded (retry_webhook_delivery_for_app app req id db).1
deliveries-RetriesBounded decrypt attempt message_of app req id now db h = (
  (Holds-deliver retries-Admits retries-AdmitsDeliveries decrypt attempt message_of id now).at db h,
  (Holds-retry retries-Admits retries-AdmitsDeliveries app req id).at db h,
)
