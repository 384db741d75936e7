-- ===== src/Tests.antt =====
-- Two apps, each with an agreement, its milestone and its escrow, and the theorems on them.
pub mod Witnesses
pub mod More
pub mod Jobs
pub mod Services
pub mod Routes
pub mod Rails
pub mod Limits
pub mod Chain
pub mod Endpoints
use pactagent.Prelude.{ℕ, ◌≡◌, refl, Bool, true, false, Option, none, some, List, [], ◌∷◌}
use pactagent.Errors.{ok}
use pactagent.Lifecycle.Agreement.{AgreementStatus}
use pactagent.Lifecycle.Milestone.{MilestoneStatus}
use pactagent.Lifecycle.Escrow.{EscrowStatus}
use pactagent.Store.Rows.{
  Text, Agreement, Milestone, Escrow, SettlementStatus, Rail, Network, codes, Transaction,
  TransactionType, TransactionStatus,
}
use pactagent.Store.Tx.{Db}
use pactagent.Repository.Escrows.{CreateEscrowInput}
use pactagent.Repository.Idempotency.{Env}
use pactagent.Idempotency.{Request}
use pactagent.Escrow.Adapter.{
  ReconciliationObservation, ObservationStatus, EscrowAdapter, mock_escrow_adapter,
  manual_escrow_adapter, get_escrow_adapter,
}

abbrev pub env : Env
env = record {
  idempotency_retention_ms = 1000;
  idempotency_processing_lease_ms = 100;
  idempotency_max_response_bytes = 500;
  response_bytes = λ body. 80;
  ckb_confirmations = 12;
}

abbrev mock : EscrowAdapter
mock = mock_escrow_adapter (λ word id. word) (λ id. id ∷ [])

abbrev pub adapters : Rail → EscrowAdapter
adapters = get_escrow_adapter mock (manual_escrow_adapter (λ word id. word) (λ id. id ∷ [])) mock

abbrev pub agreement_of : ℕ → ℕ → AgreementStatus → Agreement
agreement_of app id status = record {
  id = id;
  app_id = app;
  external_reference_id = none;
  amount = codes "500";
  currency = codes "CKB";
  status = status;
  settlement_status = SettlementStatus.funded;
  funding_confirmed_at = some 3;
}

abbrev pub milestone_of : ℕ → ℕ → ℕ → Milestone
milestone_of app id agreement = record {
  id = id;
  app_id = app;
  agreement_id = agreement;
  external_reference_id = none;
  amount = codes "200";
  currency = codes "CKB";
  sort_order = 0;
  status = MilestoneStatus.approved;
}

abbrev pub escrow_of : ℕ → ℕ → ℕ → EscrowStatus → Escrow
escrow_of app id agreement status = record {
  id = id;
  app_id = app;
  agreement_id = agreement;
  milestone_id = none;
  amount = codes "500";
  currency = codes "CKB";
  rail = Rail.mock;
  network = Network.sandbox;
  status = status;
  lock_address = none;
  lock_tx_hash = none;
  lock_output_index = none;
  lock_script_json = none;
  client_lock_script_json = none;
  worker_lock_script_json = none;
  cell_data = none;
  contract_version = none;
  refund_timeout_since = none;
  release_tx_hash = none;
  refund_tx_hash = none;
}

-- The app 1 has the escrow 20 of the agreement 10, the app 2 the escrow 21 of the agreement 11.
abbrev pub tables : AgreementStatus → EscrowStatus → Db
tables agreement escrow = record {
  agreements = agreement_of 1 10 agreement ∷ agreement_of 2 11 AgreementStatus.funded ∷ [];
  milestones = milestone_of 1 30 10 ∷ milestone_of 2 31 11 ∷ [];
  escrows = escrow_of 1 20 10 escrow ∷ escrow_of 2 21 11 EscrowStatus.funded ∷ [];
  transactions = [];
  disputes = [];
  proofs = [];
  reviews = [];
  events = [];
  webhook_endpoints = [];
  webhook_deliveries = [];
  jobs = [];
  audit_logs = [];
  idempotency_keys = [];
  next_id = 100;
}

abbrev pub two_apps : Db
two_apps = tables AgreementStatus.approved EscrowStatus.funded

abbrev pub request : Request
request = record {
  actor = none;
  idempotency_key = some (codes "k1");
  request_hash = codes "h1";
  now = 7;
}

abbrev pub milestone_escrow : CreateEscrowInput
milestone_escrow = record {
  agreement_id = 10;
  milestone_id = some 30;
  amount = codes "200";
  currency = codes "CKB";
  rail = Rail.mock;
  network = Network.sandbox;
  client_lock_script = none;
  worker_lock_script = none;
  refund_timeout_since = none;
}

abbrev pub release_row : Transaction
release_row = record {
  id = 40;
  app_id = 1;
  agreement_id = some 10;
  milestone_id = none;
  escrow_id = some 20;
  type = TransactionType.release;
  rail = Rail.ckb;
  network = Network.testnet;
  status = TransactionStatus.broadcast;
  operation_id = none;
  tx_hash = some (codes "0xAB");
  block_hash = none;
  block_number = none;
  confirmations = 0;
  last_checked_at = none;
  broadcast_at = some 5;
  confirmed_at = none;
  reconciliation_error = none;
  amount = codes "500";
  currency = codes "CKB";
}

abbrev pub observation : ReconciliationObservation
observation = record {
  status = ObservationStatus.committed;
  confirmations = some 3;
  block_hash = none;
  block_number = none;
  reason = none;
}

abbrev pub release_sent : Db
release_sent = record (tables AgreementStatus.approved EscrowStatus.release_pending) {
  transactions = release_row ∷ [];
}
