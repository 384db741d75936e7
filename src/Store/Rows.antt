-- ===== src/Store/Rows.antt =====
-- The rows of server/prisma/schema.prisma, with the columns that the services read or write. A
-- text that is only compared whole (an id, a key, an account) is a number. Amounts, currencies
-- and hashes are texts by their code points. A status column holds the words of its enumeration
-- alone, as the CHECK constraints of server/prisma/migrations say.
use Prim.Native.Char.{code}
use pactagent.Prelude.{
  ℕ, String, Bool, true, false, ◌≡◌, refl, ◌↔◌, ◌&&◌, Option, List, [], ◌∷◌, Eq, nat_beq, arith,
}
use pactagent.Lifecycle.Agreement.{AgreementStatus}
use pactagent.Lifecycle.Milestone.{MilestoneStatus}
use pactagent.Lifecycle.Escrow.{EscrowStatus}
use pactagent.Lifecycle.Dispute.{DisputeStatus}
use pactagent.Lifecycle.DisputePaths.{ResolutionType}
use pactagent.Lifecycle.Proof.{ProofStatus}
use pactagent.Lifecycle.ProofPaths.{ReviewDecision}

abbrev pub Text : Type 0
Text = List ℕ

-- The code points of a literal.
abbrev pub codes : String → Text
codes String.[] = []
codes (String.◌∷◌ c s) = code c ∷ codes s

abbrev pub text_beq : Text → Text → Bool
text_beq [] [] = true
text_beq [] (b ∷ bs) = false
text_beq (a ∷ as') [] = false
text_beq (a ∷ as') (b ∷ bs) = nat_beq a b && text_beq as' bs

pub text_beq_iff : (a b : Text) → (text_beq a b ≡ true) ↔ (a ≡ b)
text_beq_iff [] [] = (λ _. refl, λ _. refl)
text_beq_iff [] (b ∷ bs) = (λ h. cc, λ h. cc)
text_beq_iff (a ∷ as') [] = (λ h. cc, λ h. cc)
text_beq_iff (a ∷ as') (b ∷ bs) =
    (λ h. ground (arith, text_beq_iff as' bs), λ h. ground (arith, text_beq_iff as' bs))

instance abbrev pub text_eq : Eq Text
text_eq = record { beq = text_beq; beq_iff = text_beq_iff }

pub data SettlementStatus : Type 0 where
  unfunded funding_pending funded payout_confirmed refund_confirmed : SettlementStatus

pub record Agreement : Type 0 where
  pub id : ℕ
  pub app_id : ℕ
  pub external_reference_id : Option ℕ
  pub amount : Text
  pub currency : Text
  pub status : AgreementStatus
  pub settlement_status : SettlementStatus
  pub funding_confirmed_at : Option ℕ

pub record Milestone : Type 0 where
  pub id : ℕ
  pub app_id : ℕ
  pub agreement_id : ℕ
  pub external_reference_id : Option ℕ
  pub amount : Text
  pub currency : Text
  pub sort_order : ℕ
  pub status : MilestoneStatus

pub data Rail : Type 0 where
  mock manual ckb : Rail

pub data Network : Type 0 where
  sandbox testnet mainnet : Network

-- `EscrowRecord`; the scripts are their JSON texts.
pub record Escrow : Type 0 where
  pub id : ℕ
  pub app_id : ℕ
  pub agreement_id : ℕ
  pub milestone_id : Option ℕ
  pub amount : Text
  pub currency : Text
  pub rail : Rail
  pub network : Network
  pub status : EscrowStatus
  pub lock_address : Option Text
  pub lock_tx_hash : Option Text
  pub lock_output_index : Option ℕ
  pub lock_script_json : Option Text
  pub client_lock_script_json : Option Text
  pub worker_lock_script_json : Option Text
  pub cell_data : Option Text
  pub contract_version : Option ℕ
  pub refund_timeout_since : Option Text
  pub release_tx_hash : Option Text
  pub refund_tx_hash : Option Text

pub data TransactionType : Type 0 where
  lock release refund manual_adjustment : TransactionType

abbrev transaction_type_tag : TransactionType → ℕ
transaction_type_tag TransactionType.lock = 0
transaction_type_tag TransactionType.release = 1
transaction_type_tag TransactionType.refund = 2
transaction_type_tag TransactionType.manual_adjustment = 3

abbrev pub transaction_type_beq : TransactionType → TransactionType → Bool
transaction_type_beq a b = nat_beq (transaction_type_tag a) (transaction_type_tag b)

pub transaction_type_beq_iff : (a b : TransactionType) → (transaction_type_beq a b ≡ true) ↔ (a ≡ b)
transaction_type_beq_iff a b = (λ h. ground arith, λ h. ground arith)

instance abbrev pub transaction_type_eq : Eq TransactionType
transaction_type_eq = record { beq = transaction_type_beq; beq_iff = transaction_type_beq_iff }

pub data TransactionStatus : Type 0 where
  pending broadcast committed confirmed reconciliation_required rejected reorged failed :
      TransactionStatus

-- `escrow:<id>:<type>`
pub record OperationId : Type 0 where
  pub escrow : ℕ
  pub operation : TransactionType

abbrev pub operation_id_beq : OperationId → OperationId → Bool
operation_id_beq a b = nat_beq a.escrow b.escrow && transaction_type_beq a.operation b.operation

pub operation_id_beq_iff : (a b : OperationId) → (operation_id_beq a b ≡ true) ↔ (a ≡ b)
operation_id_beq_iff a b = (
  λ h. ground (arith, transaction_type_beq_iff a.operation b.operation),
  λ h. ground (arith, transaction_type_beq_iff a.operation b.operation),
)

instance abbrev pub operation_id_eq : Eq OperationId
operation_id_eq = record { beq = operation_id_beq; beq_iff = operation_id_beq_iff }

pub record Transaction : Type 0 where
  pub id : ℕ
  pub app_id : ℕ
  pub agreement_id : Option ℕ
  pub milestone_id : Option ℕ
  pub escrow_id : Option ℕ
  pub type : TransactionType
  pub rail : Rail
  pub network : Network
  pub status : TransactionStatus
  pub operation_id : Option OperationId
  pub tx_hash : Option Text
  pub block_hash : Option Text
  pub block_number : Option Text
  pub confirmations : ℕ
  pub last_checked_at : Option ℕ
  pub broadcast_at : Option ℕ
  pub confirmed_at : Option ℕ
  pub reconciliation_error : Option Text
  pub amount : Text
  pub currency : Text

pub record Dispute : Type 0 where
  pub id : ℕ
  pub app_id : ℕ
  pub agreement_id : ℕ
  pub milestone_id : ℕ
  pub opened_by_external_id : ℕ
  pub status : DisputeStatus
  pub resolution_type : Option ResolutionType
  pub worker_amount : Option Text
  pub client_amount : Option Text
  pub resolved_at : Option ℕ

pub record Proof : Type 0 where
  pub id : ℕ
  pub app_id : ℕ
  pub agreement_id : ℕ
  pub milestone_id : ℕ
  pub submitted_by_external_id : ℕ
  pub content_hash : Text
  pub status : ProofStatus

pub record Review : Type 0 where
  pub id : ℕ
  pub app_id : ℕ
  pub agreement_id : ℕ
  pub milestone_id : ℕ
  pub proof_submission_id : ℕ
  pub reviewer_external_id : ℕ
  pub decision : ReviewDecision

pub record Event : Type 0 where
  pub id : ℕ
  pub app_id : ℕ
  pub type : String
  pub agreement_id : Option ℕ
  pub milestone_id : Option ℕ
  pub escrow_id : Option ℕ
  pub proof_submission_id : Option ℕ
  pub dispute_id : Option ℕ

pub record WebhookEndpoint : Type 0 where
  pub id : ℕ
  pub app_id : ℕ
  pub url : Text
  pub secret_hash : Option Text
  pub secret_ciphertext : Option Text
  pub encryption_key_version : Option Text
  pub active : Bool
  pub deleted_at : Option ℕ
  pub subscribed_events : List String

pub data DeliveryStatus : Type 0 where
  pending retry delivered failed : DeliveryStatus

pub record WebhookDelivery : Type 0 where
  pub id : ℕ
  pub app_id : ℕ
  pub endpoint_id : ℕ
  pub event_id : ℕ
  pub agreement_id : Option ℕ
  pub event_type : String
  pub status : DeliveryStatus
  pub attempts : ℕ
  pub status_code : Option ℕ
  pub last_error : Option String
  pub next_retry_at : Option ℕ
  pub delivered_at : Option ℕ

pub data JobKind : Type 0 where
  deliver_webhook ckb_reconcile_transaction : JobKind

pub data WorkerQueue : Type 0 where
  webhook settlement : WorkerQueue

pub data JobStatus : Type 0 where
  queued running retry completed dead_letter : JobStatus

-- `CKB_RECONCILE_TRANSACTION:<id>`, `INFRA_WEBHOOK_DELIVERY:<id>:<attempt>`, and
-- `INFRA_WEBHOOK_DELIVERY:<id>:manual:<time>`
pub data DedupeKey : Type 0 where
  ckb_reconcile : ℕ → DedupeKey
  infra_webhook_delivery manual_webhook_delivery : ℕ → ℕ → DedupeKey

abbrev pub dedupe_key_beq : DedupeKey → DedupeKey → Bool
dedupe_key_beq (DedupeKey.ckb_reconcile a) (DedupeKey.ckb_reconcile b) = nat_beq a b
dedupe_key_beq (DedupeKey.infra_webhook_delivery a i) (DedupeKey.infra_webhook_delivery b j) =
    nat_beq a b && nat_beq i j
dedupe_key_beq (DedupeKey.manual_webhook_delivery a i) (DedupeKey.manual_webhook_delivery b j) =
    nat_beq a b && nat_beq i j
dedupe_key_beq _ _ = false

pub dedupe_key_beq_iff : (a b : DedupeKey) → (dedupe_key_beq a b ≡ true) ↔ (a ≡ b)
dedupe_key_beq_iff a b = (λ h. ground arith, λ h. ground arith)

instance abbrev pub dedupe_key_eq : Eq DedupeKey
dedupe_key_eq = record { beq = dedupe_key_beq; beq_iff = dedupe_key_beq_iff }

-- `AgentJobPayload`
pub record JobPayload : Type 0 where
  pub agreement_id : Option ℕ
  pub delivery_id : Option ℕ
  pub transaction_id : Option ℕ

pub record AgentJob : Type 0 where
  pub id : ℕ
  pub app_id : ℕ
  pub agreement_id : Option ℕ
  pub kind : JobKind
  pub queue : WorkerQueue
  pub status : JobStatus
  pub dedupe_key : Option DedupeKey
  pub payload : Option JobPayload
  pub available_at : ℕ
  pub attempts : ℕ
  pub max_attempts : ℕ
  pub locked_at : Option ℕ
  pub locked_by : Option ℕ
  pub lease_expires_at : Option ℕ
  pub completed_at : Option ℕ
  pub dead_lettered_at : Option ℕ
  pub last_error : Option String

pub data ActorId : Type 0 where
  api_key : ℕ → ActorId
  ckb_reconciliation_worker : ActorId

pub record AuditLog : Type 0 where
  pub app_id : ℕ
  pub agreement_id : Option ℕ
  pub actor_type : String
  pub actor_id : Option ActorId
  pub action : String
  pub target_type : String
  pub target_id : ℕ

-- The `data` of a stored response: the resource that the handler returned.
pub data Resource : Type 0 where
  agreement : Agreement → Resource
  milestone : Milestone → Resource
  escrow : Escrow → Resource
  dispute : Dispute → Resource
  proof : Proof → Resource
  reviewed_proof : Proof → Review → Resource

pub data IdempotencyStatus : Type 0 where
  pending completed : IdempotencyStatus

pub record IdempotencyKey : Type 0 where
  pub app_id : ℕ
  pub key : Text
  pub request_hash : Text
  pub status : IdempotencyStatus
  pub processing_expires_at : ℕ
  pub expires_at : ℕ
  pub response_status : Option ℕ
  pub response_body : Option Resource
