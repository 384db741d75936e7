-- ===== src/Escrow/Adapter.antt =====
-- server/src/modules/escrows/adapters: the interface of a rail, and the mock and manual rails.
use pactagent.Prelude.{ℕ, ◌++◌, Option, none, some, Bool, true, false}
use pactagent.Errors.{Result, ok, err, invalid_request}
use pactagent.Lifecycle.Escrow.{EscrowStatus}
use pactagent.Store.Rows.{Text, Escrow, Rail, Network, TransactionType, codes}

-- A status as an adapter reports it: a word of the life cycle, or another text.
pub data Reported : Type 0 where
  known : EscrowStatus → Reported
  other : Text → Reported

-- `assertStatus`
abbrev pub assert_status : Reported → Result EscrowStatus
assert_status (known status) = ok status
assert_status (other text) = err (invalid_request "invalid_escrow_status")

-- `EscrowAdapterResult`
pub record EscrowAdapterResult : Type 0 where
  pub status : Reported
  pub lock_address : Option Text
  pub tx_hash : Option Text
  pub lock_output_index : Option ℕ
  pub lock_script : Option Text
  pub client_lock_script : Option Text
  pub worker_lock_script : Option Text
  pub cell_data : Option Text
  pub contract_version : Option ℕ
  pub refund_timeout_since : Option Text
  pub confirmations : Option ℕ
  pub block_hash : Option Text
  pub block_number : Option Text

-- The words that `getTransactionStatus` reports on the CKB rail.
pub data ObservationStatus : Type 0 where
  pending committed confirmed rejected unknown : ObservationStatus

-- `ReconciliationObservation`; `reason` is read out of the raw payload.
pub record ReconciliationObservation : Type 0 where
  pub status : ObservationStatus
  pub confirmations : Option ℕ
  pub block_hash : Option Text
  pub block_number : Option Text
  pub reason : Option Text

-- `EscrowAdapter`: each call gets the escrow's row, of which it reads the lock data.
pub record EscrowAdapter : Type 0 where
  pub create_escrow_lock : Escrow → Option ℕ → Result EscrowAdapterResult
  pub mark_funded : Escrow → Option Text → Result EscrowAdapterResult
  pub release : Escrow → Result EscrowAdapterResult
  pub refund : Escrow → Result EscrowAdapterResult
  pub get_transaction_status : Text → Result ReconciliationObservation
  pub check_funding_status : Escrow → Result (Unit {0})
  pub check_settlement_status : Escrow → TransactionType → Text → Result (Unit {0})

-- `confirmedForRail`
abbrev pub confirmed_for_rail : Rail → Network → Bool
confirmed_for_rail Rail.mock Network.sandbox = true
confirmed_for_rail Rail.manual Network.sandbox = true
confirmed_for_rail _ _ = false

-- `getEscrowAdapter`
abbrev pub get_escrow_adapter : EscrowAdapter → EscrowAdapter → EscrowAdapter → Rail → EscrowAdapter
get_escrow_adapter mock manual ckb Rail.mock = mock
get_escrow_adapter mock manual ckb Rail.manual = manual
get_escrow_adapter mock manual ckb Rail.ckb = ckb

abbrev mock_result : EscrowStatus → Option Text → Option Text → EscrowAdapterResult
mock_result status address hash = record {
  status = known status;
  lock_address = address;
  tx_hash = hash;
  lock_output_index = none;
  lock_script = none;
  client_lock_script = none;
  worker_lock_script = none;
  cell_data = none;
  contract_version = none;
  refund_timeout_since = none;
  confirmations = none;
  block_hash = none;
  block_number = none;
}

abbrev or_hash : Option Text → Text → Text
or_hash none hash = hash
or_hash (some given) hash = given

-- `MockEscrowAdapter`, over the hash of the crypto library and the decimal text of an id.
abbrev pub mock_escrow_adapter : (Text → ℕ → Text) → (ℕ → Text) → EscrowAdapter
mock_escrow_adapter mock_hash id_text = record {
  create_escrow_lock = λ escrow index. ok (
      mock_result EscrowStatus.awaiting_funding (some (codes "mock_escrow_" ++ id_text escrow.id))
        (some (mock_hash (codes "lock") escrow.id)));
  mark_funded = λ escrow hash. ok (
      mock_result EscrowStatus.funded none
        (some (or_hash hash (mock_hash (codes "fund") escrow.id))));
  release = λ escrow.
      ok (mock_result EscrowStatus.released none (some (mock_hash (codes "release") escrow.id)));
  refund = λ escrow.
      ok (mock_result EscrowStatus.refunded none (some (mock_hash (codes "refund") escrow.id)));
  get_transaction_status = λ hash. ok (record {
    status = ObservationStatus.confirmed;
    confirmations = none;
    block_hash = none;
    block_number = none;
    reason = none;
  });
  check_funding_status = λ escrow. ok tt;
  check_settlement_status = λ escrow type hash. ok tt;
}

-- `ManualEscrowAdapter`: the mock rail, but for the address of the lock.
abbrev pub manual_escrow_adapter : (Text → ℕ → Text) → (ℕ → Text) → EscrowAdapter
manual_escrow_adapter mock_hash id_text =
    let mock = mock_escrow_adapter mock_hash id_text in
    record mock {
      create_escrow_lock = λ escrow index. ok (
          mock_result EscrowStatus.awaiting_funding
            (some (codes "manual_escrow_" ++ id_text escrow.id))
            (some (mock_hash (codes "lock") escrow.id)));
    }
