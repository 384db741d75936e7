-- ===== src/Ckb/Reconciliation.antt =====
-- server/src/rails/ckb/reconciliation.ts: what the rail reads of a transaction on the chain. The node
-- (rpc.ts) is a parameter, its answers by the number of the call; a block's number and a capacity are
-- texts for `BigInt`. `Number` of a count of blocks is exact.
pub mod Depth
pub mod Spending
use pactagent.Prelude.{
  ℕ, zero, suc, ◌+◌, ◌-◌, Bool, true, false, ◌&&◌, ◌==◌, nat_eq, nat_beq, leb, String, Option, none,
  some, List, [], ◌∷◌, map, if◌then◌else◌,
}
use pactagent.Errors.{
  Error, Result, ok, err, invalid_request, internal, require, reject_if, ◌>>=◌, ◌>>◌,
}
use pactagent.Store.Rows.{Text, text_eq}
use pactagent.Ckb.Hex.{lower}
use pactagent.Ckb.Scripts.{RawScript, scripts_equal}

pub data CkbTxState : Type 0 where
  pending proposed committed rejected unknown : CkbTxState

pub record CkbTxStatus : Type 0 where
  pub status : CkbTxState
  pub block_hash : Option Text
  pub block_number : Option Text
  pub reason : Option Text

pub record OutPoint : Type 0 where
  pub tx_hash : Text
  pub index : Text

pub record CellOutput : Type 0 where
  pub capacity : Text
  pub lock : Option RawScript

pub record CkbRpcTransaction : Type 0 where
  pub inputs : List OutPoint
  pub outputs : List CellOutput
  pub outputs_data : List Text

pub record CkbTransactionResponse : Type 0 where
  pub transaction : Option CkbRpcTransaction
  pub tx_status : CkbTxStatus

-- The calls out: the node's answer to the n-th `getTransaction` of a request, the number of the
-- `getTipHeader`, and `BigInt` on a text (`none` where it throws; no number here is negative).
pub record CkbNode : Type 0 where
  pub get_transaction : ℕ → Text → Result (Option CkbTransactionResponse)
  pub get_tip_header : Result Text
  pub big_int : Text → Option ℕ

pub data CkbObservationStatus : Type 0 where
  pending committed confirmed rejected unknown : CkbObservationStatus

pub record CkbTransactionObservation : Type 0 where
  pub status : CkbObservationStatus
  pub confirmations : ℕ
  pub block_hash : Option Text
  pub block_number : Option ℕ
  pub reason : Option Text

-- The observation of a transaction that is in no block.
abbrev pub unplaced : CkbObservationStatus → CkbTransactionObservation
unplaced status = record {
  status = status;
  confirmations = 0;
  block_hash = none;
  block_number = none;
  reason = none;
}

-- An absent text and an empty one are both falsy.
abbrev pub non_empty : Option Text → Option Text
non_empty none = none
non_empty (some []) = none
non_empty (some (c ∷ cs)) = some (c ∷ cs)

abbrev pub nth : {A : Type 0} → ℕ → List A → Option A
nth n [] = none
nth zero (x ∷ xs) = some x
nth (suc n) (x ∷ xs) = nth n xs

abbrev pub same_text : Text → Text → Bool
same_text a b = map lower a == map lower b

pub record FundingInput : Type 0 where
  pub tx_hash : Text
  pub output_index : ℕ
  pub lock_script : Option RawScript
  pub cell_data : Text
  pub amount : Text

pub record SettlementInput : Type 0 where
  pub tx_hash : Text
  pub lock_tx_hash : Text
  pub lock_output_index : ℕ
  pub destination_lock_script : Option RawScript
  pub amount : Text

abbrev pub or_throw : Option ℕ → Result ℕ
or_throw none = err (internal "SyntaxError")
or_throw (some n) = ok n

abbrev pub transaction_of : Option CkbTransactionResponse → Option CkbRpcTransaction
transaction_of none = none
transaction_of (some response) = response.transaction

abbrev pub or_not_found : {A : Type 0} → String → Option A → Result A
or_not_found code none = err (invalid_request code)
or_not_found code (some a) = ok a

abbrev pub data_matches : Option Text → Text → Bool
data_matches none cell_data = false
data_matches (some text) cell_data = same_text text cell_data

abbrev pub matches : CellOutput → CkbRpcTransaction → FundingInput → Bool
matches output transaction input =
    scripts_equal output.lock input.lock_script
    && data_matches (nth input.output_index transaction.outputs_data) input.cell_data

-- The length of a `filter` whose test may throw.
abbrev pub count_where : {A : Type 0} → (A → Result Bool) → List A → Result ℕ
count_where test [] = ok 0
count_where test (x ∷ xs) = do
  found ← test x
  rest ← count_where test xs
  ok (if found then suc rest else rest)

-- `required` is `railConfig.confirmations`.
module _ (required : ℕ) (node : CkbNode) where
  abbrev pub big_int_of : Text → Result ℕ
  big_int_of text = or_throw (node.big_int text)

  abbrev pub number_or_null : Option Text → Result (Option ℕ)
  number_or_null none = ok none
  number_or_null (some text) = big_int_of text >>= λ n. ok (some n)

  -- The counts are of integers: `tip - block + 1 >= required`, and `Math.max(0, tip - block + 1)`.
  abbrev pub observed_at : Option Text → ℕ → ℕ → CkbTransactionObservation
  observed_at block_hash block tip = record {
    status =
        if leb (block + required) (suc tip)
        then CkbObservationStatus.confirmed
        else CkbObservationStatus.committed;
    confirmations = suc tip - block;
    block_hash = block_hash;
    block_number = some block;
    reason = none;
  }

  abbrev pub observe_committed : CkbTxStatus → Option Text → Result CkbTransactionObservation
  observe_committed status none = ok (unplaced CkbObservationStatus.pending)
  observe_committed status (some number) = do
    tip ← node.get_tip_header
    block ← big_int_of number
    height ← big_int_of tip
    ok (observed_at status.block_hash block height)

  abbrev pub observe_rejected : CkbTxStatus → Result CkbTransactionObservation
  observe_rejected status = do
    number ← number_or_null (non_empty status.block_number)
    ok (record {
      status = CkbObservationStatus.rejected;
      confirmations = 0;
      block_hash = status.block_hash;
      block_number = number;
      reason = status.reason;
    })

  abbrev pub observe_as : CkbTxState → CkbTxStatus → Result CkbTransactionObservation
  observe_as CkbTxState.rejected status = observe_rejected status
  observe_as CkbTxState.committed status = observe_committed status (non_empty status.block_number)
  observe_as _ status = ok (unplaced CkbObservationStatus.pending)

  abbrev pub observe_response : Option CkbTransactionResponse → Result CkbTransactionObservation
  observe_response none = ok (unplaced CkbObservationStatus.unknown)
  observe_response (some response) = observe_as response.tx_status.status response.tx_status

  -- `observeTransaction`, with the number of its call to the node.
  unfoldable pub observe_transaction : ℕ → Text → Result CkbTransactionObservation
  observe_transaction call hash = node.get_transaction call hash >>= observe_response

  -- `verifyFunding`
  unfoldable pub verify_funding : FundingInput → Result CkbTransactionObservation
  unfolding observe_transaction
  verify_funding input = do
    response ← node.get_transaction 0 input.tx_hash
    transaction ← or_not_found "ckb_funding_not_found" (transaction_of response)
    output ← or_not_found "ckb_funding_mismatch" (nth input.output_index transaction.outputs)
    require (matches output transaction input) (invalid_request "ckb_funding_mismatch")
    capacity ← big_int_of output.capacity
    amount ← big_int_of input.amount
    require (nat_beq capacity amount) (invalid_request "ckb_funding_amount_mismatch")
    observe_transaction 1 input.tx_hash

  -- Whether an input spends the cell; the index is read only when the hash is the cell's.
  abbrev pub spends : Text → ℕ → OutPoint → Result Bool
  spends hash index point =
      if same_text point.tx_hash hash
      then (big_int_of point.index >>= λ n. ok (nat_beq n index))
      else ok false

  abbrev pub pays : Option RawScript → Text → CellOutput → Result Bool
  pays destination amount output =
      if scripts_equal output.lock destination
      then (big_int_of output.capacity >>= λ capacity.
          big_int_of amount >>= λ n. ok (nat_beq capacity n))
      else ok false

  -- `verifySettlement`
  unfoldable pub verify_settlement : SettlementInput → Result CkbTransactionObservation
  unfolding observe_transaction
  verify_settlement input = do
    response ← node.get_transaction 0 input.tx_hash
    transaction ← or_not_found "ckb_settlement_not_found" (transaction_of response)
    inputs ← count_where (spends input.lock_tx_hash input.lock_output_index) transaction.inputs
    require (nat_beq inputs 1) (invalid_request "ckb_settlement_input_mismatch")
    outputs ← count_where (pays input.destination_lock_script input.amount) transaction.outputs
    require (nat_beq outputs 1) (invalid_request "ckb_settlement_output_mismatch")
    observe_transaction 1 input.tx_hash
