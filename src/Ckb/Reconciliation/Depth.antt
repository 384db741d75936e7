-- ===== src/Ckb/Reconciliation/Depth.antt =====
-- What stands on the chain when verifyFunding of server/src/rails/ckb/reconciliation.ts answers.
use pactagent.Prelude.{
  ℕ, suc, ◌+◌, ◌≤◌, ◌≡◌, refl, sym, ◌∙◌, ap, Bool, true, false, nat_beq, Option, none, some, String,
  [], ◌∷◌, map, arith,
}
use pactagent.Errors.{Error, ok, invalid_request, require, bound_ok, same_ok}
use pactagent.Store.Rows.{Text, text_beq_iff}
use pactagent.Ckb.Hex.{lower}
use pactagent.Ckb.Scripts.{NormalizedCkbScript, normalize_script, scripts_equal_iff}
use pactagent.Ckb.Reconciliation.{
  CkbTxState, CellOutput, CkbRpcTransaction, CkbTransactionResponse, CkbNode, CkbObservationStatus,
  CkbTransactionObservation, FundingInput, non_empty, nth, big_int_of, or_throw, number_or_null,
  observe_committed, observe_as, observe_response, observe_transaction, transaction_of,
  or_not_found, data_matches, matches, verify_funding,
}

-- The node has the transaction in a block, with `required` blocks from there to the tip.
pub record Confirmed (required : ℕ) (node : CkbNode) (call : ℕ) (hash : Text) : Type 0 where
  pub response : CkbTransactionResponse
  pub number : Text
  pub tip : Text
  pub block : ℕ
  pub height : ℕ
  pub answered : node.get_transaction call hash ≡ ok (some response)
  pub committed : response.tx_status.status ≡ CkbTxState.committed
  pub in_block : response.tx_status.block_number ≡ some number
  pub tip_answered : node.get_tip_header ≡ ok tip
  pub block_read : node.big_int number ≡ some block
  pub height_read : node.big_int tip ≡ some height
  pub deep : block + required ≤ suc height

-- The output at the index is locked by the script, holds the data, and is worth the amount.
pub record Funded (node : CkbNode) (input : FundingInput) : Type 0 where
  pub response : CkbTransactionResponse
  pub transaction : CkbRpcTransaction
  pub output : CellOutput
  pub data' : Text
  pub script : NormalizedCkbScript
  pub shannons : ℕ
  pub answered : node.get_transaction 0 input.tx_hash ≡ ok (some response)
  pub carried : response.transaction ≡ some transaction
  pub at_index : nth input.output_index transaction.outputs ≡ some output
  pub data_at_index : nth input.output_index transaction.outputs_data ≡ some data'
  pub same_data : map lower data' ≡ map lower input.cell_data
  pub locked : normalize_script output.lock ≡ some script
  pub wanted : normalize_script input.lock_script ≡ some script
  pub capacity : node.big_int output.capacity ≡ some shannons
  pub amount : node.big_int input.amount ≡ some shannons

pub required_true : (b : Bool) (e : Error) → require b e ≡ ok tt → b ≡ true
required_true true e h = refl
required_true false e h = absurd (cc)

has_text : (text : Option Text) {number : Text} → non_empty text ≡ some number → text ≡ some number
has_text none h = absurd (cc)
has_text (some []) h = absurd (cc)
has_text (some (c ∷ cs)) h = h

pub read_number : (read : Option ℕ) {n : ℕ} → or_throw read ≡ ok n → read ≡ some n
read_number none h = absurd (cc)
read_number (some n) h = ap some (same_ok h)

pub found :
    {A : Type 0} (code : String) (a : Option A) {x : A} → or_not_found code a ≡ ok x → a ≡ some x
found code none h = absurd (cc)
found code (some a) h = ap some (same_ok h)

pub answer_of :
    (response : Option CkbTransactionResponse) {t : CkbRpcTransaction}
    → transaction_of response ≡ some t
    → (r : CkbTransactionResponse) × (response ≡ some r) × (r.transaction ≡ some t)
answer_of none h = absurd (cc)
answer_of (some r) h = (r, refl, h)

matched_data :
    (text : Option Text) (cell_data : Text)
    → data_matches text cell_data ≡ true
    → (data' : Text) × (text ≡ some data') × (map lower data' ≡ map lower cell_data)
matched_data none cell_data h = absurd (cc)
matched_data (some data') cell_data h =
    (data', refl, (text_beq_iff (map lower data') (map lower cell_data)).0 h)

module _ (required : ℕ) (node : CkbNode) (call : ℕ) (hash : Text) where
  at_depth :
      (response : CkbTransactionResponse) (number : Option Text) {o : CkbTransactionObservation}
      → node.get_transaction call hash ≡ ok (some response)
      → response.tx_status.status ≡ CkbTxState.committed
      → ((text : Text) → number ≡ some text → response.tx_status.block_number ≡ some text)
      → observe_committed required node response.tx_status number ≡ ok o
      → o.status ≡ CkbObservationStatus.confirmed
      → Confirmed required node call hash
  at_depth response none answered state named h c = absurd (cc)
  at_depth response (some number) {o} answered state named h c =
      let (tip, ht, rest) = bound_ok node.get_tip_header _ h in
      let (block, hb, rest') = bound_ok (big_int_of required node number) _ rest in
      let (height, hh, last) = bound_ok (big_int_of required node tip) _ rest' in
      let status = ap (λ (x : CkbTransactionObservation). x.status) (same_ok last) ∙ c in
      record {
        response = response;
        number = number;
        tip = tip;
        block = block;
        height = height;
        answered = answered;
        committed = state;
        in_block = named number refl;
        tip_answered = ht;
        block_read = read_number (node.big_int number) hb;
        height_read = read_number (node.big_int tip) hh;
        deep = ground arith;
      }

  in_state :
      (response : CkbTransactionResponse) (state : CkbTxState) {o : CkbTransactionObservation}
      → node.get_transaction call hash ≡ ok (some response)
      → response.tx_status.status ≡ state
      → observe_as required node state response.tx_status ≡ ok o
      → o.status ≡ CkbObservationStatus.confirmed
      → Confirmed required node call hash
  in_state response CkbTxState.pending answered same h c = absurd (cc)
  in_state response CkbTxState.proposed answered same h c = absurd (cc)
  in_state response CkbTxState.committed answered same h c =
      at_depth response (non_empty response.tx_status.block_number) answered same
        (λ text. has_text response.tx_status.block_number) h c
  in_state response CkbTxState.rejected answered same h c =
      let (number, read, last) =
        bound_ok (number_or_null required node (non_empty response.tx_status.block_number)) _ h in
      absurd (cc)
  in_state response CkbTxState.unknown answered same h c = absurd (cc)

  observed :
      (response : Option CkbTransactionResponse) {o : CkbTransactionObservation}
      → node.get_transaction call hash ≡ ok response
      → observe_response required node response ≡ ok o
      → o.status ≡ CkbObservationStatus.confirmed
      → Confirmed required node call hash
  observed none answered h c = absurd (cc)
  observed (some response) answered h c =
      in_state response response.tx_status.status answered refl h c

  pub observe-Confirmed :
      {o : CkbTransactionObservation}
      → observe_transaction required node call hash ≡ ok o
      → o.status ≡ CkbObservationStatus.confirmed
      → Confirmed required node call hash
  unfolding observe_transaction
  observe-Confirmed h c =
      let (response, answered, rest) = bound_ok (node.get_transaction call hash) _ h in
      observed response answered rest c

-- When the check of a funding transaction answers that it is confirmed, the output at the index that
-- the escrow names is locked by the escrow's script, holds its data and is worth exactly its amount,
-- and the node has the transaction in a block that is as deep below the tip as the rail asks for.
pub verify_funding-Funded :
    (required : ℕ) (node : CkbNode) (input : FundingInput) (o : CkbTransactionObservation)
    → verify_funding required node input ≡ ok o
    → o.status ≡ CkbObservationStatus.confirmed
    → Funded node input × Confirmed required node 1 input.tx_hash
unfolding verify_funding
verify_funding-Funded required node input o h c =
    let (response, answered, h1) = bound_ok (node.get_transaction 0 input.tx_hash) _ h in
    let (t, ht, h2) =
      bound_ok (or_not_found "ckb_funding_not_found" (transaction_of response)) _ h1 in
    let (out, ho, h3) =
      bound_ok (or_not_found "ckb_funding_mismatch" (nth input.output_index t.outputs)) _ h2 in
    let (u, hm, h4) =
      bound_ok (require (matches out t input) (invalid_request "ckb_funding_mismatch")) _ h3 in
    let (capacity, hc, h5) = bound_ok (big_int_of required node out.capacity) _ h4 in
    let (amount, ha, h6) = bound_ok (big_int_of required node input.amount) _ h5 in
    let (v, he, h7) =
      bound_ok (require (nat_beq capacity amount) (invalid_request "ckb_funding_amount_mismatch")) _
        h6 in
    let matched = required_true _ _ hm in
    let (r, hr, carried) = answer_of response (found _ _ ht) in
    let (script, locked, wanted) =
      (scripts_equal_iff out.lock input.lock_script).0 (ground (arith, matched)) in
    let (data', hd, same) =
      matched_data (nth input.output_index t.outputs_data) input.cell_data
        (ground (arith, matched)) in
    let equal : capacity ≡ amount = ground (arith, required_true _ _ he) in
    (
      record {
        response = r;
        transaction = t;
        output = out;
        data' = data';
        script = script;
        shannons = capacity;
        answered = answered ∙ ap ok hr;
        carried = carried;
        at_index = found _ _ ho;
        data_at_index = hd;
        same_data = same;
        locked = locked;
        wanted = wanted;
        capacity = read_number (node.big_int out.capacity) hc;
        amount = read_number (node.big_int input.amount) ha ∙ ap some (sym equal);
      },
      observe-Confirmed required node 1 input.tx_hash h7 c,
    )
