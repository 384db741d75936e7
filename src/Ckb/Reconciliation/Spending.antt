-- ===== src/Ckb/Reconciliation/Spending.antt =====
-- What stands on the chain when verifySettlement of server/src/rails/ckb/reconciliation.ts answers.
use pactagent.Prelude.{
  ℕ, suc, ◌≡◌, refl, sym, ◌∙◌, ap, Bool, true, false, nat_beq, some, List, [], ◌∷◌, map, arith,
  if◌then◌else◌,
}
use pactagent.Errors.{Result, ok, invalid_request, require, bound_ok, same_ok, ◌>>=◌}
use pactagent.Store.Rows.{text_beq_iff}
use pactagent.Ckb.Hex.{lower}
use pactagent.Ckb.Scripts.{NormalizedCkbScript, normalize_script, scripts_equal, scripts_equal_iff}
use pactagent.Ckb.Reconciliation.{
  OutPoint, CellOutput, CkbRpcTransaction, CkbTransactionResponse, CkbNode, CkbObservationStatus,
  CkbTransactionObservation, SettlementInput, nth, same_text, big_int_of, transaction_of,
  or_not_found, count_where, spends, pays, verify_settlement,
}
use pactagent.Ckb.Reconciliation.Depth.{
  Confirmed, required_true, read_number, found, answer_of, observe-Confirmed,
}

-- An input of the transaction spends the escrow's cell, and an output of it is locked by the
-- destination's script and worth the amount.
pub record Settled (node : CkbNode) (input : SettlementInput) : Type 0 where
  pub response : CkbTransactionResponse
  pub transaction : CkbRpcTransaction
  pub point : OutPoint
  pub input_place : ℕ
  pub output : CellOutput
  pub output_place : ℕ
  pub script : NormalizedCkbScript
  pub shannons : ℕ
  pub answered : node.get_transaction 0 input.tx_hash ≡ ok (some response)
  pub carried : response.transaction ≡ some transaction
  pub spent : nth input_place transaction.inputs ≡ some point
  pub same_hash : map lower point.tx_hash ≡ map lower input.lock_tx_hash
  pub same_index : node.big_int point.index ≡ some input.lock_output_index
  pub paid : nth output_place transaction.outputs ≡ some output
  pub locked : normalize_script output.lock ≡ some script
  pub wanted : normalize_script input.destination_lock_script ≡ some script
  pub capacity : node.big_int output.capacity ≡ some shannons
  pub amount : node.big_int input.amount ≡ some shannons

-- A row that passes the test, by its place.
pub record Passing {A : Type 0} (test : A → Result Bool) (xs : List A) : Type 0 where
  pub place : ℕ
  pub row : A
  pub there : nth place xs ≡ some row
  pub passes : test row ≡ ok true

module _ {A : Type 0} (test : A → Result Bool) where
  first_or_later :
      (x : A) (xs : List A) (b : Bool) (rest n : ℕ)
      → test x ≡ ok b
      → (if b then suc rest else rest) ≡ suc n
      → (rest ≡ suc n → Passing test xs)
      → Passing test (x ∷ xs)
  first_or_later x xs true rest n hx count later = record {
    place = 0;
    row = x;
    there = refl;
    passes = hx;
  }
  first_or_later x xs false rest n hx count later =
      let p = later count in
      record { place = suc p.place; row = p.row; there = p.there; passes = p.passes }

  counted : (xs : List A) {n : ℕ} → count_where test xs ≡ ok (suc n) → Passing test xs
  counted [] h = absurd (cc)
  counted (x ∷ xs) {n} h =
      let (b, hx, h1) = bound_ok (test x) _ h in
      let (rest, hr, h2) = bound_ok (count_where test xs) _ h1 in
      first_or_later x xs b rest n hx (same_ok h2) (λ e. counted xs (hr ∙ ap ok e))

one : (n : ℕ) → nat_beq n 1 ≡ true → n ≡ 1
one n h = ground arith

module _ (required : ℕ) (node : CkbNode) where
  spent_by :
      (same : Bool) (read : Result ℕ) (index : ℕ)
      → (if same then (read >>= λ n. ok (nat_beq n index)) else ok false) ≡ ok true
      → (same ≡ true) × (read ≡ ok index)
  spent_by true read index h =
      let (n, hn, e) = bound_ok read _ h in
      let same : n ≡ index = ground (arith, same_ok e) in (refl, hn ∙ ap ok same)
  spent_by false read index h = absurd (cc)

  paid_by :
      (same : Bool) (worth amount : Result ℕ)
      → (if same then (worth >>= λ capacity. amount >>= λ n. ok (nat_beq capacity n)) else ok false)
        ≡ ok true
      → (same ≡ true) × ((n : ℕ) × (worth ≡ ok n) × (amount ≡ ok n))
  paid_by true worth amount h =
      let (c, hc, h1) = bound_ok worth _ h in
      let (n, hn, e) = bound_ok amount _ h1 in
      let same : c ≡ n = ground (arith, same_ok e) in (refl, (c, hc, hn ∙ ap ok (sym same)))
  paid_by false worth amount h = absurd (cc)

-- When the check of a settlement answers that it is confirmed, the transaction spends the escrow's
-- cell, an output of it is locked by the destination's script and worth exactly the amount, and the
-- node has the transaction in a block that is as deep below the tip as the rail asks for.
pub verify_settlement-Settled :
    (required : ℕ) (node : CkbNode) (input : SettlementInput) (o : CkbTransactionObservation)
    → verify_settlement required node input ≡ ok o
    → o.status ≡ CkbObservationStatus.confirmed
    → Settled node input × Confirmed required node 1 input.tx_hash
unfolding verify_settlement
verify_settlement-Settled required node input o h c =
    let (response, answered, h1) = bound_ok (node.get_transaction 0 input.tx_hash) _ h in
    let (t, ht, h2) =
      bound_ok (or_not_found "ckb_settlement_not_found" (transaction_of response)) _ h1 in
    let test = spends required node input.lock_tx_hash input.lock_output_index in
    let (m, hm, h3) = bound_ok (count_where test t.inputs) _ h2 in
    let (u, hu, h4) =
      bound_ok (require (nat_beq m 1) (invalid_request "ckb_settlement_input_mismatch")) _ h3 in
    let test' = pays required node input.destination_lock_script input.amount in
    let (k, hk, h5) = bound_ok (count_where test' t.outputs) _ h4 in
    let (v, hv, h6) =
      bound_ok (require (nat_beq k 1) (invalid_request "ckb_settlement_output_mismatch")) _ h5 in
    let (r, hr, carried) = answer_of response (found _ _ ht) in
    let p = counted test t.inputs (hm ∙ ap ok (one m (required_true _ _ hu))) in
    let q = counted test' t.outputs (hk ∙ ap ok (one k (required_true _ _ hv))) in
    let (hash, index) =
      spent_by required node (same_text p.row.tx_hash input.lock_tx_hash)
        (big_int_of required node p.row.index) input.lock_output_index p.passes in
    let (equal, (n, worth, wanted)) =
      paid_by required node (scripts_equal q.row.lock input.destination_lock_script)
        (big_int_of required node q.row.capacity) (big_int_of required node input.amount)
        q.passes in
    let (script, left, right) =
      (scripts_equal_iff q.row.lock input.destination_lock_script).0 equal in
    (
      record {
        response = r;
        transaction = t;
        point = p.row;
        input_place = p.place;
        output = q.row;
        output_place = q.place;
        script = script;
        shannons = n;
        answered = answered ∙ ap ok hr;
        carried = carried;
        spent = p.there;
        same_hash = (text_beq_iff (map lower p.row.tx_hash) (map lower input.lock_tx_hash)).0 hash;
        same_index = read_number (node.big_int p.row.index) index;
        paid = q.there;
        locked = left;
        wanted = right;
        capacity = read_number (node.big_int q.row.capacity) worth;
        amount = read_number (node.big_int input.amount) wanted;
      },
      observe-Confirmed required node 1 input.tx_hash h6 c,
    )
