-- ===== src/Tests/Chain.antt =====
-- A funding transaction and a settlement of it, in block 100 of a chain with 120 blocks.
use pactagent.Prelude.{ℕ, ◌≡◌, refl, Option, none, some, [], ◌∷◌, ◌==◌, if◌then◌else◌}
use pactagent.Errors.{ok}
use pactagent.Store.Rows.{Text, text_eq, codes}
use pactagent.Ckb.Scripts.{Field, RawScript, normalize_script, scripts_equal}
use pactagent.Ckb.Reconciliation.{
  CkbTxState, CkbTransactionResponse, CkbNode, CkbObservationStatus, CkbTransactionObservation,
  FundingInput, SettlementInput, observe_transaction, verify_funding, verify_settlement,
}
use pactagent.Ckb.Reconciliation.Depth.{Confirmed, Funded, verify_funding-Funded}
use pactagent.Ckb.Reconciliation.Spending.{Settled, verify_settlement-Settled}

abbrev lock : RawScript
lock = record {
  code_hash =
      Field.text (codes "0xcdcdcdcdcdcdcdcdcdcdcdcdcdcdcdcdcdcdcdcdcdcdcdcdcdcdcdcdcdcdcdcd");
  code_hash_snake = Field.absent;
  hash_type = Field.text (codes "type");
  hash_type_snake = Field.absent;
  args = Field.text (codes "0x12");
}

abbrev from_node : RawScript
from_node = record lock {
  code_hash = Field.absent;
  code_hash_snake =
      Field.text (codes "0xCDCDcdcdcdcdcdcdcdcdcdcdcdcdcdcdcdcdcdcdcdcdcdcdcdcdcdcdcdcdcdcd");
}

abbrev on_chain : CkbTransactionResponse
on_chain = record {
  transaction = some (record {
    inputs = record { tx_hash = codes "0xAA"; index = codes "0x1" } ∷ [];
    outputs = record { capacity = codes "0x1f4"; lock = some from_node } ∷ [];
    outputs_data = codes "0xEF" ∷ [];
  });
  tx_status = record {
    status = CkbTxState.committed;
    block_hash = some (codes "0xbb");
    block_number = some (codes "0x64");
    reason = none;
  };
}

abbrev numbers : Text → Option ℕ
numbers text =
    if text == codes "0x1f4"
    then some 500
    else if text == codes "500"
    then some 500
    else if text == codes "0x64"
    then some 100
    else if text == codes "0x78"
    then some 120
    else if text == codes "0x1"
    then some 1
    else none

abbrev node : CkbNode
node = record {
  get_transaction = λ call hash. ok (some on_chain);
  get_tip_header = ok (codes "0x78");
  big_int = numbers;
}

abbrev funding : FundingInput
funding = record {
  tx_hash = codes "0xaa";
  output_index = 0;
  lock_script = some lock;
  cell_data = codes "0xef";
  amount = codes "500";
}

abbrev settlement : SettlementInput
settlement = record {
  tx_hash = codes "0xcc";
  lock_tx_hash = codes "0xaa";
  lock_output_index = 1;
  destination_lock_script = some lock;
  amount = codes "500";
}

abbrev seen : CkbTransactionObservation
seen = record {
  status = CkbObservationStatus.confirmed;
  confirmations = 21;
  block_hash = some (codes "0xbb");
  block_number = some 100;
  reason = none;
}

funding-seen : verify_funding 20 node funding ≡ ok seen
unfolding verify_funding observe_transaction scripts_equal normalize_script
funding-seen = refl

verify_funding-Funded_example : Funded node funding × Confirmed 20 node 1 (codes "0xaa")
verify_funding-Funded_example = verify_funding-Funded 20 node funding seen funding-seen refl

settlement-seen : verify_settlement 20 node settlement ≡ ok seen
unfolding verify_settlement observe_transaction scripts_equal normalize_script
settlement-seen = refl

verify_settlement-Settled_example : Settled node settlement × Confirmed 20 node 1 (codes "0xcc")
verify_settlement-Settled_example =
    verify_settlement-Settled 20 node settlement seen settlement-seen refl
