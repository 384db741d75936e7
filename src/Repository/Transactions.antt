-- ===== src/Repository/Transactions.antt =====
-- server/src/modules/transactions/transaction.repository.ts. The raw payloads are left out.
use pactagent.Prelude.{
  ℕ, Bool, ◌&&◌, Option, none, ◌∷◌, nat_eq, option_eq, ◌==◌, find_first, update_rows, is_some,
}
use pactagent.Errors.{unique_violation, reject_if}
use pactagent.Store.Rows.{
  Text, Rail, Network, Transaction, TransactionType, TransactionStatus, OperationId,
  operation_id_eq,
}
use pactagent.Store.Tx.{Tx, pure, lift, reads, modify, new_id, ◌>>=◌, ◌>>◌}

-- The `data` of `createTransaction`; every caller gives no hash.
pub record NewTransaction : Type 0 where
  pub agreement_id : Option ℕ
  pub milestone_id : Option ℕ
  pub escrow_id : Option ℕ
  pub type : TransactionType
  pub rail : Rail
  pub network : Network
  pub status : TransactionStatus
  pub operation_id : Option OperationId
  pub amount : Text
  pub currency : Text

abbrev pub transaction_row : ℕ → NewTransaction → ℕ → Transaction
transaction_row app t id = record {
  id = id;
  app_id = app;
  agreement_id = t.agreement_id;
  milestone_id = t.milestone_id;
  escrow_id = t.escrow_id;
  type = t.type;
  rail = t.rail;
  network = t.network;
  status = t.status;
  operation_id = t.operation_id;
  tx_hash = none;
  block_hash = none;
  block_number = none;
  confirmations = 0;
  last_checked_at = none;
  broadcast_at = none;
  confirmed_at = none;
  reconciliation_error = none;
  amount = t.amount;
  currency = t.currency;
}

abbrev pub has_operation_id : ℕ → Option OperationId → Transaction → Bool
has_operation_id app operation row =
    is_some operation && row.app_id == app && row.operation_id == operation

-- `transaction.create`, under the unique index on (`appId`, `operationId`).
unfoldable pub create_transaction : ℕ → NewTransaction → Tx Transaction
create_transaction app t = do
  taken ← reads (λ db. is_some (find_first (has_operation_id app t.operation_id) db.transactions))
  lift (reject_if taken unique_violation)
  id ← new_id
  modify (λ db. record db { transactions = transaction_row app t id ∷ db.transactions })
  pure (transaction_row app t id)

abbrev pub is_transaction : ℕ → ℕ → Transaction → Bool
is_transaction app id row = row.id == id && row.app_id == app

unfoldable pub update_transaction : ℕ → ℕ → (Transaction → Transaction) → Tx (Unit {0})
update_transaction app id change =
    modify (λ db. record db {
      transactions = update_rows (is_transaction app id) change db.transactions;
    })
