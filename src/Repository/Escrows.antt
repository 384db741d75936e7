-- ===== src/Repository/Escrows.antt =====
-- server/src/modules/escrows/escrow.repository.ts.
use pactagent.Prelude.{
  ℕ, Bool, true, false, ◌&&◌, Option, none, some, List, [], ◌∷◌, nat_eq, option_eq, ◌==◌,
  find_first, update_rows, count_rows, is_some,
}
use pactagent.Errors.{unique_violation, reject_if}
use pactagent.Lifecycle.Escrow.{EscrowStatus, escrow_eq}
use pactagent.Store.Rows.{
  Text, Escrow, Rail, Network, Transaction, TransactionType, transaction_type_eq,
}
use pactagent.Store.Tx.{Tx, pure, lift, reads, modify, new_id, ◌>>=◌, ◌>>◌}

-- `CreateEscrowInput`
pub record CreateEscrowInput : Type 0 where
  pub agreement_id : ℕ
  pub milestone_id : Option ℕ
  pub amount : Text
  pub currency : Text
  pub rail : Rail
  pub network : Network
  pub client_lock_script : Option Text
  pub worker_lock_script : Option Text
  pub refund_timeout_since : Option Text

-- `['released', 'refunded'].includes(status)`
abbrev pub is_terminal : EscrowStatus → Bool
is_terminal EscrowStatus.released = true
is_terminal EscrowStatus.refunded = true
is_terminal _ = false

-- The eight words that keep a settlement scope reserved.
abbrev pub is_active : EscrowStatus → Bool
is_active EscrowStatus.not_created = true
is_active EscrowStatus.awaiting_funding = true
is_active EscrowStatus.funding_detected = true
is_active EscrowStatus.funded = true
is_active EscrowStatus.release_pending = true
is_active EscrowStatus.refund_pending = true
is_active EscrowStatus.reconciliation_required = true
is_active EscrowStatus.failed = true
is_active _ = false

abbrev pub is_escrow : ℕ → ℕ → Escrow → Bool
is_escrow app id row = row.id == id && row.app_id == app

unfoldable pub find_escrow_for_app : ℕ → ℕ → Tx (Option Escrow)
find_escrow_for_app app id = reads (λ db. find_first (is_escrow app id) db.escrows)

abbrev pub in_scope : ℕ → ℕ → Option ℕ → Escrow → Bool
in_scope app agreement milestone row =
    row.app_id == app && row.agreement_id == agreement && row.milestone_id == milestone

abbrev pub is_terminal_for_agreement : ℕ → ℕ → Escrow → Bool
is_terminal_for_agreement app agreement row =
    in_scope app agreement none row && is_terminal row.status

unfoldable pub find_terminal_escrow_for_agreement : ℕ → ℕ → Tx (Option Escrow)
find_terminal_escrow_for_agreement app agreement =
    reads (λ db. find_first (is_terminal_for_agreement app agreement) db.escrows)

abbrev pub is_terminal_for_milestone : ℕ → ℕ → Escrow → Bool
is_terminal_for_milestone app milestone row =
    row.app_id == app && row.milestone_id == some milestone && is_terminal row.status

unfoldable pub find_terminal_escrow_for_milestone : ℕ → ℕ → Tx (Option Escrow)
find_terminal_escrow_for_milestone app milestone =
    reads (λ db. find_first (is_terminal_for_milestone app milestone) db.escrows)

abbrev pub is_active_in_scope : ℕ → ℕ → Option ℕ → Escrow → Bool
is_active_in_scope app agreement milestone row =
    in_scope app agreement milestone row && is_active row.status

unfoldable pub find_active_escrow_for_scope : ℕ → ℕ → Option ℕ → Tx (Option Escrow)
find_active_escrow_for_scope app agreement milestone =
    reads (λ db. find_first (is_active_in_scope app agreement milestone) db.escrows)

abbrev pub new_escrow : ℕ → CreateEscrowInput → ℕ → Escrow
new_escrow app input id = record {
  id = id;
  app_id = app;
  agreement_id = input.agreement_id;
  milestone_id = input.milestone_id;
  amount = input.amount;
  currency = input.currency;
  rail = input.rail;
  network = input.network;
  status = EscrowStatus.not_created;
  lock_address = none;
  lock_tx_hash = none;
  lock_output_index = none;
  lock_script_json = none;
  client_lock_script_json = input.client_lock_script;
  worker_lock_script_json = input.worker_lock_script;
  cell_data = none;
  contract_version = none;
  refund_timeout_since = input.refund_timeout_since;
  release_tx_hash = none;
  refund_tx_hash = none;
}

-- `escrow.create`, under the partial unique indexes on active scopes.
unfoldable pub create_escrow : ℕ → CreateEscrowInput → Tx Escrow
create_escrow app input = do
  taken ← reads (λ db.
      is_some
        (find_first (is_active_in_scope app input.agreement_id input.milestone_id) db.escrows))
  lift (reject_if taken unique_violation)
  id ← new_id
  modify (λ db. record db { escrows = new_escrow app input id ∷ db.escrows })
  pure (new_escrow app input id)

abbrev pub is_escrow_in : ℕ → ℕ → EscrowStatus → Escrow → Bool
is_escrow_in app id status row = is_escrow app id row && row.status == status

-- `updateMany` under the expected status; the result is the number of rows.
unfoldable pub transition_escrow_status : ℕ → ℕ → EscrowStatus → (Escrow → Escrow) → Tx ℕ
transition_escrow_status app id from change = do
  count ← reads (λ db. count_rows (is_escrow_in app id from) db.escrows)
  modify (λ db. record db { escrows = update_rows (is_escrow_in app id from) change db.escrows })
  pure count

abbrev list_escrows : ℕ → ℕ → List Escrow → List Escrow
list_escrows app agreement [] = []
list_escrows app agreement (x ∷ xs) =
    let rest = list_escrows app agreement xs in
    elim (x.app_id == app && x.agreement_id == agreement) [ true ↦ x ∷ rest | false ↦ rest ]

unfoldable pub list_escrows_for_agreement : ℕ → ℕ → Tx (List Escrow)
list_escrows_for_agreement app agreement = reads (λ db. list_escrows app agreement db.escrows)

abbrev pub is_transaction_of : ℕ → ℕ → TransactionType → Transaction → Bool
is_transaction_of app escrow type row =
    row.app_id == app && row.escrow_id == some escrow && row.type == type

unfoldable pub find_transaction_for_escrow_type : ℕ → ℕ → TransactionType → Tx (Option Transaction)
find_transaction_for_escrow_type app escrow type =
    reads (λ db. find_first (is_transaction_of app escrow type) db.transactions)
