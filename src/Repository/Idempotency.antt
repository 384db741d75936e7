-- ===== src/Repository/Idempotency.antt =====
-- server/src/common/idempotency/idempotency.repository.ts, and the functions of
-- idempotency.service.ts that run inside a transaction.
use pactagent.Prelude.{
  ℕ, ◌+◌, Bool, true, false, ◌&&◌, ◌||◌, Option, none, some, ◌∷◌, nat_eq, ◌==◌, leb, ltb,
  find_first, update_rows, delete_rows, is_some,
}
use pactagent.Errors.{unique_violation, invalid_request, internal, reject_if, require}
use pactagent.Store.Rows.{Text, text_eq, IdempotencyKey, IdempotencyStatus, Resource}
use pactagent.Store.Tx.{Db, Tx, lift, reads, modify, ◌>>=◌, ◌>>◌}

-- The configuration and the JSON library, as far as the services rely on them.
pub record Env : Type 0 where
  pub idempotency_retention_ms : ℕ
  pub idempotency_processing_lease_ms : ℕ
  pub idempotency_max_response_bytes : ℕ
  -- The length of the stored JSON text.
  pub response_bytes : Resource → ℕ
  pub ckb_confirmations : ℕ

-- `IdempotencyContext`
pub record Context : Type 0 where
  pub key : Text
  pub request_hash : Text

abbrev pub has_key : ℕ → Text → IdempotencyKey → Bool
has_key app key row = row.app_id == app && row.key == key

abbrev pub is_pending : IdempotencyStatus → Bool
is_pending IdempotencyStatus.pending = true
is_pending IdempotencyStatus.completed = false

-- `expiresAt <= now`, or pending with a processing lease that has run out.
abbrev pub is_expired : ℕ → IdempotencyKey → Bool
is_expired now row =
    leb row.expires_at now || (is_pending row.status && leb row.processing_expires_at now)

abbrev pub find_idempotency_key : ℕ → Text → Db → Option IdempotencyKey
find_idempotency_key app key db = find_first (has_key app key) db.idempotency_keys

abbrev pub pending_key : Env → ℕ → Context → ℕ → IdempotencyKey
pending_key env app context now = record {
  app_id = app;
  key = context.key;
  request_hash = context.request_hash;
  status = IdempotencyStatus.pending;
  processing_expires_at = now + env.idempotency_processing_lease_ms;
  expires_at = now + env.idempotency_retention_ms;
  response_status = none;
  response_body = none;
}

-- `reserveIdempotentRequest`: `create`, under the unique index on (`appId`, `key`).
unfoldable pub reserve_idempotent_request : Env → ℕ → Context → ℕ → Tx (Unit {0})
reserve_idempotent_request env app context now = do
  taken ← reads (λ db. is_some (find_idempotency_key app context.key db))
  lift (reject_if taken unique_violation)
  modify
      (λ db. record db { idempotency_keys = pending_key env app context now ∷ db.idempotency_keys })

abbrev pub completed_key : Env → Context → ℕ → ℕ → Resource → IdempotencyKey → IdempotencyKey
completed_key env context status_code now body row = record row {
  request_hash = context.request_hash;
  status = IdempotencyStatus.completed;
  response_status = some status_code;
  response_body = some body;
  expires_at = now + env.idempotency_retention_ms;
}

-- `storeIdempotentResponse`: `update` of a row that must be there.
unfoldable pub store_idempotent_response : Env → ℕ → Context → ℕ → ℕ → Resource → Tx (Unit {0})
store_idempotent_response env app context status_code now body = do
  lift (
      reject_if (ltb env.idempotency_max_response_bytes (env.response_bytes body))
        (invalid_request "idempotency_response_too_large"))
  present ← reads (λ db. is_some (find_idempotency_key app context.key db))
  lift (require present (internal "P2025"))
  modify (λ db. record db {
    idempotency_keys =
        update_rows (has_key app context.key) (completed_key env context status_code now body)
          db.idempotency_keys;
  })

abbrev pub is_expired_key : ℕ → Text → ℕ → IdempotencyKey → Bool
is_expired_key app key now row = has_key app key row && is_expired now row

-- `deleteExpiredIdempotencyKey`
unfoldable pub delete_expired_idempotency_key : ℕ → Text → ℕ → Db → Db
delete_expired_idempotency_key app key now db = record db {
  idempotency_keys = delete_rows (is_expired_key app key now) db.idempotency_keys;
}

-- `cleanupExpiredIdempotencyKeys`
unfoldable pub cleanup_expired_idempotency_keys : ℕ → Db → Db
cleanup_expired_idempotency_keys now db = record db {
  idempotency_keys = delete_rows (is_expired now) db.idempotency_keys;
}

abbrev pub is_pending_key : ℕ → Context → IdempotencyKey → Bool
is_pending_key app context row =
    has_key app context.key row && row.request_hash == context.request_hash && is_pending row.status

-- `clearPendingIdempotentRequest`
unfoldable pub clear_pending_idempotent_request : ℕ → Context → Db → Db
clear_pending_idempotent_request app context db = record db {
  idempotency_keys = delete_rows (is_pending_key app context) db.idempotency_keys;
}
