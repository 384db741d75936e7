-- ===== src/Idempotency.antt =====
-- server/src/common/idempotency/idempotency.service.ts: the replay of a stored response, and a
-- mutation that runs once for its key.
pub mod Answered
pub mod Stored
pub mod Found
use pactagent.Prelude.{
  ℕ, Bool, true, false, ◌==◌, Option, none, some, nat_eq, ltb, length, if◌then◌else◌,
}
use pactagent.Errors.{Error, Result, ok, err, invalid_request, conflict, is_unique_constraint_error}
use pactagent.Store.Rows.{Text, text_eq, IdempotencyKey, IdempotencyStatus, Resource, ActorId}
use pactagent.Store.Tx
use pactagent.Store.Tx.{Db, Tx}
use pactagent.Store.Action.{
  Action, attempt, return, throw, transaction, catch, call, or_else, write, ◌>>=◌, ◌>>◌,
}
use pactagent.Repository.Idempotency.{
  Env, Context, find_idempotency_key, is_expired, delete_expired_idempotency_key,
  reserve_idempotent_request, store_idempotent_response, clear_pending_idempotent_request,
}

-- What a handler reads of the HTTP request: the API key that acts, the header, the body. The header is trimmed; the hash stands for the method,
-- the path and the sorted body (`createRequestHash`); `now` is one clock reading for the request.
pub record Request : Type 0 where
  pub actor : Option ActorId
  pub idempotency_key : Option Text
  pub request_hash : Text
  pub now : ℕ

-- The header's checks: missing or empty, and longer than 200 characters.
abbrev pub header_key : Option Text → Result Text
header_key none = err (invalid_request "idempotency_key_required")
header_key (some key) =
    if length key == 0
    then err (invalid_request "idempotency_key_required")
    else if ltb 200 (length key)
    then err (invalid_request "idempotency_key_too_long")
    else ok key

-- The stored row is deleted if it has expired, and read again.
abbrev pub expire_then_find : ℕ → Text → ℕ → Option IdempotencyKey → Db → Option IdempotencyKey × Db
expire_then_find app key now none db = (none, db)
expire_then_find app key now (some row) db =
    if is_expired now row
    then (
      find_idempotency_key app key (delete_expired_idempotency_key app key now db),
      delete_expired_idempotency_key app key now db,
    )
    else (some row, db)

abbrev pub completed_body :
    IdempotencyStatus → Option ℕ → Option Resource → Result (Option Resource)
completed_body IdempotencyStatus.completed (some code) (some body) = ok (some body)
completed_body _ _ _ = err (conflict "idempotency_key_in_progress")

abbrev pub replay_of : Text → Option IdempotencyKey → Result (Option Resource)
replay_of hash none = ok none
replay_of hash (some row) =
    if row.request_hash == hash
    then completed_body row.status row.response_status row.response_body
    else err (conflict "idempotency_key_conflict")

-- `getIdempotencyReplay`
unfoldable pub get_idempotency_replay : ℕ → Request → Action (Context × Option Resource)
unfolding delete_expired_idempotency_key
get_idempotency_replay app req = do
  key ← call (header_key req.idempotency_key)
  existing ← λ db.
      let (row, db') = expire_then_find app key req.now (find_idempotency_key app key db) db in
      (ok row, db')
  replay ← call (replay_of req.request_hash existing)
  return (record { key = key; request_hash = req.request_hash }, replay)

abbrev pub clear_and_throw : ℕ → Context → Bool → Error → Action Resource
clear_and_throw app context true error = do
  write (clear_pending_idempotent_request app context)
  throw error
clear_and_throw app context false error = throw error

-- The outer `catch`: after a race the other request's response is replayed; else a reservation
-- of this request is cleared, and the error goes on.
unfoldable pub recover_idempotent : ℕ → Request → Context → Bool → Error → Action Resource
recover_idempotent app req context reserved error =
    if is_unique_constraint_error error
    then (do
      (_, replay) ← get_idempotency_replay app req
      or_else replay (clear_and_throw app context reserved error))
    else clear_and_throw app context reserved error

-- The second transaction of `runIdempotentTransaction`: the work, and its stored response.
unfoldable pub run_and_store :
    Env → ℕ → Request → ℕ → Context → (Context → Tx Resource) → Tx Resource
unfolding store_idempotent_response
run_and_store env app req status_code context run = Tx.◌>>=◌ (run context) λ result.
    Tx.◌>>=◌ (store_idempotent_response env app context status_code req.now result)
      λ _. Tx.pure result

-- The `try` once the reservation has been attempted: `reserved` is set only if it was committed.
abbrev pub once_reserved :
    Result (Unit {0}) → (Bool → Error → Action Resource) → Action Resource → Action Resource
once_reserved (ok _) handler work = catch work (handler true)
once_reserved (err e) handler work = handler false e

-- `runIdempotentTransaction`
unfoldable pub run_idempotent_transaction :
    Env → ℕ → Request → ℕ → (Context → Tx Resource) → Action Resource
unfolding get_idempotency_replay reserve_idempotent_request run_and_store recover_idempotent
run_idempotent_transaction env app req status_code run = do
  (context, replay) ← get_idempotency_replay app req
  or_else replay (
      attempt (transaction (reserve_idempotent_request env app context req.now)) λ reservation.
        once_reserved reservation (recover_idempotent app req context)
          (transaction (run_and_store env app req status_code context run)))
