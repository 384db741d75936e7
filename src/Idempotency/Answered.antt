-- ===== src/Idempotency/Answered.antt =====
-- A request whose key is stored with a response, and what asking again gives.
use pactagent.Prelude.{ℕ, ◌≡◌, false, some}
use pactagent.Errors.{ok}
use pactagent.Store.Rows.{Text, text_eq, text_beq_iff, IdempotencyKey, IdempotencyStatus, Resource}
use pactagent.Store.Tx.{Db}
use pactagent.Store.Action.{Action, or_else, ◌>>=◌}
use pactagent.Repository.Idempotency.{Context, find_idempotency_key, is_expired}
use pactagent.Idempotency.{Request, header_key, expire_then_find, replay_of, get_idempotency_replay}

-- The key of the request is stored with this response, for the same method, path and body, and has
-- not expired.
pub record Answered (app : ℕ) (req : Request) (body : Resource) (db : Db) : Type 0 where
  pub key : Text
  pub header : header_key req.idempotency_key ≡ ok key
  pub row : IdempotencyKey
  pub found : find_idempotency_key app key db ≡ some row
  pub fresh : is_expired req.now row ≡ false
  pub same : row.request_hash ≡ req.request_hash
  pub completed : row.status ≡ IdempotencyStatus.completed
  pub code : ℕ
  pub status : row.response_status ≡ some code
  pub stored : row.response_body ≡ some body

module _ (app : ℕ) (req : Request) (body : Resource) (db : Db) (a : Answered app req body db) where
  existing :
      expire_then_find app a.key req.now (find_idempotency_key app a.key db) db ≡ (some a.row, db)
  existing = rw (a.found, a.fresh)

  replayed : replay_of req.request_hash (some a.row) ≡ ok (some body)
  replayed =
      rw (
        (text_beq_iff a.row.request_hash req.request_hash).1 a.same,
        a.completed,
        a.status,
        a.stored,
      )

  pub replay_found :
      get_idempotency_replay app req db
      ≡ (ok (record { key = a.key; request_hash = req.request_hash }, some body), db)
  unfolding get_idempotency_replay ◌>>=◌
  replay_found = rw (a.header, existing, replayed)

  pub then_replay :
      (next : Context → Action Resource)
      → (get_idempotency_replay app req >>= λ found. or_else found.1 (next found.0)) db
        ≡ (ok body, db)
  unfolding ◌>>=◌ or_else
  then_replay next = rw replay_found
