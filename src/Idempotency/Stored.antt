-- ===== src/Idempotency/Stored.antt =====
-- Whoever has stored a response, or has found one, leaves it where the next request finds it.
use pactagent.Prelude.{
  ℕ, ◌<◌, ◌≡◌, refl, sym, subst, Bool, true, false, ◌&&◌, nat_eq, arith, Option, none, some,
  is_some, List, [], ◌∷◌, find_first, update_rows, delete_rows,
}
use pactagent.Errors.{Result, ok, err, require, reject_if, internal, invalid_request}
use pactagent.Store.Rows.{text_eq, IdempotencyKey, Resource}
use pactagent.Store.Tx.{Db, continue, pure, lift, reads, modify, ◌>>=◌, ◌>>◌}
use pactagent.Store.Respects.{committed, err≢ok}
use pactagent.Store.Gives.{Ensures}
use pactagent.Repository.Idempotency.{
  Env, Context, find_idempotency_key, has_key, completed_key, store_idempotent_response,
}
use pactagent.Idempotency.{Request, header_key}
use pactagent.Idempotency.Answered.{Answered}

module _ (test : IdempotencyKey → Bool) where
  pub found-test :
      (xs : List IdempotencyKey) (x : IdempotencyKey) → find_first test xs ≡ some x → test x ≡ true
  unfolding find_first
  found-test [] x h = cc
  found-test (y ∷ ys) x h = ground (arith, found-test ys x)

  updated_first :
      (change : IdempotencyKey → IdempotencyKey) (xs : List IdempotencyKey) (x : IdempotencyKey)
      → ((y : IdempotencyKey) → test (change y) ≡ test y)
      → find_first test xs ≡ some x
      → find_first test (update_rows test change xs) ≡ some (change x)
  unfolding find_first update_rows
  updated_first change [] x same h = cc
  updated_first change (y ∷ ys) x same h = ground (arith, same y, updated_first change ys x same)

  -- After the expired rows have been deleted, the first row is not expired.
  pub left_first :
      (old : IdempotencyKey → Bool) (xs : List IdempotencyKey) (x : IdempotencyKey)
      → find_first test (delete_rows (λ y. test y && old y) xs) ≡ some x
      → old x ≡ false
  unfolding find_first delete_rows
  left_first old [] x h = cc
  left_first old (y ∷ ys) x h = ground (arith, left_first old ys x)

-- The context that a request's replay check has made.
pub record Checked (req : Request) (context : Context) : Type 0 where
  pub header : header_key req.idempotency_key ≡ ok context.key
  pub hash : context.request_hash ≡ req.request_hash

module _ (env : Env) (app : ℕ) (req : Request) (context : Context) (code : ℕ)
    (body : Resource) where
  stored_row :
      (db : Db) (row : IdempotencyKey)
      → Checked req context
      → 0 < env.idempotency_retention_ms
      → find_idempotency_key app context.key db ≡ some row
      → Answered app req body (record db {
        idempotency_keys =
            update_rows
              (has_key app context.key)
              (completed_key env context code req.now body)
              db.idempotency_keys;
      })
  stored_row db row c keep found = record {
    key = context.key;
    header = c.header;
    row = completed_key env context code req.now body row;
    found = updated_first (has_key app context.key) _ db.idempotency_keys row (λ y. refl) found;
    fresh = ground arith;
    same = c.hash;
    completed = refl;
    code = code;
    status = refl;
    stored = refl;
  }

  stored_found :
      (found : Option IdempotencyKey) (db d : Db)
      → find_idempotency_key app context.key db ≡ found
      → Checked req context
      → 0 < env.idempotency_retention_ms
      → (do
        lift (require (is_some found) (internal "P2025"))
        modify (λ x. record x {
          idempotency_keys =
              update_rows
                (has_key app context.key)
                (completed_key env context code req.now body)
                x.idempotency_keys;
        }))
          db
        ≡ ok (tt, d)
      → Answered app req body d
  unfolding ◌>>=◌
  stored_found none db d f c keep h = absurd (err≢ok h)
  stored_found (some row) db d f c keep h =
      subst (λ x. Answered app req body x) (committed h) (stored_row db row c keep f)

  stored_at :
      (large : Bool) (db d : Db)
      → Checked req context
      → 0 < env.idempotency_retention_ms
      → (do
        lift (reject_if large (invalid_request "idempotency_response_too_large"))
        present ← reads (λ x. is_some (find_idempotency_key app context.key x))
        lift (require present (internal "P2025"))
        modify (λ x. record x {
          idempotency_keys =
              update_rows
                (has_key app context.key)
                (completed_key env context code req.now body)
                x.idempotency_keys;
        }))
          db
        ≡ ok (tt, d)
      → Answered app req body d
  unfolding ◌>>=◌
  stored_at true db d c keep h = absurd (err≢ok h)
  stored_at false db d c keep h =
      stored_found (find_idempotency_key app context.key db) db d refl c keep h

  then_pure :
      (r : Result (Unit {0} × Db)) (b : Resource) (d : Db)
      → continue r (λ _. pure body) ≡ ok (b, d)
      → (b ≡ body) × (r ≡ ok (tt, d))
  unfolding pure
  then_pure (ok (tt, x)) b d h = (cc, cc)
  then_pure (err e) b d h = absurd (err≢ok h)

  -- A transaction that ends by storing its response.
  pub Ensures-stored :
      Checked req context
      → 0 < env.idempotency_retention_ms
      → Ensures
          (Answered app req)
          (store_idempotent_response env app context code req.now body >> pure body)
  unfolding ◌>>=◌ store_idempotent_response
  Ensures-stored c keep = record {
    at = λ db b d h.
        let last =
          then_pure (store_idempotent_response env app context code req.now body db) b d h in
        subst (λ x. Answered app req x d) (sym last.0) (stored_at _ db d c keep last.1);
  }
