-- ===== src/Idempotency/Found.antt =====
-- What the replay check of a request has found, and what a request that then answers has left.
use pactagent.Prelude.{
  ℕ, ◌≡◌, refl, ◌∙◌, subst, ap, Bool, true, false, Option, none, some, if◌then◌else◌,
}
use pactagent.Errors.{Result, ok, err, conflict}
use pactagent.Store.Rows.{Text, text_eq, text_beq_iff, IdempotencyKey, IdempotencyStatus, Resource}
use pactagent.Store.Tx.{Db}
use pactagent.Store.Action.{Action, or_else, call, return, proceed, ◌>>=◌}
use pactagent.Store.Gives.{Gives, failed_pair, both, paired}
use pactagent.Repository.Idempotency.{
  Context, find_idempotency_key, is_expired, has_key, delete_expired_idempotency_key,
}
use pactagent.Idempotency.{
  Request, header_key, expire_then_find, completed_body, replay_of, get_idempotency_replay,
}
use pactagent.Idempotency.Answered.{Answered}
use pactagent.Idempotency.Stored.{Checked, left_first}

module _ {A B : Type 0} where
  proceeded :
      (r : Result A) (f : A → Action B) (db : Db) (b : B) (d : Db)
      → proceed r f db ≡ (ok b, d)
      → (a : A) × ((r ≡ ok a) × (f a db ≡ (ok b, d)))
  proceeded (ok a) f db b d h = (a, (refl, h))
  proceeded (err e) f db b d h = absurd (failed_pair h)

  -- The two steps of a sequence that answers.
  pub bound :
      (m : Action A) (f : A → Action B) (db : Db) (b : B) (d : Db)
      → (m >>= f) db ≡ (ok b, d)
      → (a : A) × (((m db).0 ≡ ok a) × (f a (m db).1 ≡ (ok b, d)))
  unfolding ◌>>=◌
  bound m f db b d h = proceeded (m db).0 f (m db).1 b d h

some_same : {A : Type 0} {a b : A} → some a ≡ some b → a ≡ b
some_same h = cc

ok_same : {A : Type 0} {a b : A} → ◌≡◌ {A = Result A} (ok a) (ok b) → a ≡ b
ok_same h = cc

-- A stored row that answers.
record Answers (hash : Text) (body : Resource) (row : IdempotencyKey) : Type 0 where
  same : row.request_hash ≡ hash
  completed : row.status ≡ IdempotencyStatus.completed
  code : ℕ
  status : row.response_status ≡ some code
  stored : row.response_body ≡ some body

completed_row :
    (s : IdempotencyStatus) (c : Option ℕ) (b : Option Resource) (body : Resource)
    → completed_body s c b ≡ ok (some body)
    → (s ≡ IdempotencyStatus.completed) × (((code : ℕ) × (c ≡ some code)) × (b ≡ some body))
completed_row IdempotencyStatus.completed (some code) (some b) body h = (refl, ((code, refl), cc))
completed_row IdempotencyStatus.completed (some code) none body h = cc
completed_row IdempotencyStatus.completed none b body h = cc
completed_row IdempotencyStatus.pending c b body h = cc

replay_case :
    (hash : Text) (body : Resource) (row : IdempotencyKey) (b : Bool)
    → (b ≡ true → row.request_hash ≡ hash)
    → (if b
        then completed_body row.status row.response_status row.response_body
        else err (conflict "idempotency_key_conflict"))
      ≡ ok (some body)
    → Answers hash body row
replay_case hash body row true e h =
    let c = completed_row row.status row.response_status row.response_body body h in
    record { same = e refl; completed = c.0; code = c.1.0.0; status = c.1.0.1; stored = c.1.1 }
replay_case hash body row false e h = cc

replay_row :
    (hash : Text) (o : Option IdempotencyKey) (body : Resource)
    → replay_of hash o ≡ ok (some body)
    → (row : IdempotencyKey) × ((o ≡ some row) × Answers hash body row)
replay_row hash none body h = cc
replay_row hash (some row) body h =
    (row, (refl, replay_case hash body row _ (text_beq_iff row.request_hash hash).0 h))

abbrev read_again : ℕ → Text → ℕ → Db → IdempotencyKey → Bool → Option IdempotencyKey × Db
read_again app key now db r b =
    if b
    then (
      find_idempotency_key app key (delete_expired_idempotency_key app key now db),
      delete_expired_idempotency_key app key now db,
    )
    else (some r, db)

expired_case :
    (app : ℕ) (key : Text) (now : ℕ) (db : Db) (r row : IdempotencyKey) (b : Bool)
    → is_expired now r ≡ b
    → find_idempotency_key app key db ≡ some r
    → (read_again app key now db r b).0 ≡ some row
    → (find_idempotency_key app key (read_again app key now db r b).1 ≡ some row)
      × (is_expired now row ≡ false)
unfolding delete_expired_idempotency_key
expired_case app key now db r row true e f h =
    (h, left_first (has_key app key) (is_expired now) db.idempotency_keys row h)
expired_case app key now db r row false e f h =
    (f ∙ h, subst (λ x. is_expired now x ≡ false) (some_same h) e)

unexpired :
    (app : ℕ) (key : Text) (now : ℕ) (db : Db) (found : Option IdempotencyKey)
    (row : IdempotencyKey)
    → find_idempotency_key app key db ≡ found
    → (expire_then_find app key now found db).0 ≡ some row
    → (find_idempotency_key app key (expire_then_find app key now found db).1 ≡ some row)
      × (is_expired now row ≡ false)
unexpired app key now db none row f h = cc
unexpired app key now db (some r) row f h = expired_case app key now db r row _ refl f h

module _ (app : ℕ) (req : Request) where
  answer_of :
      (db : Db) (key : Text) (existing : Option IdempotencyKey) (body : Resource)
      → header_key req.idempotency_key ≡ ok key
      → (expire_then_find app key req.now (find_idempotency_key app key db) db).0 ≡ existing
      → replay_of req.request_hash existing ≡ ok (some body)
      → Answered app req body
          (expire_then_find app key req.now (find_idempotency_key app key db) db).1
  answer_of db key existing body header e h =
      let found = replay_row req.request_hash existing body h in
      let left =
        unexpired app key req.now db (find_idempotency_key app key db) found.0 refl
          (e ∙ found.1.0) in
      record {
        key = key;
        header = header;
        row = found.0;
        found = left.0;
        fresh = left.1;
        same = found.1.1.same;
        completed = found.1.1.completed;
        code = found.1.1.code;
        status = found.1.1.status;
        stored = found.1.1.stored;
      }

  -- A replay that is found is an answer that stays, and the context is the request's.
  replay_gives :
      (db d : Db) (found : Context × Option Resource)
      → get_idempotency_replay app req db ≡ (ok found, d)
      → Checked req found.0 × ((body : Resource) → found.1 ≡ some body → Answered app req body d)
  unfolding get_idempotency_replay call return
  replay_gives db d found h =
      let header = bound _ _ db found d h in
      let existing = bound _ _ db found d header.1.1 in
      let replay = bound _ _ _ found d existing.1.1 in
      let last = both replay.1.1 in
      subst (λ p. Checked req p.0 × ((body : Resource) → p.1 ≡ some body → Answered app req body d))
        last.0
        (
          record { header = header.1.0; hash = refl },
          λ body e.
              subst (λ x. Answered app req body x) last.1
                (answer_of db header.0 existing.0 body header.1.0 (ok_same existing.1.0)
                  (replay.1.0 ∙ ap (λ x. ok x) e)),
        )

  or_else-Gives :
      (o : Option Resource) (m : Action Resource) (db : Db) (body : Resource) (d : Db)
      → ((b : Resource) → o ≡ some b → Answered app req b db)
      → Gives (λ b x. Answered app req b x) m
      → or_else o m db ≡ (ok body, d)
      → Answered app req body d
  unfolding or_else
  or_else-Gives none m db body d h g e = g.at db body d e
  or_else-Gives (some b) m db body d h g e =
      subst (λ x. Answered app req body x) (both e).1
        (subst (λ x. Answered app req x db) (both e).0 (h b refl))

  -- A request that replays what it finds, and else goes on to what leaves an answer.
  pub Gives-replay :
      (next : Context → Action Resource)
      → ((context : Context)
          → Checked req context
          → Gives (λ b x. Answered app req b x) (next context))
      → Gives
          (λ b x. Answered app req b x)
          (get_idempotency_replay app req >>= λ found. or_else found.1 (next found.0))
  Gives-replay next h = record {
    at = λ db body d e.
        let step = bound (get_idempotency_replay app req) _ db body d e in
        let given =
          replay_gives db (get_idempotency_replay app req db).1 step.0 (paired step.1.0) in
        or_else-Gives step.0.1 (next step.0.0) _ body d given.1 (h step.0.0 given.0) step.1.1;
  }
