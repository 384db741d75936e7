-- ===== src/Store/Action.antt =====
-- What a request does outside a transaction: a sequence of commits, of which those made before an
-- error stay. So the tables come back beside the error too.
use pactagent.Prelude.{Option, none, some}
use pactagent.Errors.{Error, Result, ok, err}
use pactagent.Store.Tx.{Db, Tx}

abbrev pub Action : Type 0 → Type 0
Action A = Db → Result A × Db

module _ {A : Type 0} where
  unfoldable pub return : A → Action A
  return a db = (ok a, db)

  unfoldable pub throw : Error → Action A
  throw e db = (err e, db)

  abbrev pub committed_or_rolled_back : Result (A × Db) → Db → Result A × Db
  committed_or_rolled_back (ok (a, db')) db = (ok a, db')
  committed_or_rolled_back (err e) db = (err e, db)

  -- `prisma.$transaction`
  unfoldable pub transaction : Tx A → Action A
  transaction m db = committed_or_rolled_back (m db) db

  abbrev pub handled : Result A → (Error → Action A) → Action A
  handled (ok a) handler db = (ok a, db)
  handled (err e) handler db = handler e db

  -- `try { … } catch (error) { … }`
  unfoldable pub catch : Action A → (Error → Action A) → Action A
  catch m handler db = let (r, db') = m db in handled r handler db'

  -- A call that touches no table.
  unfoldable pub call : Result A → Action A
  call r db = (r, db)

  -- `if (replay) return replay.body.data;`
  unfoldable pub or_else : Option A → Action A → Action A
  or_else (some a) m db = (ok a, db)
  or_else none m db = m db

unfoldable pub write : (Db → Db) → Action (Unit {0})
write f db = (ok tt, f db)

module _ {A B : Type 0} where
  abbrev pub proceed : Result A → (A → Action B) → Action B
  proceed (ok a) f db = f a db
  proceed (err e) f db = (err e, db)

  -- A step whose outcome, error or not, decides what follows.
  unfoldable pub attempt : Action A → (Result A → Action B) → Action B
  attempt m f db = let (r, db') = m db in f r db'

  infixl 5 ◌>>=◌ ◌>>◌
  unfoldable pub ◌>>=◌ : Action A → (A → Action B) → Action B
  unfolding return throw transaction catch call or_else write attempt
  ◌>>=◌ m f db = let (r, db') = m db in proceed r f db'

  abbrev pub ◌>>◌ : Action A → Action B → Action B
  m >> k = m >>= λ _. k
