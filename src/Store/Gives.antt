-- ===== src/Store/Gives.antt =====
-- What holds of a result and the tables beside it: a rule for each way to build a transaction or an
-- action, of which the last step alone matters.
use pactagent.Prelude.{◌≡◌, refl, subst, Bool, true, false, if◌then◌else◌}
use pactagent.Errors.{Error, Result, ok, err}
use pactagent.Store.Tx.{Db, Tx, continue}
use pactagent.Store.Tx
use pactagent.Store.Action.{
  Action, throw, committed_or_rolled_back, transaction, handled, catch, proceed, attempt, ◌>>=◌,
}
use pactagent.Store.Respects.{err≢ok}

-- A transaction that commits with a value ends in tables that the value fits.
pub record Ensures {A : Type 0} (P : A → Db → Type 0) (m : Tx A) : Type 0 where
  pub at : (db : Db) (a : A) (db' : Db) → m db ≡ ok (a, db') → P a db'

module _ {A B : Type 0} {P : B → Db → Type 0} where
  continued :
      (r : Result (A × Db)) (f : A → Tx B)
      → ((a : A) → Ensures P (f a))
      → (b : B) (db' : Db) → continue r f ≡ ok (b, db')
      → P b db'
  continued (ok (a, d)) f h b db' e = (h a).at d b db' e
  continued (err x) f h b db' e = absurd (err≢ok e)

  pub Ensures-bind :
      (m : Tx A) (f : A → Tx B) → ((a : A) → Ensures P (f a)) → Ensures P (Tx.◌>>=◌ m f)
  unfolding Tx.◌>>=◌
  Ensures-bind m f h = record { at = λ db b db' e. continued (m db) f h b db' e }

-- A request that answers with a value ends in tables that the value fits.
pub record Gives {A : Type 0} (P : A → Db → Type 0) (m : Action A) : Type 0 where
  pub at : (db : Db) (a : A) (db' : Db) → m db ≡ (ok a, db') → P a db'

pub failed_pair :
    {A : Type 0} {e : Error} {a : A} {x y : Db} → ◌≡◌ {A = Result A × Db} (err e, x) (ok a, y) → ⊥
failed_pair h = cc

pub both :
    {A : Type 0} {a b : A} {x y : Db}
    → ◌≡◌ {A = Result A × Db} (ok a, x) (ok b, y)
    → (a ≡ b) × (x ≡ y)
both h = (cc, cc)

pub paired : {A : Type 0} {p : Result A × Db} {a : A} → p.0 ≡ ok a → p ≡ (ok a, p.1)
paired h = cc

module _ {A : Type 0} {P : A → Db → Type 0} where
  pub Gives-throw : (e : Error) → Gives P (throw e)
  unfolding throw
  Gives-throw e = record { at = λ db a db' h. absurd (failed_pair h) }

  committed_gives :
      (r : Result (A × Db)) (db : Db)
      → ((a : A) (d : Db) → r ≡ ok (a, d) → P a d)
      → (a : A) (db' : Db) → committed_or_rolled_back r db ≡ (ok a, db')
      → P a db'
  committed_gives (ok (a, d)) db h b db' e =
      subst (λ x. P b x) (both e).1 (subst (λ x. P x d) (both e).0 (h a d refl))
  committed_gives (err x) db h b db' e = absurd (failed_pair e)

  pub Gives-transaction : (m : Tx A) → Ensures P m → Gives P (transaction m)
  unfolding transaction
  Gives-transaction m h = record {
    at = λ db a db' e. committed_gives (m db) db (λ b d x. h.at db b d x) a db' e;
  }

  handled_gives :
      (r : Result A) (handler : Error → Action A) (db : Db)
      → ((a : A) → r ≡ ok a → P a db)
      → ((e : Error) → Gives P (handler e))
      → (a : A) (db' : Db) → handled r handler db ≡ (ok a, db')
      → P a db'
  handled_gives (ok a) handler db h k b db' e =
      subst (λ x. P b x) (both e).1 (subst (λ x. P x db) (both e).0 (h a refl))
  handled_gives (err x) handler db h k b db' e = (k x).at db b db' e

  pub Gives-catch :
      (m : Action A) (handler : Error → Action A)
      → Gives P m
      → ((e : Error) → Gives P (handler e))
      → Gives P (catch m handler)
  unfolding catch
  Gives-catch m handler h k = record {
    at = λ db a db' e.
        handled_gives (m db).0 handler (m db).1 (λ b r. h.at db b (m db).1 (paired r)) k a db' e;
  }

  pub Gives-if : (b : Bool) (m n : Action A) → Gives P m → Gives P n → Gives P (if b then m else n)
  Gives-if true m n h k = h
  Gives-if false m n h k = k

module _ {A B : Type 0} {P : B → Db → Type 0} where
  proceed_gives :
      (r : Result A) (f : A → Action B) (db : Db)
      → ((a : A) → Gives P (f a))
      → (b : B) (db' : Db) → proceed r f db ≡ (ok b, db')
      → P b db'
  proceed_gives (ok a) f db h b db' e = (h a).at db b db' e
  proceed_gives (err x) f db h b db' e = absurd (failed_pair e)

  pub Gives-bind : (m : Action A) (f : A → Action B) → ((a : A) → Gives P (f a)) → Gives P (m >>= f)
  unfolding ◌>>=◌
  Gives-bind m f h = record { at = λ db b db' e. proceed_gives (m db).0 f (m db).1 h b db' e }

  pub Gives-attempt :
      (m : Action A) (f : Result A → Action B)
      → ((r : Result A) → Gives P (f r))
      → Gives P (attempt m f)
  unfolding attempt
  Gives-attempt m f h = record { at = λ db b db' e. (h (m db).0).at (m db).1 b db' e }
