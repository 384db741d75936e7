-- ===== src/Store/Holds.antt =====
-- What a request may have done to the tables, whichever way it ends: one rule for each way to build
-- an action.
use pactagent.Prelude.{◌≡◌, refl, Bool, true, false, Option, none, some, if◌then◌else◌}
use pactagent.Errors.{Error, Result, ok, err}
use pactagent.Store.Tx.{Db, Tx}
use pactagent.Store.Action.{
  Action, return, throw, committed_or_rolled_back, transaction, handled, catch, call, or_else,
  write, proceed, attempt, ◌>>=◌,
}
use pactagent.Store.Respects.{Keeping, Respects}

pub record Holds {A : Type 0} (k : Keeping) (m : Action A) : Type 0 where
  pub at : (db : Db) → k.rel db (m db).1

settled_at :
    {A : Type 0} (k : Keeping) (db : Db) (r : Result (A × Db))
    → ((a : A) (d : Db) → r ≡ ok (a, d) → k.rel db d)
    → k.rel db (committed_or_rolled_back r db).1
settled_at k db (ok (a, d)) h = h a d refl
settled_at k db (err e) h = k.reflexive db

module _ {A : Type 0} {k : Keeping} where
  pub Holds-return : (a : A) → Holds k (return a)
  unfolding return
  Holds-return a = record { at = λ db. k.reflexive db }

  pub Holds-throw : (e : Error) → Holds k (throw {A = A} e)
  unfolding throw
  Holds-throw e = record { at = λ db. k.reflexive db }

  pub Holds-call : (r : Result A) → Holds k (call r)
  unfolding call
  Holds-call r = record { at = λ db. k.reflexive db }

  -- Something that is read out of the tables.
  pub Holds-read : (f : Db → Result A) → Holds k (λ db. (f db, db))
  Holds-read f = record { at = λ db. k.reflexive db }

  pub Holds-transaction : (m : Tx A) → Respects k m → Holds k (transaction m)
  unfolding transaction
  Holds-transaction m h = record { at = λ db. settled_at k db (m db) λ a d e. h.at db a d e }

  pub Holds-or_else : (o : Option A) (m : Action A) → Holds k m → Holds k (or_else o m)
  unfolding or_else
  Holds-or_else (some a) m h = record { at = λ db. k.reflexive db }
  Holds-or_else none m h = record { at = λ db. h.at db }

  handled_at :
      (r : Result A) (handler : Error → Action A)
      → ((e : Error) → Holds k (handler e))
      → (db : Db) → k.rel db (handled r handler db).1
  handled_at (ok a) handler h db = k.reflexive db
  handled_at (err e) handler h db = (h e).at db

  pub Holds-catch :
      (m : Action A) (handler : Error → Action A)
      → Holds k m
      → ((e : Error) → Holds k (handler e))
      → Holds k (catch m handler)
  unfolding catch
  Holds-catch m handler hm hh = record {
    at = λ db. k.transitive db (m db).1 _ (hm.at db) (handled_at (m db).0 handler hh (m db).1);
  }

  pub Holds-if : (b : Bool) (m n : Action A) → Holds k m → Holds k n → Holds k (if b then m else n)
  Holds-if true m n hm hn = hm
  Holds-if false m n hm hn = hn

pub Holds-write : {k : Keeping} (f : Db → Db) → ((db : Db) → k.rel db (f db)) → Holds k (write f)
unfolding write
Holds-write f h = record { at = h }

module _ {A B : Type 0} {k : Keeping} where
  proceed_at :
      (r : Result A) (f : A → Action B)
      → ((a : A) → Holds k (f a))
      → (db : Db) → k.rel db (proceed r f db).1
  proceed_at (ok a) f h db = (h a).at db
  proceed_at (err e) f h db = k.reflexive db

  pub Holds-bind :
      (m : Action A) (f : A → Action B) → Holds k m → ((a : A) → Holds k (f a)) → Holds k (m >>= f)
  unfolding ◌>>=◌
  Holds-bind m f hm hf = record {
    at = λ db. k.transitive db (m db).1 _ (hm.at db) (proceed_at (m db).0 f hf (m db).1);
  }

  -- What follows a check may rely on what was checked.
  pub Holds-check :
      (r : Result A) (f : A → Action B)
      → ((a : A) → r ≡ ok a → Holds k (f a))
      → Holds k (call r >>= f)
  unfolding ◌>>=◌ call
  Holds-check (ok a) f h = record { at = λ db. (h a refl).at db }
  Holds-check (err e) f h = record { at = λ db. k.reflexive db }

  pub Holds-attempt :
      (m : Action A) (f : Result A → Action B)
      → Holds k m
      → ((r : Result A) → Holds k (f r))
      → Holds k (attempt m f)
  unfolding attempt
  Holds-attempt m f hm hf = record {
    at = λ db. k.transitive db (m db).1 _ (hm.at db) ((hf (m db).0).at (m db).1);
  }

pub ruleset holds_rules = (
  Holds-return, Holds-throw, Holds-call, Holds-or_else, Holds-catch, Holds-if, Holds-bind,
  Holds-attempt, Holds-transaction,
)

-- A relation that follows from another is kept where the other is.
pub Holds-weaken :
    {A : Type 0} {k l : Keeping} {m : Action A}
    → ((before after : Db) → k.rel before after → l.rel before after)
    → Holds k m
    → Holds l m
Holds-weaken h r = record { at = λ db. h db _ (r.at db) }
