-- ===== src/Store/At.antt =====
-- The rule for a sequence with what is known of the step before: the step's own equation.
use pactagent.Prelude.{◌≡◌, refl, sym, ◌∙◌, subst, Bool, true, false}
use pactagent.Errors.{Error, Result, ok, err, reject_if}
use pactagent.Store.Tx.{Db, Tx, lift, continue, ◌>>=◌}
use pactagent.Store.Respects.{Keeping, Respects, err≢ok}

-- A transaction keeps the relation from these tables on.
pub record RespectsAt {A : Type 0} (k : Keeping) (db : Db) (m : Tx A) : Type 0 where
  pub at : (a : A) (db' : Db) → m db ≡ ok (a, db') → k.rel db db'

pub at_each : {A : Type 0} {k : Keeping} {m : Tx A} → Respects k m → (db : Db) → RespectsAt k db m
at_each r db = record { at = λ a db' e. r.at db a db' e }

pub each_at : {A : Type 0} {k : Keeping} {m : Tx A} → ((db : Db) → RespectsAt k db m) → Respects k m
each_at h = record { at = λ db a db' e. (h db).at a db' e }

module _ {A B : Type 0} {k : Keeping} where
  continue_from :
      (db : Db) (r : Result (A × Db)) (f : A → Tx B)
      → ((a : A) (d : Db) → r ≡ ok (a, d) → k.rel db d × RespectsAt k d (f a))
      → (b : B) (db' : Db) → continue r f ≡ ok (b, db')
      → k.rel db db'
  continue_from db (ok (a, d)) f h b db' e =
      k.transitive db d db' (h a d refl).0 ((h a d refl).1.at b db' e)
  continue_from db (err x) f h b db' e = absurd (err≢ok e)

  pub RespectsAt-bind :
      (db : Db) (m : Tx A) (f : A → Tx B)
      → ((a : A) (d : Db) → m db ≡ ok (a, d) → k.rel db d × RespectsAt k d (f a))
      → RespectsAt k db (m >>= f)
  unfolding ◌>>=◌
  RespectsAt-bind db m f h = record {
    at = λ b db' e. continue_from db (m db) f (λ a d r. h a d r) b db' e;
  }

module _ {A B : Type 0} {k : Keeping} where
  -- What follows may rely on what the step before has given.
  pub Respects-known :
      (m : Tx A) (f : A → Tx B)
      → Respects k m
      → ((a : A) (db d : Db) → m db ≡ ok (a, d) → Respects k (f a))
      → Respects k (m >>= f)
  Respects-known m f hm hf =
      each_at λ db. RespectsAt-bind db m f λ a d e. (hm.at db a d e, at_each (hf a db d e) d)

-- The tables stay as they are.
abbrev pub unchanged : Keeping
unchanged = record {
  rel = λ before after. before ≡ after;
  reflexive = λ db. refl;
  transitive = λ a b c h k. h ∙ k;
}

module _ {A B : Type 0} {k : Keeping} where
  -- A step that leaves the tables as they are: what follows it starts from the same ones.
  pub RespectsAt-query :
      (db : Db) (m : Tx A) (f : A → Tx B)
      → Respects unchanged m
      → ((a : A) → m db ≡ ok (a, db) → RespectsAt k db (f a))
      → RespectsAt k db (m >>= f)
  RespectsAt-query db m f q h = RespectsAt-bind db m f λ a d e.
      let same = q.at db a d e in
      (
        subst (λ x. k.rel db x) same (k.reflexive db),
        subst (λ x. RespectsAt k x (f a)) same (h a (subst (λ x. m db ≡ ok (a, x)) (sym same) e)),
      )

-- A rejection that did not happen.
pub not_rejected :
    {b : Bool} (e : Error) (u : Unit {0}) (db d : Db)
    → lift (reject_if b e) db ≡ ok (u, d)
    → b ≡ false
unfolding lift
not_rejected {b = false} e u db d h = refl
not_rejected {b = true} e u db d h = absurd (err≢ok h)

continued_tx :
    {A B : Type 0} (r : Result (A × Db)) (f : A → Tx B) {b : B} {db' : Db}
    → continue r f ≡ ok (b, db')
    → (a : A) × (d : Db) × (r ≡ ok (a, d)) × (f a d ≡ ok (b, db'))
continued_tx (ok (a, d)) f h = (a, d, refl, h)
continued_tx (err e) f h = absurd (err≢ok h)

pub bound_tx :
    {A B : Type 0} (m : Tx A) (f : A → Tx B) (db : Db) {b : B} {db' : Db}
    → (m >>= f) db ≡ ok (b, db')
    → (a : A) × (d : Db) × (m db ≡ ok (a, d)) × (f a d ≡ ok (b, db'))
unfolding ◌>>=◌
bound_tx m f db h = continued_tx (m db) f h
