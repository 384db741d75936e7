-- ===== src/Store/Respects.antt =====
-- What a transaction that commits may have done to the tables: a relation between the tables
-- before and after, with one rule for each way to build a transaction.
use pactagent.Prelude.{◌≡◌, refl, subst, Bool, true, false, Option, none, some, if◌then◌else◌}
use pactagent.Errors.{Error, Result, ok, err}
use pactagent.Store.Tx.{
  Db, Tx, pure, fail, lift, reads, or_fail, modify, continue, ◌>>=◌, when, when_some, ◌>>◌,
}

pub committed :
    {A : Type 0} {a b : A} {x y : Db} → ◌≡◌ {A = Result (A × Db)} (ok (a, x)) (ok (b, y)) → x ≡ y
committed h = cc

pub err≢ok : {A : Type 0} {e : Error} {a : A} → ◌≡◌ {A = Result A} (err e) (ok a) → ⊥
err≢ok h = cc

-- A relation that holds over any number of steps.
pub record Keeping : Type 1 where
  pub rel : Db → Db → Type 0
  pub reflexive : (db : Db) → rel db db
  pub transitive : (a b c : Db) → rel a b → rel b c → rel a c

pub record Respects {A : Type 0} (k : Keeping) (m : Tx A) : Type 0 where
  pub at : (db : Db) (a : A) (db' : Db) → m db ≡ ok (a, db') → k.rel db db'

module _ {A : Type 0} {k : Keeping} where
  pub Respects-pure : (a : A) → Respects k (pure a)
  unfolding pure
  Respects-pure a = record {
    at = λ db b db' h. subst (λ d. k.rel db d) (committed h) (k.reflexive db);
  }

  pub Respects-fail : (e : Error) → Respects k (fail {A = A} e)
  unfolding fail
  Respects-fail e = record { at = λ db b db' h. absurd (err≢ok h) }

  pub Respects-lift : (r : Result A) → Respects k (lift r)
  unfolding lift
  Respects-lift (ok a) = record {
    at = λ db b db' h. subst (λ d. k.rel db d) (committed h) (k.reflexive db);
  }
  Respects-lift (err e) = record { at = λ db b db' h. absurd (err≢ok h) }

  pub Respects-reads : (f : Db → A) → Respects k (reads f)
  unfolding reads
  Respects-reads f = record {
    at = λ db b db' h. subst (λ d. k.rel db d) (committed h) (k.reflexive db);
  }

  -- A step that cannot fail.
  pub Respects-step :
      (f : Db → A) (g : Db → Db)
      → ((db : Db) → k.rel db (g db))
      → Respects k (λ db. ok (f db, g db))
  Respects-step f g h = record { at = λ db b db' e. subst (λ d. k.rel db d) (committed e) (h db) }

  pub Respects-or_fail : (o : Option A) (e : Error) → Respects k (or_fail o e)
  unfolding or_fail
  Respects-or_fail none e = Respects-fail e
  Respects-or_fail (some a) e = Respects-pure a

  pub Respects-if :
      (b : Bool) (m n : Tx A) → Respects k m → Respects k n → Respects k (if b then m else n)
  Respects-if true m n hm hn = hm
  Respects-if false m n hm hn = hn

module _ {k : Keeping} where
  pub Respects-modify : (f : Db → Db) → ((db : Db) → k.rel db (f db)) → Respects k (modify f)
  unfolding modify
  Respects-modify f h = record { at = λ db b db' e. subst (λ d. k.rel db d) (committed e) (h db) }

  pub Respects-when :
      (b : Bool) (m : Tx (Unit {0})) → (b ≡ true → Respects k m) → Respects k (when b m)
  unfolding when
  Respects-when true m h = h refl
  Respects-when false m h = Respects-pure tt

  pub Respects-when_some :
      {A : Type 0} (o : Option A) (f : A → Tx (Unit {0}))
      → ((a : A) → Respects k (f a))
      → Respects k (when_some o f)
  unfolding when_some
  Respects-when_some none f h = Respects-pure tt
  Respects-when_some (some a) f h = h a

module _ {A B : Type 0} {k : Keeping} where
  continue_at :
      (db : Db) (r : Result (A × Db)) (f : A → Tx B)
      → ((a : A) (db₁ : Db) → r ≡ ok (a, db₁) → k.rel db db₁)
      → ((a : A) → Respects k (f a))
      → (b : B) (db' : Db) → continue r f ≡ ok (b, db')
      → k.rel db db'
  continue_at db (ok (a, db₁)) f hm hf b db' h =
      k.transitive db db₁ db' (hm a db₁ refl) ((hf a).at db₁ b db' h)
  continue_at db (err e) f hm hf b db' h = absurd (err≢ok h)

  pub Respects-bind :
      (m : Tx A) (f : A → Tx B) → Respects k m → ((a : A) → Respects k (f a)) → Respects k (m >>= f)
  unfolding ◌>>=◌
  Respects-bind m f hm hf = record {
    at = λ db b db' h. continue_at db (m db) f (λ a db₁ e. hm.at db a db₁ e) hf b db' h;
  }

  -- What follows a check may rely on what was checked.
  pub Respects-check :
      (r : Result A) (f : A → Tx B)
      → ((a : A) → r ≡ ok a → Respects k (f a))
      → Respects k (lift r >>= f)
  unfolding ◌>>=◌ lift
  Respects-check (ok a) f h = record { at = λ db b db' e. (h a refl).at db b db' e }
  Respects-check (err e) f h = record { at = λ db b db' e. absurd (err≢ok e) }

module _ {B : Type 0} {k : Keeping} where
  pub Respects-when_check :
      (b : Bool) (r : Result (Unit {0})) (m : Tx B)
      → ((b ≡ true → r ≡ ok tt) → Respects k m)
      → Respects k (when b (lift r) >> m)
  unfolding ◌>>=◌ when pure lift
  Respects-when_check false r m h = record { at = λ db b db' e. (h (λ e. cc)).at db b db' e }
  Respects-when_check true (ok tt) m h = record { at = λ db b db' e. (h (λ _. refl)).at db b db' e }
  Respects-when_check true (err x) m h = record { at = λ db b db' e. absurd (err≢ok e) }

pub ruleset respects_rules = (
  Respects-pure, Respects-fail, Respects-lift, Respects-reads, Respects-or_fail, Respects-if,
  Respects-when, Respects-when_some, Respects-bind,
)

-- A relation that follows from another is kept where the other is.
pub Respects-weaken :
    {A : Type 0} {k l : Keeping} {m : Tx A}
    → ((before after : Db) → k.rel before after → l.rel before after)
    → Respects k m
    → Respects l m
Respects-weaken h r = record { at = λ db a db' e. h db db' (r.at db a db' e) }
