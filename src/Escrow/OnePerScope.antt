-- ===== src/Escrow/OnePerScope.antt =====
-- A settlement scope, the agreement or a milestone of it, has at most one escrow.
use pactagent.Prelude.{
  ℕ, ◌≡◌, refl, ◌∙◌, sym, subst, Bool, true, false, nat_eq, option_eq, arith, List, [], ◌∷◌, Option,
  none, some, find_first, update_rows, delete_rows, if◌then◌else◌,
}
use pactagent.Errors.{Result, ok}
use pactagent.Lifecycle.Escrow.{EscrowStatus, escrow_eq}
use pactagent.Store.Rows.{Escrow, Rail}
use pactagent.Store.Tx.{Db, reads}
use pactagent.Store.Respects.{Respects-modify}
use pactagent.Repository.Admits.{EscrowMove}
use pactagent.Repository.Escrows.{
  CreateEscrowInput, in_scope, is_terminal, is_active, is_terminal_for_agreement,
  is_terminal_for_milestone, is_active_in_scope, find_active_escrow_for_scope,
  find_terminal_escrow_for_agreement, find_terminal_escrow_for_milestone,
}
use pactagent.Repository.Idempotency.{Env}
use pactagent.Idempotency.{Request}
use pactagent.Escrow.Adapter.{EscrowAdapter}
use pactagent.Escrow.Creation.{discard_escrow_creation, find_terminal_escrow}
use pactagent.Escrow.OnEscrows.{OnEscrows, keeping, escrows-Serves, created_escrows}
use pactagent.Escrow.FlowKeeps.{Serves, Creates, Holds-creation}
use pactagent.Escrow.Flows.{create_escrow_for_app}

-- No row passes the test.
abbrev pub NoRow : (Escrow → Bool) → List Escrow → Type 0
NoRow test [] = Unit
NoRow test (x ∷ xs) = (test x ≡ false) × NoRow test xs

-- No two escrows share an app, an agreement and a milestone (or the lack of one).
abbrev pub OnePerScope : List Escrow → Type 0
OnePerScope [] = Unit
OnePerScope (x ∷ xs) = NoRow (in_scope x.app_id x.agreement_id x.milestone_id) xs × OnePerScope xs

not_first :
    {A : Type 0} (b : Bool) (x : A) (o : Option A)
    → (if b then some x else o) ≡ none
    → (b ≡ false) × (o ≡ none)
not_first true x o h = cc
not_first false x o h = (refl, h)

no_row : (test : Escrow → Bool) (xs : List Escrow) → find_first test xs ≡ none → NoRow test xs
unfolding find_first
no_row test [] h = tt
no_row test (x ∷ xs) h =
    let first = not_first (test x) x (find_first test xs) h in (first.0, no_row test xs first.1)

-- A scope with neither an ended nor an active escrow has none: each status is one or the other.
NoRow-either :
    (t a p : Escrow → Bool) (xs : List Escrow)
    → ((x : Escrow) → t x ≡ false → a x ≡ false → p x ≡ false)
    → NoRow t xs
    → NoRow a xs
    → NoRow p xs
NoRow-either t a p [] h u v = tt
NoRow-either t a p (x ∷ xs) h u v = (h x u.0 v.0, NoRow-either t a p xs h u.1 v.1)

row_cases :
    (b : Bool) (x y : Escrow) (p : Escrow → Bool)
    → (b ≡ true → p y ≡ p x)
    → p x ≡ false
    → p (if b then y else x) ≡ false
row_cases true x y p h e = h refl ∙ e
row_cases false x y p h e = e

NoRow-update_rows :
    (p test : Escrow → Bool) (change : Escrow → Escrow) (xs : List Escrow)
    → ((x : Escrow) → test x ≡ true → p (change x) ≡ p x)
    → NoRow p xs
    → NoRow p (update_rows test change xs)
unfolding update_rows
NoRow-update_rows p test change [] h n = tt
NoRow-update_rows p test change (x ∷ xs) h n =
    (row_cases (test x) x (change x) p (h x) n.0, NoRow-update_rows p test change xs h n.1)

either_rows :
    (f : List Escrow → Type 0) (b : Bool) (xs ys : List Escrow)
    → f xs
    → f ys
    → f (if b then xs else ys)
either_rows f true xs ys u v = u
either_rows f false xs ys u v = v

NoRow-delete_rows :
    (p test : Escrow → Bool) (xs : List Escrow) → NoRow p xs → NoRow p (delete_rows test xs)
unfolding delete_rows
NoRow-delete_rows p test [] n = tt
NoRow-delete_rows p test (x ∷ xs) n =
    either_rows (NoRow p) (test x) _ _ (NoRow-delete_rows p test xs n.1)
      (n.0, NoRow-delete_rows p test xs n.1)

-- The scope of a row, as a query tests it, is not changed by a move.
scope_kept :
    (app agreement : ℕ) (milestone : Option ℕ) (x y : Escrow)
    → EscrowMove x y
    → in_scope app agreement milestone y ≡ in_scope app agreement milestone x
scope_kept app agreement milestone x y m = cc

NoRow-ext :
    (p q : Escrow → Bool) (xs : List Escrow) → ((x : Escrow) → q x ≡ p x) → NoRow p xs → NoRow q xs
NoRow-ext p q [] h n = tt
NoRow-ext p q (x ∷ xs) h n = (h x ∙ n.0, NoRow-ext p q xs h n.1)

abbrev scope_of : Escrow → Escrow → Bool
scope_of x = in_scope x.app_id x.agreement_id x.milestone_id

moved_scope : (x y : Escrow) → EscrowMove x y → (row : Escrow) → scope_of y row ≡ scope_of x row
moved_scope x y m row = cc

scope_case :
    (b : Bool) (x y : Escrow) (xs : List Escrow)
    → (b ≡ true → EscrowMove x y)
    → NoRow (scope_of x) xs
    → NoRow (scope_of (if b then y else x)) xs
scope_case true x y xs h n = NoRow-ext (scope_of x) (scope_of y) xs (moved_scope x y (h refl)) n
scope_case false x y xs h n = n

one-update_rows :
    (test : Escrow → Bool) (change : Escrow → Escrow) (xs : List Escrow)
    → ((row : Escrow) → test row ≡ true → EscrowMove row (change row))
    → OnePerScope xs
    → OnePerScope (update_rows test change xs)
unfolding update_rows
one-update_rows test change [] h o = tt
one-update_rows test change (x ∷ xs) h o = (
  scope_case (test x) x (change x) _ (h x) (
      NoRow-update_rows (scope_of x) test change xs
        (λ row t. scope_kept x.app_id x.agreement_id x.milestone_id row (change row) (h row t))
        o.0),
  one-update_rows test change xs h o.1,
)

one-delete_rows :
    (test : Escrow → Bool) (xs : List Escrow) → OnePerScope xs → OnePerScope (delete_rows test xs)
unfolding delete_rows
one-delete_rows test [] o = tt
one-delete_rows test (x ∷ xs) o =
    either_rows OnePerScope (test x) _ _ (one-delete_rows test xs o.1)
      (NoRow-delete_rows (scope_of x) test xs o.0, one-delete_rows test xs o.1)

abbrev one_per_scope : OnEscrows
one_per_scope = record {
  rel = λ xs ys. OnePerScope xs → OnePerScope ys;
  reflexive = λ xs o. o;
  transitive = λ xs ys zs h k o. k (h o);
}

every_status : (s : EscrowStatus) → is_terminal s ≡ false → is_active s ≡ false → ⊥
every_status s h k = ground arith

free_of_agreement :
    (app agreement : ℕ) (x : Escrow)
    → is_terminal_for_agreement app agreement x ≡ false
    → is_active_in_scope app agreement none x ≡ false
    → in_scope app agreement none x ≡ false
free_of_agreement app agreement x h k = ground (arith, every_status x.status)

free_of_milestone :
    (app agreement milestone : ℕ) (x : Escrow)
    → is_terminal_for_milestone app milestone x ≡ false
    → is_active_in_scope app agreement (some milestone) x ≡ false
    → in_scope app agreement (some milestone) x ≡ false
free_of_milestone app agreement milestone x h k = ground (arith, every_status x.status)

found_none :
    {o : Option Escrow} {db d : Db}
    → ◌≡◌ {A = Result (Option Escrow × Db)} (ok (o, db)) (ok (none, d))
    → o ≡ none
found_none h = cc

-- What the two queries of the reservation establish.
scope_is_free :
    (app agreement : ℕ) (milestone : Option ℕ) (db : Db)
    → find_terminal_escrow app agreement milestone db ≡ ok (none, db)
    → find_active_escrow_for_scope app agreement milestone db ≡ ok (none, db)
    → NoRow (in_scope app agreement milestone) db.escrows
unfolding find_terminal_escrow_for_agreement find_terminal_escrow_for_milestone
    find_active_escrow_for_scope reads
scope_is_free app agreement none db t a =
    NoRow-either _ _ _ db.escrows (free_of_agreement app agreement) (no_row _ _ (found_none t))
      (no_row _ _ (found_none a))
scope_is_free app agreement (some milestone) db t a =
    NoRow-either _ _ _ db.escrows (free_of_milestone app agreement milestone)
      (no_row _ _ (found_none t)) (no_row _ _ (found_none a))

module _ (app : ℕ) where
  scopes-Serves : Serves app (keeping one_per_scope)
  scopes-Serves = escrows-Serves one_per_scope λ id from change xs h. one-update_rows _ change xs h

  scopes-Creates : Creates app (keeping one_per_scope)
  unfolding discard_escrow_creation
  scopes-Creates = record {
    opens = record {
      opening = λ input db t a row db' e o.
          subst OnePerScope (sym (created_escrows app input db row db' e))
            (scope_is_free app input.agreement_id input.milestone_id db t a, o);
    };
    discards = λ reserved context. Respects-modify _ λ db. one-delete_rows _ db.escrows;
  }

module _ (env : Env) (adapters : Rail → EscrowAdapter) (app : ℕ) (req : Request) (db : Db)
    (one : OnePerScope db.escrows) where
  -- If no settlement scope has two escrows, then none has two after the creation of an escrow,
  -- whatever the adapters answer and however the request ends: a second escrow for an agreement or
  -- a milestone is refused while the first is active, and after it has ended.
  pub creation-OnePerScope :
      (input : CreateEscrowInput)
      → OnePerScope (create_escrow_for_app env adapters app req input db).1.escrows
  creation-OnePerScope input =
      (Holds-creation (scopes-Serves app) env adapters (scopes-Creates app) (λ s t. tt) req
          input).at
        db one
