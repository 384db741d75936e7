-- ===== src/Escrow/Opening.antt =====
-- The reservation of a settlement scope keeps every relation that admits the writes, and a new
-- escrow in a scope that has none.
use pactagent.Prelude.{ℕ, ◌≡◌, refl, subst, false, is_some, Option, none, some}
use pactagent.Errors.{Result, ok, err, unique_violation}
use pactagent.Store.Rows.{Escrow, Agreement}
use pactagent.Store.Tx.{Db}
use pactagent.Store.Respects.{
  Keeping, Respects, Respects-bind, Respects-lift, Respects-pure, Respects-reads, err≢ok,
  respects_rules,
}
use pactagent.Store.At.{at_each, each_at, RespectsAt-bind, RespectsAt-query, not_rejected}
use pactagent.Repository.Admits.{Moves, AdmitsBy}
use pactagent.Repository.Queries.{query_rules}
use pactagent.Repository.Escrows.{
  CreateEscrowInput, create_escrow, find_active_escrow_for_scope,
  find_terminal_escrow_for_agreement, find_terminal_escrow_for_milestone,
}
use pactagent.Repository.Idempotency.{Env, Context}
use pactagent.Idempotency.{Request}
use pactagent.Escrow.Creation.{
  find_scope_amount, find_terminal_escrow, conflicting, reserve_escrow_creation,
}

-- The relation admits a new escrow where neither query for the scope finds one.
pub record Opens (app : ℕ) (k : Keeping) : Type 0 where
  pub opening :
      (input : CreateEscrowInput) (db : Db)
      → find_terminal_escrow app input.agreement_id input.milestone_id db ≡ ok (none, db)
      → find_active_escrow_for_scope app input.agreement_id input.milestone_id db ≡ ok (none, db)
      → (row : Escrow) (db' : Db) → create_escrow app input db ≡ ok (row, db')
      → k.rel db db'

Respects-find_terminal :
    {k : Keeping} (app agreement : ℕ) (milestone : Option ℕ)
    → Respects k (find_terminal_escrow app agreement milestone)
unfolding find_terminal_escrow_for_agreement find_terminal_escrow_for_milestone
Respects-find_terminal app agreement none = Respects-reads _
Respects-find_terminal app agreement (some milestone) = Respects-reads _

Respects-find_active :
    {k : Keeping} (app agreement : ℕ) (milestone : Option ℕ)
    → Respects k (find_active_escrow_for_scope app agreement milestone)
unfolding find_active_escrow_for_scope
Respects-find_active app agreement milestone = Respects-reads _

Respects-scope_amount :
    {k : Keeping} (app : ℕ) (agreement : Agreement) (milestone : Option ℕ)
    → Respects k (find_scope_amount app agreement milestone)
unfolding find_scope_amount
Respects-scope_amount app agreement none = Respects-pure _
Respects-scope_amount app agreement (some id) = search (respects_rules, query_rules) depth 10

created_by :
    {r : Result (Escrow × Db)} {row : Escrow} {db : Db}
    → conflicting r ≡ ok (row, db)
    → r ≡ ok (row, db)
created_by {r = ok x} h = h
created_by {r = err unique_violation} h = absurd (err≢ok h)
created_by {r = err e} h = h

none_found : {A : Type 0} (o : Option A) → is_some o ≡ false → o ≡ none
none_found none h = refl
none_found (some a) h = cc

module _ {may : Moves} {app : ℕ} {k : Keeping} (w : AdmitsBy may app k) (opens : Opens app k) where
  pub Respects-reserve_creation :
      (env : Env) (req : Request) (input : CreateEscrowInput) (context : Context)
      → Respects k (reserve_escrow_creation env app req input context)
  unfolding reserve_escrow_creation
  Respects-reserve_creation env req input context =
      let find_terminal = find_terminal_escrow app input.agreement_id input.milestone_id in
      let find_active = find_active_escrow_for_scope app input.agreement_id input.milestone_id in
      Respects-bind _ _ (w.key env context req.now) λ _.
        Respects-bind _ _ (search (respects_rules, query_rules, Respects-scope_amount) depth 12)
          λ index. each_at λ db.
            RespectsAt-query db _ _ (Respects-find_terminal app _ input.milestone_id) λ t te.
              RespectsAt-query db _ _ (Respects-lift _) λ u tr.
                RespectsAt-query db _ _ (Respects-find_active app _ _) λ a ae.
                  RespectsAt-query db _ _ (Respects-lift _) λ u' ar.
                    RespectsAt-bind db _ _ λ created d e. (
                      opens.opening input db
                          (subst (λ o. find_terminal db ≡ ok (o, db))
                            (none_found t (not_rejected _ u db db tr)) te)
                          (subst (λ o. find_active db ≡ ok (o, db))
                            (none_found a (not_rejected _ u' db db ar)) ae)
                          created d (created_by e),
                      at_each (search (respects_rules, w.transaction)) d,
                    )
