-- ===== src/Escrow/Keeps.antt =====
-- The transactions of the escrow service keep every relation that admits the writes of the
-- repositories: each guards its writes as `Admits` asks for.
use pactagent.Prelude.{
  ℕ, String, ◌≡◌, Bool, true, false, refl, subst, sym, ◌==◌, not, arith, Option, none, some, inr,
  ◌⊎◌,
}
use pactagent.Errors.{Error, ok, require, reject_if}
use pactagent.Lifecycle.Escrow.{
  EscrowStatus, escrow_eq, escrow_beq_iff, can_transition_escrow, assert_escrow_transition,
}
use pactagent.Store.Rows.{Text, Agreement, Escrow}
use pactagent.Store.Tx.{Db, lift}
use pactagent.Store.At.{Respects-known, bound_tx}
use pactagent.Store.Respects.{
  Keeping, Respects, Respects-bind, Respects-pure, Respects-check, Respects-lift,
  Respects-when_check, Respects-or_fail, respects_rules, err≢ok,
}
use pactagent.Repository.Admits.{Moves, any_move, AdmitsBy, EscrowMoveBy}
use pactagent.Repository.Queries.{
  query_rules, Respects-find_escrow, Respects-find_agreement, Respects-cas,
}
use pactagent.Repository.Idempotency.{Env, Context}
use pactagent.Idempotency.{Request}
use pactagent.Escrow.Adapter.{EscrowAdapterResult}
use pactagent.Escrow.Scope.{Terminal}
use pactagent.Escrow.ScopeKeeps.{
  Respects-escrow_event, Respects-end_milestone, Respects-end_scope_agreement, Respects-enqueue,
}
use pactagent.Escrow.Settlement.{
  Operation, Reserved, settlement_pending_status, audit_escrow, assert_release_allowed,
  assert_refund_allowed, find_by, find_milestone_of, assert_settlement_allowed,
  reserve_escrow_settlement, finalize_failed_escrow_settlement, end_milestone_of, end_scope,
  finalize_successful_escrow_settlement, with_settlement_hash,
}

-- What a transition that was checked lets a write do.
pub checked_move :
    (from to : EscrowStatus)
    → assert_escrow_transition from to ≡ ok tt
    → can_transition_escrow from to ≡ true
checked_move from to h = ground arith

-- A write of the status alone.
pub status_move :
    {may : Moves} {from : EscrowStatus} (to : EscrowStatus)
    → may from to
    → assert_escrow_transition from to ≡ ok tt
    → (row : Escrow) → row.status ≡ from
    → EscrowMoveBy may row (record row { status = to })
status_move {may} to m h row e = record {
  id = refl;
  app_id = refl;
  agreement_id = refl;
  milestone_id = refl;
  amount = refl;
  currency = refl;
  allowed = inr (checked_move row.status to cc);
  by = subst (λ s. may s to) (sym e) m;
}

-- The same, when the status that is moved from was compared first.
checked_from :
    (current from to : EscrowStatus) (e : Error)
    → require (current == from) e ≡ ok tt
    → assert_escrow_transition current to ≡ ok tt
    → assert_escrow_transition from to ≡ ok tt
checked_from current from to e same h = ground arith

settled_allowed :
    (current from to : EscrowStatus) (e : Error)
    → require (current == from) e ≡ ok tt
    → (not (to == current) ≡ true → assert_escrow_transition current to ≡ ok tt)
    → (to ≡ from) ⊎ (can_transition_escrow from to ≡ true)
settled_allowed current from to e same h = ground arith

-- The write of a settlement's result: its hash, and a status that is kept or was checked.
settled_move :
    {may : Moves} (operation : Operation) (hash : Option Text) (current from to : EscrowStatus)
    (error : Error)
    → ((to ≡ from) ⊎ (can_transition_escrow from to ≡ true) → may from to)
    → require (current == from) error ≡ ok tt
    → (not (to == current) ≡ true → assert_escrow_transition current to ≡ ok tt)
    → (row : Escrow) → row.status ≡ from
    → EscrowMoveBy may row (record (with_settlement_hash operation hash row) { status = to })
settled_move {may} Operation.release hash c from to error m same h row e = record {
  id = refl;
  app_id = refl;
  agreement_id = refl;
  milestone_id = refl;
  amount = refl;
  currency = refl;
  allowed =
      subst (λ s. (to ≡ s) ⊎ (can_transition_escrow s to ≡ true)) (sym e)
        (settled_allowed c from to error same h);
  by = subst (λ s. may s to) (sym e) (m (settled_allowed c from to error same h));
}
settled_move {may} Operation.refund hash c from to error m same h row e = record {
  id = refl;
  app_id = refl;
  agreement_id = refl;
  milestone_id = refl;
  amount = refl;
  currency = refl;
  allowed =
      subst (λ s. (to ≡ s) ⊎ (can_transition_escrow s to ≡ true)) (sym e)
        (settled_allowed c from to error same h);
  by = subst (λ s. may s to) (sym e) (m (settled_allowed c from to error same h));
}

-- The moves are those of the operation: from funded to pending, and on from there.
pub record Settles (may : Moves) (operation : Operation) : Type 0 where
  pub begins : may EscrowStatus.funded (settlement_pending_status operation)
  pub goes_on :
      (to : EscrowStatus)
      → (to ≡ settlement_pending_status operation)
        ⊎ (can_transition_escrow (settlement_pending_status operation) to ≡ true)
      → may (settlement_pending_status operation) to

pub any_settlement : {operation : Operation} → Settles any_move operation
any_settlement = record { begins = tt; goes_on = λ to h. tt }

required_in :
    {b : Bool} (e : Error) (u : Unit {0}) (db d : Db) → lift (require b e) db ≡ ok (u, d) → b ≡ true
unfolding lift
required_in {b = true} e u db d h = refl
required_in {b = false} e u db d h = absurd (err≢ok h)

-- Only an escrow that is funded may be released or refunded.
from_funded :
    (app : ℕ) (operation : Operation) (escrow : Escrow) (agreement : Option Agreement) (db : Db)
    (u : Unit {0}) (d : Db)
    → assert_settlement_allowed app operation escrow agreement db ≡ ok (u, d)
    → escrow.status ≡ EscrowStatus.funded
unfolding assert_settlement_allowed assert_release_allowed assert_refund_allowed find_milestone_of
from_funded app Operation.release escrow agreement db u d h =
    let (milestone, d₁, found, rest) = bound_tx (find_by app escrow.milestone_id) _ db h in
    let (v, d₂, passed, more) =
      bound_tx (lift (require (escrow.status == EscrowStatus.funded) _)) _ d₁ rest in
    (escrow_beq_iff escrow.status EscrowStatus.funded).0 (required_in _ v d₁ d₂ passed)
from_funded app Operation.refund escrow agreement db u d h =
    let (v, d₁, passed, rest) = bound_tx (lift (reject_if _ _)) _ db h in
    let (v', d₂, passed', more) =
      bound_tx (lift (require (escrow.status == EscrowStatus.funded) _)) _ d₁ rest in
    (escrow_beq_iff escrow.status EscrowStatus.funded).0 (required_in _ v' d₁ d₂ passed')

module _ {may : Moves} {app : ℕ} {k : Keeping} (w : AdmitsBy may app k) where
  pub Respects-audit :
      (req : Request) (escrow : Escrow) (action : String)
      → Respects k (audit_escrow app req escrow action)
  unfolding audit_escrow
  Respects-audit req escrow action = w.audit _ refl

  Respects-find_by : (milestone : Option ℕ) → Respects k (find_by app milestone)
  Respects-find_by none = Respects-pure none
  Respects-find_by (some m) = search query_rules

  Respects-allowed :
      (operation : Operation) (escrow : Escrow) (agreement : Option Agreement)
      → Respects k (assert_settlement_allowed app operation escrow agreement)
  unfolding assert_settlement_allowed assert_release_allowed assert_refund_allowed find_milestone_of
  Respects-allowed Operation.release escrow agreement =
      search (respects_rules, query_rules, Respects-find_by)
  Respects-allowed Operation.refund escrow agreement = search (respects_rules, query_rules)

  pub Respects-reserve_settlement :
      (env : Env) (req : Request) (id : ℕ) (operation : Operation) (context : Context)
      → Settles may operation
      → Respects k (reserve_escrow_settlement env app req id operation context)
  unfolding reserve_escrow_settlement
  Respects-reserve_settlement env req id operation context a =
      Respects-bind _ _ (w.key env context req.now) λ _.
        Respects-bind _ _ (Respects-find_escrow app id) λ found.
          Respects-bind _ _ (Respects-or_fail _ _) λ before.
            Respects-bind _ _ (Respects-find_agreement app _) λ agreement.
              Respects-known _ _ (Respects-allowed operation before agreement) λ u db d known.
                Respects-check _ _ λ _ h.
                  Respects-bind _ _
                    (w.escrow id _ _ (
                      status_move _
                        (subst (λ s. may s (settlement_pending_status operation))
                          (sym (from_funded app operation before agreement db u d known)) a.begins)
                        h))
                    λ count.
                      search
                        (
                          respects_rules, query_rules, w.transaction, Respects-escrow_event,
                          Respects-audit,
                        )
                        depth 20

  pub Respects-fail_settlement :
      (env : Env) (req : Request) (operation : Operation) (reserved : Reserved) (context : Context)
      → Settles may operation
      → Respects k (finalize_failed_escrow_settlement env app req operation reserved context)
  unfolding finalize_failed_escrow_settlement
  Respects-fail_settlement env req operation reserved context a =
      Respects-bind _ _ (Respects-find_escrow app _) λ found.
        Respects-bind _ _ (Respects-or_fail _ _) λ current. Respects-check _ _ λ _ same.
          Respects-check _ _ λ _ h.
            Respects-bind _ _
              (w.escrow current.id _ _ (
                status_move _
                  (a.goes_on EscrowStatus.failed (
                    inr (
                      checked_move (settlement_pending_status operation) EscrowStatus.failed
                        (checked_from current.status _ _ _ same h))))
                  (checked_from current.status _ _ _ same h)))
              λ count. Respects-bind _ _ (Respects-cas count) λ _.
                Respects-bind _ _ (Respects-find_escrow app _) λ reread.
                  Respects-bind _ _ (Respects-or_fail _ _) λ failed.
                    Respects-bind _ _ (w.transaction_update _ _ λ row. refl) λ _.
                      search (respects_rules, w.response, Respects-escrow_event, Respects-audit)
                        depth 20

  pub Respects-end_scope :
      (event : String) (escrow : Escrow) (to : Terminal) (now : ℕ)
      → Respects k (end_scope app event escrow to now)
  unfolding end_scope end_milestone_of
  Respects-end_scope event escrow to now =
      search
        (
          respects_rules, Respects-escrow_event, Respects-end_milestone,
          Respects-end_scope_agreement,
        )
        depth 12

  pub Respects-succeed_settlement :
      (env : Env) (req : Request) (operation : Operation) (reserved : Reserved) (context : Context)
      (result : EscrowAdapterResult)
      → Settles may operation
      → Respects k
          (finalize_successful_escrow_settlement env app req operation reserved context result)
  unfolding finalize_successful_escrow_settlement
  Respects-succeed_settlement env req operation reserved context result a =
      Respects-bind _ _ (Respects-find_escrow app _) λ found.
        Respects-bind _ _ (Respects-or_fail _ _) λ current. Respects-check _ _ λ _ same.
          Respects-bind _ _ (Respects-lift _) λ reported. Respects-when_check _ _ _ λ h.
            Respects-bind _ _
              (w.escrow current.id _ _ (settled_move operation _ _ _ _ _ (a.goes_on _) same h))
              λ count. Respects-bind _ _ (Respects-cas count) λ _.
                Respects-bind _ _ (Respects-find_escrow app _) λ reread.
                  Respects-bind _ _ (Respects-or_fail _ _) λ updated.
                    Respects-bind _ _ (w.transaction_update _ _ λ row. refl) λ _.
                      search
                        (
                          respects_rules, w.response, Respects-enqueue, Respects-end_scope,
                          Respects-audit,
                        )
                        depth 20
