-- ===== src/Escrow/MoreKeeps.antt =====
-- The transactions of funding, reconciliation and creation keep every relation that admits the
-- writes of the repositories.
use pactagent.Prelude.{ℕ, ◌≡◌, Bool, true, false, refl, subst, sym, Option, inr}
use pactagent.Errors.{Error, ok, require}
use pactagent.Lifecycle.Escrow.{
  EscrowStatus, escrow_eq, can_transition_escrow, assert_escrow_transition,
}
use pactagent.Store.Rows.{Text, Escrow, Transaction}
use pactagent.Store.Respects.{
  Keeping, Respects, Respects-when, Respects-bind, Respects-pure, Respects-check, Respects-lift,
  Respects-or_fail, Respects-reads, respects_rules,
}
use pactagent.Repository.Admits.{Moves, AdmitsBy, Admits}
use pactagent.Repository.Queries.{query_rules, Respects-find_escrow, Respects-cas}
use pactagent.Repository.Idempotency.{Env, Context}
use pactagent.Idempotency.{Request}
use pactagent.Escrow.Adapter.{EscrowAdapterResult, ReconciliationObservation}
use pactagent.Escrow.ScopeKeeps.{Respects-escrow_event, Respects-fund_scope, Respects-enqueue}
use pactagent.Escrow.Keeps.{checked_move, status_move, Respects-audit, Respects-end_scope}
use pactagent.Escrow.Creation.{ReservedCreation, finalize_escrow_creation}
use pactagent.Escrow.Funding.{
  reserve_funding, confirm_lock, move_to_funding, record_funding, answer_funded,
  finalize_escrow_funding, is_funding_status,
}
use pactagent.Escrow.Reconciliation.{move_observed, react_to, apply_observation}

-- The moves are those of a funding: to a status of funding, along the table.
abbrev pub Funds : Moves → Type 0
Funds may =
    (from to : EscrowStatus)
    → is_funding_status to ≡ true
    → can_transition_escrow from to ≡ true
    → may from to

required_ok : (b : Bool) (e : Error) (u : Unit {0}) → require b e ≡ ok u → b ≡ true
required_ok true e u h = refl
required_ok false e u h = absurd (cc)

module _ {may : Moves} {app : ℕ} {k : Keeping} (w : AdmitsBy may app k) where
  pub Respects-reserve_funding :
      (env : Env) (req : Request) (id : ℕ) (context : Context)
      → Respects k (reserve_funding env app req id context)
  unfolding reserve_funding
  Respects-reserve_funding env req id context =
      search (respects_rules, query_rules, w.key, w.response) depth 20

  Respects-confirm_lock :
      (next : EscrowStatus) (result : EscrowAdapterResult) (hash : Option Text) (now : ℕ)
      (transaction : Transaction)
      → Respects k (confirm_lock app next result hash now transaction)
  unfolding confirm_lock
  Respects-confirm_lock next result hash now transaction =
      w.transaction_update transaction.id _ λ row. refl

  Respects-move_to_funding :
      (current : Escrow) (next : EscrowStatus) (result : EscrowAdapterResult)
      → Funds may
      → is_funding_status next ≡ true
      → Respects k (move_to_funding app current next result)
  unfolding move_to_funding
  Respects-move_to_funding current next result a fits = Respects-check _ _ λ _ h.
      Respects-bind _ _
        (w.escrow current.id _ _ λ row e. record {
          id = refl;
          app_id = refl;
          agreement_id = refl;
          milestone_id = refl;
          amount = refl;
          currency = refl;
          allowed = inr (
              checked_move row.status next
                (subst (λ s. assert_escrow_transition s next ≡ ok tt) (sym e) h));
          by = a row.status next fits (
              checked_move row.status next
                (subst (λ s. assert_escrow_transition s next ≡ ok tt) (sym e) h));
        })
        λ count. Respects-cas count

  Respects-record_funding :
      (env : Env) (req : Request) (current : Escrow) (context : Context)
      (result : EscrowAdapterResult)
      → Funds may
      → Respects k (record_funding env app req current context result)
  unfolding record_funding
  Respects-record_funding env req current context result a =
      Respects-bind _ _ (Respects-lift _) λ next. Respects-check _ _ λ u fits.
        Respects-bind _ _
          (Respects-when _ _
            λ _. Respects-move_to_funding current next result a (required_ok _ _ u fits))
          λ _.
            search
              (
                respects_rules, query_rules, w.response, Respects-confirm_lock, Respects-fund_scope,
                Respects-audit,
              )
              depth 30

  pub Respects-finalize_funding :
      (env : Env) (req : Request) (before : Escrow) (context : Context)
      (result : EscrowAdapterResult)
      → Funds may
      → Respects k (finalize_escrow_funding env app req before context result)
  unfolding finalize_escrow_funding answer_funded
  Respects-finalize_funding env req before context result a =
      search (respects_rules, query_rules, w.response, Respects-record_funding, a) depth 12

  pub Respects-finalize_creation :
      (env : Env) (req : Request) (reserved : ReservedCreation) (context : Context)
      (result : EscrowAdapterResult)
      → ((from to : EscrowStatus) → may from to)
      → Respects k (finalize_escrow_creation env app req reserved context result)
  unfolding finalize_escrow_creation
  Respects-finalize_creation env req reserved context result a =
      Respects-bind _ _ (Respects-lift _) λ next. Respects-check _ _ λ _ h.
        Respects-bind _ _
          (w.escrow reserved.created.id _ _ λ row e. record {
            id = refl;
            app_id = refl;
            agreement_id = refl;
            milestone_id = refl;
            amount = refl;
            currency = refl;
            allowed = inr (
                checked_move row.status next
                  (subst (λ s. assert_escrow_transition s next ≡ ok tt) (sym e) h));
            by = a row.status next;
          })
          λ count. Respects-bind _ _ (Respects-cas count) λ _.
            Respects-bind _ _ (Respects-find_escrow app _) λ reread.
              Respects-bind _ _ (Respects-or_fail _ _) λ updated.
                Respects-bind _ _ (w.transaction_update _ _ λ row. refl) λ _.
                  search
                    (
                      respects_rules, w.response, Respects-enqueue, Respects-escrow_event,
                      Respects-audit,
                    )
                    depth 20

  Respects-move_observed :
      (escrow : Escrow) (next : EscrowStatus)
      → ((from to : EscrowStatus) → may from to)
      → Respects k (move_observed app escrow next)
  unfolding move_observed
  Respects-move_observed escrow next a = Respects-when _ _ λ _. Respects-check _ _ λ _ h.
      Respects-bind _ _ (w.escrow escrow.id _ _ (status_move next (a escrow.status next) h))
        λ count. Respects-cas count

  Respects-react_to :
      (escrow : Escrow) (next : EscrowStatus) (now : ℕ) → Respects k (react_to app escrow next now)
  Respects-react_to escrow EscrowStatus.reconciliation_required now =
      Respects-escrow_event w _ escrow now
  Respects-react_to escrow EscrowStatus.failed now = Respects-escrow_event w _ escrow now
  Respects-react_to escrow EscrowStatus.funded now = Respects-fund_scope w escrow now
  Respects-react_to escrow EscrowStatus.released now = Respects-end_scope w _ escrow _ now
  Respects-react_to escrow EscrowStatus.refunded now = Respects-end_scope w _ escrow _ now
  Respects-react_to escrow _ now = Respects-pure tt

-- The app is the one that the transaction's row names.
pub Respects-apply_observation :
    {k : Keeping} (env : Env) (now : ℕ) (snapshot : Transaction) (hash : Text) (escrow : ℕ)
    (observation : ReconciliationObservation)
    → Admits snapshot.app_id k
    → Respects k (apply_observation env now snapshot hash escrow observation)
unfolding apply_observation
Respects-apply_observation env now snapshot hash escrow observation w =
    Respects-bind _ _ (Respects-reads _) λ found_transaction.
      Respects-bind _ _ (Respects-find_escrow _ escrow) λ found_escrow.
        Respects-bind _ _ (Respects-or_fail _ _) λ transaction.
          Respects-bind _ _ (Respects-or_fail _ _) λ escrow'.
            Respects-bind _ _ (Respects-lift _) λ _.
              Respects-bind _ _ (Respects-move_observed w escrow' _ λ s t. tt) λ _.
                Respects-bind _ _ (w.transaction_update _ _ λ row. refl) λ _.
                  Respects-bind _ _ (Respects-find_escrow _ _) λ reread.
                    Respects-bind _ _ (Respects-or_fail _ _) λ updated.
                      Respects-bind _ _
                        (search (respects_rules, Respects-escrow_event, Respects-react_to) depth 8)
                        λ _.
                          Respects-bind _ _ (Respects-when _ _ λ _. w.audit _ refl)
                            λ _. Respects-pure _
