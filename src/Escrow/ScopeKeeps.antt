-- ===== src/Escrow/ScopeKeeps.antt =====
-- What Scope.antt does to the tables keeps every relation that admits the writes of the
-- repositories.
use pactagent.Prelude.{String, ℕ, ◌≡◌, true, refl, Bool, ◌==◌, ◌&&◌, arith}
use pactagent.Lifecycle.Agreement.{AgreementStatus, agreement_eq, can_transition_agreement}
use pactagent.Lifecycle.Milestone.{MilestoneStatus, can_transition_milestone}
use pactagent.Store.Rows.{Agreement, Milestone, Escrow}
use pactagent.Store.Respects.{
  Keeping, Respects, Respects-when, Respects-bind, Respects-pure, respects_rules,
}
use pactagent.Repository.Admits.{Moves, AdmitsBy}
use pactagent.Repository.Queries.{query_rules}
use pactagent.Escrow.Scope.{
  Terminal, milestone_event, escrow_event, move_milestone, transition_milestone_if_allowed,
  move_agreement, end_agreement, transition_agreement_when_all_escrows_terminal, is_fundable,
  fund_milestone, fund_agreement, fund_milestone_of, transition_funding_scope,
  enqueue_ckb_reconciliation,
}

fundable_move :
    (s : MilestoneStatus)
    → is_fundable s ≡ true
    → can_transition_milestone s MilestoneStatus.funded ≡ true
fundable_move s h = ground arith

funding_move :
    (s : AgreementStatus)
    → (s == AgreementStatus.funding_required) ≡ true
    → can_transition_agreement s AgreementStatus.funded ≡ true
funding_move s h = ground arith

and_right : (a b : Bool) → (a && b) ≡ true → b ≡ true
and_right a b h = ground arith

module _ {may : Moves} {app : ℕ} {k : Keeping} (w : AdmitsBy may app k) where
  pub Respects-escrow_event :
      (type : String) (escrow : Escrow) (now : ℕ) → Respects k (escrow_event app type escrow now)
  unfolding escrow_event
  Respects-escrow_event type escrow now = w.event _ now

  pub Respects-milestone_event :
      (type : String) (agreement milestone escrow now : ℕ)
      → Respects k (milestone_event app type agreement milestone escrow now)
  unfolding milestone_event
  Respects-milestone_event type agreement milestone escrow now = w.event _ now

  Respects-move_milestone :
      (agreement : ℕ) (to : Terminal) (escrow now : ℕ) (milestone : Milestone)
      → Respects k (move_milestone app agreement to escrow now milestone)
  unfolding move_milestone
  Respects-move_milestone agreement to escrow now milestone = Respects-when _ _ λ h.
      Respects-bind _ _ (w.milestone _ _ _ (and_right _ _ h))
        λ _. Respects-when _ _ λ _. Respects-milestone_event _ agreement milestone.id escrow now

  pub Respects-end_milestone :
      (agreement milestone : ℕ) (to : Terminal) (escrow now : ℕ)
      → Respects k (transition_milestone_if_allowed app agreement milestone to escrow now)
  unfolding transition_milestone_if_allowed
  Respects-end_milestone agreement milestone to escrow now =
      search (respects_rules, query_rules, Respects-move_milestone)

  Respects-move_agreement :
      (to : Terminal) (now : ℕ) (agreement : Agreement)
      → Respects k (move_agreement app to now agreement)
  unfolding move_agreement
  Respects-move_agreement to now agreement =
      Respects-bind _ _
        (Respects-when _ _ λ h.
          Respects-bind _ _ (w.agreement _ _ _ now (and_right _ _ h))
            λ _. Respects-bind _ _ (w.agreement _ _ _ now refl) λ _. Respects-pure tt)
        λ _.
          Respects-when _ _
            λ h. Respects-bind _ _ (w.agreement _ _ _ now (and_right _ _ h)) λ _. Respects-pure tt

  pub Respects-end_scope_agreement :
      (agreement : ℕ) (to : Terminal) (now : ℕ)
      → Respects k (transition_agreement_when_all_escrows_terminal app agreement to now)
  unfolding transition_agreement_when_all_escrows_terminal end_agreement
  Respects-end_scope_agreement agreement to now =
      search (respects_rules, query_rules, Respects-move_agreement)

  Respects-fund_milestone :
      (escrow : Escrow) (now : ℕ) (milestone : Milestone)
      → Respects k (fund_milestone app escrow now milestone)
  unfolding fund_milestone
  Respects-fund_milestone escrow now milestone = Respects-when _ _ λ h.
      Respects-bind _ _ (w.milestone _ _ _ (fundable_move milestone.status h))
        λ _. Respects-milestone_event _ _ _ _ now

  Respects-fund_agreement :
      (now : ℕ) (agreement : Agreement) → Respects k (fund_agreement app now agreement)
  unfolding fund_agreement
  Respects-fund_agreement now agreement = Respects-when _ _ λ h.
      Respects-bind _ _ (w.agreement _ _ _ now (funding_move agreement.status h))
        λ _. Respects-pure tt

  pub Respects-fund_scope :
      (escrow : Escrow) (now : ℕ) → Respects k (transition_funding_scope app escrow now)
  unfolding transition_funding_scope fund_milestone_of
  Respects-fund_scope escrow now =
      search
        (
          respects_rules, query_rules, Respects-escrow_event, Respects-fund_milestone,
          Respects-fund_agreement,
        )
        depth 12

  pub Respects-enqueue :
      (escrow : Escrow) (id now : ℕ) → Respects k (enqueue_ckb_reconciliation escrow id now)
  unfolding enqueue_ckb_reconciliation
  Respects-enqueue escrow id now =
      Respects-when _ _ λ _. Respects-bind _ _ (w.job _) λ _. Respects-pure tt
