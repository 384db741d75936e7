-- ===== src/Disputes/Keeps.antt =====
-- The requests on disputes keep every relation that admits their writes.
use pactagent.Prelude.{ℕ, ◌≡◌, refl, true, false, Bool, String, Option, List, [], ◌∷◌}
use pactagent.Errors.{Error, Result, ok, err, require, unique_violation}
use pactagent.Lifecycle.Agreement.{
  AgreementStatus, can_transition_agreement, assert_agreement_transition,
}
use pactagent.Lifecycle.Milestone.{
  MilestoneStatus, can_transition_milestone, assert_milestone_transition,
}
use pactagent.Lifecycle.Dispute.{DisputeStatus}
use pactagent.Lifecycle.DisputePaths.{ResolutionType}
use pactagent.Store.Rows.{Agreement, Dispute}
use pactagent.Store.Tx.{Db}
use pactagent.Store.Respects.{
  Keeping, Respects, Respects-bind, Respects-check, Respects-pure, Respects-reads, respects_rules,
  err≢ok,
}
use pactagent.Repository.Admits.{Admits}
use pactagent.Repository.Queries.{query_rules}
use pactagent.Repository.Escrows.{find_active_escrow_for_scope}
use pactagent.Repository.Disputes.{
  CreateDisputeInput, ResolveDisputeInput, find_unresolved_dispute_for_scope, create_dispute,
  find_dispute_for_app, resolve_dispute_row,
}
use pactagent.Repository.Idempotency.{Context}
use pactagent.Idempotency.{Request}
use pactagent.Disputes.{
  advance_agreement, advance_milestone, record_dispute, dispute_conflict,
  create_dispute_or_conflict, find_disputed_milestone, open_dispute, assert_split,
  assert_resolution, resolve_dispute,
}

-- The relation admits what is written to the disputes of the app.
pub record AdmitsDisputes (app : ℕ) (k : Keeping) : Type 0 where
  pub create : (input : CreateDisputeInput) → Respects k (create_dispute app input)
  pub resolve :
      (id : ℕ) (from : DisputeStatus) (input : ResolveDisputeInput) (now : ℕ)
      → Respects k (resolve_dispute_row app id from input now)

required : (b : Bool) (e : Error) → require b e ≡ ok tt → b ≡ true
required true e h = refl
required false e h = cc

pub agreement_move :
    (s t : AgreementStatus)
    → assert_agreement_transition s t ≡ ok tt
    → can_transition_agreement s t ≡ true
agreement_move s t h = required _ _ h

milestone_move :
    (s t : MilestoneStatus)
    → assert_milestone_transition s t ≡ ok tt
    → can_transition_milestone s t ≡ true
milestone_move s t h = required _ _ h

created_dispute :
    {r : Result (Dispute × Db)} {row : Dispute} {db : Db}
    → dispute_conflict r ≡ ok (row, db)
    → r ≡ ok (row, db)
created_dispute {r = ok x} h = h
created_dispute {r = err unique_violation} h = absurd (err≢ok h)
created_dispute {r = err e} h = h

module _ {k : Keeping} where
  Respects-find_dispute_row : (app id : ℕ) → Respects k (find_dispute_for_app app id)
  unfolding find_dispute_for_app
  Respects-find_dispute_row app id = Respects-reads _

  Respects-find_unresolved :
      (app agreement milestone : ℕ)
      → Respects k (find_unresolved_dispute_for_scope app agreement milestone)
  unfolding find_unresolved_dispute_for_scope
  Respects-find_unresolved app agreement milestone = Respects-reads _

  Respects-find_active :
      (app agreement : ℕ) (milestone : Option ℕ)
      → Respects k (find_active_escrow_for_scope app agreement milestone)
  unfolding find_active_escrow_for_scope
  Respects-find_active app agreement milestone = Respects-reads _

  pub Respects-find_milestone_of :
      (app id : ℕ) (agreement : Agreement) → Respects k (find_disputed_milestone app id agreement)
  unfolding find_disputed_milestone
  Respects-find_milestone_of app id agreement = search (respects_rules, query_rules) depth 12

  Respects-resolution :
      (type : ResolutionType) (app agreement milestone : ℕ) (input : ResolveDisputeInput)
      → Respects k (assert_resolution type app agreement milestone input)
  unfolding assert_resolution assert_split
  Respects-resolution ResolutionType.split app agreement milestone input =
      search (respects_rules, Respects-find_active) depth 12
  Respects-resolution _ app agreement milestone input = Respects-pure tt

module _ {app : ℕ} {k : Keeping} (w : Admits app k) where
  pub Respects-advance_agreement :
      (id : ℕ) (s : AgreementStatus) (path : List AgreementStatus) (now : ℕ)
      → Respects k (advance_agreement app id s path now)
  unfolding advance_agreement
  Respects-advance_agreement id s [] now = Respects-pure tt
  Respects-advance_agreement id s (t ∷ path) now = Respects-check _ _ λ _ h.
      Respects-bind _ _ (w.agreement id s t now (agreement_move s t h))
        λ _. Respects-advance_agreement id t path now

  pub Respects-advance_milestone :
      (id : ℕ) (s : MilestoneStatus) (path : List MilestoneStatus)
      → Respects k (advance_milestone app id s path)
  unfolding advance_milestone
  Respects-advance_milestone id s [] = Respects-pure tt
  Respects-advance_milestone id s (t ∷ path) = Respects-check _ _ λ _ h.
      Respects-bind _ _ (w.milestone id s t (milestone_move s t h))
        λ _. Respects-advance_milestone id t path

module _ {app : ℕ} {k : Keeping} (w : Admits app k) (d : AdmitsDisputes app k) where
  Respects-record :
      (req : Request) (agreement milestone dispute : ℕ) (action : String)
      → Respects k (record_dispute app req agreement milestone dispute action)
  unfolding record_dispute
  Respects-record req agreement milestone dispute action =
      Respects-bind _ _ (w.event _ req.now) λ _. w.audit _ refl

  Respects-create_or_conflict :
      (input : CreateDisputeInput) → Respects k (create_dispute_or_conflict app input)
  unfolding create_dispute_or_conflict
  Respects-create_or_conflict input = record {
    at = λ db row db' e. (d.create input).at db row db' (created_dispute e);
  }

  pub Respects-open_dispute :
      (req : Request) (input : CreateDisputeInput) (context : Context)
      → Respects k (open_dispute app req input context)
  unfolding open_dispute
  Respects-open_dispute req input context =
      search
        (
          respects_rules, query_rules, Respects-find_milestone_of, Respects-find_unresolved,
          Respects-create_or_conflict, Respects-advance_agreement, Respects-advance_milestone,
          Respects-record,
        )
        depth 30

  pub Respects-resolve_dispute :
      (req : Request) (id : ℕ) (input : ResolveDisputeInput) (context : Context)
      → Respects k (resolve_dispute app req id input context)
  unfolding resolve_dispute
  Respects-resolve_dispute req id input context =
      search
        (
          respects_rules, query_rules, Respects-find_milestone_of, Respects-find_dispute_row,
          Respects-resolution, d.resolve, Respects-advance_agreement, Respects-advance_milestone,
          Respects-record,
        )
        depth 30
