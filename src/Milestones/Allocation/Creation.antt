-- ===== src/Milestones/Allocation/Creation.antt =====
-- The creation of a milestone, from the tables that its checks have read.
use pactagent.Prelude.{
  ℕ, suc, ◌+◌, ◌≤◌, ◌≡◌, ap, subst, ◌∙◌, Bool, true, false, nat_eq, arith, Option, none, some, ◌∷◌,
  find_first, Bool-cases, inl, inr,
}
use pactagent.Errors.{bound_ok, Error, Result, ok, err, reject_if, unique_violation}
use pactagent.Amounts.{
  digits_value, sum_integer_amounts, assert_milestone_allocation_within_agreement,
  parse_positive_integer_amount,
}
use pactagent.Store.Rows.{Text, Agreement, Milestone}
use pactagent.Store.Tx.{Db, pure, lift, or_fail, fail, reads, modify, new_id, ◌>>=◌, ◌>>◌}
use pactagent.Store.Respects.{
  Respects, Respects-bind, Respects-pure, Respects-lift, Respects-reads, Respects-or_fail,
  committed, err≢ok,
}
use pactagent.Store.At.{at_each, each_at, RespectsAt-bind, RespectsAt-query}
use pactagent.Repository.Agreements.{is_agreement, find_agreement_for_app}
use pactagent.Repository.Milestones.{
  CreateMilestoneInput, new_milestone, create_milestone, is_milestone_of,
  get_milestone_amount_sum_for_agreement,
}
use pactagent.Repository.Idempotency.{Context}
use pactagent.Idempotency.{Request}
use pactagent.Milestones.{open_milestone, create_milestone_or_conflict}
use pactagent.Milestones.Keeps.{
  created_milestone, Respects-lock, Respects-order, Respects-announce_milestone,
  Respects-audit_milestone,
}
use pactagent.Milestones.Allocation.{Allocated, allocated, parsed_value, sum-allocated}
use pactagent.Milestones.Allocation.Tables.{All-mono, found-All}
use pactagent.Milestones.Allocation.Keeps.{allocation, allocation-Admits}

-- The tables once a milestone has been created.
abbrev with_milestone : ℕ → ℕ → CreateMilestoneInput → ℕ → Text → Db → Db
with_milestone app agreement input order currency db = record db {
  milestones = new_milestone app agreement input order currency db.next_id ∷ db.milestones;
  next_id = suc db.next_id;
}

created_milestones :
    (app agreement : ℕ) (input : CreateMilestoneInput) (order : ℕ) (currency : Text) (taken : Bool)
    (db : Db) (row : Milestone) (db' : Db)
    → (do
      lift (reject_if taken unique_violation)
      id ← new_id
      modify (λ d. record d {
        milestones = new_milestone app agreement input order currency id ∷ d.milestones;
      })
      pure (new_milestone app agreement input order currency id))
        db
      ≡ ok (row, db')
    → with_milestone app agreement input order currency db ≡ db'
unfolding ◌>>=◌
created_milestones app agreement input order currency true db row db' h = absurd (err≢ok h)
created_milestones app agreement input order currency false db row db' h = committed h

-- A milestone for which there is room.
allocated_with :
    (app agreement : ℕ) (input : CreateMilestoneInput) (order : ℕ) (currency : Text) (db : Db)
    (a : Agreement)
    → find_first (is_agreement app agreement) db.agreements ≡ some a
    → allocated app agreement db.milestones + digits_value 0 input.amount ≤ digits_value 0 a.amount
    → Allocated db
    → Allocated (with_milestone app agreement input order currency db)
unfolding allocated
allocated_with app agreement input order currency db a found room o = record {
  agreement_ids = All-mono (λ row. row.id) db.agreements (omega arith) o.agreement_ids;
  milestone_ids = (
    omega (arith, found-All app agreement db.next_id db.agreements o.agreement_ids found),
    All-mono (λ row. row.agreement_id) db.milestones (omega arith) o.milestone_ids,
  );
  bound = λ app' id row h.
      elim (Bool-cases
        (is_milestone_of app' id (new_milestone app agreement input order currency db.next_id))) [
          | inl own ↦
              let same_id : agreement ≡ id = ground arith in
              let same_app : app ≡ app' = ground arith in
              let there : find_first (is_agreement app' id) db.agreements ≡ some a =
                subst (λ x. find_first (is_agreement x id) db.agreements ≡ some a) same_app
                  (subst (λ x. find_first (is_agreement app x) db.agreements ≡ some a) same_id
                    found) in
              let same : a ≡ row = cc (there, h) in
              let sums : allocated app agreement db.milestones ≡ allocated app' id db.milestones =
                cc (same_id, same_app) in
              ground (arith, room, sums, same)
          | inr other ↦ ground (arith, o.bound app' id row h)
        ];
}

-- What the check of the allocation makes sure of.
room_left :
    (app id : ℕ) (input : CreateMilestoneInput) (a : Agreement) (db : Db) {total : ℕ}
    → total ≡ allocated app id db.milestones
    → assert_milestone_allocation_within_agreement total input.amount a.amount ≡ ok tt
    → allocated app id db.milestones + digits_value 0 input.amount ≤ digits_value 0 a.amount
unfolding assert_milestone_allocation_within_agreement
room_left app id input a db sum h =
    let (p, proposed, rest) = bound_ok (parse_positive_integer_amount input.amount) _ h in
    let (n, limit, fits) = bound_ok (parse_positive_integer_amount a.amount) _ rest in
    ground (arith, parsed_value input.amount proposed, parsed_value a.amount limit)

module _ {A : Type 0} where
  -- A query that answered did so with what it reads.
  lifted : {r : Result A} {a : A} (db d : Db) → lift r db ≡ ok (a, d) → r ≡ ok a
  unfolding lift
  lifted {r = ok x} db d h = cc
  lifted {r = err e} db d h = absurd (err≢ok h)

  found_some :
      {o : Option A} (e : Error) {a : A} (db d : Db) → or_fail o e db ≡ ok (a, d) → o ≡ some a
  unfolding or_fail fail pure
  found_some {o = none} e db d h = absurd (err≢ok h)
  found_some {o = some x} e db d h = cc

  was_read : (f : Db → A) {a : A} (db d : Db) → reads f db ≡ ok (a, d) → f db ≡ a
  unfolding reads
  was_read f db d h = cc

-- The creation itself, once its checks have passed.
created_within :
    (app agreement : ℕ) (input : CreateMilestoneInput) (order : ℕ) (currency : Text) (db : Db)
    (a : Agreement)
    → find_first (is_agreement app agreement) db.agreements ≡ some a
    → allocated app agreement db.milestones + digits_value 0 input.amount ≤ digits_value 0 a.amount
    → (row : Milestone) (db' : Db)
    → create_milestone_or_conflict app agreement input order currency db ≡ ok (row, db')
    → Allocated db
    → Allocated db'
unfolding create_milestone create_milestone_or_conflict ◌>>=◌
created_within app agreement input order currency db a found room row db' h o =
    subst Allocated
      (created_milestones app agreement input order currency _ db row db' (created_milestone h))
      (allocated_with app agreement input order currency db a found room o)

pub open_milestone_kept :
    (app : ℕ) (req : Request) (id : ℕ) (input : CreateMilestoneInput) (context : Context)
    → Respects allocation (open_milestone app req id input context)
unfolding open_milestone find_agreement_for_app get_milestone_amount_sum_for_agreement
open_milestone_kept app req id input context = each_at λ db.
    RespectsAt-query db _ _ (Respects-lock app id) λ locked _.
      RespectsAt-query db _ _ (Respects-lift _) λ _ _.
        RespectsAt-query db _ _ (Respects-reads _) λ found f.
          RespectsAt-query db _ _ (Respects-or_fail _ _) λ a g.
            RespectsAt-query db _ _ (Respects-lift _) λ _ _.
              RespectsAt-query db _ _ (Respects-reads _) λ existing r.
                RespectsAt-query db _ _ (Respects-lift _) λ total t.
                  RespectsAt-query db _ _ (Respects-lift _) λ _ fits.
                    RespectsAt-query db _ _ (Respects-order app id) λ last _.
                      RespectsAt-query db _ _ (Respects-lift _) λ _ _.
                        RespectsAt-bind db _ _ λ created d e. (
                          created_within app id input _ _ db a
                              (was_read _ db db f ∙ found_some _ db db g)
                              (room_left app id input a db
                                (sum-allocated app id db.milestones
                                  (ap sum_integer_amounts (was_read _ db db r) ∙ lifted db db t))
                                (lifted db db fits))
                              created d e,
                          at_each
                              (Respects-bind _ _
                                (Respects-announce_milestone (allocation-Admits app) req id _)
                                λ _.
                                  Respects-bind _ _
                                    (Respects-audit_milestone (allocation-Admits app) req id _)
                                    λ _. Respects-pure _)
                              d,
                        )
