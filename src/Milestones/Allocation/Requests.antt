-- ===== src/Milestones/Allocation/Requests.antt =====
-- The requests of the API as one step relation: whatever the apps ask for, and in whatever order,
-- no agreement is promised out beyond its amount.
use pactagent.Prelude.{
  ℕ, suc, ◌≡◌, subst, Bool, true, false, nat_eq, arith, some, ◌∷◌, find_first, Bool-cases, inl, inr,
}
use pactagent.Errors.{ok, reject_if, unique_violation}
use pactagent.Store.Rows.{Agreement}
use pactagent.Store.Tx.{Db, pure, lift, modify, new_id, ◌>>=◌, ◌>>◌}
use pactagent.Store.Respects.{Respects, committed, err≢ok}
use pactagent.Repository.Agreements.{
  is_agreement, CreateAgreementInput, new_agreement, create_agreement,
}
use pactagent.Milestones.Allocation.{Allocated}
use pactagent.Milestones.Allocation.Tables.{allocated-fresh, All-mono}
use pactagent.Milestones.Allocation.Keeps.{allocation}

-- The tables once an agreement has been created.
created_agreements :
    (app : ℕ) (input : CreateAgreementInput) (taken : Bool) (db : Db) (row : Agreement) (db' : Db)
    → (do
      lift (reject_if taken unique_violation)
      id ← new_id
      modify (λ d. record d { agreements = new_agreement app input id ∷ d.agreements })
      pure (new_agreement app input id))
        db
      ≡ ok (row, db')
    → record db {
      agreements = new_agreement app input db.next_id ∷ db.agreements;
      next_id = suc db.next_id;
    }
      ≡ db'
unfolding ◌>>=◌
created_agreements app input true db row db' h = absurd (err≢ok h)
created_agreements app input false db row db' h = committed h

with_agreement :
    (app : ℕ) (input : CreateAgreementInput) (db : Db)
    → Allocated db
    → Allocated (record db {
      agreements = new_agreement app input db.next_id ∷ db.agreements;
      next_id = suc db.next_id;
    })
unfolding find_first
with_agreement app input db o = record {
  agreement_ids =
      (omega arith, All-mono (λ row. row.id) db.agreements (omega arith) o.agreement_ids);
  milestone_ids = All-mono (λ row. row.agreement_id) db.milestones (omega arith) o.milestone_ids;
  bound = λ app' id row h.
      elim (Bool-cases (is_agreement app' id (new_agreement app input db.next_id))) [
        | inl own ↦ ground (arith, allocated-fresh app' id db.next_id db.milestones o.milestone_ids)
        | inr other ↦
            let h' : find_first (is_agreement app' id) db.agreements ≡ some row = ground arith in
            o.bound app' id row h'
      ];
}

pub create_agreement_kept :
    (app : ℕ) (input : CreateAgreementInput) → Respects allocation (create_agreement app input)
unfolding create_agreement ◌>>=◌
create_agreement_kept app input = record {
  at = λ db row db' h o.
      subst Allocated (created_agreements app input _ db row db' h) (with_agreement app input db o);
}
