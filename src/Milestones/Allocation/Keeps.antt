-- ===== src/Milestones/Allocation/Keeps.antt =====
-- No request of an app's, on whatever it has, lets the milestones promise more than the agreement's
-- amount: the writes, table by table.
use pactagent.Prelude.{ℕ, ◌≤◌, ◌<◌, ◌≡◌, refl, sym, subst, arith, some, All, find_first}
use pactagent.Amounts.{digits_value}
use pactagent.Lifecycle.Proof.{ProofStatus}
use pactagent.Lifecycle.Dispute.{DisputeStatus}
use pactagent.Store.Rows.{Text, Agreement, Milestone, Proof}
use pactagent.Store.Tx.{Db, new_id}
use pactagent.Store.Respects.{
  Keeping, Respects, Respects-bind, Respects-reads, Respects-lift, Respects-modify, Respects-pure,
  respects_rules,
}
use pactagent.Repository.Raw.{Raw}
use pactagent.Repository.Admits.{Admits}
use pactagent.Repository.Admitted.{admitted}
use pactagent.Repository.Writes.{Respects-new_id}
use pactagent.Repository.Queries.{query_rules}
use pactagent.Repository.Agreements.{is_agreement}
use pactagent.Repository.Escrows.{CreateEscrowInput, create_escrow, transition_escrow_status}
use pactagent.Repository.Disputes.{
  CreateDisputeInput, ResolveDisputeInput, create_dispute, resolve_dispute_row,
}
use pactagent.Repository.Proofs.{
  CreateProofInput, ReviewProofInput, create_proof, create_review, transition_proof_status,
}
use pactagent.Repository.Idempotency.{Context}
use pactagent.Disputes.Keeps.{AdmitsDisputes}
use pactagent.Proofs.Keeps.{AdmitsProofs}
use pactagent.Escrow.Creation.{ReservedCreation, discard_escrow_creation}
use pactagent.Escrow.FlowKeeps.{Serves, Creates}
use pactagent.Milestones.Allocation.{Allocated, allocated}
use pactagent.Milestones.Allocation.Tables.{
  All-mono, All-update_rows, allocated-update_rows, found-update_rows,
}

abbrev pub allocation : Keeping
allocation = record {
  rel = λ before after. Allocated before → Allocated after;
  reflexive = λ db h. h;
  transitive = λ a b c h k o. k (h o);
}

-- A change of the other tables, which at most takes new ids.
pub carried :
    (a b : Db)
    → b.agreements ≡ a.agreements
    → b.milestones ≡ a.milestones
    → a.next_id ≤ b.next_id
    → Allocated a
    → Allocated b
carried a b same_agreements same_milestones le o = record {
  agreement_ids =
      subst (λ xs. All (λ (row : Agreement). row.id < b.next_id) xs) (sym same_agreements)
        (All-mono (λ row. row.id) a.agreements le o.agreement_ids);
  milestone_ids =
      subst (λ xs. All (λ (row : Milestone). row.agreement_id < b.next_id) xs) (sym same_milestones)
        (All-mono (λ row. row.agreement_id) a.milestones le o.milestone_ids);
  bound = λ app id row h.
      subst (λ xs. allocated app id xs ≤ digits_value 0 row.amount) (sym same_milestones)
        (o.bound app id row
          (subst (λ xs. find_first (is_agreement app id) xs ≡ some row) same_agreements h));
}

pub other_rows :
    (a b : Db)
    → b.agreements ≡ a.agreements
    → b.milestones ≡ a.milestones
    → b.next_id ≡ a.next_id
    → Allocated a
    → Allocated b
other_rows a b s t n = carried a b s t (omega (arith, n))

pub allocation-Raw : {app : ℕ} → Raw app allocation
allocation-Raw = record {
  next_id = λ db. carried db _ refl refl (omega arith);
  agreements = λ db test change h o. record {
    agreement_ids =
        All-update_rows (λ row. row.id) _ test change _ (λ row t. (h row t).1.id) o.agreement_ids;
    milestone_ids = o.milestone_ids;
    bound = λ app id row e.
        let (old, found, amount) =
          found-update_rows app id test change _ row (λ x t. (h x t).1) e in
        subst (λ (text : Text). allocated app id db.milestones ≤ digits_value 0 text) (sym amount)
          (o.bound app id old found);
  };
  milestones = λ db test change h o. record {
    agreement_ids = o.agreement_ids;
    milestone_ids =
        All-update_rows (λ row. row.agreement_id) _ test change _
          (λ row t. (h row t).1.agreement_id) o.milestone_ids;
    bound = λ app id row e.
        subst (λ n. n ≤ digits_value 0 row.amount)
          (sym (allocated-update_rows app id test change _ λ x t. (h x t).1))
          (o.bound app id row e);
  };
  new_transaction = λ db row h. other_rows db _ refl refl refl;
  transactions = λ db test change h. other_rows db _ refl refl refl;
  new_event = λ db row h. other_rows db _ refl refl refl;
  new_delivery = λ db row h p. other_rows db _ refl refl refl;
  jobs = λ db rows. other_rows db _ refl refl refl;
  new_audit_log = λ db row h. other_rows db _ refl refl refl;
  new_key = λ db row h. other_rows db _ refl refl refl;
  keys = λ db test change h. other_rows db _ refl refl refl;
  delete_keys = λ db test h. other_rows db _ refl refl refl;
}

module _ (app : ℕ) where
  new_id_kept : Respects allocation new_id
  new_id_kept = Respects-new_id (allocation-Raw {app = app})

  pub allocation-Admits : Admits app allocation
  unfolding transition_escrow_status
  allocation-Admits = admitted (allocation-Raw {app = app}) λ id from change move.
      Respects-bind _ _ (Respects-reads _) λ count.
        Respects-bind _ _ (Respects-modify _ λ db. other_rows db _ refl refl refl)
          λ _. Respects-pure _

  pub allocation-Serves : Serves app allocation
  allocation-Serves = record { raw = allocation-Raw {app = app}; writes = allocation-Admits }

  create_escrow_kept : (input : CreateEscrowInput) → Respects allocation (create_escrow app input)
  unfolding create_escrow
  create_escrow_kept input = Respects-bind _ _ (Respects-reads _) λ taken.
      Respects-bind _ _ (Respects-lift _) λ _. Respects-bind _ _ new_id_kept λ id.
        Respects-bind _ _ (Respects-modify _ λ db. other_rows db _ refl refl refl)
          λ _. Respects-pure _

  discard_kept :
      (reserved : ReservedCreation) (context : Context)
      → Respects allocation (discard_escrow_creation app reserved context)
  unfolding discard_escrow_creation
  discard_kept reserved context = Respects-modify _ λ db. other_rows db _ refl refl refl

  pub allocation-Creates : Creates app allocation
  allocation-Creates = record {
    opens = record {
      opening = λ input db t a row db' e. (create_escrow_kept input).at db row db' e;
    };
    discards = discard_kept;
  }

  create_dispute_kept :
      (input : CreateDisputeInput) → Respects allocation (create_dispute app input)
  unfolding create_dispute
  create_dispute_kept input = Respects-bind _ _ (Respects-reads _) λ taken.
      Respects-bind _ _ (Respects-lift _) λ _. Respects-bind _ _ new_id_kept λ id.
        Respects-bind _ _ (Respects-modify _ λ db. other_rows db _ refl refl refl)
          λ _. Respects-pure _

  resolve_dispute_kept :
      (id : ℕ) (from : DisputeStatus) (input : ResolveDisputeInput) (now : ℕ)
      → Respects allocation (resolve_dispute_row app id from input now)
  unfolding resolve_dispute_row
  resolve_dispute_kept id from input now = Respects-bind _ _ (Respects-reads _) λ count.
      Respects-bind _ _ (Respects-modify _ λ db. other_rows db _ refl refl refl)
        λ _. search (respects_rules, query_rules) depth 10

  pub allocation-AdmitsDisputes : AdmitsDisputes app allocation
  allocation-AdmitsDisputes = record {
    create = create_dispute_kept;
    resolve = resolve_dispute_kept;
  }

  create_proof_kept : (input : CreateProofInput) → Respects allocation (create_proof app input)
  unfolding create_proof
  create_proof_kept input = Respects-bind _ _ new_id_kept λ id.
      Respects-bind _ _ (Respects-modify _ λ db. other_rows db _ refl refl refl)
        λ _. Respects-pure _

  create_review_kept :
      (proof : Proof) (input : ReviewProofInput)
      → Respects allocation (create_review app proof input)
  unfolding create_review
  create_review_kept proof input = Respects-bind _ _ new_id_kept λ id.
      Respects-bind _ _ (Respects-modify _ λ db. other_rows db _ refl refl refl)
        λ _. Respects-pure _

  transition_proof_kept :
      (id : ℕ) (from to : ProofStatus)
      → Respects allocation (transition_proof_status app id from to)
  unfolding transition_proof_status
  transition_proof_kept id from to = Respects-bind _ _ (Respects-reads _) λ count.
      Respects-bind _ _ (Respects-modify _ λ db. other_rows db _ refl refl refl)
        λ _. search (respects_rules, query_rules) depth 10

  pub allocation-AdmitsProofs : AdmitsProofs app allocation
  allocation-AdmitsProofs = record {
    create = create_proof_kept;
    transition = transition_proof_kept;
    review = create_review_kept;
  }
