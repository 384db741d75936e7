-- ===== src/Escrow/OnEscrows.antt =====
-- A relation between the escrows before and after: no write to another table matters to it.
use pactagent.Prelude.{ℕ, ◌≡◌, true, false, sym, List, ◌∷◌, update_rows, Bool, ap}
use pactagent.Errors.{ok, reject_if, unique_violation}
use pactagent.Store.Rows.{Escrow}
use pactagent.Store.Tx.{Db, pure, lift, modify, new_id, ◌>>=◌, ◌>>◌}
use pactagent.Store.Respects.{
  Keeping, Respects-bind, Respects-reads, Respects-modify, Respects-pure, committed, err≢ok,
}
use pactagent.Repository.Raw.{Raw}
use pactagent.Repository.Admits.{Moves, EscrowMoveBy}
use pactagent.Repository.Admitted.{admitted, picked}
use pactagent.Repository.Escrows.{
  CreateEscrowInput, new_escrow, create_escrow, transition_escrow_status, is_escrow_in,
}
use pactagent.Lifecycle.Escrow.{EscrowStatus}
use pactagent.Escrow.FlowKeeps.{ServesBy}

pub record OnEscrows : Type 1 where
  pub rel : List Escrow → List Escrow → Type 0
  pub reflexive : (xs : List Escrow) → rel xs xs
  pub transitive : (xs ys zs : List Escrow) → rel xs ys → rel ys zs → rel xs zs

abbrev pub keeping : OnEscrows → Keeping
keeping r = record {
  rel = λ a b. r.rel a.escrows b.escrows;
  reflexive = λ a. r.reflexive a.escrows;
  transitive = λ a b c h k. r.transitive a.escrows b.escrows c.escrows h k;
}

module _ {app : ℕ} (r : OnEscrows) where
  escrows-Raw : Raw app (keeping r)
  escrows-Raw = record {
    next_id = λ db. r.reflexive _;
    agreements = λ db test change h. r.reflexive _;
    milestones = λ db test change h. r.reflexive _;
    new_transaction = λ db row h. r.reflexive _;
    transactions = λ db test change h. r.reflexive _;
    new_event = λ db row h. r.reflexive _;
    new_delivery = λ db row h p. r.reflexive _;
    jobs = λ db rows. r.reflexive _;
    new_audit_log = λ db row h. r.reflexive _;
    new_key = λ db row h. r.reflexive _;
    keys = λ db test change h. r.reflexive _;
    delete_keys = λ db test h. r.reflexive _;
  }

module _ {may : Moves} {app : ℕ} (r : OnEscrows) where
  -- What is left to show is that the relation allows each move of an escrow.
  pub escrows-Serves :
      ((id : ℕ) (from : EscrowStatus) (change : Escrow → Escrow) (xs : List Escrow)
        → ((row : Escrow) → is_escrow_in app id from row ≡ true → EscrowMoveBy may row (change row))
        → r.rel xs (update_rows (is_escrow_in app id from) change xs))
      → ServesBy may app (keeping r)
  unfolding transition_escrow_status
  escrows-Serves moves = record {
    raw = escrows-Raw r;
    writes = admitted (escrows-Raw r) λ id from change move.
        Respects-bind _ _ (Respects-reads _) λ count.
          Respects-bind _ _
            (Respects-modify _
              λ db. moves id from change db.escrows λ row t. move row (picked app id from row t).1)
            λ _. Respects-pure _;
  }

-- The tables once an escrow has been created.
created_tables :
    (app : ℕ) (input : CreateEscrowInput) (taken : Bool) (db : Db) (row : Escrow) (db' : Db)
    → (do
      lift (reject_if taken unique_violation)
      id ← new_id
      modify (λ d. record d { escrows = new_escrow app input id ∷ d.escrows })
      pure (new_escrow app input id))
        db
      ≡ ok (row, db')
    → db'.escrows ≡ new_escrow app input db.next_id ∷ db.escrows
unfolding ◌>>=◌
created_tables app input true db row db' h = absurd (err≢ok h)
created_tables app input false db row db' h = ap (λ d. d.escrows) (sym (committed h))

pub created_escrows :
    (app : ℕ) (input : CreateEscrowInput) (db : Db) (row : Escrow) (db' : Db)
    → create_escrow app input db ≡ ok (row, db')
    → db'.escrows ≡ new_escrow app input db.next_id ∷ db.escrows
unfolding create_escrow ◌>>=◌
created_escrows app input db row db' h = created_tables app input _ db row db' h
