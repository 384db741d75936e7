-- ===== src/Escrow/History.antt =====
-- What the requests do to an escrow over time, against the table of escrow.state-machine.ts.
use pactagent.Prelude.{
  ℕ, ◌≡◌, refl, ◌∙◌, sym, subst, Bool, true, false, List, [], ◌∷◌, ◌⊎◌, inl, inr, update_rows,
  Option, arith, if◌then◌else◌,
}
use pactagent.Lifecycle.Escrow.{EscrowStatus, can_transition_escrow}
use pactagent.Store.Rows.{Text, Escrow, Rail}
use pactagent.Store.Tx.{Db}
use pactagent.Repository.Admits.{Moves, EscrowMoveBy}
use pactagent.Repository.Idempotency.{Env}
use pactagent.Idempotency.{Request}
use pactagent.Escrow.Adapter.{EscrowAdapter}
use pactagent.Escrow.Settlement.{Operation, settlement_pending_status}
use pactagent.Escrow.Funding.{is_funding_status}
use pactagent.Escrow.OnEscrows.{OnEscrows, keeping, escrows-Serves}
use pactagent.Escrow.FlowKeeps.{ServesBy, Holds-settlement, Holds-funding}
use pactagent.Escrow.Flows.{execute_escrow_settlement, mark_escrow_funded}

-- The moves may be made one after another.
record Closed (may : Moves) : Type 0 where
  stays : (s : EscrowStatus) → may s s
  joins : (s t u : EscrowStatus) → may s t → may t u → may s u

-- What a settlement may do to a status: none but one that is funded, or pending for it, leaves it,
-- and then for the pending one or for what the table allows from there.
abbrev pub SettlesTo : Operation → Moves
SettlesTo operation s t =
    (t ≡ s)
    ⊎ (((s ≡ EscrowStatus.funded) ⊎ (s ≡ settlement_pending_status operation))
        × ((t ≡ settlement_pending_status operation)
            ⊎ (can_transition_escrow (settlement_pending_status operation) t ≡ true)))

-- What marking an escrow funded may do: one move of the table, to a status of funding.
abbrev pub FundsTo : Moves
FundsTo s t = (t ≡ s) ⊎ ((is_funding_status t ≡ true) × (can_transition_escrow s t ≡ true))

-- The escrow later: what it holds and for whom is the same, and its status has moved by one of the
-- moves.
pub record Kept (may : Moves) (before after : Escrow) : Type 0 where
  pub id : after.id ≡ before.id
  pub app_id : after.app_id ≡ before.app_id
  pub agreement_id : after.agreement_id ≡ before.agreement_id
  pub milestone_id : after.milestone_id ≡ before.milestone_id
  pub amount : after.amount ≡ before.amount
  pub currency : after.currency ≡ before.currency
  pub status : may before.status after.status

-- No escrow is added or lost, and each is kept.
abbrev pub AllKept : Moves → List Escrow → List Escrow → Type 0
AllKept may [] [] = Unit
AllKept may (x ∷ xs) (y ∷ ys) = Kept may x y × AllKept may xs ys
AllKept may _ _ = ⊥

module _ {may : Moves} (closed : Closed may) where
  same_row : (x : Escrow) → Kept may x x
  same_row x = record {
    id = refl;
    app_id = refl;
    agreement_id = refl;
    milestone_id = refl;
    amount = refl;
    currency = refl;
    status = closed.stays x.status;
  }

  later_row : (x y z : Escrow) → Kept may x y → Kept may y z → Kept may x z
  later_row x y z h k = record {
    id = k.id ∙ h.id;
    app_id = k.app_id ∙ h.app_id;
    agreement_id = k.agreement_id ∙ h.agreement_id;
    milestone_id = k.milestone_id ∙ h.milestone_id;
    amount = k.amount ∙ h.amount;
    currency = k.currency ∙ h.currency;
    status = closed.joins x.status y.status z.status h.status k.status;
  }

  moved_row : (x y : Escrow) → EscrowMoveBy may x y → Kept may x y
  moved_row x y m = record {
    id = m.id;
    app_id = m.app_id;
    agreement_id = m.agreement_id;
    milestone_id = m.milestone_id;
    amount = m.amount;
    currency = m.currency;
    status = m.by;
  }

  all_same : (xs : List Escrow) → AllKept may xs xs
  all_same [] = tt
  all_same (x ∷ xs) = (same_row x, all_same xs)

  all_later : (xs ys zs : List Escrow) → AllKept may xs ys → AllKept may ys zs → AllKept may xs zs
  all_later [] [] zs h k = k
  all_later (x ∷ xs) (y ∷ ys) [] h k = k
  all_later (x ∷ xs) (y ∷ ys) (z ∷ zs) h k = (later_row x y z h.0 k.0, all_later xs ys zs h.1 k.1)
  all_later [] (y ∷ ys) zs h k = absurd h
  all_later (x ∷ xs) [] zs h k = absurd h

  row_moved :
      (b : Bool) (x y : Escrow)
      → (b ≡ true → EscrowMoveBy may x y)
      → Kept may x (if b then y else x)
  row_moved true x y h = moved_row x y (h refl)
  row_moved false x y h = same_row x

  all_moved :
      (test : Escrow → Bool) (change : Escrow → Escrow) (xs : List Escrow)
      → ((row : Escrow) → test row ≡ true → EscrowMoveBy may row (change row))
      → AllKept may xs (update_rows test change xs)
  unfolding update_rows
  all_moved test change [] h = tt
  all_moved test change (x ∷ xs) h =
      (row_moved (test x) x (change x) (h x), all_moved test change xs h)

  abbrev history : OnEscrows
  history = record { rel = AllKept may; reflexive = all_same; transitive = all_later }

  history-ServesBy : (app : ℕ) → ServesBy may app (keeping history)
  history-ServesBy app = escrows-Serves history λ id from change xs h. all_moved _ change xs h

settled_twice :
    (operation : Operation) (s t u : EscrowStatus)
    → SettlesTo operation s t
    → SettlesTo operation t u
    → SettlesTo operation s u
settled_twice operation s t u (inl same) k = subst (λ x. SettlesTo operation x u) same k
settled_twice operation s t u (inr h) (inl same) =
    subst (λ x. SettlesTo operation s x) (sym same) (inr h)
settled_twice operation s t u (inr h) (inr k) = inr (h.0, k.1)

-- Whatever may be detected as funded may be funded.
detected_first :
    (s : EscrowStatus)
    → can_transition_escrow s EscrowStatus.funding_detected ≡ true
    → can_transition_escrow s EscrowStatus.funded ≡ true
detected_first s h = ground arith

funded_next :
    (s t u : EscrowStatus)
    → is_funding_status t ≡ true
    → is_funding_status u ≡ true
    → can_transition_escrow s t ≡ true
    → can_transition_escrow t u ≡ true
    → can_transition_escrow s u ≡ true
funded_next s t u ft fu h k = ground (arith, detected_first s)

funded_twice : (s t u : EscrowStatus) → FundsTo s t → FundsTo t u → FundsTo s u
funded_twice s t u (inl same) k = subst (λ x. FundsTo x u) same k
funded_twice s t u (inr h) (inl same) = subst (λ x. FundsTo s x) (sym same) (inr h)
funded_twice s t u (inr h) (inr k) = inr (k.0, funded_next s t u h.0 k.0 h.1 k.1)

settling-Closed : (operation : Operation) → Closed (SettlesTo operation)
settling-Closed operation = record {
  stays = λ s. inl refl;
  joins = λ s t u h k. settled_twice operation s t u h k;
}

funding-Closed : Closed FundsTo
funding-Closed = record { stays = λ s. inl refl; joins = λ s t u h k. funded_twice s t u h k }

module _ (env : Env) (adapters : Rail → EscrowAdapter) (app : ℕ) (req : Request) (db : Db) where
  -- A release or a refund adds and loses no escrow, and leaves the amount, the currency, the
  -- agreement and the milestone of each as they were. No status changes but one that is funded or
  -- pending for the operation, and it becomes the pending one or one that the state machine allows
  -- from there: the operation's end, a failure or a reconciliation. This is so whatever the adapters
  -- answer and however the request ends.
  pub settlement_history :
      (escrow : ℕ) (operation : Operation)
      → AllKept
          (SettlesTo operation)
          db.escrows
          (execute_escrow_settlement env adapters app req escrow operation db).1.escrows
  settlement_history escrow operation =
      (Holds-settlement (history-ServesBy (settling-Closed operation) app) env adapters req escrow
          operation
          (record { begins = inr (inl refl, inl refl); goes_on = λ to h. inr (inr refl, h) })).at
        db

  -- Marking an escrow funded adds and loses no escrow, and leaves the amount, the currency, the
  -- agreement and the milestone of each as they were. A status stays, or it becomes `funded` or
  -- `funding_detected` by one move of the state machine, whatever the adapters answer.
  pub funding_history :
      (escrow : ℕ) (hash : Option Text)
      → AllKept FundsTo db.escrows
          (mark_escrow_funded env adapters app req escrow hash db).1.escrows
  funding_history escrow hash =
      (Holds-funding (history-ServesBy funding-Closed app) env adapters req escrow hash
          λ from to fits allowed. inr (fits, allowed)).at
        db
