-- ===== src/Milestones/Allocation.antt =====
-- The milestones of an agreement never promise more than the agreement's amount: the sums that the
-- check reads, and the invariant of the tables.
pub mod Tables
pub mod Keeps
pub mod Creation
pub mod Requests
use pactagent.Prelude.{
  ℕ, ◌+◌, ◌≤◌, ◌<◌, ◌≡◌, refl, true, false, ◌==◌, nat_eq, arith, Option, some, Bool-cases, inl, inr,
  List, [], ◌∷◌, All, if◌then◌else◌, find_first,
}
use pactagent.Errors.{ok, bound_ok}
use pactagent.Amounts.{digits_value, sum_from, sum_integer_amounts, parse_positive_integer_amount}
use pactagent.Store.Rows.{Text, Agreement, Milestone}
use pactagent.Store.Tx.{Db}
use pactagent.Repository.Agreements.{is_agreement}
use pactagent.Repository.Milestones.{is_milestone_of, amounts_of}

-- What the milestones of the agreement come to.
unfoldable pub allocated : ℕ → ℕ → List Milestone → ℕ
allocated app agreement [] = 0
allocated app agreement (row ∷ rows) =
    let rest = allocated app agreement rows in
    if is_milestone_of app agreement row then digits_value 0 row.amount + rest else rest

-- No agreement is promised out beyond its amount. The ids count up, so that a new agreement has no
-- milestones yet.
pub record Allocated (db : Db) : Type 0 where
  pub agreement_ids : All (λ (row : Agreement). row.id < db.next_id) db.agreements
  pub milestone_ids : All (λ (row : Milestone). row.agreement_id < db.next_id) db.milestones
  pub bound :
      (app id : ℕ) (a : Agreement)
      → find_first (is_agreement app id) db.agreements ≡ some a
      → allocated app id db.milestones ≤ digits_value 0 a.amount

pub parsed_value :
    (text : Text) {n : ℕ} → parse_positive_integer_amount text ≡ ok n → n ≡ digits_value 0 text
unfolding parse_positive_integer_amount
parsed_value text h = ground arith

sum_from-allocated :
    (app id acc : ℕ) (rows : List Milestone) {t : ℕ}
    → sum_from acc (amounts_of app id rows) ≡ ok t
    → t ≡ acc + allocated app id rows
unfolding allocated
sum_from-allocated app id acc [] h = ground arith
sum_from-allocated app id acc (row ∷ rows) {t} h = elim (Bool-cases (is_milestone_of app id row)) [
  | inl own ↦
      let summed : sum_from acc (row.amount ∷ amounts_of app id rows) ≡ ok t = ground arith in
      let (n, parsed, rest) = bound_ok (parse_positive_integer_amount row.amount) _ summed in
      ground (arith, parsed_value row.amount parsed, sum_from-allocated app id (acc + n) rows rest)
  | inr other ↦
      let summed : sum_from acc (amounts_of app id rows) ≡ ok t = ground arith in
      ground (arith, sum_from-allocated app id acc rows summed)
]

pub sum-allocated :
    (app id : ℕ) (rows : List Milestone) {t : ℕ}
    → sum_integer_amounts (amounts_of app id rows) ≡ ok t
    → t ≡ allocated app id rows
unfolding sum_integer_amounts
sum-allocated app id rows h = ground (arith, sum_from-allocated app id 0 rows h)
