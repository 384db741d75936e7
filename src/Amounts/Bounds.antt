-- ===== src/Amounts/Bounds.antt =====
-- What the financial checks let through.
use pactagent.Prelude.{ℕ, ◌+◌, ◌≤◌, ◌<◌, ◌≡◌, ◌↔◌, Bool, true, false, arith, [], ◌∷◌, ◌*◌, ◌-◌}
use pactagent.Errors.{ok}
use pactagent.Store.Rows.{Text}
use pactagent.Amounts.Decimal.{le-digits_value}
use pactagent.Amounts.{
  AmountScope, max_shannons, parse_positive_integer_amount, parse_non_negative_integer_amount,
  assert_settlement_split, assert_escrow_amount_within_scope,
  assert_milestone_allocation_within_agreement,
}

-- A split of amounts that parse is accepted exactly when the worker's and the client's amounts make
-- up the settlement amount.
pub split_exact :
    (worker client settlement : Text) {w c s : ℕ}
    → parse_non_negative_integer_amount worker ≡ ok w
    → parse_non_negative_integer_amount client ≡ ok c
    → parse_positive_integer_amount settlement ≡ ok s
    → (assert_settlement_split worker client settlement ≡ ok tt) ↔ (w + c ≡ s)
unfolding assert_settlement_split
split_exact worker client settlement pw pc ps = (λ h. ground arith, λ h. ground arith)

-- An escrow amount that parses is accepted exactly when it is at most the amount of its scope, and
-- equal to it where the rail wants it exact.
pub escrow_amount_bound :
    (escrow amount : Text) (scope : AmountScope) (exact : Bool) {e s : ℕ}
    → parse_positive_integer_amount escrow ≡ ok e
    → parse_positive_integer_amount amount ≡ ok s
    → (assert_escrow_amount_within_scope escrow amount scope exact ≡ ok tt)
      ↔ ((e ≤ s) × (exact ≡ true → e ≡ s))
unfolding assert_escrow_amount_within_scope
escrow_amount_bound escrow amount scope true pe ps = (λ h. ground arith, λ h. ground arith)
escrow_amount_bound escrow amount scope false pe ps = (λ h. ground arith, λ h. ground arith)

-- A new milestone is accepted exactly when the amounts allocated so far and its own do not pass the
-- amount of the agreement.
pub allocation_bound :
    (existing : ℕ) (proposed agreement : Text) {p a : ℕ}
    → parse_positive_integer_amount proposed ≡ ok p
    → parse_positive_integer_amount agreement ≡ ok a
    → (assert_milestone_allocation_within_agreement existing proposed agreement ≡ ok tt)
      ↔ (existing + p ≤ a)
unfolding assert_milestone_allocation_within_agreement
allocation_bound existing proposed agreement pp pa = (λ h. ground arith, λ h. ground arith)

-- Whatever parses as a positive amount lies between 1 and the largest 64-bit word.
pub positive_amount_range :
    (text : Text) {n : ℕ} → parse_positive_integer_amount text ≡ ok n → (0 < n) × (n ≤ max_shannons)
unfolding parse_positive_integer_amount
positive_amount_range [] h = ground arith
positive_amount_range (c ∷ cs) h = ground (arith, le-digits_value (0 * 10 + (c - b'0')) cs)
