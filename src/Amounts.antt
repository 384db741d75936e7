-- ===== src/Amounts.antt =====
-- server/src/common/amounts: integer-amount.ts and financial-invariants.ts. An amount is a text of
-- decimal digits, by its code points. The counters of rejected requests are left out.
pub mod Decimal
pub mod Bounds
use pactagent.Prelude.{
  String, ℕ, ◌+◌, ◌*◌, ◌-◌, Bool, true, false, not, ◌&&◌, ◌||◌, ◌==◌, nat_eq, leb, ltb, List, [],
  ◌∷◌, map,
}
use pactagent.Errors.{Result, ok, err, invalid_request, reject_if, require, ◌>>=◌, ◌>>◌}
use pactagent.Store.Rows.{Text, text_eq}

-- `MAX_SHANNONS`
abbrev pub max_shannons : ℕ
max_shannons = 18446744073709551615

abbrev pub is_digit : ℕ → Bool
is_digit c = leb b'0' c && leb c b'9'

abbrev pub all_digits : Text → Bool
all_digits [] = true
all_digits (c ∷ cs) = is_digit c && all_digits cs

-- `/^[1-9]\d*$/`
abbrev pub is_positive_integer_amount : Text → Bool
is_positive_integer_amount [] = false
is_positive_integer_amount (c ∷ cs) = leb b'1' c && leb c b'9' && all_digits cs

-- `/^(0|[1-9]\d*)$/`
abbrev pub is_non_negative_integer_amount : Text → Bool
is_non_negative_integer_amount text = text == b'0' ∷ [] || is_positive_integer_amount text

-- `BigInt(value)` on a text of digits, from the digits read so far.
abbrev pub digits_value : ℕ → Text → ℕ
digits_value acc [] = acc
digits_value acc (c ∷ cs) = digits_value (acc * 10 + (c - b'0')) cs

abbrev in_range : ℕ → Result ℕ
in_range amount = do
  reject_if (ltb max_shannons amount) (invalid_request "amount_out_of_range")
  ok amount

unfoldable pub parse_positive_integer_amount : Text → Result ℕ
parse_positive_integer_amount text = do
  require (is_positive_integer_amount text) (invalid_request "invalid_amount")
  in_range (digits_value 0 text)

unfoldable pub parse_non_negative_integer_amount : Text → Result ℕ
parse_non_negative_integer_amount text = do
  require (is_non_negative_integer_amount text) (invalid_request "invalid_amount")
  in_range (digits_value 0 text)

abbrev pub sum_from : ℕ → List Text → Result ℕ
sum_from acc [] = ok acc
sum_from acc (x ∷ xs) = do amount ← parse_positive_integer_amount x; sum_from (acc + amount) xs

unfoldable pub sum_integer_amounts : List Text → Result ℕ
unfolding parse_positive_integer_amount
sum_integer_amounts values = sum_from 0 values

unfoldable pub assert_currency_matches_agreement : Text → Text → Result (Unit {0})
assert_currency_matches_agreement currency agreement_currency =
    require (currency == agreement_currency) (invalid_request "currency_mismatch")

unfoldable pub assert_milestone_allocation_within_agreement : ℕ → Text → Text → Result (Unit {0})
assert_milestone_allocation_within_agreement existing_total proposed agreement = do
  proposed_amount ← parse_positive_integer_amount proposed
  agreement_amount ← parse_positive_integer_amount agreement
  reject_if (ltb agreement_amount (existing_total + proposed_amount))
      (invalid_request "milestone_total_exceeds_agreement")

-- `scope`
pub data AmountScope : Type 0 where
  agreement milestone : AmountScope

abbrev must_equal_code : AmountScope → String
must_equal_code AmountScope.agreement = "escrow_amount_must_equal_agreement"
must_equal_code AmountScope.milestone = "escrow_amount_must_equal_milestone"

abbrev exceeds_code : AmountScope → String
exceeds_code AmountScope.agreement = "escrow_amount_exceeds_agreement"
exceeds_code AmountScope.milestone = "escrow_amount_exceeds_milestone"

unfoldable pub assert_escrow_amount_within_scope :
    Text → Text → AmountScope → Bool → Result (Unit {0})
assert_escrow_amount_within_scope escrow amount scope exact = do
  escrow_amount ← parse_positive_integer_amount escrow
  scope_amount ← parse_positive_integer_amount amount
  reject_if (exact && not (escrow_amount == scope_amount)) (invalid_request (must_equal_code scope))
  reject_if (ltb scope_amount escrow_amount) (invalid_request (exceeds_code scope))

unfoldable pub assert_settlement_split : Text → Text → Text → Result (Unit {0})
assert_settlement_split worker client settlement = do
  worker_amount ← parse_non_negative_integer_amount worker
  client_amount ← parse_non_negative_integer_amount client
  settlement_amount ← parse_positive_integer_amount settlement
  reject_if (ltb settlement_amount worker_amount || ltb settlement_amount client_amount)
      (invalid_request "invalid_settlement_split")
  require (worker_amount + client_amount == settlement_amount)
      (invalid_request "invalid_settlement_split")
