-- ===== src/Amounts/Decimal.antt =====
-- The decimal texts of amounts: two texts that are accepted for one value are one text.
use pactagent.Prelude.{
  ℕ, ◌+◌, ◌*◌, ◌-◌, ◌≤◌, ◌<◌, ◌≡◌, refl, ◌≢◌, true, inl, inr, [], ◌∷◌, arith, length, Bool-cases,
  nat_eq, ◌==◌,
}
use pactagent.Errors.{ok}
use pactagent.Store.Rows.{Text}
use pactagent.Amounts.{all_digits, digits_value, parse_positive_integer_amount}

pub le-digits_value : (acc : ℕ) (cs : Text) → acc ≤ digits_value acc cs
le-digits_value acc [] = omega arith
le-digits_value acc (c ∷ cs) = omega (arith, le-digits_value (acc * 10 + (c - b'0')) cs)

-- Texts of one length and one value agree digit by digit.
digits_value_injective :
    (a b : ℕ) (cs ds : Text)
    → length cs ≡ length ds
    → all_digits cs ≡ true
    → all_digits ds ≡ true
    → digits_value a cs ≡ digits_value b ds
    → (a ≡ b) × (cs ≡ ds)
digits_value_injective a b [] [] l x y h = (h, refl)
digits_value_injective a b [] (d ∷ ds) l x y h = absurd (omega arith)
digits_value_injective a b (c ∷ cs) [] l x y h = absurd (omega arith)
digits_value_injective a b (c ∷ cs) (d ∷ ds) l x y h =
    ground (arith, digits_value_injective (a * 10 + (c - b'0')) (b * 10 + (d - b'0')) cs ds)

-- A longer text with a leading digit that is not 0 stands for a larger value.
digits_value_longer :
    (a b : ℕ) (cs ds : Text)
    → 0 < a
    → b < 10
    → length ds < length cs
    → all_digits cs ≡ true
    → all_digits ds ≡ true
    → digits_value a cs ≢ digits_value b ds
digits_value_longer a b [] ds p q l x y h = omega arith
digits_value_longer a b (c ∷ cs) ds p q l x y h = elim (Bool-cases (length cs == length ds)) [
  | inl same ↦ ground (arith, digits_value_injective (a * 10 + (c - b'0')) b cs ds)
  | inr longer ↦ ground (arith, digits_value_longer (a * 10 + (c - b'0')) b cs ds)
]

-- Two texts that are accepted as positive amounts of one value are the same text.
pub parse_positive_injective :
    (s t : Text) {n : ℕ}
    → parse_positive_integer_amount s ≡ ok n
    → parse_positive_integer_amount t ≡ ok n
    → s ≡ t
unfolding parse_positive_integer_amount
parse_positive_injective [] t h k = ground arith
parse_positive_injective (c ∷ cs) [] h k = ground arith
parse_positive_injective (c ∷ cs) (d ∷ ds) h k = ground (
  arith,
  digits_value_injective (0 * 10 + (c - b'0')) (0 * 10 + (d - b'0')) cs ds,
  digits_value_longer (0 * 10 + (c - b'0')) (0 * 10 + (d - b'0')) cs ds,
  digits_value_longer (0 * 10 + (d - b'0')) (0 * 10 + (c - b'0')) ds cs,
)
